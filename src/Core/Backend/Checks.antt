-- ===== src/Core/Backend/Checks.antt =====
-- What the maps of a request hold, and what a candidate that passed every check holds.
use symnav.Prelude.{
  ◌≡◌, refl, subst, ◌∙◌, Bool, true, false, not, Option, none, some, List, [], ◌∷◌, arith, Text,
  text_eq, text_eq_iff, is_some, All, inl, inr, ◌⊎◌, if◌then◌else◌, ok, err, throw_if, >>=-eq-ok,
  throw_if-eq-ok, All-left, All-right,
}
use symnav.Prelude.Map
use symnav.Prelude.Map.{Map, values, keys, get-set, get-delete}
use symnav.Core.Backend.{
  WorkspaceFile, outside_path, wrong_revision, RevisionedBackendPreparedFile,
  RevisionedBackendFileChange, added, changed, RevisionedBackendIndex, same_revision,
}
use symnav.Core.Backend.Candidate.{
  change_of, changes_of, check_prepared, collect_prepared, changed_file, check_changes,
  set_prepared,
}

module _ {D : Type 0} where
  -- What a prepared file has against the file of its path.
  abbrev pub Placed : Map WorkspaceFile → Text → Option (RevisionedBackendPreparedFile D) → Type 0
  Placed effective path found =
      (p : RevisionedBackendPreparedFile D) × (f : WorkspaceFile) × (found ≡ some p)
      × (Map.get path effective ≡ some f)
      × (same_revision p.file f ≡ true)

  -- Or what stood at the path stays.
  abbrev pub Outcome :
      Map WorkspaceFile
      → Text
      → Map (RevisionedBackendPreparedFile D)
      → Map (RevisionedBackendPreparedFile D)
      → Map (RevisionedBackendPreparedFile D)
      → Map (RevisionedBackendPreparedFile D)
      → Type 0
  Outcome effective path after before out seen =
      Placed effective path (Map.get path after)
      ⊎ ((Map.get path after ≡ Map.get path before) × (Map.get path out ≡ Map.get path seen))

  check_prepared-eq-ok :
      (effective : Map WorkspaceFile) (seen : Map (RevisionedBackendPreparedFile D))
      (p : RevisionedBackendPreparedFile D)
      → check_prepared effective seen p ≡ ok tt
      → (f : WorkspaceFile) × (Map.get p.file.relative effective ≡ some f)
        × (same_revision p.file f ≡ true)
  unfolding check_prepared
  check_prepared-eq-ok effective seen p passed =
      placed (Map.get p.file.relative effective)
        (throw_if-eq-ok (is_some (Map.get p.file.relative seen)) _ _ passed).1
    where
      placed :
          (o : Option WorkspaceFile)
          → elim o [
            | none ↦ err (outside_path p.file.relative)
            | some file ↦
                throw_if (not (same_revision p.file file)) (wrong_revision p.file.relative)
          ]
            ≡ ok tt
          → (f : WorkspaceFile) × (o ≡ some f) × (same_revision p.file f ≡ true)
      placed none h = cc
      placed (some f) h = (f, refl, ground arith)

  -- Checked files: at each path stands one of them, in the revision of the path, or what stood there.
  pub set_prepared-Placed :
      (effective : Map WorkspaceFile) (ps : List (RevisionedBackendPreparedFile D))
      (m seen out : Map (RevisionedBackendPreparedFile D)) (path : Text)
      → collect_prepared effective ps seen ≡ ok out
      → Outcome effective path (set_prepared ps m) m out seen
  unfolding collect_prepared set_prepared
  set_prepared-Placed effective [] m seen out path passed = inr (refl, cc)
  set_prepared-Placed effective (p ∷ ps) m seen out path passed =
      next (>>=-eq-ok (check_prepared effective seen p) _ passed) (
        set_prepared-Placed effective ps (Map.set p.file.relative p m)
          (Map.set p.file.relative p seen) out path)
    where
      later : Map (RevisionedBackendPreparedFile D)
      later = set_prepared ps (Map.set p.file.relative p m)

      here :
          (b : Bool)
          → text_eq p.file.relative path ≡ b
          → check_prepared effective seen p ≡ ok tt
          → Outcome effective path later
              (Map.set p.file.relative p m)
              out
              (Map.set p.file.relative p seen)
          → Outcome effective path later m out seen
      here b e checked (inl placed) = inl placed
      here true e checked (inr (at_later, at_out)) =
          placed_here (check_prepared-eq-ok effective seen p checked)
        where
          placed_here :
              ((f : WorkspaceFile) × (Map.get p.file.relative effective ≡ some f)
                × (same_revision p.file f ≡ true))
              → Outcome effective path later m out seen
          placed_here (f, known, same) = inl (
            p,
            f,
            (at_later ∙ get-set p.file.relative path p m ∙ rw e refl),
            subst (λ k. Map.get k effective ≡ some f) ((text_eq_iff p.file.relative path).0 e)
                known,
            same,
          )
      here false e checked (inr (at_later, at_out)) = inr (
        (at_later ∙ get-set p.file.relative path p m ∙ rw e refl),
        (at_out ∙ get-set p.file.relative path p seen ∙ rw e refl),
      )

      next :
          ((value : Unit {0}) × (check_prepared effective seen p ≡ ok value)
            × (collect_prepared effective ps (Map.set p.file.relative p seen) ≡ ok out))
          → (collect_prepared effective ps (Map.set p.file.relative p seen) ≡ ok out
              → Outcome effective path later
                  (Map.set p.file.relative p m)
                  out
                  (Map.set p.file.relative p seen))
          → Outcome effective path later m out seen
      next (tt, checked, after) rest = here (text_eq p.file.relative path) refl checked (rest after)

  pub check_changes-eq-ok :
      (out : Map (RevisionedBackendPreparedFile D)) (changes : List (RevisionedBackendFileChange D))
      → check_changes out changes ≡ ok tt
      → All (λ c. is_some (Map.get (changed_file c).relative out) ≡ true) changes
  unfolding check_changes
  check_changes-eq-ok out [] passed = tt
  check_changes-eq-ok out (c ∷ changes) passed = ground (arith, check_changes-eq-ok out changes)

  -- A file that was prepared, or is known in its revision.
  abbrev pub IsCovered :
      RevisionedBackendIndex D → Map (RevisionedBackendPreparedFile D) → WorkspaceFile → Type 0
  IsCovered index out f =
      (is_some (Map.get f.relative out) ≡ true)
      ⊎ ((q : RevisionedBackendPreparedFile D) × (Map.get f.relative index.by_relative_path
            ≡ some q)
          × (same_revision q.file f ≡ true))

  pub changes_of-IsCovered :
      (index : RevisionedBackendIndex D) (out : Map (RevisionedBackendPreparedFile D))
      (files : List WorkspaceFile)
      → All (λ c. is_some (Map.get (changed_file c).relative out) ≡ true) (changes_of index files)
      → All (IsCovered index out) files
  unfolding changes_of change_of
  changes_of-IsCovered index out [] h = tt
  changes_of-IsCovered index out (f ∷ files) h = (
    covered (Map.get f.relative index.by_relative_path) refl
        (All-left P (change_of index f) (changes_of index files) h),
    changes_of-IsCovered index out files
        (All-right P (change_of index f) (changes_of index files) h),
  )
    where
      P : RevisionedBackendFileChange D → Type 0
      P c = is_some (Map.get (changed_file c).relative out) ≡ true

      covered :
          (o : Option (RevisionedBackendPreparedFile D))
          → Map.get f.relative index.by_relative_path ≡ o
          → All P (elim o [
            | none ↦ added f ∷ []
            | some previous ↦ if same_revision previous.file f then [] else changed f previous ∷ []
          ])
          → IsCovered index out f
      covered none e hc = inl hc.0
      covered (some q) e hc = when_same (same_revision q.file f) refl hc
        where
          when_same :
              (b : Bool)
              → same_revision q.file f ≡ b
              → All P (if b then [] else changed f q ∷ [])
              → IsCovered index out f
          when_same true same hb = inr (q, e, same)
          when_same false same hb = inl hb.0
