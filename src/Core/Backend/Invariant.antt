-- ===== src/Core/Backend/Invariant.antt =====
-- What every refresh keeps of an index: each file under its path, and the maps derived from the files.
use symnav.Prelude.{
  ◌≡◌, refl, sym, ap, subst, ◌∙◌, ℕ, Bool, true, false, ◌==◌, ==_iff, Option, none, some, List, [],
  ◌∷◌, Text, filter, get_or, All, if◌then◌else◌, Result, ok, err, >>=-eq-ok, ok-injective,
}
use symnav.Prelude.Map
use symnav.Prelude.Map.{Map, values}
use symnav.Core.Backend.{
  WorkspaceFile, BackendRefreshCoverage, BackendError, RevisionedBackendPreparedFile,
  RevisionedBackendIndex, RevisionedBackendPreparation, RevisionedBackendPreparationRequest,
  diagnostics_of,
}
use symnav.Core.Backend.Building.{
  empty_index, is_unchanged, declarations_of, kept_diagnostics, build_index,
}
use symnav.Core.Backend.Candidate.{
  preparation_request, candidate_files, candidate_index, delete_files, set_prepared,
}
use symnav.Core.Backend.Refresh.{prepared_index, refresh, settled}
use symnav.Core.Backend.Tables.{
  IsTable, set-IsTable, delete-IsTable, or_else-none, All-get, All-set, All-delete,
}
use symnav.Core.Backend.Listed.{path_of}
use symnav.Core.Backend.Derived.{
  is_named, walk_of, declarations_at, diagnostics_at, all_declarations, relative_of, IsFresh, Adds,
  add_files-Adds,
}
use symnav.Core.Backend.Passed.{candidate_index-Passed, build_index-by_relative_path}

module _ {D : Type 0} where
  -- The maps are those that the files give.
  abbrev pub IsDerivedFrom :
      Map (RevisionedBackendPreparedFile D) → RevisionedBackendIndex D → Type 0
  IsDerivedFrom files index =
      ((path : Text)
        → Map.get path index.declarations_by_relative_path ≡ declarations_at (Map.get path files))
      × ((path : Text)
          → Map.get path index.diagnostics_by_relative_path ≡ diagnostics_at (Map.get path files))
      × ((key : Text)
          → get_or (Map.get key index.declarations_by_identity) []
            ≡ filter (is_named key) (all_declarations (values files)))
      × ((absolute : Text)
          → Map.get absolute index.relative_path_by_absolute ≡ relative_of absolute (values files))

  module _ (heap : ℕ → RevisionedBackendPreparedFile D) where
    -- What an object holds is what stands at its reference.
    abbrev pub IsObject : RevisionedBackendPreparedFile D → Type 0
    IsObject p = heap p.object ≡ p

    abbrev pub IsValid : RevisionedBackendIndex D → Type 0
    IsValid index =
        IsTable path_of index.by_relative_path
        × All IsObject (values index.by_relative_path)
        × IsDerivedFrom index.by_relative_path index

    abbrev pub given :
        Result BackendError (List (RevisionedBackendPreparedFile D))
        → List (RevisionedBackendPreparedFile D)
    given (ok ps) = ps
    given (err e) = []

    -- The preparation gives objects.
    abbrev pub GivesObjects :
        (RevisionedBackendPreparationRequest D → RevisionedBackendPreparation D) → Type 0
    GivesObjects create =
        (request : RevisionedBackendPreparationRequest D)
        → All IsObject (given (create request).prepare)

    kept-IsFresh :
        (previous : RevisionedBackendIndex D) (p : RevisionedBackendPreparedFile D)
        → IsValid previous
        → IsObject p
        → IsFresh previous p
    unfolding declarations_of kept_diagnostics is_unchanged
    kept-IsFresh previous p (table, objects, derived) object =
        at_path (Map.get p.file.relative previous.by_relative_path) refl
      where
        at_object :
            (kept : RevisionedBackendPreparedFile D)
            → Map.get p.file.relative previous.by_relative_path ≡ some kept
            → (b : Bool) → (kept.object == p.object) ≡ b
            → ((if b
                  then get_or (Map.get p.file.relative previous.declarations_by_relative_path) []
                  else walk_of p)
                ≡ walk_of p)
              × ((if b
                    then get_or (Map.get p.file.relative previous.diagnostics_by_relative_path) []
                    else diagnostics_of p.entries)
                  ≡ diagnostics_of p.entries)
        at_object kept e false different = (refl, refl)
        at_object kept e true same = (
          rw (derived.0 p.file.relative, e) (ap walk_of one),
          rw (derived.1 p.file.relative, e) (ap (λ q. diagnostics_of q.entries) one),
        )
          where
            one : kept ≡ p
            one =
                sym (All-get IsObject p.file.relative kept previous.by_relative_path objects e)
                ∙ ap heap ((==_iff kept.object p.object).0 same)
                ∙ object

        at_path :
            (o : Option (RevisionedBackendPreparedFile D))
            → Map.get p.file.relative previous.by_relative_path ≡ o
            → ((if elim o [ none ↦ false | some kept ↦ kept.object == p.object ]
                  then get_or (Map.get p.file.relative previous.declarations_by_relative_path) []
                  else walk_of p)
                ≡ walk_of p)
              × ((if elim o [ none ↦ false | some kept ↦ kept.object == p.object ]
                    then get_or (Map.get p.file.relative previous.diagnostics_by_relative_path) []
                    else diagnostics_of p.entries)
                  ≡ diagnostics_of p.entries)
        at_path none e = (refl, refl)
        at_path (some kept) e = at_object kept e (kept.object == p.object) refl

    All-IsFresh :
        (previous : RevisionedBackendIndex D) (ps : List (RevisionedBackendPreparedFile D))
        → IsValid previous
        → All IsObject ps
        → All (IsFresh previous) ps
    All-IsFresh previous [] valid objects = tt
    All-IsFresh previous (p ∷ ps) valid objects =
        (kept-IsFresh previous p valid objects.0, All-IsFresh previous ps valid objects.1)

    abbrev IsStored : Map (RevisionedBackendPreparedFile D) → Type 0
    IsStored m = IsTable path_of m × All IsObject (values m)

    set_prepared-IsStored :
        (ps : List (RevisionedBackendPreparedFile D)) (m : Map (RevisionedBackendPreparedFile D))
        → All IsObject ps
        → IsStored m
        → IsStored (set_prepared ps m)
    unfolding set_prepared
    set_prepared-IsStored [] m objects stored = stored
    set_prepared-IsStored (p ∷ ps) m objects stored =
        set_prepared-IsStored ps (Map.set p.file.relative p m) objects.1 (
          set-IsTable path_of p m stored.0,
          All-set IsObject p.file.relative p m objects.0 stored.1,
        )

    delete_files-IsStored :
        (ps : List (RevisionedBackendPreparedFile D)) (m : Map (RevisionedBackendPreparedFile D))
        → IsStored m
        → IsStored (delete_files ps m)
    unfolding delete_files
    delete_files-IsStored [] m stored = stored
    delete_files-IsStored (p ∷ ps) m stored =
        delete_files-IsStored ps (Map.delete p.file.relative m) (
          delete-IsTable path_of p.file.relative m stored.0,
          All-delete IsObject p.file.relative m stored.1,
        )

    build_index-IsValid :
        (m : Map (RevisionedBackendPreparedFile D)) (previous next : RevisionedBackendIndex D)
        → IsValid previous
        → IsStored m
        → build_index m previous ≡ ok next
        → IsValid next
    unfolding build_index Map.get
    build_index-IsValid m previous next valid stored built =
        subst
          (λ files. IsTable path_of files × All IsObject (values files) × IsDerivedFrom files next)
          (sym (build_index-by_relative_path m previous next built))
          (
            stored.0,
            stored.1,
            derived (
                add_files-Adds previous m (empty_index m) next stored.0
                  (All-IsFresh previous (values m) valid stored.1) built),
          )
      where
        derived : Adds m (empty_index m) next → IsDerivedFrom m next
        derived (paths, warnings, names, absolutes) = (
          (λ path. paths path ∙ or_else-none (declarations_at (Map.get path m))),
          (λ path. warnings path ∙ or_else-none (diagnostics_at (Map.get path m))),
          names,
          (λ absolute. absolutes absolute ∙ or_else-none (relative_of absolute (values m))),
        )

    pub refresh-IsValid :
        (create : RevisionedBackendPreparationRequest D → RevisionedBackendPreparation D)
        (files : List WorkspaceFile) (coverage : BackendRefreshCoverage)
        (index : RevisionedBackendIndex D)
        → GivesObjects create
        → IsValid index
        → IsValid (refresh create files coverage index).1
    unfolding refresh prepared_index candidate_files settled
    refresh-IsValid create files coverage index objects valid =
        answered (prepared_index (create request) request index) refl
      where
        request : RevisionedBackendPreparationRequest D
        request = preparation_request index files coverage

        given_objects :
            (r : Result BackendError (List (RevisionedBackendPreparedFile D)))
            (ps : List (RevisionedBackendPreparedFile D))
            → r ≡ ok ps
            → All IsObject (given r)
            → All IsObject ps
        given_objects r ps e h = subst (λ s. All IsObject (given s)) e h

        prepared :
            (next : RevisionedBackendIndex D)
            → prepared_index (create request) request index ≡ ok next
            → IsValid next
        prepared next e =
            let (ps, received, after) = >>=-eq-ok (create request).prepare _ e in
            let (candidate, built, committed) =
              >>=-eq-ok (candidate_index index request ps) _ after in
            let (u, done, last) = >>=-eq-ok (create request).commit _ committed in
            let passed = candidate_index-Passed index request ps candidate built in
            subst IsValid (ok-injective last) (
              build_index-IsValid (candidate_files index request ps) index candidate valid
                (set_prepared-IsStored ps _
                  (given_objects (create request).prepare ps received (objects request))
                  (delete_files-IsStored request.removed_files index.by_relative_path
                    (valid.0, valid.1)))
                passed.4)

        answered :
            (r : Result BackendError (RevisionedBackendIndex D))
            → prepared_index (create request) request index ≡ r
            → IsValid (settled (create request) request files index r).1
        answered (ok next) e = prepared next e
        answered (err failure) e = valid
