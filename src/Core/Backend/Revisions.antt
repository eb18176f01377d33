-- ===== src/Core/Backend/Revisions.antt =====
-- A refresh as a change of the revisions that are known, one at a path.
use symnav.Prelude.{
  ◌≡◌, ◌==◌, length, refl, sym, ap, subst, ◌∙◌, Bool, true, not, ◌&&◌, Option, none, some, List, [],
  arith, Text, filter, every, is_some, All, Option-cases, inl, inr, Result, ok, err, ◌>>◌,
  >>=-eq-ok, ok-injective,
}
use symnav.Prelude.Map
use symnav.Prelude.Map.{Map, values, keys}
use symnav.Core.Backend.{
  WorkspaceFile, BackendRefreshCoverage, workspace, selection, BackendError, BackendRefreshSummary,
  RevisionedBackendPreparedFile, RevisionedBackendPreparation, RevisionedBackendPreparationRequest,
  RevisionedBackendIndex, set_files,
}
use symnav.Core.Backend.Candidate.{
  changes_of, files_of, effective_by_relative_path, removed_of, preparation_request, delete_files,
  set_prepared, same_keys, candidate_files, candidate_index,
}
use symnav.Core.Backend.Refresh.{prepared_index, settled, refresh}
use symnav.Core.Backend.Tables.{or_else, IsTable, has-keys}
use symnav.Core.Backend.Listed.{
  set_files-get, set_files-IsTable, set_files-values, set_files-All, file_at, path_of,
  set_files-files, delete_files-get, kept,
}
use symnav.Core.Backend.Checks.{
  set_prepared-Placed, check_changes-eq-ok, IsCovered, changes_of-IsCovered,
}
use symnav.Core.Backend.View.{
  revision_of, revision_in, refreshed, same_revision-revision_of, view_of, refreshed-effective,
}
use symnav.Core.Backend.Passed.{build_index-by_relative_path, Passed, candidate_index-Passed}

module _ {D : Type 0} where
  effective-IsTable :
      (index : RevisionedBackendIndex D) (files : List WorkspaceFile)
      (coverage : BackendRefreshCoverage)
      → IsTable (λ f. f.relative) (effective_by_relative_path index files coverage)
  unfolding effective_by_relative_path
  effective-IsTable index files workspace = set_files-IsTable files [] tt
  effective-IsTable index files selection =
      set_files-IsTable files (set_files (files_of index) [])
        (set_files-IsTable (files_of index) [] tt)

  -- A file that was not prepared is known in its revision.
  known_at :
      (index : RevisionedBackendIndex D) (out : Map (RevisionedBackendPreparedFile D))
      (files : List WorkspaceFile) (path : Text) (f : WorkspaceFile)
      → All (IsCovered index out) files
      → Map.get path out ≡ none
      → Map.get path (set_files files []) ≡ some f
      → (q : RevisionedBackendPreparedFile D) × (Map.get path index.by_relative_path ≡ some q)
        × (revision_of q.file ≡ revision_of f)
  known_at index out files path f covered unseen found =
      at_path (set_files-All (IsCovered index out) files path f covered found)
    where
      at_path :
          (f.relative ≡ path) × IsCovered index out f
          → (q : RevisionedBackendPreparedFile D) × (Map.get path index.by_relative_path ≡ some q)
            × (revision_of q.file ≡ revision_of f)
      at_path (e, inl seen) = absurd (
          subst (λ o. is_some o ≡ true → ⊥) (sym unseen) (λ h. ground arith)
            (subst (λ k. is_some (Map.get k out) ≡ true) e seen))
      at_path (e, inr (q, known, same)) = (
        q,
        subst (λ k. Map.get k index.by_relative_path ≡ some q) e known,
        same_revision-revision_of q.file f same,
      )

  none_of :
      (a : Option (RevisionedBackendPreparedFile D)) (b : Option WorkspaceFile)
      → b ≡ none
      → (is_some a ≡ true → is_some b ≡ true)
      → revision_in (file_at a) ≡ revision_in b
  none_of none b absent inside = rw absent refl
  none_of (some p) b absent inside =
      absurd (subst (λ o. is_some o ≡ true → ⊥) (sym absent) (λ h. ground arith) (inside refl))

  -- So is the path then, after the removals.
  unprepared_at :
      (index : RevisionedBackendIndex D) (out : Map (RevisionedBackendPreparedFile D))
      (files : List WorkspaceFile) (coverage : BackendRefreshCoverage) (path : Text)
      → IsTable path_of index.by_relative_path
      → All (IsCovered index out) files
      → Map.get path out ≡ none
      → (is_some
              (Map.get path (delete_files (removed_of index files coverage) index.by_relative_path))
            ≡ true
          → is_some (Map.get path (effective_by_relative_path index files coverage)) ≡ true)
      → revision_in (
          file_at
            (Map.get path (delete_files (removed_of index files coverage) index.by_relative_path)))
        ≡ revision_in (Map.get path (effective_by_relative_path index files coverage))
  unfolding removed_of effective_by_relative_path delete_files
  unprepared_at index out files workspace path table covered unseen inside =
      elim (Option-cases (Map.get path (set_files files []))) [
        | inl absent ↦ none_of _ (Map.get path (set_files files [])) absent inside
        | inr (f, found) ↦ at_file f found (known_at index out files path f covered unseen found)
      ]
    where
      at_file :
          (f : WorkspaceFile)
          → Map.get path (set_files files []) ≡ some f
          → ((q : RevisionedBackendPreparedFile D) × (Map.get path index.by_relative_path ≡ some q)
              × (revision_of q.file ≡ revision_of f))
          → revision_in (
              file_at (
                Map.get path (
                  delete_files
                    (filter
                      (λ p. not (is_some (Map.get p.file.relative (set_files files []))))
                      (values index.by_relative_path))
                    index.by_relative_path)))
            ≡ revision_in (Map.get path (set_files files []))
      at_file f found (q, known, same) =
          rw
            (
              delete_files-get _ index.by_relative_path path
                  (kept (set_files files []) path f (values index.by_relative_path) found),
              known,
              found,
            )
            (ap some same)
  unprepared_at index out files selection path table covered unseen inside =
      rw
        (
          set_files-get files (set_files (files_of index) []) path,
          set_files-files index.by_relative_path path table,
        )
        (elim (Option-cases (Map.get path (set_files files []))) [
          | inl absent ↦ rw absent refl
          | inr (f, found) ↦ at_file f found (known_at index out files path f covered unseen found)
        ])
    where
      at_file :
          (f : WorkspaceFile)
          → Map.get path (set_files files []) ≡ some f
          → ((q : RevisionedBackendPreparedFile D) × (Map.get path index.by_relative_path ≡ some q)
              × (revision_of q.file ≡ revision_of f))
          → revision_in (file_at (Map.get path index.by_relative_path))
            ≡ revision_in (
                or_else
                  (Map.get path (set_files files []))
                  (file_at (Map.get path index.by_relative_path)))
      at_file f found (q, known, same) = rw (known, found) (ap some same)

  -- The revision of the path at a candidate is that of the file which the request has for the path.
  candidate_at :
      (index next : RevisionedBackendIndex D) (files : List WorkspaceFile)
      (coverage : BackendRefreshCoverage) (ps : List (RevisionedBackendPreparedFile D))
      (path : Text)
      → IsTable path_of index.by_relative_path
      → Passed index (preparation_request index files coverage) ps next
      → view_of next path
        ≡ revision_in (Map.get path (effective_by_relative_path index files coverage))
  unfolding preparation_request candidate_files same_keys Map.get
  candidate_at index next files coverage ps path table (out, collected, checked, keyed, built) =
      rw (build_index-by_relative_path _ index next built)
        (elim (set_prepared-Placed (set_files (values effective) []) ps deleted [] out path
          collected) [
            | inl (p, f, found, known, same) ↦
                rw (found, sym (set_files-values effective path effective_table) ∙ known)
                  (ap some (same_revision-revision_of p.file f same))
            | inr (stays, unseen) ↦ rw stays (
                unprepared_at index out files coverage path table
                  (changes_of-IsCovered index out files
                    (check_changes-eq-ok out (changes_of index files) checked))
                  (unseen ∙ nothing) (inside stays))
          ])
    where
      effective : Map WorkspaceFile
      effective = effective_by_relative_path index files coverage

      deleted : Map (RevisionedBackendPreparedFile D)
      deleted = delete_files (removed_of index files coverage) index.by_relative_path

      effective_table : IsTable (λ f. f.relative) effective
      effective_table = effective-IsTable index files coverage

      nothing : Map.get {V = RevisionedBackendPreparedFile D} path [] ≡ none
      nothing = refl

      every_known : (b c : Bool) → (b && c) ≡ true → c ≡ true
      every_known b c h = ground arith

      inside :
          Map.get path (set_prepared ps deleted) ≡ Map.get path deleted
          → is_some (Map.get path deleted) ≡ true
          → is_some (Map.get path effective) ≡ true
      inside stays there =
          subst (λ o. is_some o ≡ true) (set_files-values effective path effective_table)
            (has-keys (λ k. is_some (Map.get k (set_files (values effective) []))) path
              (set_prepared ps deleted)
              (every_known
                (length (set_prepared ps deleted) == length (set_files (values effective) []))
                (every (λ k. is_some (Map.get k (set_files (values effective) [])))
                  (keys (set_prepared ps deleted)))
                keyed)
              (subst (λ o. is_some o ≡ true) (sym stays) there))

  -- The answer of a refresh, and what is known of a path after it.
  abbrev pub Refreshes :
      List WorkspaceFile
      → BackendRefreshCoverage
      → RevisionedBackendIndex D
      → Text
      → Result BackendError BackendRefreshSummary × RevisionedBackendIndex D
      → Type 0
  Refreshes files coverage index path (ok summary, next) =
      view_of next path ≡ refreshed files coverage (view_of index) path
  Refreshes files coverage index path (err e, next) = next ≡ index

  -- A refresh of an index with each file under its own path either fails and leaves the index as it
  -- was, or changes what is known of every path as the abstract refresh does: for a workspace the
  -- revisions of its files are all that is known, for a selection they take the place of what was
  -- known of their paths and the rest stays.
  pub refresh-Refreshes :
      (create : RevisionedBackendPreparationRequest D → RevisionedBackendPreparation D)
      (files : List WorkspaceFile) (coverage : BackendRefreshCoverage)
      (index : RevisionedBackendIndex D) (path : Text)
      → IsTable path_of index.by_relative_path
      → Refreshes files coverage index path (refresh create files coverage index)
  unfolding refresh prepared_index settled
  refresh-Refreshes create files coverage index path table =
      answered (prepared_index (create request) request index) refl
    where
      request : RevisionedBackendPreparationRequest D
      request = preparation_request index files coverage

      prepared :
          (next : RevisionedBackendIndex D)
          → prepared_index (create request) request index ≡ ok next
          → view_of next path ≡ refreshed files coverage (view_of index) path
      prepared next e =
          let (ps, given, after) = >>=-eq-ok (create request).prepare _ e in
          let (candidate, built, committed) =
            >>=-eq-ok (candidate_index index request ps) _ after in
          let (u, done, last) = >>=-eq-ok (create request).commit _ committed in
          subst (λ i. view_of i path ≡ refreshed files coverage (view_of index) path)
            (ok-injective last)
            (candidate_at index candidate files coverage ps path table
                (candidate_index-Passed index request ps candidate built)
              ∙ sym (refreshed-effective index files coverage path table))

      answered :
          (r : Result BackendError (RevisionedBackendIndex D))
          → prepared_index (create request) request index ≡ r
          → Refreshes files coverage index path (settled (create request) request files index r)
      answered (ok next) e = prepared next e
      answered (err failure) e = failed (create request).rollback
        where
          failed :
              (r : Result BackendError (Unit {0}))
              → Refreshes files coverage index path ((r >> err failure), index)
          failed (ok u) = refl
          failed (err other) = refl
