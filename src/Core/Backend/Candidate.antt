-- ===== src/Core/Backend/Candidate.antt =====
-- The request that a refresh makes to the preparation, the checks of what it gives back, and the
-- index that comes of it.
use symnav.Prelude.{
  Bool, not, ◌&&◌, none, some, List, [], ◌∷◌, ◌++◌, map, ◌==◌, length, filter, every, is_some,
  Result, ok, err, ◌>>=◌, ◌>>◌, throw_if, if◌then◌else◌,
}
use symnav.Prelude.Map
use symnav.Prelude.Map.{Map, values, keys}
use symnav.Core.Backend.{
  WorkspaceFile, BackendRefreshCoverage, workspace, selection, BackendError,
  incomplete_final_key_set, duplicated, outside_path, wrong_revision, omitted_changed_path,
  RevisionedBackendPreparedFile, RevisionedBackendFileChange, added, changed,
  RevisionedBackendPreparationRequest, RevisionedBackendIndex, same_revision, set_files,
}
use symnav.Core.Backend.Building.{build_index}

module _ {D : Type 0} where
  unfoldable pub change_of :
      RevisionedBackendIndex D → WorkspaceFile → List (RevisionedBackendFileChange D)
  unfolding same_revision
  change_of index file = elim (Map.get file.relative index.by_relative_path) [
    | none ↦ added file ∷ []
    | some previous ↦ if same_revision previous.file file then [] else changed file previous ∷ []
  ]

  unfoldable pub changes_of :
      RevisionedBackendIndex D → List WorkspaceFile → List (RevisionedBackendFileChange D)
  unfolding change_of
  changes_of index [] = []
  changes_of index (file ∷ files) = change_of index file ++ changes_of index files

  abbrev pub files_of : RevisionedBackendIndex D → List WorkspaceFile
  files_of index = map (λ prepared. prepared.file) (values index.by_relative_path)

  unfoldable pub effective_by_relative_path :
      RevisionedBackendIndex D → List WorkspaceFile → BackendRefreshCoverage → Map WorkspaceFile
  unfolding set_files
  effective_by_relative_path index files workspace = set_files files []
  effective_by_relative_path index files selection = set_files files (set_files (files_of index) [])

  unfoldable pub removed_of :
      RevisionedBackendIndex D
      → List WorkspaceFile
      → BackendRefreshCoverage
      → List (RevisionedBackendPreparedFile D)
  unfolding set_files
  removed_of index files workspace =
      filter (λ prepared. not (is_some (Map.get prepared.file.relative (set_files files []))))
        (values index.by_relative_path)
  removed_of index files selection = []

  unfoldable pub preparation_request :
      RevisionedBackendIndex D
      → List WorkspaceFile
      → BackendRefreshCoverage
      → RevisionedBackendPreparationRequest D
  unfolding changes_of removed_of effective_by_relative_path
  preparation_request index files coverage = record {
    coverage = coverage;
    changes = changes_of index files;
    removed_files = removed_of index files coverage;
    effective_files = values (effective_by_relative_path index files coverage);
  }

  -- The checks of one prepared file, in their order.
  unfoldable pub check_prepared :
      Map WorkspaceFile
      → Map (RevisionedBackendPreparedFile D)
      → RevisionedBackendPreparedFile D
      → Result BackendError (Unit {0})
  unfolding same_revision
  check_prepared effective seen prepared =
      throw_if (is_some (Map.get prepared.file.relative seen)) (duplicated prepared.file.relative)
      >> elim (Map.get prepared.file.relative effective) [
        | none ↦ err (outside_path prepared.file.relative)
        | some file ↦
            throw_if (not (same_revision prepared.file file))
              (wrong_revision prepared.file.relative)
      ]

  unfoldable pub collect_prepared :
      Map WorkspaceFile
      → List (RevisionedBackendPreparedFile D)
      → Map (RevisionedBackendPreparedFile D)
      → Result BackendError (Map (RevisionedBackendPreparedFile D))
  unfolding check_prepared
  collect_prepared effective [] seen = ok seen
  collect_prepared effective (prepared ∷ files) seen =
      check_prepared effective seen prepared
      >> collect_prepared effective files (Map.set prepared.file.relative prepared seen)

  abbrev pub changed_file : RevisionedBackendFileChange D → WorkspaceFile
  changed_file (added file) = file
  changed_file (changed file previous) = file

  unfoldable pub check_changes :
      Map (RevisionedBackendPreparedFile D)
      → List (RevisionedBackendFileChange D)
      → Result BackendError (Unit {0})
  check_changes prepared [] = ok tt
  check_changes prepared (change ∷ changes) =
      throw_if (not (is_some (Map.get (changed_file change).relative prepared)))
        (omitted_changed_path (changed_file change).relative)
      >> check_changes prepared changes

  unfoldable pub delete_files :
      List (RevisionedBackendPreparedFile D)
      → Map (RevisionedBackendPreparedFile D)
      → Map (RevisionedBackendPreparedFile D)
  delete_files [] m = m
  delete_files (removed ∷ files) m = delete_files files (Map.delete removed.file.relative m)

  unfoldable pub set_prepared :
      List (RevisionedBackendPreparedFile D)
      → Map (RevisionedBackendPreparedFile D)
      → Map (RevisionedBackendPreparedFile D)
  set_prepared [] m = m
  set_prepared (prepared ∷ files) m = set_prepared files (Map.set prepared.file.relative prepared m)

  -- The final check of the paths.
  unfoldable pub same_keys : Map (RevisionedBackendPreparedFile D) → Map WorkspaceFile → Bool
  same_keys candidate effective =
      length candidate == length effective
      && every (λ path. is_some (Map.get path effective)) (keys candidate)

  -- The files before the refresh, without those that are removed and with those that are prepared.
  unfoldable pub candidate_files :
      RevisionedBackendIndex D
      → RevisionedBackendPreparationRequest D
      → List (RevisionedBackendPreparedFile D)
      → Map (RevisionedBackendPreparedFile D)
  unfolding set_prepared delete_files
  candidate_files index request prepared_files =
      set_prepared prepared_files (delete_files request.removed_files index.by_relative_path)

  unfoldable pub candidate_index :
      RevisionedBackendIndex D
      → RevisionedBackendPreparationRequest D
      → List (RevisionedBackendPreparedFile D)
      → Result BackendError (RevisionedBackendIndex D)
  unfolding set_files collect_prepared check_changes candidate_files same_keys build_index
  candidate_index index request prepared_files = do
    throw_if (not (length (set_files request.effective_files []) == length request.effective_files))
        incomplete_final_key_set
    prepared ← collect_prepared (set_files request.effective_files []) prepared_files []
    check_changes prepared request.changes
    throw_if
        (not (
          same_keys (candidate_files index request prepared_files)
            (set_files request.effective_files [])))
        incomplete_final_key_set
    build_index (candidate_files index request prepared_files) index
