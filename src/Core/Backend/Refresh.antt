-- ===== src/Core/Backend/Refresh.antt =====
-- The refresh, and what the state answers.
use symnav.Prelude.{
  ℕ, ◌-◌, Bool, true, false, Option, none, some, List, [], ◌∷◌, ◌++◌, Text, length, filter, is_some,
  get_or, Result, ok, err, ◌>>=◌, ◌>>◌,
}
use symnav.Prelude.Map
use symnav.Prelude.Map.{Map, values, keys}
use symnav.Core.Diagnostic.{NavigationDiagnostic}
use symnav.Core.Identity.{SymbolIdentity}
use symnav.Core.Segment.{format_symbol_identity}
use symnav.Core.Overview.{SymbolOverviewNode, OverviewFileEntries, identity_of}
use symnav.Core.Backend.{
  FileMetadata, ResolvedPath, WorkspaceFile, BackendRefreshCoverage, selection,
  BackendRefreshSummary, BackendError, file_not_found, invalid_id, RevisionedBackendFileChange,
  added, changed, RevisionedBackendPreparationRequest, RevisionedBackendPreparation,
  RevisionedBackendIndex, IndexedBackendDeclaration,
}
use symnav.Core.Backend.Candidate.{preparation_request, candidate_index}

abbrev first_of : List SymbolOverviewNode → Option SymbolOverviewNode
first_of [] = none
first_of (declaration ∷ rest) = some declaration

-- A call on the state that a call has left, unless that one failed.
abbrev pub and_then :
    {S A B : Type 0}
    → Result BackendError A × S
    → (A → S → Result BackendError B × S)
    → Result BackendError B × S
and_then (ok a, s) next = next a s
and_then (err e, s) next = (err e, s)

module _ {D : Type 0} where
  abbrev is_added : RevisionedBackendFileChange D → Bool
  is_added (added file) = true
  is_added (changed file previous) = false

  unfoldable pub refresh_summary :
      RevisionedBackendPreparationRequest D → List WorkspaceFile → BackendRefreshSummary
  refresh_summary request files =
      let count = length (filter is_added request.changes) in
      record {
        added = count;
        changed = length request.changes - count;
        removed = length request.removed_files;
        unchanged = length files - length request.changes;
      }

  -- The `try` of `refresh`: the index that takes the place of the one before.
  unfoldable pub prepared_index :
      RevisionedBackendPreparation D
      → RevisionedBackendPreparationRequest D
      → RevisionedBackendIndex D
      → Result BackendError (RevisionedBackendIndex D)
  unfolding candidate_index
  prepared_index preparation request index = preparation.prepare >>= λ prepared_files.
      candidate_index index request prepared_files >>= λ candidate.
      preparation.commit >> ok candidate

  -- The end of the `try`, and the `catch`.
  unfoldable pub settled :
      RevisionedBackendPreparation D
      → RevisionedBackendPreparationRequest D
      → List WorkspaceFile
      → RevisionedBackendIndex D
      → Result BackendError (RevisionedBackendIndex D)
      → Result BackendError BackendRefreshSummary × RevisionedBackendIndex D
  unfolding refresh_summary
  settled preparation request files index (ok candidate) =
      (ok (refresh_summary request files), candidate)
  settled preparation request files index (err e) = ((preparation.rollback >> err e), index)

  unfoldable pub refresh :
      (RevisionedBackendPreparationRequest D → RevisionedBackendPreparation D)
      → List WorkspaceFile
      → BackendRefreshCoverage
      → RevisionedBackendIndex D
      → Result BackendError BackendRefreshSummary × RevisionedBackendIndex D
  unfolding preparation_request prepared_index settled
  refresh create_preparation files coverage index =
      let request = preparation_request index files coverage in
      let preparation = create_preparation request in
      settled preparation request files index (prepared_index preparation request index)

  -- `ensureFiles`: a file that is not known is read and prepared alone.
  unfoldable pub ensure_files :
      (Text → Result BackendError FileMetadata)
      → (RevisionedBackendPreparationRequest D → RevisionedBackendPreparation D)
      → List ResolvedPath
      → RevisionedBackendIndex D
      → Result BackendError (Unit {0}) × RevisionedBackendIndex D
  unfolding refresh
  ensure_files metadata create_preparation [] index = (ok tt, index)
  ensure_files metadata create_preparation (file ∷ files) index =
      elim (is_some (Map.get file.relative index.by_relative_path)) [
        | true ↦ ensure_files metadata create_preparation files index
        | false ↦ elim (metadata file.absolute) [
          | err e ↦ (err e, index)
          | ok found ↦
              and_then
                (refresh create_preparation
                  (record { relative = file.relative; absolute = file.absolute; metadata = found }
                    ∷ [])
                  selection index)
                (λ summary next. ensure_files metadata create_preparation files next)
        ]
      ]

  unfoldable pub file_entries :
      (Text → Result BackendError FileMetadata)
      → (RevisionedBackendPreparationRequest D → RevisionedBackendPreparation D)
      → ResolvedPath
      → RevisionedBackendIndex D
      → Result BackendError OverviewFileEntries × RevisionedBackendIndex D
  unfolding ensure_files
  file_entries metadata create_preparation file index =
      and_then (ensure_files metadata create_preparation (file ∷ []) index) (λ ensured next.
        elim (Map.get file.relative next.by_relative_path) [
          | none ↦ (err (file_not_found file.relative), next)
          | some prepared ↦ (ok prepared.entries, next)
        ])

  abbrev pub concat_declarations :
      RevisionedBackendIndex D → List ResolvedPath → List SymbolOverviewNode
  concat_declarations index [] = []
  concat_declarations index (file ∷ files) =
      get_or (Map.get file.relative index.declarations_by_relative_path) []
      ++ concat_declarations index files

  unfoldable pub declarations :
      (Text → Result BackendError FileMetadata)
      → (RevisionedBackendPreparationRequest D → RevisionedBackendPreparation D)
      → List ResolvedPath
      → RevisionedBackendIndex D
      → Result BackendError (List SymbolOverviewNode) × RevisionedBackendIndex D
  unfolding ensure_files
  declarations metadata create_preparation files index =
      and_then (ensure_files metadata create_preparation files index)
        (λ ensured next. (ok (concat_declarations next files), next))

  unfoldable pub diagnostics : RevisionedBackendIndex D → ResolvedPath → List NavigationDiagnostic
  diagnostics index file = get_or (Map.get file.relative index.diagnostics_by_relative_path) []

  unfoldable pub declarations_in :
      RevisionedBackendIndex D → Text → Option (List SymbolOverviewNode)
  declarations_in index path = Map.get path index.declarations_by_relative_path

  abbrev with_file :
      RevisionedBackendIndex D → Option SymbolOverviewNode → Option IndexedBackendDeclaration
  with_file index none = none
  with_file index (some declaration) =
      elim (Map.get (identity_of declaration).file index.by_relative_path) [
        | none ↦ none
        | some prepared ↦ some (record {
          declaration = declaration;
          file = record { relative = prepared.file.relative; absolute = prepared.file.absolute };
        })
      ]

  unfoldable pub declaration_for_identity :
      RevisionedBackendIndex D
      → SymbolIdentity
      → Result BackendError (Option IndexedBackendDeclaration)
  declaration_for_identity index identity = elim (format_symbol_identity identity) [
    | ok key ↦
        ok (with_file index (first_of (get_or (Map.get key index.declarations_by_identity) [])))
    | err e ↦ err (invalid_id e)
  ]

  unfoldable pub current_file_count : RevisionedBackendIndex D → ℕ
  current_file_count index = length index.by_relative_path

  unfoldable pub relative_path_for_absolute : RevisionedBackendIndex D → Text → Option Text
  relative_path_for_absolute index path = Map.get path index.relative_path_by_absolute
