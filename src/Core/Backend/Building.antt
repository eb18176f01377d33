-- ===== src/Core/Backend/Building.antt =====
-- The index of a state, built from its files; a file that is the same object as before keeps what was
-- derived from it.
use symnav.Prelude.{
  Bool, false, none, some, List, [], ◌∷◌, ◌++◌, ◌==◌, get_or, Result, ok, err, ◌>>=◌, if◌then◌else◌,
}
use symnav.Prelude.Map
use symnav.Prelude.Map.{Map, values, keys}
use symnav.Core.Diagnostic.{NavigationDiagnostic}
use symnav.Core.Segment.{format_symbol_identity}
use symnav.Core.Overview.{SymbolOverviewNode, identity_of, walk_symbols}
use symnav.Core.Backend.{
  BackendError, invalid_id, RevisionedBackendPreparedFile, RevisionedBackendIndex, diagnostics_of,
}

-- The declarations under their identities.
unfoldable pub add_declarations :
    List SymbolOverviewNode
    → Map (List SymbolOverviewNode)
    → Result BackendError (Map (List SymbolOverviewNode))
add_declarations [] m = ok m
add_declarations (declaration ∷ declarations) m =
    elim (format_symbol_identity (identity_of declaration)) [
      | ok key ↦
          add_declarations declarations
            (Map.set key (get_or (Map.get key m) [] ++ declaration ∷ []) m)
      | err e ↦ err (invalid_id e)
    ]

module _ {D : Type 0} where
  abbrev pub empty_index : Map (RevisionedBackendPreparedFile D) → RevisionedBackendIndex D
  empty_index files = record {
    by_relative_path = files;
    declarations_by_identity = [];
    declarations_by_relative_path = [];
    diagnostics_by_relative_path = [];
    relative_path_by_absolute = [];
  }

  -- `previousPrepared === prepared`
  unfoldable pub is_unchanged : RevisionedBackendIndex D → RevisionedBackendPreparedFile D → Bool
  is_unchanged previous prepared = elim (Map.get prepared.file.relative previous.by_relative_path) [
    | none ↦ false
    | some kept ↦ kept.object == prepared.object
  ]

  unfoldable pub declarations_of :
      RevisionedBackendIndex D → RevisionedBackendPreparedFile D → List SymbolOverviewNode
  unfolding is_unchanged walk_symbols
  declarations_of previous prepared =
      if is_unchanged previous prepared
      then get_or (Map.get prepared.file.relative previous.declarations_by_relative_path) []
      else walk_symbols prepared.entries.entries

  unfoldable pub kept_diagnostics :
      RevisionedBackendIndex D → RevisionedBackendPreparedFile D → List NavigationDiagnostic
  unfolding is_unchanged
  kept_diagnostics previous prepared =
      if is_unchanged previous prepared
      then get_or (Map.get prepared.file.relative previous.diagnostics_by_relative_path) []
      else diagnostics_of prepared.entries

  -- The maps with the file of a round of the loop.
  unfoldable pub index_with :
      RevisionedBackendIndex D
      → RevisionedBackendPreparedFile D
      → RevisionedBackendIndex D
      → Map (List SymbolOverviewNode)
      → RevisionedBackendIndex D
  unfolding declarations_of kept_diagnostics
  index_with previous prepared index by_identity = record {
    by_relative_path = index.by_relative_path;
    declarations_by_identity = by_identity;
    declarations_by_relative_path =
        Map.set prepared.file.relative (declarations_of previous prepared)
          index.declarations_by_relative_path;
    diagnostics_by_relative_path =
        Map.set prepared.file.relative (kept_diagnostics previous prepared)
          index.diagnostics_by_relative_path;
    relative_path_by_absolute =
        Map.set prepared.file.absolute prepared.file.relative index.relative_path_by_absolute;
  }

  -- The body of the loop of `buildIndex`, and the loop.
  unfoldable pub add_file :
      RevisionedBackendIndex D
      → RevisionedBackendPreparedFile D
      → RevisionedBackendIndex D
      → Result BackendError (RevisionedBackendIndex D)
  unfolding declarations_of add_declarations index_with
  add_file previous prepared index =
      add_declarations (declarations_of previous prepared) index.declarations_by_identity
      >>= λ by_identity. ok (index_with previous prepared index by_identity)

  unfoldable pub add_files :
      RevisionedBackendIndex D
      → List (RevisionedBackendPreparedFile D)
      → RevisionedBackendIndex D
      → Result BackendError (RevisionedBackendIndex D)
  unfolding add_file
  add_files previous [] index = ok index
  add_files previous (prepared ∷ files) index =
      add_file previous prepared index >>= λ next. add_files previous files next

  unfoldable pub build_index :
      Map (RevisionedBackendPreparedFile D)
      → RevisionedBackendIndex D
      → Result BackendError (RevisionedBackendIndex D)
  unfolding add_files
  build_index files previous = add_files previous (values files) (empty_index files)
