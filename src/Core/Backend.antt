-- ===== src/Core/Backend.antt =====
-- packages/core/src/backend/revisioned-backend-state.ts: what a backend knows of the files, one
-- revision of each, and how a refresh takes it to the next. The compiler that prepares the files is a
-- parameter (`createPreparation`). A prepared file is an object: its number stands for the reference
-- that `===` compares.
pub mod Building
pub mod Candidate
pub mod Refresh
pub mod Tables
pub mod Listed
pub mod Checks
pub mod View
pub mod Passed
pub mod Revisions
pub mod Derived
pub mod Invariant
pub mod Ensured
use symnav.Prelude.{
  ◌≡◌, ℕ, zero, suc, ◌+◌, ◌-◌, Bool, true, false, not, ◌&&◌, ◌||◌, Option, none, some, List, [],
  ◌∷◌, ◌++◌, map, Text, text_eq, ◌==◌, length, filter, any, every, is_some, get_or, Result, ok, err,
  ◌>>=◌, ◌>>◌, throw_if, if◌then◌else◌,
}
use symnav.Prelude.Map
use symnav.Prelude.Map.{Map, values, keys}
use symnav.Core.Diagnostic.{NavigationDiagnostic}
use symnav.Core.Identity.{SymbolIdentity}
use symnav.Core.Segment.{InvalidSymbolIdError, format_symbol_identity}
use symnav.Core.Overview.{SymbolOverviewNode, OverviewFileEntries, identity_of, walk_symbols}

pub record FileMetadata : Type 0 where
  pub size : ℕ
  pub modified_at_ms : ℕ
  pub change_token : Text
  pub file_identity : Option Text

pub record ResolvedPath : Type 0 where
  pub relative : Text
  pub absolute : Text

pub record WorkspaceFile : Type 0 where
  pub relative : Text
  pub absolute : Text
  pub metadata : FileMetadata

pub data BackendRefreshCoverage : Type 0 where
  workspace selection : BackendRefreshCoverage

pub record BackendRefreshSummary : Type 0 where
  pub added : ℕ
  pub changed : ℕ
  pub removed : ℕ
  pub unchanged : ℕ

-- The errors of the state, and those of the preparation and of the file system, which it passes on.
pub data BackendError : Type 0 where
  incomplete_final_key_set : BackendError
  duplicated outside_path wrong_revision omitted_changed_path file_not_found : Text → BackendError
  invalid_id : InvalidSymbolIdError → BackendError
  passed_on : Text → BackendError

pub record IndexedBackendDeclaration : Type 0 where
  pub declaration : SymbolOverviewNode
  pub file : ResolvedPath

unfoldable pub same_revision : WorkspaceFile → WorkspaceFile → Bool
same_revision current incoming =
    text_eq current.relative incoming.relative
    && text_eq current.absolute incoming.absolute
    && text_eq current.metadata.change_token incoming.metadata.change_token

-- `new Map(files.map((file) => [file.relative, file]))`, on top of what is there.
unfoldable pub set_files : List WorkspaceFile → Map WorkspaceFile → Map WorkspaceFile
set_files [] m = m
set_files (file ∷ files) m = set_files files (Map.set file.relative file m)

-- An object of the preparation: its reference, and what it holds.
pub record RevisionedBackendPreparedFile (D : Type 0) : Type 0 where
  pub object : ℕ
  pub file : WorkspaceFile
  pub entries : OverviewFileEntries
  pub details : D

pub data RevisionedBackendFileChange (D : Type 0) : Type 0 where
  added : WorkspaceFile → RevisionedBackendFileChange D
  changed : WorkspaceFile → RevisionedBackendPreparedFile D → RevisionedBackendFileChange D

pub record RevisionedBackendPreparationRequest (D : Type 0) : Type 0 where
  pub coverage : BackendRefreshCoverage
  pub changes : List (RevisionedBackendFileChange D)
  pub removed_files : List (RevisionedBackendPreparedFile D)
  pub effective_files : List WorkspaceFile

-- What the preparation of a request gives at each of its calls.
pub record RevisionedBackendPreparation (D : Type 0) : Type 0 where
  pub prepare : Result BackendError (List (RevisionedBackendPreparedFile D))
  pub commit : Result BackendError (Unit {0})
  pub rollback : Result BackendError (Unit {0})

pub record RevisionedBackendIndex (D : Type 0) : Type 0 where
  pub by_relative_path : Map (RevisionedBackendPreparedFile D)
  pub declarations_by_identity : Map (List SymbolOverviewNode)
  pub declarations_by_relative_path : Map (List SymbolOverviewNode)
  pub diagnostics_by_relative_path : Map (List NavigationDiagnostic)
  pub relative_path_by_absolute : Map Text

abbrev pub diagnostics_of : OverviewFileEntries → List NavigationDiagnostic
diagnostics_of entries = get_or entries.diagnostics []
