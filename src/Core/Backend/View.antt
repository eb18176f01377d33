-- ===== src/Core/Backend/View.antt =====
-- What a state knows: one revision of a file at each path, and what a refresh makes of it.
use symnav.Prelude.{
  ◌≡◌, refl, true, Option, none, some, List, [], ◌∷◌, arith, Text, text_eq, text_eq_iff,
  if◌then◌else◌,
}
use symnav.Prelude.Map
use symnav.Prelude.Map.{Map, values, keys}
use symnav.Core.Backend.{
  WorkspaceFile, BackendRefreshCoverage, workspace, selection, RevisionedBackendIndex,
  same_revision, set_files,
}
use symnav.Core.Backend.Candidate.{files_of, effective_by_relative_path}
use symnav.Core.Backend.Tables.{or_else, IsTable}
use symnav.Core.Backend.Listed.{set_files-get, file_at, path_of, set_files-files}

pub record Revision : Type 0 where
  pub relative : Text
  pub absolute : Text
  pub change_token : Text

abbrev pub revision_of : WorkspaceFile → Revision
revision_of file = record {
  relative = file.relative;
  absolute = file.absolute;
  change_token = file.metadata.change_token;
}

abbrev pub revision_in : Option WorkspaceFile → Option Revision
revision_in none = none
revision_in (some file) = some (revision_of file)

-- What is known: the revision at each path.
abbrev pub View : Type 0
View = Text → Option Revision

-- The last file of a path in a list.
abbrev pub listed : List WorkspaceFile → Text → Option Revision
listed [] path = none
listed (file ∷ files) path =
    or_else (listed files path)
      (if text_eq file.relative path then some (revision_of file) else none)

-- The refresh of what is known: the files of the workspace are all that there is, those of a
-- selection take the place of what was known of them.
abbrev pub refreshed : List WorkspaceFile → BackendRefreshCoverage → View → View
refreshed files workspace view path = listed files path
refreshed files selection view path = or_else (listed files path) (view path)

pub same_revision-revision_of :
    (a b : WorkspaceFile) → same_revision a b ≡ true → revision_of a ≡ revision_of b
unfolding same_revision
same_revision-revision_of a b same = ground (
  arith,
  text_eq_iff a.relative b.relative,
  text_eq_iff a.absolute b.absolute,
  text_eq_iff a.metadata.change_token b.metadata.change_token,
)

pub listed-set_files :
    (files : List WorkspaceFile) (path : Text)
    → listed files path ≡ revision_in (Map.get path (set_files files []))
unfolding set_files Map.get Map.set
listed-set_files [] path = refl
listed-set_files (file ∷ files) path =
    ground
      (arith, listed-set_files files path, set_files-get files (Map.set file.relative file []) path)

module _ {D : Type 0} where
  abbrev pub view_of : RevisionedBackendIndex D → View
  view_of index path = revision_in (file_at (Map.get path index.by_relative_path))

  pub refreshed-effective :
      (index : RevisionedBackendIndex D) (files : List WorkspaceFile)
      (coverage : BackendRefreshCoverage) (path : Text)
      → IsTable path_of index.by_relative_path
      → refreshed files coverage (view_of index) path
        ≡ revision_in (Map.get path (effective_by_relative_path index files coverage))
  unfolding effective_by_relative_path
  refreshed-effective index files workspace path h = listed-set_files files path
  refreshed-effective index files selection path h =
      rw
        (
          set_files-get files (set_files (files_of index) []) path,
          set_files-files index.by_relative_path path h,
          listed-set_files files path,
        )
        (either (Map.get path (set_files files [])) (file_at (Map.get path index.by_relative_path)))
    where
      either :
          (a b : Option WorkspaceFile)
          → or_else (revision_in a) (revision_in b) ≡ revision_in (or_else a b)
      either none b = refl
      either (some a) b = refl
