-- ===== src/Core/Backend/Ensured.antt =====
-- What the state answers of the files that it is asked for.
use symnav.Prelude.{
  ◌≡◌, refl, sym, ap, ◌∙◌, ℕ, Bool, true, false, Option, none, some, List, [], ◌∷◌, ◌++◌, arith,
  Text, text_eq_refl, get_or, is_some, All, Result, ok, err,
}
use symnav.Prelude.Map
use symnav.Prelude.Map.{Map, values}
use symnav.Core.Overview.{SymbolOverviewNode}
use symnav.Core.Backend.{
  FileMetadata, ResolvedPath, WorkspaceFile, selection, BackendRefreshSummary, BackendError,
  RevisionedBackendPreparedFile, RevisionedBackendIndex, RevisionedBackendPreparation,
  RevisionedBackendPreparationRequest,
}
use symnav.Core.Backend.Refresh.{refresh, ensure_files, declarations, concat_declarations, and_then}
use symnav.Core.Backend.Tables.{or_else}
use symnav.Core.Backend.Derived.{declarations_at}
use symnav.Core.Backend.Invariant.{IsValid, GivesObjects, refresh-IsValid}
use symnav.Core.Backend.View.{Revision, listed, view_of}
use symnav.Core.Backend.Revisions.{Refreshes, refresh-Refreshes}

module _ {D : Type 0} where
  abbrev pub IsKnown : RevisionedBackendIndex D → ResolvedPath → Type 0
  IsKnown index file = is_some (Map.get file.relative index.by_relative_path) ≡ true

  -- The symbols of the files, each file walked anew.
  abbrev pub walks : RevisionedBackendIndex D → List ResolvedPath → List SymbolOverviewNode
  walks index [] = []
  walks index (file ∷ files) =
      get_or (declarations_at (Map.get file.relative index.by_relative_path)) []
      ++ walks index files

  -- An answer is that of a valid state which knows the files.
  abbrev pub Answers :
      (ℕ → RevisionedBackendPreparedFile D)
      → List ResolvedPath
      → Result BackendError (List SymbolOverviewNode) × RevisionedBackendIndex D
      → Type 0
  Answers heap files (ok symbols, next) =
      (symbols ≡ walks next files) × All (IsKnown next) files × IsValid heap next
  Answers heap files (err e, next) = IsValid heap next

  module _ (heap : ℕ → RevisionedBackendPreparedFile D)
      (metadata : Text → Result BackendError FileMetadata)
      (create : RevisionedBackendPreparationRequest D → RevisionedBackendPreparation D)
      (objects : GivesObjects heap create) where
    abbrev Keeps : RevisionedBackendIndex D → RevisionedBackendIndex D → Type 0
    Keeps index next =
        (path : Text)
        → is_some (Map.get path index.by_relative_path) ≡ true
        → is_some (Map.get path next.by_relative_path) ≡ true

    abbrev Ensured :
        RevisionedBackendIndex D
        → List ResolvedPath
        → Result BackendError (Unit {0}) × RevisionedBackendIndex D
        → Type 0
    Ensured index files (ok u, next) =
        IsValid heap next × All (IsKnown next) files × Keeps index next
    Ensured index files (err e, next) = IsValid heap next

    abbrev Selected :
        RevisionedBackendIndex D
        → ResolvedPath
        → Result BackendError BackendRefreshSummary × RevisionedBackendIndex D
        → Type 0
    Selected index file (ok s, next) = IsValid heap next × IsKnown next file × Keeps index next
    Selected index file (err e, next) = IsValid heap next

    is_some-view :
        (index : RevisionedBackendIndex D) (path : Text)
        → is_some (view_of index path) ≡ is_some (Map.get path index.by_relative_path)
    is_some-view index path = ground arith

    refresh-Selected :
        (index : RevisionedBackendIndex D) (file : ResolvedPath) (found : FileMetadata)
        → IsValid heap index
        → Selected index file (
            refresh create
              (record { relative = file.relative; absolute = file.absolute; metadata = found } ∷ [])
              selection
              index)
    refresh-Selected index file found valid =
        selected (refresh create (one ∷ []) selection index)
          (refresh-IsValid heap create (one ∷ []) selection index objects valid)
          (λ path. refresh-Refreshes create (one ∷ []) selection index path valid.0)
      where
        one : WorkspaceFile
        one = record { relative = file.relative; absolute = file.absolute; metadata = found }

        selected :
            (answer : Result BackendError BackendRefreshSummary × RevisionedBackendIndex D)
            → IsValid heap answer.1
            → ((path : Text) → Refreshes (one ∷ []) selection index path answer)
            → Selected index file answer
        selected (err e, next) after refreshes = after
        selected (ok s, next) after refreshes = (after, listed_now, keeps)
          where
            listed_now : IsKnown next file
            listed_now =
                sym (is_some-view next file.relative)
                ∙ ap is_some (refreshes file.relative)
                ∙ rw (text_eq_refl file.relative) refl

            front : (a b : Option Revision) → is_some b ≡ true → is_some (or_else a b) ≡ true
            front none b h = h
            front (some a) b h = refl

            keeps : Keeps index next
            keeps path h =
                sym (is_some-view next path)
                ∙ ap is_some (refreshes path)
                ∙ front (listed (one ∷ []) path) (view_of index path) (is_some-view index path ∙ h)

    ensure_files-Ensured :
        (files : List ResolvedPath) (index : RevisionedBackendIndex D)
        → IsValid heap index
        → Ensured index files (ensure_files metadata create files index)
    unfolding ensure_files
    ensure_files-Ensured [] index valid = (valid, tt, (λ path h. h))
    ensure_files-Ensured (file ∷ files) index valid =
        by_known (is_some (Map.get file.relative index.by_relative_path)) refl
          (metadata file.absolute) (ensure_files-Ensured files)
      where
        Later : Type 0
        Later =
            (next : RevisionedBackendIndex D)
            → IsValid heap next
            → Ensured next files (ensure_files metadata create files next)

        with_first :
            (next : RevisionedBackendIndex D)
            → IsKnown next file
            → Keeps index next
            → (answer : Result BackendError (Unit {0}) × RevisionedBackendIndex D)
            → Ensured next files answer
            → Ensured index (file ∷ files) answer
        with_first next known keeps (ok u, last) (after, all_known, later) =
            (after, (later file.relative known, all_known), (λ path h. later path (keeps path h)))
        with_first next known keeps (err e, last) after = after

        by_selection :
            (answer : Result BackendError BackendRefreshSummary × RevisionedBackendIndex D)
            → Selected index file answer
            → Later
            → Ensured index
                (file ∷ files)
                (and_then answer (λ summary next. ensure_files metadata create files next))
        by_selection (ok s, next) (after, known, keeps) later =
            with_first next known keeps (ensure_files metadata create files next) (later next after)
        by_selection (err e, next) after later = after

        by_known :
            (b : Bool)
            → is_some (Map.get file.relative index.by_relative_path) ≡ b
            → (r : Result BackendError FileMetadata) → Later
            → Ensured index (file ∷ files) (elim b [
              | true ↦ ensure_files metadata create files index
              | false ↦ elim r [
                | err e ↦ (err e, index)
                | ok found ↦
                    and_then
                      (refresh create
                        (record {
                          relative = file.relative;
                          absolute = file.absolute;
                          metadata = found;
                        }
                          ∷ [])
                        selection
                        index)
                      (λ summary next. ensure_files metadata create files next)
              ]
            ])
        by_known true known r later =
            with_first index known (λ path h. h) (ensure_files metadata create files index)
              (later index valid)
        by_known false known (err e) later = valid
        by_known false known (ok found) later =
            by_selection _ (refresh-Selected index file found valid) later

    concat_declarations-walks :
        (index : RevisionedBackendIndex D) (files : List ResolvedPath)
        → IsValid heap index
        → concat_declarations index files ≡ walks index files
    concat_declarations-walks index [] valid = refl
    concat_declarations-walks index (file ∷ files) valid =
        rw (valid.2.0 file.relative, concat_declarations-walks index files valid) refl

    -- For a preparation that gives objects, the declarations asked for of a valid state are, if they
    -- are given, those of a new walk of the files, all of which are then known, though the state
    -- keeps what it derived before; after a failure too the state is valid.
    pub declarations-Answers :
        (files : List ResolvedPath) (index : RevisionedBackendIndex D)
        → IsValid heap index
        → Answers heap files (declarations metadata create files index)
    unfolding declarations
    declarations-Answers files index valid =
        answered (ensure_files metadata create files index) (ensure_files-Ensured files index valid)
      where
        answered :
            (r : Result BackendError (Unit {0}) × RevisionedBackendIndex D)
            → Ensured index files r
            → Answers heap files
                (and_then r (λ ensured next. (ok (concat_declarations next files), next)))
        answered (ok u, next) (after, known, keeps) =
            (concat_declarations-walks next files after, known, after)
        answered (err e, next) after = after
