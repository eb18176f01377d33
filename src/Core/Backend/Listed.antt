-- ===== src/Core/Backend/Listed.antt =====
-- What the maps of a request hold, and what is left when files are removed.
use symnav.Prelude.{
  ◌≡◌, refl, sym, subst, ◌∙◌, Bool, true, false, not, Option, none, some, List, [], ◌∷◌, map, arith,
  Text, text_eq, text_eq_iff, filter, is_some, All, inl, inr, ◌⊎◌, if◌then◌else◌,
}
use symnav.Prelude.Map
use symnav.Prelude.Map.{Map, values, keys, get-set, get-delete}
use symnav.Core.Backend.{WorkspaceFile, RevisionedBackendPreparedFile, set_files}
use symnav.Core.Backend.Candidate.{delete_files}
use symnav.Core.Backend.Tables.{or_else, IsTable, set-IsTable}

pub set_files-get :
    (files : List WorkspaceFile) (m : Map WorkspaceFile) (path : Text)
    → Map.get path (set_files files m)
      ≡ or_else (Map.get path (set_files files [])) (Map.get path m)
unfolding set_files Map.get Map.set
set_files-get [] m path = refl
set_files-get (file ∷ files) m path = ground (
  arith,
  set_files-get files (Map.set file.relative file m) path,
  set_files-get files (Map.set file.relative file []) path,
  get-set file.relative path file m,
)

pub set_files-IsTable :
    (files : List WorkspaceFile) (m : Map WorkspaceFile)
    → IsTable (λ f. f.relative) m
    → IsTable (λ f. f.relative) (set_files files m)
unfolding set_files
set_files-IsTable [] m h = h
set_files-IsTable (file ∷ files) m h =
    set_files-IsTable files (Map.set file.relative file m) (set-IsTable (λ f. f.relative) file m h)

pub set_files-values :
    (m : Map WorkspaceFile) (path : Text)
    → IsTable (λ f. f.relative) m
    → Map.get path (set_files (values m) []) ≡ Map.get path m
unfolding set_files Map.get Map.set
set_files-values [] path h = refl
set_files-values ((k, file) ∷ m) path h = ground (
  arith,
  set_files-get (values m) (Map.set file.relative file []) path,
  set_files-values m path h.2,
  text_eq_iff k path,
)

pub chosen :
    {A : Type 0} (a b : A) (o : Option A) (here : Bool)
    → or_else o (if here then some a else none) ≡ some b
    → (o ≡ some b) ⊎ ((here ≡ true) × (a ≡ b))
chosen a b none true h = inr (refl, cc)
chosen a b none false h = cc
chosen a b (some c) here h = inl h

-- A file of the map is one of the list.
pub set_files-All :
    (Q : WorkspaceFile → Type 0) (files : List WorkspaceFile) (path : Text) (f : WorkspaceFile)
    → All Q files
    → Map.get path (set_files files []) ≡ some f
    → (f.relative ≡ path) × Q f
unfolding set_files Map.get Map.set
set_files-All Q [] path f h found = cc
set_files-All Q (file ∷ files) path f h found =
    elim (chosen file f (Map.get path (set_files files [])) (text_eq file.relative path)
      (sym (set_files-get files (Map.set file.relative file []) path) ∙ found)) [
        | inl later ↦ set_files-All Q files path f h.1 later
        | inr (here, e) ↦
            subst (λ g. (g.relative ≡ path) × Q g) e ((text_eq_iff file.relative path).0 here, h.0)
      ]

module _ {D : Type 0} where
  abbrev pub file_at : Option (RevisionedBackendPreparedFile D) → Option WorkspaceFile
  file_at none = none
  file_at (some p) = some p.file

  abbrev pub path_of : RevisionedBackendPreparedFile D → Text
  path_of p = p.file.relative

  pub set_files-files :
      (m : Map (RevisionedBackendPreparedFile D)) (path : Text)
      → IsTable path_of m
      → Map.get path (set_files (map (λ p. p.file) (values m)) []) ≡ file_at (Map.get path m)
  unfolding set_files Map.get Map.set
  set_files-files [] path h = refl
  set_files-files ((k, p) ∷ m) path h = ground (
    arith,
    set_files-get (map (λ q. q.file) (values m)) (Map.set p.file.relative p.file []) path,
    set_files-files m path h.2,
    text_eq_iff k path,
  )

  pub delete_files-get :
      (removed : List (RevisionedBackendPreparedFile D)) (m : Map (RevisionedBackendPreparedFile D))
      (path : Text)
      → All (λ p. text_eq p.file.relative path ≡ false) removed
      → Map.get path (delete_files removed m) ≡ Map.get path m
  unfolding delete_files
  delete_files-get [] m path h = refl
  delete_files-get (p ∷ removed) m path h =
      delete_files-get removed (Map.delete p.file.relative m) path h.1
      ∙ rw (get-delete p.file.relative path m, h.0) refl

  -- A file of the list is not removed.
  pub kept :
      (all : Map WorkspaceFile) (path : Text) (f : WorkspaceFile)
      (ps : List (RevisionedBackendPreparedFile D))
      → Map.get path all ≡ some f
      → All
          (λ p. text_eq p.file.relative path ≡ false)
          (filter (λ p. not (is_some (Map.get p.file.relative all))) ps)
  kept all path f [] found = tt
  kept all path f (p ∷ ps) found =
      ground (arith, kept all path f ps found, text_eq_iff p.file.relative path)
