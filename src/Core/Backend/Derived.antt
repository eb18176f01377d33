-- ===== src/Core/Backend/Derived.antt =====
-- The maps of an index are those that its files give, though a file that is the same object as before
-- keeps what was derived from it.
use mathlib.Core.List.{append_assoc, append-nil}
use symnav.Prelude.{
  ◌≡◌, refl, sym, ap, subst, ◌∙◌, Bool, true, false, Option, none, some, List, [], ◌∷◌, ◌++◌, arith,
  Text, text_eq, text_eq_iff, filter, filter-append, get_or, All, if◌then◌else◌, Result, ok, err,
  >>=-eq-ok, ok-injective,
}
use symnav.Prelude.Map
use symnav.Prelude.Map.{Map, values, get-set}
use symnav.Core.Diagnostic.{NavigationDiagnostic}
use symnav.Core.Segment.{InvalidSymbolIdError, format_symbol_identity}
use symnav.Core.Overview.{SymbolOverviewNode, identity_of, walk_symbols}
use symnav.Core.Backend.{
  invalid_id, RevisionedBackendPreparedFile, RevisionedBackendIndex, diagnostics_of,
}
use symnav.Core.Backend.Building.{
  add_declarations, declarations_of, kept_diagnostics, index_with, add_file, add_files,
}
use symnav.Core.Backend.Tables.{or_else, IsTable}
use symnav.Core.Backend.Listed.{path_of}

-- The declarations whose identity is printed as a text.
abbrev pub is_named : Text → SymbolOverviewNode → Bool
is_named key declaration = elim (format_symbol_identity (identity_of declaration)) [
  | ok name ↦ text_eq name key
  | err e ↦ false
]

add_declarations-get :
    (declarations : List SymbolOverviewNode) (m out : Map (List SymbolOverviewNode)) (key : Text)
    → add_declarations declarations m ≡ ok out
    → get_or (Map.get key out) [] ≡ get_or (Map.get key m) [] ++ filter (is_named key) declarations
unfolding add_declarations
add_declarations-get [] m out key added =
    ap (λ n. get_or (Map.get key n) []) (sym (ok-injective added))
    ∙ sym (append-nil (get_or (Map.get key m) []))
add_declarations-get (d ∷ declarations) m out key added =
    named_by (format_symbol_identity (identity_of d))
      (λ n. add_declarations-get declarations n out key) added
  where
    named_by :
        (r : Result InvalidSymbolIdError Text)
        → ((n : Map (List SymbolOverviewNode))
            → add_declarations declarations n ≡ ok out
            → get_or (Map.get key out) []
              ≡ get_or (Map.get key n) [] ++ filter (is_named key) declarations)
        → elim r [
          | ok name ↦
              add_declarations declarations (Map.set name (get_or (Map.get name m) [] ++ d ∷ []) m)
          | err e ↦ err (invalid_id e)
        ]
          ≡ ok out
        → get_or (Map.get key out) []
          ≡ get_or (Map.get key m) []
            ++ (if elim r [ ok name ↦ text_eq name key | err e ↦ false ]
                then d ∷ filter (is_named key) declarations
                else filter (is_named key) declarations)
    named_by (err e) rest h = cc
    named_by (ok name) rest h =
        rest (Map.set name (get_or (Map.get name m) [] ++ d ∷ []) m) h
        ∙ rw (get-set name key (get_or (Map.get name m) [] ++ d ∷ []) m)
            (at_key (text_eq name key) refl)
      where
        at_key :
            (b : Bool)
            → text_eq name key ≡ b
            → get_or (if b then some (get_or (Map.get name m) [] ++ d ∷ []) else Map.get key m) []
                ++ filter (is_named key) declarations
              ≡ get_or (Map.get key m) []
                ++ (if b
                    then d ∷ filter (is_named key) declarations
                    else filter (is_named key) declarations)
        at_key true e =
            append_assoc (get_or (Map.get name m) []) (d ∷ []) (filter (is_named key) declarations)
            ∙ ap (λ k. get_or (Map.get k m) [] ++ d ∷ filter (is_named key) declarations)
                ((text_eq_iff name key).0 e)
        at_key false e = refl

module _ {D : Type 0} where
  abbrev pub walk_of : RevisionedBackendPreparedFile D → List SymbolOverviewNode
  walk_of prepared = walk_symbols prepared.entries.entries

  abbrev pub declarations_at :
      Option (RevisionedBackendPreparedFile D) → Option (List SymbolOverviewNode)
  declarations_at none = none
  declarations_at (some prepared) = some (walk_of prepared)

  abbrev pub diagnostics_at :
      Option (RevisionedBackendPreparedFile D) → Option (List NavigationDiagnostic)
  diagnostics_at none = none
  diagnostics_at (some prepared) = some (diagnostics_of prepared.entries)

  abbrev pub all_declarations : List (RevisionedBackendPreparedFile D) → List SymbolOverviewNode
  all_declarations [] = []
  all_declarations (prepared ∷ files) = walk_of prepared ++ all_declarations files

  -- The path of the last file with an absolute path.
  abbrev pub relative_of : Text → List (RevisionedBackendPreparedFile D) → Option Text
  relative_of absolute [] = none
  relative_of absolute (prepared ∷ files) =
      or_else (relative_of absolute files)
        (if text_eq prepared.file.absolute absolute then some prepared.file.relative else none)

  abbrev pub Adds :
      Map (RevisionedBackendPreparedFile D)
      → RevisionedBackendIndex D
      → RevisionedBackendIndex D
      → Type 0
  Adds m index next =
      ((path : Text)
        → Map.get path next.declarations_by_relative_path
          ≡ or_else (declarations_at (Map.get path m))
              (Map.get path index.declarations_by_relative_path))
      × ((path : Text)
          → Map.get path next.diagnostics_by_relative_path
            ≡ or_else (diagnostics_at (Map.get path m))
                (Map.get path index.diagnostics_by_relative_path))
      × ((key : Text)
          → get_or (Map.get key next.declarations_by_identity) []
            ≡ get_or (Map.get key index.declarations_by_identity) []
              ++ filter (is_named key) (all_declarations (values m)))
      × ((absolute : Text)
          → Map.get absolute next.relative_path_by_absolute
            ≡ or_else (relative_of absolute (values m))
                (Map.get absolute index.relative_path_by_absolute))

  -- A file of which the kept results are those of a new derivation.
  abbrev pub IsFresh : RevisionedBackendIndex D → RevisionedBackendPreparedFile D → Type 0
  IsFresh previous p =
      (declarations_of previous p ≡ walk_of p)
      × (kept_diagnostics previous p ≡ diagnostics_of p.entries)

  add_file-index_with :
      (previous : RevisionedBackendIndex D) (p : RevisionedBackendPreparedFile D)
      (index next : RevisionedBackendIndex D)
      → add_file previous p index ≡ ok next
      → (by_identity : Map (List SymbolOverviewNode)) × (add_declarations
            (declarations_of previous p)
            index.declarations_by_identity
          ≡ ok by_identity)
        × (index_with previous p index by_identity ≡ next)
  unfolding add_file
  add_file-index_with previous p index next added =
      let (by_identity, e, last) =
        >>=-eq-ok (add_declarations (declarations_of previous p) index.declarations_by_identity) _
          added in
      (by_identity, e, ok-injective last)

  pub add_files-Adds :
      (previous : RevisionedBackendIndex D) (m : Map (RevisionedBackendPreparedFile D))
      (index next : RevisionedBackendIndex D)
      → IsTable path_of m
      → All (IsFresh previous) (values m)
      → add_files previous (values m) index ≡ ok next
      → Adds m index next
  unfolding add_files Map.get index_with
  add_files-Adds previous [] index next table fresh added =
      subst (λ i. Adds [] index i) (ok-injective added)
        (
          (λ path. refl),
          (λ path. refl),
          (λ key. sym (append-nil (get_or (Map.get key index.declarations_by_identity) []))),
          (λ absolute. refl),
        )
  add_files-Adds previous ((k, p) ∷ m) index next table fresh added =
      let (middle, first, later) = >>=-eq-ok (add_file previous p index) _ added in
      let (by_identity, e, at_middle) = add_file-index_with previous p index middle first in
      one_more (by_identity) e (
        add_files-Adds previous m (index_with previous p index by_identity) next table.2 fresh.1
          (subst (λ i. add_files previous (values m) i ≡ ok next) (sym at_middle) later))
    where
      one_more :
          (by_identity : Map (List SymbolOverviewNode))
          → add_declarations (declarations_of previous p) index.declarations_by_identity
            ≡ ok by_identity
          → Adds m (index_with previous p index by_identity) next
          → Adds ((k, p) ∷ m) index next
      one_more by_identity e (paths, warnings, names, absolutes) = (
        (λ path.
            paths path
            ∙ ground (
              arith,
              get-set p.file.relative path (declarations_of previous p)
                  index.declarations_by_relative_path,
              text_eq_iff k path,
            )),
        (λ path.
            warnings path
            ∙ ground (
              arith,
              get-set p.file.relative path (kept_diagnostics previous p)
                  index.diagnostics_by_relative_path,
              text_eq_iff k path,
            )),
        (λ key.
            names key
            ∙ ap (λ l. l ++ filter (is_named key) (all_declarations (values m)))
                (add_declarations-get (declarations_of previous p) index.declarations_by_identity
                    by_identity key e
                  ∙ ap
                      (λ l.
                        get_or (Map.get key index.declarations_by_identity) []
                        ++ filter (is_named key) l)
                      fresh.0.0)
            ∙ append_assoc (get_or (Map.get key index.declarations_by_identity) [])
                (filter (is_named key) (walk_of p))
                (filter (is_named key) (all_declarations (values m)))
            ∙ ap (λ l. get_or (Map.get key index.declarations_by_identity) [] ++ l)
                (sym (filter-append (is_named key) (walk_of p) (all_declarations (values m))))),
        (λ absolute.
            absolutes absolute
            ∙ ground (
              arith,
              get-set p.file.absolute absolute p.file.relative index.relative_path_by_absolute,
            )),
      )
