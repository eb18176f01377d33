-- ===== src/Core/Disambiguators/Scopes.antt =====
-- In every scope of a tree, the symbols differ in their names and numbers.
use mathlib.Core.List.{map-append}
use symnav.Prelude.{
  ◌≡◌, refl, sym, ap, subst, ◌∙◌, ℕ, zero, suc, ◌+◌, ◌≤◌, Option, none, some, List, [], ◌∷◌, ◌++◌,
  map, arith, Text, text_eq_iff, last?,
}
use symnav.Prelude.Map.{Map, get-set}
use symnav.Core.Identity.{SymbolPathSegment}
use symnav.Core.Overview.{
  OverviewNode, symbol_node, fold_node, re_export, SymbolOverviewNode, symbol_overview_node, Nodes,
  leaf, node, identity_of, own_name, scope_of_node, scope_symbols,
}
use symnav.Core.Disambiguators.{
  count_by_own_name, with_leaf_disambiguator, stamped_children, disambiguated_symbol,
  next_disambiguator, assign_within_scope, assign_each, assign_to_depth, node_depth, scope_depth,
  assign_disambiguators,
}
use symnav.Core.Disambiguators.Labels.{
  Label, AreDistinct, times, labels_of, after_labels, labels_of-append, after_labels-append,
  labels_of-AreDistinct, number_at,
}
use symnav.Core.Disambiguators.Stamping.{
  IsPath, HasPath, HavePaths, stamped_children-HavePaths, scope_depth-stamped_children,
}

abbrev number_in : Option SymbolPathSegment → Option ℕ
number_in none = none
number_in (some segment) = segment.disambiguator

-- The name of a symbol, and the number of its last segment.
abbrev pub label_of : SymbolOverviewNode → Label
label_of symbol = (own_name symbol, number_in (last? (identity_of symbol).segments))

abbrev pub scope_labels : Nodes → List Label
scope_labels siblings = map label_of (scope_symbols siblings)

abbrev pub own_names : Nodes → List Text
own_names siblings = map own_name (scope_symbols siblings)

-- In the scopes inside a node, and inside each of a list, no label is there twice.
unfoldable mutual
  unfolding scope_symbols own_name identity_of

  pub IsUnambiguousWithin : OverviewNode → Type 0
  IsUnambiguousWithin (re_export range header kind names source) = Unit
  IsUnambiguousWithin (fold_node range header kind variants children) =
      AreUnambiguousWithin children
  IsUnambiguousWithin (symbol_node (symbol_overview_node range header identity kind children)) =
      AreDistinct (scope_labels children) × AreUnambiguousWithin children

  pub AreUnambiguousWithin : Nodes → Type 0
  AreUnambiguousWithin leaf = Unit
  AreUnambiguousWithin (node sibling siblings) =
      IsUnambiguousWithin sibling × AreUnambiguousWithin siblings

-- In a scope, and in all scopes inside, no label is there twice.
abbrev pub AreUnambiguous : Nodes → Type 0
AreUnambiguous siblings = AreDistinct (scope_labels siblings) × AreUnambiguousWithin siblings

last_segment :
    (segments : List SymbolPathSegment) (number : Option ℕ)
    → IsPath segments
    → (name : Text) × (last? (with_leaf_disambiguator segments number)
        ≡ some (record { name = name; disambiguator = number }))
      × (old : Option ℕ) × (last? segments ≡ some (record { name = name; disambiguator = old }))
unfolding with_leaf_disambiguator
last_segment [] number h = absurd h
last_segment (x ∷ []) number h = (x.name, refl, x.disambiguator, refl)
last_segment (x ∷ y ∷ []) number h = (y.name, refl, y.disambiguator, refl)
last_segment (x ∷ y ∷ z ∷ segments) number h = last_segment (y ∷ z ∷ segments) number tt

label_of-disambiguated_symbol :
    (recur : Nodes → Nodes) (symbol : SymbolOverviewNode) (number : Option ℕ)
    → HasPath (symbol_node symbol)
    → label_of (disambiguated_symbol recur symbol number) ≡ (own_name symbol, number)
unfolding disambiguated_symbol own_name identity_of HasPath
label_of-disambiguated_symbol recur (symbol_overview_node range header identity kind children)
      number h =
    let (name, now, old, before) = last_segment identity.segments number h.0 in
    rw (now, before) refl

module _ (recur : Nodes → Nodes) (occurrences : Map ℕ) where
  mutual
    unfolding assign_each scope_symbols labels_of after_labels HavePaths

    within_labels :
        (n : OverviewNode) (assigned : Map ℕ)
        → HasPath n
        → (map label_of (scope_of_node (assign_within_scope recur occurrences n assigned).0)
            ≡ labels_of occurrences (map own_name (scope_of_node n)) assigned)
          × ((assign_within_scope recur occurrences n assigned).1
              ≡ after_labels occurrences (map own_name (scope_of_node n)) assigned)
    within_labels (re_export range header kind names source) assigned h = (refl, refl)
    within_labels (fold_node range header kind variants children) assigned h =
        each_labels children assigned h
    within_labels (symbol_node symbol) assigned h = (
      ap (λ l. l ∷ [])
          (label_of-disambiguated_symbol recur symbol
            (next_disambiguator occurrences assigned (own_name symbol)) h),
      refl,
    )

    each_labels :
        (nodes : Nodes) (assigned : Map ℕ)
        → HavePaths nodes
        → (scope_labels (assign_each recur occurrences nodes assigned).0
            ≡ labels_of occurrences (own_names nodes) assigned)
          × ((assign_each recur occurrences nodes assigned).1
              ≡ after_labels occurrences (own_names nodes) assigned)
    each_labels leaf assigned h = (refl, refl)
    each_labels (node n nodes) assigned h =
        let (first, between) = within_labels n assigned h.0 in
        let (rest, last) =
          each_labels nodes (assign_within_scope recur occurrences n assigned).1 h.1 in
        (
          map-append label_of (scope_of_node (assign_within_scope recur occurrences n assigned).0) (
                scope_symbols
                  (assign_each recur occurrences nodes
                    (assign_within_scope recur occurrences n assigned).1).0)
              ∙ ap
                  (λ l.
                    l
                    ++ scope_labels
                        (assign_each recur occurrences nodes
                          (assign_within_scope recur occurrences n assigned).1).0)
                  first
              ∙ ap (λ l. labels_of occurrences (map own_name (scope_of_node n)) assigned ++ l)
                  (rest ∙ ap (λ m. labels_of occurrences (own_names nodes) m) between)
              ∙ sym (
                  labels_of-append occurrences (map own_name (scope_of_node n)) (own_names nodes)
                    assigned)
              ∙ ap (λ l. labels_of occurrences l assigned)
                  (sym (map-append own_name (scope_of_node n) (scope_symbols nodes))),
          last
              ∙ ap (λ m. after_labels occurrences (own_names nodes) m) between
              ∙ sym (
                  after_labels-append occurrences (map own_name (scope_of_node n)) (own_names nodes)
                    assigned)
              ∙ ap (λ l. after_labels occurrences l assigned)
                  (sym (map-append own_name (scope_of_node n) (scope_symbols nodes))),
        )

count_by_own_name-times :
    (symbols : List SymbolOverviewNode) (counts : Map ℕ) (name : Text)
    → number_at (count_by_own_name symbols counts) name
      ≡ number_at counts name + times name (map own_name symbols)
unfolding count_by_own_name
count_by_own_name-times [] counts name = omega arith
count_by_own_name-times (symbol ∷ symbols) counts name =
    count_by_own_name-times symbols _ name
    ∙ ground (
      arith,
      get-set (own_name symbol) name (number_at counts (own_name symbol) + 1) counts,
      text_eq_iff (own_name symbol) name,
    )

-- The names of labels are the names that were numbered.
names-labels_of :
    (occurrences : Map ℕ) (names : List Text) (assigned : Map ℕ)
    → map (λ label. label.0) (labels_of occurrences names assigned) ≡ names
unfolding labels_of
names-labels_of occurrences [] assigned = refl
names-labels_of occurrences (name ∷ names) assigned =
    ap (λ l. name ∷ l) (names-labels_of occurrences names _)

names_of_labels :
    (symbols : List SymbolOverviewNode)
    → map (λ label. label.0) (map label_of symbols) ≡ map own_name symbols
names_of_labels [] = refl
names_of_labels (symbol ∷ symbols) = ap (λ l. own_name symbol ∷ l) (names_of_labels symbols)

mutual
  unfolding scope_depth scope_symbols IsUnambiguousWithin

  no_scope_within :
      (n : OverviewNode) → node_depth n ≤ 0 → (scope_of_node n ≡ []) × IsUnambiguousWithin n
  no_scope_within (re_export range header kind names source) h = (refl, tt)
  no_scope_within (fold_node range header kind variants children) h = no_scope children h
  no_scope_within (symbol_node (symbol_overview_node range header identity kind children)) h =
      absurd (omega arith)

  no_scope :
      (nodes : Nodes)
      → scope_depth nodes ≤ 0
      → (scope_symbols nodes ≡ []) × AreUnambiguousWithin nodes
  no_scope leaf h = (refl, tt)
  no_scope (node n nodes) h =
      let (none_here, within) = no_scope_within n (omega arith) in
      let (none_later, later) = no_scope nodes (omega arith) in
      (rw (none_here, none_later) refl, (within, later))

module _ (recur : Nodes → Nodes) (depth : ℕ)
    (children_done : (children : Nodes)
      → scope_depth children ≤ depth
      → HavePaths children
      → AreUnambiguous (recur children))
    (occurrences : Map ℕ) where
  mutual
    unfolding assign_each scope_depth HavePaths IsUnambiguousWithin disambiguated_symbol

    within_done :
        (n : OverviewNode) (assigned : Map ℕ)
        → node_depth n ≤ suc depth
        → HasPath n
        → IsUnambiguousWithin (assign_within_scope recur occurrences n assigned).0
    within_done (re_export range header kind names source) assigned shallow h = tt
    within_done (fold_node range header kind variants children) assigned shallow h =
        each_done children assigned shallow h
    within_done (symbol_node (symbol_overview_node range header identity kind children)) assigned
          shallow h =
        children_done
          (stamped_children identity.segments
            (next_disambiguator occurrences assigned
              (own_name (symbol_overview_node range header identity kind children)))
            children)
          (omega (
            arith,
            scope_depth-stamped_children identity.segments
                (next_disambiguator occurrences assigned
                  (own_name (symbol_overview_node range header identity kind children)))
                children,
          ))
          (stamped_children-HavePaths identity.segments _ children h.1)

    each_done :
        (nodes : Nodes) (assigned : Map ℕ)
        → scope_depth nodes ≤ suc depth
        → HavePaths nodes
        → AreUnambiguousWithin (assign_each recur occurrences nodes assigned).0
    each_done leaf assigned shallow h = tt
    each_done (node n nodes) assigned shallow h =
        (within_done n assigned (omega arith) h.0, each_done nodes _ (omega arith) h.1)

assign_to_depth-AreUnambiguous :
    (depth : ℕ) (siblings : Nodes)
    → scope_depth siblings ≤ depth
    → HavePaths siblings
    → AreUnambiguous (assign_to_depth depth siblings)
      × (own_names (assign_to_depth depth siblings) ≡ own_names siblings)
unfolding assign_to_depth
assign_to_depth-AreUnambiguous zero siblings shallow h =
    ((rw (no_scope siblings shallow).0 tt, (no_scope siblings shallow).1), refl)
assign_to_depth-AreUnambiguous (suc depth) siblings shallow h = (
  (
    subst AreDistinct (sym labels) (
        labels_of-AreDistinct occurrences (own_names siblings) []
          (λ name. omega (arith, count_by_own_name-times (scope_symbols siblings) [] name))),
    each_done (assign_to_depth depth) depth
        (λ children deep paths. (assign_to_depth-AreUnambiguous depth children deep paths).0)
        occurrences siblings [] shallow h,
  ),
  sym (names_of_labels (scope_symbols done))
      ∙ ap (λ l. map (λ label. label.0) l) labels
      ∙ names-labels_of occurrences (own_names siblings) [],
)
  where
    occurrences : Map ℕ
    occurrences = count_by_own_name (scope_symbols siblings) []

    done : Nodes
    done = (assign_each (assign_to_depth depth) occurrences siblings []).0

    labels : scope_labels done ≡ labels_of occurrences (own_names siblings) []
    labels = (each_labels (assign_to_depth depth) occurrences siblings [] h).0

-- For siblings whose symbols have paths, after the assignment no two symbols of one scope, at any
-- depth, share both their name and their number, and the symbols of the outer scope have the names that they
-- had, in the same order.
pub assign_disambiguators-AreUnambiguous :
    (siblings : Nodes)
    → HavePaths siblings
    → AreUnambiguous (assign_disambiguators siblings)
      × (own_names (assign_disambiguators siblings) ≡ own_names siblings)
unfolding assign_disambiguators
assign_disambiguators-AreUnambiguous siblings h =
    assign_to_depth-AreUnambiguous (scope_depth siblings) siblings (omega arith) h
