-- ===== src/Core/Disambiguators.antt =====
-- packages/core/src/intermediate-representation/assign-disambiguators.ts: the symbols of a scope that
-- share a name are numbered in their order. The recursion goes into children whose segments were
-- stamped; it is on the depth of the scopes, which stamping keeps.
pub mod Labels
pub mod Stamping
pub mod Scopes
use symnav.Prelude.{
  ℕ, zero, suc, ◌+◌, ◌-◌, max, Bool, true, false, Option, none, some, List, [], ◌∷◌, ◌++◌, Text,
  leb, ◌==◌, length, last?, take, get_or, if◌then◌else◌,
}
use symnav.Prelude.Map
use symnav.Prelude.Map.{Map}
use symnav.Core.Identity.{SymbolPathSegment, SymbolIdentity}
use symnav.Core.Overview.{
  OverviewNode, symbol_node, fold_node, re_export, SymbolOverviewNode, symbol_overview_node, Nodes,
  leaf, node, identity_of, scope_symbols, own_name,
}

unfoldable pub count_by_own_name : List SymbolOverviewNode → Map ℕ → Map ℕ
unfolding own_name
count_by_own_name [] counts = counts
count_by_own_name (symbol ∷ symbols) counts =
    count_by_own_name symbols
      (Map.set (own_name symbol) (get_or (Map.get (own_name symbol) counts) 0 + 1) counts)

-- `segments.map` with the segment at a position stamped.
unfoldable pub stamp_at : ℕ → ℕ → List SymbolPathSegment → List SymbolPathSegment
stamp_at index disambiguator [] = []
stamp_at zero disambiguator (segment ∷ segments) =
    record { name = segment.name; disambiguator = some disambiguator } ∷ segments
stamp_at (suc index) disambiguator (segment ∷ segments) =
    segment ∷ stamp_at index disambiguator segments

unfoldable mutual
  unfolding stamp_at

  pub stamp_ancestor_disambiguator : ℕ → ℕ → OverviewNode → OverviewNode
  stamp_ancestor_disambiguator index disambiguator (re_export range header kind names source) =
      re_export range header kind names source
  stamp_ancestor_disambiguator index disambiguator (fold_node range header kind variants children) =
      fold_node range header kind variants (stamp_each index disambiguator children)
  stamp_ancestor_disambiguator index disambiguator
        (symbol_node (symbol_overview_node range header identity kind children)) =
      symbol_node (
        symbol_overview_node range header
          (record {
            file = identity.file;
            segments = stamp_at index disambiguator identity.segments;
          })
          kind (stamp_each index disambiguator children))

  pub stamp_each : ℕ → ℕ → Nodes → Nodes
  stamp_each index disambiguator leaf = leaf
  stamp_each index disambiguator (node child children) =
      node (stamp_ancestor_disambiguator index disambiguator child)
        (stamp_each index disambiguator children)

-- The last segment of a path with its disambiguator, or none.
unfoldable pub with_leaf_disambiguator : List SymbolPathSegment → Option ℕ → List SymbolPathSegment
with_leaf_disambiguator [] disambiguator = []
with_leaf_disambiguator (leaf_segment ∷ []) disambiguator =
    record { name = leaf_segment.name; disambiguator = disambiguator } ∷ []
with_leaf_disambiguator (segment ∷ next ∷ segments) disambiguator =
    segment ∷ with_leaf_disambiguator (next ∷ segments) disambiguator

unfoldable pub stamped_children : List SymbolPathSegment → Option ℕ → Nodes → Nodes
unfolding stamp_each
stamped_children segments none children = children
stamped_children segments (some disambiguator) children =
    stamp_each (length segments - 1) disambiguator children

-- A symbol with its number; `recur` is `assignDisambiguators` on its children.
unfoldable pub disambiguated_symbol :
    (Nodes → Nodes) → SymbolOverviewNode → Option ℕ → SymbolOverviewNode
unfolding stamped_children with_leaf_disambiguator
disambiguated_symbol recur (symbol_overview_node range header identity kind children)
      disambiguator =
    symbol_overview_node range header
      (record {
        file = identity.file;
        segments = with_leaf_disambiguator identity.segments disambiguator;
      })
      kind (recur (stamped_children identity.segments disambiguator children))

-- The next number of a name that occurs more than once.
unfoldable pub next_disambiguator : Map ℕ → Map ℕ → Text → Option ℕ
next_disambiguator occurrences assigned name =
    if leb 2 (get_or (Map.get name occurrences) 0)
    then some (get_or (Map.get name assigned) 0 + 1)
    else none

unfoldable pub count_assigned : Text → Option ℕ → Map ℕ → Map ℕ
count_assigned name none assigned = assigned
count_assigned name (some disambiguator) assigned = Map.set name disambiguator assigned

unfoldable mutual
  unfolding disambiguated_symbol next_disambiguator count_assigned own_name

  pub assign_within_scope : (Nodes → Nodes) → Map ℕ → OverviewNode → Map ℕ → OverviewNode × Map ℕ
  assign_within_scope recur occurrences (re_export range header kind names source) assigned =
      (re_export range header kind names source, assigned)
  assign_within_scope recur occurrences (fold_node range header kind variants children) assigned =
      let (done, after) = assign_each recur occurrences children assigned in
      (fold_node range header kind variants done, after)
  assign_within_scope recur occurrences (symbol_node symbol) assigned =
      let disambiguator = next_disambiguator occurrences assigned (own_name symbol) in
      (
        symbol_node (disambiguated_symbol recur symbol disambiguator),
        count_assigned (own_name symbol) disambiguator assigned,
      )

  pub assign_each : (Nodes → Nodes) → Map ℕ → Nodes → Map ℕ → Nodes × Map ℕ
  assign_each recur occurrences leaf assigned = (leaf, assigned)
  assign_each recur occurrences (node sibling siblings) assigned =
      let (first, between) = assign_within_scope recur occurrences sibling assigned in
      let (rest, after) = assign_each recur occurrences siblings between in (node first rest, after)

unfoldable pub assign_to_depth : ℕ → Nodes → Nodes
unfolding assign_each count_by_own_name scope_symbols
assign_to_depth zero siblings = siblings
assign_to_depth (suc depth) siblings =
    (assign_each (assign_to_depth depth) (count_by_own_name (scope_symbols siblings) []) siblings
      []).0

-- The number of scopes with symbols, one in the other.
unfoldable mutual
  pub node_depth : OverviewNode → ℕ
  node_depth (re_export range header kind names source) = 0
  node_depth (fold_node range header kind variants children) = scope_depth children
  node_depth (symbol_node (symbol_overview_node range header identity kind children)) =
      suc (scope_depth children)

  pub scope_depth : Nodes → ℕ
  scope_depth leaf = 0
  scope_depth (node sibling siblings) = max (node_depth sibling) (scope_depth siblings)

unfoldable pub assign_disambiguators : Nodes → Nodes
unfolding assign_to_depth scope_depth
assign_disambiguators siblings = assign_to_depth (scope_depth siblings) siblings
