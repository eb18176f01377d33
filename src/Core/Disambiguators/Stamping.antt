-- ===== src/Core/Disambiguators/Stamping.antt =====
-- Stamping keeps the depth of the scopes and that every symbol has a path.
use symnav.Prelude.{◌≡◌, refl, ap, ℕ, zero, suc, ◌-◌, Option, none, some, List, [], ◌∷◌, length}
use symnav.Core.Identity.{SymbolPathSegment}
use symnav.Core.Overview.{
  OverviewNode, symbol_node, fold_node, re_export, symbol_overview_node, Nodes, leaf, node,
}
use symnav.Core.Disambiguators.{
  stamp_at, stamp_ancestor_disambiguator, stamp_each, stamped_children, node_depth, scope_depth,
}

abbrev pub IsPath : List SymbolPathSegment → Type 0
IsPath [] = ⊥
IsPath (segment ∷ segments) = Unit

-- Every symbol of a tree has a segment.
unfoldable mutual
  pub HasPath : OverviewNode → Type 0
  HasPath (re_export range header kind names source) = Unit
  HasPath (fold_node range header kind variants children) = HavePaths children
  HasPath (symbol_node (symbol_overview_node range header identity kind children)) =
      IsPath identity.segments × HavePaths children

  pub HavePaths : Nodes → Type 0
  HavePaths leaf = Unit
  HavePaths (node sibling siblings) = HasPath sibling × HavePaths siblings

stamp_at-IsPath :
    (index disambiguator : ℕ) (segments : List SymbolPathSegment)
    → IsPath segments
    → IsPath (stamp_at index disambiguator segments)
unfolding stamp_at
stamp_at-IsPath index disambiguator [] h = h
stamp_at-IsPath zero disambiguator (segment ∷ segments) h = tt
stamp_at-IsPath (suc index) disambiguator (segment ∷ segments) h = tt

mutual
  unfolding stamp_each HavePaths

  stamp_ancestor_disambiguator-HasPath :
      (index disambiguator : ℕ) (n : OverviewNode)
      → HasPath n
      → HasPath (stamp_ancestor_disambiguator index disambiguator n)
  stamp_ancestor_disambiguator-HasPath index disambiguator
        (re_export range header kind names source) h =
      tt
  stamp_ancestor_disambiguator-HasPath index disambiguator
        (fold_node range header kind variants children) h =
      stamp_each-HavePaths index disambiguator children h
  stamp_ancestor_disambiguator-HasPath index disambiguator
        (symbol_node (symbol_overview_node range header identity kind children)) h =
      (
        stamp_at-IsPath index disambiguator identity.segments h.0,
        stamp_each-HavePaths index disambiguator children h.1,
      )

  stamp_each-HavePaths :
      (index disambiguator : ℕ) (nodes : Nodes)
      → HavePaths nodes
      → HavePaths (stamp_each index disambiguator nodes)
  stamp_each-HavePaths index disambiguator leaf h = tt
  stamp_each-HavePaths index disambiguator (node n nodes) h = (
    stamp_ancestor_disambiguator-HasPath index disambiguator n h.0,
    stamp_each-HavePaths index disambiguator nodes h.1,
  )

mutual
  unfolding stamp_each scope_depth

  node_depth-stamp :
      (index disambiguator : ℕ) (n : OverviewNode)
      → node_depth (stamp_ancestor_disambiguator index disambiguator n) ≡ node_depth n
  node_depth-stamp index disambiguator (re_export range header kind names source) = refl
  node_depth-stamp index disambiguator (fold_node range header kind variants children) =
      scope_depth-stamp_each index disambiguator children
  node_depth-stamp index disambiguator
        (symbol_node (symbol_overview_node range header identity kind children)) =
      ap suc (scope_depth-stamp_each index disambiguator children)

  scope_depth-stamp_each :
      (index disambiguator : ℕ) (nodes : Nodes)
      → scope_depth (stamp_each index disambiguator nodes) ≡ scope_depth nodes
  scope_depth-stamp_each index disambiguator leaf = refl
  scope_depth-stamp_each index disambiguator (node n nodes) =
      rw (node_depth-stamp index disambiguator n, scope_depth-stamp_each index disambiguator nodes)
        refl

pub stamped_children-HavePaths :
    (segments : List SymbolPathSegment) (number : Option ℕ) (children : Nodes)
    → HavePaths children
    → HavePaths (stamped_children segments number children)
unfolding stamped_children
stamped_children-HavePaths segments none children h = h
stamped_children-HavePaths segments (some disambiguator) children h =
    stamp_each-HavePaths (length segments - 1) disambiguator children h

pub scope_depth-stamped_children :
    (segments : List SymbolPathSegment) (number : Option ℕ) (children : Nodes)
    → scope_depth (stamped_children segments number children) ≡ scope_depth children
unfolding stamped_children
scope_depth-stamped_children segments none children = refl
scope_depth-stamped_children segments (some disambiguator) children =
    scope_depth-stamp_each (length segments - 1) disambiguator children
