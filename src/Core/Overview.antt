-- ===== src/Core/Overview.antt =====
-- packages/core/src/intermediate-representation/overview-tree.ts and call-edge.ts: the tree of the
-- symbols of a file, and the edges between symbols.
use symnav.Prelude.{ℕ, Option, none, some, List, [], ◌∷◌, ◌++◌, Text, last?}
use symnav.Core.Identity.{
  SymbolPathSegment, SymbolIdentity, LineRange, Header, SymbolKind, EdgeConfidence,
}
use symnav.Core.Diagnostic.{NavigationDiagnostic}

mutual
  pub data OverviewNode : Type 0 where
    symbol_node : SymbolOverviewNode → OverviewNode
    -- range, header, kind, variants of the header, children
    fold_node : LineRange → Header → Text → Option (List Text) → Nodes → OverviewNode
    -- range, header, kind, names, module
    re_export : LineRange → Header → Text → List Text → Option Text → OverviewNode

  pub data SymbolOverviewNode : Type 0 where
    symbol_overview_node :
        LineRange → Header → SymbolIdentity → SymbolKind → Nodes → SymbolOverviewNode

  -- The list of the children.
  pub data Nodes : Type 0 where
    leaf : Nodes
    node : OverviewNode → Nodes → Nodes

unfoldable pub identity_of : SymbolOverviewNode → SymbolIdentity
identity_of (symbol_overview_node range header identity kind children) = identity

pub record OverviewFileEntries : Type 0 where
  pub file : Text
  pub entries : Nodes
  pub diagnostics : Option (List NavigationDiagnostic)

-- `collectSymbols` of a node, and of each node of a list, behind the symbols so far.
unfoldable mutual
  pub collect_symbols : OverviewNode → List SymbolOverviewNode → List SymbolOverviewNode
  collect_symbols (re_export range header kind names source) symbols = symbols
  collect_symbols (fold_node range header kind variants children) symbols =
      collect_each children symbols
  collect_symbols (symbol_node (symbol_overview_node range header identity kind children)) symbols =
      collect_each children
        (symbols ++ symbol_overview_node range header identity kind children ∷ [])

  pub collect_each : Nodes → List SymbolOverviewNode → List SymbolOverviewNode
  collect_each leaf symbols = symbols
  collect_each (node entry entries) symbols = collect_each entries (collect_symbols entry symbols)

unfoldable pub walk_symbols : Nodes → List SymbolOverviewNode
unfolding collect_each
walk_symbols entries = collect_each entries []

unfoldable pub direct_symbol_children : Nodes → List SymbolOverviewNode
direct_symbol_children leaf = []
direct_symbol_children (node (symbol_node symbol) nodes) = symbol ∷ direct_symbol_children nodes
direct_symbol_children (node (fold_node range header kind variants children) nodes) =
    direct_symbol_children nodes
direct_symbol_children (node (re_export range header kind names source) nodes) =
    direct_symbol_children nodes

unfoldable pub direct_folds : Nodes → List OverviewNode
direct_folds leaf = []
direct_folds (node (symbol_node symbol) nodes) = direct_folds nodes
direct_folds (node (fold_node range header kind variants children) nodes) =
    fold_node range header kind variants children ∷ direct_folds nodes
direct_folds (node (re_export range header kind names source) nodes) = direct_folds nodes

-- The symbols of a scope: those of a fold are among its siblings.
unfoldable mutual
  pub scope_of_node : OverviewNode → List SymbolOverviewNode
  scope_of_node (symbol_node symbol) = symbol ∷ []
  scope_of_node (fold_node range header kind variants children) = scope_symbols children
  scope_of_node (re_export range header kind names source) = []

  pub scope_symbols : Nodes → List SymbolOverviewNode
  scope_symbols leaf = []
  scope_symbols (node sibling siblings) = scope_of_node sibling ++ scope_symbols siblings

abbrev name_or_empty : Option SymbolPathSegment → Text
name_or_empty none = []
name_or_empty (some segment) = segment.name

unfoldable pub own_name : SymbolOverviewNode → Text
unfolding identity_of
own_name symbol = name_or_empty (last? (identity_of symbol).segments)

-- packages/core/src/intermediate-representation/source-match.ts
pub record SourceMatch : Type 0 where
  pub file : Text
  pub line : ℕ
  pub preview_source : Text
  pub match_start : ℕ
  pub match_end : ℕ

abbrev pub CallSite : Type 0
CallSite = SourceMatch

pub record CallEdge : Type 0 where
  pub symbol : SymbolOverviewNode
  pub sites : List CallSite
  pub confidence : EdgeConfidence
  pub reason : Option Text
