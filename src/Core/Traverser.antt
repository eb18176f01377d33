-- ===== src/Core/Traverser.antt =====
-- packages/core/src/graph/graph-traverser.ts and graph-path.ts: the paths of calls from a symbol, up
-- to a depth. The backend's edges of a symbol are a parameter; the edges that were found already
-- are kept by the text of the symbol, and passed from call to call with the paths.
pub mod Walks
pub mod Paths
use symnav.Prelude.{
  ◌≡◌, ℕ, zero, suc, Bool, true, false, ◌&&◌, ◌||◌, Option, none, some, List, [], ◌∷◌, ◌++◌, Text,
  text_eq, text_lt, length, any, ltb, Result, ok, err, ◌>>=◌, sort_by, if◌then◌else◌, ◌==◌,
}
use symnav.Prelude.Map
use symnav.Prelude.Map.{Map, values}
use symnav.Core.Identity.{SymbolIdentity, EdgeConfidence, certain, possible}
use symnav.Core.Segment.{InvalidSymbolIdError, format_symbol_identity}
use symnav.Core.Overview.{SymbolOverviewNode, identity_of, CallEdge}

pub record GraphPathStep : Type 0 where
  pub symbol : SymbolOverviewNode
  pub confidence : EdgeConfidence
  pub reason : Option Text
  pub closes_cycle : Bool

abbrev pub GraphPath : Type 0
GraphPath = List GraphPathStep

abbrev pub EdgeFinder : Type 0
EdgeFinder = SymbolIdentity → List CallEdge

-- The two collections that the recursion shares: `paths` and `oneHopEdgesByIdentity`.
pub record Traversal : Type 0 where
  pub paths : List GraphPath
  pub one_hop_edges_by_identity : Map (List CallEdge)

abbrev pub Failing : Type 0 → Type 0
Failing A = Result InvalidSymbolIdError A

abbrev pub name_of : SymbolOverviewNode → Failing Text
name_of s = format_symbol_identity (identity_of s)

unfoldable pub should_replace_edge : EdgeConfidence → EdgeConfidence → Bool
should_replace_edge possible certain = true
should_replace_edge _ _ = false

-- `existingEdge === undefined || shouldReplaceEdge(existingEdge, edge)`
unfoldable pub takes_place : Option CallEdge → CallEdge → Bool
unfolding should_replace_edge
takes_place none edge = true
takes_place (some existing) edge = should_replace_edge existing.confidence edge.confidence

unfoldable pub collapse_from : Map CallEdge → List CallEdge → Failing (Map CallEdge)
unfolding takes_place
collapse_from found [] = ok found
collapse_from found (edge ∷ edges) = name_of edge.symbol >>= λ identity.
    collapse_from
      (if takes_place (Map.get identity found) edge then Map.set identity edge found else found)
      edges

unfoldable pub collapse_duplicate_edges : List CallEdge → Failing (List CallEdge)
unfolding collapse_from
collapse_duplicate_edges edges = collapse_from [] edges >>= λ found. ok (values found)

-- The reason is kept of an edge that is only possible.
unfoldable pub to_graph_path_step : CallEdge → Bool → GraphPathStep
to_graph_path_step edge closes = record {
  symbol = edge.symbol;
  confidence = edge.confidence;
  reason = elim edge.confidence [ possible ↦ edge.reason | certain ↦ none ];
  closes_cycle = closes;
}

pub record Found : Type 0 where
  pub edges : List CallEdge
  pub traversal : Traversal

unfoldable pub push_path : GraphPath → Traversal → Traversal
push_path steps t = record t { paths = t.paths ++ steps ∷ [] }

-- The loop over the edges; `visit` is the call of `extend` for a step that closes no cycle.
unfoldable pub extend_each :
    (SymbolOverviewNode → GraphPath → List Text → Traversal → Failing Traversal)
    → GraphPath
    → List Text
    → List CallEdge
    → Traversal
    → Failing Traversal
unfolding to_graph_path_step push_path
extend_each visit steps seen [] t = ok t
extend_each visit steps seen (edge ∷ edges) t = name_of edge.symbol >>= λ identity.
    elim (any (text_eq identity) seen) [
      | true ↦
          extend_each visit steps seen edges
            (push_path (steps ++ to_graph_path_step edge true ∷ []) t)
      | false ↦
          visit edge.symbol (steps ++ to_graph_path_step edge false ∷ []) (identity ∷ seen) t
          >>= λ u. extend_each visit steps seen edges u
    ]

-- A symbol without edges ends the path, unless it is the root.
unfoldable pub end_path : GraphPath → Traversal → Traversal
unfolding push_path
end_path [] t = t
end_path (s ∷ steps) t = push_path (s ∷ steps) t

unfoldable pub extend_edges :
    (SymbolOverviewNode → GraphPath → List Text → Traversal → Failing Traversal)
    → GraphPath
    → List Text
    → List CallEdge
    → Traversal
    → Failing Traversal
unfolding end_path extend_each
extend_edges visit steps seen [] t = ok (end_path steps t)
extend_edges visit steps seen (edge ∷ edges) t = extend_each visit steps seen (edge ∷ edges) t

module _ (find_edges : EdgeFinder) where
  pub found_at : SymbolIdentity → Text → Option (List CallEdge) → Traversal → Failing Found
  found_at current identity (some edges) t = ok (record { edges = edges; traversal = t })
  found_at current identity none t = collapse_duplicate_edges (find_edges current) >>= λ edges.
      ok (record {
        edges = edges;
        traversal = record t {
          one_hop_edges_by_identity = Map.set identity edges t.one_hop_edges_by_identity;
        };
      })

  unfoldable pub find_collapsed_edges : SymbolOverviewNode → Traversal → Failing Found
  unfolding found_at
  find_collapsed_edges current t = name_of current >>= λ identity.
      found_at (identity_of current) identity (Map.get identity t.one_hop_edges_by_identity) t

  -- The first argument is the depth that is left, `depth - steps.length`: it is zero exactly when
  -- `steps.length >= depth`, since every call adds one step.
  unfoldable pub extend :
      ℕ → SymbolOverviewNode → GraphPath → List Text → Traversal → Failing Traversal
  unfolding find_collapsed_edges extend_edges push_path
  extend zero current steps seen t = ok (push_path steps t)
  extend (suc left) current steps seen t = find_collapsed_edges current t >>= λ found.
      extend_edges (extend left) steps seen found.edges found.traversal

-- A symbol on a path was named before, so that its name is one here.
unfoldable pub name_or_empty : SymbolOverviewNode → Text
name_or_empty s = elim (name_of s) [ ok identity ↦ identity | err e ↦ [] ]

unfoldable pub names_before : GraphPath → GraphPath → Bool
unfolding name_or_empty
names_before [] right = false
names_before (l ∷ left) [] = false
names_before (l ∷ left) (r ∷ right) =
    let rest = names_before left right in
    if text_lt (name_or_empty l.symbol) (name_or_empty r.symbol)
    then true
    else (if text_lt (name_or_empty r.symbol) (name_or_empty l.symbol) then false else rest)

-- `compareGraphPaths(left, right) < 0`
unfoldable pub path_before : GraphPath → GraphPath → Bool
unfolding names_before
path_before left right =
    ltb (length left) (length right) || (length left == length right && names_before left right)

unfoldable pub traverse : EdgeFinder → ℕ → SymbolOverviewNode → Failing (List GraphPath)
unfolding extend path_before
traverse find_edges depth root = name_of root >>= λ identity.
    extend find_edges depth root [] (identity ∷ [])
      (record { paths = []; one_hop_edges_by_identity = [] })
    >>= λ t. ok (sort_by path_before t.paths)
