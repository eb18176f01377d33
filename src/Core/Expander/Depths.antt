-- ===== src/Core/Expander/Depths.antt =====
-- How deep an expanded overview is.
use symnav.Prelude.{
  ◌≡◌, refl, ap, ◌∙◌, ℕ, zero, suc, ◌≤◌, max, Bool, true, false, not, arith, Option, none, some,
  Text, length, ltb, Result, ok, err, ◌>>=◌, ◌>>◌, throw_if,
}
use symnav.Core.Pagination.{Number, whole, other, is_positive_integer}
use symnav.Core.Overview.{
  Nodes, leaf, node, OverviewNode, symbol_node, fold_node, re_export, symbol_overview_node,
  OverviewFileEntries, walk_symbols,
}
use symnav.Core.Expander.{
  OverviewExpansionRequest, OverviewExpansionCandidate, OverviewExpansionResult, ExpansionError,
  invalid_line, trim_node, trim_nodes, select_target, validate_request, entries_for, expand,
}

-- The levels of nodes below a list of siblings.
unfoldable mutual
  pub levels_of : OverviewNode → ℕ
  levels_of (re_export range header kind names source) = 1
  levels_of (symbol_node (symbol_overview_node range header identity kind children)) =
      suc (levels children)
  levels_of (fold_node range header kind variants children) = suc (levels children)

  pub levels : Nodes → ℕ
  levels leaf = 0
  levels (node entry entries) = max (levels_of entry) (levels entries)

some_level : (entry : OverviewNode) → 1 ≤ levels_of entry
unfolding levels_of
some_level (re_export range header kind names source) = omega arith
some_level (symbol_node (symbol_overview_node range header identity kind children)) = omega arith
some_level (fold_node range header kind variants children) = omega arith

mutual
  unfolding levels_of levels trim_node trim_nodes

  trim_node-levels_of : (entry : OverviewNode) (n : ℕ) → levels_of (trim_node entry n) ≤ suc n
  trim_node-levels_of (re_export range header kind names source) n = omega arith
  trim_node-levels_of (symbol_node (symbol_overview_node range header identity kind children))
        zero =
      omega arith
  trim_node-levels_of (symbol_node (symbol_overview_node range header identity kind children))
        (suc n) =
      omega (arith, trim_nodes-levels children n)
  trim_node-levels_of (fold_node range header kind variants children) zero = omega arith
  trim_node-levels_of (fold_node range header kind variants children) (suc n) =
      omega (arith, trim_nodes-levels children n)

  trim_nodes-levels : (entries : Nodes) (n : ℕ) → levels (trim_nodes entries n) ≤ suc n
  trim_nodes-levels leaf n = omega arith
  trim_nodes-levels (node entry entries) n =
      omega (arith, trim_node-levels_of entry n, trim_nodes-levels entries n)

mutual
  unfolding levels_of levels trim_node trim_nodes

  trim_node_within :
      (entry : OverviewNode) (n : ℕ) → levels_of entry ≤ suc n → trim_node entry n ≡ entry
  trim_node_within (re_export range header kind names source) n h = refl
  trim_node_within (symbol_node (symbol_overview_node range header identity kind leaf)) zero h =
      refl
  trim_node_within
        (symbol_node (symbol_overview_node range header identity kind (node entry entries))) zero
        h =
      absurd (omega (arith, some_level entry))
  trim_node_within (symbol_node (symbol_overview_node range header identity kind children)) (suc n)
        h =
      ap (λ c. symbol_node (symbol_overview_node range header identity kind c))
        (trim_nodes_within children n (omega arith))
  trim_node_within (fold_node range header kind variants leaf) zero h = refl
  trim_node_within (fold_node range header kind variants (node entry entries)) zero h =
      absurd (omega (arith, some_level entry))
  trim_node_within (fold_node range header kind variants children) (suc n) h =
      ap (fold_node range header kind variants) (trim_nodes_within children n (omega arith))

  trim_nodes_within :
      (entries : Nodes) (n : ℕ) → levels entries ≤ suc n → trim_nodes entries n ≡ entries
  trim_nodes_within leaf n h = refl
  trim_nodes_within (node entry entries) n h =
      ap (λ e. node e (trim_nodes entries n)) (trim_node_within entry n (omega arith))
      ∙ ap (node entry) (trim_nodes_within entries n (omega arith))

-- What an expansion says of the levels: an answer has no more than the depth, and an error comes only of
-- an invalid depth or with a target.
abbrev pub IsTrimmed :
    OverviewFileEntries
    → OverviewExpansionRequest
    → Result ExpansionError OverviewExpansionResult
    → Type 0
IsTrimmed file request (ok result) =
    (depth : ℕ) × (request.depth ≡ whole depth)
    × (levels result.entries ≤ suc depth)
    × (request.at ≡ none
        → request.line ≡ none
        → levels file.entries ≤ suc depth
        → result.entries ≡ file.entries)
IsTrimmed file request (err e) =
    (depth : ℕ) → request.depth ≡ whole depth → request.at ≡ none → request.line ≡ none → ⊥

abbrev request_of : Number → Option Text → Option Number → OverviewExpansionRequest
request_of depth at line = record { depth = depth; at = at; line = line }

module _ (file : OverviewFileEntries) where
  abbrev answer : OverviewExpansionRequest → Nodes → OverviewExpansionResult
  unfolding walk_symbols
  answer request entries = record {
    file = file.file;
    entries = entries;
    request = request;
    total_symbol_count = length (walk_symbols file.entries);
    diagnostics = file.diagnostics;
  }

  -- One node is selected, when the request has a target.
  selected-IsTrimmed :
      (depth : ℕ) (at : Option Text) (line : Option Number)
      → (at ≡ none → line ≡ none → ⊥)
      → (r : Result ExpansionError OverviewExpansionCandidate)
      → IsTrimmed file (request_of (whole depth) at line) (
          (r >>= λ target. ok (node (trim_node target.selected depth) leaf)) >>= λ entries.
          ok (answer (request_of (whole depth) at line) entries))
  unfolding levels answer
  selected-IsTrimmed depth at line targeted (err e) = λ n same. targeted
  selected-IsTrimmed depth at line targeted (ok target) = (
    depth,
    refl,
    omega (arith, trim_node-levels_of target.selected depth),
    λ no_at no_line. absurd (targeted no_at no_line),
  )

  -- With a line, which is refused or not.
  on_line-IsTrimmed :
      (depth : ℕ) (at : Option Text) (l : ℕ) (is_positive : Bool)
      → IsTrimmed file (request_of (whole depth) at (some (whole l))) (
          (throw_if (not is_positive) (invalid_line (some (whole l))) >> ok depth) >>= λ d.
          (select_target file.entries (request_of (whole depth) at (some (whole l))) >>= λ target.
          ok (node (trim_node target.selected d) leaf))
          >>= λ entries. ok (answer (request_of (whole depth) at (some (whole l))) entries))
  on_line-IsTrimmed depth at l false = λ n same no_at. ground arith
  on_line-IsTrimmed depth at l true =
      selected-IsTrimmed depth at (some (whole l)) (λ no_at. ground arith)
        (select_target file.entries (request_of (whole depth) at (some (whole l))))

  expanded-IsTrimmed :
      (depth : Number) (at : Option Text) (line : Option Number)
      → IsTrimmed file (request_of depth at line) (expand file (request_of depth at line))
  unfolding expand validate_request entries_for is_positive_integer
  expanded-IsTrimmed (other s) at line = λ n same. ground arith
  expanded-IsTrimmed (whole depth) none none = (
    depth,
    refl,
    trim_nodes-levels file.entries depth,
    λ no_at no_line. trim_nodes_within file.entries depth,
  )
  expanded-IsTrimmed (whole depth) (some at) none =
      selected-IsTrimmed depth (some at) none (λ no_at. ground arith)
        (select_target file.entries (request_of (whole depth) (some at) none))
  expanded-IsTrimmed (whole depth) at (some (other s)) = λ n same no_at. ground arith
  expanded-IsTrimmed (whole depth) none (some (whole l)) = on_line-IsTrimmed depth none l (ltb 0 l)
  expanded-IsTrimmed (whole depth) (some at) (some (whole l)) =
      on_line-IsTrimmed depth (some at) l (ltb 0 l)

-- An expansion has at most one level more than its depth; without a target, entries that are within the
-- depth are given back as they are, and a request of a valid depth is not refused.
pub expand-IsTrimmed :
    (file : OverviewFileEntries) (request : OverviewExpansionRequest)
    → IsTrimmed file request (expand file request)
expand-IsTrimmed file request = expanded-IsTrimmed file request.depth request.at request.line
