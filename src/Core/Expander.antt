-- ===== src/Core/Expander.antt =====
-- packages/core/src/overview/overview-expander.ts: the part of an overview that a request asks for, to
-- its depth.
pub mod Depths
use symnav.Prelude.{
  ◌≡◌, ℕ, zero, suc, ◌≤◌, max, Bool, true, false, not, ◌&&◌, Option, none, some, List, [], ◌∷◌,
  ◌++◌, map, Text, text, text_eq, leb, ◌==◌, length, filter, any, is_some, Result, ok, err, ◌>>=◌,
  ◌>>◌, throw_if, if◌then◌else◌,
}
use symnav.Core.Decimal.{decimal}
use symnav.Core.Identity.{LineRange, Header}
use symnav.Core.Segment.{format_symbol_path}
use symnav.Core.Diagnostic.{NavigationDiagnostic}
use symnav.Core.Pagination.{Number, whole, other, is_positive_integer}
use symnav.Core.Overview.{
  Nodes, leaf, node, OverviewNode, symbol_node, fold_node, re_export, symbol_overview_node,
  OverviewFileEntries, walk_symbols,
}

pub record OverviewExpansionRequest : Type 0 where
  pub depth : Number
  pub at : Option Text
  pub line : Option Number

pub record OverviewExpansionCandidate : Type 0 where
  pub header : Text
  pub range : LineRange
  pub selected : OverviewNode

pub record OverviewExpansionResult : Type 0 where
  pub file : Text
  pub entries : Nodes
  pub request : OverviewExpansionRequest
  pub total_symbol_count : ℕ
  pub diagnostics : Option (List NavigationDiagnostic)

pub data ExpansionError : Type 0 where
  invalid_depth : Number → ExpansionError
  invalid_line : Option Number → ExpansionError
  target_not_found : OverviewExpansionRequest → ExpansionError
  ambiguous_line : Option Number → List OverviewExpansionCandidate → ExpansionError
  ambiguous_target : List OverviewExpansionCandidate → ExpansionError

-- `text.includes(searched)`
unfoldable begins : Text → Text → Bool
begins cs [] = true
begins [] (d ∷ ds) = false
begins (c ∷ cs) (d ∷ ds) = c == d && begins cs ds

unfoldable includes : Text → Text → Bool
unfolding begins
includes [] searched = begins [] searched
includes (c ∷ cs) searched = if begins (c ∷ cs) searched then true else includes cs searched

unfoldable format_range : LineRange → Text
unfolding decimal
format_range range =
    if range.start_line == range.end_line
    then decimal range.start_line
    else decimal range.start_line ++ text "-" ++ decimal range.end_line

abbrev first_line : List Text → Text
first_line [] = []
first_line (line ∷ lines) = line

unfoldable label_for : OverviewNode → Text
unfolding format_symbol_path
label_for (symbol_node (symbol_overview_node range header identity kind children)) =
    format_symbol_path identity.segments
label_for (fold_node range header kind variants children) = first_line header.lines
label_for (re_export range header kind names source) = first_line header.lines

abbrev range_of : OverviewNode → LineRange
range_of (symbol_node (symbol_overview_node range header identity kind children)) = range
range_of (fold_node range header kind variants children) = range
range_of (re_export range header kind names source) = range

abbrev variants_of : OverviewNode → List Text
variants_of (symbol_node symbol) = []
variants_of (fold_node range header kind none children) = []
variants_of (fold_node range header kind (some variants) children) = variants
variants_of (re_export range header kind names source) = []

unfoldable header_for : OverviewNode → Text
unfolding format_range label_for
header_for entry = format_range (range_of entry) ++ text ": " ++ label_for entry

unfoldable target_labels : OverviewNode → List Text
unfolding label_for
target_labels entry = label_for entry ∷ variants_of entry

unfoldable searchable_texts : OverviewNode → List Text
unfolding header_for format_range
searchable_texts entry =
    header_for entry
    ∷ map (λ variant. format_range (range_of entry) ++ text ": " ++ variant) (variants_of entry)

abbrev candidate_of : OverviewNode → OverviewExpansionCandidate
unfolding header_for
candidate_of entry = record { header = header_for entry; range = range_of entry; selected = entry }

-- A node, then its descendants.
unfoldable mutual
  collect_candidate :
      OverviewNode → List OverviewExpansionCandidate → List OverviewExpansionCandidate
  collect_candidate (symbol_node (symbol_overview_node range header identity kind children))
        candidates =
      collect_candidates children (
        candidates
        ++ candidate_of (symbol_node (symbol_overview_node range header identity kind children))
          ∷ [])
  collect_candidate (fold_node range header kind variants children) candidates =
      collect_candidates children
        (candidates ++ candidate_of (fold_node range header kind variants children) ∷ [])
  collect_candidate (re_export range header kind names source) candidates =
      candidates ++ candidate_of (re_export range header kind names source) ∷ []

  collect_candidates : Nodes → List OverviewExpansionCandidate → List OverviewExpansionCandidate
  collect_candidates leaf candidates = candidates
  collect_candidates (node entry entries) candidates =
      collect_candidates entries (collect_candidate entry candidates)

unfoldable mutual
  pub trim_node : OverviewNode → ℕ → OverviewNode
  trim_node (re_export range header kind names source) n = re_export range header kind names source
  trim_node (symbol_node (symbol_overview_node range header identity kind children)) zero =
      symbol_node (symbol_overview_node range header identity kind leaf)
  trim_node (symbol_node (symbol_overview_node range header identity kind children)) (suc n) =
      symbol_node (symbol_overview_node range header identity kind (trim_nodes children n))
  trim_node (fold_node range header kind variants children) zero =
      fold_node range header kind variants leaf
  trim_node (fold_node range header kind variants children) (suc n) =
      fold_node range header kind variants (trim_nodes children n)

  pub trim_nodes : Nodes → ℕ → Nodes
  trim_nodes leaf n = leaf
  trim_nodes (node entry entries) n = node (trim_node entry n) (trim_nodes entries n)

abbrev matches_at : Option Text → OverviewNode → Bool
unfolding searchable_texts includes
matches_at none entry = true
matches_at (some at) entry = any (λ t. includes t at) (searchable_texts entry)

-- After the validation a line is a whole number.
unfoldable matches_line : Option Number → LineRange → Bool
matches_line none range = true
matches_line (some (whole line)) range = leb range.start_line line && leb line range.end_line
matches_line (some (other s)) range = false

unfoldable exact_label_candidates :
    Option Text → List OverviewExpansionCandidate → List OverviewExpansionCandidate
unfolding target_labels
exact_label_candidates none candidates = candidates
exact_label_candidates (some at) candidates =
    elim (filter (λ candidate. any (λ label. text_eq label at) (target_labels candidate.selected))
      candidates) [ [] ↦ candidates | exact ∷ rest ↦ exact ∷ rest ]

unfoldable matching_candidates : Nodes → OverviewExpansionRequest → List OverviewExpansionCandidate
unfolding collect_candidates matches_line searchable_texts includes
matching_candidates entries request =
    filter
      (λ candidate.
        matches_at request.at candidate.selected && matches_line request.line candidate.range)
      (collect_candidates entries [])

unfoldable select_from :
    OverviewExpansionRequest
    → List OverviewExpansionCandidate
    → Result ExpansionError OverviewExpansionCandidate
select_from request [] = err (target_not_found request)
select_from request (candidate ∷ []) = ok candidate
select_from request (candidate ∷ next ∷ rest) =
    if not (is_some request.at) && is_some request.line
    then err (ambiguous_line request.line (candidate ∷ next ∷ rest))
    else err (ambiguous_target (candidate ∷ next ∷ rest))

unfoldable pub select_target :
    Nodes → OverviewExpansionRequest → Result ExpansionError OverviewExpansionCandidate
unfolding select_from exact_label_candidates matching_candidates
select_target entries request =
    select_from request (exact_label_candidates request.at (matching_candidates entries request))

abbrev depth_of : Number → Result ExpansionError ℕ
depth_of (whole n) = ok n
depth_of (other s) = err (invalid_depth (other s))

abbrev line_refused : Option Number → Bool
unfolding is_positive_integer
line_refused none = false
line_refused (some n) = not (is_positive_integer n)

unfoldable pub validate_request : OverviewExpansionRequest → Result ExpansionError ℕ
unfolding is_positive_integer
validate_request request = do
  depth ← depth_of request.depth
  throw_if (line_refused request.line) (invalid_line request.line)
  ok depth

unfoldable pub entries_for : Nodes → OverviewExpansionRequest → ℕ → Result ExpansionError Nodes
unfolding select_target trim_nodes trim_node
entries_for entries request depth =
    if not (is_some request.at) && not (is_some request.line)
    then ok (trim_nodes entries depth)
    else (select_target entries request >>= λ target.
        ok (node (trim_node target.selected depth) leaf))

-- The constructor with its checks, and `expand`.
unfoldable pub expand :
    OverviewFileEntries → OverviewExpansionRequest → Result ExpansionError OverviewExpansionResult
unfolding validate_request entries_for walk_symbols
expand file request = do
  depth ← validate_request request
  entries ← entries_for file.entries request depth
  ok (record {
    file = file.file;
    entries = entries;
    request = request;
    total_symbol_count = length (walk_symbols file.entries);
    diagnostics = file.diagnostics;
  })
