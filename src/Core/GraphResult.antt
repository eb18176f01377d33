-- ===== src/Core/GraphResult.antt =====
-- packages/core/src/intermediate-representation/graph-result-builder.ts and graph-result.ts: the page
-- of a graph's paths, in one direction or in both, which then share the size of the page.
pub mod Slices
pub mod Counting
pub mod Parts
pub mod Pages
use symnav.Prelude.{
  ◌≡◌, ℕ, zero, suc, ◌+◌, ◌-◌, ◌/◌, ◌≤◌, max, Bool, true, false, not, ◌&&◌, ◌||◌, Option, none,
  some, List, [], ◌∷◌, ◌++◌, Text, text_eq, ltb, take, drop, length, filter, any, get_elem?, get_or,
  Result, ok, err, ◌>>=◌, ◌>>◌, throw_if, if◌then◌else◌,
}
use symnav.Prelude.Map
use symnav.Prelude.Map.{Map, values}
use symnav.Core.Identity.{SymbolIdentity}
use symnav.Core.Segment.{InvalidSymbolIdError, format_symbol_identity}
use symnav.Core.Overview.{SymbolOverviewNode, identity_of}
use symnav.Core.Pagination.{
  PageRequest, PageError, page_out_of_range, default_page_size, number_or, page_count_of,
  validate_page_request,
}
use symnav.Core.Traverser.{GraphPath, GraphPathStep, name_of}

pub data GraphDirection : Type 0 where
  incoming outgoing both : GraphDirection

pub record GraphDirectionPage : Type 0 where
  pub paths : List GraphPath
  pub total_path_count : ℕ

pub record BuildGraphResultArgs : Type 0 where
  pub identity : SymbolIdentity
  pub root : SymbolOverviewNode
  pub depth : ℕ
  pub direction : GraphDirection
  pub incoming_paths : List GraphPath
  pub outgoing_paths : List GraphPath
  pub page_request : PageRequest

pub record GraphResult : Type 0 where
  pub identity : SymbolIdentity
  pub root : SymbolOverviewNode
  pub depth : ℕ
  pub direction : GraphDirection
  pub incoming : Option GraphDirectionPage
  pub outgoing : Option GraphDirectionPage
  pub page : ℕ
  pub page_count : ℕ
  pub repeated_symbol_count : ℕ

pub data GraphError : Type 0 where
  invalid_page : PageError → GraphError
  page_size_too_small : ℕ → GraphError
  invalid_id : InvalidSymbolIdError → GraphError

pub record DirectionBudget : Type 0 where
  pub incoming : ℕ
  pub outgoing : ℕ

pub record DirectionPageSlices : Type 0 where
  pub paths_by_page : List (List GraphPath)
  pub page_count : ℕ
  pub total_path_count : ℕ

pub record DirectionPages : Type 0 where
  pub incoming : Option DirectionPageSlices
  pub outgoing : Option DirectionPageSlices

abbrev page_checked {ℓ} : {A : Type ℓ} → Result PageError A → Result GraphError A
page_checked (ok a) = ok a
page_checked (err e) = err (invalid_page e)

abbrev pub is_both : GraphDirection → Bool
is_both both = true
is_both _ = false

abbrev pub includes_incoming : GraphDirection → Bool
includes_incoming outgoing = false
includes_incoming _ = true

abbrev pub includes_outgoing : GraphDirection → Bool
includes_outgoing incoming = false
includes_outgoing _ = true

abbrev pub page_size_of : BuildGraphResultArgs → ℕ
page_size_of args = number_or args.page_request.page_size default_page_size

unfoldable pub validate_graph_page_request : BuildGraphResultArgs → Result GraphError (Unit {0})
unfolding number_or
validate_graph_page_request args =
    throw_if (is_both args.direction && (ltb (page_size_of args) 2 && not args.page_request.all))
      (page_size_too_small (page_size_of args))

-- `for (let start = 0; start < paths.length; start += budget)`; the rounds left are at most the paths
-- left, since the budget is not zero.
unfoldable pub slices_from : ℕ → ℕ → ℕ → List GraphPath → List (List GraphPath)
slices_from zero budget start paths = []
slices_from (suc rounds) budget start paths =
    let rest = slices_from rounds budget (start + budget) paths in
    if ltb start (length paths) then take budget (drop start paths) ∷ rest else []

abbrev pub or_one_empty : List (List GraphPath) → List (List GraphPath)
or_one_empty [] = [] ∷ []
or_one_empty (page ∷ pages) = page ∷ pages

unfoldable pub pages : ℕ → List GraphPath → List (List GraphPath)
unfolding slices_from
pages budget paths =
    if ltb 0 budget then or_one_empty (slices_from (length paths) budget 0 paths) else [] ∷ []

unfoldable pub direction_page_count : ℕ → ℕ → ℕ
unfolding page_count_of
direction_page_count total budget = if ltb 0 budget then page_count_of total budget else 1

unfoldable pub direction_page : List GraphPath → ℕ → DirectionPageSlices
unfolding pages direction_page_count
direction_page paths budget = record {
  paths_by_page = pages budget paths;
  page_count = direction_page_count (length paths) budget;
  total_path_count = length paths;
}

unfoldable pub all_direction_page : List GraphPath → DirectionPageSlices
all_direction_page paths = record {
  paths_by_page = paths ∷ [];
  page_count = 1;
  total_path_count = length paths;
}

unfoldable pub direction_budget : BuildGraphResultArgs → DirectionBudget
unfolding number_or
direction_budget args =
    let page_size = page_size_of args in
    if is_both args.direction
    then record { incoming = (page_size + 1) / 2; outgoing = page_size / 2 }
    else record { incoming = page_size; outgoing = page_size }

abbrev pub when {ℓ} : {A : Type ℓ} → Bool → A → Option A
when true a = some a
when false a = none

unfoldable pub direction_pages : BuildGraphResultArgs → DirectionPages
unfolding all_direction_page direction_page direction_budget
direction_pages args =
    if args.page_request.all
    then record {
      incoming = when (includes_incoming args.direction) (all_direction_page args.incoming_paths);
      outgoing = when (includes_outgoing args.direction) (all_direction_page args.outgoing_paths);
    }
    else record {
      incoming =
          when (includes_incoming args.direction)
            (direction_page args.incoming_paths (direction_budget args).incoming);
      outgoing =
          when (includes_outgoing args.direction)
            (direction_page args.outgoing_paths (direction_budget args).outgoing);
    }

abbrev pub count_of : Option DirectionPageSlices → ℕ
count_of none = 0
count_of (some slices) = slices.page_count

-- `Math.max(1, ...counts)`
unfoldable pub page_count : DirectionPages → ℕ
page_count slices = max 1 (max (count_of slices.incoming) (count_of slices.outgoing))

unfoldable pub page_for : Option DirectionPageSlices → ℕ → Option GraphDirectionPage
page_for none page = none
page_for (some slices) page = some (record {
  paths = get_or (get_elem? slices.paths_by_page (page - 1)) [];
  total_path_count = slices.total_path_count;
})

abbrev pub paths_of : Option GraphDirectionPage → List GraphPath
paths_of none = []
paths_of (some page) = page.paths

abbrev Naming : Type 0 → Type 0
Naming A = Result InvalidSymbolIdError A

-- A set of names, in the order of their coming.
abbrev add_name : Text → List Text → List Text
add_name name names = if any (text_eq name) names then names else names ++ name ∷ []

unfoldable pub unique_non_root_symbol_ids : Text → GraphPath → List Text → Naming (List Text)
unique_non_root_symbol_ids root_id [] names = ok names
unique_non_root_symbol_ids root_id (s ∷ steps) names = name_of s.symbol >>= λ name.
    unique_non_root_symbol_ids root_id steps
      (if text_eq name root_id then names else add_name name names)

unfoldable pub count_names : List Text → Map ℕ → Map ℕ
count_names [] counts = counts
count_names (name ∷ names) counts =
    count_names names (Map.set name (get_or (Map.get name counts) 0 + 1) counts)

unfoldable pub count_paths : Text → List GraphPath → Map ℕ → Naming (Map ℕ)
unfolding unique_non_root_symbol_ids count_names
count_paths root_id [] counts = ok counts
count_paths root_id (path ∷ paths) counts = unique_non_root_symbol_ids root_id path [] >>= λ names.
    count_paths root_id paths (count_names names counts)

unfoldable pub count_repeated_symbols : SymbolIdentity → List GraphPath → Naming ℕ
unfolding count_paths
count_repeated_symbols identity paths = format_symbol_identity identity >>= λ root_id.
    count_paths root_id paths [] >>= λ counts.
    ok (length (filter (λ count. ltb 1 count) (values counts)))

abbrev named : {A : Type 0} → Naming A → Result GraphError A
named (ok a) = ok a
named (err e) = err (invalid_id e)

abbrev pub page_number : BuildGraphResultArgs → ℕ
page_number args = if args.page_request.all then 1 else number_or args.page_request.page 1

unfoldable pub result_of : BuildGraphResultArgs → ℕ → ℕ → Result GraphError GraphResult
unfolding direction_pages page_for
result_of args page count =
    let incoming_page = page_for (direction_pages args).incoming page in
    let outgoing_page = page_for (direction_pages args).outgoing page in
    named (count_repeated_symbols args.identity (paths_of incoming_page ++ paths_of outgoing_page))
    >>= λ repeated. ok (record {
      identity = args.identity;
      root = args.root;
      depth = args.depth;
      direction = args.direction;
      incoming = incoming_page;
      outgoing = outgoing_page;
      page = page;
      page_count = count;
      repeated_symbol_count = repeated;
    })

unfoldable pub build : BuildGraphResultArgs → Result GraphError GraphResult
unfolding validate_page_request validate_graph_page_request direction_pages page_count result_of
    number_or
build args =
    page_checked (validate_page_request args.page_request)
    >> validate_graph_page_request args
    >> throw_if (ltb (page_count (direction_pages args)) (page_number args))
        (invalid_page (page_out_of_range (page_number args) (page_count (direction_pages args))))
    >> result_of args (page_number args) (page_count (direction_pages args))
