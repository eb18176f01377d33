-- ===== src/Core/GraphResult/Pages.antt =====
-- The pages of a graph, one after the other, are the graph.
use symnav.Prelude.{
  ◌≡◌, refl, sym, subst, ◌∙◌, ℕ, zero, suc, ◌+◌, ◌≤◌, true, false, some, List, [], ◌++◌, arith, leb,
  ltb, length, All, All-append, if◌then◌else◌, Bool-cases, inl, inr, Result, ok, err, ◌>>◌,
  throw_if,
}
use symnav.Core.Segment.{includes_separator}
use symnav.Core.Pagination.{
  whole, page_out_of_range, is_positive_integer, refuse_number, validate_page_request, number_or,
}
use symnav.Core.Traverser.{GraphPath}
use symnav.Core.Traverser.Walks.{IsNamable}
use symnav.Core.GraphResult.{
  BuildGraphResultArgs, GraphResult, GraphError, invalid_page, DirectionPages, DirectionBudget,
  includes_incoming, includes_outgoing, direction_budget, direction_pages, page_count, page_for,
  paths_of, count_repeated_symbols, result_of, build, validate_graph_page_request,
}
use symnav.Core.GraphResult.Counting.{IsOk, IsNamablePaths, symbols_counted}
use symnav.Core.GraphResult.Parts.{
  HasRoom, room_for, budget_for, budgets_positive, part, page_for-part, All-part, lengths-part,
  parts, parts_all,
}

-- A request for the page of a number.
abbrev pub on_page : BuildGraphResultArgs → ℕ → ℕ → BuildGraphResultArgs
on_page args page_size page = record args {
  page_request = record {
    page = some (whole page);
    page_size = some (whole page_size);
    all = false;
  };
}

abbrev pub incoming_of : Result GraphError GraphResult → List GraphPath
incoming_of (ok result) = paths_of result.incoming
incoming_of (err e) = []

abbrev pub outgoing_of : Result GraphError GraphResult → List GraphPath
outgoing_of (ok result) = paths_of result.outgoing
outgoing_of (err e) = []

-- The first pages in one direction, one after the other.
abbrev pub first_pages :
    (Result GraphError GraphResult → List GraphPath) → BuildGraphResultArgs → ℕ → ℕ → List GraphPath
first_pages side args page_size zero = []
first_pages side args page_size (suc n) =
    first_pages side args page_size n ++ side (build (on_page args page_size (suc n)))

module _ (args : BuildGraphResultArgs) (page_size : ℕ)
    (room : HasRoom args.direction page_size) where
  abbrev slices : DirectionPages
  slices = direction_pages (on_page args page_size 1)

  abbrev count : ℕ
  count = page_count slices

  build-on_page :
      (n : ℕ)
      → build (on_page args page_size (suc n)) ≡ (
          throw_if (ltb count (suc n)) (invalid_page (page_out_of_range (suc n) count))
          >> result_of (on_page args page_size (suc n)) (suc n) count)
  unfolding build validate_page_request refuse_number is_positive_integer
      validate_graph_page_request number_or direction_pages direction_budget
  build-on_page n =
      rw
        (
          (room_for args.direction page_size room).0,
          (room_for args.direction page_size room).1,
          above_zero n,
        )
        refl
    where
      above_zero : (n : ℕ) → ltb 0 (suc n) ≡ true
      above_zero n = ground arith

  module _ (file : includes_separator args.identity.file ≡ false)
      (incoming_namable : IsNamablePaths args.incoming_paths)
      (outgoing_namable : IsNamablePaths args.outgoing_paths) where
    abbrev budget : DirectionBudget
    budget = budget_for args.direction page_size

    -- The page of a number is built, with the slices of that number.
    abbrev BuiltPage : ℕ → Type 0
    BuiltPage n =
        (r : GraphResult) × (build (on_page args page_size (suc n)) ≡ ok r)
        × (paths_of r.incoming
            ≡ part (includes_incoming args.direction) budget.incoming n args.incoming_paths)
        × (paths_of r.outgoing
            ≡ part (includes_outgoing args.direction) budget.outgoing n args.outgoing_paths)

    abbrev Joined : ℕ → Type 0
    Joined n =
        (first_pages incoming_of args page_size n
          ≡ parts (includes_incoming args.direction) budget.incoming n args.incoming_paths)
        × (first_pages outgoing_of args page_size n
            ≡ parts (includes_outgoing args.direction) budget.outgoing n args.outgoing_paths)

    page_built : (n : ℕ) → suc n ≤ count → BuiltPage n
    unfolding result_of direction_pages
    page_built n inside = counted (
        symbols_counted args.identity _ file (
          All-append (λ path. All (λ s. IsNamable s.symbol) path) _ _
            (subst IsNamablePaths (sym at_incoming) (
              All-part (includes_incoming args.direction) budget.incoming n args.incoming_paths
                incoming_namable))
            (subst IsNamablePaths (sym at_outgoing) (
              All-part (includes_outgoing args.direction) budget.outgoing n args.outgoing_paths
                outgoing_namable))))
      where
        at_incoming :
            paths_of (page_for slices.incoming (suc n))
            ≡ part (includes_incoming args.direction) budget.incoming n args.incoming_paths
        at_incoming =
            page_for-part (includes_incoming args.direction) budget.incoming n args.incoming_paths
              (budgets_positive args.direction page_size room).0

        at_outgoing :
            paths_of (page_for slices.outgoing (suc n))
            ≡ part (includes_outgoing args.direction) budget.outgoing n args.outgoing_paths
        at_outgoing =
            page_for-part (includes_outgoing args.direction) budget.outgoing n args.outgoing_paths
              (budgets_positive args.direction page_size room).1

        not_over : ltb count (suc n) ≡ false
        not_over = ground arith

        counted :
            IsOk (
              count_repeated_symbols args.identity (
                paths_of (page_for slices.incoming (suc n))
                ++ paths_of (page_for slices.outgoing (suc n))))
            → BuiltPage n
        counted (repeated, e) =
            rw (build-on_page n, not_over, e) (_, refl, at_incoming, at_outgoing)

    first_pages-parts : (n : ℕ) → n ≤ count → Joined n
    unfolding parts
    first_pages-parts zero inside = (refl, refl)
    first_pages-parts (suc n) inside =
        joined (page_built n inside) (first_pages-parts n (omega arith))
      where
        joined : BuiltPage n → Joined n → Joined (suc n)
        joined (r, e, e_incoming, e_outgoing) (h_incoming, h_outgoing) =
            rw e (rw (h_incoming, h_outgoing, e_incoming, e_outgoing) (refl, refl))

    -- Beyond the last page there is none.
    page_refused :
        (n : ℕ)
        → count ≤ n
        → build (on_page args page_size (suc n))
          ≡ err (invalid_page (page_out_of_range (suc n) count))
    page_refused n over = rw (build-on_page n, beyond) refl
      where
        beyond : ltb count (suc n) ≡ true
        beyond = ground arith

    abbrev PageFits : ℕ → Type 0
    PageFits n =
        length (incoming_of (build (on_page args page_size (suc n))))
          + length (outgoing_of (build (on_page args page_size (suc n))))
        ≤ page_size

    page_fits : (n : ℕ) → PageFits n
    page_fits n = elim (Bool-cases (leb count n)) [
      | inl over ↦ rw (page_refused n (ground arith)) (omega arith)
      | inr inside ↦ fits (page_built n (ground arith))
    ]
      where
        fits : BuiltPage n → PageFits n
        fits (r, e, e_incoming, e_outgoing) = rw e (
            rw (e_incoming, e_outgoing)
              (lengths-part args.direction page_size n args.incoming_paths args.outgoing_paths))

    -- For a page size of one or more, and of two or more for both directions, and for symbols that can be
    -- named, the pages from the first to the last have in each direction of the request all the paths in their order,
    -- and none in the other; the page after the last is refused, and no page has more paths in
    -- both directions together than the page size.
    pub build-page_count :
        (n : ℕ)
        → (first_pages incoming_of args page_size count
            ≡ (if includes_incoming args.direction then args.incoming_paths else []))
          × (first_pages outgoing_of args page_size count
              ≡ (if includes_outgoing args.direction then args.outgoing_paths else []))
          × (build (on_page args page_size (suc count))
              ≡ err (invalid_page (page_out_of_range (suc count) count)))
          × (length (incoming_of (build (on_page args page_size (suc n))))
                + length (outgoing_of (build (on_page args page_size (suc n))))
              ≤ page_size)
    unfolding page_count direction_pages
    build-page_count n = (
      (first_pages-parts count (omega arith)).0
          ∙ parts_all (includes_incoming args.direction) budget.incoming count args.incoming_paths
              (budgets_positive args.direction page_size room).0 (omega arith),
      (first_pages-parts count (omega arith)).1
          ∙ parts_all (includes_outgoing args.direction) budget.outgoing count args.outgoing_paths
              (budgets_positive args.direction page_size room).1 (omega arith),
      page_refused count (omega arith),
      page_fits n,
    )
