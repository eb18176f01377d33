-- ===== src/Core/Pagination/Pages.antt =====
-- The pages of a list, one after the other, are the list.
use native.Mathlib.Nat.{div-add-mod', mod-lt, mul-le-mul_right}
use symnav.Prelude.{
  ◌≡◌, ap, ◌∙◌, ℕ, zero, suc, ◌+◌, ◌-◌, ◌*◌, ◌/◌, ◌≤◌, ◌<◌, max, false, some, List, [], ◌++◌, arith,
  take, drop, take_all, take-plus, length, Result, ok, err,
}
use symnav.Core.Pagination.{
  whole, PageRequest, PageError, Page, is_positive_integer, refuse_number, validate_page_request,
  number_or, page_count_of, page_items, page_of, page_out_of_range, paginate,
}

abbrev pub request : ℕ → ℕ → PageRequest
request page page_size = record {
  page = some (whole page);
  page_size = some (whole page_size);
  all = false;
}

-- The number of pages is enough for the items.
pub page_count_bound : (n s : ℕ) → 0 < s → n ≤ page_count_of n s * s
unfolding page_count_of
page_count_bound n s positive = omega (
  arith,
  div-add-mod' (n + (s - 1)) s,
  mod-lt (n + (s - 1)) positive,
  mul-le-mul_right s (at_least ((n + (s - 1)) / s)),
)
  where
    at_least : (q : ℕ) → q ≤ max 1 q
    at_least q = omega arith

module _ {A : Type 0} where
  abbrev pub items_of : Result PageError (Page A) → List A
  items_of (ok page) = page.items
  items_of (err e) = []

  -- The first pages, one after the other.
  abbrev pub pages : ℕ → ℕ → List A → List A
  pages zero page_size items = []
  pages (suc n) page_size items =
      pages n page_size items ++ items_of (paginate (request (suc n) page_size) items)

  page_found :
      (n page_size : ℕ) (items : List A)
      → 0 < page_size
      → suc n ≤ page_count_of (length items) page_size
      → items_of (paginate (request (suc n) page_size) items)
        ≡ take page_size (drop (n * page_size) items)
  unfolding paginate validate_page_request refuse_number is_positive_integer number_or page_of
      page_items
  page_found n page_size items positive inside =
      ground (arith, ap (λ k. take page_size (drop (k * page_size) items)) (one_less n))
    where
      one_less : (n : ℕ) → suc n - 1 ≡ n
      one_less n = omega arith

  pages-take :
      (n page_size : ℕ) (items : List A)
      → 0 < page_size
      → n ≤ page_count_of (length items) page_size
      → pages n page_size items ≡ take (n * page_size) items
  pages-take zero page_size items positive inside = ap (λ k. take k items) (none_times page_size)
    where
      none_times : (s : ℕ) → 0 ≡ zero * s
      none_times s = omega arith
  pages-take (suc n) page_size items positive inside =
      ap (λ front. front ++ items_of (paginate (request (suc n) page_size) items))
        (pages-take n page_size items positive (omega arith))
      ∙ ap (λ back. take (n * page_size) items ++ back)
          (page_found n page_size items positive inside)
      ∙ take-plus (n * page_size) page_size items
      ∙ ap (λ k. take k items) (one_more n page_size)
    where
      one_more : (n s : ℕ) → n * s + s ≡ suc n * s
      one_more n s = omega arith

  -- For a page size above zero, the pages from the first to the last, as `paginate` gives them, are
  -- the items in their order, and the page after the last one is refused.
  pub pages-page_count :
      (page_size : ℕ) (items : List A)
      → 0 < page_size
      → (pages (page_count_of (length items) page_size) page_size items ≡ items)
        × (paginate (request (suc (page_count_of (length items) page_size)) page_size) items
            ≡ err (
                page_out_of_range
                  (suc (page_count_of (length items) page_size))
                  (page_count_of (length items) page_size)))
  pages-page_count page_size items positive = (whole_list, refused)
    where
      count : ℕ
      count = page_count_of (length items) page_size

      whole_list : pages count page_size items ≡ items
      whole_list =
          pages-take count page_size items positive (omega arith)
          ∙ take_all (count * page_size) items (page_count_bound (length items) page_size positive)

      refused :
          paginate (request (suc count) page_size) items ≡ err (page_out_of_range (suc count) count)
      refused =
          unfold paginate validate_page_request refuse_number is_positive_integer number_or
            page_of in
          ground arith
