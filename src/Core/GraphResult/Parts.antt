-- ===== src/Core/GraphResult/Parts.antt =====
-- What each page has of the paths of one direction.
use native.Mathlib.Nat.{mul-le-mul_right}
use symnav.Prelude.{
  ◌≡◌, refl, sym, ap, subst, ◌∙◌, ℕ, zero, suc, ◌+◌, ◌-◌, ◌*◌, ◌/◌, ◌≤◌, ◌<◌, Bool, true, false,
  List, [], ◌++◌, arith, ltb, take, drop, take_all, take-plus, take-append-drop, length,
  length-take, All, All-left, All-right, if◌then◌else◌, ◌&&◌,
}
use symnav.Core.Pagination.{page_count_of}
use symnav.Core.Pagination.Pages.{page_count_bound}
use symnav.Core.Traverser.{GraphPath}
use symnav.Core.Traverser.Walks.{IsNamable}
use symnav.Core.GraphResult.{
  GraphDirection, incoming, outgoing, both, DirectionBudget, is_both, includes_incoming,
  includes_outgoing, pages, direction_page_count, direction_page, count_of, page_for, paths_of,
  when,
}
use symnav.Core.GraphResult.Slices.{slice_at, slice_at-pages}
use symnav.Core.GraphResult.Counting.{IsNamablePaths}

abbrev pub HasRoom : GraphDirection → ℕ → Type 0
HasRoom both page_size = 2 ≤ page_size
HasRoom incoming page_size = 1 ≤ page_size
HasRoom outgoing page_size = 1 ≤ page_size

pub room_for :
    (d : GraphDirection) (s : ℕ)
    → HasRoom d s
    → ((is_both d && (ltb s 2 && true)) ≡ false) × (ltb 0 s ≡ true)
room_for both s h = ground arith
room_for incoming s h = ground arith
room_for outgoing s h = ground arith

-- The paths of one page in each direction.
abbrev pub budget_for : GraphDirection → ℕ → DirectionBudget
budget_for d s =
    if is_both d
    then record { incoming = (s + 1) / 2; outgoing = s / 2 }
    else record { incoming = s; outgoing = s }

pub budgets_positive :
    (d : GraphDirection) (s : ℕ)
    → HasRoom d s
    → (0 < (budget_for d s).incoming) × (0 < (budget_for d s).outgoing)
budgets_positive both s h = omega arith
budgets_positive incoming s h = (h, h)
budgets_positive outgoing s h = (h, h)

-- What the slices of a direction give to the page of a number.
abbrev pub part : Bool → ℕ → ℕ → List GraphPath → List GraphPath
part included budget n paths = if included then take budget (drop (n * budget) paths) else []

pub page_for-part :
    (included : Bool) (budget n : ℕ) (paths : List GraphPath)
    → 0 < budget
    → paths_of (page_for (when included (direction_page paths budget)) (suc n))
      ≡ part included budget n paths
unfolding page_for direction_page
page_for-part false budget n paths positive = refl
page_for-part true budget n paths positive =
    ap (λ k. slice_at k (pages budget paths)) (one_less n) ∙ slice_at-pages budget paths n positive
  where
    one_less : (n : ℕ) → suc n - 1 ≡ n
    one_less n = omega arith

length-part :
    (included : Bool) (budget n : ℕ) (paths : List GraphPath)
    → length (part included budget n paths) ≤ (if included then budget else 0)
length-part false budget n paths = omega arith
length-part true budget n paths = omega (arith, length-take budget (drop (n * budget) paths))

pub lengths-part :
    (d : GraphDirection) (s n : ℕ) (xs ys : List GraphPath)
    → length (part (includes_incoming d) (budget_for d s).incoming n xs)
        + length (part (includes_outgoing d) (budget_for d s).outgoing n ys)
      ≤ s
lengths-part both s n xs ys =
    omega (arith, length-part true ((s + 1) / 2) n xs, length-part true (s / 2) n ys)
lengths-part incoming s n xs ys = omega (arith, length-part true s n xs)
lengths-part outgoing s n xs ys = omega (arith, length-part true s n ys)

pub All-part :
    (included : Bool) (budget n : ℕ) (paths : List GraphPath)
    → IsNamablePaths paths
    → IsNamablePaths (part included budget n paths)
All-part false budget n paths h = tt
All-part true budget n paths h = All-left P (take budget rest) (drop budget rest) (
    subst (All P) (sym (take-append-drop budget rest)) (
      All-right P (take (n * budget) paths) rest
        (subst (All P) (sym (take-append-drop (n * budget) paths)) h)))
  where
    P : GraphPath → Type 0
    P path = All (λ s. IsNamable s.symbol) path

    rest : List GraphPath
    rest = drop (n * budget) paths

unfoldable pub parts : Bool → ℕ → ℕ → List GraphPath → List GraphPath
parts included budget zero paths = []
parts included budget (suc n) paths = parts included budget n paths ++ part included budget n paths

parts-take :
    (budget n : ℕ) (paths : List GraphPath) → parts true budget n paths ≡ take (n * budget) paths
unfolding parts
parts-take budget zero paths = ap (λ k. take k paths) (none_times budget)
  where
    none_times : (s : ℕ) → 0 ≡ zero * s
    none_times s = omega arith
parts-take budget (suc n) paths =
    ap (λ front. front ++ take budget (drop (n * budget) paths)) (parts-take budget n paths)
    ∙ take-plus (n * budget) budget paths
    ∙ ap (λ k. take k paths) (one_more n budget)
  where
    one_more : (n s : ℕ) → n * s + s ≡ suc n * s
    one_more n s = omega arith

parts_none : (budget n : ℕ) (paths : List GraphPath) → parts false budget n paths ≡ []
unfolding parts
parts_none budget zero paths = refl
parts_none budget (suc n) paths = ap (λ front. front ++ []) (parts_none budget n paths)

paths_fit :
    (total budget n : ℕ) → 0 < budget → direction_page_count total budget ≤ n → total ≤ n * budget
unfolding direction_page_count
paths_fit total budget n positive enough =
    omega (arith, page_count_bound total budget positive, mul-le-mul_right budget pages_enough)
  where
    pages_enough : page_count_of total budget ≤ n
    pages_enough = ground arith

-- Enough parts are all the paths of the direction.
pub parts_all :
    (included : Bool) (budget n : ℕ) (paths : List GraphPath)
    → 0 < budget
    → count_of (when included (direction_page paths budget)) ≤ n
    → parts included budget n paths ≡ (if included then paths else [])
unfolding direction_page direction_page_count
parts_all false budget n paths positive enough = parts_none budget n paths
parts_all true budget n paths positive enough =
    parts-take budget n paths
    ∙ take_all (n * budget) paths (paths_fit (length paths) budget n positive enough)
