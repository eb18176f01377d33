-- ===== src/Core/GraphResult/Slices.antt =====
-- The slices of the paths of one direction.
use symnav.Prelude.{
  ◌≡◌, refl, sym, ap, ◌∙◌, ℕ, zero, suc, ◌+◌, ◌*◌, ◌≤◌, ◌<◌, true, List, [], ◌∷◌, arith, ltb, take,
  drop, take_nil, drop_all, length, get_elem?, get_or, Bool-cases, inl, inr,
}
use symnav.Core.Traverser.{GraphPath}
use symnav.Core.GraphResult.{slices_from, pages, or_one_empty}

-- The slice of a place, or nothing.
abbrev pub slice_at : ℕ → List (List GraphPath) → List GraphPath
slice_at i slices = get_or (get_elem? slices i) []

nothing_beyond :
    (budget n : ℕ) (paths : List GraphPath) → length paths ≤ n → [] ≡ take budget (drop n paths)
nothing_beyond budget n paths h =
    sym (ap (λ rest. take budget rest) (drop_all n paths h) ∙ take_nil budget)

starts_at : (start budget : ℕ) → start ≡ start + 0 * budget
starts_at start budget = omega arith

one_more : (start budget i : ℕ) → (start + budget) + i * budget ≡ start + suc i * budget
one_more start budget i = omega arith

-- Each slice is where its place says, also beyond the last one, where it is empty.
slice_at-slices_from :
    (rounds budget start : ℕ) (paths : List GraphPath) (i : ℕ)
    → 0 < budget
    → length paths ≤ start + rounds
    → slice_at i (slices_from rounds budget start paths)
      ≡ take budget (drop (start + i * budget) paths)
unfolding slices_from
slice_at-slices_from zero budget start paths i positive enough =
    nothing_beyond budget (start + i * budget) paths (grind arith)
slice_at-slices_from (suc rounds) budget start paths zero positive enough =
    elim (Bool-cases (ltb start (length paths))) [
      | inl more ↦ rw more (ap (λ n. take budget (drop n paths)) (starts_at start budget))
      | inr over ↦ rw over (nothing_beyond budget (start + 0 * budget) paths (ground arith))
    ]
slice_at-slices_from (suc rounds) budget start paths (suc i) positive enough =
    elim (Bool-cases (ltb start (length paths))) [
      | inl more ↦ rw more (
          slice_at-slices_from rounds budget (start + budget) paths i positive (omega arith)
          ∙ ap (λ n. take budget (drop n paths)) (one_more start budget i))
      | inr over ↦ rw over (nothing_beyond budget (start + suc i * budget) paths (grind arith))
    ]

slice_at-or_one_empty :
    (i : ℕ) (slices : List (List GraphPath)) → slice_at i (or_one_empty slices) ≡ slice_at i slices
slice_at-or_one_empty zero [] = refl
slice_at-or_one_empty (suc i) [] = refl
slice_at-or_one_empty i (slice ∷ slices) = refl

pub slice_at-pages :
    (budget : ℕ) (paths : List GraphPath) (i : ℕ)
    → 0 < budget
    → slice_at i (pages budget paths) ≡ take budget (drop (i * budget) paths)
unfolding pages
slice_at-pages budget paths i positive = rw (above_zero budget positive) (
    slice_at-or_one_empty i (slices_from (length paths) budget 0 paths)
    ∙ slice_at-slices_from (length paths) budget 0 paths i positive (omega arith)
    ∙ ap (λ n. take budget (drop n paths)) (from_zero (i * budget)))
  where
    above_zero : (n : ℕ) → 0 < n → ltb 0 n ≡ true
    above_zero n h = ground arith

    from_zero : (n : ℕ) → 0 + n ≡ n
    from_zero n = omega arith
