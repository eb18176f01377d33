-- ===== src/Core/Resolver/Sorted.antt =====
-- Sorting and filtering keep a property of the members of a list.
use symnav.Prelude.{
  ◌≡◌, refl, ap, ◌∙◌, suc, Bool, true, false, List, [], ◌∷◌, arith, length, filter, All, sort_by,
  insert_by, if◌then◌else◌,
}

module _ {A : Type 0} where
  length-insert_by :
      (before : A → A → Bool) (x : A) (xs : List A)
      → length (insert_by before x xs) ≡ suc (length xs)
  unfolding insert_by
  length-insert_by before x [] = refl
  length-insert_by before x (y ∷ ys) = ground (arith, length-insert_by before x ys)

  pub length-sort_by :
      (before : A → A → Bool) (xs : List A) → length (sort_by before xs) ≡ length xs
  unfolding sort_by
  length-sort_by before [] = refl
  length-sort_by before (x ∷ xs) =
      length-insert_by before x (sort_by before xs) ∙ ap suc (length-sort_by before xs)

  module _ (P : A → Type 0) where
    All-insert_by :
        (before : A → A → Bool) (x : A) (xs : List A)
        → P x
        → All P xs
        → All P (insert_by before x xs)
    unfolding insert_by
    All-insert_by before x [] p h = (p, tt)
    All-insert_by before x (y ∷ ys) p h = ground (arith, All-insert_by before x ys p h.1)

    inserted-All :
        (before : A → A → Bool) (x : A) (xs : List A)
        → All P (insert_by before x xs)
        → P x × All P xs
    unfolding insert_by
    inserted-All before x [] h = h
    inserted-All before x (y ∷ ys) h = at (before y x) h (inserted-All before x ys)
      where
        at :
            (b : Bool)
            → All P (if b then y ∷ insert_by before x ys else x ∷ y ∷ ys)
            → (All P (insert_by before x ys) → P x × All P ys)
            → P x × All P (y ∷ ys)
        at true h later = ((later h.1).0, (h.0, (later h.1).1))
        at false h later = h

    pub All-sort_by : (before : A → A → Bool) (xs : List A) → All P xs → All P (sort_by before xs)
    unfolding sort_by
    All-sort_by before [] h = tt
    All-sort_by before (x ∷ xs) h =
        All-insert_by before x (sort_by before xs) h.0 (All-sort_by before xs h.1)

    pub sorted-All : (before : A → A → Bool) (xs : List A) → All P (sort_by before xs) → All P xs
    unfolding sort_by
    sorted-All before [] h = tt
    sorted-All before (x ∷ xs) h =
        let (p, rest) = inserted-All before x (sort_by before xs) h in
        (p, sorted-All before xs rest)

    pub All-filter : (test : A → Bool) (xs : List A) → All P xs → All P (filter test xs)
    All-filter test [] h = tt
    All-filter test (x ∷ xs) h = ground (arith, All-filter test xs h.1)
