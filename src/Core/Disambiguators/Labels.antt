-- ===== src/Core/Disambiguators/Labels.antt =====
-- Names that are numbered in their order have different labels.
use symnav.Prelude.{
  ◌≡◌, refl, sym, ap, subst, ℕ, suc, ◌+◌, ◌≤◌, Bool, true, false, ◌&&◌, ◌||◌, Option, none, some,
  List, [], ◌∷◌, ◌++◌, arith, Text, text_eq, text_eq_iff, text_eq_refl, leb, ◌==◌, get_or, any,
  if◌then◌else◌,
}
use symnav.Prelude.Map
use symnav.Prelude.Map.{Map, get-set}
use symnav.Core.Disambiguators.{next_disambiguator, count_assigned}

-- A name and its number.
abbrev pub Label : Type 0
Label = Text × Option ℕ

abbrev same_number : Option ℕ → Option ℕ → Bool
same_number none none = true
same_number (some a) (some b) = a == b
same_number none (some b) = false
same_number (some a) none = false

abbrev pub same_label : Label → Label → Bool
same_label (a, m) (b, n) = text_eq a b && same_number m n

-- No label is there twice.
abbrev pub AreDistinct : List Label → Type 0
AreDistinct [] = Unit
AreDistinct (label ∷ labels) = (any (same_label label) labels ≡ false) × AreDistinct labels

-- How often a name is in a list.
abbrev pub times : Text → List Text → ℕ
times name [] = 0
times name (other ∷ names) =
    let rest = times name names in if text_eq other name then suc rest else rest

unfoldable pub labels_of : Map ℕ → List Text → Map ℕ → List Label
unfolding next_disambiguator count_assigned
labels_of occurrences [] assigned = []
labels_of occurrences (name ∷ names) assigned =
    (name, next_disambiguator occurrences assigned name)
    ∷ labels_of occurrences names
        (count_assigned name (next_disambiguator occurrences assigned name) assigned)

unfoldable pub after_labels : Map ℕ → List Text → Map ℕ → Map ℕ
unfolding next_disambiguator count_assigned
after_labels occurrences [] assigned = assigned
after_labels occurrences (name ∷ names) assigned =
    after_labels occurrences names
      (count_assigned name (next_disambiguator occurrences assigned name) assigned)

pub labels_of-append :
    (occurrences : Map ℕ) (xs ys : List Text) (assigned : Map ℕ)
    → labels_of occurrences (xs ++ ys) assigned
      ≡ labels_of occurrences xs assigned
        ++ labels_of occurrences ys (after_labels occurrences xs assigned)
unfolding labels_of after_labels
labels_of-append occurrences [] ys assigned = refl
labels_of-append occurrences (x ∷ xs) ys assigned =
    ap (λ l. (x, next_disambiguator occurrences assigned x) ∷ l)
      (labels_of-append occurrences xs ys
        (count_assigned x (next_disambiguator occurrences assigned x) assigned))

pub after_labels-append :
    (occurrences : Map ℕ) (xs ys : List Text) (assigned : Map ℕ)
    → after_labels occurrences (xs ++ ys) assigned
      ≡ after_labels occurrences ys (after_labels occurrences xs assigned)
unfolding after_labels
after_labels-append occurrences [] ys assigned = refl
after_labels-append occurrences (x ∷ xs) ys assigned =
    after_labels-append occurrences xs ys
      (count_assigned x (next_disambiguator occurrences assigned x) assigned)

abbrev pub number_at : Map ℕ → Text → ℕ
number_at counts name = get_or (Map.get name counts) 0

number_at-count_assigned :
    (occurrences assigned : Map ℕ) (name other : Text)
    → number_at assigned other
      ≤ number_at
          (count_assigned name (next_disambiguator occurrences assigned name) assigned)
          other
unfolding count_assigned next_disambiguator
number_at-count_assigned occurrences assigned name other =
    ground
      (arith, get-set name other (number_at assigned name + 1) assigned, text_eq_iff name other)

neither : (a b : Bool) → a ≡ false → b ≡ false → (a || b) ≡ false
neither a b ha hb = ground arith

-- A number that was given is not given again.
numbers_grow :
    (occurrences : Map ℕ) (name : Text) (n : ℕ) (names : List Text) (assigned : Map ℕ)
    → n ≤ number_at assigned name
    → any (same_label (name, some n)) (labels_of occurrences names assigned) ≡ false
unfolding labels_of
numbers_grow occurrences name n [] assigned h = refl
numbers_grow occurrences name n (other ∷ names) assigned h =
    neither
      (text_eq name other && same_number (some n) (next_disambiguator occurrences assigned other)) _
      other_number
      (numbers_grow occurrences name n names
        (count_assigned other (next_disambiguator occurrences assigned other) assigned)
        (omega (arith, number_at-count_assigned occurrences assigned other name)))
  where
    other_number :
        (text_eq name other && same_number (some n) (next_disambiguator occurrences assigned other))
        ≡ false
    other_number = unfold next_disambiguator in ground (arith, text_eq_iff name other)

-- A name that does not come any more has no label.
no_label :
    (occurrences : Map ℕ) (name : Text) (number : Option ℕ) (names : List Text) (assigned : Map ℕ)
    → times name names ≡ 0
    → any (same_label (name, number)) (labels_of occurrences names assigned) ≡ false
unfolding labels_of
no_label occurrences name number [] assigned h = refl
no_label occurrences name number (other ∷ names) assigned h =
    neither
      (text_eq name other && same_number number (next_disambiguator occurrences assigned other)) _
      other_name
      (no_label occurrences name number names
        (count_assigned other (next_disambiguator occurrences assigned other) assigned)
        (ground arith))
  where
    other_name :
        (text_eq name other && same_number number (next_disambiguator occurrences assigned other))
        ≡ false
    other_name = ground (arith, text_eq_iff name other, text_eq_iff other name)

pub labels_of-AreDistinct :
    (occurrences : Map ℕ) (names : List Text) (assigned : Map ℕ)
    → ((name : Text) → times name names ≤ number_at occurrences name)
    → AreDistinct (labels_of occurrences names assigned)
unfolding labels_of
labels_of-AreDistinct occurrences [] assigned h = tt
labels_of-AreDistinct occurrences (name ∷ names) assigned h = (
  first (leb 2 (number_at occurrences name)) refl,
  labels_of-AreDistinct occurrences names
      (count_assigned name (next_disambiguator occurrences assigned name) assigned)
      (λ other. omega (arith, h other, times_rest other)),
)
  where
    times_rest : (other : Text) → times other names ≤ times other (name ∷ names)
    times_rest other = ground arith

    numbered : Option ℕ → Type 0
    numbered number =
        any (same_label (name, number))
          (labels_of occurrences names (count_assigned name number assigned))
        ≡ false

    first :
        (b : Bool)
        → leb 2 (number_at occurrences name) ≡ b
        → numbered (next_disambiguator occurrences assigned name)
    first true many = subst numbered (sym given) (
        numbers_grow occurrences name next names (count_assigned name (some next) assigned)
          at_least)
      where
        next : ℕ
        next = number_at assigned name + 1

        given : next_disambiguator occurrences assigned name ≡ some next
        given = unfold next_disambiguator in rw many refl

        at_least : next ≤ number_at (count_assigned name (some next) assigned) name
        at_least =
            unfold count_assigned in
            ground (arith, get-set name name next assigned, text_eq_refl name)
    first false few =
        no_label occurrences name (next_disambiguator occurrences assigned name) names _
          (ground (arith, h name, text_eq_refl name))
