-- ===== src/Core/Resolver/Keys.antt =====
-- The names of candidates without their last numbers, and the set of them.
use symnav.Prelude.{
  ◌≡◌, refl, sym, subst, ◌∙◌, Bool, true, false, not, List, [], ◌∷◌, arith, Text, text_eq,
  text_eq_iff, ◌==◌, length, filter, All, Result, ok, ok-injective, if◌then◌else◌,
}
use symnav.Core.Resolver.Sorted.{All-filter}
use symnav.Core.Segment.{
  InvalidSymbolIdError, format_symbol_identity, includes_separator, join, format_symbol_path,
}
use symnav.Core.Overview.{identity_of}
use symnav.Core.Resolver.{OwnedCandidate}
use symnav.Core.Resolver.Choosing.{identity_without_leaf_disambiguator, unique, base_of, keys_of}

-- The candidate has a name.
abbrev pub IsNamed : OwnedCandidate → Type 0
IsNamed owned = includes_separator (identity_of owned.candidate.symbol).file ≡ false

-- The name of the candidate without the number of its last segment.
abbrev pub HasBase : Text → OwnedCandidate → Type 0
HasBase key owned = format_symbol_identity (base_of owned) ≡ ok key

-- The others of a set are none when all are one text.
none_left :
    (key : Text) (keys : List Text)
    → All (λ k. k ≡ key) keys
    → filter (λ k. not (text_eq k key)) keys ≡ []
none_left key [] h = refl
none_left key (k ∷ keys) h = ground (arith, none_left key keys h.1, text_eq_iff k key)

all_one :
    (key : Text) (keys : List Text)
    → length (filter (λ k. not (text_eq k key)) keys) ≡ 0
    → All (λ k. k ≡ key) keys
all_one key [] h = tt
all_one key (k ∷ keys) h = at (text_eq k key) refl h (all_one key keys)
  where
    at :
        (b : Bool)
        → text_eq k key ≡ b
        → length (
            if not b
            then k ∷ filter (λ j. not (text_eq j key)) keys
            else filter (λ j. not (text_eq j key)) keys)
          ≡ 0
        → (length (filter (λ j. not (text_eq j key)) keys) ≡ 0 → All (λ j. j ≡ key) keys)
        → (k ≡ key) × All (λ j. j ≡ key) keys
    at true e h later = ((text_eq_iff k key).0 e, later h)
    at false e h later = absurd (omega arith)

unique-All :
    (key : Text) (keys : List Text) → All (λ k. k ≡ key) keys → All (λ k. k ≡ key) (unique keys)
unfolding unique
unique-All key [] h = tt
unique-All key (k ∷ keys) h = (
  h.0,
  All-filter (λ j. j ≡ key) (λ j. not (text_eq j k)) (unique keys) (unique-All key keys h.1),
)

refilled :
    (key k : Text) (keys : List Text)
    → k ≡ key
    → All (λ j. j ≡ key) (filter (λ j. not (text_eq j k)) keys)
    → All (λ j. j ≡ key) keys
refilled key k [] e h = tt
refilled key k (j ∷ keys) e h = at (text_eq j k) refl h (refilled key k keys e)
  where
    at :
        (b : Bool)
        → text_eq j k ≡ b
        → All
            (λ i. i ≡ key)
            (if not b
              then j ∷ filter (λ i. not (text_eq i k)) keys
              else filter (λ i. not (text_eq i k)) keys)
        → (All (λ i. i ≡ key) (filter (λ i. not (text_eq i k)) keys) → All (λ i. i ≡ key) keys)
        → (j ≡ key) × All (λ i. i ≡ key) keys
    at true same h later = ((text_eq_iff j k).0 same ∙ e, later h)
    at false other h later = (h.0, later h.1)

All-unique :
    (key : Text) (keys : List Text) → All (λ k. k ≡ key) (unique keys) → All (λ k. k ≡ key) keys
unfolding unique
All-unique key [] h = tt
All-unique key (k ∷ keys) h = (h.0, All-unique key keys (refilled key k (unique keys) h.0 h.1))

-- The bases of named candidates are printed.
abbrev pub Keyed : List OwnedCandidate → List Text → Type 0
Keyed [] [] = Unit
Keyed (owned ∷ rest) (key ∷ keys) = HasBase key owned × Keyed rest keys
Keyed [] (key ∷ keys) = ⊥
Keyed (owned ∷ rest) [] = ⊥

pub keys_of-Keyed :
    (candidates : List OwnedCandidate)
    → All IsNamed candidates
    → (keys : List Text) × (keys_of candidates ≡ ok keys) × Keyed candidates keys
unfolding keys_of format_symbol_identity identity_without_leaf_disambiguator
keys_of-Keyed [] named = ([], refl, tt)
keys_of-Keyed (owned ∷ rest) named =
    let (keys, e, keyed) = keys_of-Keyed rest named.1 in
    (
      join (
            (identity_of owned.candidate.symbol).file
            ∷ format_symbol_path (base_of owned).segments
            ∷ [])
          ∷ keys,
      rw (named.0, e) refl,
      (rw (named.0) refl, keyed),
    )

ok-same : {a b : Text} {r : Result InvalidSymbolIdError Text} → r ≡ ok a → r ≡ ok b → a ≡ b
ok-same p q = ok-injective (sym p ∙ q)

pub Keyed-All :
    (key : Text) (candidates : List OwnedCandidate) (keys : List Text)
    → Keyed candidates keys
    → All (λ k. k ≡ key) keys
    → All (HasBase key) candidates
Keyed-All key [] [] keyed same = tt
Keyed-All key [] (k ∷ keys) keyed same = tt
Keyed-All key (owned ∷ rest) [] keyed same = absurd keyed
Keyed-All key (owned ∷ rest) (k ∷ keys) keyed same =
    (subst (λ j. HasBase j owned) same.0 keyed.0, Keyed-All key rest keys keyed.1 same.1)

pub All-Keyed :
    (key : Text) (candidates : List OwnedCandidate) (keys : List Text)
    → Keyed candidates keys
    → All (HasBase key) candidates
    → All (λ k. k ≡ key) keys
All-Keyed key candidates [] keyed same = tt
All-Keyed key [] (k ∷ keys) keyed same = absurd keyed
All-Keyed key (owned ∷ rest) (k ∷ keys) keyed same =
    (ok-same keyed.0 same.0, All-Keyed key rest keys keyed.1 same.1)

-- One member is left of a set exactly when all texts are the first.
pub unique-one :
    (key : Text) (keys : List Text)
    → (length (unique (key ∷ keys)) == 1) ≡ true
    → All (λ k. k ≡ key) (key ∷ keys)
unfolding unique
unique-one key keys one = (refl, All-unique key keys (all_one key (unique keys) (ground arith)))

pub one-unique :
    (key : Text) (keys : List Text)
    → All (λ k. k ≡ key) keys
    → (length (unique (key ∷ keys)) == 1) ≡ true
unfolding unique
one-unique key keys same = rw (none_left key (unique keys) (unique-All key keys same)) refl
