-- ===== src/Core/Decimal.antt =====
-- The text of a number and its reading, as `String(n)` and `Number.parseInt(text, 10)` have them. A
-- number is a double that is a whole number, and the one at `infinity` stands for the infinity. A double below 2^53
-- has exactly its digits; above, a text is rounded to the nearest double, and a double is printed with
-- the fewest digits that are rounded to it, from 10^21 on with an exponent.
use symnav.Prelude.{
  ◌≡◌, refl, ℕ, zero, suc, ◌+◌, ◌-◌, ◌*◌, ◌/◌, ◌%◌, ◌≤◌, ◌<◌, Bool, true, false, ◌&&◌, [], ◌∷◌,
  ◌++◌, arith, Text, All, All-append, every, ltb, leb, inl, inr, Bool-cases, if◌then◌else◌, ◌^◌,
  ◌==◌, text, length, min,
}

abbrev pub exact_limit : ℕ
exact_limit = 9007199254740992

infinity : ℕ
infinity = 2 ^ 1024

-- The distance of the doubles next to `n`. The fuel is above the bits that a double below the infinity has above 53.
spacing : ℕ → ℕ → ℕ
spacing zero n = 1
spacing (suc fuel) n = let half = spacing fuel (n / 2) in if ltb n exact_limit then 1 else 2 * half

-- `n` to the nearest multiple of `u`, and to the even one of two.
nearest_multiple : ℕ → ℕ → ℕ
nearest_multiple n u =
    let q = n / u in
    let r = n % u in u * (if ltb (2 * r) u then q else if ltb u (2 * r) then q + 1 else q + q % 2)

round_wide : ℕ → ℕ
unfolding spacing nearest_multiple infinity
round_wide n = min infinity (nearest_multiple n (spacing 972 n))

-- The double next to a whole number.
unfoldable pub double_of : ℕ → ℕ
unfolding round_wide
double_of n = if ltb n exact_limit then n else round_wide n

-- The fuel is above the number, and each step divides it by ten.
digits : ℕ → ℕ → Text
digits zero n = []
digits (suc fuel) n =
    let front = digits fuel (n / 10) in
    if ltb n 10 then (48 + n) ∷ [] else front ++ (48 + n % 10) ∷ []

zeros : ℕ → Text
zeros zero = []
zeros (suc n) = b'0' ∷ zeros n

-- The fewest digits: the number without the tens that it can lose, from the most that are tried.
shortest : ℕ → ℕ → ℕ × ℕ
unfolding double_of
shortest zero n = (n, 0)
shortest (suc e) n =
    let later = shortest e n in
    let ten = 10 ^ suc e in
    let below = n / ten in
    let first = (if leb (2 * (n % ten)) ten then below else below + 1) in
    let second = (if leb (2 * (n % ten)) ten then below + 1 else below) in
    if double_of (first * ten) == n
    then (first, suc e)
    else if double_of (second * ten) == n
    then (second, suc e)
    else later

with_point : Text → Text
with_point [] = []
with_point (c ∷ []) = c ∷ []
with_point (c ∷ d ∷ cs) = c ∷ b'.' ∷ d ∷ cs

-- A double has at most 17 digits that count, and below the infinity at most 309.
wide_text : ℕ → Text
unfolding double_of shortest digits zeros with_point infinity
wide_text n =
    let (s, e) = shortest 308 (double_of n) in
    let ds = digits 18 s in
    if leb infinity (double_of n)
    then text "Infinity"
    else if ltb (double_of n) (10 ^ 21)
    then ds ++ zeros e
    else with_point ds ++ text "e+" ++ digits 4 (length ds + e - 1)

unfoldable pub decimal : ℕ → Text
unfolding digits wide_text
decimal n = if ltb n exact_limit then digits (suc n) n else wide_text n

abbrev pub is_digit : ℕ → Bool
is_digit c = leb 48 c && leb c 57

parse_from : ℕ → Text → ℕ
parse_from v [] = v
parse_from v (c ∷ cs) = parse_from (v * 10 + (c - 48)) cs

unfoldable pub parse_int : Text → ℕ
unfolding parse_from double_of
parse_int cs = double_of (parse_from 0 cs)

-- `/^[1-9][0-9]*$/`
unfoldable pub is_positive_decimal : Text → Bool
is_positive_decimal [] = false
is_positive_decimal (c ∷ cs) = leb 49 c && (leb c 57 && every is_digit cs)

parse_from-append :
    (v c : ℕ) (cs : Text) → parse_from v (cs ++ c ∷ []) ≡ parse_from v cs * 10 + (c - 48)
unfolding parse_from
parse_from-append v c [] = refl
parse_from-append v c (d ∷ cs) = parse_from-append (v * 10 + (d - 48)) c cs

parse_from-digits : (fuel n : ℕ) → n < fuel → parse_from 0 (digits fuel n) ≡ n
unfolding digits
parse_from-digits zero n h = absurd (omega arith)
parse_from-digits (suc fuel) n h = elim (Bool-cases (ltb n 10)) [
  | inl small ↦ rw small (unfold parse_from in omega arith)
  | inr large ↦
      rw (large, parse_from-append) (omega (arith, parse_from-digits fuel (n / 10) (ground arith)))
]

below_limit {ℓ} :
    {A : Type ℓ} (n limit : ℕ) (x y : A) → n < limit → (if ltb n limit then x else y) ≡ x
below_limit n limit x y h = ground arith

decimal-digits : (n : ℕ) → n < exact_limit → decimal n ≡ digits (suc n) n
unfolding decimal
decimal-digits n h = below_limit n exact_limit (digits (suc n) n) (wide_text n) h

double_of_exact : (n : ℕ) → n < exact_limit → double_of n ≡ n
unfolding double_of
double_of_exact n h = below_limit n exact_limit n (round_wide n) h

-- The text of a number below 2^53 is read as the number.
pub parse_int-decimal : (n : ℕ) → n < exact_limit → parse_int (decimal n) ≡ n
unfolding parse_int
parse_int-decimal n h =
    rw (decimal-digits n h, parse_from-digits (suc n) n (omega arith)) (double_of_exact n h)

abbrev pub IsDigit : ℕ → Type 0
IsDigit c = (48 ≤ c) × (c ≤ 57)

digits-IsDigit : (fuel n : ℕ) → All IsDigit (digits fuel n)
unfolding digits
digits-IsDigit zero n = tt
digits-IsDigit (suc fuel) n = elim (Bool-cases (ltb n 10)) [
  | inl small ↦ rw small (ground arith)
  | inr large ↦
      rw large
        (All-append IsDigit (digits fuel (n / 10)) _ (digits-IsDigit fuel (n / 10)) (omega arith))
]

pub decimal-IsDigit : (n : ℕ) → n < exact_limit → All IsDigit (decimal n)
decimal-IsDigit n h = rw (decimal-digits n h) (digits-IsDigit (suc n) n)

every-append : (p : ℕ → Bool) (xs ys : Text) → every p (xs ++ ys) ≡ (every p xs && every p ys)
every-append p [] ys = refl
every-append p (x ∷ xs) ys = ground (arith, every-append p xs ys)

is_positive_decimal-append :
    (cs : Text) (c : ℕ)
    → is_positive_decimal cs ≡ true
    → is_digit c ≡ true
    → is_positive_decimal (cs ++ c ∷ []) ≡ true
unfolding is_positive_decimal
is_positive_decimal-append [] c h d = ground arith
is_positive_decimal-append (x ∷ xs) c h d = ground (arith, every-append is_digit xs (c ∷ []))

digits-is_positive_decimal :
    (fuel n : ℕ) → n < fuel → 0 < n → is_positive_decimal (digits fuel n) ≡ true
unfolding digits
digits-is_positive_decimal zero n h p = absurd (omega arith)
digits-is_positive_decimal (suc fuel) n h p = elim (Bool-cases (ltb n 10)) [
  | inl small ↦ rw small (unfold is_positive_decimal in ground arith)
  | inr large ↦ rw large (
      is_positive_decimal-append (digits fuel (n / 10)) (48 + n % 10)
        (digits-is_positive_decimal fuel (n / 10) (ground arith) (ground arith)) (ground arith))
]

-- The text of a positive number below 2^53 is one that the grammar takes for a number.
pub decimal-is_positive_decimal :
    (n : ℕ) → 0 < n → n < exact_limit → is_positive_decimal (decimal n) ≡ true
decimal-is_positive_decimal n p h =
    rw (decimal-digits n h) (digits-is_positive_decimal (suc n) n (omega arith) p)
