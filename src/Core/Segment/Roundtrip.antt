-- ===== src/Core/Segment/Roundtrip.antt =====
-- A formatted segment is parsed back.
use symnav.Prelude.{
  ◌≡◌, ◌≢◌, refl, ap, ◌∙◌, ℕ, suc, ◌<◌, true, ◌⊎◌, inl, inr, Option, none, some, [], ◌∷◌, ◌++◌,
  arith, Text, drop, take_front, length, All,
}
use symnav.Core.Identity.{SymbolPathSegment}
use symnav.Core.Decimal.{
  exact_limit, decimal, parse_int, is_positive_decimal, IsDigit, parse_int-decimal, decimal-IsDigit,
  decimal-is_positive_decimal,
}
use symnav.Core.Segment.{parsed, hash, last_index_of, parse, parse_at, parse_numbered, format}

last_index_of-digits : (cs : Text) → All IsDigit cs → last_index_of hash cs ≡ none
unfolding last_index_of
last_index_of-digits [] h = refl
last_index_of-digits (c ∷ cs) h = ground (arith, last_index_of-digits cs h.1)

last_index_of-append :
    (name cs : Text)
    → last_index_of hash cs ≡ none
    → last_index_of hash (name ++ hash ∷ cs) ≡ some (length name)
unfolding last_index_of
last_index_of-append [] cs h = ground arith
last_index_of-append (c ∷ name) cs h = ground (arith, last_index_of-append name cs h)

drop_after : (name rest : Text) (c : ℕ) → drop (suc (length name)) (name ++ c ∷ rest) ≡ rest
drop_after [] rest c = refl
drop_after (d ∷ name) rest c = drop_after name rest c

-- What the number of a readable segment has to be: positive and below 2^53; without a number, the name has no `#`
-- but perhaps one at its beginning.
abbrev pub IsNumbered : Text → Option ℕ → Type 0
IsNumbered name (some n) = (0 < n) × (n < exact_limit)
IsNumbered name none = (last_index_of hash name ≡ none) ⊎ (last_index_of hash name ≡ some 0)

-- What a segment has to be for its text to be read as it.
abbrev pub IsReadable : SymbolPathSegment → Type 0
IsReadable s = (s.name ≢ []) × IsNumbered s.name s.disambiguator

parse_at_some :
    (c : ℕ) (name : Text) (number : Text)
    → is_positive_decimal number ≡ true
    → last_index_of hash number ≡ none
    → parse ((c ∷ name) ++ hash ∷ number)
      ≡ parsed (record { name = c ∷ name; disambiguator = some (parse_int number) })
unfolding parse parse_at parse_numbered
parse_at_some c name number h free =
    rw (last_index_of-append (c ∷ name) number free)
      (rw (take_front (c ∷ name) (hash ∷ number), drop_after (c ∷ name) number hash) (rw h refl))

parse_named :
    (name : Text)
    → name ≢ []
    → (d : Option ℕ) → IsNumbered name d
    → parse (format (record { name = name; disambiguator = d }))
      ≡ parsed (record { name = name; disambiguator = d })
unfolding format parse
parse_named [] full d h = absurd (full refl)
parse_named (c ∷ cs) full (some n) h =
    parse_at_some c cs (decimal n) (decimal-is_positive_decimal n h.0 h.1)
      (last_index_of-digits (decimal n) (decimal-IsDigit n h.1))
    ∙ ap (λ m. parsed (record { name = c ∷ cs; disambiguator = some m })) (parse_int-decimal n h.1)
parse_named (c ∷ cs) full none (inl h) = rw h refl
parse_named (c ∷ cs) full none (inr h) = rw h refl

-- The text of a readable segment is parsed as the segment. Readable is one with a name that is not
-- empty and a positive number below 2^53, or, without a number, with a name that has no `#` after its beginning.
pub parse-format : (s : SymbolPathSegment) → IsReadable s → parse (format s) ≡ parsed s
parse-format s h = parse_named s.name h.0 s.disambiguator h.1
