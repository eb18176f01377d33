-- ===== src/Core/Segment.antt =====
-- packages/core/src/intermediate-representation/segment-grammar.ts and canonical-identity.ts: the
-- text of a segment, of a path and of an identity. The explanations of the errors are constructors.
pub mod Roundtrip
use symnav.Prelude.{
  ◌≡◌, ℕ, zero, suc, ◌+◌, Bool, true, false, ◌&&◌, ◌||◌, Option, none, some, List, [], ◌∷◌, ◌++◌,
  map, Text, take, drop, Result, ok, err, ◌>>=◌, if◌then◌else◌, ◌==◌,
}
use symnav.Core.Identity.{SymbolPathSegment, SymbolIdentity}
use symnav.Core.Decimal.{decimal, parse_int, is_positive_decimal}

pub data Explanation : Type 0 where
  empty_segment : Explanation
  bad_disambiguator : Text → Explanation
  file_with_separator : Explanation

pub data SegmentParse : Type 0 where
  parsed : SymbolPathSegment → SegmentParse
  rejected : Explanation → SegmentParse

abbrev pub hash : ℕ
hash = b'#'

abbrev pub colon : ℕ
colon = b':'

-- `lastIndexOf`, of one code unit.
unfoldable pub last_index_of : ℕ → Text → Option ℕ
last_index_of c [] = none
last_index_of c (x ∷ xs) = elim (last_index_of c xs) [
  | some i ↦ some (suc i)
  | none ↦ if x == c then some 0 else none
]

abbrev plain : Text → SegmentParse
plain segment = parsed (record { name = segment; disambiguator = none })

parse_numbered : Text → Text → Text → SegmentParse
parse_numbered segment [] number = plain segment
parse_numbered segment (c ∷ cs) number =
    if is_positive_decimal number
    then parsed (record { name = c ∷ cs; disambiguator = some (parse_int number) })
    else rejected (bad_disambiguator number)

parse_at : Text → Option ℕ → SegmentParse
unfolding parse_numbered
parse_at segment none = plain segment
parse_at segment (some i) = parse_numbered segment (take i segment) (drop (suc i) segment)

unfoldable pub parse : Text → SegmentParse
unfolding parse_at
parse [] = rejected empty_segment
parse (c ∷ cs) = parse_at (c ∷ cs) (last_index_of hash (c ∷ cs))

unfoldable pub format : SymbolPathSegment → Text
format segment = elim segment.disambiguator [
  | none ↦ segment.name
  | some n ↦ segment.name ++ hash ∷ decimal n
]

abbrev pub segment_separator : Text
segment_separator = colon ∷ colon ∷ []

-- `join` by the separator.
unfoldable pub join : List Text → Text
join [] = []
join (t ∷ []) = t
join (t ∷ u ∷ ts) = t ++ segment_separator ++ join (u ∷ ts)

unfoldable pub format_symbol_path : List SymbolPathSegment → Text
unfolding format join
format_symbol_path segments = join (map format segments)

-- `includes("::")`
unfoldable pub includes_separator : Text → Bool
includes_separator [] = false
includes_separator (c ∷ []) = false
includes_separator (c ∷ d ∷ cs) = c == colon && d == colon || includes_separator (d ∷ cs)

pub record InvalidSymbolIdError : Type 0 where
  pub explanation : Explanation
  pub raw : Text

unfoldable pub format_symbol_identity : SymbolIdentity → Result InvalidSymbolIdError Text
unfolding includes_separator join format_symbol_path
format_symbol_identity identity =
    if includes_separator identity.file
    then err (record { explanation = file_with_separator; raw = identity.file })
    else ok (join (identity.file ∷ format_symbol_path identity.segments ∷ []))

unfoldable pub parse_segment : Text → Text → Result InvalidSymbolIdError SymbolPathSegment
unfolding parse
parse_segment segment raw = elim (parse segment) [
  | parsed s ↦ ok s
  | rejected e ↦ err (record { explanation = e; raw = raw })
]
