-- ===== src/Core/Target.antt =====
-- packages/core/src/target/symbol-target-pattern.ts: the pattern that names a symbol, its
-- reading from text and the identities that it matches.
pub mod Matching
pub mod Printed
use symnav.Prelude.{
  ◌≡◌, ℕ, zero, suc, ◌+◌, ◌-◌, Bool, true, false, not, ◌&&◌, ◌||◌, Option, none, some, List, [],
  ◌∷◌, ◌++◌, Text, text_eq, drop, length, any, ltb, is_some, Result, ok, err, ◌>>=◌, ◌>>◌, throw_if,
  if◌then◌else◌, ◌==◌,
}
use symnav.Core.Identity.{SymbolPathSegment, SymbolIdentity}
use symnav.Core.Segment.{Explanation, SegmentParse, parsed, rejected, colon}
use symnav.Core.Segment

pub record SymbolTargetPattern : Type 0 where
  pub raw : Text
  pub file_suffix : Option Text
  pub segment_suffix : List SymbolPathSegment

pub data TargetExplanation : Type 0 where
  empty_input : TargetExplanation
  segment_rejected : Explanation → TargetExplanation

pub record InvalidSymbolTargetError : Type 0 where
  pub explanation : TargetExplanation
  pub raw : Text

abbrev pub slash : ℕ
slash = b'/'

abbrev pub backslash : ℕ
backslash = b'\\'

abbrev pub dot : ℕ
dot = b'.'

unfoldable pub push_front : ℕ → List Text → List Text
push_front c [] = (c ∷ []) ∷ []
push_front c (part ∷ parts) = (c ∷ part) ∷ parts

-- `split("::")`
unfoldable pub split : Text → List Text
unfolding push_front
split [] = [] ∷ []
split (c ∷ []) = (c ∷ []) ∷ []
split (c ∷ d ∷ cs) = elim (c == colon && d == colon) [
  | true ↦ [] ∷ split cs
  | false ↦ push_front c (split (d ∷ cs))
]

-- `text.includes(c)`
abbrev pub includes : ℕ → Text → Bool
includes c cs = any (λ d. d == c) cs

-- `text.endsWith(suffix)`
unfoldable pub ends_with : Text → Text → Bool
ends_with [] suffix = text_eq [] suffix
ends_with (c ∷ cs) suffix = text_eq (c ∷ cs) suffix || ends_with cs suffix

unfoldable pub looks_like_file : Text → Bool
looks_like_file first = includes slash first || (includes backslash first || includes dot first)

unfoldable pub file_suffix_from : List Text → Option Text
unfolding looks_like_file
file_suffix_from [] = none
file_suffix_from (first ∷ []) = none
file_suffix_from (first ∷ second ∷ parts) = if looks_like_file first then some first else none

unfoldable pub parse_segment : Text → Text → Result InvalidSymbolTargetError SymbolPathSegment
parse_segment segment raw = elim (Segment.parse segment) [
  | parsed s ↦ ok s
  | rejected e ↦ err (record { explanation = segment_rejected e; raw = raw })
]

-- The `map` of `parse_segment`, which the first segment refused ends.
unfoldable pub parse_segments :
    List Text → Text → Result InvalidSymbolTargetError (List SymbolPathSegment)
unfolding parse_segment
parse_segments [] raw = ok []
parse_segments (segment ∷ segments) raw = do
  s ← parse_segment segment raw
  rest ← parse_segments segments raw
  ok (s ∷ rest)

-- `fileSuffix === undefined ? parts : parts.slice(1)`
unfoldable pub segment_parts : List Text → List Text
unfolding file_suffix_from
segment_parts parts = if is_some (file_suffix_from parts) then drop 1 parts else parts

unfoldable pub parse : Text → Result InvalidSymbolTargetError SymbolTargetPattern
unfolding split segment_parts file_suffix_from parse_segments
parse [] = err (record { explanation = empty_input; raw = [] })
parse (c ∷ cs) = parse_segments (segment_parts (split (c ∷ cs))) (c ∷ cs) >>= λ segments.
    ok (record {
      raw = c ∷ cs;
      file_suffix = file_suffix_from (split (c ∷ cs));
      segment_suffix = segments;
    })

unfoldable pub file_suffix_matches : Text → Text → Bool
unfolding ends_with
file_suffix_matches file suffix = text_eq file suffix || ends_with file (slash ∷ suffix)

-- `undefined` or the same number.
unfoldable pub disambiguator_matches : Option ℕ → Option ℕ → Bool
disambiguator_matches none candidate = true
disambiguator_matches (some n) none = false
disambiguator_matches (some n) (some m) = n == m

unfoldable pub segment_matches : SymbolPathSegment → SymbolPathSegment → Bool
unfolding disambiguator_matches
segment_matches pattern candidate =
    text_eq pattern.name candidate.name
    && disambiguator_matches pattern.disambiguator candidate.disambiguator

-- `identitySuffix.every((segment, index) => segmentMatches(segmentSuffix[index], segment))`; the
-- two lists have the same length where it is called.
unfoldable pub every_segment_matches : List SymbolPathSegment → List SymbolPathSegment → Bool
unfolding segment_matches
every_segment_matches patterns [] = true
every_segment_matches [] (s ∷ segments) = false
every_segment_matches (p ∷ patterns) (s ∷ segments) =
    segment_matches p s && every_segment_matches patterns segments

unfoldable pub file_allows : SymbolTargetPattern → SymbolIdentity → Bool
unfolding file_suffix_matches
file_allows pattern identity = elim pattern.file_suffix [
  | none ↦ true
  | some suffix ↦
      file_suffix_matches identity.file suffix
      && length pattern.segment_suffix == length identity.segments
]

unfoldable pub matches : SymbolTargetPattern → SymbolIdentity → Bool
unfolding file_allows every_segment_matches
matches pattern identity =
    if file_allows pattern identity
    then (if ltb (length identity.segments) (length pattern.segment_suffix)
        then false
        else every_segment_matches pattern.segment_suffix
            (drop (length identity.segments - length pattern.segment_suffix) identity.segments))
    else false
