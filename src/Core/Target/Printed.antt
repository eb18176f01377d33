-- ===== src/Core/Target/Printed.antt =====
-- The identity that a command prints, read back as a target.
use symnav.Prelude.{
  ◌≡◌, ◌≢◌, refl, ap, ◌∙◌, ℕ, true, false, Option, none, some, List, [], ◌∷◌, ◌++◌, map, arith,
  Text, All, All-append, ok,
}
use symnav.Core.Identity.{SymbolPathSegment, SymbolIdentity}
use symnav.Core.Decimal.{decimal, IsDigit, decimal-IsDigit}
use symnav.Core.Segment.{
  colon, hash, format, join, segment_separator, format_symbol_path, includes_separator,
  format_symbol_identity,
}
use symnav.Core.Segment.Roundtrip.{IsNumbered, IsReadable, parse-format}
use symnav.Core.Target.{
  SymbolTargetPattern, push_front, split, looks_like_file, file_suffix_from, segment_parts,
  parse_segment, parse_segments, parse,
}

abbrev pub IsPlain : Text → Type 0
IsPlain t = All (λ c. c ≢ colon) t

split_plain : (t : Text) → IsPlain t → split t ≡ t ∷ []
unfolding split push_front
split_plain [] h = refl
split_plain (c ∷ []) h = refl
split_plain (c ∷ d ∷ cs) h = ground (arith, split_plain (d ∷ cs) h.1)

split-append : (t rest : Text) → IsPlain t → split (t ++ segment_separator ++ rest) ≡ t ∷ split rest
unfolding split push_front
split-append [] rest h = refl
split-append (c ∷ []) rest h = ground arith
split-append (c ∷ d ∷ cs) rest h = ground (arith, split-append (d ∷ cs) rest h.1)

split-join :
    (part : Text) (parts : List Text)
    → All IsPlain (part ∷ parts)
    → split (join (part ∷ parts)) ≡ part ∷ parts
unfolding join
split-join part [] h = split_plain part h.0
split-join part (next ∷ parts) h =
    split-append part (join (next ∷ parts)) h.0 ∙ ap (λ r. part ∷ r) (split-join next parts h.1)

plain_separator : (t : Text) → IsPlain t → includes_separator t ≡ false
unfolding includes_separator
plain_separator [] h = refl
plain_separator (c ∷ []) h = refl
plain_separator (c ∷ d ∷ cs) h = ground (arith, plain_separator (d ∷ cs) h.1)

digits-IsPlain : (cs : Text) → All IsDigit cs → IsPlain cs
digits-IsPlain [] h = tt
digits-IsPlain (c ∷ cs) h = ((λ e. omega (arith, h.0)), digits-IsPlain cs h.1)

abbrev pub IsPrintableSegment : SymbolPathSegment → Type 0
IsPrintableSegment s = IsReadable s × IsPlain s.name

format-IsPlain : (s : SymbolPathSegment) → IsPrintableSegment s → IsPlain (format s)
unfolding format
format-IsPlain s h = numbered s.disambiguator h.0.1
  where
    numbered :
        (d : Option ℕ)
        → IsNumbered s.name d
        → IsPlain (elim d [ none ↦ s.name | some n ↦ s.name ++ hash ∷ decimal n ])
    numbered none own = h.1
    numbered (some n) own =
        All-append (λ c. c ≢ colon) s.name (hash ∷ decimal n) h.1
          ((λ e. omega (arith, e)), digits-IsPlain (decimal n) (decimal-IsDigit n own.1))

formats-IsPlain :
    (ss : List SymbolPathSegment) → All IsPrintableSegment ss → All IsPlain (map format ss)
formats-IsPlain [] h = tt
formats-IsPlain (s ∷ ss) h = (format-IsPlain s h.0, formats-IsPlain ss h.1)

parse_segment-format :
    (s : SymbolPathSegment) (raw : Text) → IsReadable s → parse_segment (format s) raw ≡ ok s
unfolding parse_segment
parse_segment-format s raw h = rw (parse_segment, parse-format s h) refl

parse_segments_cons :
    (t raw : Text) (ts : List Text) (s : SymbolPathSegment) (ss : List SymbolPathSegment)
    → parse_segment t raw ≡ ok s
    → parse_segments ts raw ≡ ok ss
    → parse_segments (t ∷ ts) raw ≡ ok (s ∷ ss)
unfolding parse_segments
parse_segments_cons t raw ts s ss first rest = rw (first, rest) refl

parse_segments-format :
    (ss : List SymbolPathSegment) (raw : Text)
    → All IsPrintableSegment ss
    → parse_segments (map format ss) raw ≡ ok ss
parse_segments-format [] raw h = unfold parse_segments in refl
parse_segments-format (s ∷ ss) raw h =
    parse_segments_cons (format s) raw (map format ss) s ss (parse_segment-format s raw h.0.0)
      (parse_segments-format ss raw h.1)

-- An identity that can be typed: its file looks like one, it has a segment, the segments are
-- readable, and no text of it has a colon.
abbrev pub IsPrintable : SymbolIdentity → Type 0
IsPrintable identity =
    (looks_like_file identity.file ≡ true)
    × IsPlain identity.file
    × (identity.segments ≢ [])
    × All IsPrintableSegment identity.segments

abbrev pub printed : SymbolIdentity → Text
printed identity = join (identity.file ∷ format_symbol_path identity.segments ∷ [])

-- The pattern of an identity.
abbrev pub pattern_of : SymbolIdentity → SymbolTargetPattern
pattern_of identity = record {
  raw = printed identity;
  file_suffix = some identity.file;
  segment_suffix = identity.segments;
}

split-printed :
    (file : Text) (s : SymbolPathSegment) (ss : List SymbolPathSegment)
    → IsPlain file
    → All IsPrintableSegment (s ∷ ss)
    → split (join (file ∷ format_symbol_path (s ∷ ss) ∷ [])) ≡ file ∷ map format (s ∷ ss)
unfolding format_symbol_path
split-printed file s ss plain h =
    (unfold join in split-append file (join (map format (s ∷ ss))) plain)
    ∙ ap (λ r. file ∷ r) (split-join (format s) (map format ss) (formats-IsPlain (s ∷ ss) h))

parse_named :
    (c : ℕ) (cs file : Text) (s : SymbolPathSegment) (ss : List SymbolPathSegment)
    → looks_like_file file ≡ true
    → All IsPrintableSegment (s ∷ ss)
    → split (c ∷ cs) ≡ file ∷ map format (s ∷ ss)
    → parse (c ∷ cs)
      ≡ ok (record { raw = c ∷ cs; file_suffix = some file; segment_suffix = s ∷ ss })
unfolding parse segment_parts file_suffix_from
parse_named c cs file s ss looks h e =
    rw (e, looks) (rw (parse_segments-format (s ∷ ss) (c ∷ cs) h) refl)

-- The printed text, which is not empty, since its file is not.
parse_nonempty :
    (file : Text) (segments : List SymbolPathSegment)
    → IsPrintable (record { file = file; segments = segments })
    → parse (printed (record { file = file; segments = segments }))
      ≡ ok (pattern_of (record { file = file; segments = segments }))
unfolding join
parse_nonempty file [] h = absurd (h.2 refl)
parse_nonempty [] (s ∷ ss) h = absurd (unfold looks_like_file in ground (arith, h.0))
parse_nonempty (c ∷ cs) (s ∷ ss) h =
    parse_named c (cs ++ segment_separator ++ format_symbol_path (s ∷ ss)) (c ∷ cs) s ss h.0 h.3
      (split-printed (c ∷ cs) s ss h.1 h.3)

format_printed :
    (identity : SymbolIdentity)
    → IsPlain identity.file
    → format_symbol_identity identity ≡ ok (printed identity)
unfolding format_symbol_identity
format_printed identity h = rw (plain_separator identity.file h) refl

-- The printed text of an identity that can be typed is read as the pattern with its file and all its
-- segments. It can be typed when its file looks like a path, it has a segment, no name of it and not the
-- file has a colon, and each segment is readable: its name is not empty, and it has a number from 1 to
-- below 2^53, or none and no `#` after the beginning of its name.
pub parse-printed :
    (identity : SymbolIdentity)
    → IsPrintable identity
    → (format_symbol_identity identity ≡ ok (printed identity))
      × (parse (printed identity) ≡ ok (pattern_of identity))
parse-printed identity h =
    (format_printed identity h.1, parse_nonempty identity.file identity.segments h)
