-- ===== src/Core/Target/Matching.antt =====
-- Which identities a pattern matches, said without the tests of the code.
use symnav.Prelude.{
  ◌≡◌, refl, sym, ap, ℕ, suc, ◌-◌, Bool, true, false, ◌&&◌, ◌||◌, ◌⊎◌, ◌↔◌, inl, inr, Option, none,
  some, List, [], ◌∷◌, ◌++◌, arith, Text, text_eq, text_eq_iff, text_eq_refl, take, drop, length,
  length-append, length-drop, take-append-drop, drop_front, ltb, Bool-cases, if◌then◌else◌, ◌==◌,
}
use symnav.Core.Identity.{SymbolPathSegment, SymbolIdentity}
use symnav.Core.Target.{
  SymbolTargetPattern, slash, ends_with, file_suffix_matches, disambiguator_matches,
  segment_matches, every_segment_matches, file_allows, matches,
}

-- Without a number the pattern accepts every number.
abbrev pub NumberAccepted : Option ℕ → Option ℕ → Type 0
NumberAccepted none candidate = Unit
NumberAccepted (some n) candidate = candidate ≡ some n

abbrev pub Accepted : SymbolPathSegment → SymbolPathSegment → Type 0
Accepted p s = (p.name ≡ s.name) × NumberAccepted p.disambiguator s.disambiguator

-- The segments are accepted one by one.
abbrev pub AllAccepted : List SymbolPathSegment → List SymbolPathSegment → Type 0
AllAccepted [] [] = Unit
AllAccepted [] (s ∷ ss) = ⊥
AllAccepted (p ∷ ps) [] = ⊥
AllAccepted (p ∷ ps) (s ∷ ss) = Accepted p s × AllAccepted ps ss

-- The file itself, or the file below a directory.
abbrev pub FileNamed : Text → Text → Type 0
FileNamed file suffix =
    (file ≡ suffix) ⊎ ((directory : Text) × (file ≡ directory ++ slash ∷ suffix))

-- With a file, the pattern is of the whole path of the symbol; without one, of the end of it.
abbrev pub Selects : Option Text → List SymbolPathSegment → SymbolIdentity → Type 0
Selects none ps identity =
    (outer : List SymbolPathSegment) × (inner : List SymbolPathSegment) × (identity.segments
      ≡ outer ++ inner)
    × AllAccepted ps inner
Selects (some suffix) ps identity =
    FileNamed identity.file suffix × AllAccepted ps identity.segments

ends_with_parts :
    (file suffix : Text)
    → ends_with file suffix ≡ true
    → (directory : Text) × (file ≡ directory ++ suffix)
unfolding ends_with
ends_with_parts [] suffix h = ([], (text_eq_iff [] suffix).0 h)
ends_with_parts (c ∷ cs) suffix h = elim (Bool-cases (text_eq (c ∷ cs) suffix)) [
  | inl same ↦ ([], (text_eq_iff (c ∷ cs) suffix).0 same)
  | inr other ↦ longer (ends_with_parts cs suffix (rest other))
]
  where
    rest : text_eq (c ∷ cs) suffix ≡ false → ends_with cs suffix ≡ true
    rest other = ground arith

    longer :
        ((directory : Text) × (cs ≡ directory ++ suffix))
        → (directory : Text) × (c ∷ cs ≡ directory ++ suffix)
    longer (directory, e) = (c ∷ directory, ap (λ r. c ∷ r) e)

ends_with_self : (suffix : Text) → ends_with suffix suffix ≡ true
unfolding ends_with text_eq
ends_with_self [] = refl
ends_with_self (c ∷ cs) = rw (text_eq_refl (c ∷ cs)) refl

ends_with-append : (directory suffix : Text) → ends_with (directory ++ suffix) suffix ≡ true
unfolding ends_with
ends_with-append [] suffix = ends_with_self suffix
ends_with-append (c ∷ directory) suffix = ground (arith, ends_with-append directory suffix)

-- The test of the file is true of the files that the suffix names.
pub file_suffix_matches_iff :
    (file suffix : Text) → (file_suffix_matches file suffix ≡ true) ↔ FileNamed file suffix
unfolding file_suffix_matches
file_suffix_matches_iff file suffix = (forth, back)
  where
    forth : (text_eq file suffix || ends_with file (slash ∷ suffix)) ≡ true → FileNamed file suffix
    forth h = elim (Bool-cases (text_eq file suffix)) [
      | inl same ↦ inl ((text_eq_iff file suffix).0 same)
      | inr other ↦ inr (ends_with_parts file (slash ∷ suffix) (ground arith))
    ]

    back : FileNamed file suffix → (text_eq file suffix || ends_with file (slash ∷ suffix)) ≡ true
    back (inl same) = rw ((text_eq_iff file suffix).1 same) refl
    back (inr (directory, e)) = ground (arith, below directory e)
      where
        below :
            (directory : Text)
            → file ≡ directory ++ slash ∷ suffix
            → ends_with file (slash ∷ suffix) ≡ true
        below directory e = rw e (ends_with-append directory (slash ∷ suffix))

number_iff : (p s : Option ℕ) → (disambiguator_matches p s ≡ true) ↔ NumberAccepted p s
unfolding disambiguator_matches
number_iff none s = ((λ _. tt), (λ _. refl))
number_iff (some n) none = ground arith
number_iff (some n) (some m) = ground arith

segment_iff : (p s : SymbolPathSegment) → (segment_matches p s ≡ true) ↔ Accepted p s
unfolding segment_matches
segment_iff p s =
    ground (arith, text_eq_iff p.name s.name, number_iff p.disambiguator s.disambiguator)

AllAccepted-length : (ps ss : List SymbolPathSegment) → AllAccepted ps ss → length ps ≡ length ss
AllAccepted-length [] [] h = refl
AllAccepted-length [] (s ∷ ss) h = absurd h
AllAccepted-length (p ∷ ps) [] h = absurd h
AllAccepted-length (p ∷ ps) (s ∷ ss) h = ap suc (AllAccepted-length ps ss h.1)

every_iff :
    (ps ss : List SymbolPathSegment)
    → length ps ≡ length ss
    → (every_segment_matches ps ss ≡ true) ↔ AllAccepted ps ss
unfolding every_segment_matches
every_iff [] [] e = ((λ _. tt), (λ _. refl))
every_iff [] (s ∷ ss) e = absurd (omega arith)
every_iff (p ∷ ps) [] e = absurd (omega arith)
every_iff (p ∷ ps) (s ∷ ss) e = ground (arith, segment_iff p s, every_iff ps ss (omega arith))

suffix_test : List SymbolPathSegment → List SymbolPathSegment → Bool
suffix_test ps ss =
    if ltb (length ss) (length ps)
    then false
    else every_segment_matches ps (drop (length ss - length ps) ss)

suffix_parts :
    (ps ss : List SymbolPathSegment)
    → suffix_test ps ss ≡ true
    → (outer : List SymbolPathSegment) × (inner : List SymbolPathSegment) × (ss ≡ outer ++ inner)
      × AllAccepted ps inner
unfolding suffix_test
suffix_parts ps ss h = elim (Bool-cases (ltb (length ss) (length ps))) [
  | inl short ↦ absurd (ground arith)
  | inr long ↦ (
    take (length ss - length ps) ss,
    drop (length ss - length ps) ss,
    sym (take-append-drop (length ss - length ps) ss),
    (every_iff ps (drop (length ss - length ps) ss) (same_length long)).0 (ground arith),
  )
]
  where
    same_length :
        ltb (length ss) (length ps) ≡ false → length ps ≡ length (drop (length ss - length ps) ss)
    same_length long = ground (arith, length-drop (length ss - length ps) ss)

suffix_test-append :
    (ps outer inner : List SymbolPathSegment)
    → AllAccepted ps inner
    → suffix_test ps (outer ++ inner) ≡ true
unfolding suffix_test
suffix_test-append ps outer inner h =
    ground (arith, length-append outer inner, AllAccepted-length ps inner h, inner_matches)
  where
    excess : length (outer ++ inner) - length ps ≡ length outer
    excess = omega (arith, length-append outer inner, AllAccepted-length ps inner h)

    inner_matches :
        every_segment_matches ps (drop (length (outer ++ inner) - length ps) (outer ++ inner))
        ≡ true
    inner_matches =
        rw (excess, drop_front outer inner)
          ((every_iff ps inner (AllAccepted-length ps inner h)).1 h)

whole_test :
    (ps ss : List SymbolPathSegment)
    → length ps ≡ length ss
    → suffix_test ps ss ≡ every_segment_matches ps ss
unfolding suffix_test
whole_test ps ss e = rw e (ground (arith, ap (λ n. drop n ss) (none_left (length ss))))
  where
    none_left : (n : ℕ) → n - n ≡ 0
    none_left n = omega arith

matches_named :
    (raw : Text) (file : Option Text) (ps : List SymbolPathSegment) (identity : SymbolIdentity)
    → (matches (record { raw = raw; file_suffix = file; segment_suffix = ps }) identity ≡ true)
      ↔ Selects file ps identity
unfolding matches file_allows suffix_test
matches_named raw none ps identity = (suffix_parts ps identity.segments, back)
  where
    back : Selects none ps identity → suffix_test ps identity.segments ≡ true
    back (outer, inner, e, h) = rw e (suffix_test-append ps outer inner h)
matches_named raw (some suffix) ps identity = (forth, back)
  where
    test : Bool
    test =
        if file_suffix_matches identity.file suffix && length ps == length identity.segments
        then suffix_test ps identity.segments
        else false

    forth : test ≡ true → Selects (some suffix) ps identity
    forth h = ground (
      arith,
      file_suffix_matches_iff identity.file suffix,
      every_iff ps identity.segments,
      whole_test ps identity.segments,
    )

    back : Selects (some suffix) ps identity → test ≡ true
    back (named, accepted) = ground (
      arith,
      (file_suffix_matches_iff identity.file suffix).1 named,
      AllAccepted-length ps identity.segments accepted,
      whole_test ps identity.segments (AllAccepted-length ps identity.segments accepted),
      (every_iff ps identity.segments (AllAccepted-length ps identity.segments accepted)).1
          accepted,
    )

-- A pattern matches exactly the identities that it selects: with a file, the identities of that
-- file, at the top or below a directory, whose whole path is accepted segment by segment; without
-- a file, the identities whose path ends in accepted segments.
pub matches_iff :
    (pattern : SymbolTargetPattern) (identity : SymbolIdentity)
    → (matches pattern identity ≡ true)
      ↔ Selects pattern.file_suffix pattern.segment_suffix identity
matches_iff pattern identity =
    matches_named pattern.raw pattern.file_suffix pattern.segment_suffix identity
