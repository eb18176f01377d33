-- ===== src/Core/Resolver/Choice.antt =====
-- What the resolver decides of the candidates that it matched.
use symnav.Prelude.{
  ◌≡◌, refl, sym, ap, subst, ◌∙◌, ℕ, ◌≤◌, Bool, true, false, not, ◌&&◌, ◌⊎◌, inl, inr, Option, none,
  some, List, [], ◌∷◌, map, arith, Text, ◌==◌, length, length-map, last?, is_some, All, sort_by,
  Result, ok, err, ◌>>=◌, throw_if, if◌then◌else◌, get_or, ◌>>◌,
}
use symnav.Core.Resolver.Sorted.{length-sort_by, All-sort_by, sorted-All, All-filter}
use symnav.Core.Identity.{SymbolIdentity}
use symnav.Core.Segment.{format_symbol_identity}
use symnav.Core.Overview.{identity_of}
use symnav.Core.Resolver.{
  SymbolTargetRequest, regular, regex, OwnedCandidate, ResolverError, target_not_found,
  line_mismatch, ambiguous_target, ResolverSurroundings, ResolvedSymbolTarget, Groups, raw_of,
}
use symnav.Core.Resolver.Choosing.{
  is_empty, matches_line, unique, base_of, keys_of, leaf_is_numbered, collapsed_overload_identity,
  resolved_target, choose_sorted, on_line, choose,
}
use symnav.Core.Resolver.Keys.{
  IsNamed, HasBase, Keyed, keys_of-Keyed, Keyed-All, All-Keyed, unique-one, one-unique,
}

-- Whether overloads stand for one symbol: the target is no expression, and gives no number.
abbrev pub is_collapsible : SymbolTargetRequest → Bool
is_collapsible (regular raw pattern) = not (leaf_is_numbered (last? pattern.segment_suffix))
is_collapsible (regex raw test) = false

-- What an answer says of the candidates that matched, and of those on the line.
abbrev pub Decides :
    SymbolTargetRequest
    → Option ℕ
    → Groups
    → List OwnedCandidate
    → List OwnedCandidate
    → Result ResolverError ResolvedSymbolTarget
    → Type 0
Decides request line groups matched on (ok target) =
    ((owned : OwnedCandidate) × (on ≡ owned ∷ [])
      × (target ≡ resolved_target (identity_of owned.candidate.symbol) owned.backend groups))
    ⊎ ((is_collapsible request ≡ true)
        × (2 ≤ length on)
        × (key : Text) × All (HasBase key) on
        × (format_symbol_identity target.identity ≡ ok key))
Decides request line groups matched on (err (target_not_found raw)) = matched ≡ []
Decides request line groups matched on (err (line_mismatch raw number)) =
    (on ≡ []) × (line ≡ some number)
Decides request line groups matched on (err (ambiguous_target raw candidates)) =
    (2 ≤ length on)
    × (length candidates ≡ length on)
    × ((is_collapsible request ≡ false) ⊎ ((key : Text) → All (HasBase key) on → ⊥))
Decides request line groups matched on (err _) = ⊥

-- The candidates share one identity but for their numbers, or they do not stand for one.
abbrev Collapses :
    Bool
    → OwnedCandidate
    → List OwnedCandidate
    → Result ResolverError (Option SymbolIdentity)
    → Type 0
Collapses collapsible winner candidates answer =
    ((answer ≡ ok (some (base_of winner)))
      × (collapsible ≡ true)
      × (key : Text) × All (HasBase key) candidates)
    ⊎ ((answer ≡ ok none)
        × ((collapsible ≡ false) ⊎ ((key : Text) → All (HasBase key) candidates → ⊥)))

by_keys :
    (winner : OwnedCandidate) (rest : List OwnedCandidate) (keys : List Text)
    → Keyed (winner ∷ rest) keys
    → Collapses true winner
        (winner ∷ rest)
        (ok (if length (unique keys) == 1 then some (base_of winner) else none))
by_keys winner rest [] keyed = absurd keyed
by_keys winner rest (key ∷ keys) keyed = counted (length (unique (key ∷ keys)) == 1) refl
  where
    counted :
        (b : Bool)
        → (length (unique (key ∷ keys)) == 1) ≡ b
        → Collapses true winner (winner ∷ rest) (ok (if b then some (base_of winner) else none))
    counted true one = inl (
      refl,
      refl,
      key,
      Keyed-All key (winner ∷ rest) (key ∷ keys) keyed (unique-one key keys one),
    )
    counted false many = inr (
      refl,
      inr (λ other same. differs other (All-Keyed other (winner ∷ rest) (key ∷ keys) keyed same)),
    )
      where
        differs : (other : Text) → All (λ k. k ≡ other) (key ∷ keys) → ⊥
        differs other same =
            subst (λ b. b ≡ true → ⊥) (sym many) (λ h. ground arith)
              (one-unique key keys (subst (λ o. All (λ k. k ≡ o) keys) (sym same.0) same.1))

collapsed_overload_identity-Collapses :
    (request : SymbolTargetRequest) (winner : OwnedCandidate) (rest : List OwnedCandidate)
    → All IsNamed (winner ∷ rest)
    → Collapses
        (is_collapsible request)
        winner
        (winner ∷ rest)
        (collapsed_overload_identity request winner (winner ∷ rest))
unfolding collapsed_overload_identity
collapsed_overload_identity-Collapses (regex raw test) winner rest named = inr (refl, inl refl)
collapsed_overload_identity-Collapses (regular raw pattern) winner rest named =
    numbered (leaf_is_numbered (last? pattern.segment_suffix))
  where
    numbered :
        (b : Bool)
        → Collapses (not b) winner (winner ∷ rest) (
            if b
            then ok none
            else (keys_of (winner ∷ rest) >>= λ keys.
                ok (if length (unique keys) == 1 then some (base_of winner) else none)))
    numbered true = inr (refl, inl refl)
    numbered false =
        let (keys, e, keyed) = keys_of-Keyed (winner ∷ rest) named in
        rw e (by_keys winner rest keys keyed)

module _ (request : SymbolTargetRequest) (line : Option ℕ) (groups : Groups) where
  choose_sorted-Decides :
      (matched on sorted : List OwnedCandidate)
      → All IsNamed sorted
      → 2 ≤ length on
      → length sorted ≡ length on
      → ((key : Text) → All (HasBase key) sorted → All (HasBase key) on)
      → ((key : Text) → All (HasBase key) on → All (HasBase key) sorted)
      → Decides request line groups matched on (choose_sorted request groups sorted)
  unfolding choose_sorted
  choose_sorted-Decides matched on [] named two same back forth = absurd (omega arith)
  choose_sorted-Decides matched on (winner ∷ []) named two same back forth = absurd (omega arith)
  choose_sorted-Decides matched on (winner ∷ next ∷ rest) named two same back forth =
      decided (collapsed_overload_identity request winner (winner ∷ next ∷ rest))
        (collapsed_overload_identity-Collapses request winner (next ∷ rest) named)
    where
      decided :
          (answer : Result ResolverError (Option SymbolIdentity))
          → Collapses (is_collapsible request) winner (winner ∷ next ∷ rest) answer
          → Decides request line groups matched on (
              answer >>= λ collapsed. elim collapsed [
                | none ↦ err (
                    ambiguous_target
                      (raw_of request)
                      (map (λ owned. owned.candidate) (winner ∷ next ∷ rest)))
                | some identity ↦ ok (resolved_target identity winner.backend groups)
              ])
      decided answer (inl (e, collapsible, key, bases)) =
          rw e (inr (collapsible, two, key, back key bases, bases.0))
      decided answer (inr (e, inl barred)) =
          rw e
            (two, length-map (λ owned. owned.candidate) (winner ∷ next ∷ rest) ∙ same, inl barred)
      decided answer (inr (e, inr differ)) = rw e (
        two,
        length-map (λ owned. owned.candidate) (winner ∷ next ∷ rest) ∙ same,
        inr (λ key bases. differ key (forth key bases)),
      )

  choose_on-Decides :
      (before : OwnedCandidate → OwnedCandidate → Bool) (matched on : List OwnedCandidate)
      → 1 ≤ length on
      → All IsNamed on
      → Decides request line groups matched on (choose_sorted request groups (sort_by before on))
  choose_on-Decides before matched [] some_on named = absurd (omega arith)
  choose_on-Decides before matched (owned ∷ []) some_on named =
      unfold choose_sorted sort_by in inl (owned, refl, refl)
  choose_on-Decides before matched (owned ∷ next ∷ rest) some_on named =
      choose_sorted-Decides matched (owned ∷ next ∷ rest) (sort_by before (owned ∷ next ∷ rest))
        (All-sort_by IsNamed before (owned ∷ next ∷ rest) named) (omega arith)
        (length-sort_by before (owned ∷ next ∷ rest))
        (λ key. sorted-All (HasBase key) before (owned ∷ next ∷ rest))
        (λ key. All-sort_by (HasBase key) before (owned ∷ next ∷ rest))

every_on_line : (matched : List OwnedCandidate) → on_line none matched ≡ matched
unfolding matches_line
every_on_line [] = refl
every_on_line (owned ∷ matched) = ap (λ l. owned ∷ l) (every_on_line matched)

module _ (around : ResolverSurroundings) (request : SymbolTargetRequest) (line : Option ℕ)
    (groups : Groups) where
  abbrev ends_before : OwnedCandidate → OwnedCandidate → Bool
  ends_before a b = around.locale_before a.candidate.canonical_id b.candidate.canonical_id

  chosen_on-Decides :
      (matched on : List OwnedCandidate)
      → All IsNamed on
      → ((line ≡ none) → 1 ≤ length on)
      → Decides request line groups matched on (
          throw_if (is_some line && is_empty on) (line_mismatch (raw_of request) (get_or line 0))
          >> choose_sorted request groups (sort_by ends_before on))
  chosen_on-Decides matched [] named some_on = no_one line refl
    where
      no_one :
          (l : Option ℕ)
          → line ≡ l
          → Decides request line groups matched [] (
              throw_if (is_some l && true) (line_mismatch (raw_of request) (get_or l 0))
              >> choose_sorted request groups (sort_by ends_before []))
      no_one none e = absurd (omega (arith, some_on e))
      no_one (some number) e = (refl, e)
  chosen_on-Decides matched (owned ∷ rest) named some_on = on_some line
    where
      on_some :
          (l : Option ℕ)
          → Decides request line groups matched (owned ∷ rest) (
              throw_if (is_some l && false) (line_mismatch (raw_of request) (get_or l 0))
              >> choose_sorted request groups (sort_by ends_before (owned ∷ rest)))
      on_some none =
          choose_on-Decides request line groups ends_before matched (owned ∷ rest) (omega arith)
            named
      on_some (some number) =
          choose_on-Decides request line groups ends_before matched (owned ∷ rest) (omega arith)
            named

-- Of matched candidates that have names, the resolver answers: the one on the line; or, when there are
-- several and the target gives no number and is no expression, the identity that they share but for
-- their numbers; else that the target is ambiguous, with as many candidates as are on the line; that
-- none is on the line; or that there was none at all. It answers nothing else.
pub choose-Decides :
    (around : ResolverSurroundings) (request : SymbolTargetRequest) (line : Option ℕ)
    (groups : Groups) (matched : List OwnedCandidate)
    → All IsNamed matched
    → Decides request line groups matched
        (on_line line matched)
        (choose around request line groups matched)
unfolding choose
choose-Decides around request line groups [] named = refl
choose-Decides around request line groups (owned ∷ matched) named =
    chosen_on-Decides around request line groups (owned ∷ matched) (on_line line (owned ∷ matched))
      (All-filter IsNamed (λ o. matches_line line o.candidate.symbol) (owned ∷ matched) named)
      (λ e.
        subst (λ l. 1 ≤ length (on_line l (owned ∷ matched))) (sym e)
          (subst (λ os. 1 ≤ length os) (sym (every_on_line (owned ∷ matched))) (omega arith)))
