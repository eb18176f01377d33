-- ===== src/Core/Resolver/Choosing.antt =====
-- packages/core/src/target/symbol-target-resolver.ts: the line, the overloads that collapse to one
-- symbol, the choice among the candidates, and `resolve` itself.
use symnav.Prelude.{
  ℕ, Bool, true, false, not, ◌&&◌, Option, none, some, List, [], ◌∷◌, map, Text, text_eq, leb, ◌==◌,
  length, filter, last?, get_or, is_some, sort_by, Result, ok, err, ◌>>=◌, ◌>>◌, throw_if,
  if◌then◌else◌,
}
use symnav.Core.Identity.{SymbolPathSegment, SymbolIdentity}
use symnav.Core.Segment.{format_symbol_identity}
use symnav.Core.Overview.{SymbolOverviewNode, identity_of}
use symnav.Core.Pagination.{Number}
use symnav.Core.Backend.{ResolvedPath}
use symnav.Core.Resolver.{
  SymbolTargetRequest, regular, regex, OwnedCandidate, ResolverError, target_not_found,
  line_mismatch, ambiguous_target, no_supported_files, ResolverSurroundings, ResolvedSymbolTarget,
  Groups, raw_of, id_checked, range_of, parse_request, containing_line_from, check_file_suffix,
  group_files, collect_matched_candidates,
}

unfoldable pub matches_line : Option ℕ → SymbolOverviewNode → Bool
matches_line none symbol = true
matches_line (some line) symbol =
    leb (range_of symbol).start_line line && leb line (range_of symbol).end_line

-- The segments without the number of the last one.
unfoldable pub without_leaf_disambiguator : List SymbolPathSegment → List SymbolPathSegment
without_leaf_disambiguator [] = []
without_leaf_disambiguator (segment ∷ []) =
    record { name = segment.name; disambiguator = none } ∷ []
without_leaf_disambiguator (segment ∷ next ∷ segments) =
    segment ∷ without_leaf_disambiguator (next ∷ segments)

unfoldable pub identity_without_leaf_disambiguator : SymbolIdentity → SymbolIdentity
unfolding without_leaf_disambiguator
identity_without_leaf_disambiguator identity = record {
  file = identity.file;
  segments = without_leaf_disambiguator identity.segments;
}

-- The members of a set of texts.
unfoldable pub unique : List Text → List Text
unique [] = []
unique (key ∷ keys) = key ∷ filter (λ k. not (text_eq k key)) (unique keys)

abbrev pub base_of : OwnedCandidate → SymbolIdentity
base_of owned = identity_without_leaf_disambiguator (identity_of owned.candidate.symbol)

unfoldable pub keys_of : List OwnedCandidate → Result ResolverError (List Text)
unfolding format_symbol_identity identity_without_leaf_disambiguator
keys_of [] = ok []
keys_of (owned ∷ rest) = do
  key ← id_checked (format_symbol_identity (base_of owned))
  keys ← keys_of rest
  ok (key ∷ keys)

abbrev pub leaf_is_numbered : Option SymbolPathSegment → Bool
leaf_is_numbered none = false
leaf_is_numbered (some segment) = is_some segment.disambiguator

-- The identity that candidates share but for their numbers; `winner` is the first of them.
unfoldable pub collapsed_overload_identity :
    SymbolTargetRequest
    → OwnedCandidate
    → List OwnedCandidate
    → Result ResolverError (Option SymbolIdentity)
unfolding keys_of unique identity_without_leaf_disambiguator
collapsed_overload_identity (regex raw test) winner candidates = ok none
collapsed_overload_identity (regular raw pattern) winner candidates =
    if leaf_is_numbered (last? pattern.segment_suffix)
    then ok none
    else (keys_of candidates >>= λ keys.
        ok (if length (unique keys) == 1 then some (base_of winner) else none))

abbrev files_of : ℕ → Groups → List ResolvedPath
files_of backend [] = []
files_of backend ((place, files) ∷ groups) =
    if place == backend then files else files_of backend groups

abbrev pub resolved_target : SymbolIdentity → ℕ → Groups → ResolvedSymbolTarget
resolved_target identity backend groups = record {
  identity = identity;
  backend = backend;
  files = files_of backend groups;
}

-- `sorted[0]` is read only after the lists of no candidate have been refused, so the empty list is not
-- reached.
unfoldable pub choose_sorted :
    SymbolTargetRequest → Groups → List OwnedCandidate → Result ResolverError ResolvedSymbolTarget
unfolding collapsed_overload_identity identity_of
choose_sorted request groups [] = err (target_not_found (raw_of request))
choose_sorted request groups (winner ∷ []) =
    ok (resolved_target (identity_of winner.candidate.symbol) winner.backend groups)
choose_sorted request groups (winner ∷ next ∷ rest) =
    collapsed_overload_identity request winner (winner ∷ next ∷ rest) >>= λ collapsed.
    elim collapsed [
      | none ↦ err (
          ambiguous_target (raw_of request) (map (λ owned. owned.candidate) (winner ∷ next ∷ rest)))
      | some identity ↦ ok (resolved_target identity winner.backend groups)
    ]

abbrev pub is_empty : List OwnedCandidate → Bool
is_empty [] = true
is_empty (c ∷ cs) = false

abbrev pub on_line : Option ℕ → List OwnedCandidate → List OwnedCandidate
on_line line candidates = filter (λ owned. matches_line line owned.candidate.symbol) candidates

-- `resolve` from the matched candidates on.
unfoldable pub choose :
    ResolverSurroundings
    → SymbolTargetRequest
    → Option ℕ
    → Groups
    → List OwnedCandidate
    → Result ResolverError ResolvedSymbolTarget
unfolding choose_sorted matches_line sort_by
choose around request line groups matched = do
  throw_if (is_empty matched) (target_not_found (raw_of request))
  throw_if (is_some line && is_empty (on_line line matched))
      (line_mismatch (raw_of request) (get_or line 0))
  choose_sorted request groups (
      sort_by (λ a b. around.locale_before a.candidate.canonical_id b.candidate.canonical_id)
        (on_line line matched))

abbrev no_groups : Groups → Bool
no_groups [] = true
no_groups (g ∷ groups) = false

unfoldable pub resolve :
    ResolverSurroundings → Text → Option Number → Bool → Result ResolverError ResolvedSymbolTarget
unfolding containing_line_from parse_request check_file_suffix group_files
    collect_matched_candidates choose
resolve around raw_target line is_regex = do
  containing_line ← containing_line_from line
  request ← parse_request around raw_target is_regex
  files ← around.enumerate
  check_file_suffix around files request
  throw_if (no_groups (group_files around.backends files [])) no_supported_files
  matched ←
      collect_matched_candidates around.backends request (group_files around.backends files [])
  choose around request containing_line (group_files around.backends files []) matched
