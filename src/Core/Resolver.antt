-- ===== src/Core/Resolver.antt =====
-- packages/core/src/target/symbol-target-resolver.ts and symbol-target-request.ts, with the choice of a
-- backend of backend/backend-router.ts: from a target that a user wrote to one identity. The files of
-- the workspace, the backends, the compiler of regular expressions and the order of `localeCompare` are
-- parameters; a backend is known by its place in the list of the router.
mod Sorted
pub mod Choosing
pub mod Keys
pub mod Choice
use symnav.Prelude.{
  ◌≡◌, ℕ, zero, suc, ◌+◌, ◌-◌, Bool, true, false, not, ◌&&◌, ◌||◌, Option, none, some, List, [],
  ◌∷◌, ◌++◌, map, Text, text_eq, leb, ltb, ◌==◌, length, filter, any, last?, get_elem?, get_or,
  is_some, sort_by, Result, ok, err, ◌>>=◌, ◌>>◌, throw_if, if◌then◌else◌,
}
use symnav.Core.Identity.{SymbolPathSegment, SymbolIdentity, LineRange, Header}
use symnav.Core.Segment.{InvalidSymbolIdError, format_symbol_identity}
use symnav.Core.Overview.{SymbolOverviewNode, symbol_overview_node, identity_of}
use symnav.Core.Pagination.{Number, whole, other, is_positive_integer}
use symnav.Core.Backend.{ResolvedPath}
use symnav.Core.Target.{SymbolTargetPattern, InvalidSymbolTargetError, matches, file_suffix_matches}
use symnav.Core.Target

pub data SymbolTargetRequest : Type 0 where
  regular : Text → SymbolTargetPattern → SymbolTargetRequest
  -- the expression is its test
  regex : Text → (Text → Bool) → SymbolTargetRequest

pub record SymbolTargetCandidate : Type 0 where
  pub symbol : SymbolOverviewNode
  pub canonical_id : Text
  pub header : Header

pub record OwnedCandidate : Type 0 where
  pub candidate : SymbolTargetCandidate
  -- the place of the backend
  pub backend : ℕ

pub data ResolverError : Type 0 where
  invalid_line : Number → ResolverError
  invalid_target : InvalidSymbolTargetError → ResolverError
  invalid_id : InvalidSymbolIdError → ResolverError
  no_supported_files : ResolverError
  target_not_found : Text → ResolverError
  line_mismatch : Text → ℕ → ResolverError
  ambiguous_target : Text → List SymbolTargetCandidate → ResolverError
  -- of a parameter
  passed_on : Text → ResolverError

pub record LanguageBackend : Type 0 where
  pub accepts : Text → Bool
  pub declarations : List ResolvedPath → Result ResolverError (List SymbolOverviewNode)

-- What the resolver calls.
pub record ResolverSurroundings : Type 0 where
  pub enumerate : Result ResolverError (List ResolvedPath)
  pub resolve_input_path : Text → Result ResolverError (Unit {0})
  pub backends : List LanguageBackend
  pub compile_regex : Text → Result ResolverError (Text → Bool)
  pub locale_before : Text → Text → Bool

pub record ResolvedSymbolTarget : Type 0 where
  pub identity : SymbolIdentity
  pub backend : ℕ
  pub files : List ResolvedPath

-- The files of each backend, in the order of their first files.
abbrev pub Groups : Type 0
Groups = List (ℕ × List ResolvedPath)

abbrev pub raw_of : SymbolTargetRequest → Text
raw_of (regular raw pattern) = raw
raw_of (regex raw test) = raw

abbrev target_checked :
    Text
    → Result InvalidSymbolTargetError SymbolTargetPattern
    → Result ResolverError SymbolTargetRequest
target_checked raw (ok pattern) = ok (regular raw pattern)
target_checked raw (err e) = err (invalid_target e)

abbrev pub id_checked : {A : Type 0} → Result InvalidSymbolIdError A → Result ResolverError A
id_checked (ok a) = ok a
id_checked (err e) = err (invalid_id e)

unfoldable pub parse_request :
    ResolverSurroundings → Text → Bool → Result ResolverError SymbolTargetRequest
unfolding Target.parse
parse_request around raw true = around.compile_regex raw >>= λ test. ok (regex raw test)
parse_request around raw false = target_checked raw (Target.parse raw)

unfoldable pub request_matches : SymbolTargetRequest → SymbolIdentity → Result ResolverError Bool
unfolding matches format_symbol_identity
request_matches (regex raw test) identity =
    id_checked (format_symbol_identity identity) >>= λ id. ok (test id)
request_matches (regular raw pattern) identity = ok (matches pattern identity)

unfoldable pub containing_line_from : Option Number → Result ResolverError (Option ℕ)
unfolding is_positive_integer
containing_line_from none = ok none
containing_line_from (some (whole n)) =
    throw_if (not (is_positive_integer (whole n))) (invalid_line (whole n)) >> ok (some n)
containing_line_from (some (other s)) = err (invalid_line (other s))

-- `router.find`: the first backend that accepts the file.
unfoldable pub find_backend : List LanguageBackend → ℕ → Text → Option ℕ
find_backend [] place path = none
find_backend (backend ∷ backends) place path =
    let later = find_backend backends (suc place) path in
    if backend.accepts path then some place else later

unfoldable pub add_accepted : ℕ → ResolvedPath → Groups → Groups
add_accepted backend file [] = (backend, file ∷ []) ∷ []
add_accepted backend file ((place, files) ∷ groups) =
    if place == backend
    then (place, files ++ file ∷ []) ∷ groups
    else (place, files) ∷ add_accepted backend file groups

unfoldable pub group_files : List LanguageBackend → List ResolvedPath → Groups → Groups
unfolding find_backend add_accepted
group_files backends [] groups = groups
group_files backends (file ∷ files) groups = elim (find_backend backends 0 file.relative) [
  | none ↦ group_files backends files groups
  | some backend ↦ group_files backends files (add_accepted backend file groups)
]

abbrev suffix_of : SymbolTargetRequest → Option Text
suffix_of (regular raw pattern) = pattern.file_suffix
suffix_of (regex raw test) = none

unfoldable pub check_file_suffix :
    ResolverSurroundings → List ResolvedPath → SymbolTargetRequest → Result ResolverError (Unit {0})
unfolding file_suffix_matches
check_file_suffix around files request = elim (suffix_of request) [
  | none ↦ ok tt
  | some suffix ↦
      if any (λ file. file_suffix_matches file.relative suffix) files
      then ok tt
      else around.resolve_input_path suffix
]

abbrev header_in : SymbolOverviewNode → Header
header_in (symbol_overview_node range header identity kind children) = header

abbrev pub range_of : SymbolOverviewNode → LineRange
range_of (symbol_overview_node range header identity kind children) = range

unfoldable pub match_symbols :
    SymbolTargetRequest → ℕ → List SymbolOverviewNode → Result ResolverError (List OwnedCandidate)
unfolding request_matches format_symbol_identity identity_of
match_symbols request backend [] = ok []
match_symbols request backend (symbol ∷ symbols) = do
  matched ← request_matches request (identity_of symbol)
  first ←
      (if matched
        then (id_checked (format_symbol_identity (identity_of symbol)) >>= λ id. ok (
            record {
              candidate = record { symbol = symbol; canonical_id = id; header = header_in symbol };
              backend = backend;
            }
            ∷ []))
        else ok [])
  rest ← match_symbols request backend symbols
  ok (first ++ rest)

abbrev declarations_by :
    Option LanguageBackend → List ResolvedPath → Result ResolverError (List SymbolOverviewNode)
declarations_by none files = ok []
declarations_by (some backend) files = backend.declarations files

unfoldable pub collect_matched_candidates :
    List LanguageBackend → SymbolTargetRequest → Groups → Result ResolverError (List OwnedCandidate)
unfolding match_symbols
collect_matched_candidates backends request [] = ok []
collect_matched_candidates backends request ((backend, files) ∷ groups) = do
  symbols ← declarations_by (get_elem? backends backend) files
  first ← match_symbols request backend symbols
  rest ← collect_matched_candidates backends request groups
  ok (first ++ rest)
