-- ===== src/Core/GraphResult/Counting.antt =====
-- The symbols of a page's paths are counted without a failure when they can be named.
use symnav.Prelude.{◌≡◌, refl, ℕ, false, List, [], ◌∷◌, All, Text, Result, ok, ◌>>=◌}
use symnav.Prelude.Map.{Map}
use symnav.Core.Segment.{format_symbol_identity, includes_separator}
use symnav.Core.Identity.{SymbolIdentity}
use symnav.Core.Traverser.{GraphPath, name_of}
use symnav.Core.Traverser.Walks.{IsNamable, namable-name}
use symnav.Core.GraphResult.{unique_non_root_symbol_ids, count_paths, count_repeated_symbols}

-- Every symbol of the paths can be named.
abbrev pub IsNamablePaths : List GraphPath → Type 0
IsNamablePaths paths = All (λ path. All (λ s. IsNamable s.symbol) path) paths

abbrev pub IsOk {ℓ κ} : {E : Type ℓ} {A : Type κ} → Result E A → Type (ℓ ⊔ κ)
IsOk {A = A} r = (a : A) × (r ≡ ok a)

bind-IsOk :
    {E A B : Type 0} (r : Result E A) (f : A → Result E B)
    → IsOk r
    → ((a : A) → IsOk (f a))
    → IsOk (r >>= f)
bind-IsOk r f (a, e) next = rw e (next a)

names_found :
    (root_id : Text) (path : GraphPath) (names : List Text)
    → All (λ s. IsNamable s.symbol) path
    → IsOk (unique_non_root_symbol_ids root_id path names)
unfolding unique_non_root_symbol_ids
names_found root_id [] names h = (names, refl)
names_found root_id (s ∷ steps) names h =
    bind-IsOk (name_of s.symbol) _ (namable-name s.symbol h.0)
      (λ name. names_found root_id steps _ h.1)

paths_counted :
    (root_id : Text) (paths : List GraphPath) (counts : Map ℕ)
    → IsNamablePaths paths
    → IsOk (count_paths root_id paths counts)
unfolding count_paths
paths_counted root_id [] counts h = (counts, refl)
paths_counted root_id (path ∷ paths) counts h =
    bind-IsOk (unique_non_root_symbol_ids root_id path []) _ (names_found root_id path [] h.0)
      (λ names. paths_counted root_id paths _ h.1)

pub symbols_counted :
    (identity : SymbolIdentity) (paths : List GraphPath)
    → includes_separator identity.file ≡ false
    → IsNamablePaths paths
    → IsOk (count_repeated_symbols identity paths)
unfolding count_repeated_symbols format_symbol_identity
symbols_counted identity paths h hs =
    rw h (bind-IsOk (count_paths _ paths []) _ (paths_counted _ paths [] hs) (λ counts. (_, refl)))
