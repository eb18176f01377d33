-- ===== src/Scenarios/Navigation.antt =====
-- Symbols, targets, call paths and pages on a small program: `main` calls `run`, which calls `main`.
use symnav.Prelude.{
  ◌≡◌, refl, ℕ, ◌≤◌, Bool, true, false, ◌↔◌, ◌+◌, none, some, List, [], ◌∷◌, arith, Text, text,
  text_eq, length, All, ok, err,
}
use symnav.Core.Identity.{SymbolPathSegment, SymbolIdentity, callable, certain}
use symnav.Core.Segment.{
  SegmentParse, parsed, hash, last_index_of, format, format_symbol_identity, includes_separator,
}
use symnav.Core.Segment
use symnav.Core.Segment.Roundtrip.{parse-format}
use symnav.Core.Target.{SymbolTargetPattern, slash, looks_like_file, matches}
use symnav.Core.Target
use symnav.Core.Target.Matching.{Selects, matches_iff}
use symnav.Core.Target.Printed.{IsPrintable, printed, pattern_of, parse-printed}
use symnav.Core.Expander.{OverviewExpansionRequest, expand}
use symnav.Core.Expander.Depths.{IsTrimmed, expand-IsTrimmed}
use symnav.Core.Resolver.{SymbolTargetRequest, regular, OwnedCandidate, ResolverSurroundings}
use symnav.Core.Resolver.Choosing.{on_line, choose}
use symnav.Core.Resolver.Choice.{Decides, choose-Decides}
use symnav.Core.Disambiguators.{assign_disambiguators}
use symnav.Core.Disambiguators.Stamping.{HavePaths}
use symnav.Core.Disambiguators.Scopes.{
  AreUnambiguous, own_names, assign_disambiguators-AreUnambiguous,
}
use symnav.Core.Overview.{
  Nodes, node, symbol_node, fold_node, SymbolOverviewNode, OverviewFileEntries,
  symbol_overview_node, leaf, own_name, scope_symbols, identity_of, CallEdge,
}
use symnav.Core.Traverser.{GraphPath, EdgeFinder, name_of, traverse, to_graph_path_step}
use symnav.Core.Traverser.Walks.{GivesNamable, IsNamable, Walk}
use symnav.Core.Traverser.Paths.{traverse-Walk}
use symnav.Core.Pagination.{whole, page_out_of_range, page_count_of, paginate}
use symnav.Core.GraphResult.{
  BuildGraphResultArgs, both, invalid_page, direction_pages, page_count, build,
}
use symnav.Core.GraphResult.Pages.{on_page, incoming_of, outgoing_of, first_pages, build-page_count}
use symnav.Core.Pagination.Pages.{request, pages, pages-page_count}

abbrev save : SymbolPathSegment
save = record { name = text "save"; disambiguator = some 2 }

parse-format_example : Segment.parse (format save) ≡ parsed save
parse-format_example = parse-format save ((λ e. ground arith), (omega arith, omega arith))

abbrev store : SymbolPathSegment
store = record { name = text "Store"; disambiguator = none }

abbrev store_save : SymbolIdentity
store_save = record { file = text "src/store.ts"; segments = store ∷ save ∷ [] }

abbrev save_pattern : SymbolTargetPattern
save_pattern = record {
  raw = text "save";
  file_suffix = none;
  segment_suffix = record { name = text "save"; disambiguator = none } ∷ [];
}

matches_iff_example :
    (matches save_pattern store_save ≡ true)
    ↔ Selects save_pattern.file_suffix save_pattern.segment_suffix store_save
matches_iff_example = matches_iff save_pattern store_save

store_save-IsPrintable : IsPrintable store_save
unfolding looks_like_file last_index_of
store_save-IsPrintable = (refl, ground arith, (λ e. ground arith), ground arith)

parse-printed_example :
    (format_symbol_identity store_save ≡ ok (printed store_save))
    × (Target.parse (printed store_save) ≡ ok (pattern_of store_save))
parse-printed_example = parse-printed store_save store_save-IsPrintable

abbrev function_of : Text → SymbolOverviewNode
function_of name =
    symbol_overview_node (record { start_line = 1; end_line = 3 })
      (record { start_line = 1; lines = [] })
      (record {
        file = text "src/app.ts";
        segments = record { name = name; disambiguator = none } ∷ [];
      })
      (record { role = callable; native_label = text "function" }) leaf

abbrev calls : Text → CallEdge
calls name = record { symbol = function_of name; sites = []; confidence = certain; reason = none }

abbrev edges_of_name : List SymbolPathSegment → List CallEdge
edges_of_name [] = []
edges_of_name (s ∷ segments) = elim (text_eq s.name (text "main")) [
  | true ↦ calls (text "run") ∷ []
  | false ↦ calls (text "main") ∷ []
]

abbrev callees : EdgeFinder
callees identity = edges_of_name identity.segments

callees-GivesNamable : GivesNamable callees
callees-GivesNamable identity = of_segments identity.segments
  where
    of_segments :
        (segments : List SymbolPathSegment) → All (λ e. IsNamable e.symbol) (edges_of_name segments)
    of_segments [] = tt
    of_segments (s ∷ segments) = of_name (text_eq s.name (text "main"))
      where
        of_name :
            (b : Bool)
            → All
                (λ e. IsNamable e.symbol)
                (elim b [ true ↦ calls (text "run") ∷ [] | false ↦ calls (text "main") ∷ [] ])
        of_name true = unfold includes_separator identity_of in (refl, tt)
        of_name false = unfold includes_separator identity_of in (refl, tt)

traverse-Walk_example :
    (name : Text) × (paths : List GraphPath) × (name_of (function_of (text "main")) ≡ ok name)
    × (traverse callees 5 (function_of (text "main")) ≡ ok paths)
    × All (λ path. Walk callees name (name ∷ []) path × (length path ≤ 5)) paths
traverse-Walk_example =
    traverse-Walk callees 5 (function_of (text "main")) callees-GivesNamable
      (unfold includes_separator identity_of in refl)

abbrev seven : List ℕ
seven = 1 ∷ 2 ∷ 3 ∷ 4 ∷ 5 ∷ 6 ∷ 7 ∷ []

pages-page_count_example :
    (pages (page_count_of 7 3) 3 seven ≡ seven)
    × (paginate (request 4 3) seven ≡ err (page_out_of_range 4 3))
unfolding page_count_of
pages-page_count_example = pages-page_count 3 seven (omega arith)

abbrev path_to : Text → GraphPath
path_to name = to_graph_path_step (calls name) false ∷ []

-- Three paths in and one path out, on pages of three paths: two in and one out on the first.
abbrev graph : BuildGraphResultArgs
graph = record {
  identity = record {
    file = text "src/app.ts";
    segments = record { name = text "main"; disambiguator = none } ∷ [];
  };
  root = function_of (text "main");
  depth = 2;
  direction = both;
  incoming_paths = path_to (text "run") ∷ path_to (text "stop") ∷ path_to (text "run") ∷ [];
  outgoing_paths = path_to (text "run") ∷ [];
  page_request = record { page = none; page_size = none; all = false };
}

build-page_count_example :
    (first_pages incoming_of graph 3 2 ≡ graph.incoming_paths)
    × (first_pages outgoing_of graph 3 2 ≡ graph.outgoing_paths)
    × (build (on_page graph 3 3) ≡ err (invalid_page (page_out_of_range 3 2)))
    × (length (incoming_of (build (on_page graph 3 1)))
          + length (outgoing_of (build (on_page graph 3 1)))
        ≤ 3)
unfolding page_count direction_pages includes_separator identity_of to_graph_path_step
build-page_count_example =
    build-page_count graph 3 (omega arith) refl ((refl, tt), ((refl, tt), ((refl, tt), tt)))
      ((refl, tt), tt) 0

-- Two functions of one name, one of them in a fold.
abbrev overloads : Nodes
overloads = node (symbol_node (function_of (text "run"))) (
    node
      (fold_node (record { start_line = 4; end_line = 6 }) (record { start_line = 4; lines = [] })
        (text "block") none (node (symbol_node (function_of (text "run"))) leaf))
      leaf)

assign_disambiguators-AreUnambiguous_example :
    AreUnambiguous (assign_disambiguators overloads)
    × (own_names (assign_disambiguators overloads) ≡ text "run" ∷ text "run" ∷ [])
unfolding HavePaths own_name scope_symbols
assign_disambiguators-AreUnambiguous_example =
    assign_disambiguators-AreUnambiguous overloads ((tt, tt), ((((tt, tt)), tt), tt))

-- Two overloads of `save`.
abbrev overload : ℕ → OwnedCandidate
overload n = record {
  candidate = record {
    symbol =
        symbol_overview_node (record { start_line = n; end_line = n })
          (record { start_line = n; lines = [] })
          (record {
            file = text "src/store.ts";
            segments = store ∷ record { name = text "save"; disambiguator = some n } ∷ [];
          })
          (record { role = callable; native_label = text "method" }) leaf;
    canonical_id = text "save";
    header = record { start_line = n; lines = [] };
  };
  backend = 0;
}

abbrev one_backend : ResolverSurroundings
one_backend = record {
  enumerate = ok [];
  resolve_input_path = λ path. ok tt;
  backends = [];
  compile_regex = λ raw. ok (λ t. true);
  locale_before = λ a b. false;
}

abbrev save_request : SymbolTargetRequest
save_request = regular (text "save") save_pattern

abbrev overloads_of_save : List OwnedCandidate
overloads_of_save = overload 1 ∷ overload 2 ∷ []

choose-Decides_example :
    Decides save_request none [] overloads_of_save
      (on_line none overloads_of_save)
      (choose one_backend save_request none [] overloads_of_save)
unfolding includes_separator identity_of
choose-Decides_example =
    choose-Decides one_backend save_request none [] overloads_of_save (refl, (refl, tt))

-- A function in a block, of which the outer level is asked for.
abbrev app_overview : OverviewFileEntries
app_overview = record { file = text "src/app.ts"; entries = overloads; diagnostics = none }

abbrev outer_level : OverviewExpansionRequest
outer_level = record { depth = whole 0; at = none; line = none }

expand-IsTrimmed_example : IsTrimmed app_overview outer_level (expand app_overview outer_level)
expand-IsTrimmed_example = expand-IsTrimmed app_overview outer_level
