-- ===== src/Scenarios/Backends.antt =====
-- A backend with one file of one function: it is read for the first time, and asked for.
use symnav.Prelude.{
  ◌≡◌, refl, ℕ, none, List, [], ◌∷◌, Text, text, text_eq, All, Result, ok, err, if◌then◌else◌,
}
use symnav.Prelude.Map
use symnav.Core.Identity.{callable}
use symnav.Core.Segment.{format_symbol_identity}
use symnav.Core.Overview.{
  SymbolOverviewNode, symbol_overview_node, symbol_node, leaf, node, identity_of,
}
use symnav.Core.Backend.{
  FileMetadata, WorkspaceFile, workspace, BackendError, passed_on, RevisionedBackendPreparedFile,
  RevisionedBackendFileChange, RevisionedBackendPreparation, RevisionedBackendPreparationRequest,
  RevisionedBackendIndex,
}
use symnav.Core.Backend.Building.{empty_index}
use symnav.Core.Backend.Refresh.{refresh, declarations}
use symnav.Core.Backend.Invariant.{IsValid, GivesObjects}
use symnav.Core.Backend.View.{view_of, refreshed}
use symnav.Core.Backend.Revisions.{refresh-Refreshes}
use symnav.Core.Backend.Ensured.{Answers, declarations-Answers}

abbrev app : WorkspaceFile
app = record {
  relative = text "src/app.ts";
  absolute = text "/work/src/app.ts";
  metadata = record {
    size = 20;
    modified_at_ms = 5;
    change_token = text "5:20";
    file_identity = none;
  };
}

abbrev main : SymbolOverviewNode
main =
    symbol_overview_node (record { start_line = 1; end_line = 3 })
      (record { start_line = 1; lines = [] })
      (record {
        file = text "src/app.ts";
        segments = record { name = text "main"; disambiguator = none } ∷ [];
      })
      (record { role = callable; native_label = text "function" }) leaf

abbrev prepared_app : RevisionedBackendPreparedFile ℕ
prepared_app = record {
  object = 1;
  file = app;
  details = 0;
  entries = record {
    file = text "src/app.ts";
    entries = node (symbol_node main) leaf;
    diagnostics = none;
  };
}

abbrev prepared_for : List (RevisionedBackendFileChange ℕ) → List (RevisionedBackendPreparedFile ℕ)
prepared_for [] = []
prepared_for (change ∷ changes) = prepared_app ∷ []

-- The compiler prepares the one file whenever it has changed.
abbrev compiler : RevisionedBackendPreparationRequest ℕ → RevisionedBackendPreparation ℕ
compiler request = record {
  prepare = ok (prepared_for request.changes);
  commit = ok tt;
  rollback = ok tt;
}

abbrev objects : ℕ → RevisionedBackendPreparedFile ℕ
objects reference = prepared_app

compiler-GivesObjects : GivesObjects objects compiler
compiler-GivesObjects request = of_changes request.changes
  where
    of_changes :
        (changes : List (RevisionedBackendFileChange ℕ))
        → All (λ p. prepared_app ≡ p) (prepared_for changes)
    of_changes [] = tt
    of_changes (change ∷ changes) = (refl, tt)

abbrev initial : RevisionedBackendIndex ℕ
initial = empty_index []

initial-IsValid : IsValid objects initial
unfolding Map.get
initial-IsValid = (tt, tt, ((λ path. refl), (λ path. refl), (λ key. refl), (λ absolute. refl)))

refresh-Refreshes_example :
    view_of (refresh compiler (app ∷ []) workspace initial).1 (text "src/app.ts")
    ≡ refreshed (app ∷ []) workspace (view_of initial) (text "src/app.ts")
unfolding refresh Map.set Map.get text_eq format_symbol_identity identity_of
refresh-Refreshes_example =
    refresh-Refreshes compiler (app ∷ []) workspace initial (text "src/app.ts") tt

abbrev read_metadata : Text → Result BackendError FileMetadata
read_metadata path =
    if text_eq path app.absolute then ok app.metadata else err (passed_on (text "no such file"))

declarations-Answers_example :
    Answers objects (record { relative = app.relative; absolute = app.absolute } ∷ []) (
      declarations read_metadata compiler
        (record { relative = app.relative; absolute = app.absolute } ∷ [])
        initial)
declarations-Answers_example =
    declarations-Answers objects read_metadata compiler compiler-GivesObjects
      (record { relative = app.relative; absolute = app.absolute } ∷ []) initial initial-IsValid
