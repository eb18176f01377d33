-- ===== src/Core/Diagnostic.antt =====
-- packages/core/src/diagnostics/navigation-diagnostic.ts: a warning, and the sink that keeps the first
-- of those with one key.
use symnav.Prelude.{List, [], ◌∷◌, ◌++◌, Text, text_eq, any, if◌then◌else◌}

-- The one severity is a warning.
pub record NavigationDiagnostic : Type 0 where
  pub message : Text
  pub dedupe_key : Text

pub record CollectingDiagnosticSink : Type 0 where
  pub collected : List NavigationDiagnostic
  pub dedupe_keys : List Text

unfoldable pub report : NavigationDiagnostic → CollectingDiagnosticSink → CollectingDiagnosticSink
report diagnostic sink =
    if any (text_eq diagnostic.dedupe_key) sink.dedupe_keys then sink else record {
      collected = sink.collected ++ diagnostic ∷ [];
      dedupe_keys = sink.dedupe_keys ++ diagnostic.dedupe_key ∷ [];
    }
