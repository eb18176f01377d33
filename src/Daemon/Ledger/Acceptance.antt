-- ===== src/Daemon/Ledger/Acceptance.antt =====
-- `accept` against `compatibilityFor`, and against what was accepted before.
use symnav.Prelude.{◌≡◌, ◌↔◌, ℕ, arith, Text, err}
use symnav.Prelude.Map
use symnav.Daemon.Admission.{conflicting}
use symnav.Daemon.Request.{DaemonCommandName, DaemonExecutorRequest, Platform}
use symnav.Daemon.Ledger.{AcceptedRequestLedger, corruption, compatibility_for, accept}

module _ (platform : Platform) (id : Text) (name : DaemonCommandName)
    (request : DaemonExecutorRequest) where
  -- `accept` throws exactly for what `compatibilityFor` calls conflicting.
  pub accept_conflicting :
      (now : ℕ) (l : AcceptedRequestLedger)
      → (compatibility_for platform now id name request l ≡ conflicting)
        ↔ (accept platform now id name request l ≡ err (corruption id))
  unfolding accept compatibility_for
  accept_conflicting now l = ground arith
