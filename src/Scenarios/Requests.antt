-- ===== src/Scenarios/Requests.antt =====
-- Requests for execution: their admission, the ledger of those that were accepted, and the queue.
use symnav.Prelude.{
  ◌≡◌, ◌≢◌, refl, true, false, ◌↔◌, none, some, [], ◌∷◌, ◌++◌, arith, Text, text, text_lt, text_eq,
  text_eq_iff, ok, err,
}
use symnav.Prelude.Map
use symnav.Daemon.Admission.{
  DaemonAdmissionContext, DaemonExecutionCoordinates, accept, accepting, closed, conflicting,
  DaemonExecuteRejectionCode, DaemonRejectedExecutionFrame, frame, decide, assert_consistent,
  decide-accept, assert_consistent-frame,
}
use symnav.Daemon.Request.{
  refs, DaemonExecutorRequest, warm, Value, Items, Fields, Platform, fingerprint, undefined, null,
  boolean, number, other_number, string, array, object, no_items, one_item, no_fields, field,
}
use symnav.Daemon.Ledger.{
  AcceptedRequestEntry, AcceptedRequestState, AcceptedRequestLedger, LedgerError, corruption, empty,
  entry_for, compatibility_for, has,
}
use symnav.Daemon.Ledger
use symnav.Daemon.Ledger.History.{
  Operation, accept_request, start, abort, confirm, run, Moves, IsKeyed, run-Moves,
}
use symnav.Daemon.Ledger.Invariant.{IsValid, run-IsValid, Evolves, run_all, run_all-Evolves}
use symnav.Daemon.Ledger.Acceptance.{accept_conflicting}
use symnav.Daemon.Queue.{
  WorkspaceQueuedRequest, WorkspaceRequestQueue, enqueues, drains, settles, continues,
  closes_drained, is_refused, new, enqueue, step, run_inputs, is_idle,
}
use symnav.Daemon.Queue.Fifo.{
  admitted_of, started_of, has_order_change, new-IsValid, step-IsValid, run_inputs-fifo,
}
use symnav.Daemon.Queue.Fifo
use symnav.Daemon.Queue.Draining.{remaining, rounds, drain_completes}

abbrev stranger : DaemonAdmissionContext
stranger = record {
  authenticated = false;
  worker_ready = true;
  resource_admission_paused = true;
  queue_state = accepting;
  compatibility = conflicting;
}

decide-accept_example : (decide stranger ≡ accept) ↔ (
    (stranger.authenticated ≡ true)
    × (stranger.worker_ready ≡ true)
    × (stranger.resource_admission_paused ≡ false)
    × (stranger.queue_state ≡ accepting)
    × (stranger.compatibility ≢ conflicting))
decide-accept_example = decide-accept stranger

abbrev coordinates : DaemonExecutionCoordinates
coordinates = record {
  instance_id = text "daemon-1";
  process_token = text "token";
  request_id = text "r1";
}

-- A rejection that may be retried, and whose code is none.
abbrev unknown_rejection : DaemonRejectedExecutionFrame
unknown_rejection = record { coordinates = coordinates; code = text "busy"; retry_safe = true }

assert_consistent-frame_example : (assert_consistent unknown_rejection ≡ ok tt) ↔ (
    (code : DaemonExecuteRejectionCode) × (at : DaemonExecutionCoordinates) × (unknown_rejection
      ≡ frame code at))
assert_consistent-frame_example = assert_consistent-frame unknown_rejection

-- A spelling that stands for the digest of the platform.
unfoldable mutual
  spell : Value → Text
  spell undefined = text "u"
  spell null = text "n"
  spell (boolean true) = text "t"
  spell (boolean false) = text "f"
  spell (number n) = n ∷ []
  spell (other_number s) = text "o" ++ s
  spell (string s) = text "s" ++ s
  spell (array items) = text "a" ++ spell_items items
  spell (object fields) = text "b" ++ spell_fields fields

  spell_items : Items → Text
  spell_items no_items = text ";"
  spell_items (one_item v items) = spell v ++ spell_items items

  spell_fields : Fields → Text
  spell_fields no_fields = text ";"
  spell_fields (field k v rest) = k ++ spell v ++ spell_fields rest

abbrev platform : Platform
platform = record { locale_before = text_lt; digest = spell }

abbrev request : DaemonExecutorRequest
request = record {
  argv = text "refs" ∷ text "save" ∷ [];
  cwd = text "/work";
  telemetry_enabled = false;
  execution_mode = warm;
}

empty-IsValid : IsValid empty
empty-IsValid = record {
  keyed = λ k e h. absurd (unfold entry_for Map.get in ground (arith, h));
  acknowledged_ended = λ k h. absurd (ground (arith, h));
}

abbrev accepts : Operation
accepts = accept_request 10 (text "r1") refs request

abbrev accepted : AcceptedRequestLedger
accepted = run platform accepts empty

accepted-IsValid : IsValid accepted
accepted-IsValid = run-IsValid platform accepts empty empty-IsValid

run-IsValid_example : IsValid (run platform (confirm (text "r1")) accepted)
run-IsValid_example = run-IsValid platform (confirm (text "r1")) accepted accepted-IsValid

run-Moves_example :
    Moves
      (text "r1")
      (entry_for (text "r1") accepted)
      (entry_for (text "r1") (run platform (start (text "r1") 12) accepted))
run-Moves_example =
    run-Moves platform (start (text "r1") 12) accepted (text "r1") accepted-IsValid.keyed

abbrev first_entry : AcceptedRequestEntry
first_entry = record {
  request_id = text "r1";
  request_fingerprint = fingerprint platform refs request;
  command_name = refs;
  request = request;
  accepted_at = 10;
  queue_position = 0;
  state = AcceptedRequestState.queued;
  delivery_terminated = false;
}

abbrev holding : AcceptedRequestLedger
holding = record empty { entries = (text "r1", first_entry) ∷ [] }

holding-IsKeyed : IsKeyed holding
unfolding entry_for Map.get
holding-IsKeyed k e h = ground (arith, text_eq_iff (text "r1") k, h)

run_all-Evolves_example :
    (e : AcceptedRequestEntry) × (entry_for (text "r1") (
        run_all platform
          (start (text "r1") 12
            ∷ abort (text "r1") (text "internal") 20 none
            ∷ confirm (text "r1")
            ∷ [])
          holding)
      ≡ some e)
    × Evolves first_entry e
unfolding entry_for Map.get text_eq
run_all-Evolves_example =
    run_all-Evolves platform
      (start (text "r1") 12
        ∷ abort (text "r1") (text "internal") 20 none
        ∷ confirm (text "r1")
        ∷ [])
      holding (text "r1") first_entry holding-IsKeyed refl

abbrev other_request : DaemonExecutorRequest
other_request = record request { cwd = text "/elsewhere" }

accept_conflicting_example :
    (compatibility_for platform 30 (text "r1") refs other_request holding ≡ conflicting) ↔ (
      Ledger.accept platform 30 (text "r1") refs other_request holding
      ≡ err (corruption (text "r1")))
accept_conflicting_example = accept_conflicting platform (text "r1") refs other_request 30 holding

-- The ledger after the first request has started.
abbrev after_start : AcceptedRequestLedger
after_start = run_all platform (start (text "r1") 12 ∷ []) holding

abbrev refs_of : Text → WorkspaceQueuedRequest
refs_of id = record { request_id = id; command = refs; accepted_at = 10 }

-- Two requests, one of which runs.
abbrev busy : WorkspaceRequestQueue
busy = (step (enqueues 2 (refs_of (text "r2"))) (step (enqueues 1 (refs_of (text "r1"))) new).0).0

busy-IsValid : Fifo.IsValid busy
busy-IsValid =
    step-IsValid (enqueues 2 (refs_of (text "r2"))) (step (enqueues 1 (refs_of (text "r1"))) new).0
      (step-IsValid (enqueues 1 (refs_of (text "r1"))) new new-IsValid)

step-IsValid_example : Fifo.IsValid (step settles busy).0
step-IsValid_example = step-IsValid settles busy busy-IsValid

run_inputs-fifo_example :
    (admitted_of (run_inputs (enqueues 1 (refs_of (text "r1")) ∷ settles ∷ continues 4 ∷ []) new).1
      ≡ started_of
          (run_inputs (enqueues 1 (refs_of (text "r1")) ∷ settles ∷ continues 4 ∷ []) new).1
        ++ (run_inputs
            (enqueues 1 (refs_of (text "r1")) ∷ settles ∷ continues 4 ∷ [])
            new).0.admitted)
    × (has_order_change
          (run_inputs (enqueues 1 (refs_of (text "r1")) ∷ settles ∷ continues 4 ∷ []) new).1
        ≡ false)
run_inputs-fifo_example =
    run_inputs-fifo (enqueues 1 (refs_of (text "r1")) ∷ settles ∷ continues 4 ∷ [])

drain_completes_example :
    let d = (step drains busy).0 in
    let r = (run_inputs (rounds 9 (remaining busy)) d).0 in
    (enqueue 9 (refs_of (text "r3")) d ≡ (d, is_refused (refs_of (text "r3")) d.current_state ∷ []))
    × (is_idle r ≡ true)
    × ((step closes_drained r).0.current_state ≡ closed)
drain_completes_example = drain_completes 9 busy (refs_of (text "r3")) busy-IsValid
