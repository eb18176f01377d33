-- ===== src/Daemon/Ledger.antt =====
-- packages/daemon/src/execution/accepted-request-ledger.ts: the requests that the daemon has
-- accepted, their states, and who is told of a change. A method that throws does so before it
-- writes, so it is a result; the subscribers' calls are returned as notices, in order.
pub mod Invariant
pub mod History
pub mod Acceptance
use symnav.Prelude.{
  ◌≡◌, ℕ, zero, suc, Bool, true, false, not, ◌&&◌, ◌||◌, Option, none, some, List, [], ◌∷◌, ◌++◌,
  map, Text, text_eq, Result, ok, err, ◌>>=◌, ◌>>◌, throw_if, any, length, get_elem?, filter,
  get_or, if◌then◌else◌, ◌==◌,
}
use symnav.Prelude.Map
use symnav.Prelude.Map.{Map}
use symnav.Daemon.Admission.{AcceptedRequestCompatibility, unseen, matching, conflicting}
use symnav.Daemon.Failures.{DaemonExecutionFailureCode, DaemonStateWriteFailure, code_text, code_of}
use symnav.Daemon.Request.{DaemonCommandName, DaemonExecutorRequest, Platform, fingerprint}

pub data AcceptedRequestState : Type 0 where
  queued : AcceptedRequestState
  running : ℕ → AcceptedRequestState
  -- the time of completion and the result's identifier
  completed : ℕ → Text → AcceptedRequestState
  failed : ℕ → DaemonExecutionFailureCode → Option DaemonStateWriteFailure → AcceptedRequestState

pub record AcceptedRequestEntry : Type 0 where
  pub request_id : Text
  pub request_fingerprint : Text
  pub command_name : DaemonCommandName
  pub request : DaemonExecutorRequest
  pub accepted_at : ℕ
  pub queue_position : ℕ
  pub state : AcceptedRequestState
  pub delivery_terminated : Bool

-- `acknowledged` is a set in order of insertion. A subscriber is a number, and a set of subscribers
-- is an object that closures share: `sets` are the objects, and `subscribers` maps a request to the
-- place of its object.
pub record AcceptedRequestLedger : Type 0 where
  pub entries : Map AcceptedRequestEntry
  pub subscribers : Map ℕ
  pub sets : List (List ℕ)
  pub acknowledged : List Text

pub data LedgerError : Type 0 where
  corruption : Text → LedgerError
  not_accepted : Text → LedgerError
  already : Text → AcceptedRequestState → LedgerError
  not_completed : Text → LedgerError
  not_terminal : Text → LedgerError
  invalid_failure_code : Text → LedgerError

abbrev pub Notice : Type 0
Notice = ℕ × AcceptedRequestEntry

-- What a transition gives: the ledger, the entry, and the subscribers that were called with it.
pub record Published : Type 0 where
  pub ledger : AcceptedRequestLedger
  pub entry : AcceptedRequestEntry
  pub notices : List Notice

abbrev pub empty : AcceptedRequestLedger
empty = record { entries = []; subscribers = []; sets = []; acknowledged = [] }

abbrev pub is_nonterminal : AcceptedRequestState → Bool
is_nonterminal queued = true
is_nonterminal (running t) = true
is_nonterminal (completed t r) = false
is_nonterminal (failed t c w) = false

abbrev pub is_completed : AcceptedRequestState → Bool
is_completed (completed t r) = true
is_completed _ = false

abbrev pub is_queued : AcceptedRequestState → Bool
is_queued queued = true
is_queued _ = false

abbrev pub has : Text → List Text → Bool
has k set = any (text_eq k) set

abbrev pub add : Text → List Text → List Text
add k set = if has k set then set else set ++ k ∷ []

unfoldable pub entry_for : Text → AcceptedRequestLedger → Option AcceptedRequestEntry
entry_for id l = Map.get id l.entries

unfoldable pub size : AcceptedRequestLedger → ℕ
size l = length l.entries

unacknowledged_completion : List Text → List AcceptedRequestEntry → Bool
unacknowledged_completion acknowledged [] = false
unacknowledged_completion acknowledged (e ∷ es) =
    is_completed e.state && not (has e.request_id acknowledged)
    || unacknowledged_completion acknowledged es

unfoldable pub has_unacknowledged_completions : AcceptedRequestLedger → Bool
unfolding unacknowledged_completion
has_unacknowledged_completions l = unacknowledged_completion l.acknowledged (Map.values l.entries)

count_nonterminal : List AcceptedRequestEntry → ℕ
count_nonterminal [] = 0
count_nonterminal (e ∷ es) =
    let rest = count_nonterminal es in if is_nonterminal e.state then suc rest else rest

unfoldable pub nonterminal_count : AcceptedRequestLedger → ℕ
unfolding count_nonterminal
nonterminal_count l = count_nonterminal (Map.values l.entries)

-- `entry(requestId)`, which throws for an unknown identifier.
unfoldable pub entry : Text → AcceptedRequestLedger → Result LedgerError AcceptedRequestEntry
unfolding entry_for
entry id l = elim (entry_for id l) [ none ↦ err (not_accepted id) | some e ↦ ok e ]

unfoldable pub transitionable :
    Text → AcceptedRequestLedger → Result LedgerError AcceptedRequestEntry
unfolding entry
transitionable id l = do
  e ← entry id l
  throw_if (not (is_nonterminal e.state)) (already id e.state)
  ok e

unfoldable pub write : AcceptedRequestEntry → AcceptedRequestLedger → AcceptedRequestLedger
write e l = record l { entries = Map.set e.request_id e l.entries }

abbrev pub set_at : ℕ → List (List ℕ) → List ℕ
set_at place sets = get_or (get_elem? sets place) []

abbrev pub put_at : ℕ → List ℕ → List (List ℕ) → List (List ℕ)
put_at place set [] = []
put_at zero set (x ∷ sets) = set ∷ sets
put_at (suc place) set (x ∷ sets) = x ∷ put_at place set sets

-- Those who are told of a change of a request.
unfoldable pub subscribers_of : Text → AcceptedRequestLedger → List ℕ
subscribers_of id l = elim (Map.get id l.subscribers) [
  | none ↦ []
  | some place ↦ set_at place l.sets
]

unfoldable pub publish : AcceptedRequestEntry → AcceptedRequestLedger → Published
unfolding write subscribers_of
publish e l = record {
  ledger = write e l;
  entry = e;
  notices = map (λ s. (s, e)) (subscribers_of e.request_id l);
}

assert_failure_code : Text → Result LedgerError DaemonExecutionFailureCode
assert_failure_code code = elim (code_of code) [
  | none ↦ err (invalid_failure_code code)
  | some c ↦ ok c
]

unfoldable pub mark_running : Text → ℕ → AcceptedRequestLedger → Result LedgerError Published
unfolding transitionable publish
mark_running id started_at l = do
  e ← transitionable id l
  throw_if (not (is_queued e.state)) (already id e.state)
  ok (publish (record e { state = running started_at }) l)

unfoldable pub complete : Text → Text → ℕ → AcceptedRequestLedger → Result LedgerError Published
unfolding transitionable publish
complete id result_id completed_at l = do
  e ← transitionable id l
  ok (publish (record e { state = completed completed_at result_id }) l)

unfoldable pub fail :
    Text
    → Text
    → ℕ
    → Option DaemonStateWriteFailure
    → AcceptedRequestLedger
    → Result LedgerError Published
unfolding transitionable publish assert_failure_code
fail id code completed_at write_failure l = do
  c ← assert_failure_code code
  e ← transitionable id l
  ok (publish (record e { state = failed completed_at c write_failure }) l)

abbrev failed_with : DaemonExecutionFailureCode → AcceptedRequestState → Bool
failed_with c (failed t d w) = text_eq (code_text d) (code_text c)
failed_with c _ = false

-- An entry that failed with the code already is returned as it is, and nobody is told.
unfoldable pub invalidate_completion :
    Text → Text → ℕ → AcceptedRequestLedger → Result LedgerError Published
unfolding entry publish assert_failure_code
invalidate_completion id code completed_at l = do
  c ← assert_failure_code code
  e ← entry id l
  if failed_with c e.state
      then ok (record { ledger = l; entry = e; notices = [] })
      else throw_if (not (is_completed e.state)) (not_completed id)
        >> ok (publish (record e { state = failed completed_at c none }) l)

unfoldable pub acknowledge : Text → AcceptedRequestLedger → Result LedgerError AcceptedRequestLedger
unfolding entry
acknowledge id l = do
  e ← entry id l
  throw_if (is_nonterminal e.state) (not_terminal id)
  ok (record l { acknowledged = add id l.acknowledged })

unfoldable pub is_acknowledged : Text → AcceptedRequestLedger → Bool
is_acknowledged id l = has id l.acknowledged

unfoldable pub terminate_delivery :
    Text → AcceptedRequestLedger → Result LedgerError (AcceptedRequestLedger × Bool)
unfolding entry
terminate_delivery id l = do
  e ← entry id l
  if e.delivery_terminated
      then ok (l, false)
      else ok (
        record l { entries = Map.set id (record e { delivery_terminated = true }) l.entries },
        true,
      )

unfoldable pub is_delivery_terminated : Text → AcceptedRequestLedger → Result LedgerError Bool
unfolding entry
is_delivery_terminated id l = do e ← entry id l; ok e.delivery_terminated

pub data DaemonExecutionStatus : Type 0 where
  unknown : DaemonExecutionStatus
  queued : ℕ → DaemonExecutionStatus
  running : ℕ → DaemonExecutionStatus
  completed : DaemonExecutionStatus
  failed : DaemonExecutionFailureCode → DaemonExecutionStatus

abbrev status_of : ℕ → AcceptedRequestState → DaemonExecutionStatus
status_of position AcceptedRequestState.queued = DaemonExecutionStatus.queued position
status_of position (AcceptedRequestState.running t) = DaemonExecutionStatus.running t
status_of position (AcceptedRequestState.completed t r) = DaemonExecutionStatus.completed
status_of position (AcceptedRequestState.failed t c w) = DaemonExecutionStatus.failed c

unfoldable pub status : Text → AcceptedRequestLedger → DaemonExecutionStatus
unfolding entry_for
status id l = elim (entry_for id l) [
  | none ↦ DaemonExecutionStatus.unknown
  | some e ↦ status_of e.queue_position e.state
]

abbrev has_subscriber : ℕ → List ℕ → Bool
has_subscriber s set = any (λ t. s == t) set

abbrev add_subscriber : ℕ → List ℕ → List ℕ
add_subscriber s set = if has_subscriber s set then set else set ++ s ∷ []

-- What the function that `subscribe` returns has captured.
pub record Subscription : Type 0 where
  pub request_id : Text
  pub place : ℕ
  pub subscriber : ℕ

-- The set of a request, made if there is none.
with_set : Text → AcceptedRequestLedger → AcceptedRequestLedger × ℕ
with_set id l = elim (Map.get id l.subscribers) [
  | none ↦ (
    record l { subscribers = Map.set id (length l.sets) l.subscribers; sets = l.sets ++ [] ∷ [] },
    length l.sets,
  )
  | some place ↦ (l, place)
]

-- The subscriber is called at once with the entry as it stands.
unfoldable pub subscribe :
    Text → ℕ → AcceptedRequestLedger → Result LedgerError (Published × Subscription)
unfolding entry with_set
subscribe id s l = do
  e ← entry id l
  let (l', place) = with_set id l
  ok (
    record {
      ledger = record l' { sets = put_at place (add_subscriber s (set_at place l'.sets)) l'.sets };
      entry = e;
      notices = (s, e) ∷ [];
    },
    record { request_id = id; place = place; subscriber = s },
  )

abbrev is_empty : List ℕ → Bool
is_empty [] = true
is_empty (x ∷ xs) = false

-- The set that was captured loses the subscriber; if it is empty now, the request loses the set
-- that it has.
unfoldable pub unsubscribe : Subscription → AcceptedRequestLedger → AcceptedRequestLedger
unsubscribe c l =
    let rest = filter (λ t. not (c.subscriber == t)) (set_at c.place l.sets) in
    let l' = record l { sets = put_at c.place rest l.sets } in
    if is_empty rest then record l' { subscribers = Map.delete c.request_id l'.subscribers } else l'

module _ (platform : Platform) (now : ℕ) where
  unfoldable pub compatibility_for :
      Text
      → DaemonCommandName
      → DaemonExecutorRequest
      → AcceptedRequestLedger
      → AcceptedRequestCompatibility
  unfolding entry_for
  compatibility_for id name request l = elim (entry_for id l) [
    | none ↦ unseen
    | some e ↦
        if text_eq e.request_fingerprint (fingerprint platform name request)
        then matching
        else conflicting
  ]

  new_entry :
      Text
      → DaemonCommandName
      → DaemonExecutorRequest
      → AcceptedRequestLedger
      → AcceptedRequestEntry
  unfolding nonterminal_count
  new_entry id name request l = record {
    request_id = id;
    request_fingerprint = fingerprint platform name request;
    command_name = name;
    request = request;
    accepted_at = now;
    queue_position = nonterminal_count l;
    state = AcceptedRequestState.queued;
    delivery_terminated = false;
  }

  -- A request that was accepted before is answered by its entry, if the payload is the same.
  unfoldable pub accept :
      Text
      → DaemonCommandName
      → DaemonExecutorRequest
      → AcceptedRequestLedger
      → Result LedgerError (AcceptedRequestLedger × AcceptedRequestEntry)
  unfolding entry_for new_entry write
  accept id name request l = elim (entry_for id l) [
    | none ↦ ok (write (new_entry id name request l) l, new_entry id name request l)
    | some e ↦
        if text_eq e.request_fingerprint (fingerprint platform name request)
        then ok (l, e)
        else err (corruption id)
  ]
