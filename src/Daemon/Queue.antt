-- ===== src/Daemon/Queue.antt =====
-- packages/daemon/src/execution/request-queue.ts: one request at a time, in the order of admission,
-- with operations at the boundaries between turns.
--
-- The class is a loop, `run`, that waits for promises. Its state between two waits is `loop`, and
-- what happens from one wait to the next is one input: a call of a method, the settling of what the
-- loop waits for, or the continuation after it. An operation of the queue is the closure that
-- `enqueue` made, which holds its metadata; what `execute` does is the environment's.
pub mod Fifo
pub mod Draining
use symnav.Prelude.{
  ◌≡◌, ℕ, zero, suc, ◌+◌, Bool, true, false, not, ◌&&◌, Option, none, some, List, [], ◌∷◌, ◌++◌,
  Text, text_eq, length, is_some, if◌then◌else◌, ◌==◌,
}
use symnav.Daemon.Admission.{WorkspaceRequestQueueState, accepting, draining, closed}
use symnav.Daemon.Request.{DaemonCommandName}

pub record WorkspaceQueuedRequest : Type 0 where
  pub request_id : Text
  pub command : DaemonCommandName
  pub accepted_at : ℕ

pub record WorkspaceActiveRequest : Type 0 where
  pub request : WorkspaceQueuedRequest
  pub started_at : ℕ

-- Where the loop stands: it is not running, it waits for a turn or for a boundary operation, or it
-- is about to look for the next.
pub data Loop : Type 0 where
  stopped turn between : Loop
  boundary : ℕ → Loop

-- A boundary is an object; its number is its identity. `resumed` counts the calls of `drain` whose
-- wait is over and which have still to close the queue.
pub record WorkspaceRequestQueue : Type 0 where
  pub admitted : List WorkspaceQueuedRequest
  pub request_operations : List WorkspaceQueuedRequest
  pub idle_waiters : ℕ
  pub resumed : ℕ
  pub active_request : Option WorkspaceActiveRequest
  pub scheduled_boundary : Option ℕ
  pub loop : Loop
  pub current_state : WorkspaceRequestQueueState

abbrev pub new : WorkspaceRequestQueue
new = record {
  admitted = [];
  request_operations = [];
  idle_waiters = 0;
  resumed = 0;
  active_request = none;
  scheduled_boundary = none;
  loop = stopped;
  current_state = accepting;
}

-- What a caller or the environment sees of an input.
pub data Event : Type 0 where
  is_admitted : WorkspaceQueuedRequest → Event
  is_refused : WorkspaceQueuedRequest → WorkspaceRequestQueueState → Event
  is_started : WorkspaceQueuedRequest → Event
  order_changed : WorkspaceQueuedRequest → Event
  boundary_started : ℕ → Event
  boundary_joined : ℕ → Event
  boundary_settled : ℕ → Event

abbrev is_stopped : Loop → Bool
is_stopped stopped = true
is_stopped _ = false

abbrev is_accepting : WorkspaceRequestQueueState → Bool
is_accepting accepting = true
is_accepting _ = false

abbrev is_closed : WorkspaceRequestQueueState → Bool
is_closed closed = true
is_closed _ = false

abbrev no_requests : List WorkspaceQueuedRequest → Bool
no_requests [] = true
no_requests (m ∷ ms) = false

unfoldable pub is_idle : WorkspaceRequestQueue → Bool
is_idle q =
    not (is_some q.active_request) && no_requests q.admitted && not (is_some q.scheduled_boundary)

-- The closure of `enqueue`: it takes the first admitted request, which has to be its own.
begin_turn :
    ℕ
    → WorkspaceQueuedRequest
    → List WorkspaceQueuedRequest
    → WorkspaceRequestQueue
    → WorkspaceRequestQueue × List Event
begin_turn now m [] q = (record q { loop = between }, order_changed m ∷ [])
begin_turn now m (first ∷ rest) q =
    if text_eq first.request_id m.request_id
    then (
      record q {
        admitted = rest;
        active_request = some (record { request = first; started_at = now });
        loop = turn;
      },
      is_started first ∷ [],
    )
    else (record q { admitted = rest; loop = between }, order_changed m ∷ [])

-- The end of the loop: everyone who waits for an idle queue goes on.
finish_loop : WorkspaceRequestQueue → WorkspaceRequestQueue
finish_loop q = record q { loop = stopped; idle_waiters = 0; resumed = q.resumed + q.idle_waiters }

next_request :
    ℕ → List WorkspaceQueuedRequest → WorkspaceRequestQueue → WorkspaceRequestQueue × List Event
unfolding begin_turn finish_loop
next_request now [] q = (finish_loop q, [])
next_request now (m ∷ ms) q = begin_turn now m q.admitted (record q { request_operations = ms })

-- One round of the `while`: a scheduled boundary goes before a request.
next_round : ℕ → Option ℕ → WorkspaceRequestQueue → WorkspaceRequestQueue × List Event
unfolding next_request
next_round now (some b) q = (record q { loop = boundary b }, boundary_started b ∷ [])
next_round now none q = next_request now q.request_operations q

iterate : ℕ → WorkspaceRequestQueue → WorkspaceRequestQueue × List Event
unfolding next_round
iterate now q = next_round now q.scheduled_boundary q

unfoldable pub run : ℕ → WorkspaceRequestQueue → WorkspaceRequestQueue × List Event
unfolding iterate
run now q = if is_stopped q.loop then iterate now q else (q, [])

unfoldable pub enqueue :
    ℕ → WorkspaceQueuedRequest → WorkspaceRequestQueue → WorkspaceRequestQueue × List Event
unfolding run
enqueue now m q =
    if not (is_accepting q.current_state)
    then (q, is_refused m q.current_state ∷ [])
    else let (q', events) = run now (record q {
      admitted = q.admitted ++ m ∷ [];
      request_operations = q.request_operations ++ m ∷ [];
    }) in
      (q', is_admitted m ∷ events)

-- While a boundary is scheduled, a second one joins it and its operation is not run.
schedule : ℕ → ℕ → Option ℕ → WorkspaceRequestQueue → WorkspaceRequestQueue × List Event
unfolding run
schedule now b (some c) q = (q, boundary_joined c ∷ [])
schedule now b none q = run now (record q { scheduled_boundary = some b })

unfoldable pub schedule_at_turn_boundary :
    ℕ → ℕ → WorkspaceRequestQueue → WorkspaceRequestQueue × List Event
unfolding schedule
schedule_at_turn_boundary now b q = schedule now b q.scheduled_boundary q

-- `drain` up to its wait: an idle queue is not waited for.
unfoldable pub drain : WorkspaceRequestQueue → WorkspaceRequestQueue
unfolding is_idle
drain q =
    let q' = if is_closed q.current_state then q else record q { current_state = draining } in
    if is_idle q
    then record q' { resumed = q'.resumed + 1 }
    else record q' { idle_waiters = q'.idle_waiters + 1 }

-- `drain` after its wait.
drain_resumes : ℕ → WorkspaceRequestQueue → WorkspaceRequestQueue
drain_resumes zero q = q
drain_resumes (suc n) q = record q { resumed = n; current_state = closed }

unfoldable pub close : WorkspaceRequestQueue → WorkspaceRequestQueue
close q = record q { current_state = closed }

abbrev same_boundary : ℕ → Option ℕ → Bool
same_boundary b none = false
same_boundary b (some c) = b == c

-- What the loop waits for has settled, with a value or an error: the `finally` of a turn and of
-- `runScheduledBoundary`.
settle_loop : Loop → WorkspaceRequestQueue → WorkspaceRequestQueue × List Event
settle_loop turn q = (record q { active_request = none; loop = between }, [])
settle_loop (boundary b) q = (
  record q {
    scheduled_boundary =
        if same_boundary b q.scheduled_boundary then none else q.scheduled_boundary;
    loop = between;
  },
  boundary_settled b ∷ [],
)
settle_loop _ q = (q, [])

unfoldable pub settle : WorkspaceRequestQueue → WorkspaceRequestQueue × List Event
unfolding settle_loop
settle q = settle_loop q.loop q

abbrev is_between : Loop → Bool
is_between between = true
is_between _ = false

unfoldable pub continue : ℕ → WorkspaceRequestQueue → WorkspaceRequestQueue × List Event
unfolding iterate
continue now q = if is_between q.loop then iterate now q else (q, [])

pub data Input : Type 0 where
  enqueues : ℕ → WorkspaceQueuedRequest → Input
  schedules : ℕ → ℕ → Input
  drains closes settles closes_drained : Input
  continues : ℕ → Input

unfoldable pub step : Input → WorkspaceRequestQueue → WorkspaceRequestQueue × List Event
unfolding enqueue schedule_at_turn_boundary drain close settle continue drain_resumes
step (enqueues now m) q = enqueue now m q
step (schedules now b) q = schedule_at_turn_boundary now b q
step drains q = (drain q, [])
step closes q = (close q, [])
step settles q = settle q
step closes_drained q = (drain_resumes q.resumed q, [])
step (continues now) q = continue now q

unfoldable pub run_inputs : List Input → WorkspaceRequestQueue → WorkspaceRequestQueue × List Event
run_inputs [] q = (q, [])
run_inputs (i ∷ is) q =
    let (q', events) = step i q in let (q'', later) = run_inputs is q' in (q'', events ++ later)
