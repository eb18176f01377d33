-- ===== src/Daemon/Queue/Fifo.antt =====
-- The queue's invariant, and the order in which requests start.
use mathlib.Core.List.{append_assoc, append-nil}
use symnav.Prelude.{
  ◌≡◌, refl, sym, ap, ◌∙◌, ℕ, Bool, true, false, inl, inr, Bool-cases, ◌||◌, Option, none, some,
  List, [], ◌∷◌, ◌++◌, arith, text_eq_refl, is_some,
}
use symnav.Daemon.Queue.{
  WorkspaceQueuedRequest, Loop, stopped, turn, boundary, WorkspaceRequestQueue, new, Event,
  is_admitted, is_started, order_changed, is_stopped, is_accepting, begin_turn, iterate, run,
  schedule, enqueue, schedule_at_turn_boundary, Input, enqueues, schedules, drains, closes, settles,
  closes_drained, continues, step, run_inputs,
}

abbrev is_turn : Loop → Bool
is_turn turn = true
is_turn _ = false

-- The closures wait in the order of what was admitted; a turn has its active request; a stopped
-- loop has left nothing to do and nobody waiting; a boundary that runs is the scheduled one.
pub record IsValid (q : WorkspaceRequestQueue) : Type 0 where
  pub aligned : q.request_operations ≡ q.admitted
  pub turn_active : is_some q.active_request ≡ is_turn q.loop
  pub stopped_empty : q.loop ≡ stopped → q.admitted ≡ []
  pub stopped_unscheduled : q.loop ≡ stopped → q.scheduled_boundary ≡ none
  pub stopped_unawaited : q.loop ≡ stopped → q.idle_waiters ≡ 0
  pub boundary_scheduled : (b : ℕ) → q.loop ≡ boundary b → q.scheduled_boundary ≡ some b

pub new-IsValid : IsValid new
new-IsValid = ground arith

abbrev pub admitted_of : List Event → List WorkspaceQueuedRequest
admitted_of [] = []
admitted_of (is_admitted m ∷ es) = m ∷ admitted_of es
admitted_of (e ∷ es) = admitted_of es

abbrev pub started_of : List Event → List WorkspaceQueuedRequest
started_of [] = []
started_of (is_started m ∷ es) = m ∷ started_of es
started_of (e ∷ es) = started_of es

abbrev pub has_order_change : List Event → Bool
has_order_change [] = false
has_order_change (order_changed m ∷ es) = true
has_order_change (e ∷ es) = has_order_change es

-- A queue that is valid but for its loop, which may be about to look for the next.
record IsReady (q : WorkspaceRequestQueue) : Type 0 where
  aligned : q.request_operations ≡ q.admitted
  inactive : q.active_request ≡ none

-- What one step keeps: validity, the order, and that no closure finds another's request.
record Keeps (q : WorkspaceRequestQueue) (r : WorkspaceRequestQueue × List Event) : Type 0 where
  valid : IsValid r.0
  order : q.admitted ++ admitted_of r.1 ≡ started_of r.1 ++ r.0.admitted
  unchanged : has_order_change r.1 ≡ false

-- The closure whose turn it is finds its own request first.
begin_turn-own :
    (now : ℕ) (m : WorkspaceQueuedRequest) (rest : List WorkspaceQueuedRequest)
    (q : WorkspaceRequestQueue)
    → begin_turn now m (m ∷ rest) q ≡ (
      record q {
        admitted = rest;
        active_request = some (record { request = m; started_at = now });
        loop = turn;
      },
      is_started m ∷ [],
    )
unfolding begin_turn
begin_turn-own now m rest q = rw text_eq_refl

iterate-Keeps : (now : ℕ) (q : WorkspaceRequestQueue) → IsReady q → Keeps q (iterate now q)
unfolding iterate
iterate-Keeps now q v = go q.admitted refl
  where
    go : (ms : List WorkspaceQueuedRequest) → q.admitted ≡ ms → Keeps q (iterate now q)
    go [] e = ground arith
    go (m ∷ rest) e = ground (arith, text_eq_refl m.request_id, append-nil rest)

run-Keeps :
    (now : ℕ) (q : WorkspaceRequestQueue)
    → q.request_operations ≡ q.admitted
    → is_some q.active_request ≡ is_turn q.loop
    → ((b : ℕ) → q.loop ≡ boundary b → q.scheduled_boundary ≡ some b)
    → Keeps q (run now q)
unfolding run
run-Keeps now q aligned active scheduled = elim (Bool-cases (is_stopped q.loop)) [
  | inl p ↦ rw p (iterate-Keeps now q (record { aligned = aligned; inactive = ground arith }))
  | inr p ↦ rw p (record {
    valid = record {
      aligned = aligned;
      turn_active = active;
      stopped_empty = λ e. ground arith;
      stopped_unscheduled = λ e. ground arith;
      stopped_unawaited = λ e. ground arith;
      boundary_scheduled = scheduled;
    };
    order = append-nil q.admitted;
    unchanged = refl;
  })
]

enqueue-Keeps :
    (now : ℕ) (m : WorkspaceQueuedRequest) (q : WorkspaceRequestQueue)
    → IsValid q
    → Keeps q (enqueue now m q)
unfolding enqueue
enqueue-Keeps now m q v =
    let q' : WorkspaceRequestQueue = record q {
      admitted = q.admitted ++ m ∷ [];
      request_operations = q.request_operations ++ m ∷ [];
    } in
    let k : Keeps q' (run now q') =
      run-Keeps now q' (ap (λ ms. ms ++ m ∷ []) v.aligned) v.turn_active v.boundary_scheduled in
    elim (Bool-cases (is_accepting q.current_state)) [
      | inl p ↦ rw p (record {
        valid = k.valid;
        order = sym (append_assoc q.admitted (m ∷ []) (admitted_of (run now q').1)) ∙ k.order;
        unchanged = k.unchanged;
      })
      | inr p ↦ rw p (record { valid = v; order = append-nil q.admitted; unchanged = refl })
    ]

schedule-Keeps :
    (now b : ℕ) (q : WorkspaceRequestQueue)
    → IsValid q
    → Keeps q (schedule_at_turn_boundary now b q)
unfolding schedule_at_turn_boundary
schedule-Keeps now b q v = go q.scheduled_boundary refl
  where
    q' : WorkspaceRequestQueue
    q' = record q { scheduled_boundary = some b }

    go : (o : Option ℕ) → q.scheduled_boundary ≡ o → Keeps q (schedule now b o q)
    go none e =
        let k : Keeps q' (run now q') =
          run-Keeps now q' v.aligned v.turn_active
            (λ c h. absurd (ground (arith, v.boundary_scheduled c))) in
        record { valid = k.valid; order = k.order; unchanged = k.unchanged }
    go (some c) e = record { valid = v; order = append-nil q.admitted; unchanged = refl }

step-Keeps : (i : Input) (q : WorkspaceRequestQueue) → IsValid q → Keeps q (step i q)
unfolding step
step-Keeps drains q v = ground (arith, append-nil q.admitted)
step-Keeps (enqueues now m) q v = enqueue-Keeps now m q v
step-Keeps (schedules now b) q v = schedule-Keeps now b q v
step-Keeps closes q v = ground (arith, append-nil q.admitted)
step-Keeps settles q v = ground (arith, append-nil q.admitted)
step-Keeps closes_drained q v = ground (arith, append-nil q.admitted)
step-Keeps (continues now) q v = ground (arith, append-nil q.admitted, iterate-Keeps now q)

-- Every call from outside and every return of what the loop awaits keeps a valid queue valid: what
-- waits is aligned with its closures, a turn has its active request, and a stopped loop has left
-- nothing to do and nobody waiting.
pub step-IsValid : (i : Input) (q : WorkspaceRequestQueue) → IsValid q → IsValid (step i q).0
step-IsValid i q v = (step-Keeps i q v).valid

admitted_of-append :
    (es fs : List Event) → admitted_of (es ++ fs) ≡ admitted_of es ++ admitted_of fs
admitted_of-append [] fs = refl
admitted_of-append (e ∷ es) fs = ground (arith, admitted_of-append es fs)

started_of-append : (es fs : List Event) → started_of (es ++ fs) ≡ started_of es ++ started_of fs
started_of-append [] fs = refl
started_of-append (e ∷ es) fs = ground (arith, started_of-append es fs)

has_order_change-append :
    (es fs : List Event)
    → has_order_change (es ++ fs) ≡ (has_order_change es || has_order_change fs)
has_order_change-append [] fs = refl
has_order_change-append (e ∷ es) fs = ground (arith, has_order_change-append es fs)

-- Two orders, one after the other.
orders-append {ℓ} :
    {A : Type ℓ} (waiting a b s t next last : List A)
    → waiting ++ a ≡ s ++ next
    → next ++ b ≡ t ++ last
    → waiting ++ (a ++ b) ≡ (s ++ t) ++ last
orders-append waiting a b s t next last p q =
    sym (append_assoc waiting a b)
    ∙ ap (λ r. r ++ b) p
    ∙ append_assoc s next b
    ∙ ap (λ r. s ++ r) q
    ∙ sym (append_assoc s t last)

run_inputs-Keeps :
    (is : List Input) (q : WorkspaceRequestQueue) → IsValid q → Keeps q (run_inputs is q)
unfolding run_inputs
run_inputs-Keeps [] q v = record { valid = v; order = append-nil q.admitted; unchanged = refl }
run_inputs-Keeps (i ∷ is) q v =
    let h = step-Keeps i q v in
    let k = run_inputs-Keeps is (step i q).0 h.valid in
    record {
      valid = k.valid;
      order =
          rw (admitted_of-append, started_of-append)
            (orders-append q.admitted (admitted_of (step i q).1) _ _ _ _ _ h.order k.order);
      unchanged = rw (has_order_change-append, h.unchanged) k.unchanged;
    }

-- Requests start in the order in which they were admitted, each once and none left out: what was
-- admitted is what was started and then what waits still. No closure ever finds that the order
-- changed.
pub run_inputs-fifo :
    (is : List Input)
    → (admitted_of (run_inputs is new).1
        ≡ started_of (run_inputs is new).1 ++ (run_inputs is new).0.admitted)
      × (has_order_change (run_inputs is new).1 ≡ false)
run_inputs-fifo is = let k = run_inputs-Keeps is new new-IsValid in (k.order, k.unchanged)
