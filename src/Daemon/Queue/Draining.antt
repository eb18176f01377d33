-- ===== src/Daemon/Queue/Draining.antt =====
-- Draining: what is admitted is still run, nothing more is, and the wait of `drain` ends.
use symnav.Prelude.{
  ◌≡◌, ◌≢◌, refl, ℕ, zero, suc, ◌+◌, ◌≤◌, true, List, [], ◌∷◌, arith, text_eq_refl, length, is_some,
  if◌then◌else◌,
}
use symnav.Daemon.Admission.{closed}
use symnav.Daemon.Queue.{
  WorkspaceQueuedRequest, Loop, stopped, turn, between, boundary, WorkspaceRequestQueue, is_idle,
  is_refused, iterate, enqueue, drain, settle, continue, Input, drains, settles, closes_drained,
  continues, step, run_inputs,
}
use symnav.Daemon.Queue.Fifo.{IsValid, step-IsValid}

-- How many rounds, each the settling of what runs and the look for the next, are left.
pub remaining : WorkspaceRequestQueue → ℕ
remaining q = in_loop q.loop
  where
    in_loop : Loop → ℕ
    in_loop stopped = 0
    in_loop (boundary b) = length q.admitted + 1
    in_loop _ = length q.admitted + (if is_some q.scheduled_boundary then 2 else 1)

-- A round at time `now` with no call in between.
round : ℕ → WorkspaceRequestQueue → WorkspaceRequestQueue
round now q = (continue now (settle q).0).0

iterate-remaining :
    (now : ℕ) (q : WorkspaceRequestQueue)
    → q.request_operations ≡ q.admitted
    → remaining (iterate now q).0
      ≡ length q.admitted + (if is_some q.scheduled_boundary then 1 else 0)
unfolding iterate remaining
iterate-remaining now q aligned = go q.admitted refl
  where
    go :
        (ms : List WorkspaceQueuedRequest)
        → q.admitted ≡ ms
        → remaining (iterate now q).0
          ≡ length q.admitted + (if is_some q.scheduled_boundary then 1 else 0)
    go [] e = ground arith
    go (m ∷ rest) e = ground (arith, text_eq_refl m.request_id)

iterate-kept :
    (now : ℕ) (q : WorkspaceRequestQueue)
    → ((iterate now q).0.idle_waiters + (iterate now q).0.resumed ≡ q.idle_waiters + q.resumed)
      × ((iterate now q).0.current_state ≡ q.current_state)
unfolding iterate
iterate-kept now q = ground arith

settle-kept :
    (q : WorkspaceRequestQueue)
    → ((settle q).0.idle_waiters + (settle q).0.resumed ≡ q.idle_waiters + q.resumed)
      × ((settle q).0.current_state ≡ q.current_state)
      × ((settle q).0.admitted ≡ q.admitted)
      × ((settle q).0.request_operations ≡ q.request_operations)
unfolding settle
settle-kept q = ground arith

-- What is left after the settling, up to the look for the next.
settle-left :
    (q : WorkspaceRequestQueue)
    → IsValid q
    → q.loop ≢ stopped
    → ((settle q).0.loop ≡ between)
      × (length q.admitted + (if is_some (settle q).0.scheduled_boundary then 1 else 0) + 1
          ≡ remaining q)
unfolding settle remaining
settle-left q v h = go q.loop refl
  where
    go :
        (l : Loop)
        → q.loop ≡ l
        → ((settle q).0.loop ≡ between)
          × (length q.admitted + (if is_some (settle q).0.scheduled_boundary then 1 else 0) + 1
              ≡ remaining q)
    go stopped e = absurd (h e)
    go turn e = ground arith
    go between e = ground arith
    go (boundary b) e = ground (arith, v.boundary_scheduled b)

round-remaining :
    (now : ℕ) (q : WorkspaceRequestQueue)
    → IsValid q
    → q.loop ≢ stopped
    → remaining (round now q) + 1 ≡ remaining q
unfolding round continue
round-remaining now q v h =
    ground (arith, settle-left q v h, settle-kept q, iterate-remaining now (settle q).0)

round-kept :
    (now : ℕ) (q : WorkspaceRequestQueue)
    → ((round now q).idle_waiters + (round now q).resumed ≡ q.idle_waiters + q.resumed)
      × ((round now q).current_state ≡ q.current_state)
unfolding round continue
round-kept now q = ground (arith, settle-kept q, iterate-kept now (settle q).0)

-- `n` rounds at time `now`.
abbrev pub rounds : ℕ → ℕ → List Input
rounds now zero = []
rounds now (suc n) = settles ∷ continues now ∷ rounds now n

round-IsValid : (now : ℕ) (q : WorkspaceRequestQueue) → IsValid q → IsValid (round now q)
unfolding round step
round-IsValid now q v = step-IsValid (continues now) (settle q).0 (step-IsValid settles q v)

running_of_remaining : (n : ℕ) (q : WorkspaceRequestQueue) → remaining q ≡ suc n → q.loop ≢ stopped
unfolding remaining
running_of_remaining n q e = ground arith

-- A loop that runs stops after the rounds that are left, when nothing more is called.
rounds-stopped :
    (now n : ℕ) (q : WorkspaceRequestQueue)
    → IsValid q
    → remaining q ≡ n
    → let r = (run_inputs (rounds now n) q).0 in
      IsValid r
      × (r.loop ≡ stopped)
      × (r.idle_waiters + r.resumed ≡ q.idle_waiters + q.resumed)
      × (r.current_state ≡ q.current_state)
unfolding run_inputs step round
rounds-stopped now zero q v e = (v, unfold remaining in ground arith, refl, refl)
rounds-stopped now (suc n) q v e =
    let (v', s, w, c) = rounds-stopped now n (round now q) (round-IsValid now q v) (left v e) in
    (v', s, ground (arith, round-kept now q), ground (arith, round-kept now q))
  where
    left : IsValid q → remaining q ≡ suc n → remaining (round now q) ≡ n
    left v e = omega (arith, round-remaining now q v (running_of_remaining n q e))

drain-kept :
    (q : WorkspaceRequestQueue)
    → IsValid q
    → (1 ≤ (drain q).idle_waiters + (drain q).resumed)
      × ((drain q).loop ≡ q.loop)
      × (remaining (drain q) ≡ remaining q)
unfolding drain remaining
drain-kept q v = ground arith

-- After `drain` a valid queue refuses every request, and once what runs and what waits has settled,
-- in `remaining` rounds, it is idle and the call of `drain` closes it.
pub drain_completes :
    (now : ℕ) (q : WorkspaceRequestQueue) (m : WorkspaceQueuedRequest)
    → IsValid q
    → let d = (step drains q).0 in
      let r = (run_inputs (rounds now (remaining q)) d).0 in
      (enqueue now m d ≡ (d, is_refused m d.current_state ∷ []))
      × (is_idle r ≡ true)
      × ((step closes_drained r).0.current_state ≡ closed)
unfolding step
drain_completes now q m v =
    let (w, same, left) = drain-kept q v in
    let (v', s, kept, c) =
      rounds-stopped now (remaining q) (drain q) (step-IsValid drains q v) left in
    (refused, idle v' s, closes v' s (omega (arith, kept, w)))
  where
    refused : enqueue now m (drain q) ≡ (drain q, is_refused m (drain q).current_state ∷ [])
    refused = unfold enqueue drain in ground arith

    idle : {r : WorkspaceRequestQueue} → IsValid r → r.loop ≡ stopped → is_idle r ≡ true
    idle v s = unfold is_idle in ground arith

    closes :
        {r : WorkspaceRequestQueue}
        → IsValid r
        → r.loop ≡ stopped
        → 1 ≤ r.idle_waiters + r.resumed
        → (step closes_drained r).0.current_state ≡ closed
    closes v s h = ground arith
