-- ===== src/Daemon/Lifetime.antt =====
-- packages/daemon/src/lifecycle/daemon-lifetime.ts: the daemon's end after a time without
-- navigation. A call reads the clock once and gives whether it called `onIdle`; a timer is the time
-- it is due, and an input is a call from outside or the runtime's call of the timer.
pub mod Watch
use symnav.Prelude.{
  ◌≡◌, ℕ, zero, suc, ◌+◌, ◌-◌, Bool, true, false, ◌&&◌, ◌||◌, Option, none, some, List, [], ◌∷◌,
  leb, if◌then◌else◌,
}

pub record DaemonLifetime : Type 0 where
  pub idle_timeout_ms : ℕ
  pub deadline : ℕ
  pub navigation_active : Bool
  pub stopped : Bool
  pub idle_triggered : Bool
  pub timer : Option ℕ

pub record Called : Type 0 where
  pub lifetime : DaemonLifetime
  pub on_idle : Bool

abbrev quiet : DaemonLifetime → Called
quiet l = record { lifetime = l; on_idle = false }

-- `setTimeout` after `max(0, deadline - now)`.
unfoldable pub schedule : ℕ → DaemonLifetime → DaemonLifetime
schedule now l = record l { timer = some (now + (l.deadline - now)) }

unfoldable pub lifetime : ℕ → ℕ → DaemonLifetime
unfolding schedule
lifetime idle_timeout now = schedule now (record {
  idle_timeout_ms = idle_timeout;
  deadline = now + idle_timeout;
  navigation_active = false;
  stopped = false;
  idle_triggered = false;
  timer = none;
})

unfoldable pub trigger_idle : DaemonLifetime → Called
trigger_idle l =
    if l.idle_triggered
    then quiet l
    else record { lifetime = record l { idle_triggered = true }; on_idle = true }

unfoldable pub navigation_accepted : ℕ → DaemonLifetime → Called
unfolding schedule
navigation_accepted now l =
    if l.stopped
    then quiet l
    else quiet
        (schedule now (record l { navigation_active = true; deadline = now + l.idle_timeout_ms }))

unfoldable pub queue_became_idle : ℕ → DaemonLifetime → Called
unfolding trigger_idle
queue_became_idle now l =
    if l.stopped
    then quiet l
    else (let idle : DaemonLifetime = record l { navigation_active = false } in
        if leb idle.deadline now then trigger_idle idle else quiet idle)

unfoldable pub stop : DaemonLifetime → Called
stop l = quiet (record l { stopped = true; timer = none })

unfoldable pub deadline_reached : DaemonLifetime → Called
unfolding trigger_idle
deadline_reached l =
    let fired : DaemonLifetime = record l { timer = none } in
    if fired.stopped || fired.navigation_active then quiet fired else trigger_idle fired

-- A timer is run when it is due, not before.
unfoldable pub tick : ℕ → DaemonLifetime → Called
unfolding deadline_reached
tick now l = elim l.timer [
  | none ↦ quiet l
  | some due ↦ if leb due now then deadline_reached l else quiet l
]

pub data Input : Type 0 where
  accepted became_idle timer_checked stop_called : Input

unfoldable pub step : ℕ → DaemonLifetime → Input → Called
unfolding navigation_accepted queue_became_idle tick stop
step now l accepted = navigation_accepted now l
step now l became_idle = queue_became_idle now l
step now l timer_checked = tick now l
step now l stop_called = stop l

-- Each input comes a while after the one before it.
pub record Timed : Type 0 where
  pub after : ℕ
  pub input : Input

unfoldable pub clock_after : ℕ → List Timed → ℕ
clock_after now [] = now
clock_after now (t ∷ ts) = clock_after (now + t.after) ts

unfoldable pub run : ℕ → DaemonLifetime → List Timed → DaemonLifetime
unfolding step
run now l [] = l
run now l (t ∷ ts) = run (now + t.after) (step (now + t.after) l t.input).lifetime ts

-- The calls of `onIdle` of a run.
unfoldable pub idle_calls : ℕ → DaemonLifetime → List Timed → ℕ
unfolding step
idle_calls now l [] = 0
idle_calls now l (t ∷ ts) =
    (if (step (now + t.after) l t.input).on_idle then 1 else 0)
    + idle_calls (now + t.after) (step (now + t.after) l t.input).lifetime ts
