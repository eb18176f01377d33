-- ===== src/Daemon/Lifetime/Watch.antt =====
-- The idle deadline is never lost, and the daemon becomes idle once.
use symnav.Prelude.{
  ◌≡◌, refl, ℕ, ◌+◌, ◌-◌, ◌≤◌, Bool, true, false, ◌⊎◌, inl, some, List, [], ◌∷◌, arith,
  if◌then◌else◌,
}
use symnav.Daemon.Lifetime.{
  DaemonLifetime, schedule, lifetime, trigger_idle, navigation_accepted, queue_became_idle, stop,
  deadline_reached, tick, Input, accepted, became_idle, timer_checked, stop_called, step, Timed,
  clock_after, run, idle_calls,
}

-- The daemon ended, or a timer is due at the deadline, or navigation runs past the deadline.
abbrev pub IsWatched : ℕ → DaemonLifetime → Type 0
IsWatched now l =
    (l.stopped ≡ true)
    ⊎ ((l.idle_triggered ≡ true)
        ⊎ ((l.timer ≡ some l.deadline) ⊎ ((l.navigation_active ≡ true) × (l.deadline ≤ now))))

schedule_due : (now timeout : ℕ) → now + ((now + timeout) - now) ≡ now + timeout
schedule_due now timeout = omega arith

lifetime-IsWatched : (timeout now : ℕ) → IsWatched now (lifetime timeout now)
unfolding lifetime schedule
lifetime-IsWatched timeout now = ground (arith, schedule_due now timeout)

step-IsWatched :
    (before now : ℕ) (l : DaemonLifetime) (input : Input)
    → before ≤ now
    → IsWatched before l
    → IsWatched now (step now l input).lifetime
unfolding step
step-IsWatched before now l accepted le h =
    unfold navigation_accepted schedule in ground (arith, schedule_due now l.idle_timeout_ms)
step-IsWatched before now l became_idle le h = unfold queue_became_idle trigger_idle in ground arith
step-IsWatched before now l timer_checked le h =
    unfold tick deadline_reached trigger_idle in ground arith
step-IsWatched before now l stop_called le h = inl (unfold stop in refl)

run-IsWatched :
    (now : ℕ) (l : DaemonLifetime) (inputs : List Timed)
    → IsWatched now l
    → IsWatched (clock_after now inputs) (run now l inputs)
unfolding run clock_after
run-IsWatched now l [] h = h
run-IsWatched now l (t ∷ ts) h =
    run-IsWatched (now + t.after) (step (now + t.after) l t.input).lifetime ts
      (step-IsWatched now (now + t.after) l t.input (omega arith) h)

-- After any calls, on a clock that does not go back, a daemon that neither stopped nor became
-- idle, and that runs no navigation, has a timer that is due at its deadline.
pub run-timer :
    (timeout now : ℕ) (inputs : List Timed)
    → (run now (lifetime timeout now) inputs).stopped ≡ false
    → (run now (lifetime timeout now) inputs).idle_triggered ≡ false
    → (run now (lifetime timeout now) inputs).navigation_active ≡ false
    → (run now (lifetime timeout now) inputs).timer
      ≡ some (run now (lifetime timeout now) inputs).deadline
run-timer timeout now inputs live waiting quiet =
    ground (arith, run-IsWatched now (lifetime timeout now) inputs (lifetime-IsWatched timeout now))

abbrev once : Bool → ℕ
once triggered = if triggered then 1 else 0

once-step :
    (now : ℕ) (l : DaemonLifetime) (input : Input)
    → once (step now l input).on_idle + once l.idle_triggered
      ≡ once (step now l input).lifetime.idle_triggered
unfolding step
once-step now l accepted = unfold navigation_accepted schedule in ground arith
once-step now l became_idle = unfold queue_became_idle trigger_idle in ground arith
once-step now l timer_checked = unfold tick deadline_reached trigger_idle in ground arith
once-step now l stop_called = unfold stop in ground arith

once-run :
    (now : ℕ) (l : DaemonLifetime) (inputs : List Timed)
    → idle_calls now l inputs + once l.idle_triggered ≡ once (run now l inputs).idle_triggered
unfolding run idle_calls
once-run now l [] = omega arith
once-run now l (t ∷ ts) = omega (
  arith,
  once-step (now + t.after) l t.input,
  once-run (now + t.after) (step (now + t.after) l t.input).lifetime ts,
)

-- Whatever is called and whenever, a new daemon calls `onIdle` at most once, and it does exactly
-- when it is marked as idle.
pub idle_calls-run :
    (timeout now : ℕ) (inputs : List Timed)
    → idle_calls now (lifetime timeout now) inputs
      ≡ (if (run now (lifetime timeout now) inputs).idle_triggered then 1 else 0)
idle_calls-run timeout now inputs = omega (arith, once-run now (lifetime timeout now) inputs, fresh)
  where
    fresh : once (lifetime timeout now).idle_triggered ≡ 0
    fresh = unfold lifetime schedule in refl
