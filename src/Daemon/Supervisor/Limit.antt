-- ===== src/Daemon/Supervisor/Limit.antt =====
-- How often the supervisor replaces the worker.
use symnav.Prelude.{
  ◌≡◌, ℕ, ◌≤◌, ◌<◌, Bool, true, false, none, some, List, [], ◌∷◌, arith, length, length-append,
  filter,
}
use symnav.Daemon.Policy.{ResourcesPolicy}
use symnav.Daemon.Supervisor.{
  DaemonWorkerReplacementCause, replacement, Shed, DaemonResourceSupervisor, Effect, replace_worker,
  Stepped, start, stop, capture_usage, in_window, recent, replace, shed, apply_pressure, sample,
  worker_heap_reported, recover, runs_replacement, worker_replaced, replacement_failed, drained,
  forget_operation, begin_release, released, release_failed, forget_shed, Input, start_called,
  stop_called, sampled, heap_reported, worker_exited, replacement_done, replacement_refused,
  drain_done, operation_forgotten, boundary_came, release_done, shed_forgotten, release_refused,
  step, run,
}

-- No more replacements are remembered than the policy allows, and fewer while one runs.
abbrev pub IsLimited : ResourcesPolicy → DaemonResourceSupervisor → Type 0
IsLimited policy s =
    (length s.replacement_times ≤ policy.replacement_limit)
    × (runs_replacement s.replacement_operation ≡ true
        → length s.replacement_times < policy.replacement_limit)

length-filter : (p : ℕ → Bool) (xs : List ℕ) → length (filter p xs) ≤ length xs
length-filter p [] = omega arith
length-filter p (x ∷ xs) = ground (arith, length-filter p xs)

length-recent :
    (policy : ResourcesPolicy) (now : ℕ) (times : List ℕ)
    → length (recent policy now times) ≤ length times
unfolding recent
length-recent policy now times = length-filter (in_window policy now) times

replace-IsLimited :
    (policy : ResourcesPolicy) (cause : DaemonWorkerReplacementCause) (now : ℕ)
    (s : DaemonResourceSupervisor)
    → IsLimited policy s
    → IsLimited policy (replace policy cause now s).supervisor
unfolding replace
replace-IsLimited policy cause now s h =
    ground (arith, length-recent policy now s.replacement_times)

shed-IsLimited :
    (policy : ResourcesPolicy) (at_boundary : Bool) (s : DaemonResourceSupervisor)
    → IsLimited policy s
    → IsLimited policy (shed at_boundary s).supervisor
unfolding shed
shed-IsLimited policy at_boundary s h = ground arith

apply_pressure-IsLimited :
    (policy : ResourcesPolicy) (at_boundary : Bool) (now : ℕ) (s : DaemonResourceSupervisor)
    → IsLimited policy s
    → IsLimited policy (apply_pressure policy at_boundary now s).supervisor
unfolding apply_pressure shed
apply_pressure-IsLimited policy at_boundary now s h =
    ground (arith, replace-IsLimited policy DaemonWorkerReplacementCause.hard_pressure now s h)

sample-IsLimited :
    (policy : ResourcesPolicy) (at_boundary : Bool) (now rss spool : ℕ)
    (s : DaemonResourceSupervisor)
    → IsLimited policy s
    → IsLimited policy (sample policy at_boundary now rss spool s).supervisor
unfolding sample capture_usage
sample-IsLimited policy at_boundary now rss spool s h =
    ground (arith, apply_pressure-IsLimited policy at_boundary now (capture_usage rss spool s) h)

recover-IsLimited :
    (policy : ResourcesPolicy) (generation : ℕ) (oom : Bool) (now : ℕ)
    (s : DaemonResourceSupervisor)
    → IsLimited policy s
    → IsLimited policy (recover policy generation oom now s).supervisor
unfolding recover
recover-IsLimited policy generation oom now s h = ground (
  arith,
  replace-IsLimited policy DaemonWorkerReplacementCause.out_of_memory now s h,
  replace-IsLimited policy DaemonWorkerReplacementCause.worker_exit now s h,
)

release_failed-IsLimited :
    (policy : ResourcesPolicy) (now : ℕ) (s : DaemonResourceSupervisor)
    → IsLimited policy s
    → IsLimited policy (release_failed policy now s).supervisor
unfolding release_failed
release_failed-IsLimited policy now s h = ground (
  arith,
  replace-IsLimited policy DaemonWorkerReplacementCause.shed_failure now
      (record s { shed_operation = some Shed.finished }) h,
)

worker_replaced-IsLimited :
    (policy : ResourcesPolicy) (generation now : ℕ) (s : DaemonResourceSupervisor)
    → IsLimited policy s
    → IsLimited policy (worker_replaced generation now s).supervisor
unfolding worker_replaced
worker_replaced-IsLimited policy generation now s h =
    ground (arith, length-append s.replacement_times (now ∷ []))

step-IsLimited :
    (policy : ResourcesPolicy) (s : DaemonResourceSupervisor) (input : Input)
    → IsLimited policy s
    → IsLimited policy (step policy s input).supervisor
unfolding step
step-IsLimited policy s start_called h = unfold start in ground arith
step-IsLimited policy s stop_called h = unfold stop in h
step-IsLimited policy s (sampled b now rss spool) h = sample-IsLimited policy b now rss spool s h
step-IsLimited policy s (heap_reported g u l p) h = unfold worker_heap_reported in ground arith
step-IsLimited policy s (worker_exited g oom now) h = recover-IsLimited policy g oom now s h
step-IsLimited policy s (replacement_done g now) h = worker_replaced-IsLimited policy g now s h
step-IsLimited policy s replacement_refused h = unfold replacement_failed in ground arith
step-IsLimited policy s drain_done h = unfold drained in ground arith
step-IsLimited policy s operation_forgotten h = unfold forget_operation in ground arith
step-IsLimited policy s boundary_came h = unfold begin_release in ground arith
step-IsLimited policy s release_done h = unfold released in ground arith
step-IsLimited policy s shed_forgotten h = unfold forget_shed in ground arith
step-IsLimited policy s (release_refused now) h = release_failed-IsLimited policy now s h

-- A supervisor that remembers no more replacements of the worker than the policy allows, and fewer
-- while one runs, does so after every sequence of inputs.
pub run-IsLimited :
    (policy : ResourcesPolicy) (s : DaemonResourceSupervisor) (inputs : List Input)
    → IsLimited policy s
    → IsLimited policy (run policy s inputs)
unfolding run
run-IsLimited policy s [] h = h
run-IsLimited policy s (input ∷ inputs) h =
    run-IsLimited policy (step policy s input).supervisor inputs (step-IsLimited policy s input h)

abbrev pub starts_replacement : List Effect → Bool
starts_replacement (replace_worker cause ∷ effects) = true
starts_replacement _ = false

-- The time that an input reads.
abbrev pub time_of : Input → ℕ
time_of (sampled b now rss spool) = now
time_of (worker_exited g oom now) = now
time_of (replacement_done g now) = now
time_of (release_refused now) = now
time_of _ = 0

-- What has to hold before a replacement starts, and what holds after it.
abbrev pub MayReplace : ResourcesPolicy → ℕ → DaemonResourceSupervisor → Stepped → Type 0
MayReplace policy now s after =
    (s.replacement_operation ≡ none)
    × (length (recent policy now s.replacement_times) < policy.replacement_limit)
    × (after.supervisor.replacement_operation ≡ some replacement)
    × (after.supervisor.admission_paused ≡ true)

replace-MayReplace :
    (policy : ResourcesPolicy) (cause : DaemonWorkerReplacementCause) (now : ℕ)
    (s : DaemonResourceSupervisor)
    → starts_replacement (replace policy cause now s).effects ≡ true
    → MayReplace policy now s (replace policy cause now s)
unfolding replace
replace-MayReplace policy cause now s h = ground arith

sample-MayReplace :
    (policy : ResourcesPolicy) (at_boundary : Bool) (now rss spool : ℕ)
    (s : DaemonResourceSupervisor)
    → starts_replacement (sample policy at_boundary now rss spool s).effects ≡ true
    → MayReplace policy now s (sample policy at_boundary now rss spool s)
unfolding sample capture_usage apply_pressure shed
sample-MayReplace policy at_boundary now rss spool s h = ground (
  arith,
  replace-MayReplace policy DaemonWorkerReplacementCause.hard_pressure now
      (capture_usage rss spool s),
)

recover-MayReplace :
    (policy : ResourcesPolicy) (generation : ℕ) (oom : Bool) (now : ℕ)
    (s : DaemonResourceSupervisor)
    → starts_replacement (recover policy generation oom now s).effects ≡ true
    → MayReplace policy now s (recover policy generation oom now s)
unfolding recover
recover-MayReplace policy generation oom now s h = ground (
  arith,
  replace-MayReplace policy DaemonWorkerReplacementCause.out_of_memory now s,
  replace-MayReplace policy DaemonWorkerReplacementCause.worker_exit now s,
)

release_failed-MayReplace :
    (policy : ResourcesPolicy) (now : ℕ) (s : DaemonResourceSupervisor)
    → starts_replacement (release_failed policy now s).effects ≡ true
    → MayReplace policy now s (release_failed policy now s)
unfolding release_failed
release_failed-MayReplace policy now s h = ground (
  arith,
  replace-MayReplace policy DaemonWorkerReplacementCause.shed_failure now
      (record s { shed_operation = some Shed.finished }),
)

-- A step starts a replacement of the worker only when none runs and no drain does, and when fewer
-- of them than the limit lie in the window before its time; admission is then paused.
pub step-MayReplace :
    (policy : ResourcesPolicy) (s : DaemonResourceSupervisor) (input : Input)
    → starts_replacement (step policy s input).effects ≡ true
    → MayReplace policy (time_of input) s (step policy s input)
unfolding step
step-MayReplace policy s start_called h = absurd (unfold start in ground arith)
step-MayReplace policy s stop_called h = absurd (unfold stop in ground arith)
step-MayReplace policy s (sampled b now rss spool) h = sample-MayReplace policy b now rss spool s h
step-MayReplace policy s (heap_reported g u l p) h = absurd (ground arith)
step-MayReplace policy s (worker_exited g oom now) h = recover-MayReplace policy g oom now s h
step-MayReplace policy s (replacement_done g now) h =
    absurd (unfold worker_replaced in ground arith)
step-MayReplace policy s replacement_refused h = absurd (unfold replacement_failed in ground arith)
step-MayReplace policy s drain_done h = absurd (unfold drained in ground arith)
step-MayReplace policy s operation_forgotten h = absurd (unfold forget_operation in ground arith)
step-MayReplace policy s boundary_came h = absurd (unfold begin_release in ground arith)
step-MayReplace policy s release_done h = absurd (unfold released in ground arith)
step-MayReplace policy s shed_forgotten h = absurd (unfold forget_shed in ground arith)
step-MayReplace policy s (release_refused now) h = release_failed-MayReplace policy now s h
