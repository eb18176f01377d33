-- ===== src/Daemon/Supervisor/Pressure.antt =====
-- The two thresholds that pause admission and resume it.
use symnav.Prelude.{Bool, ◌≡◌, ℕ, ◌≤◌, ◌<◌, true, false, List, [], ◌∷◌, arith, All}
use symnav.Daemon.Policy.{ResourcesPolicy}
use symnav.Daemon.Supervisor.{
  DaemonResourceSupervisor, is_over, start, stop, capture_usage, replace, shed, apply_pressure,
  sample, worker_heap_reported, recover, replacement_failed, drained, forget_operation,
  begin_release, released, release_failed, forget_shed, Input, sampled, heap_reported,
  replacement_done, step, run,
}

-- Anything but a sample at the resume threshold or below and the end of a replacement.
abbrev pub LeavesPause : ResourcesPolicy → Input → Type 0
LeavesPause policy (sampled at_boundary now rss spool) = policy.resume_process_rss_bytes < rss
LeavesPause policy (replacement_done generation now) = ⊥
LeavesPause policy _ = Unit

step_paused :
    (policy : ResourcesPolicy) (s : DaemonResourceSupervisor) (input : Input)
    → LeavesPause policy input
    → s.admission_paused ≡ true
    → (step policy s input).supervisor.admission_paused ≡ true
unfolding step
step_paused policy s (sampled b now rss spool) h p =
    unfold sample capture_usage apply_pressure replace shed in ground arith
step_paused policy s (heap_reported g u l q) h p = unfold worker_heap_reported in ground arith
step_paused policy s Input.start_called h p = unfold start in ground arith
step_paused policy s Input.stop_called h p = unfold stop in ground arith
step_paused policy s (Input.worker_exited g oom now) h p = unfold recover replace in ground arith
step_paused policy s (replacement_done g now) h p = absurd h
step_paused policy s Input.replacement_refused h p = unfold replacement_failed in ground arith
step_paused policy s Input.drain_done h p = unfold drained in ground arith
step_paused policy s Input.operation_forgotten h p = unfold forget_operation in ground arith
step_paused policy s Input.boundary_came h p = unfold begin_release in ground arith
step_paused policy s Input.release_done h p = unfold released in ground arith
step_paused policy s Input.shed_forgotten h p = unfold forget_shed in ground arith
step_paused policy s (Input.release_refused now) h p = unfold release_failed replace in ground arith

run_paused :
    (policy : ResourcesPolicy) (s : DaemonResourceSupervisor) (inputs : List Input)
    → All (LeavesPause policy) inputs
    → s.admission_paused ≡ true
    → (run policy s inputs).admission_paused ≡ true
unfolding run
run_paused policy s [] h p = p
run_paused policy s (input ∷ inputs) h p =
    run_paused policy (step policy s input).supervisor inputs h.1 (step_paused policy s input h.0 p)

abbrev pub after_peak :
    ResourcesPolicy
    → Bool
    → ℕ
    → ℕ
    → DaemonResourceSupervisor
    → ℕ
    → List Input
    → DaemonResourceSupervisor
after_peak policy b now spool s high inputs =
    run policy (sample policy b now high spool s).supervisor inputs

-- A low sample resumes the admission, unless the supervisor drains or has stopped.
low_sample :
    (policy : ResourcesPolicy) (b : Bool) (now low spool : ℕ) (t : DaemonResourceSupervisor)
    → policy.resume_process_rss_bytes < policy.hard_process_rss_bytes
    → low ≤ policy.resume_process_rss_bytes
    → t.admission_paused ≡ true
    → (sample policy b now low spool t).supervisor.admission_paused ≡ is_over t.current_state
low_sample policy b now low spool t gap h p =
    unfold sample capture_usage apply_pressure in ground arith

-- A sample at the soft threshold or above, but below the hard one, pauses the admission of a
-- supervisor that is not over. The admission then stays paused through every sequence of inputs in
-- which no sample is at the resume threshold or below and no replacement of the worker is done:
-- through samples between the thresholds and above, sheds, failures and drains. After that a sample at
-- the resume threshold or below resumes it, exactly when the supervisor is not draining or stopped.
pub hysteresis :
    (policy : ResourcesPolicy) (b : Bool) (now spool : ℕ) (s : DaemonResourceSupervisor)
    (high low : ℕ) (inputs : List Input)
    → is_over s.current_state ≡ false
    → policy.resume_process_rss_bytes < policy.soft_process_rss_bytes
    → policy.soft_process_rss_bytes ≤ high
    → high < policy.hard_process_rss_bytes
    → low ≤ policy.resume_process_rss_bytes
    → All (LeavesPause policy) inputs
    → ((after_peak policy b now spool s high inputs).admission_paused ≡ true)
      × ((sample policy b now low spool
            (after_peak policy b now spool s high inputs)).supervisor.admission_paused
          ≡ is_over (after_peak policy b now spool s high inputs).current_state)
hysteresis policy b now spool s high low inputs live gap soft hard resume h = (
  kept,
  low_sample policy b now low spool (after_peak policy b now spool s high inputs) (omega arith)
      resume kept,
)
  where
    kept : (after_peak policy b now spool s high inputs).admission_paused ≡ true
    kept =
        run_paused policy (sample policy b now high spool s).supervisor inputs h
          (unfold sample capture_usage apply_pressure shed in ground arith)
