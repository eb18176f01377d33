-- ===== src/Scenarios/Resources.antt =====
-- The policy of a machine of 2 GiB, the supervisor of its daemon, the daemon's lifetime, and the
-- client's choice of a route.
use symnav.Prelude.{
  ◌≡◌, refl, ◌*◌, true, false, ◌↔◌, none, some, List, [], ◌∷◌, arith, text, ok, if◌then◌else◌,
}
use symnav.Daemon.Policy.{DaemonSystemMemory, ResourcesPolicy, mebibyte, from_system_memory}
use symnav.Daemon.Policy.Codec.{max_safe_integer, serialize, values_fields}
use symnav.Daemon.Policy.Codec
use symnav.Daemon.Policy.Bounds.{IsBounded, resources_bounds}
use symnav.Daemon.Policy.Roundtrip.{parse-serialize-from_system_memory}
use symnav.Daemon.Supervisor.{
  DaemonResourceSupervisor, supervisor_of, Input, Effect, sampled, worker_exited, replacement_done,
  operation_forgotten, heap_reported, sample, step,
}
use symnav.Daemon.Supervisor
use symnav.Daemon.Supervisor.Limit.{
  IsLimited, run-IsLimited, starts_replacement, MayReplace, step-MayReplace,
}
use symnav.Daemon.Supervisor.Pressure.{after_peak, hysteresis}
use symnav.Daemon.Lifetime.{
  DaemonLifetime, Timed, accepted, became_idle, timer_checked, lifetime, run, idle_calls,
}
use symnav.Daemon.Lifetime
use symnav.Daemon.Lifetime.Watch.{run-timer, idle_calls-run}
use symnav.Daemon.Routing.{
  ready, DaemonRecord, responsive, warm, DaemonRoutingOperations, reads, context_of, decide,
}
use symnav.Daemon.Routing.Decision.{calls_of_record, WarmAt, decide-calls, decide-warm}

abbrev small_machine : DaemonSystemMemory
small_machine = record { total_bytes = 2048 * mebibyte; constrained_bytes = none }

resources_bounds_example : IsBounded small_machine (from_system_memory small_machine).resources
resources_bounds_example = resources_bounds small_machine

parse-serialize-from_system_memory_example :
    Codec.parse (serialize (from_system_memory small_machine))
    ≡ ok (values_fields (from_system_memory small_machine))
parse-serialize-from_system_memory_example =
    parse-serialize-from_system_memory small_machine (omega arith)

abbrev limits : ResourcesPolicy
limits = record {
  effective_memory_bytes = 2000;
  hard_process_rss_bytes = 1000;
  soft_process_rss_bytes = 800;
  resume_process_rss_bytes = 600;
  worker_max_old_generation_size_mib = 1;
  supervision_interval_ms = 10;
  replacement_window_ms = 100;
  replacement_limit = 2;
  worker_heap_sample_interval_ms = 10;
}

run-IsLimited_example : IsLimited limits (
    Supervisor.run limits (supervisor_of 1) (
      sampled false 5 1200 0
      ∷ replacement_done 2 6
      ∷ operation_forgotten
      ∷ worker_exited 2 true 7
      ∷ []))
run-IsLimited_example =
    run-IsLimited limits (supervisor_of 1)
      (sampled false 5 1200 0
        ∷ replacement_done 2 6
        ∷ operation_forgotten
        ∷ worker_exited 2 true 7
        ∷ [])
      (unfold supervisor_of in ground arith)

pressure_starts :
    starts_replacement (step limits (supervisor_of 1) (sampled false 5 1200 0)).effects ≡ true
unfolding step supervisor_of sample Supervisor.is_over Supervisor.capture_usage
    Supervisor.apply_pressure Supervisor.replace Supervisor.recent
pressure_starts = refl

step-MayReplace_example :
    MayReplace limits 5 (supervisor_of 1) (step limits (supervisor_of 1) (sampled false 5 1200 0))
step-MayReplace_example =
    step-MayReplace limits (supervisor_of 1) (sampled false 5 1200 0) pressure_starts

-- Between the thresholds: a sample, the end of the shed, a report and a failure of the worker.
abbrev passing : List Input
passing =
    sampled false 1 700 0
    ∷ Input.boundary_came
    ∷ Input.release_done
    ∷ heap_reported 1 5 9 5
    ∷ worker_exited 1 false 6
    ∷ []

hysteresis_example :
    ((after_peak limits false 4 0 (supervisor_of 1) 900 passing).admission_paused ≡ true)
    × ((sample limits false 4 500 0
          (after_peak limits false 4 0 (supervisor_of 1) 900 passing)).supervisor.admission_paused
        ≡ Supervisor.is_over
            (after_peak limits false 4 0 (supervisor_of 1) 900 passing).current_state)
hysteresis_example =
    hysteresis limits false 4 0 (supervisor_of 1) 900 500 passing
      (unfold supervisor_of Supervisor.is_over in refl) (omega arith) (omega arith) (omega arith)
      (omega arith) (ground arith)

-- Navigation that begins after 40 and ends after 200 ms, and a look at the timer.
abbrev visits : List Timed
visits =
    record { after = 40; input = accepted }
    ∷ record { after = 30; input = became_idle }
    ∷ record { after = 20; input = timer_checked }
    ∷ []

run-timer_example :
    (run 1000 (lifetime 100 1000) visits).timer
    ≡ some (run 1000 (lifetime 100 1000) visits).deadline
unfolding run lifetime Lifetime.schedule Lifetime.step Lifetime.navigation_accepted
    Lifetime.queue_became_idle Lifetime.tick
run-timer_example = run-timer 100 1000 visits refl refl refl

idle_calls-run_example :
    idle_calls 1000 (lifetime 100 1000) visits
    ≡ (if (run 1000 (lifetime 100 1000) visits).idle_triggered then 1 else 0)
idle_calls-run_example = idle_calls-run 100 1000 visits

abbrev running : DaemonRecord
running = record { instance_id = text "daemon-1"; symnav_version = text "1.2.0"; state = ready }

abbrev answering : DaemonRoutingOperations
answering = record {
  read_record_operation = ok (some running);
  observe_operation =
      λ r. some (responsive (record { symnav_version = text "1.2.0"; state = ready }));
}

decide-calls_example :
    (decide answering (context_of (text "1.2.0"))).context.calls
    ≡ reads
      ∷ calls_of_record (text "1.2.0") answering.read_record_operation answering.observe_operation
decide-calls_example = decide-calls (text "1.2.0") answering

decide-warm_example :
    ((decide answering (context_of (text "1.2.0"))).outcome ≡ ok (warm running))
    ↔ WarmAt (text "1.2.0") answering running
decide-warm_example = decide-warm (text "1.2.0") answering running
