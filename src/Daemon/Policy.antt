-- ===== src/Daemon/Policy.antt =====
-- packages/daemon/src/daemon-policy.ts: the limits that the daemon works under, derived from the
-- memory of the system, and the form in which they are handed to the child process (Codec). The
-- products with `0.8` and `0.7` are those of double-precision numbers, rounded to the nearest and,
-- half way, to the even one: `0.8` is 7205759403792794 / 2^53 and `0.7` is 6305039478318694 / 2^53.
pub mod Bounds
pub mod Codec
pub mod Roundtrip
use symnav.Prelude.{
  ◌≡◌, ℕ, zero, suc, ◌+◌, ◌*◌, ◌/◌, ◌%◌, ◌^◌, min, max, Bool, true, false, ◌&&◌, Option, none, some,
  ltb, if◌then◌else◌,
}

abbrev pub mebibyte : ℕ
mebibyte = 1024 * 1024

pub record DaemonSystemMemory : Type 0 where
  pub total_bytes : ℕ
  pub constrained_bytes : Option ℕ

pub record TransportPolicy : Type 0 where
  pub single_response_timeout_ms : ℕ
  pub status_response_timeout_ms : ℕ
  pub execution_admission_timeout_ms : ℕ
  pub maximum_json_payload_bytes : ℕ
  pub maximum_execution_control_payload_bytes : ℕ

pub record StartupPolicy : Type 0 where
  pub coordination_grace_ms : ℕ
  pub heartbeat_interval_ms : ℕ
  pub authorization_poll_interval_ms : ℕ
  pub observation_poll_interval_ms : ℕ
  pub previous_instance_termination_timeout_ms : ℕ
  pub child_failure_retry_limit : ℕ

pub record ShutdownPolicy : Type 0 where
  pub idle_timeout_ms : ℕ
  pub stop_timeout_ms : ℕ
  pub forced_termination_reserve_maximum_ms : ℕ
  pub controller_poll_interval_ms : ℕ
  pub process_signal_exit_timeout_ms : ℕ
  pub process_exit_poll_interval_ms : ℕ
  pub resource_drain_acknowledgement_grace_ms : ℕ
  pub resource_drain_acknowledgement_poll_interval_ms : ℕ

pub record DeliveryPolicy : Type 0 where
  pub post_acceptance_execution_reattachment_limit : ℕ
  pub result_transfer_resume_limit_per_execution_attempt : ℕ

pub record OutputPolicy : Type 0 where
  pub maximum_chunk_raw_bytes : ℕ
  pub inline_raw_bytes : ℕ
  pub maximum_result_raw_bytes : ℕ
  pub maximum_aggregate_spool_raw_bytes : ℕ

pub record ResourcesPolicy : Type 0 where
  pub effective_memory_bytes : ℕ
  pub hard_process_rss_bytes : ℕ
  pub soft_process_rss_bytes : ℕ
  pub resume_process_rss_bytes : ℕ
  pub worker_max_old_generation_size_mib : ℕ
  pub supervision_interval_ms : ℕ
  pub replacement_window_ms : ℕ
  pub replacement_limit : ℕ
  pub worker_heap_sample_interval_ms : ℕ

pub record DiagnosticsPolicy : Type 0 where
  pub log_rotate_bytes : ℕ
  pub log_backup_count : ℕ
  pub maximum_queued_events : ℕ
  pub disconnected_trace_retention_ms : ℕ
  pub maximum_disconnected_traces : ℕ

pub record DaemonPolicyValues : Type 0 where
  pub transport : TransportPolicy
  pub startup : StartupPolicy
  pub shutdown : ShutdownPolicy
  pub delivery : DeliveryPolicy
  pub output : OutputPolicy
  pub resources : ResourcesPolicy
  pub diagnostics : DiagnosticsPolicy

unfoldable pub clamp : ℕ → ℕ → ℕ → ℕ
clamp value minimum maximum = max minimum (min maximum value)

-- The limit of a container counts where it is set and below the memory of the machine.
unfoldable pub effective_memory_bytes_of : DaemonSystemMemory → ℕ
effective_memory_bytes_of memory = elim memory.constrained_bytes [
  | none ↦ memory.total_bytes
  | some c ↦ if ltb 0 c && ltb c memory.total_bytes then c else memory.total_bytes
]

-- The distance of the doubles next to `n / 2^53`, in units of 2^-53. The fuel bounds the bits of `n`
-- above 53: a size of at most 8192 MiB has 13.
abbrev unit_of : ℕ → ℕ → ℕ
unit_of zero n = 1
unit_of (suc fuel) n = let half = unit_of fuel (n / 2) in if ltb n (2 ^ 53) then 1 else 2 * half

-- `n` to the nearest multiple of `u`.
abbrev round_even : ℕ → ℕ → ℕ
round_even n u =
    let q = n / u in
    let r = n % u in u * (if ltb (2 * r) u then q else if ltb u (2 * r) then q + 1 else q + q % 2)

-- `Math.floor(x * d)` where `d` is the double `mantissa / 2^53`.
unfoldable pub floor_times : ℕ → ℕ → ℕ
floor_times mantissa x = let n = mantissa * x in round_even n (unit_of 16 n) / 2 ^ 53

unfoldable pub soft_of : ℕ → ℕ
unfolding floor_times
soft_of hard_mib = floor_times 7205759403792794 hard_mib

unfoldable pub resume_of : ℕ → ℕ
unfolding floor_times
resume_of hard_mib = floor_times 6305039478318694 hard_mib

unfoldable pub resources_of : ℕ → ResourcesPolicy
unfolding clamp soft_of resume_of
resources_of effective_bytes =
    let effective_mib = max 1 (effective_bytes / mebibyte) in
    let hard_mib = clamp (effective_mib / 2) 256 8192 in
    record {
      effective_memory_bytes = effective_bytes;
      hard_process_rss_bytes = hard_mib * mebibyte;
      soft_process_rss_bytes = soft_of hard_mib * mebibyte;
      resume_process_rss_bytes = resume_of hard_mib * mebibyte;
      worker_max_old_generation_size_mib = clamp (effective_mib / 4) 128 4096;
      supervision_interval_ms = 250;
      replacement_window_ms = 600000;
      replacement_limit = 2;
      worker_heap_sample_interval_ms = 25;
    }

unfoldable pub from_system_memory : DaemonSystemMemory → DaemonPolicyValues
from_system_memory memory = record {
  transport = record {
    single_response_timeout_ms = 250;
    status_response_timeout_ms = 100;
    execution_admission_timeout_ms = 5000;
    maximum_json_payload_bytes = 8388608;
    maximum_execution_control_payload_bytes = 262144;
  };
  startup = record {
    coordination_grace_ms = 15000;
    heartbeat_interval_ms = 100;
    authorization_poll_interval_ms = 10;
    observation_poll_interval_ms = 20;
    previous_instance_termination_timeout_ms = 300000;
    child_failure_retry_limit = 1;
  };
  shutdown = record {
    idle_timeout_ms = 1800000;
    stop_timeout_ms = 5000;
    forced_termination_reserve_maximum_ms = 500;
    controller_poll_interval_ms = 20;
    process_signal_exit_timeout_ms = 500;
    process_exit_poll_interval_ms = 20;
    resource_drain_acknowledgement_grace_ms = 250;
    resource_drain_acknowledgement_poll_interval_ms = 5;
  };
  delivery = record {
    post_acceptance_execution_reattachment_limit = 1;
    result_transfer_resume_limit_per_execution_attempt = 1;
  };
  output = record {
    maximum_chunk_raw_bytes = 65536;
    inline_raw_bytes = 262144;
    maximum_result_raw_bytes = 268435456;
    maximum_aggregate_spool_raw_bytes = 536870912;
  };
  resources = resources_of (effective_memory_bytes_of memory);
  diagnostics = record {
    log_rotate_bytes = 10485760;
    log_backup_count = 4;
    maximum_queued_events = 1024;
    disconnected_trace_retention_ms = 300000;
    maximum_disconnected_traces = 1024;
  };
}
