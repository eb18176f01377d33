-- ===== src/Daemon/Policy/Roundtrip.antt =====
-- What the codec writes it reads again, for every policy that meets the codec's own checks, and
-- every policy that `from_system_memory` makes meets them.
use symnav.Prelude.{◌≡◌, refl, ℕ, ◌≤◌, ◌<◌, List, [], ◌∷◌, map, arith, All, ok, text}
use symnav.Daemon.Request.{number}
use symnav.Daemon.Policy.{
  DaemonSystemMemory, DaemonPolicyValues, from_system_memory, effective_memory_bytes_of,
  resources_of, TransportPolicy, StartupPolicy, ShutdownPolicy, DeliveryPolicy, OutputPolicy,
  ResourcesPolicy, DiagnosticsPolicy,
}
use symnav.Daemon.Policy.Bounds.{IsBounded, resources_bounds}
use symnav.Daemon.Policy.Codec.{
  exact_keys, property, is_record, section_names, max_safe_integer, nonnegative_integer,
  all_integers, positive, section, validate_resources, validate_output, validate_values,
  values_fields, serialize, parse, transport_fields, transport_keys, startup_fields, startup_keys,
  shutdown_fields, shutdown_keys, delivery_fields, delivery_keys, output_fields, output_keys,
  resources_fields, resources_keys, diagnostics_fields, diagnostics_keys,
}

abbrev IsSafe : ℕ → Type 0
IsSafe n = n ≤ max_safe_integer

abbrev pub transport_numbers : TransportPolicy → List ℕ
transport_numbers p =
    p.single_response_timeout_ms ∷ p.status_response_timeout_ms ∷ p.execution_admission_timeout_ms
    ∷ p.maximum_json_payload_bytes ∷ p.maximum_execution_control_payload_bytes ∷ []

abbrev pub startup_numbers : StartupPolicy → List ℕ
startup_numbers p =
    p.coordination_grace_ms ∷ p.heartbeat_interval_ms ∷ p.authorization_poll_interval_ms
    ∷ p.observation_poll_interval_ms ∷ p.previous_instance_termination_timeout_ms
    ∷ p.child_failure_retry_limit ∷ []

abbrev pub shutdown_numbers : ShutdownPolicy → List ℕ
shutdown_numbers p =
    p.idle_timeout_ms ∷ p.stop_timeout_ms ∷ p.forced_termination_reserve_maximum_ms
    ∷ p.controller_poll_interval_ms ∷ p.process_signal_exit_timeout_ms
    ∷ p.process_exit_poll_interval_ms ∷ p.resource_drain_acknowledgement_grace_ms
    ∷ p.resource_drain_acknowledgement_poll_interval_ms ∷ []

abbrev pub delivery_numbers : DeliveryPolicy → List ℕ
delivery_numbers p =
    p.post_acceptance_execution_reattachment_limit
    ∷ p.result_transfer_resume_limit_per_execution_attempt ∷ []

abbrev pub output_numbers : OutputPolicy → List ℕ
output_numbers p =
    p.maximum_chunk_raw_bytes ∷ p.inline_raw_bytes ∷ p.maximum_result_raw_bytes
    ∷ p.maximum_aggregate_spool_raw_bytes ∷ []

abbrev pub resources_numbers : ResourcesPolicy → List ℕ
resources_numbers p =
    p.effective_memory_bytes ∷ p.hard_process_rss_bytes ∷ p.soft_process_rss_bytes
    ∷ p.resume_process_rss_bytes ∷ p.worker_max_old_generation_size_mib ∷ p.supervision_interval_ms
    ∷ p.replacement_window_ms ∷ p.replacement_limit ∷ p.worker_heap_sample_interval_ms ∷ []

abbrev pub diagnostics_numbers : DiagnosticsPolicy → List ℕ
diagnostics_numbers p =
    p.log_rotate_bytes ∷ p.log_backup_count ∷ p.maximum_queued_events
    ∷ p.disconnected_trace_retention_ms ∷ p.maximum_disconnected_traces ∷ []

-- The checks of the codec, on the numbers of a policy.
pub record IsSound (p : DaemonPolicyValues) : Type 0 where
  pub transport_safe : All IsSafe (transport_numbers p.transport)
  pub startup_safe : All IsSafe (startup_numbers p.startup)
  pub shutdown_safe : All IsSafe (shutdown_numbers p.shutdown)
  pub delivery_safe : All IsSafe (delivery_numbers p.delivery)
  pub output_safe : All IsSafe (output_numbers p.output)
  pub resources_safe : All IsSafe (resources_numbers p.resources)
  pub diagnostics_safe : All IsSafe (diagnostics_numbers p.diagnostics)
  pub heartbeat_interval_ms_positive : 0 < p.startup.heartbeat_interval_ms
  pub authorization_poll_interval_ms_positive : 0 < p.startup.authorization_poll_interval_ms
  pub observation_poll_interval_ms_positive : 0 < p.startup.observation_poll_interval_ms
  pub controller_poll_interval_ms_positive : 0 < p.shutdown.controller_poll_interval_ms
  pub process_exit_poll_interval_ms_positive : 0 < p.shutdown.process_exit_poll_interval_ms
  pub resource_drain_acknowledgement_poll_interval_ms_positive :
      0 < p.shutdown.resource_drain_acknowledgement_poll_interval_ms
  pub supervision_interval_ms_positive : 0 < p.resources.supervision_interval_ms
  pub worker_heap_sample_interval_ms_positive : 0 < p.resources.worker_heap_sample_interval_ms
  pub maximum_chunk_raw_bytes_positive : 0 < p.output.maximum_chunk_raw_bytes
  pub soft_below_hard : p.resources.soft_process_rss_bytes < p.resources.hard_process_rss_bytes
  pub resume_below_soft : p.resources.resume_process_rss_bytes < p.resources.soft_process_rss_bytes
  pub chunk_fits : p.output.maximum_chunk_raw_bytes ≤ p.output.inline_raw_bytes
  pub inline_fits : p.output.inline_raw_bytes ≤ p.output.maximum_result_raw_bytes
  pub result_fits : p.output.maximum_result_raw_bytes ≤ p.output.maximum_aggregate_spool_raw_bytes

all_integers-number : (ns : List ℕ) → All IsSafe ns → all_integers (map number ns) ≡ ok tt
unfolding all_integers
all_integers-number [] h = refl
all_integers-number (n ∷ ns) h = ground (arith, all_integers-number ns h.1)

nonnegative_integer-number : (n : ℕ) → IsSafe n → nonnegative_integer (number n) ≡ ok n
unfolding nonnegative_integer
nonnegative_integer-number n h = ground arith

section-transport :
    (p : DaemonPolicyValues)
    → section (values_fields p) (text "transport") transport_keys
      ≡ ok (transport_fields p.transport)
unfolding section
section-transport p = refl

section-startup :
    (p : DaemonPolicyValues)
    → section (values_fields p) (text "startup") startup_keys ≡ ok (startup_fields p.startup)
unfolding section
section-startup p = refl

section-shutdown :
    (p : DaemonPolicyValues)
    → section (values_fields p) (text "shutdown") shutdown_keys ≡ ok (shutdown_fields p.shutdown)
unfolding section
section-shutdown p = refl

section-delivery :
    (p : DaemonPolicyValues)
    → section (values_fields p) (text "delivery") delivery_keys ≡ ok (delivery_fields p.delivery)
unfolding section
section-delivery p = refl

section-output :
    (p : DaemonPolicyValues)
    → section (values_fields p) (text "output") output_keys ≡ ok (output_fields p.output)
unfolding section
section-output p = refl

section-resources :
    (p : DaemonPolicyValues)
    → section (values_fields p) (text "resources") resources_keys
      ≡ ok (resources_fields p.resources)
unfolding section
section-resources p = refl

section-diagnostics :
    (p : DaemonPolicyValues)
    → section (values_fields p) (text "diagnostics") diagnostics_keys
      ≡ ok (diagnostics_fields p.diagnostics)
unfolding section
section-diagnostics p = refl

validate_resources_sound :
    (p : DaemonPolicyValues) → IsSound p → validate_resources (resources_fields p.resources) ≡ ok tt
unfolding validate_resources
validate_resources_sound p s = ground arith

validate_output_sound :
    (p : DaemonPolicyValues) → IsSound p → validate_output (output_fields p.output) ≡ ok tt
unfolding validate_output
validate_output_sound p s = ground arith

module _ (p : DaemonPolicyValues) (s : IsSound p) where
  positives :
      (positive (startup_fields p.startup) (text "heartbeatIntervalMs") ≡ ok tt)
      × (positive (startup_fields p.startup) (text "authorizationPollIntervalMs") ≡ ok tt)
      × (positive (startup_fields p.startup) (text "observationPollIntervalMs") ≡ ok tt)
      × (positive (shutdown_fields p.shutdown) (text "controllerPollIntervalMs") ≡ ok tt)
      × (positive (shutdown_fields p.shutdown) (text "processExitPollIntervalMs") ≡ ok tt)
      × (positive (shutdown_fields p.shutdown) (text "resourceDrainAcknowledgementPollIntervalMs")
          ≡ ok tt)
      × (positive (resources_fields p.resources) (text "supervisionIntervalMs") ≡ ok tt)
      × (positive (resources_fields p.resources) (text "workerHeapSampleIntervalMs") ≡ ok tt)
  unfolding positive
  positives = ground arith

  names : exact_keys (values_fields p) section_names ≡ ok tt
  unfolding exact_keys
  names = refl

  validate_values_sound : validate_values (values_fields p) ≡ ok tt
  unfolding validate_values
  validate_values_sound =
      let (p₁, p₂, p₃, p₄, p₅, p₆, p₇, p₈) = positives in
      rw (
        names,
        section-transport p,
        section-startup p,
        section-shutdown p,
        section-delivery p,
        section-output p,
        section-resources p,
        section-diagnostics p,
        all_integers-number (transport_numbers p.transport) s.transport_safe,
        all_integers-number (startup_numbers p.startup) s.startup_safe,
        all_integers-number (shutdown_numbers p.shutdown) s.shutdown_safe,
        all_integers-number (delivery_numbers p.delivery) s.delivery_safe,
        all_integers-number (output_numbers p.output) s.output_safe,
        all_integers-number (resources_numbers p.resources) s.resources_safe,
        all_integers-number (diagnostics_numbers p.diagnostics) s.diagnostics_safe,
        p₁,
        p₂,
        p₃,
        p₄,
        p₅,
        p₆,
        p₇,
        p₈,
        validate_resources_sound p s,
        validate_output_sound p s,
      )

  -- A policy that meets the codec's checks is read again as it was written.
  parse-serialize : parse (serialize p) ≡ ok (values_fields p)
  unfolding parse serialize is_record exact_keys property
  parse-serialize = rw (validate_values_sound)

-- The numbers of `resources_of` that do not depend on the memory.
resources_constants :
    (bytes : ℕ)
    → ((resources_of bytes).effective_memory_bytes ≡ bytes)
      × ((resources_of bytes).supervision_interval_ms ≡ 250)
      × ((resources_of bytes).replacement_window_ms ≡ 600000)
      × ((resources_of bytes).replacement_limit ≡ 2)
      × ((resources_of bytes).worker_heap_sample_interval_ms ≡ 25)
unfolding resources_of
resources_constants bytes = (refl, refl, refl, refl, refl)

-- The policy of a system meets the codec's checks.
sound :
    (memory : DaemonSystemMemory)
    → memory.total_bytes ≤ max_safe_integer
    → IsSound (from_system_memory memory)
unfolding from_system_memory
sound memory h =
    let bytes : ℕ = effective_memory_bytes_of memory in
    let b : IsBounded memory (resources_of bytes) = resources_bounds memory in
    let c = resources_constants bytes in
    record {
      transport_safe = omega arith;
      startup_safe = omega arith;
      shutdown_safe = omega arith;
      delivery_safe = omega arith;
      output_safe = omega arith;
      resources_safe = omega (arith, b, c, h);
      diagnostics_safe = omega arith;
      heartbeat_interval_ms_positive = omega arith;
      authorization_poll_interval_ms_positive = omega arith;
      observation_poll_interval_ms_positive = omega arith;
      controller_poll_interval_ms_positive = omega arith;
      process_exit_poll_interval_ms_positive = omega arith;
      resource_drain_acknowledgement_poll_interval_ms_positive = omega arith;
      supervision_interval_ms_positive = omega (arith, c);
      worker_heap_sample_interval_ms_positive = omega (arith, c);
      maximum_chunk_raw_bytes_positive = omega arith;
      soft_below_hard = b.soft_hard;
      resume_below_soft = b.resume_soft;
      chunk_fits = omega arith;
      inline_fits = omega arith;
      result_fits = omega arith;
    }

-- The policy that a daemon derives from its system passes from process to process: what the codec
-- writes of it is accepted and gives the same sections, for any memory below 2^53 bytes.
pub parse-serialize-from_system_memory :
    (memory : DaemonSystemMemory)
    → memory.total_bytes ≤ max_safe_integer
    → parse (serialize (from_system_memory memory)) ≡ ok (values_fields (from_system_memory memory))
parse-serialize-from_system_memory memory h =
    parse-serialize (from_system_memory memory) (sound memory h)
