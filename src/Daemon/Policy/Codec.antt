-- ===== src/Daemon/Policy/Codec.antt =====
-- The form of a policy between two processes (`DaemonPolicyCodec`): what is written, and what is
-- accepted when it is read.
use symnav.Prelude.{
  ℕ, ◌^◌, ◌-◌, Bool, true, false, not, ◌&&◌, ◌||◌, List, [], ◌∷◌, Text, text, text_eq, text_lt,
  sort_by, Result, ok, err, ◌>>=◌, ◌>>◌, throw_if, ltb, leb, if◌then◌else◌, ◌==◌,
}
use symnav.Daemon.Request.{Value, undefined, number, object, Fields, no_fields, field}
use symnav.Daemon.Policy.{
  DaemonPolicyValues, TransportPolicy, StartupPolicy, ShutdownPolicy, DeliveryPolicy, OutputPolicy,
  ResourcesPolicy, DiagnosticsPolicy,
}

pub data PolicyError : Type 0 where
  invalid_daemon_policy : PolicyError

-- `Number.MAX_SAFE_INTEGER`
abbrev pub max_safe_integer : ℕ
max_safe_integer = 2 ^ 53 - 1

abbrev pub keys_of : Fields → List Text
keys_of no_fields = []
keys_of (field k v rest) = k ∷ keys_of rest

abbrev pub values_of : Fields → List Value
values_of no_fields = []
values_of (field k v rest) = v ∷ values_of rest

unfoldable pub same_texts : List Text → List Text → Bool
same_texts [] [] = true
same_texts (a ∷ as_left) (b ∷ as_right) = text_eq a b && same_texts as_left as_right
same_texts _ _ = false

unfoldable pub exact_keys : Fields → List Text → Result PolicyError (Unit {0})
unfolding same_texts sort_by text_eq text_lt
exact_keys fields keys =
    throw_if (not (same_texts (sort_by text_lt (keys_of fields)) (sort_by text_lt keys)))
      invalid_daemon_policy

-- A property; one that is not there is `undefined`.
unfoldable pub property : Text → Fields → Value
unfolding text_eq
property k no_fields = undefined
property k (field j v rest) = if text_eq j k then v else property k rest

unfoldable pub is_record : Value → Result PolicyError Fields
is_record (object fields) = ok fields
is_record _ = err invalid_daemon_policy

unfoldable pub nonnegative_integer : Value → Result PolicyError ℕ
nonnegative_integer (number n) = throw_if (ltb max_safe_integer n) invalid_daemon_policy >> ok n
nonnegative_integer _ = err invalid_daemon_policy

unfoldable pub integer : Fields → Text → Result PolicyError ℕ
unfolding property nonnegative_integer
integer section key = nonnegative_integer (property key section)

unfoldable pub all_integers : List Value → Result PolicyError (Unit {0})
unfolding nonnegative_integer
all_integers [] = ok tt
all_integers (v ∷ vs) = let later = all_integers vs in nonnegative_integer v >>= λ n. later

unfoldable pub section : Fields → Text → List Text → Result PolicyError Fields
unfolding property is_record exact_keys
section values name keys = do
  fields ← is_record (property name values)
  exact_keys fields keys
  ok fields

-- A field that has to be positive.
unfoldable pub positive : Fields → Text → Result PolicyError (Unit {0})
unfolding integer
positive section key = do n ← integer section key; throw_if (n == 0) invalid_daemon_policy

abbrev pub transport_keys : List Text
transport_keys =
    text "singleResponseTimeoutMs"
    ∷ text "statusResponseTimeoutMs"
    ∷ text "executionAdmissionTimeoutMs"
    ∷ text "maximumJsonPayloadBytes"
    ∷ text "maximumExecutionControlPayloadBytes"
    ∷ []

abbrev pub startup_keys : List Text
startup_keys =
    text "coordinationGraceMs"
    ∷ text "heartbeatIntervalMs"
    ∷ text "authorizationPollIntervalMs"
    ∷ text "observationPollIntervalMs"
    ∷ text "previousInstanceTerminationTimeoutMs"
    ∷ text "childFailureRetryLimit"
    ∷ []

abbrev pub shutdown_keys : List Text
shutdown_keys =
    text "idleTimeoutMs"
    ∷ text "stopTimeoutMs"
    ∷ text "forcedTerminationReserveMaximumMs"
    ∷ text "controllerPollIntervalMs"
    ∷ text "processSignalExitTimeoutMs"
    ∷ text "processExitPollIntervalMs"
    ∷ text "resourceDrainAcknowledgementGraceMs"
    ∷ text "resourceDrainAcknowledgementPollIntervalMs"
    ∷ []

abbrev pub delivery_keys : List Text
delivery_keys =
    text "postAcceptanceExecutionReattachmentLimit"
    ∷ text "resultTransferResumeLimitPerExecutionAttempt"
    ∷ []

abbrev pub output_keys : List Text
output_keys =
    text "maximumChunkRawBytes"
    ∷ text "inlineRawBytes"
    ∷ text "maximumResultRawBytes"
    ∷ text "maximumAggregateSpoolRawBytes"
    ∷ []

abbrev pub resources_keys : List Text
resources_keys =
    text "effectiveMemoryBytes"
    ∷ text "hardProcessRssBytes"
    ∷ text "softProcessRssBytes"
    ∷ text "resumeProcessRssBytes"
    ∷ text "workerMaxOldGenerationSizeMiB"
    ∷ text "supervisionIntervalMs"
    ∷ text "replacementWindowMs"
    ∷ text "replacementLimit"
    ∷ text "workerHeapSampleIntervalMs"
    ∷ []

abbrev pub diagnostics_keys : List Text
diagnostics_keys =
    text "logRotateBytes"
    ∷ text "logBackupCount"
    ∷ text "maximumQueuedEvents"
    ∷ text "disconnectedTraceRetentionMs"
    ∷ text "maximumDisconnectedTraces"
    ∷ []

abbrev pub section_names : List Text
section_names =
    text "transport"
    ∷ text "startup"
    ∷ text "shutdown"
    ∷ text "delivery"
    ∷ text "output"
    ∷ text "resources"
    ∷ text "diagnostics"
    ∷ []

-- The checks across the limits of memory.
unfoldable pub validate_resources : Fields → Result PolicyError (Unit {0})
unfolding integer
validate_resources resources = do
  hard ← integer resources (text "hardProcessRssBytes")
  soft ← integer resources (text "softProcessRssBytes")
  resume ← integer resources (text "resumeProcessRssBytes")
  throw_if (leb hard soft || leb soft resume) invalid_daemon_policy

unfoldable pub validate_output : Fields → Result PolicyError (Unit {0})
unfolding integer
validate_output output = do
  chunk ← integer output (text "maximumChunkRawBytes")
  inline ← integer output (text "inlineRawBytes")
  result ← integer output (text "maximumResultRawBytes")
  aggregate ← integer output (text "maximumAggregateSpoolRawBytes")
  throw_if (chunk == 0 || (ltb inline chunk || (ltb result inline || ltb aggregate result)))
      invalid_daemon_policy

unfoldable pub validate_values : Fields → Result PolicyError (Unit {0})
validate_values values = do
  exact_keys values section_names
  transport ← section values (text "transport") transport_keys
  startup ← section values (text "startup") startup_keys
  shutdown ← section values (text "shutdown") shutdown_keys
  delivery ← section values (text "delivery") delivery_keys
  output ← section values (text "output") output_keys
  resources ← section values (text "resources") resources_keys
  diagnostics ← section values (text "diagnostics") diagnostics_keys
  all_integers (values_of transport)
  all_integers (values_of startup)
  all_integers (values_of shutdown)
  all_integers (values_of delivery)
  all_integers (values_of output)
  all_integers (values_of resources)
  all_integers (values_of diagnostics)
  positive startup (text "heartbeatIntervalMs")
  positive startup (text "authorizationPollIntervalMs")
  positive startup (text "observationPollIntervalMs")
  positive shutdown (text "controllerPollIntervalMs")
  positive shutdown (text "processExitPollIntervalMs")
  positive shutdown (text "resourceDrainAcknowledgementPollIntervalMs")
  positive resources (text "supervisionIntervalMs")
  positive resources (text "workerHeapSampleIntervalMs")
  validate_resources resources
  validate_output output

-- `serialize`
abbrev pub transport_fields : TransportPolicy → Fields
transport_fields p =
    (field (text "singleResponseTimeoutMs") (number p.single_response_timeout_ms) (
      field (text "statusResponseTimeoutMs") (number p.status_response_timeout_ms) (
        field (text "executionAdmissionTimeoutMs") (number p.execution_admission_timeout_ms) (
          field (text "maximumJsonPayloadBytes") (number p.maximum_json_payload_bytes) (
            field (text "maximumExecutionControlPayloadBytes")
              (number p.maximum_execution_control_payload_bytes) no_fields)))))

abbrev pub startup_fields : StartupPolicy → Fields
startup_fields p =
    (field (text "coordinationGraceMs") (number p.coordination_grace_ms) (
      field (text "heartbeatIntervalMs") (number p.heartbeat_interval_ms) (
        field (text "authorizationPollIntervalMs") (number p.authorization_poll_interval_ms) (
          field (text "observationPollIntervalMs") (number p.observation_poll_interval_ms) (
            field (text "previousInstanceTerminationTimeoutMs")
              (number p.previous_instance_termination_timeout_ms)
              (field (text "childFailureRetryLimit") (number p.child_failure_retry_limit)
                no_fields))))))

abbrev pub shutdown_fields : ShutdownPolicy → Fields
shutdown_fields p =
    (field (text "idleTimeoutMs") (number p.idle_timeout_ms) (
      field (text "stopTimeoutMs") (number p.stop_timeout_ms) (
        field (text "forcedTerminationReserveMaximumMs")
          (number p.forced_termination_reserve_maximum_ms)
          (field (text "controllerPollIntervalMs") (number p.controller_poll_interval_ms) (
            field (text "processSignalExitTimeoutMs") (number p.process_signal_exit_timeout_ms) (
              field (text "processExitPollIntervalMs") (number p.process_exit_poll_interval_ms) (
                field (text "resourceDrainAcknowledgementGraceMs")
                  (number p.resource_drain_acknowledgement_grace_ms)
                  (field (text "resourceDrainAcknowledgementPollIntervalMs")
                    (number p.resource_drain_acknowledgement_poll_interval_ms) no_fields))))))))

abbrev pub delivery_fields : DeliveryPolicy → Fields
delivery_fields p =
    (field (text "postAcceptanceExecutionReattachmentLimit")
      (number p.post_acceptance_execution_reattachment_limit)
      (field (text "resultTransferResumeLimitPerExecutionAttempt")
        (number p.result_transfer_resume_limit_per_execution_attempt) no_fields))

abbrev pub output_fields : OutputPolicy → Fields
output_fields p =
    (field (text "maximumChunkRawBytes") (number p.maximum_chunk_raw_bytes) (
      field (text "inlineRawBytes") (number p.inline_raw_bytes) (
        field (text "maximumResultRawBytes") (number p.maximum_result_raw_bytes) (
          field (text "maximumAggregateSpoolRawBytes") (number p.maximum_aggregate_spool_raw_bytes)
            no_fields))))

abbrev pub resources_fields : ResourcesPolicy → Fields
resources_fields p =
    (field (text "effectiveMemoryBytes") (number p.effective_memory_bytes) (
      field (text "hardProcessRssBytes") (number p.hard_process_rss_bytes) (
        field (text "softProcessRssBytes") (number p.soft_process_rss_bytes) (
          field (text "resumeProcessRssBytes") (number p.resume_process_rss_bytes) (
            field (text "workerMaxOldGenerationSizeMiB")
              (number p.worker_max_old_generation_size_mib)
              (field (text "supervisionIntervalMs") (number p.supervision_interval_ms) (
                field (text "replacementWindowMs") (number p.replacement_window_ms) (
                  field (text "replacementLimit") (number p.replacement_limit) (
                    field (text "workerHeapSampleIntervalMs")
                      (number p.worker_heap_sample_interval_ms) no_fields)))))))))

abbrev pub diagnostics_fields : DiagnosticsPolicy → Fields
diagnostics_fields p =
    (field (text "logRotateBytes") (number p.log_rotate_bytes) (
      field (text "logBackupCount") (number p.log_backup_count) (
        field (text "maximumQueuedEvents") (number p.maximum_queued_events) (
          field (text "disconnectedTraceRetentionMs") (number p.disconnected_trace_retention_ms) (
            field (text "maximumDisconnectedTraces") (number p.maximum_disconnected_traces)
              no_fields)))))

abbrev pub values_fields : DaemonPolicyValues → Fields
values_fields p =
    (field (text "transport") (object (transport_fields p.transport)) (
      field (text "startup") (object (startup_fields p.startup)) (
        field (text "shutdown") (object (shutdown_fields p.shutdown)) (
          field (text "delivery") (object (delivery_fields p.delivery)) (
            field (text "output") (object (output_fields p.output)) (
              field (text "resources") (object (resources_fields p.resources)) (
                field (text "diagnostics") (object (diagnostics_fields p.diagnostics))
                  no_fields)))))))

unfoldable pub serialize : DaemonPolicyValues → Value
serialize values = object (
    field (text "schemaVersion") (number 1)
      (field (text "values") (object (values_fields values)) no_fields))

abbrev is_one : Value → Bool
is_one (number n) = n == 1
is_one _ = false

-- `parse`, whose copy by `JSON.parse(JSON.stringify(values))` is the record that was validated.
unfoldable pub parse : Value → Result PolicyError Fields
parse value = do
  fields ← is_record value
  exact_keys fields (text "schemaVersion" ∷ text "values" ∷ [])
  throw_if (not (is_one (property (text "schemaVersion") fields))) invalid_daemon_policy
  values ← is_record (property (text "values") fields)
  validate_values values
  ok values
