-- ===== src/Daemon/Failures.antt =====
-- packages/daemon/src/daemon-execution-failure.ts and state-write-failure.ts: why an execution
-- failed, as the daemon reports it to its client.
use symnav.Prelude.{
  ◌≡◌, refl, Bool, true, false, Option, none, some, List, [], ◌∷◌, Text, text, text_eq, is_some,
  if◌then◌else◌,
}

pub data DaemonExecutionFailureCode : Type 0 where
  worker_exit controlled_resource response_capacity stopping internal : DaemonExecutionFailureCode

pub record DaemonStateWriteFailure : Type 0 where
  pub path : Text
  pub os_code : Option Text

-- The spelling of a code on the wire.
abbrev pub code_text : DaemonExecutionFailureCode → Text
code_text worker_exit = text "worker-exit"
code_text controlled_resource = text "controlled-resource"
code_text response_capacity = text "response-capacity"
code_text stopping = text "stopping"
code_text internal = text "internal"

abbrev pub execution_failure_codes : List DaemonExecutionFailureCode
execution_failure_codes =
    worker_exit ∷ controlled_resource ∷ response_capacity ∷ stopping ∷ internal ∷ []

find_code : Text → List DaemonExecutionFailureCode → Option DaemonExecutionFailureCode
find_code value [] = none
find_code value (c ∷ cs) = if text_eq (code_text c) value then some c else find_code value cs

-- The code that a value spells, if it is one.
unfoldable pub code_of : Text → Option DaemonExecutionFailureCode
unfolding find_code text_eq
code_of value = find_code value execution_failure_codes

unfoldable pub is_code : Text → Bool
unfolding code_of
is_code value = is_some (code_of value)

pub data ShutdownFailureCode : Type 0 where
  stopping controlled_resource : ShutdownFailureCode

pub record DaemonExecutionFailureContext : Type 0 where
  pub resource_interrupted : Bool
  pub response_capacity_exceeded : Bool
  pub worker_exited : Bool
  pub shutdown_failure_code : Option ShutdownFailureCode
  pub shutdown_started : Bool

abbrev of_shutdown : ShutdownFailureCode → DaemonExecutionFailureCode
of_shutdown ShutdownFailureCode.stopping = DaemonExecutionFailureCode.stopping
of_shutdown ShutdownFailureCode.controlled_resource = DaemonExecutionFailureCode.controlled_resource

abbrev is_stopping : Option ShutdownFailureCode → Bool
is_stopping (some ShutdownFailureCode.stopping) = true
is_stopping _ = false

after_shutdown : Option ShutdownFailureCode → Bool → DaemonExecutionFailureCode
after_shutdown (some code) started = of_shutdown code
after_shutdown none started =
    if started then DaemonExecutionFailureCode.stopping else DaemonExecutionFailureCode.internal

unfoldable pub classify : DaemonExecutionFailureContext → DaemonExecutionFailureCode
unfolding after_shutdown
classify context =
    if context.resource_interrupted
    then DaemonExecutionFailureCode.controlled_resource
    else if context.response_capacity_exceeded
    then DaemonExecutionFailureCode.response_capacity
    else if context.worker_exited
    then (if is_stopping context.shutdown_failure_code
        then DaemonExecutionFailureCode.stopping
        else DaemonExecutionFailureCode.worker_exit)
    else after_shutdown context.shutdown_failure_code context.shutdown_started

-- Every code is found again under its own spelling.
pub code_of-code_text : (c : DaemonExecutionFailureCode) → code_of (code_text c) ≡ some c
unfolding code_of
code_of-code_text worker_exit = refl
code_of-code_text controlled_resource = refl
code_of-code_text response_capacity = refl
code_of-code_text DaemonExecutionFailureCode.stopping = refl
code_of-code_text internal = refl
