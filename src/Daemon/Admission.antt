-- ===== src/Daemon/Admission.antt =====
-- packages/daemon/src/daemon-admission.ts: whether a request for execution is taken, rejected or
-- cut off, decided by a row of guards.
use symnav.Prelude.{
  ◌≡◌, Bool, true, false, Option, none, some, List, [], ◌∷◌, arith, Text, text, text_eq,
  text_eq_iff, refl, sym, subst, Result, ok, err, ◌↔◌, ◌≢◌, if◌then◌else◌, not,
}

pub data DaemonExecuteRejectionCode : Type 0 where
  not_ready draining resource_pressure incompatible : DaemonExecuteRejectionCode

pub data AcceptedRequestCompatibility : Type 0 where
  unseen matching conflicting : AcceptedRequestCompatibility

pub data WorkspaceRequestQueueState : Type 0 where
  accepting draining closed : WorkspaceRequestQueueState

pub record DaemonExecutionCoordinates : Type 0 where
  pub instance_id : Text
  pub process_token : Text
  pub request_id : Text

pub record DaemonRejectedExecutionFrame : Type 0 where
  pub coordinates : DaemonExecutionCoordinates
  -- a text, since a frame comes from the other process
  pub code : Text
  pub retry_safe : Bool

pub record DaemonAdmissionContext : Type 0 where
  pub authenticated : Bool
  pub worker_ready : Bool
  pub resource_admission_paused : Bool
  pub queue_state : WorkspaceRequestQueueState
  pub compatibility : AcceptedRequestCompatibility

pub data DaemonAdmissionRejectionCode : Type 0 where
  authentication : DaemonAdmissionRejectionCode
  execute : DaemonExecuteRejectionCode → DaemonAdmissionRejectionCode

pub data DaemonAdmissionDecision : Type 0 where
  accept : DaemonAdmissionDecision
  disconnect : DaemonAdmissionDecision
  reject : DaemonExecuteRejectionCode → DaemonAdmissionDecision

abbrev pub DaemonAdmissionGuard : Type 0
DaemonAdmissionGuard = DaemonAdmissionContext → Option DaemonAdmissionRejectionCode

abbrev authentication_guard : DaemonAdmissionGuard
authentication_guard context = if context.authenticated then none else some authentication

abbrev worker_readiness_guard : DaemonAdmissionGuard
worker_readiness_guard context = if context.worker_ready then none else some (execute not_ready)

abbrev resource_guard : DaemonAdmissionGuard
resource_guard context =
    if context.resource_admission_paused then some (execute resource_pressure) else none

abbrev unless_accepting : WorkspaceRequestQueueState → Option DaemonAdmissionRejectionCode
unless_accepting accepting = none
unless_accepting _ = some (execute DaemonExecuteRejectionCode.draining)

abbrev queue_guard : DaemonAdmissionGuard
queue_guard context = unless_accepting context.queue_state

abbrev if_conflicting : AcceptedRequestCompatibility → Option DaemonAdmissionRejectionCode
if_conflicting conflicting = some (execute incompatible)
if_conflicting _ = none

abbrev compatibility_guard : DaemonAdmissionGuard
compatibility_guard context = if_conflicting context.compatibility

abbrev pub guards : List DaemonAdmissionGuard
guards =
    authentication_guard ∷ worker_readiness_guard ∷ resource_guard ∷ queue_guard
    ∷ compatibility_guard ∷ []

abbrev decision : DaemonAdmissionRejectionCode → DaemonAdmissionDecision
decision authentication = disconnect
decision (execute code) = reject code

decide_by : List DaemonAdmissionGuard → DaemonAdmissionContext → DaemonAdmissionDecision
decide_by [] context = accept
decide_by (guard ∷ rest) context =
    let later = decide_by rest context in
    elim (guard context) [ none ↦ later | some rejection ↦ decision rejection ]

unfoldable pub decide : DaemonAdmissionContext → DaemonAdmissionDecision
unfolding decide_by
decide context = decide_by guards context

unfoldable pub retry_safe : DaemonExecuteRejectionCode → Bool
retry_safe not_ready = true
retry_safe DaemonExecuteRejectionCode.draining = true
retry_safe resource_pressure = true
retry_safe incompatible = false

abbrev pub code_text : DaemonExecuteRejectionCode → Text
code_text not_ready = text "not-ready"
code_text DaemonExecuteRejectionCode.draining = text "draining"
code_text resource_pressure = text "resource-pressure"
code_text incompatible = text "incompatible"

unfoldable pub frame :
    DaemonExecuteRejectionCode → DaemonExecutionCoordinates → DaemonRejectedExecutionFrame
unfolding retry_safe
frame code coordinates = record {
  coordinates = coordinates;
  code = code_text code;
  retry_safe = retry_safe code;
}

pub data InconsistentRejection : Type 0 where
  inconsistent : InconsistentRejection

abbrev same_bool : Bool → Bool → Bool
same_bool true b = b
same_bool false b = not b

-- The keys of `retrySafety`.
abbrev codes : List DaemonExecuteRejectionCode
codes = not_ready ∷ DaemonExecuteRejectionCode.draining ∷ resource_pressure ∷ incompatible ∷ []

find_code : Text → List DaemonExecuteRejectionCode → Option DaemonExecuteRejectionCode
find_code key [] = none
find_code key (c ∷ cs) =
    let later = find_code key cs in if text_eq key (code_text c) then some c else later

-- `Object.hasOwn(retrySafety, code)`, with the key that it is.
unfoldable pub own_code : Text → Option DaemonExecuteRejectionCode
unfolding find_code
own_code key = find_code key codes

abbrev assert_known :
    Bool → Option DaemonExecuteRejectionCode → Result InconsistentRejection (Unit {0})
unfolding retry_safe
assert_known safe none = err inconsistent
assert_known safe (some code) =
    if not (same_bool safe (retry_safe code)) then err inconsistent else ok tt

unfoldable pub assert_consistent :
    DaemonRejectedExecutionFrame → Result InconsistentRejection (Unit {0})
unfolding own_code retry_safe
assert_consistent f = assert_known f.retry_safe (own_code f.code)

-- A request is accepted exactly when it is authenticated, the worker is ready, admission is not
-- paused, the queue accepts and the identifier was not used for another payload.
pub decide-accept :
    (c : DaemonAdmissionContext)
    → (decide c ≡ accept) ↔ (
        (c.authenticated ≡ true)
        × (c.worker_ready ≡ true)
        × (c.resource_admission_paused ≡ false)
        × (c.queue_state ≡ accepting)
        × (c.compatibility ≢ conflicting))
unfolding decide decide_by
decide-accept c = ground arith

-- An unauthenticated request never gets anything but a cut connection.
pub decide_unauthenticated :
    (c : DaemonAdmissionContext) → c.authenticated ≡ false → decide c ≡ disconnect
unfolding decide
decide_unauthenticated c h = ground arith

-- An own key is the text of its code, and the other texts are no keys.
find_code-code_text :
    (key : Text) (cs : List DaemonExecuteRejectionCode) (c : DaemonExecuteRejectionCode)
    → find_code key cs ≡ some c
    → key ≡ code_text c
unfolding find_code
find_code-code_text key [] c h = ground arith
find_code-code_text key (d ∷ cs) c h =
    ground (arith, find_code-code_text key cs c, text_eq_iff key (code_text d))

own_code-code_text : (c : DaemonExecuteRejectionCode) → own_code (code_text c) ≡ some c
unfolding own_code find_code text_eq
own_code-code_text not_ready = refl
own_code-code_text DaemonExecuteRejectionCode.draining = refl
own_code-code_text resource_pressure = refl
own_code-code_text incompatible = refl

same_bool_eq : (a b : Bool) → same_bool a b ≡ true → a ≡ b
same_bool_eq true b h = ground arith
same_bool_eq false b h = ground arith

same_bool_refl : (a : Bool) → same_bool a a ≡ true
same_bool_refl true = refl
same_bool_refl false = refl

consistent-frame :
    (f : DaemonRejectedExecutionFrame) (o : Option DaemonExecuteRejectionCode)
    → own_code f.code ≡ o
    → assert_known f.retry_safe o ≡ ok tt
    → (code : DaemonExecuteRejectionCode) × (at : DaemonExecutionCoordinates) × (f ≡ frame code at)
unfolding frame own_code
consistent-frame f none e h = absurd (ground arith)
consistent-frame f (some code) e h = (
  code,
  f.coordinates,
  ground
      (arith, find_code-code_text f.code codes code e, same_bool_eq f.retry_safe (retry_safe code)),
)

frame-consistent :
    (code : DaemonExecuteRejectionCode) (at : DaemonExecutionCoordinates)
    → assert_consistent (frame code at) ≡ ok tt
unfolding assert_consistent frame
frame-consistent code at =
    subst (λ o. assert_known (retry_safe code) o ≡ ok tt) (sym (own_code-code_text code))
      (rw (same_bool_refl (retry_safe code)) refl)

-- A client takes a rejection for consistent exactly when it is a frame that the daemon builds of one of
-- the four codes: it throws for every other text and for every other value of `retrySafe`.
pub assert_consistent-frame :
    (f : DaemonRejectedExecutionFrame)
    → (assert_consistent f ≡ ok tt) ↔ (
        (code : DaemonExecuteRejectionCode) × (at : DaemonExecutionCoordinates) × (f
          ≡ frame code at))
unfolding assert_consistent
assert_consistent-frame f = (
  consistent-frame f (own_code f.code) refl,
  λ (code, at, e). subst (λ g. assert_consistent g ≡ ok tt) (sym e) (frame-consistent code at),
)
