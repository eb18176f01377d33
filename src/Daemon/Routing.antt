-- ===== src/Daemon/Routing.antt =====
-- packages/daemon/src/client/daemon-routing-policy.ts: where the client sends a command. The three
-- operations behind the context are parameters, and the context writes down each call of one. Of
-- a record and an observation, only what the guards read is here.
pub mod Decision
use symnav.Prelude.{
  ◌≡◌, Bool, true, false, not, Option, none, some, List, [], ◌∷◌, ◌++◌, Text, text_eq, Result, ok,
  err, if◌then◌else◌,
}

pub data DaemonState : Type 0 where
  starting ready : DaemonState

pub record DaemonRecord : Type 0 where
  pub instance_id : Text
  pub symnav_version : Text
  pub state : DaemonState

pub record DaemonPong : Type 0 where
  pub symnav_version : Text
  pub state : DaemonState

pub data DaemonObservation : Type 0 where
  starting unresponsive exited incompatible corrupt : DaemonObservation
  responsive : DaemonPong → DaemonObservation

pub data ColdReason : Type 0 where
  absent starting recovering : ColdReason

pub data FallbackReason : Type 0 where
  dead incompatible : FallbackReason

pub data DaemonRouteSnapshot : Type 0 where
  disabled : DaemonRouteSnapshot
  cold : ColdReason → DaemonRouteSnapshot
  warm : DaemonRecord → DaemonRouteSnapshot
  fallback : FallbackReason → DaemonRouteSnapshot

pub data RoutingError : Type 0 where
  read_failed no_record no_decision : RoutingError

-- What the operations do when they are called: the read gives a record or none, or throws; the
-- observation is given or rejected.
pub record DaemonRoutingOperations : Type 0 where
  pub read_record_operation : Result RoutingError (Option DaemonRecord)
  pub observe_operation : DaemonRecord → Option DaemonObservation

pub data Call : Type 0 where
  reads : Call
  observes removes : DaemonRecord → Call

pub record DaemonRoutingContextState : Type 0 where
  pub product_version : Text
  pub record_read : Option (Result RoutingError (Option DaemonRecord))
  pub observation : Option (Option DaemonObservation)
  pub calls : List Call

unfoldable pub context_of : Text → DaemonRoutingContextState
context_of version = record {
  product_version = version;
  record_read = none;
  observation = none;
  calls = [];
}

-- What a call gives, and the context after it.
pub record Evaluated {ℓ} (A : Type ℓ) : Type ℓ where
  pub context : DaemonRoutingContextState
  pub outcome : A

unfoldable pub remove_if_process :
    DaemonRecord → DaemonRoutingContextState → DaemonRoutingContextState
remove_if_process r c = record c { calls = c.calls ++ removes r ∷ [] }

abbrev pub Verdict : Type 0
Verdict = Evaluated (Result RoutingError (Option DaemonRouteSnapshot))

abbrev verdict : DaemonRoutingContextState → Option DaemonRouteSnapshot → Verdict
verdict c d = record { context = c; outcome = ok d }

abbrev present : Result RoutingError (Option DaemonRecord) → Option DaemonRouteSnapshot
present (ok none) = some (cold absent)
present (ok (some r)) = none
present (err e) = some (cold recovering)

unfoldable pub is_starting : DaemonState → Bool
is_starting DaemonState.starting = true
is_starting DaemonState.ready = false

abbrev map_ok :
    (Option DaemonRecord → Option DaemonRouteSnapshot)
    → Result RoutingError (Option DaemonRecord)
    → Result RoutingError (Option DaemonRouteSnapshot)
map_ok f (ok r) = ok (f r)
map_ok f (err e) = err e

unfoldable not_starting : Option DaemonRecord → Option DaemonRouteSnapshot
unfolding is_starting
not_starting none = none
not_starting (some r) = if is_starting r.state then some (cold ColdReason.starting) else none

-- `undefined` is no version of a product.
unfoldable same_version : Text → Option DaemonRecord → Option DaemonRouteSnapshot
same_version version none = some (fallback FallbackReason.incompatible)
same_version version (some r) =
    if text_eq r.symnav_version version then none else some (fallback FallbackReason.incompatible)

unfoldable route_of_pong : Text → DaemonRecord → DaemonPong → DaemonRouteSnapshot
unfolding is_starting
route_of_pong version r pong =
    if text_eq pong.symnav_version version
    then (if is_starting pong.state then cold recovering else warm r)
    else fallback FallbackReason.incompatible

unfoldable route_of_observation :
    DaemonRecord → Option DaemonObservation → DaemonRoutingContextState → Verdict
unfolding route_of_pong remove_if_process
route_of_observation r none c = verdict c (some (cold recovering))
route_of_observation r (some (responsive pong)) c =
    verdict c (some (route_of_pong c.product_version r pong))
route_of_observation r (some DaemonObservation.starting) c =
    verdict c (some (cold ColdReason.starting))
route_of_observation r (some unresponsive) c = verdict c (some (cold recovering))
route_of_observation r (some exited) c = verdict (remove_if_process r c) (some (fallback dead))
route_of_observation r (some DaemonObservation.incompatible) c =
    verdict c (some (fallback FallbackReason.incompatible))
route_of_observation r (some corrupt) c = verdict c (some (fallback FallbackReason.incompatible))

module _ (operations : DaemonRoutingOperations) where
  -- The record, or the error, of the first read is kept.
  unfoldable pub read_record :
      DaemonRoutingContextState → Evaluated (Result RoutingError (Option DaemonRecord))
  read_record c = elim c.record_read [
    | some kept ↦ record { context = c; outcome = kept }
    | none ↦ record {
      context = record c {
        record_read = some operations.read_record_operation;
        calls = c.calls ++ reads ∷ [];
      };
      outcome = operations.read_record_operation;
    }
  ]

  unfoldable pub observe :
      DaemonRecord → DaemonRoutingContextState → Evaluated (Option DaemonObservation)
  observe r c = elim c.observation [
    | some kept ↦ record { context = c; outcome = kept }
    | none ↦ record {
      context = record c {
        observation = some (operations.observe_operation r);
        calls = c.calls ++ observes r ∷ [];
      };
      outcome = operations.observe_operation r;
    }
  ]

  unfoldable pub record_present_guard : DaemonRoutingContextState → Verdict
  unfolding read_record
  record_present_guard c = let r = read_record c in verdict r.context (present r.outcome)

  unfoldable pub not_starting_guard : DaemonRoutingContextState → Verdict
  unfolding read_record not_starting
  not_starting_guard c =
      let r = read_record c in
      record { context = r.context; outcome = map_ok not_starting r.outcome }

  unfoldable pub record_version_guard : DaemonRoutingContextState → Verdict
  unfolding read_record same_version
  record_version_guard c =
      let r = read_record c in
      record { context = r.context; outcome = map_ok (same_version c.product_version) r.outcome }

  -- Without a record, which the guards before it do not let happen, there is nothing to observe.
  unfoldable observed :
      Result RoutingError (Option DaemonRecord) → DaemonRoutingContextState → Verdict
  unfolding observe route_of_observation
  observed (err e) c = record { context = c; outcome = err e }
  observed (ok none) c = record { context = c; outcome = err no_record }
  observed (ok (some r)) c =
      let seen = observe r c in route_of_observation r seen.outcome seen.context

  unfoldable pub responsive_guard : DaemonRoutingContextState → Verdict
  unfolding read_record observed
  responsive_guard c = let r = read_record c in observed r.outcome r.context

  unfoldable pub decide_by :
      List (DaemonRoutingContextState → Verdict)
      → DaemonRoutingContextState
      → Evaluated (Result RoutingError DaemonRouteSnapshot)
  decide_by [] c = record { context = c; outcome = err no_decision }
  decide_by (guard ∷ guards) c =
      let v = guard c in
      elim v.outcome [
        | err e ↦ record { context = v.context; outcome = err e }
        | ok (some decision) ↦ record { context = v.context; outcome = ok decision }
        | ok none ↦ decide_by guards v.context
      ]

  unfoldable pub decide :
      DaemonRoutingContextState → Evaluated (Result RoutingError DaemonRouteSnapshot)
  unfolding decide_by record_present_guard not_starting_guard record_version_guard responsive_guard
  decide c =
      decide_by
        (record_present_guard ∷ not_starting_guard ∷ record_version_guard ∷ responsive_guard ∷ []) c
