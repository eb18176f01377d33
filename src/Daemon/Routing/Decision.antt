-- ===== src/Daemon/Routing/Decision.antt =====
-- When a command goes to a running daemon, and what is asked to find out.
use symnav.Prelude.{
  ◌≡◌, refl, sym, ap, subst, false, ◌↔◌, Option, none, some, List, [], ◌∷◌, arith, Text, text_eq,
  text_eq_iff, Result, ok, err, if◌then◌else◌,
}
use symnav.Daemon.Routing.{
  DaemonState, ready, DaemonRecord, DaemonObservation, unresponsive, exited, corrupt, responsive,
  ColdReason, FallbackReason, absent, recovering, dead, DaemonRouteSnapshot, cold, fallback, warm,
  RoutingError, DaemonRoutingOperations, DaemonRoutingContextState, Call, reads, observes, removes,
  context_of, read_record, observe, remove_if_process, record_present_guard, is_starting,
  not_starting, not_starting_guard, same_version, record_version_guard, route_of_pong,
  route_of_observation, observed, responsive_guard, decide_by, decide,
}

-- The record of a daemon that can serve the version, as far as the record tells.
abbrev pub IsCandidate : Text → DaemonRecord → Type 0
IsCandidate version r = (r.symnav_version ≡ version) × (r.state ≡ ready)

-- The daemon answers, with the same version, and is ready.
abbrev pub IsServing : Text → Option DaemonObservation → Type 0
IsServing version (some (responsive pong)) = (pong.symnav_version ≡ version) × (pong.state ≡ ready)
IsServing version _ = ⊥

-- A route leads to the daemon of the record exactly when the record was read, is that of a
-- candidate, and the daemon serves.
abbrev pub WarmAt : Text → DaemonRoutingOperations → DaemonRecord → Type 0
WarmAt version operations r =
    (operations.read_record_operation ≡ ok (some r))
    × IsCandidate version r
    × IsServing version (operations.observe_operation r)

is_starting_iff : (s : DaemonState) → (is_starting s ≡ false) ↔ (s ≡ ready)
unfolding is_starting
is_starting_iff DaemonState.starting = ground arith
is_starting_iff ready = ground arith

abbrev operations_of :
    Result RoutingError (Option DaemonRecord)
    → (DaemonRecord → Option DaemonObservation)
    → DaemonRoutingOperations
operations_of read look = record { read_record_operation = read; observe_operation = look }

-- What the guards ask: the record, and if it is a candidate the daemon; a dead one is removed.
abbrev pub calls_of_observation : DaemonRecord → Option DaemonObservation → List Call
calls_of_observation r (some exited) = observes r ∷ removes r ∷ []
calls_of_observation r _ = observes r ∷ []

abbrev pub calls_of_record :
    Text
    → Result RoutingError (Option DaemonRecord)
    → (DaemonRecord → Option DaemonObservation)
    → List Call
calls_of_record version (err e) look = []
calls_of_record version (ok none) look = []
calls_of_record version (ok (some r)) look =
    if is_starting r.state
    then []
    else (if text_eq r.symnav_version version then calls_of_observation r (look r) else [])

route_calls :
    (r : DaemonRecord) (o : Option DaemonObservation) (c : DaemonRoutingContextState)
    → c.calls ≡ reads ∷ observes r ∷ []
    → (route_of_observation r o c).context.calls ≡ reads ∷ calls_of_observation r o
unfolding route_of_observation remove_if_process
route_calls r none c e = e
route_calls r (some (responsive pong)) c e = e
route_calls r (some DaemonObservation.starting) c e = e
route_calls r (some unresponsive) c e = e
route_calls r (some exited) c e = rw e refl
route_calls r (some DaemonObservation.incompatible) c e = e
route_calls r (some corrupt) c e = e

decide_calls :
    (version : Text) (read : Result RoutingError (Option DaemonRecord))
    (look : DaemonRecord → Option DaemonObservation)
    → (decide (operations_of read look) (context_of version)).context.calls
      ≡ reads ∷ calls_of_record version read look
unfolding decide decide_by record_present_guard not_starting_guard record_version_guard
    responsive_guard read_record context_of not_starting same_version observed observe
decide_calls version (err e) look = refl
decide_calls version (ok none) look = refl
decide_calls version (ok (some s)) look = ground (
  arith,
  route_calls s (look s)
      (record {
        product_version = version;
        record_read = some (ok (some s));
        observation = some (look s);
        calls = reads ∷ observes s ∷ [];
      })
      refl,
)

-- The guards read the record once; they observe the daemon, once, only of a record that is not
-- starting and has the version of the client; and they remove only a record whose process exited.
pub decide-calls :
    (version : Text) (operations : DaemonRoutingOperations)
    → (decide operations (context_of version)).context.calls
      ≡ reads
        ∷ calls_of_record version operations.read_record_operation operations.observe_operation
decide-calls version operations =
    decide_calls version operations.read_record_operation operations.observe_operation

-- What an observation of a candidate's daemon leads to.
abbrev pub route_of : Text → DaemonRecord → Option DaemonObservation → DaemonRouteSnapshot
route_of version r none = cold recovering
route_of version r (some (responsive pong)) = route_of_pong version r pong
route_of version r (some DaemonObservation.starting) = cold ColdReason.starting
route_of version r (some unresponsive) = cold recovering
route_of version r (some exited) = fallback dead
route_of version r (some DaemonObservation.incompatible) = fallback FallbackReason.incompatible
route_of version r (some corrupt) = fallback FallbackReason.incompatible

route_outcome :
    (r : DaemonRecord) (o : Option DaemonObservation) (c : DaemonRoutingContextState)
    → (route_of_observation r o c).outcome ≡ ok (some (route_of c.product_version r o))
unfolding route_of_observation
route_outcome r none c = refl
route_outcome r (some (responsive pong)) c = refl
route_outcome r (some DaemonObservation.starting) c = refl
route_outcome r (some unresponsive) c = refl
route_outcome r (some exited) c = refl
route_outcome r (some DaemonObservation.incompatible) c = refl
route_outcome r (some corrupt) c = refl

abbrev pub route_of_record :
    Text
    → Result RoutingError (Option DaemonRecord)
    → (DaemonRecord → Option DaemonObservation)
    → DaemonRouteSnapshot
route_of_record version (err e) look = cold recovering
route_of_record version (ok none) look = cold absent
route_of_record version (ok (some r)) look =
    if is_starting r.state
    then cold ColdReason.starting
    else (if text_eq r.symnav_version version
        then route_of version r (look r)
        else fallback FallbackReason.incompatible)

decide_outcome :
    (version : Text) (read : Result RoutingError (Option DaemonRecord))
    (look : DaemonRecord → Option DaemonObservation)
    → (decide (operations_of read look) (context_of version)).outcome
      ≡ ok (route_of_record version read look)
unfolding decide decide_by record_present_guard not_starting_guard record_version_guard
    responsive_guard read_record context_of not_starting same_version observed observe
decide_outcome version (err e) look = refl
decide_outcome version (ok none) look = refl
decide_outcome version (ok (some s)) look = ground (
  arith,
  route_outcome s (look s) (record {
    product_version = version;
    record_read = some (ok (some s));
    observation = some (look s);
    calls = reads ∷ observes s ∷ [];
  }),
)

route_of-warm :
    (version : Text) (s r : DaemonRecord) (o : Option DaemonObservation)
    → (route_of version s o ≡ warm r) ↔ ((s ≡ r) × IsServing version o)
unfolding route_of_pong
route_of-warm version s r none = ground arith
route_of-warm version s r (some (responsive pong)) =
    ground (arith, text_eq_iff pong.symnav_version version, is_starting_iff pong.state)
route_of-warm version s r (some DaemonObservation.starting) = ground arith
route_of-warm version s r (some unresponsive) = ground arith
route_of-warm version s r (some exited) = ground arith
route_of-warm version s r (some DaemonObservation.incompatible) = ground arith
route_of-warm version s r (some corrupt) = ground arith

IsCandidate-warm :
    (version : Text) (look : DaemonRecord → Option DaemonObservation) (s r : DaemonRecord)
    → (route_of_record version (ok (some s)) look ≡ warm r)
      ↔ ((s ≡ r) × IsCandidate version s × IsServing version (look s))
IsCandidate-warm version look s r = ground (
  arith,
  route_of-warm version s r (look s),
  is_starting_iff s.state,
  text_eq_iff s.symnav_version version,
)

-- A candidate's record, with what is asked of the record of the route.
record_warm :
    (version : Text) (read : Result RoutingError (Option DaemonRecord))
    (look : DaemonRecord → Option DaemonObservation) (r : DaemonRecord)
    → (route_of_record version read look ≡ warm r) ↔ WarmAt version (operations_of read look) r
record_warm version (err e) look r = ground arith
record_warm version (ok none) look r = ground arith
record_warm version (ok (some s)) look r = (forth, back)
  where
    Serves : DaemonRecord → Type 0
    Serves q = IsCandidate version q × IsServing version (look q)

    forth :
        route_of_record version (ok (some s)) look ≡ warm r
        → WarmAt version (operations_of (ok (some s)) look) r
    forth h = found ((IsCandidate-warm version look s r).0 h)
      where
        found :
            ((s ≡ r) × IsCandidate version s × IsServing version (look s))
            → WarmAt version (operations_of (ok (some s)) look) r
        found (e, c, q) =
            (ap (λ x. ok (some x)) e, (subst Serves e (c, q)).0, (subst Serves e (c, q)).1)

    back :
        WarmAt version (operations_of (ok (some s)) look) r
        → route_of_record version (ok (some s)) look ≡ warm r
    back (e, c, q) =
        (IsCandidate-warm version look s r).1
          (same, (subst Serves (sym same) (c, q)).0, (subst Serves (sym same) (c, q)).1)
      where
        same : s ≡ r
        same = cc

-- A command goes to the daemon of a record exactly when the record was read, its daemon has the
-- version of the client and is not starting, and the daemon answers with that version and is ready.
pub decide-warm :
    (version : Text) (operations : DaemonRoutingOperations) (r : DaemonRecord)
    → ((decide operations (context_of version)).outcome ≡ ok (warm r)) ↔ WarmAt version operations r
decide-warm version operations r = ground (
  arith,
  decide_outcome version operations.read_record_operation operations.observe_operation,
  record_warm version operations.read_record_operation operations.observe_operation r,
)
