-- ===== src/Daemon/Supervisor.antt =====
-- packages/daemon/src/resources/resource-supervisor.ts: the supervisor of the daemon's memory.
-- What runs up to the next wait is one step, and what a promise settles is another: the end of the
-- worker's replacement, of the drain, of the release of the transient resources. The calls of the
-- options are the effects of a step; the clock, the memory and the spool are read by the input.
pub mod Limit
pub mod Pressure
use symnav.Prelude.{
  ◌≡◌, ℕ, zero, suc, ◌+◌, ◌≤◌, max, Bool, true, false, not, ◌&&◌, ◌||◌, Option, none, some, List,
  [], ◌∷◌, ◌++◌, ltb, leb, length, filter, get_or, is_some, if◌then◌else◌, ◌==◌,
}
use symnav.Daemon.Policy.{ResourcesPolicy}

pub data DaemonResourceState : Type 0 where
  warming ready active shedding replacing draining stopped : DaemonResourceState

pub data DaemonWorkerReplacementCause : Type 0 where
  hard_pressure out_of_memory worker_exit shed_failure : DaemonWorkerReplacementCause

-- The promise of `replacementOperation`: the worker's replacement or the drain still runs, or its
-- callbacks ran and the last one, which forgets the promise, has still to.
pub data Operation : Type 0 where
  replacement drain_running settled : Operation

-- The promise of `shedOperation`: given to the boundary, releasing, or over but not forgotten.
pub data Shed : Type 0 where
  scheduled releasing finished : Shed

pub record DaemonResourceSupervisor : Type 0 where
  pub timer : Bool
  pub current_state : DaemonResourceState
  pub current_generation : ℕ
  pub current_process_rss_bytes : ℕ
  pub peak_process_rss_bytes : ℕ
  pub current_spool_bytes : ℕ
  pub admission_paused : Bool
  pub shed_completed : Bool
  pub shed_operation : Option Shed
  pub worker_heap_used_bytes : Option ℕ
  pub peak_worker_heap_used_bytes : Option ℕ
  pub worker_heap_limit_bytes : Option ℕ
  pub replacement_count : ℕ
  pub replacement_times : List ℕ
  pub replacement_operation : Option Operation

pub data Effect : Type 0 where
  set_interval clear_interval schedule_at_turn_boundary release_transient_resources drain : Effect
  replace_worker : DaemonWorkerReplacementCause → Effect

pub record Stepped : Type 0 where
  pub supervisor : DaemonResourceSupervisor
  pub effects : List Effect

unfoldable pub supervisor_of : ℕ → DaemonResourceSupervisor
supervisor_of generation = record {
  timer = false;
  current_state = ready;
  current_generation = generation;
  current_process_rss_bytes = 0;
  peak_process_rss_bytes = 0;
  current_spool_bytes = 0;
  admission_paused = false;
  shed_completed = false;
  shed_operation = none;
  worker_heap_used_bytes = none;
  peak_worker_heap_used_bytes = none;
  worker_heap_limit_bytes = none;
  replacement_count = 0;
  replacement_times = [];
  replacement_operation = none;
}

abbrev quiet : DaemonResourceSupervisor → Stepped
quiet s = record { supervisor = s; effects = [] }

unfoldable pub is_stopped : DaemonResourceState → Bool
is_stopped stopped = true
is_stopped _ = false

-- `currentState === "draining" || currentState === "stopped"`
unfoldable pub is_over : DaemonResourceState → Bool
is_over draining = true
is_over stopped = true
is_over _ = false

unfoldable pub start : DaemonResourceSupervisor → Stepped
unfolding is_stopped
start s =
    if s.timer || is_stopped s.current_state
    then quiet s
    else record { supervisor = record s { timer = true }; effects = set_interval ∷ [] }

unfoldable pub stop : DaemonResourceSupervisor → Stepped
stop s = record {
  supervisor = record s { timer = false; current_state = stopped };
  effects = if s.timer then clear_interval ∷ [] else [];
}

unfoldable pub capture_usage : ℕ → ℕ → DaemonResourceSupervisor → DaemonResourceSupervisor
capture_usage rss spool s = record s {
  current_process_rss_bytes = rss;
  peak_process_rss_bytes = max s.peak_process_rss_bytes rss;
  current_spool_bytes = spool;
}

-- `replacedAt > now - window`, where the difference may be below zero.
unfoldable pub in_window : ResourcesPolicy → ℕ → ℕ → Bool
in_window policy now replaced_at = ltb now (replaced_at + policy.replacement_window_ms)

unfoldable pub recent : ResourcesPolicy → ℕ → List ℕ → List ℕ
unfolding in_window
recent policy now times = filter (in_window policy now) times

-- The operation that is pending is joined.
unfoldable pub replace :
    ResourcesPolicy → DaemonWorkerReplacementCause → ℕ → DaemonResourceSupervisor → Stepped
unfolding recent
replace policy cause now s =
    if is_some s.replacement_operation
    then quiet s
    else (if leb policy.replacement_limit (length (recent policy now s.replacement_times))
        then record {
          supervisor = record s {
            replacement_times = recent policy now s.replacement_times;
            current_state = draining;
            admission_paused = true;
            replacement_operation = some drain_running;
          };
          effects = drain ∷ [];
        }
        else record {
          supervisor = record s {
            replacement_times = recent policy now s.replacement_times;
            current_state = replacing;
            admission_paused = true;
            replacement_operation = some replacement;
          };
          effects = replace_worker cause ∷ [];
        })

-- A shed starts at the boundary that the caller gives: now, or when the queue comes to one.
unfoldable pub shed : Bool → DaemonResourceSupervisor → Stepped
shed at_boundary s =
    if is_some s.shed_operation
    then quiet s
    else (if at_boundary
        then record {
          supervisor = record s { shed_operation = some releasing };
          effects = release_transient_resources ∷ [];
        }
        else record {
          supervisor = record s { shed_operation = some scheduled };
          effects = schedule_at_turn_boundary ∷ [];
        })

unfoldable pub apply_pressure : ResourcesPolicy → Bool → ℕ → DaemonResourceSupervisor → Stepped
unfolding replace shed
apply_pressure policy at_boundary now s =
    if leb policy.hard_process_rss_bytes s.current_process_rss_bytes
    then replace policy hard_pressure now s
    else (if leb s.current_process_rss_bytes policy.resume_process_rss_bytes
        then quiet
            (record s { admission_paused = false; shed_completed = false; current_state = ready })
        else (if ltb s.current_process_rss_bytes policy.soft_process_rss_bytes
            then quiet s
            else (let paused : DaemonResourceSupervisor = record s {
              admission_paused = true;
              current_state = shedding;
            } in
                if s.shed_completed then quiet paused else shed at_boundary paused)))

-- `sample` at the queue's next boundary, and `sampleAtTurnBoundary`.
unfoldable pub sample : ResourcesPolicy → Bool → ℕ → ℕ → ℕ → DaemonResourceSupervisor → Stepped
unfolding is_over capture_usage apply_pressure
sample policy at_boundary now rss spool s =
    if is_over s.current_state
    then quiet s
    else apply_pressure policy at_boundary now (capture_usage rss spool s)

unfoldable pub worker_heap_reported :
    ℕ → ℕ → ℕ → ℕ → DaemonResourceSupervisor → DaemonResourceSupervisor
worker_heap_reported generation used limit peak s =
    if generation == s.current_generation
    then record s {
      worker_heap_used_bytes = some used;
      worker_heap_limit_bytes = some limit;
      peak_worker_heap_used_bytes = some (max (get_or s.peak_worker_heap_used_bytes 0) peak);
    }
    else s

unfoldable pub recover : ResourcesPolicy → ℕ → Bool → ℕ → DaemonResourceSupervisor → Stepped
unfolding is_stopped replace
recover policy generation was_out_of_memory now s =
    if not (generation == s.current_generation) || is_stopped s.current_state
    then quiet s
    else replace policy (if was_out_of_memory then out_of_memory else worker_exit) now s

abbrev runs_replacement : Option Operation → Bool
runs_replacement (some replacement) = true
runs_replacement _ = false

abbrev runs_drain : Option Operation → Bool
runs_drain (some drain_running) = true
runs_drain _ = false

abbrev is_settled : Option Operation → Bool
is_settled (some settled) = true
is_settled _ = false

abbrev is_scheduled : Option Shed → Bool
is_scheduled (some scheduled) = true
is_scheduled _ = false

abbrev is_releasing : Option Shed → Bool
is_releasing (some releasing) = true
is_releasing _ = false

-- `.then`: the worker is replaced by one of the given generation.
unfoldable pub worker_replaced : ℕ → ℕ → DaemonResourceSupervisor → Stepped
worker_replaced generation now s =
    if runs_replacement s.replacement_operation
    then quiet (record s {
      current_generation = generation;
      worker_heap_used_bytes = none;
      worker_heap_limit_bytes = none;
      replacement_count = suc s.replacement_count;
      replacement_times = s.replacement_times ++ now ∷ [];
      shed_completed = false;
      admission_paused = false;
      current_state = ready;
      replacement_operation = some settled;
    })
    else quiet s

-- `.catch`: the worker could not be replaced, and the daemon drains.
unfoldable pub replacement_failed : DaemonResourceSupervisor → Stepped
replacement_failed s =
    if runs_replacement s.replacement_operation
    then record {
      supervisor = record s {
        current_state = draining;
        replacement_operation = some drain_running;
      };
      effects = drain ∷ [];
    }
    else quiet s

-- The drain came to an end, and then `.finally`.
unfoldable pub drained : DaemonResourceSupervisor → Stepped
drained s =
    if runs_drain s.replacement_operation
    then quiet (record s { replacement_operation = some settled })
    else quiet s

unfoldable pub forget_operation : DaemonResourceSupervisor → Stepped
forget_operation s =
    if is_settled s.replacement_operation
    then quiet (record s { replacement_operation = none })
    else quiet s

-- The boundary runs the shed.
unfoldable pub begin_release : DaemonResourceSupervisor → Stepped
begin_release s =
    if is_scheduled s.shed_operation
    then record {
      supervisor = record s { shed_operation = some releasing };
      effects = release_transient_resources ∷ [];
    }
    else quiet s

unfoldable pub released : DaemonResourceSupervisor → Stepped
released s =
    if is_releasing s.shed_operation
    then quiet (record s { shed_completed = true; shed_operation = some finished })
    else quiet s

unfoldable pub release_failed : ResourcesPolicy → ℕ → DaemonResourceSupervisor → Stepped
unfolding replace
release_failed policy now s =
    if is_releasing s.shed_operation
    then replace policy shed_failure now (record s { shed_operation = some finished })
    else quiet s

-- The promise of the shed is forgotten, whether the boundary ran the shed or only another
-- operation that it had already.
unfoldable pub forget_shed : DaemonResourceSupervisor → Stepped
forget_shed s =
    if is_releasing s.shed_operation then quiet s else quiet (record s { shed_operation = none })

pub data Input : Type 0 where
  start_called stop_called : Input
  -- at a boundary or not, the time, the memory, the spool
  sampled : Bool → ℕ → ℕ → ℕ → Input
  -- generation, used, limit, peak
  heap_reported : ℕ → ℕ → ℕ → ℕ → Input
  -- generation, out of memory or not, the time
  worker_exited : ℕ → Bool → ℕ → Input
  replacement_done : ℕ → ℕ → Input
  replacement_refused drain_done operation_forgotten boundary_came release_done shed_forgotten :
      Input
  release_refused : ℕ → Input

unfoldable pub step : ResourcesPolicy → DaemonResourceSupervisor → Input → Stepped
unfolding start stop sample worker_heap_reported recover worker_replaced replacement_failed drained
    forget_operation begin_release released forget_shed release_failed
step policy s start_called = start s
step policy s stop_called = stop s
step policy s (sampled at_boundary now rss spool) = sample policy at_boundary now rss spool s
step policy s (heap_reported generation used limit peak) =
    quiet (worker_heap_reported generation used limit peak s)
step policy s (worker_exited generation oom now) = recover policy generation oom now s
step policy s (replacement_done generation now) = worker_replaced generation now s
step policy s replacement_refused = replacement_failed s
step policy s drain_done = drained s
step policy s operation_forgotten = forget_operation s
step policy s boundary_came = begin_release s
step policy s release_done = released s
step policy s shed_forgotten = forget_shed s
step policy s (release_refused now) = release_failed policy now s

unfoldable pub run :
    ResourcesPolicy → DaemonResourceSupervisor → List Input → DaemonResourceSupervisor
unfolding step
run policy s [] = s
run policy s (input ∷ inputs) = run policy (step policy s input).supervisor inputs
