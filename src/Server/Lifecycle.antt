-- ===== src/Server/Lifecycle.antt =====
-- internal/server/lifecycle.go: the runtime of one service. A `Slot` is a `serviceRuntime` with
-- what the Go runtime keeps for it: the timers and the callbacks that wait for the mutex, and the
-- tracked connections whose `sync.Once` has not run. Each function is the part of a method that
-- runs under the mutex of the runtime. What the scaler and the network answer is an argument.
pub mod Invariant
pub mod Idle
pub mod InUse
mod Tests
use tearenv.Common.{
  ℕ, suc, ◌+◌, ◌-◌, ℤ, pos, Text, codes, Bool, true, false, not, ◌&&◌, ◌||◌, Option, none, some,
  is_some, List, [], ◌∷◌, ◌++◌, any, ◌==◌, ltb, if◌then◌else◌,
}
use tearenv.Authorization.{Service, Workload}

pub data ServiceType : Type 0 where
  unknown static managed : ServiceType

pub data OpenResult : Type 0 where
  success denied scaler_unavailable scale_error dial_error : OpenResult

-- `scaler.Target`.
pub record Target : Type 0 where
  pub kind : Text
  pub namespace : Text
  pub name : Text

unfoldable pub scaler_target : Workload → Target
scaler_target w = record { kind = w.kind; namespace = w.namespace; name = w.name }

-- The calls of the scaler with their outcome, and those of the metrics. `fault` is a call through
-- a nil scaler or a nil workload.
pub data Event : Type 0 where
  scale_call : Target → ℤ → Bool → Event
  workload_started workload_stopped fault : Event
  connection_opened connection_closed : ServiceType → Event
  service_opened : ServiceType → OpenResult → Event

pub record ServiceRuntime : Type 0 where
  pub workload : Option Workload
  pub label : Text
  pub active : ℕ
  pub scaled : Bool
  pub idle_timer : Option ℕ

-- A timer that has fired is a callback that waits for the mutex.
pub record Timer : Type 0 where
  pub id : ℕ
  pub fired : Bool

pub record Slot : Type 0 where
  pub runtime : ServiceRuntime
  pub open runtime use *
  pub timers : List Timer
  pub next_timer : ℕ
  pub connections : List (ℕ × ServiceType)
  pub next_connection : ℕ
  pub trace : List Event

-- `&serviceRuntime{}`.
abbrev pub new_slot : Slot
new_slot = record {
  runtime = record { workload = none; label = []; active = 0; scaled = false; idle_timer = none };
  timers = [];
  next_timer = 0;
  connections = [];
  next_connection = 0;
  trace = [];
}

-- The answers of the scaler and of the network during one `Open`: the dial that is made first, and
-- those that follow on ticks before the readiness deadline.
pub record Answers : Type 0 where
  pub scale_up : Bool
  pub first_dial : Bool
  pub later_dials : List Bool
  pub scale_down : Bool

unfoldable pub emit : Event → Slot → Slot
emit e s = record s { trace = e ∷ s.trace }

-- `Timer.Stop` removes a timer that has not fired; a callback that has fired still runs.
pub stop : ℕ → List Timer → List Timer
stop t [] = []
stop t (x ∷ xs) = if x.id == t && not x.fired then stop t xs else x ∷ stop t xs

unfoldable pub stop_idle_timer : Slot → Slot
stop_idle_timer s = elim s.idle_timer [
  | none ↦ s
  | some t ↦ record s { runtime = record s.runtime { idle_timer = none }; timers = stop t s.timers }
]

-- `lifecycleGateway.scale` with the answer of the backend; `configured` says that there is one.
unfoldable pub scale : Bool → Option Workload → ℤ → Bool → Slot → Slot × Bool
unfolding emit scaler_target
scale true (some w) replicas answer s =
    (emit (scale_call (scaler_target w) replicas answer) s, answer)
scale _ _ _ _ s = (emit fault s, false)

unfoldable pub set_scaled : Bool → Event → Slot → Slot
unfolding emit
set_scaled b e s = emit e (record s { runtime = record s.runtime { scaled = b } })

-- `scale(…, 0)`, and the bookkeeping where it succeeds.
unfoldable pub scale_to_zero : Bool → Option Workload → Bool → Slot → Slot × Bool
unfolding scale set_scaled
scale_to_zero configured w answer s =
    let (s', done) = scale configured w (pos 0) answer s in
    if done then (set_scaled false workload_stopped s', true) else (s', false)

-- `dialService`: a static target is dialled once; a managed one again on each tick until it answers
-- or its deadline passes.
unfoldable pub dial_service : Option Workload → Answers → Bool
dial_service none a = a.first_dial
dial_service (some w) a = a.first_dial || any (λ b. b) a.later_dials

-- The first part of `Open` under the mutex: workload, label, idle timer.
unfoldable pub prepare : Text → Service → Slot → Slot
unfolding stop_idle_timer
prepare identity service s = stop_idle_timer (record s {
  runtime = record s.runtime {
    workload = elim service.workload [ none ↦ s.workload | some w ↦ some w ];
    label = identity ++ b'/' ∷ service.name;
  };
})

-- The second part: scale the workload up unless it is.
unfoldable pub ensure_scaled : Bool → Option Workload → Answers → Slot → Slot × Option OpenResult
unfolding scale set_scaled
ensure_scaled configured none a s = (s, none)
ensure_scaled configured (some w) a s =
    if s.scaled
    then (s, none)
    else if not configured
    then (s, some scaler_unavailable)
    else let (s', done) = scale configured (some w) w.replicas a.scale_up s in
      if done then (set_scaled true workload_started s', none) else (s', some scale_error)

abbrev pub service_type : Option Workload → ServiceType
service_type none = static
service_type (some w) = managed

unfoldable pub track : ServiceType → Slot → Slot
unfolding emit
track kind s = emit (connection_opened kind) (record s {
  runtime = record s.runtime { active = s.active + 1 };
  connections = (s.next_connection, kind) ∷ s.connections;
  next_connection = s.next_connection + 1;
})

-- The last part: dial, and scale down again where that fails and nobody else is connected.
unfoldable pub connect : Bool → Option Workload → Answers → Slot → Slot × OpenResult
unfolding dial_service scale_to_zero track
connect configured w a s =
    if dial_service w a
    then (track (service_type w) s, success)
    else if is_some w && s.active == 0
    then ((scale_to_zero configured w a.scale_down s).0, dial_error)
    else (s, dial_error)

abbrev pub continue_open :
    Bool → Option Workload → Answers → Slot × Option OpenResult → Slot × OpenResult
continue_open configured w a (s, none) = connect configured w a s
continue_open configured w a (s, some failed) = (s, failed)

-- `Open` for a granted service, with the metric of the deferred call.
unfoldable pub open_slot : Bool → Text → Service → Answers → Slot → Slot × OpenResult
unfolding prepare ensure_scaled connect emit
open_slot configured identity service a s =
    let (s', result) =
      continue_open configured service.workload a
        (ensure_scaled configured service.workload a (prepare identity service s)) in
    (emit (service_opened (service_type service.workload) result) s', result)

-- `time.AfterFunc(delay, …)`.
unfoldable pub arm : Slot → Slot
arm s = record s {
  runtime = record s.runtime { idle_timer = some s.next_timer };
  timers = record { id = s.next_timer; fired = false } ∷ s.timers;
  next_timer = s.next_timer + 1;
}

unfoldable pub drop_active : ServiceType → Slot → Slot
unfolding emit
drop_active kind s =
    if ltb 0 s.active
    then emit (connection_closed kind)
        (record s { runtime = record s.runtime { active = s.active - 1 } })
    else s

unfoldable pub arm_if_idle : Slot → Slot
unfolding arm
arm_if_idle s = if not (s.active == 0) || not (is_some s.workload) || not s.scaled then s else arm s

-- `release`.
unfoldable pub release : ServiceType → Slot → Slot
unfolding drop_active arm_if_idle
release kind s = arm_if_idle (drop_active kind s)

-- The connection with a number, and the others.
unfoldable pub find_connection :
    ℕ → List (ℕ × ServiceType) → Option (ServiceType × List (ℕ × ServiceType))
find_connection n [] = none
find_connection n ((i, kind) ∷ rest) =
    if i == n then some (kind, rest) else elim (find_connection n rest) [
      | none ↦ none
      | some (k, others) ↦ some (k, (i, kind) ∷ others)
    ]

-- `trackedConnection.Close`: the release runs once.
unfoldable pub close : ℕ → Slot → Slot
unfolding release
close n s = elim (find_connection n s.connections) [
  | none ↦ s
  | some (kind, others) ↦ release kind (record s { connections = others })
]

-- The delay of a timer has passed: its callback waits for the mutex from now on.
unfoldable pub fire : ℕ → List Timer → List Timer
fire t [] = []
fire t (x ∷ xs) = if x.id == t then record x { fired = true } ∷ xs else x ∷ fire t xs

unfoldable pub expire : ℕ → Slot → Slot
unfolding fire
expire t s = record s { timers = fire t s.timers }

-- The function that `release` hands to `AfterFunc`.
unfoldable pub idle_callback : Bool → Bool → Slot → Slot
unfolding scale_to_zero
idle_callback configured answer s =
    if not (s.active == 0) || not s.scaled
    then s
    else let (s', done) = scale_to_zero configured s.workload answer s in
      if done then record s' { runtime = record s'.runtime { idle_timer = none } } else s'

-- A waiting callback, and the timers without it.
unfoldable pub take_fired : ℕ → List Timer → Option (List Timer)
take_fired t [] = none
take_fired t (x ∷ xs) =
    if x.id == t && x.fired
    then some xs
    else elim (take_fired t xs) [ none ↦ none | some rest ↦ some (x ∷ rest) ]

-- A waiting callback gets the mutex.
unfoldable pub run_callback : Bool → ℕ → Bool → Slot → Slot
unfolding take_fired idle_callback
run_callback configured t answer s = elim (take_fired t s.timers) [
  | none ↦ s
  | some rest ↦ idle_callback configured answer (record s { timers = rest })
]

-- One round of the loop of `Shutdown`, and whether it failed.
unfoldable pub shutdown_slot : Bool → Bool → Slot → Slot × Bool
unfolding stop_idle_timer scale_to_zero
shutdown_slot configured answer s =
    let s' = stop_idle_timer s in
    if s'.scaled && is_some s'.workload
    then (let (s'', done) = scale_to_zero configured s'.workload answer s' in (s'', not done))
    else (s', false)
