-- ===== src/Server/Lifecycle/Idle.antt =====
-- The idle cycle of lifecycle.go: the last close arms a timer, its callback takes the workload
-- down, and no workload stays up with nothing to take it down unless a downscale has failed.
use tearenv.Common.{
  ℕ, ◌≡◌, ◌≢◌, refl, pos, Text, Bool, true, false, Option, none, some, is_some, List, [], ◌∷◌,
  is_empty, arith, Option-cases, Bool-cases, ◌==◌, ◌&&◌, ◌+◌, ◌++◌, inl, inr, All,
}
use tearenv.Authorization.{Service, Workload}
use tearenv.Server.Lifecycle.{
  ServiceType, OpenResult, scale_call, workload_stopped, connection_closed, Timer, Slot, Answers,
  new_slot, emit, prepare, ensure_scaled, scaler_target, connect, continue_open, open_slot, release,
  managed, service_opened, connection_opened, find_connection, dial_service, success, stop, close,
  fire, expire, run_callback, idle_callback, take_fired,
}
use tearenv.Server.Lifecycle.Invariant.{
  Inv, ensured-Inv, ensure_scaled_up, open_slot-Inv, close-Inv, expire-Inv, run_callback-Inv,
  new_slot-Inv,
}
use tearenv.Server.Lifecycle.InUse.{Move, opens, closes, expires, runs, move}

-- After the last close the callback of the new timer takes the workload down.
release_cycle :
    (k : ServiceType) (w : Workload) (s : Slot)
    → s.active ≡ 1
    → s.scaled ≡ true
    → s.workload ≡ some w
    → let r = run_callback true s.next_timer true (expire s.next_timer (release k s)) in
      (r.scaled ≡ false)
      × (r.timers ≡ s.timers)
      × (r.idle_timer ≡ none)
      × (r.active ≡ 0)
      × (r.trace
          ≡ workload_stopped
            ∷ scale_call (scaler_target w) (pos 0) true
            ∷ connection_closed k
            ∷ s.trace)
unfolding run_callback expire release
release_cycle k w s one up has =
    (ground arith, ground arith, ground arith, ground arith, ground arith)

-- When the last connection of a scaled workload is closed, the delay passes and the scaler agrees,
-- the workload is scaled to zero: exactly one scale call is made, for its own target and zero
-- replicas, the flag is cleared and no timer is left behind.
pub idle_cycle :
    (n : ℕ) (k : ServiceType) (w : Workload) (s : Slot)
    → s.active ≡ 1
    → s.scaled ≡ true
    → s.workload ≡ some w
    → find_connection n s.connections ≡ some (k, [])
    → let r = run_callback true s.next_timer true (expire s.next_timer (close n s)) in
      (r.scaled ≡ false)
      × (r.timers ≡ s.timers)
      × (r.idle_timer ≡ none)
      × (r.active ≡ 0)
      × (r.trace
          ≡ workload_stopped
            ∷ scale_call (scaler_target w) (pos 0) true
            ∷ connection_closed k
            ∷ s.trace)
unfolding close
idle_cycle n k w s one up has found =
    rw (found, close) (release_cycle k w (record s { connections = [] }) one up has)

-- The callback after the decrement.
stale_release :
    (t : ℕ) (k : ServiceType) (w : Workload) (rest : List Timer) (s : Slot)
    → s.active ≡ 1
    → s.scaled ≡ true
    → s.workload ≡ some w
    → take_fired t s.timers ≡ some rest
    → let r = run_callback true t true (release k s) in
      (r.scaled ≡ false)
      × (r.idle_timer ≡ none)
      × (r.timers ≡ record { id = s.next_timer; fired = false } ∷ rest)
unfolding run_callback release
stale_release t k w rest s one up has waiting = (ground arith, ground arith, ground arith)

-- A timer that is not taken.
take_fired-skip :
    (t : ℕ) (x : Timer) (xs rest : List Timer)
    → (x.id == t && x.fired) ≡ false
    → take_fired t (x ∷ xs) ≡ some rest
    → (later : List Timer) × (take_fired t xs ≡ some later) × (rest ≡ x ∷ later)
unfolding take_fired
take_fired-skip t x xs rest skips e = elim (Option-cases (take_fired t xs)) [
  | inl none_ ↦ absurd (ground arith)
  | inr (later, found) ↦ (later, found, ground arith)
]

-- `Timer.Stop` leaves a callback that waits.
take_fired-stop :
    (t : ℕ) (xs rest : List Timer)
    → take_fired t xs ≡ some rest
    → take_fired t (stop t xs) ≡ some (stop t rest)
unfolding take_fired stop
take_fired-stop t [] rest e = cc
take_fired-stop t (x ∷ xs) rest e = elim (Bool-cases (x.id == t)) [
  | inr other ↦
      let (later, found, split) = take_fired-skip t x xs rest (ground arith) e in
      let next = take_fired-stop t xs later found in rw (split, other) (ground arith)
  | inl same ↦ elim (Bool-cases (x.fired)) [
    | inl fired ↦ rw (same, fired) (ground arith)
    | inr pending ↦
        let (later, found, split) = take_fired-skip t x xs rest (ground arith) e in
        let next = take_fired-stop t xs later found in rw (split, same, pending) next
  ]
]

-- The state after an open that finds the workload up and whose dial succeeds.
reopened : ℕ → Text → Service → Workload → Slot → Slot
reopened t identity service w s = record {
  runtime = record {
    workload = some w;
    label = identity ++ b'/' ∷ service.name;
    active = s.active + 1;
    scaled = s.scaled;
    idle_timer = none;
  };
  timers = stop t s.timers;
  next_timer = s.next_timer;
  connections = (s.next_connection, managed) ∷ s.connections;
  next_connection = s.next_connection + 1;
  trace = service_opened managed success ∷ connection_opened managed ∷ s.trace;
}

open_slot-reopened :
    (t : ℕ) (identity : Text) (service : Service) (w : Workload) (a : Answers) (s : Slot)
    → s.scaled ≡ true
    → s.idle_timer ≡ some t
    → service.workload ≡ some w
    → dial_service (some w) a ≡ true
    → open_slot true identity service a s ≡ (reopened t identity service w s, success)
unfolding open_slot reopened
open_slot-reopened t identity service w a s up armed has dials =
    rw (armed, up, has, dials, open_slot) refl

-- A callback of the idle timer that waits while a connection is opened to a workload that is up
-- and unused and that answers survives the open: the open succeeds and counts the connection, and
-- once the connection is closed the callback, if the scaler agrees, takes the workload down
-- without a delay, and leaves the timer that the close has armed pending with no reference to it.
pub stale_callback :
    (t : ℕ) (identity : Text) (service : Service) (w : Workload) (a : Answers) (rest : List Timer)
    (s : Slot)
    → s.active ≡ 0
    → s.scaled ≡ true
    → s.idle_timer ≡ some t
    → take_fired t s.timers ≡ some rest
    → service.workload ≡ some w
    → dial_service (some w) a ≡ true
    → let (o, result) = open_slot true identity service a s in
      let r = run_callback true t true (close s.next_connection o) in
      (result ≡ success)
      × (o.active ≡ 1)
      × (r.scaled ≡ false)
      × (r.idle_timer ≡ none)
      × (r.timers ≡ record { id = s.next_timer; fired = false } ∷ stop t rest)
unfolding close reopened find_connection
stale_callback t identity service w a rest s idle up armed waiting has dials =
    let opened = open_slot-reopened t identity service w a s up armed has dials in
    let o = reopened t identity service w s in
    let found : find_connection s.next_connection o.connections ≡ some (managed, s.connections) =
      ground arith in
    let (down, gone, pending) =
      stale_release t managed w (stop t rest) (record o { connections = s.connections })
        (omega arith) up refl (take_fired-stop t s.timers rest waiting) in
    rw opened
      (refl, omega arith, rw (found, close) down, rw (found, close) gone, rw (found, close) pending)

-- A workload that is up and unused has a timer or a waiting callback.
abbrev pub Settled : Slot → Type 0
Settled s = s.scaled ≡ true → s.active ≡ 0 → is_empty s.timers ≡ false

-- An operation for a managed service in which no scaling to zero fails.
abbrev pub Cooperative : Move → Type 0
Cooperative (opens identity service a) = (is_some service.workload ≡ true) × (a.scale_down ≡ true)
Cooperative (closes n) = Unit {0}
Cooperative (expires t) = Unit {0}
Cooperative (runs t answer) = answer ≡ true

module _ (configured : Bool) where
  connect-Settled :
      (w : Workload) (a : Answers) (s : Slot)
      → Inv configured s
      → s.scaled ≡ true
      → a.scale_down ≡ true
      → Settled (connect configured (some w) a s).0
  unfolding connect
  connect-Settled w a s v up agreed up' idle = ground (arith, v.ready up)

  failed_down :
      (w : Workload) (a : Answers) (s : Slot)
      → (ensure_scaled configured (some w) a s).1 ≢ none
      → (ensure_scaled configured (some w) a s).0.scaled ≡ false
  unfolding ensure_scaled
  failed_down w a s h = ground arith

  continue-Settled :
      (w : Workload) (a : Answers) (r : Slot × Option OpenResult)
      → Inv configured r.0
      → (r.1 ≡ none → r.0.scaled ≡ true)
      → (r.1 ≢ none → r.0.scaled ≡ false)
      → a.scale_down ≡ true
      → Settled (continue_open configured (some w) a r).0
  continue-Settled w a (s, none) v up down agreed up' idle =
      connect-Settled w a s v (up refl) agreed up' idle
  continue-Settled w a (s, some failed) v up down agreed up' idle =
      let e : s.scaled ≡ false = down (λ bad. cc) in cc

  callback-Settled : (s : Slot) → Inv configured s → Settled (idle_callback configured true s)
  unfolding idle_callback
  callback-Settled s v up idle = ground (arith, v.ready)

is_empty-fire : (t : ℕ) (xs : List Timer) → is_empty (fire t xs) ≡ is_empty xs
unfolding fire
is_empty-fire t [] = refl
is_empty-fire t (x ∷ xs) = ground arith

release-Settled :
    (k : ServiceType) (others : List (ℕ × ServiceType)) (s : Slot)
    → (s.scaled ≡ true → is_some s.workload ≡ true)
    → Settled (release k (record s { connections = others }))
unfolding release
release-Settled k others s has up idle = ground arith

module _ (configured : Bool) where
  -- `ensured-Inv` at a workload that is known.
  open-Settled :
      (w : Option Workload) (identity : Text) (service : Service) (a : Answers) (s : Slot)
      → service.workload ≡ w
      → is_some w ≡ true
      → a.scale_down ≡ true
      → Inv configured s
      → Settled (open_slot configured identity service a s).0
  unfolding open_slot emit
  open-Settled none identity service a s e m agreed v = cc
  open-Settled (some w) identity service a s e m agreed v =
      let p = prepare identity service s in
      let k : Inv configured (ensure_scaled configured (some w) a p).0 =
        rw e at (ensured-Inv configured identity service a s v) in
      rw e (
        continue-Settled configured w a (ensure_scaled configured (some w) a p) k
          (ensure_scaled_up configured w a p) (failed_down configured w a p) agreed)

  close-Settled : (n : ℕ) (s : Slot) → Inv configured s → Settled s → Settled (close n s)
  unfolding close
  close-Settled n s v h = elim (Option-cases (find_connection n s.connections)) [
    | inl missing ↦ rw (missing, close) h
    | inr ((k, others), found) ↦
        rw (found, close) (release-Settled k others s (λ up. (v.ready up).1))
  ]

  callback_move-Settled :
      (t : ℕ) (s : Slot) → Inv configured s → Settled s → Settled (run_callback configured t true s)
  unfolding run_callback
  callback_move-Settled t s v h = elim (Option-cases (take_fired t s.timers)) [
    | inl missing ↦ rw (missing, run_callback) h
    | inr (rest, found) ↦
        rw (found, run_callback)
          (callback-Settled configured (record s { timers = rest }) (ground arith))
  ]

  move-Settled :
      (m : Move) (s : Slot)
      → Cooperative m
      → Inv configured s
      → Settled s
      → Settled (move configured m s)
  unfolding move expire
  move-Settled (opens identity service a) s (m, agreed) v h =
      open-Settled service.workload identity service a s refl m agreed v
  move-Settled (closes n) s c v h = close-Settled n s v h
  move-Settled (expires t) s c v h = λ up idle. rw (is_empty-fire t s.timers) (h up idle)
  move-Settled (runs t answer) s c v h = rw c (callback_move-Settled t s v h)

  move-Inv : (m : Move) (s : Slot) → Inv configured s → Inv configured (move configured m s)
  unfolding move
  move-Inv (opens identity service a) s v = open_slot-Inv configured identity service a s v
  move-Inv (closes n) s v = close-Inv configured n s v
  move-Inv (expires t) s v = expire-Inv configured t s v
  move-Inv (runs t answer) s v = run_callback-Inv configured t answer s v

  unfoldable pub moves : List Move → Slot → Slot
  moves [] s = s
  moves (m ∷ ms) s = moves ms (move configured m s)

  moves-Settled :
      (ms : List Move) (s : Slot)
      → All Cooperative ms
      → Inv configured s
      → Settled s
      → Settled (moves ms s)
  unfolding moves
  moves-Settled [] s c v h = h
  moves-Settled (m ∷ ms) s (c, cs) v h =
      moves-Settled ms (move configured m s) cs (move-Inv m s v) (move-Settled m s c v h)

  -- From a new runtime of a managed service, after any sequence of opens, closes, expiries and
  -- callbacks in which no scaling to zero fails, a workload that is marked as scaled and that
  -- nobody uses has a timer or a waiting callback.
  pub no_leak : (ms : List Move) → All Cooperative ms → Settled (moves ms new_slot)
  no_leak ms c = moves-Settled ms new_slot c (new_slot-Inv configured) (λ up idle. cc)
