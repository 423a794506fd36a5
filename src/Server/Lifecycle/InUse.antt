-- ===== src/Server/Lifecycle/InUse.antt =====
-- What does not happen to a workload of lifecycle.go while somebody is connected, and what a
-- connection gets.
use tearenv.Common.{
  ℕ, suc, ◌<◌, ◌≡◌, refl, is_zero, Text, Bool, true, Option, none, some, List, [], ◌∷◌,
  if◌then◌else◌, arith, Option-cases, inl, inr,
}
use tearenv.Authorization.{Service, Workload}
use tearenv.Server.Lifecycle.{
  ServiceType, OpenResult, Event, scale_call, Slot, Answers, emit, prepare, ensure_scaled, connect,
  continue_open, open_slot, release, find_connection, close, expire, run_callback, take_fired,
}

-- How often the scaler was asked for zero replicas.
abbrev pub downscales : List Event → ℕ
downscales [] = 0
downscales (scale_call w n b ∷ es) = if is_zero n then suc (downscales es) else downscales es
downscales (_ ∷ es) = downscales es

-- A workload that is up, and to which nothing was asked to go down since `before`.
pub record IsUp (before s : Slot) : Type 0 where
  pub up : s.scaled ≡ true
  pub spared : downscales s.trace ≡ downscales before.trace

module _ (configured : Bool) where
  ensure_in_use :
      (identity : Text) (service : Service) (a : Answers) (s : Slot)
      → s.scaled ≡ true
      → let r = ensure_scaled configured service.workload a (prepare identity service s) in
        (r.1 ≡ none) × (r.0.scaled ≡ true) × (r.0.active ≡ s.active) × (r.0.trace ≡ s.trace)
  unfolding ensure_scaled prepare
  ensure_in_use identity service a s up = (ground arith, ground arith, ground arith, ground arith)

  connect_in_use :
      (w : Option Workload) (a : Answers) (before s : Slot)
      → s.scaled ≡ true
      → 0 < s.active
      → s.trace ≡ before.trace
      → IsUp before (connect configured w a s).0
  unfolding connect
  connect_in_use w a before s up busy same = ground arith

  continue_in_use :
      (w : Option Workload) (a : Answers) (before : Slot) (r : Slot × Option OpenResult)
      → r.1 ≡ none
      → r.0.scaled ≡ true
      → 0 < r.0.active
      → r.0.trace ≡ before.trace
      → IsUp before (continue_open configured w a r).0
  continue_in_use w a before (s, none) e up busy same = connect_in_use w a before s up busy same
  continue_in_use w a before (s, some failed) e up busy same = cc

  -- An open on a runtime in use neither takes the workload down nor marks it so, whatever the
  -- scaler and the network answer.
  pub open_slot-IsUp :
      (identity : Text) (service : Service) (a : Answers) (s : Slot)
      → s.scaled ≡ true
      → 0 < s.active
      → IsUp s (open_slot configured identity service a s).0
  unfolding open_slot emit
  open_slot-IsUp identity service a s up busy =
      let (e, up', n, t) = ensure_in_use identity service a s up in
      let v =
        continue_in_use service.workload a s
          (ensure_scaled configured service.workload a (prepare identity service s)) e up'
          (omega arith) t in
      record { up = v.up; spared = v.spared }

  -- A callback of an idle timer that gets the mutex while somebody is connected only goes away.
  pub run_callback-in_use :
      (t : ℕ) (answer : Bool) (s : Slot)
      → 0 < s.active
      → ((run_callback configured t answer s).runtime ≡ s.runtime)
        × ((run_callback configured t answer s).trace ≡ s.trace)
  unfolding run_callback
  run_callback-in_use t answer s busy = elim (Option-cases (take_fired t s.timers)) [
    | inl missing ↦ rw (missing, run_callback) (refl, refl)
    | inr (rest, found) ↦ rw (found, run_callback) (ground arith, ground arith)
  ]

-- The four operations on a runtime other than shutdown.
pub data Move : Type 0 where
  opens : Text → Service → Answers → Move
  closes expires : ℕ → Move
  runs : ℕ → Bool → Move

unfoldable pub move : Bool → Move → Slot → Slot
move configured (opens identity service a) s = (open_slot configured identity service a s).0
move configured (closes n) s = close n s
move configured (expires t) s = expire t s
move configured (runs t answer) s = run_callback configured t answer s

release-IsUp :
    (k : ServiceType) (before s : Slot)
    → s.scaled ≡ true
    → s.trace ≡ before.trace
    → IsUp before (release k s)
unfolding release
release-IsUp k before s up same = ground arith

close-IsUp : (n : ℕ) (s : Slot) → s.scaled ≡ true → IsUp s (close n s)
unfolding close
close-IsUp n s up = elim (Option-cases (find_connection n s.connections)) [
  | inl missing ↦ rw (missing, close) (record { up = up; spared = refl })
  | inr ((k, others), found) ↦
      rw (found, close) (release-IsUp k s (record s { connections = others }) up refl)
]

-- While a connection to a scaled workload is open nothing but a shutdown takes the workload down:
-- after any open, close, expiry or callback, with any answers, it is still marked as scaled and
-- the scaler was not asked for zero replicas.
pub move-IsUp :
    (configured : Bool) (m : Move) (s : Slot)
    → s.scaled ≡ true
    → 0 < s.active
    → IsUp s (move configured m s)
unfolding move expire
move-IsUp configured (opens identity service a) s up busy =
    open_slot-IsUp configured identity service a s up busy
move-IsUp configured (closes n) s up busy = close-IsUp n s up
move-IsUp configured (expires t) s up busy = record { up = up; spared = refl }
move-IsUp configured (runs t answer) s up busy =
    let (same, quiet) = run_callback-in_use configured t answer s busy in
    record { up = rw same up; spared = rw quiet refl }
