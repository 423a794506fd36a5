-- ===== src/Server/Lifecycle/Invariant.antt =====
-- What holds of the runtime of a service between any two operations of lifecycle.go.
use tearenv.Common.{
  ℕ, suc, ◌+◌, ◌<◌, ◌≡◌, refl, Text, Bool, true, false, Option, none, some, is_some, List, [], ◌∷◌,
  length, arith, Option-cases, inl, inr,
}
use tearenv.Authorization.{Service, Workload}
use tearenv.Server.Lifecycle.{
  ServiceType, OpenResult, Event, workload_started, workload_stopped, fault, connection_opened,
  connection_closed, service_opened, Slot, Answers, new_slot, emit, prepare, ensure_scaled, connect,
  continue_open, open_slot, release, find_connection, close, expire, idle_callback, run_callback,
  take_fired, shutdown_slot,
}

abbrev pub bit : Bool → ℕ
bit true = 1
bit false = 0

abbrev pub started : List Event → ℕ
started [] = 0
started (workload_started ∷ es) = suc (started es)
started (_ ∷ es) = started es

abbrev pub stopped : List Event → ℕ
stopped [] = 0
stopped (workload_stopped ∷ es) = suc (stopped es)
stopped (_ ∷ es) = stopped es

abbrev pub opened : List Event → ℕ
opened [] = 0
opened (connection_opened k ∷ es) = suc (opened es)
opened (_ ∷ es) = opened es

abbrev pub closed : List Event → ℕ
closed [] = 0
closed (connection_closed k ∷ es) = suc (closed es)
closed (_ ∷ es) = closed es

abbrev pub faults : List Event → ℕ
faults [] = 0
faults (fault ∷ es) = suc (faults es)
faults (_ ∷ es) = faults es

pub record Inv (configured : Bool) (s : Slot) : Type 0 where
  -- A workload that is up has a description, and a scaler that brought it up.
  pub ready : s.scaled ≡ true → (configured ≡ true) × (is_some s.workload ≡ true)
  -- The counter is the number of connections that have yet to be closed.
  pub counted : s.active ≡ length s.connections
  -- While somebody is connected no idle timer is set.
  pub quiet : 0 < s.active → s.idle_timer ≡ none
  -- The gauge `managed_workloads`, and the gauge of connections.
  pub workloads : started s.trace ≡ stopped s.trace + bit s.scaled
  pub in_use : opened s.trace ≡ closed s.trace + s.active
  -- No call went through a nil scaler or workload.
  pub faultless : faults s.trace ≡ 0

pub new_slot-Inv : (configured : Bool) → Inv configured new_slot
new_slot-Inv configured = ground arith

prepare_workload :
    (identity : Text) (service : Service) (s : Slot)
    → is_some service.workload ≡ true
    → (prepare identity service s).workload ≡ service.workload
unfolding prepare
prepare_workload identity service s h = ground arith

find_connection-length :
    (n : ℕ) (conns : List (ℕ × ServiceType)) (k : ServiceType) (others : List (ℕ × ServiceType))
    → find_connection n conns ≡ some (k, others)
    → length conns ≡ suc (length others)
unfolding find_connection
find_connection-length n [] k others e = cc
find_connection-length n ((i, j) ∷ rest) k others e = elim (Option-cases (find_connection n rest)) [
  | inl missing ↦ ground arith
  | inr ((k', others'), found) ↦ ground (arith, find_connection-length n rest k' others' found)
]

module _ (configured : Bool) where
  prepare-Inv :
      (identity : Text) (service : Service) (s : Slot)
      → Inv configured s
      → Inv configured (prepare identity service s)
  unfolding prepare
  prepare-Inv identity service s v = ground arith

  ensure_scaled-Inv :
      (w : Option Workload) (a : Answers) (s : Slot)
      → (is_some w ≡ true → is_some s.workload ≡ true)
      → Inv configured s
      → Inv configured (ensure_scaled configured w a s).0
  unfolding ensure_scaled
  ensure_scaled-Inv none a s h v = v
  ensure_scaled-Inv (some w) a s h v = ground (arith, h refl)

  -- A managed service is up when the scaling step lets `Open` go on.
  pub ensure_scaled_up :
      (w : Workload) (a : Answers) (s : Slot)
      → (ensure_scaled configured (some w) a s).1 ≡ none
      → (ensure_scaled configured (some w) a s).0.scaled ≡ true
  unfolding ensure_scaled
  ensure_scaled_up w a s h = ground arith

  -- The first two steps leave no idle timer and the connections as they were.
  ensure_scaled_quiet :
      (identity : Text) (service : Service) (a : Answers) (s : Slot)
      → (ensure_scaled configured service.workload a (prepare identity service s)).0.idle_timer
        ≡ none
  unfolding ensure_scaled prepare
  ensure_scaled_quiet identity service a s = ground arith

  connect-Inv :
      (w : Option Workload) (a : Answers) (s : Slot)
      → (is_some w ≡ true → s.scaled ≡ true)
      → s.idle_timer ≡ none
      → Inv configured s
      → Inv configured (connect configured w a s).0
  unfolding connect
  connect-Inv none a s up calm v = ground arith
  connect-Inv (some w) a s up calm v = ground (arith, up refl)

  continue_open-Inv :
      (w : Option Workload) (a : Answers) (r : Slot × Option OpenResult)
      → (is_some w ≡ true → r.1 ≡ none → r.0.scaled ≡ true)
      → r.0.idle_timer ≡ none
      → Inv configured r.0
      → Inv configured (continue_open configured w a r).0
  continue_open-Inv w a (s, none) up calm v = connect-Inv w a s (λ m. up m refl) calm v
  continue_open-Inv w a (s, some failed) up calm v = v

  pub ensured_up :
      (w : Option Workload) (a : Answers) (s : Slot)
      → is_some w ≡ true
      → (ensure_scaled configured w a s).1 ≡ none
      → (ensure_scaled configured w a s).0.scaled ≡ true
  ensured_up none a s m e = cc
  ensured_up (some w) a s m e = ensure_scaled_up w a s e

  emit_opened-Inv :
      (k : ServiceType) (r : OpenResult) (s : Slot)
      → Inv configured s
      → Inv configured (emit (service_opened k r) s)
  unfolding emit
  emit_opened-Inv k r s v = ground arith

  pub ensured-Inv :
      (identity : Text) (service : Service) (a : Answers) (s : Slot)
      → Inv configured s
      → Inv configured (ensure_scaled configured service.workload a (prepare identity service s)).0
  ensured-Inv identity service a s v =
      ensure_scaled-Inv service.workload a (prepare identity service s)
        (λ m. ground (arith, prepare_workload identity service s m))
        (prepare-Inv identity service s v)

  pub open_slot-Inv :
      (identity : Text) (service : Service) (a : Answers) (s : Slot)
      → Inv configured s
      → Inv configured (open_slot configured identity service a s).0
  unfolding open_slot
  open_slot-Inv identity service a s v = emit_opened-Inv _ _ _ (
      continue_open-Inv service.workload a
        (ensure_scaled configured service.workload a (prepare identity service s))
        (ensured_up service.workload a (prepare identity service s))
        (ensure_scaled_quiet identity service a s) (ensured-Inv identity service a s v))

  release-Inv :
      (k : ServiceType) (others : List (ℕ × ServiceType)) (s : Slot)
      → length s.connections ≡ suc (length others)
      → Inv configured s
      → Inv configured (release k (record s { connections = others }))
  unfolding release
  release-Inv k others s e v = ground arith

  pub close-Inv : (n : ℕ) (s : Slot) → Inv configured s → Inv configured (close n s)
  unfolding close
  close-Inv n s v = elim (Option-cases (find_connection n s.connections)) [
    | inl missing ↦ rw (missing, close) v
    | inr ((k, others), found) ↦
        rw (found, close)
          (release-Inv k others s (find_connection-length n s.connections k others found) v)
  ]

  pub expire-Inv : (t : ℕ) (s : Slot) → Inv configured s → Inv configured (expire t s)
  unfolding expire
  expire-Inv t s v = ground arith

  idle_callback-Inv :
      (answer : Bool) (s : Slot)
      → Inv configured s
      → Inv configured (idle_callback configured answer s)
  unfolding idle_callback
  idle_callback-Inv answer s v = ground arith

  pub run_callback-Inv :
      (t : ℕ) (answer : Bool) (s : Slot)
      → Inv configured s
      → Inv configured (run_callback configured t answer s)
  unfolding run_callback
  run_callback-Inv t answer s v = elim (Option-cases (take_fired t s.timers)) [
    | inl missing ↦ rw (missing, run_callback) v
    | inr (rest, found) ↦
        rw (found, run_callback)
          (idle_callback-Inv answer (record s { timers = rest }) (ground arith))
  ]

  pub shutdown_slot-Inv :
      (answer : Bool) (s : Slot)
      → Inv configured s
      → Inv configured (shutdown_slot configured answer s).0
  unfolding shutdown_slot
  shutdown_slot-Inv answer s v = ground arith
