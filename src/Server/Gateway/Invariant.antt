-- ===== src/Server/Gateway/Invariant.antt =====
-- Every runtime of a reachable gateway meets the invariant of Server.Lifecycle.Invariant.
use tearenv.Common.{
  ℕ, ◌+◌, ◌≡◌, refl, Text, text_eq, Map, lookup, insert, Bool, Option, none, some, option_or, List,
  [], ◌∷◌, All, Bool-cases, Option-cases, inl, inr, arith,
}
use tearenv.Authorization.{Policy}
use tearenv.Server.Lifecycle.{Slot, Answers, new_slot, close, expire, run_callback}
use tearenv.Server.Lifecycle.Invariant.{
  Inv, bit, started, stopped, new_slot-Inv, open_slot-Inv, close-Inv, expire-Inv, run_callback-Inv,
  shutdown_slot-Inv,
}
use tearenv.Server.Gateway.{
  Gateway, new_gateway, runtime_key, open_service, on_slot, shutdown_all, shutdown, Step, opens,
  closes, expires, runs, shuts, Reach, here, next,
}

abbrev pub InvSlots : Bool → Map Slot → Type 0
InvSlots configured = All (λ entry. Inv configured entry.1)

module _ (configured : Bool) where
  insert-Inv :
      (key : Text) (s : Slot) (m : Map Slot)
      → Inv configured s
      → InvSlots configured m
      → InvSlots configured (insert key s m)
  unfolding insert
  insert-Inv key s [] v h = (v, tt)
  insert-Inv key s ((k, t) ∷ m) v (w, h) = elim (Bool-cases (text_eq k key)) [
    | inl same ↦ rw same (v, h)
    | inr other ↦ rw other (w, insert-Inv key s m v h)
  ]

  lookup-Inv :
      (key : Text) (m : Map Slot) (s : Slot)
      → InvSlots configured m
      → lookup key m ≡ some s
      → Inv configured s
  unfolding lookup
  lookup-Inv key [] s h e = cc
  lookup-Inv key ((k, t) ∷ m) s (w, h) e = elim (Bool-cases (text_eq k key)) [
    | inl same ↦ let found : t ≡ s = ground arith in rw (← found) w
    | inr other ↦ lookup-Inv key m s h (ground arith)
  ]

  runtime-Inv :
      (o : Option Slot)
      → ((s : Slot) → o ≡ some s → Inv configured s)
      → Inv configured (option_or o new_slot)
  runtime-Inv none h = new_slot-Inv configured
  runtime-Inv (some s) h = h s refl

  shutdown_all-Inv :
      (answers : Text → Bool) (m : Map Slot)
      → InvSlots configured m
      → InvSlots configured (shutdown_all configured answers m).0
  unfolding shutdown_all
  shutdown_all-Inv answers [] h = tt
  shutdown_all-Inv answers ((key, s) ∷ m) (v, h) =
      (shutdown_slot-Inv configured (answers key) s v, shutdown_all-Inv answers m h)

abbrev pub GatewayInv : Gateway → Type 0
GatewayInv g = InvSlots g.configured g.slots

on_slot-GatewayInv :
    (key : Text) (f : Slot → Slot) (g : Gateway)
    → ((s : Slot) → Inv g.configured s → Inv g.configured (f s))
    → GatewayInv g
    → GatewayInv (on_slot key f g)
unfolding on_slot
on_slot-GatewayInv key f g keep h = elim (Option-cases (lookup key g.slots)) [
  | inl missing ↦ rw (missing, on_slot) h
  | inr (s, found) ↦
      rw (found, on_slot)
        (insert-Inv g.configured key (f s) g.slots
          (keep s (lookup-Inv g.configured key g.slots s h found)) h)
]

open_service-GatewayInv :
    (policy : Policy) (identity name : Text) (a : Answers) (g : Gateway)
    → GatewayInv g
    → GatewayInv (open_service policy identity name a g).0
unfolding open_service
open_service-GatewayInv policy identity name a g h =
    elim (Option-cases (policy.resolve_service identity name)) [
      | inl missing ↦ rw (missing, open_service) h
      | inr (service, found) ↦
          rw (found, open_service)
            (insert-Inv g.configured (runtime_key identity service) _ g.slots
              (open_slot-Inv g.configured identity service a _ (
                runtime-Inv g.configured (lookup (runtime_key identity service) g.slots)
                  (λ s e. lookup-Inv g.configured (runtime_key identity service) g.slots s h e)))
              h)
    ]

Step-GatewayInv : {g h : Gateway} → Step g h → GatewayInv g → GatewayInv h
unfolding shutdown
Step-GatewayInv (opens policy identity name a g) v =
    open_service-GatewayInv policy identity name a g v
Step-GatewayInv (closes key n g) v = on_slot-GatewayInv key (close n) g (close-Inv g.configured n) v
Step-GatewayInv (expires key t g) v =
    on_slot-GatewayInv key (expire t) g (expire-Inv g.configured t) v
Step-GatewayInv (runs key t answer g) v =
    on_slot-GatewayInv key (run_callback g.configured t answer) g
      (run_callback-Inv g.configured t answer) v
Step-GatewayInv (shuts answers g) v = shutdown_all-Inv g.configured answers g.slots v

Reach-GatewayInv : {g h : Gateway} → Reach g h → GatewayInv g → GatewayInv h
Reach-GatewayInv here v = v
Reach-GatewayInv (next r st) v = Step-GatewayInv st (Reach-GatewayInv r v)

-- Whatever connections, timers, downscales and shutdowns did, in any order and with any answers of
-- the scaler and the network, in every runtime the counter of active connections is the number of
-- tracked connections that are not closed, no idle timer is set while it is positive, a workload
-- marked as scaled has a description and a configured scaler, the two gauges agree with the flag
-- and the counter, and no call went through a nil scaler or workload.
pub Reach-IsSound :
    (configured : Bool) {g : Gateway} → Reach (new_gateway configured) g → GatewayInv g
unfolding new_gateway
Reach-IsSound configured r = Reach-GatewayInv r tt

abbrev pub sum {ℓ} : {A : Type ℓ} → (A → ℕ) → List A → ℕ
sum f [] = 0
sum f (x ∷ xs) = f x + sum f xs

sum_workloads :
    (configured : Bool) (m : Map Slot)
    → InvSlots configured m
    → sum (λ e. started e.1.trace) m ≡ sum (λ e. stopped e.1.trace) m + sum (λ e. bit e.1.scaled) m
sum_workloads configured [] h = omega arith
sum_workloads configured ((key, s) ∷ m) (v, h) =
    omega (arith, v.workloads, sum_workloads configured m h)

-- In a reachable gateway the increments less the decrements of the gauge managed_workloads are the
-- number of runtimes that are marked as scaled.
pub managed_workloads-counts :
    (configured : Bool) {g : Gateway}
    → Reach (new_gateway configured) g
    → sum (λ e. started e.1.trace) g.slots
      ≡ sum (λ e. stopped e.1.trace) g.slots + sum (λ e. bit e.1.scaled) g.slots
managed_workloads-counts configured {g} r =
    sum_workloads g.configured g.slots (Reach-IsSound configured r)
