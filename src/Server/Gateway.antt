-- ===== src/Server/Gateway.antt =====
-- internal/server/lifecycle.go: `lifecycleGateway`, a map of runtimes. A step is one critical
-- section: operations on one runtime exclude one another, and those on two do not meet.
pub mod Invariant
pub mod Keys
mod Tests
use tearenv.Common.{
  ℕ, Text, codes, Map, lookup, insert, Bool, true, false, Option, none, some, option_or, List, [],
  ◌∷◌, ◌++◌,
}
use tearenv.Authorization.{Service, Workload, Policy}
use tearenv.Server.Lifecycle.{
  unknown, OpenResult, denied, Event, service_opened, Slot, Answers, new_slot, open_slot, close,
  expire, run_callback, shutdown_slot,
}

pub record Gateway : Type 0 where
  pub configured : Bool
  pub slots : Map Slot
  pub trace : List Event

-- `NewLifecycleGateway`; `configured` says whether the scaler is not nil.
pub new_gateway : Bool → Gateway
new_gateway configured = record { configured = configured; slots = []; trace = [] }

-- The key that `runtime` computes: that of the workload, so that aliases share a runtime.
pub runtime_key : Text → Service → Text
runtime_key identity service = elim service.workload [
  | none ↦ identity ++ 0 ∷ service.name
  | some w ↦ codes "workload" ++ 0 ∷ (w.kind ++ 0 ∷ (w.namespace ++ 0 ∷ w.name))
]

-- `runtime`: the slot of a key, a new one if there is none.
pub runtime : Text → Gateway → Slot
runtime key g = option_or (lookup key g.slots) new_slot

-- `Open`.
pub open_service : Policy → Text → Text → Answers → Gateway → Gateway × OpenResult
unfolding runtime
open_service policy identity name a g = elim (policy.resolve_service identity name) [
  | none ↦ (record g { trace = service_opened unknown denied ∷ g.trace }, denied)
  | some service ↦
      let key = runtime_key identity service in
      let (s, result) = open_slot g.configured identity service a (runtime key g) in
      (record g { slots = insert key s g.slots }, result)
]

-- An operation on a runtime that is in the map.
pub on_slot : Text → (Slot → Slot) → Gateway → Gateway
on_slot key f g = elim (lookup key g.slots) [
  | none ↦ g
  | some s ↦ record g { slots = insert key (f s) g.slots }
]

-- The loop of `Shutdown`, with the answer of the scaler for each runtime, and the key of the
-- first runtime whose downscale fails.
pub shutdown_all : Bool → (Text → Bool) → Map Slot → Map Slot × Option Text
shutdown_all configured answers [] = ([], none)
shutdown_all configured answers ((key, s) ∷ rest) =
    let (s', failed) = shutdown_slot configured (answers key) s in
    let (rest', first) = shutdown_all configured answers rest in
    ((key, s') ∷ rest', (elim failed [ true ↦ some key | false ↦ first ]))

-- `Shutdown`.
pub shutdown : (Text → Bool) → Gateway → Gateway × Option Text
unfolding shutdown_all
shutdown answers g =
    let (slots, first) = shutdown_all g.configured answers g.slots in
    (record g { slots = slots }, first)

-- What users, the network, the clock and the scaler make of a gateway. The policy may answer
-- otherwise at each open.
pub data Step : Gateway → Gateway → Type 0 where
  opens :
      (policy : Policy) (identity name : Text) (a : Answers) (g : Gateway)
      → Step g (open_service policy identity name a g).0
  closes : (key : Text) (n : ℕ) (g : Gateway) → Step g (on_slot key (close n) g)
  expires : (key : Text) (t : ℕ) (g : Gateway) → Step g (on_slot key (expire t) g)
  runs :
      (key : Text) (t : ℕ) (answer : Bool) (g : Gateway)
      → Step g (on_slot key (run_callback g.configured t answer) g)
  shuts : (answers : Text → Bool) (g : Gateway) → Step g (shutdown answers g).0

pub data Reach (g : Gateway) : Gateway → Type 0 where
  here : Reach g g
  next : {h k : Gateway} → Reach g h → Step h k → Reach g k
