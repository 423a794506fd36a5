-- ===== src/Server/Lifecycle/Tests.antt =====
-- Runs of one runtime, and the theorems of its children at concrete runtimes.
use tearenv.Common.{◌≡◌, refl, pos, true, false, codes, none, some, [], ◌∷◌, arith}
use tearenv.Authorization.{Service, Workload}
use tearenv.Server.Lifecycle.{
  managed, success, dial_error, scale_call, workload_started, connection_opened, service_opened,
  scaler_target, Slot, Answers, new_slot, open_slot, close, expire, run_callback, find_connection,
  take_fired, stop,
}
use tearenv.Server.Lifecycle.InUse.{opens, closes, expires, runs, move, IsUp, move-IsUp}
use tearenv.Server.Lifecycle.Idle.{Settled, moves, no_leak, idle_cycle, stale_callback}

abbrev pub deployment : Workload
deployment = record {
  kind = codes "deployment";
  namespace = codes "dev";
  name = codes "web";
  replicas = pos 2;
  ready_timeout = pos 9;
  idle_timeout = pos 5;
}

abbrev pub web : Service
web = record {
  name = codes "web";
  target = codes "web:80";
  local_port = 80;
  workload = some deployment;
}

-- The first dial fails, the second succeeds.
abbrev pub slow : Answers
slow = record { scale_up = true; first_dial = false; later_dials = true ∷ []; scale_down = true }

-- One connection, number 0, to a workload that has come up.
abbrev connected : Slot
connected = record {
  runtime = record {
    workload = some deployment;
    label = codes "alice/web";
    active = 1;
    scaled = true;
    idle_timer = none;
  };
  timers = [];
  next_timer = 0;
  connections = (0, managed) ∷ [];
  next_connection = 1;
  trace =
      service_opened managed success
      ∷ connection_opened managed
      ∷ workload_started
      ∷ scale_call (scaler_target deployment) (pos 2) true
      ∷ [];
}

open_runs : open_slot true (codes "alice") web slow new_slot ≡ (connected, success)
unfolding open_slot
open_runs = refl

-- Without a second dial the workload is taken down again.
open_fails :
    (open_slot true (codes "alice") web (record slow { later_dials = [] }) new_slot).1 ≡ dial_error
unfolding open_slot
open_fails = refl

move-IsUp_example : IsUp connected (move true (runs 7 true) connected)
move-IsUp_example = move-IsUp true (runs 7 true) connected refl (omega arith)

idle_cycle_example : (run_callback true 0 true (expire 0 (close 0 connected))).scaled ≡ false
unfolding find_connection
idle_cycle_example = (idle_cycle 0 managed deployment connected refl refl refl refl).0

no_leak_example :
    Settled (
      moves true
        (opens (codes "alice") web slow ∷ closes 0 ∷ expires 0 ∷ runs 0 true ∷ [])
        new_slot)
no_leak_example =
    no_leak true (opens (codes "alice") web slow ∷ closes 0 ∷ expires 0 ∷ runs 0 true ∷ [])
      (ground arith)

-- The connection is closed, and the callback of the timer that this has armed fires and waits.
abbrev waits : Slot
waits = expire 0 (close 0 connected)

-- A client connects again before the callback gets the mutex, and leaves.
stale_callback_example :
    let (o, result) = open_slot true (codes "alice") web slow waits in
    let r = run_callback true 0 true (close 1 o) in
    (result ≡ success)
    × (o.active ≡ 1)
    × (r.scaled ≡ false)
    × (r.idle_timer ≡ none)
    × (r.timers ≡ record { id = 1; fired = false } ∷ [])
unfolding find_connection take_fired stop close expire open_slot run_callback
stale_callback_example =
    stale_callback 0 (codes "alice") web deployment slow [] waits refl refl refl refl refl refl
