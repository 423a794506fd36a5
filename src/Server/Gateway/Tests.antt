-- ===== src/Server/Gateway/Tests.antt =====
-- A gateway after one connection, and the theorems about reachable gateways at it.
use tearenv.Common.{◌+◌, ◌≡◌, refl, true, pos, Text, codes, some, [], arith}
use tearenv.Authorization.{Service, Workload, Policy}
use tearenv.Server.Lifecycle.{Answers, scaler_target}
use tearenv.Server.Lifecycle.Invariant.{started, stopped, bit}
use tearenv.Server.Gateway.{
  Gateway, new_gateway, runtime_key, open_service, Reach, here, next, opens,
}
use tearenv.Server.Gateway.Invariant.{GatewayInv, Reach-IsSound, managed_workloads-counts, sum}
use tearenv.Server.Gateway.Keys.{runtime_key-separates}

abbrev deployment : Workload
deployment = record {
  kind = codes "deployment";
  namespace = codes "dev";
  name = codes "web";
  replicas = pos 2;
  ready_timeout = pos 9;
  idle_timeout = pos 5;
}

abbrev web : Text → Service
web name = record {
  name = name;
  target = codes "web:80";
  local_port = 80;
  workload = some deployment;
}

-- Everybody may use one service under any name.
abbrev open_policy : Policy
open_policy = record {
  services = λ identity. some [];
  resolve_service = λ identity name. some (web name);
}

abbrev ready : Answers
ready = record { scale_up = true; first_dial = true; later_dials = []; scale_down = true }

abbrev after_open : Gateway
after_open = (open_service open_policy (codes "alice") (codes "web") ready (new_gateway true)).0

opened : Reach (new_gateway true) after_open
opened = next here (opens open_policy (codes "alice") (codes "web") ready (new_gateway true))

Reach-IsSound_example : GatewayInv after_open
Reach-IsSound_example = Reach-IsSound true {g = after_open} opened

managed_workloads-counts_example :
    sum (λ e. started e.1.trace) after_open.slots
    ≡ sum (λ e. stopped e.1.trace) after_open.slots + sum (λ e. bit e.1.scaled) after_open.slots
managed_workloads-counts_example = managed_workloads-counts true {g = after_open} opened

aliases_share :
    runtime_key (codes "alice") (web (codes "a")) ≡ runtime_key (codes "bob") (web (codes "b"))
unfolding runtime_key
aliases_share = refl

runtime_key-separates_example : scaler_target deployment ≡ scaler_target deployment
runtime_key-separates_example =
    runtime_key-separates (codes "alice") (codes "bob") (web (codes "a")) (web (codes "b"))
      (omega arith) (omega arith) aliases_share
