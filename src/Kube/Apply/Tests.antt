-- ===== src/Kube/Apply/Tests.antt =====
-- The instance of the sample, reconciled by an API server that takes everything.
use tearenv.Common.{
  ℕ, suc, Bool, true, Text, codes, text_eq, Option, some, List, [], ◌∷◌, ok, ◌≡◌, refl,
}
use tearenv.Blueprint.Values.{Fields, get, put}
use tearenv.Blueprint.Sample.{sample, document, alice, placed, workload, service}
use tearenv.Blueprint.Tests.{alice_instantiated}
use tearenv.Kube.Apply.{
  RestMapping, ApplyOperation, operation, resource_operations, operations, apply_all, reconcile,
}
use tearenv.Kube.Apply.Laws.{namespace_operation, Touches, reconcile-Touches}

abbrev parse : Text → Option (Text × Text)
parse t = some (codes "apps", t)

abbrev mapping : Text → Text → Text → Option RestMapping
mapping group kind version = some (record {
  resource = record { group = group; version = version; resource = kind };
  is_namespaced = true;
})

abbrev apply : ApplyOperation → ℕ → ℕ × Bool
apply o n = (suc n, true)

abbrev applied : Text → Text → Fields → ApplyOperation
applied version kind x = record {
  resource = record { group = codes "apps"; version = version; resource = kind };
  namespace = codes "team-alice";
  name = codes "workspace";
  contents = placed x;
}

abbrev tried : List ApplyOperation
tried =
    namespace_operation alice
    ∷ applied (codes "apps/v1") (codes "Deployment") workload
    ∷ applied (codes "v1") (codes "Service") service
    ∷ []

alice_reconciled : reconcile parse mapping apply true alice 0 ≡ ok (tried, 3, true)
unfolding reconcile operations resource_operations operation apply_all get put text_eq
alice_reconciled = refl

reconcile-Touches_example : Touches parse mapping apply alice tried true
reconcile-Touches_example =
    reconcile-Touches parse mapping apply sample true document (codes "alice") alice 0 3 tried true
      alice_instantiated alice_reconciled
