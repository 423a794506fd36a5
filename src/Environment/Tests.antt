-- ===== src/Environment/Tests.antt =====
-- The blueprint of the sample, provisioned for one identity.
use tearenv.Common.{
  ℕ, pos, Bool, true, Text, text_eq, codes, lookup, insert, none, some, [], ◌∷◌, ◌++◌, ok, FailsAs,
  ◌≡◌, ◌≢◌, refl, if◌then◌else◌,
}
use tearenv.Authorization.{Service, Policy}
use tearenv.Authorization.Listing.{
  IsKeyed, IsManaged, IsSorted, find_named, sorted_values, insert_service, text_lt,
}
use tearenv.Blueprint.Document.{Instance}
use tearenv.Blueprint.Instantiation.{instantiate}
use tearenv.Blueprint.Sample.{sample, document}
use tearenv.Blueprint.Tests.{document-valid, alice_instantiated}
use tearenv.Environment.{
  Manager, render_service, render_services, instance_services, provision, resolve_service, by_name,
  overlay, list_services,
}
use tearenv.Environment.Laws.{last_named, rendered, resolve_service-provision}
use tearenv.Environment.Listing.{list_services-resolve_service}
use tearenv.Environment.Errors.{IsSound, is_expected, provision-IsSound}

abbrev join : Text → ℕ → Text
join host port = host ++ b':' ∷ port ∷ []

abbrev agrees : Instance → Bool
agrees x = true

abbrev database : Service
database = record {
  name = codes "database";
  target = codes "db:5432";
  local_port = 5432;
  workload = none;
}

abbrev base : Policy
base = record {
  services = λ identity. some (database ∷ []);
  resolve_service =
      λ identity name. if text_eq (codes "database") name then some database else none;
}

abbrev alice_web : Service
alice_web = record {
  name = codes "web";
  target = codes "workspace.team-alice.svc.cluster.local:" ++ 80 ∷ [];
  local_port = 8080;
  workload = some (record {
    kind = codes "deployment";
    namespace = codes "team-alice";
    name = codes "workspace";
    replicas = pos 1;
    ready_timeout = pos 5;
    idle_timeout = pos 9;
  });
}

abbrev empty : Manager
empty = record { document = document; services = [] }

abbrev manager : Manager
manager = record {
  document = document;
  services = (codes "alice", (codes "web", alice_web) ∷ []) ∷ [];
}

alice_provisioned : provision sample join true agrees (codes "alice") empty ≡ ok manager
unfolding provision instance_services render_services render_service insert
alice_provisioned = rw alice_instantiated refl

resolve_service-provision_example :
    (x : Instance) × (instantiate sample true document (codes "alice") ≡ ok x)
    × (agrees x ≡ true)
    × ((name : Text)
        → resolve_service base manager (codes "alice") name
          ≡ rendered sample join
              (x.namespace)
              (last_named name (x.services))
              (base.resolve_service (codes "alice") name))
    × ((other name : Text)
        → codes "alice" ≢ other
        → resolve_service base manager other name ≡ resolve_service base empty other name)
resolve_service-provision_example =
    resolve_service-provision sample join true agrees base (codes "alice") empty manager
      alice_provisioned

empty-IsSound : IsSound sample join empty
unfolding IsManaged
empty-IsSound = record { valid = document-valid; managed = tt }

provision-IsSound_example :
    FailsAs is_expected (provision sample join true agrees (codes "alice") empty)
    × ((after : Manager)
        → provision sample join true agrees (codes "alice") empty ≡ ok after
        → IsSound sample join after × (after.document ≡ document))
provision-IsSound_example =
    provision-IsSound sample join true agrees (codes "alice") empty empty-IsSound

manager-IsManaged : IsManaged (manager.services)
unfolding IsManaged IsKeyed
manager-IsManaged = ((refl, tt), tt)

base_agrees :
    (name : Text)
    → lookup name (by_name (database ∷ []) []) ≡ base.resolve_service (codes "alice") name
unfolding by_name insert lookup
base_agrees name = refl

alice_listed : list_services base manager (codes "alice") ≡ some (database ∷ alice_web ∷ [])
unfolding list_services by_name overlay insert lookup text_eq sorted_values insert_service text_lt
alice_listed = refl

list_services-resolve_service_example :
    IsSorted (database ∷ alice_web ∷ [])
    × ((name : Text)
        → find_named name (database ∷ alice_web ∷ [])
          ≡ resolve_service base manager (codes "alice") name)
list_services-resolve_service_example =
    list_services-resolve_service base manager (codes "alice") (database ∷ [])
      (database ∷ alice_web ∷ []) manager-IsManaged refl base_agrees alice_listed
