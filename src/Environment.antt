-- ===== src/Environment.antt =====
-- internal/environment/manager.go. The reconciler is an argument, and the order in which the
-- replacements of a template are visited.
pub mod Laws
pub mod Listing
pub mod Errors
mod Tests
use tearenv.Common.{
  ℕ, ℤ, Text, codes, Map, lookup, insert, Option, none, some, option_or, List, [], ◌∷◌, ◌++◌, map,
  Result, ok, err, ◌>>=◌, ◌>>◌, require, from_option, wrap, Bool,
}
use tearenv.Authorization.{Service, Policy}
use tearenv.Authorization.Listing.{sorted_values}
use tearenv.Blueprint.Document.{Declared, Document, Instance}
use tearenv.Blueprint.Library.{Library}
use tearenv.Blueprint.Slug.{to_lower}
use tearenv.Blueprint.Validation.{BlueprintError, validate}
use tearenv.Blueprint.Instantiation.{instantiate}

pub data EnvironmentError : Type 0 where
  bad_document not_instantiated : BlueprintError → EnvironmentError
  no_reconciler no_base bad_timeout not_reconciled : EnvironmentError

-- The document and the map `services` of `Manager`.
pub record Manager : Type 0 where
  pub document : Document
  pub services : Map (Map Service)

-- `join` is `net.JoinHostPort` of a host and a port in base 10.
module _ (lib : Library) (join : Text → ℕ → Text) where
  -- `NewManager`; the reconciler and the base policy may be nil.
  unfoldable pub new_manager : Document → Bool → Bool → Result EnvironmentError Manager
  new_manager document has_reconciler has_base = do
    wrap bad_document (validate lib document)
    require has_reconciler no_reconciler
    require has_base no_base
    ok (record { document = document; services = [] })

  -- The service of a declaration, with its parsed timeouts.
  abbrev pub service_of : Text → Declared → ℤ → ℤ → Service
  service_of namespace d ready idle = record {
    name = d.name;
    target =
        join (d.target.service ++ codes "." ++ namespace ++ codes ".svc.cluster.local")
          d.target.port;
    local_port = d.local_port;
    workload = some (record {
      kind = map to_lower d.scale.target_ref.kind;
      namespace = namespace;
      name = d.scale.target_ref.name;
      replicas = d.scale.replicas;
      ready_timeout = ready;
      idle_timeout = idle;
    });
  }

  -- One round of the loop of `instanceServices`.
  unfoldable pub render_service : Text → Declared → Option Service
  render_service namespace d = elim (lib.parse_duration (d.scale.ready_timeout)) [
    | none ↦ none
    | some ready ↦ elim (lib.parse_duration (d.scale.idle_timeout)) [
      | none ↦ none
      | some idle ↦ some (service_of namespace d ready idle)
    ]
  ]

  unfoldable pub render_services :
      Text → Map Service → List Declared → Result EnvironmentError (Map Service)
  render_services namespace services [] = ok services
  render_services namespace services (d ∷ ds) = do
    s ← from_option (render_service namespace d) bad_timeout
    render_services namespace (insert d.name s services) ds

  -- `instanceServices`.
  unfoldable pub instance_services : Instance → Result EnvironmentError (Map Service)
  unfolding render_services
  instance_services instance_ = render_services instance_.namespace [] instance_.services

  -- `Provision`; a failure leaves the manager as it was.
  unfoldable pub provision :
      Bool → (Instance → Bool) → Text → Manager → Result EnvironmentError Manager
  provision slug_first reconcile identity manager = do
    instance_ ← wrap not_instantiated (instantiate lib slug_first manager.document identity)
    services ← instance_services instance_
    require (reconcile instance_) not_reconciled
    ok (record manager { services = insert identity services manager.services })

-- The first loop of `Services`.
unfoldable pub by_name : List Service → Map Service → Map Service
by_name [] combined = combined
by_name (s ∷ ss) combined = by_name ss (insert s.name s combined)

-- The second loop, from the back, so that the first entry of a key counts.
unfoldable pub overlay : Map Service → Map Service → Map Service
overlay [] combined = combined
overlay ((name, s) ∷ own) combined = insert name s (overlay own combined)

abbrev pub own_services : Manager → Text → Map Service
own_services manager identity = option_or (lookup identity manager.services) []

-- `Services`.
unfoldable pub list_services : Policy → Manager → Text → Option (List Service)
unfolding by_name overlay
list_services base manager identity = elim (base.services identity) [
  | none ↦ none
  | some direct ↦ some (sorted_values (overlay (own_services manager identity) (by_name direct [])))
]

-- `ResolveService`.
unfoldable pub resolve_service : Policy → Manager → Text → Text → Option Service
resolve_service base manager identity name = elim (lookup name (own_services manager identity)) [
  | some service ↦ some service
  | none ↦ base.resolve_service identity name
]
