-- ===== src/Blueprint/Validation.antt =====
-- internal/blueprint/blueprint.go: `Validate`.
pub mod Laws
pub mod Exposed
use tearenv.Common.{
  ℕ, ℤ, pos, negsuc, is_negative, is_zero, Bool, true, false, not, ◌&&◌, ◌||◌, Text, codes, text_eq,
  Map, lookup, insert, Option, none, some, is_some, List, [], ◌∷◌, ◌++◌, any, is_empty, ◌==◌, leb,
  ltb, if◌then◌else◌, Result, ok, err, ◌>>=◌, ◌>>◌, require, from_option,
}
use tearenv.Authorization.Names.{valid_service_name}
use tearenv.Blueprint.Values.{
  Value, Fields, Items, nil, cons, get, as_text, as_object, as_array, as_number,
}
use tearenv.Blueprint.Document.{
  ServiceTarget, WorkloadReference, ScalePolicy, Declared, NamespaceTemplate, Document,
}
use tearenv.Blueprint.Library.{Library}
use tearenv.Blueprint.Templates.{
  identity_slug_template, blueprint_name_template, count, render_template_value,
}

abbrev pub api_version_text : Text
api_version_text = codes "tearenv.io/v1alpha1"

abbrev pub kind_text : Text
kind_text = codes "EnvironmentBlueprint"

-- The errors, by the message they carry. `nil_map_write` is the panic of a write to a nil map.
pub data BlueprintError : Type 0 where
  bad_api_version bad_kind bad_name bad_slug_count bad_name_count bad_namespace : BlueprintError
  bad_label_key bad_label_value : BlueprintError
  no_resources missing_identity has_namespace bad_resource_name duplicate_resource : BlueprintError
  no_services bad_service_name duplicate_service bad_target_port bad_local_port : BlueprintError
  unknown_service port_not_exposed : BlueprintError
  bad_target_kind unknown_workload not_at_zero bad_replicas bad_ready bad_idle : BlueprintError
  bad_identity nil_map_write : BlueprintError

-- `resourceKey`.
unfoldable pub resource_key : Text → Text → Text → Text
resource_key api_version kind name = api_version ++ 0 ∷ kind ++ 0 ∷ name

abbrev pub metadata : Fields → Fields
metadata resource = as_object (get (codes "metadata") resource)

-- The name that `resourceIdentity` reads.
abbrev pub resource_name : Fields → Text
resource_name resource = as_text (get (codes "name") (metadata resource))

abbrev pub api_version_of : Fields → Text
api_version_of resource = as_text (get (codes "apiVersion") resource)

abbrev pub kind_of : Fields → Text
kind_of resource = as_text (get (codes "kind") resource)

-- The loop of `resourceExposesPort`.
unfoldable pub any_port : ℕ → Items → Bool
any_port expected nil = false
any_port expected (cons port ports) =
    elim (as_number (get (codes "port") (as_object (some port)))) [
      | some (pos n) ↦ n == expected || any_port expected ports
      | some (negsuc n) ↦ any_port expected ports
      | none ↦ any_port expected ports
    ]

unfoldable pub resource_exposes_port : Fields → ℕ → Bool
unfolding any_port
resource_exposes_port resource expected =
    any_port expected (as_array (get (codes "ports") (as_object (get (codes "spec") resource))))

-- `nestedNumber`.
unfoldable pub nested_number : Fields → Text → Text → Option ℤ
nested_number resource object_key value_key =
    as_number (get value_key (as_object (get object_key resource)))

abbrev pub is_positive : Option ℤ → Bool
is_positive none = false
is_positive (some d) = not (is_negative d) && not (is_zero d)

abbrev pub is_natural : Option ℤ → Bool
is_natural none = false
is_natural (some d) = not (is_negative d)

module _ (lib : Library) where
  -- The loop over the labels.
  unfoldable pub check_labels : Map Text → Result BlueprintError (Unit {0})
  check_labels [] = ok tt
  check_labels ((key, value) ∷ labels) = do
    require (lib.is_qualified_name key) bad_label_key
    require (lib.is_label_value (render_template_value value)) bad_label_value
    check_labels labels

  unfoldable pub validate_namespace : NamespaceTemplate → Result BlueprintError (Unit {0})
  unfolding check_labels
  validate_namespace namespace = do
    require (count namespace.name_template identity_slug_template == 1) bad_slug_count
    require (count namespace.name_template blueprint_name_template == 1) bad_name_count
    require (lib.is_dns_label (render_template_value namespace.name_template)) bad_namespace
    check_labels namespace.labels

  -- `resourceIdentity`: the key of the resource.
  unfoldable pub resource_identity : Fields → Result BlueprintError Text
  unfolding resource_key
  resource_identity resource = do
    require
        (not (is_empty (api_version_of resource))
          && not (is_empty (kind_of resource))
          && not (is_empty (resource_name resource)))
        missing_identity
    require (is_empty (as_text (get (codes "namespace") (metadata resource)))) has_namespace
    require (lib.is_dns_subdomain (resource_name resource)) bad_resource_name
    ok (resource_key (api_version_of resource) (kind_of resource) (resource_name resource))

  -- The loop of `validateResources`, which fills the catalog.
  unfoldable pub collect_resources : Map Fields → List Fields → Result BlueprintError (Map Fields)
  unfolding resource_identity
  collect_resources catalog [] = ok catalog
  collect_resources catalog (resource ∷ resources) = do
    key ← resource_identity resource
    require (not (is_some (lookup key catalog))) duplicate_resource
    collect_resources (insert key resource catalog) resources

  unfoldable pub validate_resources : List Fields → Result BlueprintError (Map Fields)
  unfolding collect_resources
  validate_resources resources = do
    require (not (is_empty resources)) no_resources
    collect_resources [] resources

  unfoldable pub validate_scale : ScalePolicy → Map Fields → Result BlueprintError (Unit {0})
  unfolding nested_number
  validate_scale scale resources = do
    require
        (text_eq scale.target_ref.api_version (codes "apps/v1")
          && (text_eq scale.target_ref.kind (codes "Deployment")
              || text_eq scale.target_ref.kind (codes "StatefulSet")))
        bad_target_kind
    workload ←
        from_option
          (lookup
            (resource_key scale.target_ref.api_version scale.target_ref.kind scale.target_ref.name)
            resources)
          unknown_workload
    replicas ← from_option (nested_number workload (codes "spec") (codes "replicas")) not_at_zero
    require (is_zero replicas) not_at_zero
    require (is_positive (some scale.replicas)) bad_replicas
    require (is_positive (lib.parse_duration scale.ready_timeout)) bad_ready
    require (is_natural (lib.parse_duration scale.idle_timeout)) bad_idle

  -- One round of the loop of `validateServices`.
  unfoldable pub check_service :
      List Text → Map Fields → Declared → Result BlueprintError (Unit {0})
  unfolding validate_scale
  check_service names resources s = do
    require (valid_service_name s.name) bad_service_name
    require (not (any (λ n. text_eq n s.name) names)) duplicate_service
    require (not (s.target.port == 0) && leb s.target.port 65535) bad_target_port
    require (leb s.local_port 65535) bad_local_port
    resource ←
        from_option
          (lookup (resource_key (codes "v1") (codes "Service") s.target.service) resources)
          unknown_service
    require (resource_exposes_port resource s.target.port) port_not_exposed
    validate_scale s.scale resources

  -- The loop, with the set `names`.
  unfoldable pub check_services :
      List Text → Map Fields → List Declared → Result BlueprintError (Unit {0})
  unfolding check_service
  check_services names resources [] = ok tt
  check_services names resources (s ∷ ss) = do
    check_service names resources s
    check_services (s.name ∷ names) resources ss

  unfoldable pub validate_services : List Declared → Map Fields → Result BlueprintError (Unit {0})
  unfolding check_services
  validate_services services resources = do
    require (not (is_empty services)) no_services
    check_services [] resources services

  unfoldable pub validate : Document → Result BlueprintError (Unit {0})
  unfolding validate_namespace validate_resources validate_services
  validate d = do
    require (text_eq d.api_version api_version_text) bad_api_version
    require (text_eq d.kind kind_text) bad_kind
    require (lib.is_dns_label d.name) bad_name
    validate_namespace d.spec.namespace
    resources ← validate_resources d.spec.resources
    validate_services d.spec.services resources
