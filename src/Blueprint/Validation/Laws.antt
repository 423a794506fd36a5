-- ===== src/Blueprint/Validation/Laws.antt =====
-- internal/blueprint/blueprint.go: what `Validate` makes sure of.
use tearenv.Common.{
  ℤ, pos, is_zero, ◌≤◌, true, false, not, ◌&&◌, ◌||◌, Text, codes, text_eq, text_eq_iff, Map,
  lookup, insert, lookup-insert, none, some, is_some, List, [], ◌∷◌, any, is_empty, ◌==◌, leb,
  leb→le, ok, >>=-eq-ok, require-then, require-eq-ok, from_option, from_option-eq-ok, All, All-mono,
  Member, here, there, ◌≡◌, ◌≢◌, ◌⊎◌, inl, inr, refl, ap, ◌∙◌, arith, Bool-cases,
}
use tearenv.Authorization.Names.{valid_service_name}
use tearenv.Blueprint.Values.{Fields}
use tearenv.Blueprint.Document.{ScalePolicy, Declared, Document}
use tearenv.Blueprint.Library.{Library}
use tearenv.Blueprint.Validation.{
  resource_key, resource_exposes_port, nested_number, is_positive, is_natural, resource_identity,
  collect_resources, validate_resources, validate_scale, check_service, check_services,
  validate_services, validate_namespace, validate, unknown_service, unknown_workload, not_at_zero,
  api_version_text, kind_text,
}

lookup-nil : (key : Text) → lookup {V = Fields} key [] ≡ none
unfolding lookup
lookup-nil key = refl

module _ (lib : Library) where
  -- A resource of a list with the given key.
  pub record IsNamed (key : Text) (resource x : Fields) : Type 0 where
    pub same : x ≡ resource
    pub named : resource_identity lib x ≡ ok key

  collect_resources-Member :
      (key : Text) (resource : Fields) (catalog filled : Map Fields) (resources : List Fields)
      → collect_resources lib catalog resources ≡ ok filled
      → lookup key filled ≡ some resource
      → (lookup key catalog ≡ some resource) ⊎ Member (IsNamed key resource) resources
  unfolding collect_resources
  collect_resources-Member key resource catalog filled [] e found =
      let same : catalog ≡ filled = cc in inl (rw same found)
  collect_resources-Member key resource catalog filled (x ∷ xs) e found =
      let (k, named, rest) = >>=-eq-ok (resource_identity lib x) _ e in
      let (fresh, later) = require-then (not (is_some (lookup k catalog))) _ _ rest in
      let added = lookup-insert key k x catalog in
      elim (collect_resources-Member key resource (insert k x catalog) filled xs later found) [
        | inr behind ↦ inr (there behind)
        | inl before ↦ elim (Bool-cases (text_eq k key)) [
          | inl same ↦
              let key_is : k ≡ key = (text_eq_iff k key).0 same in
              let value_is : x ≡ resource = ground arith in
              inr (here (record { same = value_is; named = rw (← key_is) named }))
          | inr differs ↦ inl (ground arith)
        ]
      ]

  -- What a scale policy has.
  pub record IsScalable (resources : List Fields) (scale : ScalePolicy) : Type 0 where
    pub workload : Fields
    pub declared :
        Member
          (IsNamed
            (resource_key
              (scale.target_ref.api_version)
              (scale.target_ref.kind)
              (scale.target_ref.name))
            workload)
          resources
    pub at_zero : nested_number workload (codes "spec") (codes "replicas") ≡ some (pos 0)
    pub version : scale.target_ref.api_version ≡ codes "apps/v1"
    pub kind :
        (scale.target_ref.kind ≡ codes "Deployment") ⊎ (scale.target_ref.kind ≡ codes "StatefulSet")
    pub replicas : is_positive (some (scale.replicas)) ≡ true
    pub ready : is_positive (lib.parse_duration (scale.ready_timeout)) ≡ true
    pub idle : is_natural (lib.parse_duration (scale.idle_timeout)) ≡ true

  -- What a service of a blueprint has.
  pub record IsServed (resources : List Fields) (s : Declared) : Type 0 where
    pub name : valid_service_name (s.name) ≡ true
    pub lower : 1 ≤ s.target.port
    pub upper : s.target.port ≤ 65535
    pub local : s.local_port ≤ 65535
    pub service : Fields
    pub declared :
        Member
          (IsNamed (resource_key (codes "v1") (codes "Service") (s.target.service)) service)
          resources
    pub exposed : resource_exposes_port service (s.target.port) ≡ true
    pub scalable : IsScalable resources (s.scale)

  is_zero-pos : (n : ℤ) → is_zero n ≡ true → n ≡ pos 0
  is_zero-pos n h = ground arith

  abbrev pub Filled : List Fields → Map Fields → Type 0
  Filled resources catalog =
      (key : Text) (resource : Fields)
      → lookup key catalog ≡ some resource
      → Member (IsNamed key resource) resources

  kind_cases :
      (kind : Text)
      → (text_eq kind (codes "Deployment") || text_eq kind (codes "StatefulSet")) ≡ true
      → (kind ≡ codes "Deployment") ⊎ (kind ≡ codes "StatefulSet")
  kind_cases kind h = elim (Bool-cases (text_eq kind (codes "Deployment"))) [
    | inl one ↦ inl ((text_eq_iff kind (codes "Deployment")).0 one)
    | inr other ↦ inr ((text_eq_iff kind (codes "StatefulSet")).0 (ground arith))
  ]

  validate_scale-IsScalable :
      (resources : List Fields) (catalog : Map Fields) (scale : ScalePolicy)
      → Filled resources catalog
      → validate_scale lib scale catalog ≡ ok tt
      → IsScalable resources scale
  unfolding validate_scale
  validate_scale-IsScalable resources catalog scale filled e =
      let version = text_eq (scale.target_ref.api_version) (codes "apps/v1") in
      let kinds =
        text_eq (scale.target_ref.kind) (codes "Deployment")
        || text_eq (scale.target_ref.kind) (codes "StatefulSet") in
      let key =
        resource_key (scale.target_ref.api_version) (scale.target_ref.kind)
          (scale.target_ref.name) in
      let (kind, rest) = require-then (version && kinds) _ _ e in
      let (workload, found, rest2) =
        >>=-eq-ok (from_option (lookup key catalog) unknown_workload) _ rest in
      let (count, read, rest3) =
        >>=-eq-ok
          (from_option (nested_number workload (codes "spec") (codes "replicas")) not_at_zero) _
          rest2 in
      let (zero_, rest4) = require-then (is_zero count) _ _ rest3 in
      let (positive, rest5) = require-then (is_positive (some (scale.replicas))) _ _ rest4 in
      let (ready, rest6) =
        require-then (is_positive (lib.parse_duration (scale.ready_timeout))) _ _ rest5 in
      record {
        workload = workload;
        declared =
            filled key workload (from_option-eq-ok (lookup key catalog) unknown_workload found);
        at_zero =
            from_option-eq-ok (nested_number workload (codes "spec") (codes "replicas")) not_at_zero
              read
            ∙ ap some (is_zero-pos count zero_);
        version = (text_eq_iff (scale.target_ref.api_version) (codes "apps/v1")).0 (ground arith);
        kind = kind_cases (scale.target_ref.kind) (ground arith);
        replicas = positive;
        ready = ready;
        idle = require-eq-ok (is_natural (lib.parse_duration (scale.idle_timeout))) _ rest6;
      }

  check_service-IsServed :
      (names : List Text) (resources : List Fields) (catalog : Map Fields) (s : Declared)
      → Filled resources catalog
      → check_service lib names catalog s ≡ ok tt
      → IsServed resources s × (any (λ n. text_eq n (s.name)) names ≡ false)
  unfolding check_service
  check_service-IsServed names resources catalog s filled e =
      let key = resource_key (codes "v1") (codes "Service") (s.target.service) in
      let (name, rest) = require-then (valid_service_name (s.name)) _ _ e in
      let (fresh, rest2) = require-then (not (any (λ n. text_eq n (s.name)) names)) _ _ rest in
      let (port, rest3) =
        require-then (not (s.target.port == 0) && leb (s.target.port) 65535) _ _ rest2 in
      let (local, rest4) = require-then (leb (s.local_port) 65535) _ _ rest3 in
      let (resource, found, rest5) =
        >>=-eq-ok (from_option (lookup key catalog) unknown_service) _ rest4 in
      let (exposed, last) =
        require-then (resource_exposes_port resource (s.target.port)) _ _ rest5 in
      (
        record {
          name = name;
          lower = ground arith;
          upper = ground arith;
          local = leb→le _ _ local;
          service = resource;
          declared =
              filled key resource (from_option-eq-ok (lookup key catalog) unknown_service found);
          exposed = exposed;
          scalable = validate_scale-IsScalable resources catalog (s.scale) filled last;
        },
        ground arith,
      )

  -- The services have distinct names.
  abbrev pub Distinct : List Declared → Type 0
  Distinct [] = Unit {0}
  Distinct (s ∷ ss) = All (λ (t : Declared). s.name ≢ t.name) ss × Distinct ss

  abbrev IsNew : List Text → Declared → Type 0
  IsNew names t = any (λ n. text_eq n (t.name)) names ≡ false

  IsNew-ne : (names : List Text) (n : Text) (t : Declared) → IsNew (n ∷ names) t → n ≢ t.name
  IsNew-ne names n t h e = ground (arith, text_eq_iff n (t.name))

  IsNew-tail : (names : List Text) (n : Text) (t : Declared) → IsNew (n ∷ names) t → IsNew names t
  IsNew-tail names n t h = ground arith

  check_services-IsServed :
      (names : List Text) (resources : List Fields) (catalog : Map Fields) (ss : List Declared)
      → Filled resources catalog
      → check_services lib names catalog ss ≡ ok tt
      → All (IsServed resources) ss × All (IsNew names) ss × Distinct ss
  unfolding check_services
  check_services-IsServed names resources catalog [] filled e = (tt, tt, tt)
  check_services-IsServed names resources catalog (s ∷ ss) filled e =
      let (u, checked, later) = >>=-eq-ok (check_service lib names catalog s) _ e in
      let (served, fresh) =
        check_service-IsServed names resources catalog s filled (checked ∙ refl) in
      let (others, new, distinct) =
        check_services-IsServed (s.name ∷ names) resources catalog ss filled later in
      (
        (served, others),
        (fresh, All-mono (IsNew (s.name ∷ names)) (IsNew names) ss (IsNew-tail names (s.name)) new),
        (
          All-mono (IsNew (s.name ∷ names)) (λ (t : Declared). s.name ≢ t.name) ss
              (IsNew-ne names (s.name)) new,
          distinct,
        ),
      )

  -- What a blueprint that passes has.
  pub record IsRunnable (d : Document) : Type 0 where
    pub version : d.api_version ≡ api_version_text
    pub kind : d.kind ≡ kind_text
    pub label : lib.is_dns_label (d.name) ≡ true
    pub some_service : d.spec.services ≢ []
    pub services : All (IsServed (d.spec.resources)) (d.spec.services)
    pub distinct : Distinct (d.spec.services)

  -- A blueprint that passes validation has services of distinct names, each with a port from 1 to
  -- 65535 that a v1 Service resource of the blueprint exposes, and with a Deployment or
  -- StatefulSet of the blueprint that starts at zero replicas, a positive number of replicas, a
  -- positive readiness timeout and an idle timeout that is not negative.
  pub validate-IsRunnable : (d : Document) → validate lib d ≡ ok tt → IsRunnable d
  unfolding validate validate_resources validate_services
  validate-IsRunnable d e =
      let (version, rest) = require-then (text_eq (d.api_version) api_version_text) _ _ e in
      let (kind, rest2) = require-then (text_eq (d.kind) kind_text) _ _ rest in
      let (label, rest3) = require-then (lib.is_dns_label (d.name)) _ _ rest2 in
      let (u, namespace, rest4) = >>=-eq-ok (validate_namespace lib (d.spec.namespace)) _ rest3 in
      let (catalog, collected, rest5) =
        >>=-eq-ok (validate_resources lib (d.spec.resources)) _ rest4 in
      let (many, filled) = require-then (not (is_empty (d.spec.resources))) _ _ collected in
      let (exposes, checked) = require-then (not (is_empty (d.spec.services))) _ _ rest5 in
      let (served, new, distinct) =
        check_services-IsServed [] (d.spec.resources) catalog (d.spec.services)
          (λ key resource found.
            elim (collect_resources-Member key resource [] catalog (d.spec.resources) filled
              found) [ inl before ↦ ground (arith, lookup-nil key) | inr behind ↦ behind ])
          checked in
      record {
        version = (text_eq_iff (d.api_version) api_version_text).0 version;
        kind = (text_eq_iff (d.kind) kind_text).0 kind;
        label = label;
        some_service = λ none_. ground (arith, ap is_empty none_);
        services = served;
        distinct = distinct;
      }
