-- ===== src/Blueprint/Default/Laws.antt =====
-- internal/blueprint/blueprint.go: the starter blueprint is valid, and `Load` takes what `Marshal`
-- does.
use tearenv.Common.{
  pos, true, Text, text_eq, codes, cut_prefix, lookup, insert, Option, some, ok, ◌≡◌, refl, ◌↔◌,
  >>=-eq-ok, from_option, from_option-eq-ok, wrap, wrap-eq-ok,
}
use tearenv.Authorization.Names.{valid_service_name}
use tearenv.Blueprint.Values.{get}
use tearenv.Blueprint.Document.{Document}
use tearenv.Blueprint.Library.{Library}
use tearenv.Blueprint.Templates.{
  count, count_from, replace_all, replace_from, render_template_value,
}
use tearenv.Blueprint.Validation.{
  resource_key, any_port, resource_exposes_port, nested_number, check_labels, validate_namespace,
  resource_identity, collect_resources, validate_resources, validate_scale, check_service,
  check_services, validate_services, validate,
}
use tearenv.Blueprint.Validation.Laws.{IsRunnable, validate-IsRunnable}
use tearenv.Blueprint.Default.{default_blueprint, invalid, undecodable, marshal, load}

-- What the libraries answer to the texts of the starter blueprint.
pub record IsStandard (lib : Library) : Type 0 where
  pub namespace : lib.is_dns_label (codes "tearenv-identity-blueprint") ≡ true
  pub workspace : lib.is_dns_subdomain (codes "workspace") ≡ true
  pub managed_by : lib.is_qualified_name (codes "app.kubernetes.io/managed-by") ≡ true
  pub identity : lib.is_qualified_name (codes "tearenv.io/identity") ≡ true
  pub blueprint : lib.is_qualified_name (codes "tearenv.io/blueprint") ≡ true
  pub tearenv_value : lib.is_label_value (codes "tearenv") ≡ true
  pub identity_value : lib.is_label_value (codes "identity") ≡ true
  pub blueprint_value : lib.is_label_value (codes "blueprint") ≡ true
  pub two_minutes : lib.parse_duration (codes "2m") ≡ some (pos 120000000000)
  pub ten_minutes : lib.parse_duration (codes "10m") ≡ some (pos 600000000000)

module _ (lib : Library) (h : IsStandard lib) where
  pub validate-default_blueprint :
      (name : Text) → lib.is_dns_label name ≡ true → validate lib (default_blueprint name) ≡ ok tt
  unfolding validate validate_namespace validate_resources validate_services check_services
      check_service validate_scale nested_number resource_exposes_port any_port collect_resources
      resource_identity check_labels resource_key count count_from replace_all replace_from
      render_template_value get text_eq cut_prefix lookup insert valid_service_name
      default_blueprint
  validate-default_blueprint name label =
      rw
        (
          label, h.namespace, h.managed_by, h.tearenv_value, h.identity, h.identity_value,
          h.blueprint, h.blueprint_value, h.workspace, h.two_minutes, h.ten_minutes,
        )
        refl

module _ (lib : Library) (encode : Document → Option Text) (decode : Text → Option Document) where
  loaded-valid :
      (contents : Text) (d : Document)
      → load lib decode contents ≡ ok d
      → (decode contents ≡ some d) × (validate lib d ≡ ok tt)
  unfolding load
  loaded-valid contents d e =
      let (x, decoded, rest) = >>=-eq-ok (from_option (decode contents) undecodable) _ e in
      let (u, checked, last) = >>=-eq-ok (wrap invalid (validate lib x)) _ rest in
      let same : x ≡ d = cc in
      rw (← same) (
        from_option-eq-ok (decode contents) undecodable decoded,
        wrap-eq-ok invalid (validate lib x) checked,
      )

  marshalled-valid :
      (contents : Text) (d : Document) → marshal lib encode d ≡ ok contents → validate lib d ≡ ok tt
  unfolding marshal
  marshalled-valid contents d e =
      let (u, checked, rest) = >>=-eq-ok (wrap invalid (validate lib d)) _ e in
      wrap-eq-ok invalid (validate lib d) checked

  -- For a blueprint that the YAML library can encode: `Load` of contents gives the blueprint
  -- exactly if the contents decode to it, `Marshal` writes it as the library encodes it, and it
  -- has services, all of distinct names, with ports that resources under the keys of their targets
  -- expose, and with workloads that start at zero replicas.
  pub load-marshal :
      (contents written : Text) (d : Document)
      → encode d ≡ some written
      → (load lib decode contents ≡ ok d)
        ↔ ((decode contents ≡ some d) × (marshal lib encode d ≡ ok written) × IsRunnable lib d)
  unfolding marshal load
  load-marshal contents written d encoded = (
    λ loaded.
        let (decoded, valid) = loaded-valid contents d loaded in
        (decoded, rw (valid, encoded) refl, validate-IsRunnable lib d valid),
    λ (decoded, marshalled, runnable).
        let valid = marshalled-valid written d marshalled in rw (decoded, load) (rw valid refl),
  )
