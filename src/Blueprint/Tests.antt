-- ===== src/Blueprint/Tests.antt =====
-- The blueprint of the sample, instantiated, and the theorems at it.
use tearenv.Common.{
  true, text_eq, codes, cut_prefix, trim, lookup, insert, ok, ◌≡◌, refl, All, arith,
}
use tearenv.Authorization.Names.{valid_identity, valid_service_name}
use tearenv.Blueprint.Values.{get, put}
use tearenv.Blueprint.Sample.{sample, document, alice}
use tearenv.Blueprint.Slug.{normalize, hash_label, shorten_label, slug_identity}
use tearenv.Blueprint.Templates.{
  count, count_from, replace_all, replace_from, replace_template_values, render_template_value,
}
use tearenv.Blueprint.Validation.{
  resource_key, any_port, resource_exposes_port, nested_number, check_labels, validate_namespace,
  resource_identity, collect_resources, validate_resources, validate_scale, check_service,
  check_services, validate_services, validate,
}
use tearenv.Blueprint.Validation.Laws.{IsRunnable}
use tearenv.Blueprint.Validation.Exposed.{IsClean, IsExposed, validate-IsExposed}
use tearenv.Blueprint.Instantiation.{
  set_namespace, place_resources, own_labels, render_label, render_labels, instantiate,
}
use tearenv.Blueprint.Instantiation.Laws.{IsInstance, instantiate-IsInstance}

pub document-valid : validate sample document ≡ ok tt
unfolding validate validate_namespace validate_resources validate_services check_services
    check_service validate_scale nested_number resource_exposes_port any_port collect_resources
    resource_identity check_labels resource_key count count_from replace_all replace_from
    render_template_value get text_eq cut_prefix lookup insert valid_service_name
document-valid = refl

resources_IsClean : All IsClean (document.spec.resources)
unfolding get text_eq
resources_IsClean = omega arith

validate-IsExposed_example :
    IsRunnable sample document × All (IsExposed (document.spec.resources)) (document.spec.services)
validate-IsExposed_example = validate-IsExposed sample document resources_IsClean document-valid

pub alice_instantiated : instantiate sample true document (codes "alice") ≡ ok alice
unfolding instantiate validate validate_namespace validate_resources validate_services
    check_services check_service validate_scale nested_number resource_exposes_port any_port
    collect_resources resource_identity check_labels resource_key count count_from replace_all
    replace_from render_template_value get put text_eq cut_prefix lookup insert valid_service_name
    valid_identity slug_identity normalize hash_label shorten_label trim replace_template_values
    place_resources set_namespace render_labels render_label own_labels
alice_instantiated = refl

instantiate-IsInstance_example : IsInstance sample document (codes "alice") alice
instantiate-IsInstance_example =
    instantiate-IsInstance sample true document (codes "alice") alice alice_instantiated
