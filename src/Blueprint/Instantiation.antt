-- ===== src/Blueprint/Instantiation.antt =====
-- internal/blueprint/blueprint.go: `Instantiate`. A JSON round trip copies a resource, and the
-- order in which a map of replacements is ranged over is an argument.
pub mod Laws
pub mod Errors
use tearenv.Common.{
  ℕ, ◌+◌, Bool, true, false, not, Text, codes, trim, Map, insert, Option, none, some, List, [], ◌∷◌,
  ◌++◌, length, take, ltb, ◌==◌, ◌||◌, if◌then◌else◌, Result, ok, err, ◌>>=◌, ◌>>◌, require,
  from_option,
}
use tearenv.Blueprint.Values.{Value, object, string, Fields, get, put}
use tearenv.Blueprint.Document.{Document, Instance}
use tearenv.Blueprint.Library.{Library}
use tearenv.Blueprint.Slug.{Digest, slug_identity, shorten_label}
use tearenv.Blueprint.Templates.{replace_template_values}
use tearenv.Blueprint.Validation.{
  BlueprintError, bad_identity, bad_namespace, bad_label_value, nil_map_write, validate,
}

-- `validation.LabelValueMaxLength`.
abbrev pub label_value_max_length : ℕ
label_value_max_length = 63

-- `shortenLabelValue`.
unfoldable pub shorten_label_value : Digest → Text → Text
shorten_label_value digest value =
    trim (λ c. c == b'-' || c == b'_' || c == b'.') (take 54 value)
    ++ b'-' ∷ take 8 (digest.hex value)

abbrev pub namespace_key : Text
namespace_key = codes "namespace"

-- `metadata["namespace"] = namespace`; `none` is the write to a nil map.
unfoldable pub set_namespace : Text → Fields → Option Fields
set_namespace namespace resource = elim (get (codes "metadata") resource) [
  | some (object m) ↦
      some (put (codes "metadata") (object (put namespace_key (string namespace) m)) resource)
  | _ ↦ none
]

-- The loop over the resources.
unfoldable pub place_resources : Text → List Fields → Result BlueprintError (List Fields)
unfolding set_namespace
place_resources namespace [] = ok []
place_resources namespace (resource ∷ resources) = do
  placed ← from_option (set_namespace namespace resource) nil_map_write
  rest ← place_resources namespace resources
  ok (placed ∷ rest)

-- The labels that every namespace gets.
unfoldable pub own_labels : Text → Text → Map Text → Map Text
own_labels slug name labels = insert (codes "tearenv.io/blueprint") name (
    insert (codes "tearenv.io/identity") slug
      (insert (codes "app.kubernetes.io/managed-by") (codes "tearenv") labels))

module _ (lib : Library) (slug_first : Bool) where
  -- The value of one label.
  unfoldable pub render_label : Text → Text → Text → Text
  render_label slug name value =
      let rendered = replace_template_values slug_first value slug name in
      if ltb label_value_max_length (length rendered)
      then shorten_label_value lib.digest rendered
      else rendered

  -- The loop over the labels.
  unfoldable pub render_labels :
      Text → Text → Map Text → Map Text → Result BlueprintError (Map Text)
  unfolding render_label
  render_labels slug name labels [] = ok labels
  render_labels slug name labels ((key, value) ∷ templates) = do
    require (lib.is_label_value (render_label slug name value)) bad_label_value
    render_labels slug name (insert key (render_label slug name value) labels) templates

  abbrev pub namespace_for : Document → Text → Text
  namespace_for d slug =
      let rendered =
        replace_template_values slug_first d.spec.namespace.name_template slug d.name in
      shorten_label lib.digest rendered rendered

  unfoldable pub instantiate : Document → Text → Result BlueprintError Instance
  unfolding render_labels own_labels place_resources
  instantiate d identity = do
    validate lib d
    slug ← from_option (slug_identity lib.digest identity) bad_identity
    let namespace = namespace_for d slug
    require (lib.is_dns_label namespace) bad_namespace
    labels ← render_labels slug d.name [] d.spec.namespace.labels
    resources ← place_resources namespace d.spec.resources
    ok (record {
      identity = identity;
      identity_slug = slug;
      blueprint_name = d.name;
      namespace = namespace;
      labels = own_labels slug d.name labels;
      resources = resources;
      services = d.spec.services;
    })
