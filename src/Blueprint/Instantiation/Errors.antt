-- ===== src/Blueprint/Instantiation/Errors.antt =====
-- internal/blueprint/blueprint.go: the errors of `Instantiate` for a valid blueprint.
use tearenv.Common.{
  Bool, true, false, Text, Map, insert, [], ◌∷◌, ok, require, from_option, FailsAs, FailsAs->>=,
  FailsAs-require, FailsAs-from_option, ◌≡◌, refl,
}
use tearenv.Blueprint.Document.{Document}
use tearenv.Blueprint.Library.{Library}
use tearenv.Blueprint.Slug.{slug_identity}
use tearenv.Blueprint.Validation.{
  BlueprintError, bad_identity, bad_namespace, bad_label_value, validate,
}
use tearenv.Blueprint.Instantiation.{render_label, render_labels, namespace_for, instantiate}
use tearenv.Blueprint.Instantiation.Laws.{place_resources-validate}

-- The errors that depend on the identity.
abbrev pub of_identity : BlueprintError → Bool
of_identity bad_identity = true
of_identity bad_namespace = true
of_identity bad_label_value = true
of_identity _ = false

module _ (lib : Library) (slug_first : Bool) where
  render_labels-FailsAs :
      (slug name : Text) (labels templates : Map Text)
      → FailsAs of_identity (render_labels lib slug_first slug name labels templates)
  unfolding render_labels
  render_labels-FailsAs slug name labels [] = tt
  render_labels-FailsAs slug name labels ((key, value) ∷ templates) =
      FailsAs->>= of_identity
        (require (lib.is_label_value (render_label lib slug_first slug name value)) bad_label_value)
        _ (FailsAs-require of_identity _ bad_label_value refl)
        (λ u h.
          render_labels-FailsAs slug name
            (insert key (render_label lib slug_first slug name value) labels) templates)

  -- A valid blueprint fails to be instantiated only for what the identity makes of its templates.
  pub instantiate-FailsAs :
      (d : Document) (identity : Text)
      → validate lib d ≡ ok tt
      → FailsAs of_identity (instantiate lib slug_first d identity)
  unfolding instantiate
  instantiate-FailsAs d identity valid = rw valid (
      FailsAs->>= of_identity (from_option (slug_identity (lib.digest) identity) bad_identity) _
        (FailsAs-from_option of_identity (slug_identity (lib.digest) identity) bad_identity refl)
        (λ slug made.
          FailsAs->>= of_identity
            (require (lib.is_dns_label (namespace_for lib slug_first d slug)) bad_namespace) _
            (FailsAs-require of_identity _ bad_namespace refl)
            (λ u label.
              FailsAs->>= of_identity
                (render_labels lib slug_first slug (d.name) [] (d.spec.namespace.labels)) _
                (render_labels-FailsAs slug (d.name) [] (d.spec.namespace.labels))
                (λ labels rendered.
                  let (ys, placed, zipped) =
                    place_resources-validate lib d (namespace_for lib slug_first d slug) valid in
                  rw placed tt))))
