-- ===== src/Blueprint/Instantiation/Laws.antt =====
-- internal/blueprint/blueprint.go: what `Instantiate` makes of the resources of a valid blueprint.
use tearenv.Common.{
  Bool, true, false, not, ◌&&◌, Text, codes, text_eq, text_eq_iff, text_eq_self, Map, Option, none,
  some, is_some, List, [], ◌∷◌, is_empty, lookup, insert, lookup-insert, ok, >>=-eq-ok,
  require-then, from_option, from_option-eq-ok, All, Zip, none_left, pair, ◌≡◌, ◌≢◌, refl, ap, ◌∙◌,
  arith,
}
use tearenv.Blueprint.Values.{
  Value, string, number, object, array, boolean, fraction, null, Fields, get, put, get-put, as_text,
  as_object,
}
use tearenv.Blueprint.Document.{Document, Instance}
use tearenv.Blueprint.Library.{Library}
use tearenv.Blueprint.Slug.{slug_identity}
use tearenv.Blueprint.Validation.{
  metadata, api_version_of, kind_of, resource_identity, collect_resources, validate_resources,
  validate_namespace, validate, api_version_text, kind_text, bad_identity,
}
use tearenv.Blueprint.Instantiation.{
  namespace_key, set_namespace, place_resources, instantiate, render_labels, own_labels,
  namespace_for,
}

abbrev metadata_key : Text
metadata_key = codes "metadata"

-- A resource and the same resource in a namespace.
pub record Placed (namespace : Text) (x y : Fields) : Type 0 where
  pub inside : as_text (get namespace_key (metadata y)) ≡ namespace
  pub same_metadata : (k : Text) → namespace_key ≢ k → get k (metadata y) ≡ get k (metadata x)
  pub same_fields : (k : Text) → metadata_key ≢ k → get k y ≡ get k x

HasMetadata : Fields → Type 0
HasMetadata x = (m : Fields) × (get metadata_key x ≡ some (object m))

named-object :
    (v : Option Value)
    → is_empty (as_text (get (codes "name") (as_object v))) ≡ false
    → (m : Fields) × (v ≡ some (object m))
unfolding get
named-object none h = cc
named-object (some (string t)) h = cc
named-object (some (number n)) h = cc
named-object (some (object m)) h = (m, refl)
named-object (some (array vs)) h = cc
named-object (some (boolean b)) h = cc
named-object (some (fraction t)) h = cc
named-object (some null) h = cc

set_namespace-Placed :
    (namespace : Text) (x m : Fields)
    → get metadata_key x ≡ some (object m)
    → (y : Fields) × (set_namespace namespace x ≡ some y) × Placed namespace x y
unfolding set_namespace
set_namespace-Placed namespace x m found =
    let m' = put namespace_key (string namespace) m in
    let y = put metadata_key (object m') x in
    let read : get metadata_key y ≡ some (object m') =
      get-put metadata_key metadata_key (object m') x ∙ rw (text_eq_self metadata_key) refl in
    let inner : metadata y ≡ m' = ap as_object read in
    let outer : metadata x ≡ m = ap as_object found in
    (
      y,
      rw (found, set_namespace) refl,
      record {
        inside =
            ap (λ n. as_text (get namespace_key n)) inner
            ∙ ap as_text (get-put namespace_key namespace_key (string namespace) m)
            ∙ rw (text_eq_self namespace_key) refl;
        same_metadata = λ k differs.
            ap (get k) inner
            ∙ get-put k namespace_key (string namespace) m
            ∙ ground (arith, text_eq_iff namespace_key k, ap (get k) outer);
        same_fields = λ k differs.
            get-put k metadata_key (object m') x ∙ ground (arith, text_eq_iff metadata_key k);
      },
    )

-- Resources with metadata are placed.
place_resources-Placed :
    (namespace : Text) (xs : List Fields)
    → All HasMetadata xs
    → (ys : List Fields) × (place_resources namespace xs ≡ ok ys) × Zip (Placed namespace) xs ys
unfolding place_resources HasMetadata
place_resources-Placed namespace [] h = ([], refl, none_left)
place_resources-Placed namespace (x ∷ xs) ((m, found), h) =
    let (y, placed, holds) = set_namespace-Placed namespace x m found in
    let (ys, rest, zipped) = place_resources-Placed namespace xs h in
    (y ∷ ys, rw (placed, rest) refl, pair holds zipped)

own_labels-lookup :
    (slug name : Text) (labels : Map Text)
    → (lookup (codes "tearenv.io/identity") (own_labels slug name labels) ≡ some slug)
      × (lookup (codes "app.kubernetes.io/managed-by") (own_labels slug name labels)
          ≡ some (codes "tearenv"))
      × (lookup (codes "tearenv.io/blueprint") (own_labels slug name labels) ≡ some name)
unfolding own_labels text_eq
own_labels-lookup slug name labels =
    let managed = insert (codes "app.kubernetes.io/managed-by") (codes "tearenv") labels in
    let owned = insert (codes "tearenv.io/identity") slug managed in
    (
      lookup-insert (codes "tearenv.io/identity") (codes "tearenv.io/blueprint") name owned
          ∙ lookup-insert (codes "tearenv.io/identity") (codes "tearenv.io/identity") slug managed,
      lookup-insert (codes "app.kubernetes.io/managed-by") (codes "tearenv.io/blueprint") name owned
          ∙ lookup-insert (codes "app.kubernetes.io/managed-by") (codes "tearenv.io/identity") slug
              managed
          ∙ lookup-insert (codes "app.kubernetes.io/managed-by")
              (codes "app.kubernetes.io/managed-by") (codes "tearenv") labels,
      lookup-insert (codes "tearenv.io/blueprint") (codes "tearenv.io/blueprint") name owned,
    )

module _ (lib : Library) where
  resource_identity-HasMetadata :
      (x : Fields) (key : Text) → resource_identity lib x ≡ ok key → HasMetadata x
  unfolding resource_identity HasMetadata
  resource_identity-HasMetadata x key e =
      let named = is_empty (as_text (get (codes "name") (as_object (get metadata_key x)))) in
      let (full, rest) =
        require-then (not (is_empty (api_version_of x)) && not (is_empty (kind_of x)) && not named)
          _ _ e in
      named-object (get metadata_key x) (ground arith)

  collect_resources-HasMetadata :
      (catalog filled : Map Fields) (xs : List Fields)
      → collect_resources lib catalog xs ≡ ok filled
      → All HasMetadata xs
  unfolding collect_resources
  collect_resources-HasMetadata catalog filled [] e = tt
  collect_resources-HasMetadata catalog filled (x ∷ xs) e =
      let (key, named, rest) = >>=-eq-ok (resource_identity lib x) _ e in
      let (fresh, later) = require-then (not (is_some (lookup key catalog))) _ _ rest in
      (
        resource_identity-HasMetadata x key named,
        collect_resources-HasMetadata (insert key x catalog) filled xs later,
      )

  -- In a valid blueprint the resources can be placed in any namespace, without a write to a nil map:
  -- each becomes itself but for the namespace in its metadata, in the order of the blueprint.
  pub place_resources-validate :
      (d : Document) (namespace : Text)
      → validate lib d ≡ ok tt
      → (ys : List Fields) × (place_resources namespace (d.spec.resources) ≡ ok ys)
        × Zip (Placed namespace) (d.spec.resources) ys
  unfolding validate validate_resources
  place_resources-validate d namespace e =
      let (version, rest) = require-then (text_eq (d.api_version) api_version_text) _ _ e in
      let (kind, rest2) = require-then (text_eq (d.kind) kind_text) _ _ rest in
      let (label, rest3) = require-then (lib.is_dns_label (d.name)) _ _ rest2 in
      let (u, checked, rest4) = >>=-eq-ok (validate_namespace lib (d.spec.namespace)) _ rest3 in
      let (catalog, collected, rest5) =
        >>=-eq-ok (validate_resources lib (d.spec.resources)) _ rest4 in
      let (many, filled) = require-then (not (is_empty (d.spec.resources))) _ _ collected in
      place_resources-Placed namespace (d.spec.resources)
        (collect_resources-HasMetadata [] catalog (d.spec.resources) filled)

  -- What an instance of a blueprint has.
  pub record IsInstance (d : Document) (identity : Text) (x : Instance) : Type 0 where
    pub valid : validate lib d ≡ ok tt
    pub slug : slug_identity (lib.digest) identity ≡ some (x.identity_slug)
    pub namespace : lib.is_dns_label (x.namespace) ≡ true
    pub resources : Zip (Placed (x.namespace)) (d.spec.resources) (x.resources)
    pub services : x.services ≡ d.spec.services
    pub owner : lookup (codes "tearenv.io/identity") (x.labels) ≡ some (x.identity_slug)
    pub manager : lookup (codes "app.kubernetes.io/managed-by") (x.labels) ≡ some (codes "tearenv")
    pub origin : lookup (codes "tearenv.io/blueprint") (x.labels) ≡ some (d.name)

  instance_of :
      (d : Document) (identity : Text) (x : Instance) (slug namespace : Text) (labels : Map Text)
      (placed : List Fields)
      → validate lib d ≡ ok tt
      → slug_identity (lib.digest) identity ≡ some slug
      → lib.is_dns_label namespace ≡ true
      → place_resources namespace (d.spec.resources) ≡ ok placed
      → record {
        identity = identity;
        identity_slug = slug;
        blueprint_name = d.name;
        namespace = namespace;
        labels = own_labels slug (d.name) labels;
        resources = placed;
        services = d.spec.services;
      }
        ≡ x
      → IsInstance d identity x
  instance_of d identity x slug namespace labels placed valid made label set same =
      let (owner, manager, origin) = own_labels-lookup slug (d.name) labels in
      let (ys, put_, zipped) = place_resources-validate d namespace valid in
      let all_ : ys ≡ placed = cc in
      rw (← same) (record {
        valid = valid;
        slug = made;
        namespace = label;
        resources = rw (← all_) zipped;
        services = refl;
        owner = owner;
        manager = manager;
        origin = origin;
      })

  -- An instance is one of a valid blueprint, in a namespace that is a DNS label; its resources are
  -- those of the blueprint with that namespace in their metadata and nothing else changed, its
  -- services are those of the blueprint, and its labels name the slug of the identity, the
  -- blueprint and the manager, whatever labels the blueprint declares.
  pub instantiate-IsInstance :
      (slug_first : Bool) (d : Document) (identity : Text) (x : Instance)
      → instantiate lib slug_first d identity ≡ ok x
      → IsInstance d identity x
  unfolding instantiate
  instantiate-IsInstance slug_first d identity x e =
      let (u, valid, rest) = >>=-eq-ok (validate lib d) _ e in
      let (slug, made, rest2) =
        >>=-eq-ok (from_option (slug_identity (lib.digest) identity) bad_identity) _ rest in
      let namespace = namespace_for lib slug_first d slug in
      let (label, rest3) = require-then (lib.is_dns_label namespace) _ _ rest2 in
      let (labels, rendered, rest4) =
        >>=-eq-ok (render_labels lib slug_first slug (d.name) [] (d.spec.namespace.labels)) _
          rest3 in
      let (placed, set, last) = >>=-eq-ok (place_resources namespace (d.spec.resources)) _ rest4 in
      instance_of d identity x slug namespace labels placed (valid ∙ refl)
        (from_option-eq-ok (slug_identity (lib.digest) identity) bad_identity made) label set (cc)
