-- ===== src/Kube/Apply/Laws.antt =====
-- internal/kube/blueprint.go with internal/blueprint: what a reconciliation of an instance touches.
use tearenv.Common.{
  Bool, true, Text, Option, List, [], ◌∷◌, map, ok, >>=-eq-ok, require-then, from_option,
  from_option-eq-ok, some, All, Zip, none_left, pair, Bool-cases, inl, inr, ◌≡◌, refl, subst, ap,
  ◌∙◌,
}
use tearenv.Blueprint.Values.{Fields, get, as_text}
use tearenv.Blueprint.Document.{Document, Instance}
use tearenv.Blueprint.Library.{Library}
use tearenv.Blueprint.Validation.{metadata, api_version_of, kind_of, resource_name}
use tearenv.Blueprint.Instantiation.{namespace_key, instantiate}
use tearenv.Blueprint.Instantiation.Laws.{Placed, instantiate-IsInstance}
use tearenv.Kube.Apply.{
  RestMapping, ApplyOperation, bad_api_version, unmapped, namespace_resource, namespace_contents,
  operation, resource_operations, operations, apply_all, reconcile,
}

abbrev IsInside : Text → Fields → Type 0
IsInside namespace y = as_text (get namespace_key (metadata y)) ≡ namespace

Zip-IsInside :
    (namespace : Text) (xs ys : List Fields)
    → Zip (Placed namespace) xs ys
    → All (IsInside namespace) ys
Zip-IsInside namespace _ _ none_left = tt
Zip-IsInside namespace _ _ (pair {b = y} {bs = ys} placed rest) =
    (placed.inside, Zip-IsInside namespace _ ys rest)

abbrev pub namespace_operation : Instance → ApplyOperation
namespace_operation x = record {
  resource = namespace_resource;
  namespace = [];
  name = x.namespace;
  contents = namespace_contents x;
}

abbrev pub contents_of : ApplyOperation → Fields
contents_of o = o.contents

module _ (parse_group_version : Text → Option (Text × Text))
    (rest_mapping : Text → Text → Text → Option RestMapping) where
  -- An operation on a resource of the kind of its contents that has the scope of a namespace, in
  -- the given namespace, which its own metadata name too, and under its own name.
  pub record IsConfined (namespace : Text) (o : ApplyOperation) : Type 0 where
    pub target : o.namespace ≡ namespace
    pub inside : as_text (get namespace_key (metadata (o.contents))) ≡ namespace
    pub name : o.name ≡ resource_name (o.contents)
    pub group : Text
    pub version : Text
    pub parsed : parse_group_version (api_version_of (o.contents)) ≡ some (group, version)
    pub mapping : RestMapping
    pub mapped : rest_mapping group (kind_of (o.contents)) version ≡ some mapping
    pub scope : mapping.is_namespaced ≡ true
    pub resource : o.resource ≡ mapping.resource

  operation-IsConfined :
      (namespace : Text) (x : Fields) (o : ApplyOperation)
      → IsInside namespace x
      → operation parse_group_version rest_mapping namespace x ≡ ok o
      → IsConfined namespace o × (o.contents ≡ x)
  unfolding operation
  operation-IsConfined namespace x o h e =
      let (gv, parsed, rest) =
        >>=-eq-ok (from_option (parse_group_version (api_version_of x)) bad_api_version) _ e in
      let (m, mapped, rest2) =
        >>=-eq-ok (from_option (rest_mapping (gv.0) (kind_of x) (gv.1)) unmapped) _ rest in
      let (scoped, last) = require-then (m.is_namespaced) _ _ rest2 in
      let same : record {
        resource = m.resource;
        namespace = namespace;
        name = resource_name x;
        contents = x;
      }
          ≡ o =
        cc in
      rw (← same) (
        record {
          target = refl;
          inside = h;
          name = refl;
          group = gv.0;
          version = gv.1;
          parsed =
              from_option-eq-ok (parse_group_version (api_version_of x)) bad_api_version parsed;
          mapping = m;
          mapped = from_option-eq-ok (rest_mapping (gv.0) (kind_of x) (gv.1)) unmapped mapped;
          scope = scoped;
          resource = refl;
        },
        refl,
      )

  resource_operations-IsConfined :
      (namespace : Text) (xs : List Fields) (os : List ApplyOperation)
      → All (IsInside namespace) xs
      → resource_operations parse_group_version rest_mapping namespace xs ≡ ok os
      → All (IsConfined namespace) os × (map contents_of os ≡ xs)
  unfolding resource_operations
  resource_operations-IsConfined namespace [] os h e =
      let same : [] ≡ os = cc in rw (← same) (tt, refl)
  resource_operations-IsConfined namespace (x ∷ xs) os (first, h) e =
      let (o, made, rest) =
        >>=-eq-ok (operation parse_group_version rest_mapping namespace x) _ e in
      let (later, others, last) =
        >>=-eq-ok (resource_operations parse_group_version rest_mapping namespace xs) _ rest in
      let same : o ∷ later ≡ os = cc in
      let (confined, is) = operation-IsConfined namespace x o first made in
      let (all_, are) = resource_operations-IsConfined namespace xs later h others in
      rw (← same) ((confined, all_), rw (is, are) refl)

  module _ {World : Type 0} (apply : ApplyOperation → World → World × Bool) where
    -- What was tried is a beginning of the operations, and all of them if all were applied.
    apply_all-All :
        (P : ApplyOperation → Type 0) (os : List ApplyOperation) (w : World)
        → All P os
        → All P (apply_all parse_group_version rest_mapping apply os w).0
          × ((apply_all parse_group_version rest_mapping apply os w).2 ≡ true
              → (apply_all parse_group_version rest_mapping apply os w).0 ≡ os)
    unfolding apply_all
    apply_all-All P [] w h = (tt, λ e. refl)
    apply_all-All P (o ∷ os) w (p, h) =
        let next = (apply o w).0 in
        let (rest, whole) = apply_all-All P os next h in
        elim (Bool-cases ((apply o w).1)) [
          | inl applied ↦ rw (applied, apply_all) ((p, rest), λ e. ap (λ ts. o ∷ ts) (whole e))
          | inr failed ↦ rw (failed, apply_all) ((p, tt), λ e. cc)
        ]

    -- What a reconciliation of an instance has tried.
    pub record Touches (x : Instance) (tried : List ApplyOperation) (done : Bool) : Type 0 where
      pub resources : List ApplyOperation
      pub order : tried ≡ namespace_operation x ∷ resources
      pub confined : All (IsConfined (x.namespace)) resources
      pub complete : done ≡ true → map contents_of resources ≡ x.resources

    touched :
        (x : Instance) (os : List ApplyOperation) (w : World)
        → All (IsConfined (x.namespace)) os
        → map contents_of os ≡ x.resources
        → Touches x
            (apply_all parse_group_version rest_mapping apply (namespace_operation x ∷ os) w).0
            (apply_all parse_group_version rest_mapping apply (namespace_operation x ∷ os) w).2
    unfolding apply_all
    touched x os w h all_ =
        let o = namespace_operation x in
        let (rest, whole) = apply_all-All (IsConfined (x.namespace)) os ((apply o w).0) h in
        elim (Bool-cases ((apply o w).1)) [
          | inl applied ↦
              rw (applied, apply_all)
                (record {
                  resources =
                      (apply_all parse_group_version rest_mapping apply os ((apply o w).0)).0;
                  order = refl;
                  confined = rest;
                  complete = λ e. ap (λ ts. map contents_of ts) (whole e) ∙ all_;
                })
          | inr failed ↦
              rw (failed, apply_all)
                (record { resources = []; order = refl; confined = tt; complete = λ e. cc })
        ]

    -- A reconciliation of an instance of a blueprint applies the namespace of the instance first,
    -- and after it only resources in that namespace, each as the resource that its version and
    -- kind are mapped to, whose scope is a namespace, under its own name and with that namespace
    -- in its metadata; if it reports success, it has applied every resource of the instance, in
    -- their order.
    pub reconcile-Touches :
        (lib : Library) (slug_first : Bool) (d : Document) (identity : Text) (x : Instance)
        (w w' : World) (tried : List ApplyOperation) (done : Bool)
        → instantiate lib slug_first d identity ≡ ok x
        → reconcile parse_group_version rest_mapping apply true x w ≡ ok (tried, w', done)
        → Touches x tried done
    unfolding reconcile operations
    reconcile-Touches lib slug_first d identity x w w' tried done made e =
        let made_of = instantiate-IsInstance lib slug_first d identity x made in
        let inside =
          Zip-IsInside (x.namespace) (d.spec.resources) (x.resources) (made_of.resources) in
        let (os, all_, rest) = >>=-eq-ok (operations parse_group_version rest_mapping x) _ e in
        let (resources, each, last) =
          >>=-eq-ok
            (resource_operations parse_group_version rest_mapping (x.namespace) (x.resources)) _
            all_ in
        let (confined, contents) =
          resource_operations-IsConfined (x.namespace) (x.resources) resources inside each in
        let order : namespace_operation x ∷ resources ≡ os = cc in
        let ran : apply_all parse_group_version rest_mapping apply
              (namespace_operation x ∷ resources) w
            ≡ (tried, w', done) =
          cc in
        subst (λ (r : List ApplyOperation × World × Bool). Touches x (r.0) (r.2)) ran
          (touched x resources w confined contents)
