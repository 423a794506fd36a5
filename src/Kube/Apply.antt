-- ===== src/Kube/Apply.antt =====
-- internal/kube/blueprint.go: the operations that reconcile an instance. The parser of group
-- versions, the REST mapper and the patcher are arguments; contents are the values that their JSON
-- stands for.
pub mod Laws
mod Tests
use tearenv.Common.{
  Bool, true, false, Text, codes, text_eq, Map, Option, none, some, List, [], ◌∷◌, if◌then◌else◌,
  Result, ok, err, ◌>>=◌, ◌>>◌, require, from_option,
}
use tearenv.Blueprint.Values.{Value, string, object, Fields, end, field, get, as_text}
use tearenv.Blueprint.Document.{Instance}
use tearenv.Blueprint.Validation.{api_version_of, kind_of, resource_name}

-- `schema.GroupVersionResource`.
pub record GroupVersionResource : Type 0 where
  pub group : Text
  pub version : Text
  pub resource : Text

-- `meta.RESTMapping`: the resource, and whether its scope is the namespace.
pub record RestMapping : Type 0 where
  pub resource : GroupVersionResource
  pub is_namespaced : Bool

pub record ApplyOperation : Type 0 where
  pub resource : GroupVersionResource
  pub namespace : Text
  pub name : Text
  pub contents : Fields

pub data ApplyError : Type 0 where
  no_client bad_api_version unmapped not_namespaced : ApplyError

abbrev pub namespace_resource : GroupVersionResource
namespace_resource = record { group = []; version = codes "v1"; resource = codes "namespaces" }

-- A map of texts as a JSON object.
unfoldable pub text_fields : Map Text → Fields
text_fields [] = end
text_fields ((k, v) ∷ m) = field k (string v) (text_fields m)

-- The contents of the namespace.
unfoldable pub namespace_contents : Instance → Fields
unfolding text_fields
namespace_contents x = field (codes "apiVersion") (string (codes "v1")) (
    field (codes "kind") (string (codes "Namespace")) (
      field (codes "metadata")
        (object (
          field (codes "name") (string x.namespace)
            (field (codes "labels") (object (text_fields x.labels)) end)))
        end))

module _ (parse_group_version : Text → Option (Text × Text))
    (rest_mapping : Text → Text → Text → Option RestMapping) where
  -- One round of the loop of `operations`.
  unfoldable pub operation : Text → Fields → Result ApplyError ApplyOperation
  operation namespace x = do
    group_version ← from_option (parse_group_version (api_version_of x)) bad_api_version
    mapping ← from_option (rest_mapping group_version.0 (kind_of x) group_version.1) unmapped
    require mapping.is_namespaced not_namespaced
    ok (record {
      resource = mapping.resource;
      namespace = namespace;
      name = resource_name x;
      contents = x;
    })

  unfoldable pub resource_operations : Text → List Fields → Result ApplyError (List ApplyOperation)
  unfolding operation
  resource_operations namespace [] = ok []
  resource_operations namespace (x ∷ xs) = do
    o ← operation namespace x
    os ← resource_operations namespace xs
    ok (o ∷ os)

  -- `operations`.
  unfoldable pub operations : Instance → Result ApplyError (List ApplyOperation)
  unfolding resource_operations namespace_contents
  operations x = do
    os ← resource_operations x.namespace x.resources
    ok (
        record {
          resource = namespace_resource;
          namespace = [];
          name = x.namespace;
          contents = namespace_contents x;
        }
        ∷ os)

  module _ {World : Type 0} (apply : ApplyOperation → World → World × Bool) where
    -- The loop of `Reconcile`: the operations that were tried, in their order, and whether all
    -- were applied.
    unfoldable pub apply_all : List ApplyOperation → World → List ApplyOperation × World × Bool
    apply_all [] w = ([], w, true)
    apply_all (o ∷ os) w =
        let (w', applied) = apply o w in
        let (tried, w'', done) = apply_all os w' in
        if applied then (o ∷ tried, w'', done) else (o ∷ [], w', false)

    -- `Reconcile`, by whether the patcher and the mapper are there.
    unfoldable pub reconcile :
        Bool → Instance → World → Result ApplyError (List ApplyOperation × World × Bool)
    unfolding operations apply_all
    reconcile has_client x w = do
      require has_client no_client
      os ← operations x
      ok (apply_all os w)
