-- ===== src/Blueprint/Default.antt =====
-- internal/blueprint/blueprint.go: the starter blueprint, and `Marshal` and `Load` around an
-- argument that encodes and decodes YAML.
pub mod Laws
mod Tests
use tearenv.Common.{
  pos, Text, codes, Option, none, some, [], ◌∷◌, ◌++◌, Result, ok, err, ◌>>=◌, ◌>>◌, from_option,
  wrap,
}
use tearenv.Blueprint.Values.{Value, string, number, object, array, Fields, end, field, nil, cons}
use tearenv.Blueprint.Document.{Document}
use tearenv.Blueprint.Library.{Library}
use tearenv.Blueprint.Templates.{identity_slug_template, blueprint_name_template}
use tearenv.Blueprint.Validation.{BlueprintError, api_version_text, kind_text, validate}

-- `workspaceLabels`.
abbrev pub workspace_labels : Value
workspace_labels = object (field (codes "app.kubernetes.io/name") (string (codes "workspace")) end)

abbrev pub workspace_container : Value
workspace_container = object (
    field (codes "name") (string (codes "web")) (
      field (codes "image") (string (codes "nginx:1.27-alpine")) (
        field (codes "ports")
          (array (
            cons
              (object (
                field (codes "name") (string (codes "http"))
                  (field (codes "containerPort") (number (pos 80)) end)))
              nil))
          end)))

abbrev pub workspace_template : Value
workspace_template = object (
    field (codes "metadata") (object (field (codes "labels") workspace_labels end)) (
      field (codes "spec")
        (object (field (codes "containers") (array (cons workspace_container nil)) end)) end))

abbrev pub workspace_deployment : Fields
workspace_deployment = field (codes "apiVersion") (string (codes "apps/v1")) (
    field (codes "kind") (string (codes "Deployment")) (
      field (codes "metadata")
        (object (
          field (codes "name") (string (codes "workspace"))
            (field (codes "labels") workspace_labels end)))
        (field (codes "spec")
          (object (
            field (codes "replicas") (number (pos 0)) (
              field (codes "selector") (object (field (codes "matchLabels") workspace_labels end))
                (field (codes "template") workspace_template end))))
          end)))

abbrev pub workspace_service : Fields
workspace_service = field (codes "apiVersion") (string (codes "v1")) (
    field (codes "kind") (string (codes "Service")) (
      field (codes "metadata") (object (field (codes "name") (string (codes "workspace")) end)) (
        field (codes "spec")
          (object (
            field (codes "selector") workspace_labels (
              field (codes "ports")
                (array (
                  cons
                    (object (
                      field (codes "name") (string (codes "http")) (
                        field (codes "port") (number (pos 80))
                          (field (codes "targetPort") (string (codes "http")) end))))
                    nil))
                end)))
          end)))

-- `Default`.
unfoldable pub default_blueprint : Text → Document
default_blueprint name = record {
  api_version = api_version_text;
  kind = kind_text;
  name = name;
  spec = record {
    namespace = record {
      name_template =
          codes "tearenv-" ++ identity_slug_template ++ codes "-" ++ blueprint_name_template;
      labels =
          (codes "app.kubernetes.io/managed-by", codes "tearenv")
          ∷ (codes "tearenv.io/identity", identity_slug_template)
          ∷ (codes "tearenv.io/blueprint", blueprint_name_template)
          ∷ [];
    };
    resources = workspace_deployment ∷ workspace_service ∷ [];
    services =
        record {
          name = codes "web";
          local_port = 8080;
          target = record { service = codes "workspace"; port = 80 };
          scale = record {
            target_ref = record {
              api_version = codes "apps/v1";
              kind = codes "Deployment";
              name = codes "workspace";
            };
            replicas = pos 1;
            ready_timeout = codes "2m";
            idle_timeout = codes "10m";
          };
        }
        ∷ [];
  };
}

pub data YamlError : Type 0 where
  not_marshalled undecodable : YamlError
  invalid : BlueprintError → YamlError

module _ (lib : Library) where
  -- `Marshal`.
  unfoldable pub marshal : (Document → Option Text) → Document → Result YamlError Text
  marshal encode d = do wrap invalid (validate lib d); from_option (encode d) not_marshalled

  -- `Load`.
  unfoldable pub load : (Text → Option Document) → Text → Result YamlError Document
  load decode contents = do
    d ← from_option (decode contents) undecodable
    wrap invalid (validate lib d)
    ok d
