-- ===== src/Blueprint/Sample.antt =====
-- A blueprint with one service, and a concrete `Library`, for the tests.
use tearenv.Common.{pos, Bool, Text, codes, [], ◌∷◌, is_empty, not}
use tearenv.Authorization.Sample.{duration}
use tearenv.Blueprint.Values.{string, number, object, array, Fields, end, field, nil, cons, put}
use tearenv.Blueprint.Document.{Declared, Document, Instance}
use tearenv.Blueprint.Library.{Library}
use tearenv.Blueprint.Instantiation.{namespace_key, own_labels}
use tearenv.Blueprint.Slug.Sample.{sevens}

-- Every text that is not empty passes.
abbrev filled : Text → Bool
filled t = not (is_empty t)

abbrev pub sample : Library
sample = record {
  digest = sevens;
  is_dns_label = filled;
  is_dns_subdomain = filled;
  is_qualified_name = filled;
  is_label_value = filled;
  parse_duration = duration;
}

abbrev pub named : Fields
named = field (codes "name") (string (codes "workspace")) end

abbrev pub workload : Fields
workload = field (codes "apiVersion") (string (codes "apps/v1")) (
    field (codes "kind") (string (codes "Deployment")) (
      field (codes "metadata") (object named)
        (field (codes "spec") (object (field (codes "replicas") (number (pos 0)) end)) end)))

abbrev pub service : Fields
service = field (codes "apiVersion") (string (codes "v1")) (
    field (codes "kind") (string (codes "Service")) (
      field (codes "metadata") (object named) (
        field (codes "spec")
          (object (
            field (codes "ports")
              (array (cons (object (field (codes "port") (number (pos 80)) end)) nil)) end))
          end)))

abbrev pub web : Declared
web = record {
  name = codes "web";
  local_port = 8080;
  target = record { service = codes "workspace"; port = 80 };
  scale = record {
    target_ref = record {
      api_version = codes "apps/v1";
      kind = codes "Deployment";
      name = codes "workspace";
    };
    replicas = pos 1;
    ready_timeout = 5 ∷ 0 ∷ [];
    idle_timeout = 9 ∷ 0 ∷ [];
  };
}

abbrev pub document : Document
document = record {
  api_version = codes "tearenv.io/v1alpha1";
  kind = codes "EnvironmentBlueprint";
  name = codes "team";
  spec = record {
    namespace = record {
      name_template = codes "{{ .BlueprintName }}-{{ .IdentitySlug }}";
      labels = (codes "team", codes "{{ .BlueprintName }}") ∷ [];
    };
    resources = workload ∷ service ∷ [];
    services = web ∷ [];
  };
}

abbrev pub placed : Fields → Fields
placed resource =
    put (codes "metadata") (object (put namespace_key (string (codes "team-alice")) named)) resource

abbrev pub alice : Instance
alice = record {
  identity = codes "alice";
  identity_slug = codes "alice";
  blueprint_name = codes "team";
  namespace = codes "team-alice";
  labels = own_labels (codes "alice") (codes "team") ((codes "team", codes "team") ∷ []);
  resources = placed workload ∷ placed service ∷ [];
  services = web ∷ [];
}
