-- ===== src/Blueprint/Document.antt =====
-- internal/blueprint/blueprint.go: the document of a blueprint and its instance.
use tearenv.Common.{ℕ, ℤ, Text, Map, List}
use tearenv.Blueprint.Values.{Fields}

pub record ServiceTarget : Type 0 where
  pub service : Text
  pub port : ℕ

pub record WorkloadReference : Type 0 where
  pub api_version : Text
  pub kind : Text
  pub name : Text

pub record ScalePolicy : Type 0 where
  pub target_ref : WorkloadReference
  pub replicas : ℤ
  pub ready_timeout : Text
  pub idle_timeout : Text

-- `Service`.
pub record Declared : Type 0 where
  pub name : Text
  pub local_port : ℕ
  pub target : ServiceTarget
  pub scale : ScalePolicy

pub record NamespaceTemplate : Type 0 where
  pub name_template : Text
  pub labels : Map Text

pub record BlueprintSpec : Type 0 where
  pub namespace : NamespaceTemplate
  pub resources : List Fields
  pub services : List Declared

-- `Blueprint`, with the name of its `Metadata`.
pub record Document : Type 0 where
  pub api_version : Text
  pub kind : Text
  pub name : Text
  pub spec : BlueprintSpec

pub record Instance : Type 0 where
  pub identity : Text
  pub identity_slug : Text
  pub blueprint_name : Text
  pub namespace : Text
  pub labels : Map Text
  pub resources : List Fields
  pub services : List Declared
