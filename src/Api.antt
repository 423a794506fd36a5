-- ===== src/Api.antt =====
-- api/v1alpha1/userregistration.go: the resource `UserRegistration` and what it is looked up by.
-- Of the metadata of Kubernetes the fields that the program reads or writes are kept.
pub mod Library
pub mod Names
pub mod Sample
pub mod Validation
use tearenv.Common.{ℕ, ℤ, Text, Option, List}

pub record SshPublicKey : Type 0 where
  pub name : Text
  pub key : Text

pub record UserRegistrationSpec : Type 0 where
  pub identity : Text
  pub public_keys : List SshPublicKey

pub record AuthenticatedPrincipal : Type 0 where
  pub method : Text
  pub issuer : Text
  pub subject : Text

-- `metav1.Condition`. Times are nanoseconds.
pub record Condition : Type 0 where
  pub condition_type : Text
  pub status : Text
  pub observed_generation : ℤ
  pub reason : Text
  pub message : Text
  pub last_transition_time : ℕ

pub record UserRegistrationStatus : Type 0 where
  pub observed_generation : ℤ
  pub authenticated_principal : Option AuthenticatedPrincipal
  pub conditions : List Condition

pub record UserRegistration : Type 0 where
  pub api_version : Text
  pub kind : Text
  pub name : Text
  pub namespace : Text
  pub uid : Text
  pub resource_version : Text
  pub generation : ℤ
  pub creation_timestamp : ℕ
  pub spec : UserRegistrationSpec
  pub status : Option UserRegistrationStatus
