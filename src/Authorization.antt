-- ===== src/Authorization.antt =====
-- internal/authorization: the services that an identity may reach, the interfaces of the
-- authentication providers and of the policy (authorization.go), and the types of credentials.go.
pub mod Names
pub mod Library
pub mod Listing
pub mod Services
pub mod Document
pub mod Credentials
pub mod Providers
pub mod PublicKeys
pub mod Ssh
pub mod Certificates
pub mod Sample
use tearenv.Common.{ℕ, ℤ, Text, Option, List, Result}

-- `time.Duration` counts nanoseconds; `int32` and durations may be negative.
pub record Workload : Type 0 where
  pub kind : Text
  pub namespace : Text
  pub name : Text
  pub replicas : ℤ
  pub ready_timeout : ℤ
  pub idle_timeout : ℤ

pub record Service : Type 0 where
  pub name : Text
  pub target : Text
  pub local_port : ℕ
  pub workload : Option Workload

-- The interface `Policy`: `Services` may fail, `ResolveService` answers found or not.
pub record Policy : Type 0 where
  pub services : Text → Option (List Service)
  pub resolve_service : Text → Text → Option Service
