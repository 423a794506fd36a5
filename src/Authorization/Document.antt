-- ===== src/Authorization/Document.antt =====
-- internal/authorization/credentials.go: the JSON document of users, invites and access grants as
-- it is decoded, and `parseCredentials`.
pub mod Laws
use tearenv.Common.{
  ℕ, ℤ, Bool, true, false, not, ◌&&◌, Text, Map, insert, Option, none, some, List, [], ◌∷◌, map,
  length, is_empty, ◌==◌, leb, if◌then◌else◌, Result, ok, err, ◌>>=◌, ◌>>◌, require, from_option,
  traverse,
}
use tearenv.Authorization.{Service, Workload}
use tearenv.Authorization.Names.{valid_identity}
use tearenv.Authorization.Library.{Library}
use tearenv.Authorization.Services.{
  Error, bad_identity, bad_ready_timeout, bad_idle_timeout, empty_store, bad_token_hash,
  short_token, bad_invite_hash, default_ready_timeout, default_idle_timeout, validate_service,
}

-- `credentialRecord`; an absent field is the empty text.
pub record CredentialRecord : Type 0 where
  pub token : Text
  pub token_hash : Text

pub record WorkloadRecord : Type 0 where
  pub kind : Text
  pub namespace : Text
  pub name : Text
  pub replicas : ℤ
  pub ready_timeout : Text
  pub idle_timeout : Text

pub record ServiceRecord : Type 0 where
  pub target : Text
  pub local_port : ℕ
  pub workload : Option WorkloadRecord

-- `credentialsFile`. An `inviteRecord` is its identity, an `accessRecord` its services.
pub record Document : Type 0 where
  pub users : Map CredentialRecord
  pub invites : Map Text
  pub access : Map (Map ServiceRecord)

-- The three maps that `parseCredentials` returns: token hashes, invited identities, services.
pub record Parsed : Type 0 where
  pub users : Map Text
  pub invites : Map Text
  pub services : Map (Map Service)

abbrev pub minimum_token_length : ℕ
minimum_token_length = 16

module _ (lib : Library) where
  unfoldable pub decode_hash : Error → Text → Result Error Text
  decode_hash e text = do
    decoded ← from_option (lib.hex_decode text) e
    require (length decoded == 32) e
    ok decoded

  -- One round of the loop over the users.
  unfoldable pub parse_user : Text → CredentialRecord → Result Error Text
  unfolding decode_hash
  parse_user identity r = do
    require (valid_identity identity) bad_identity
    if not (is_empty r.token_hash)
        then decode_hash bad_token_hash r.token_hash
        else if leb minimum_token_length (length r.token)
        then ok (lib.sha256 r.token)
        else err short_token

  unfoldable pub parse_invite : Text → Text → Result Error Text
  unfolding decode_hash
  parse_invite hash identity = do
    decoded ← decode_hash bad_invite_hash hash
    require (valid_identity identity) bad_identity
    ok identity

  -- The function `parseDuration`.
  unfoldable pub parse_timeout : Error → ℤ → Text → Result Error ℤ
  parse_timeout e fallback value =
      if is_empty value then ok fallback else from_option (lib.parse_duration value) e

  unfoldable pub parse_workload : Option WorkloadRecord → Result Error (Option Workload)
  unfolding parse_timeout
  parse_workload none = ok none
  parse_workload (some r) = do
    ready ← parse_timeout bad_ready_timeout default_ready_timeout r.ready_timeout
    idle ← parse_timeout bad_idle_timeout default_idle_timeout r.idle_timeout
    ok (
        some (record {
          kind = r.kind;
          namespace = r.namespace;
          name = r.name;
          replicas = r.replicas;
          ready_timeout = ready;
          idle_timeout = idle;
        }))

  unfoldable pub parse_service : Text → ServiceRecord → Result Error Service
  unfolding parse_workload
  parse_service name r = do
    w ← parse_workload r.workload
    validate_service lib
        (record { name = name; target = r.target; local_port = r.local_port; workload = w })

  unfoldable pub parse_access : Text → Map ServiceRecord → Result Error (Map Service)
  parse_access identity services = do
    require (valid_identity identity) bad_identity
    traverse parse_service services

  -- `parseCredentials`.
  unfoldable pub parse_credentials : Document → Result Error Parsed
  parse_credentials d =
      if is_empty d.users && is_empty d.invites && is_empty d.access then err empty_store else do
        users ← traverse parse_user d.users
        invites ← traverse parse_invite d.invites
        services ← traverse parse_access d.access
        ok (record { users = users; invites = invites; services = services })

  -- The records that `setHashedUsers` writes.
  unfoldable pub hashed_users : Map Text → Map CredentialRecord
  hashed_users [] = []
  hashed_users ((identity, hash) ∷ users) =
      (identity, record { token = []; token_hash = lib.hex_encode hash }) ∷ hashed_users users

  -- `setHashedUsers`.
  unfoldable pub set_hashed_users : Map Text → Document → Document
  unfolding hashed_users
  set_hashed_users users d = record d { users = hashed_users users }

  -- The record that `GrantService` writes for a service.
  unfoldable pub workload_record : Option Workload → Option WorkloadRecord
  workload_record none = none
  workload_record (some w) = some (record {
    kind = w.kind;
    namespace = w.namespace;
    name = w.name;
    replicas = w.replicas;
    ready_timeout = lib.duration_string w.ready_timeout;
    idle_timeout = lib.duration_string w.idle_timeout;
  })

  unfoldable pub service_record : Service → ServiceRecord
  unfolding workload_record
  service_record s = record {
    target = s.target;
    local_port = s.local_port;
    workload = workload_record s.workload;
  }
