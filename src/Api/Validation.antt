-- ===== src/Api/Validation.antt =====
-- api/v1alpha1/userregistration.go: `Validate` and `Accepted`.
pub mod Laws
use tearenv.Common.{
  Bool, true, false, not, ◌&&◌, Text, codes, text_eq, trim_space, Option, none, some, List, [], ◌∷◌,
  any, is_empty, if◌then◌else◌, Result, ok, err, ◌>>=◌, ◌>>◌, require, from_option,
}
use tearenv.Authorization.Names.{valid_identity}
use tearenv.Api.{
  SshPublicKey, AuthenticatedPrincipal, Condition, UserRegistrationStatus, UserRegistration,
}
use tearenv.Api.Library.{Library, Url}
use tearenv.Api.Names.{resource_name}

abbrev pub api_version_text : Text
api_version_text = codes "tearenv.io/v1alpha1"

abbrev pub user_registration_kind : Text
user_registration_kind = codes "UserRegistration"

abbrev pub condition_accepted : Text
condition_accepted = codes "Accepted"

-- `metav1.ConditionTrue`.
abbrev pub condition_true : Text
condition_true = codes "True"

abbrev pub authentication_method_oidc : Text
authentication_method_oidc = codes "oidc"

-- The errors, by the message they carry.
pub data Problem : Type 0 where
  bad_api_version bad_kind bad_name bad_namespace bad_identity wrong_name : Problem
  bad_method bad_issuer no_subject : Problem
  no_keys bad_key_name duplicate_name bad_key several_keys duplicate_key : Problem

abbrev pub is_known : Text → List Text → Bool
is_known t seen = any (λ s. text_eq s t) seen

abbrev pub good_issuer : Option Url → Bool
good_issuer none = false
good_issuer (some u) =
    text_eq u.scheme (codes "https")
    && not (is_empty u.host)
    && is_empty u.raw_query
    && is_empty u.fragment

module _ (lib : Library) where
  unfoldable pub check_principal : AuthenticatedPrincipal → Result Problem (Unit {0})
  check_principal p = do
    require (text_eq p.method authentication_method_oidc) bad_method
    require (good_issuer (lib.url_parse p.issuer)) bad_issuer
    require (not (is_empty (trim_space p.subject))) no_subject

  unfoldable pub validate_authenticated_principal :
      Option UserRegistrationStatus → Result Problem (Unit {0})
  unfolding check_principal
  validate_authenticated_principal none = ok tt
  validate_authenticated_principal (some s) = elim (s.authenticated_principal) [
    | none ↦ ok tt
    | some p ↦ check_principal p
  ]

  -- One round of the loop: the wire form of the key.
  unfoldable pub check_key : List Text → List Text → SshPublicKey → Result Problem Text
  check_key names keys k = do
    require (lib.is_dns_label k.name) bad_key_name
    require (not (is_known k.name names)) duplicate_name
    (parsed, rest) ← from_option (lib.parse_authorized_key k.key) bad_key
    require (is_empty (trim_space rest)) several_keys
    require (not (is_known parsed keys)) duplicate_key
    ok parsed

  -- The loop, with the sets `names` and `keys`.
  unfoldable pub check_keys : List Text → List Text → List SshPublicKey → Result Problem (Unit {0})
  unfolding check_key
  check_keys names keys [] = ok tt
  check_keys names keys (k ∷ ks) = do
    parsed ← check_key names keys k
    check_keys (k.name ∷ names) (parsed ∷ keys) ks

  unfoldable pub validate_public_keys : List SshPublicKey → Result Problem (Unit {0})
  unfolding check_keys
  validate_public_keys ks = do require (not (is_empty ks)) no_keys; check_keys [] [] ks

  abbrev pub good_namespace : Text → Bool
  good_namespace namespace = if is_empty namespace then true else lib.is_dns_label namespace

  unfoldable pub validate : UserRegistration → Result Problem (Unit {0})
  unfolding validate_authenticated_principal validate_public_keys
  validate r = do
    require (text_eq r.api_version api_version_text) bad_api_version
    require (text_eq r.kind user_registration_kind) bad_kind
    require (lib.is_dns_subdomain r.name) bad_name
    require (good_namespace r.namespace) bad_namespace
    require (valid_identity r.spec.identity) bad_identity
    require (text_eq r.name (resource_name lib r.spec.identity)) wrong_name
    validate_authenticated_principal r.status
    validate_public_keys r.spec.public_keys

  unfoldable pub acceptance_condition : UserRegistration → Option Condition
  acceptance_condition r = elim (r.status) [
    | none ↦ none
    | some s ↦ lib.find_status_condition s.conditions condition_accepted
  ]

  unfoldable pub accepted : UserRegistration → Bool
  unfolding acceptance_condition
  accepted r = elim (acceptance_condition r) [
    | none ↦ false
    | some c ↦ text_eq c.status condition_true
  ]
