-- ===== src/Registration/Requests.antt =====
-- internal/registration/store.go: the operations of the store. A request that fails leaves the
-- store as it was.
pub mod Outcome
pub mod Ownership
pub mod Retry
pub mod Keys
mod Tests
use tearenv.Common.{
  ℕ, pos, Bool, true, false, not, ◌&&◌, Text, codes, text_eq, trim_space, Map, Option, none, some,
  option_or, is_some, List, [], ◌∷◌, is_empty, if◌then◌else◌, Result, ok, err, ◌>>=◌, ◌>>◌, require,
  from_option,
}
use tearenv.Authn.{Principal, Method, anonymous, token, oidc}
use tearenv.Authorization.Providers.{Attempt, PublicKey, Verified, offered_key}
use tearenv.Api.{
  SshPublicKey, UserRegistrationSpec, AuthenticatedPrincipal, Condition, UserRegistrationStatus,
  UserRegistration,
}
use tearenv.Api.Library.{Library}
use tearenv.Api.Validation.{
  validate, accepted, api_version_text, user_registration_kind, condition_accepted, condition_true,
}
use tearenv.Registration.Store.{
  Store, StoredFile, FileKind, regular, directory, other, StoreError, namespace_required, not_found,
  conflict, forbidden, no_randomness, bad_stored_key, several_stored_keys, is_not_found, is_oidc,
  owner, authenticated_principal, registration_owned_by, spec_eq, checked, get_unlocked,
  read_stored_file, write_unlocked, directory_of,
}

-- What one request gets from outside: the identifier of `randomIdentifier`, the time in
-- nanoseconds and whether the file could be written.
pub record Answers : Type 0 where
  pub identifier : Option Text
  pub now : ℕ
  pub written : Bool

-- The condition that a new resource has.
unfoldable pub accepted_by_default : ℕ → Condition
accepted_by_default now = record {
  condition_type = condition_accepted;
  status = condition_true;
  observed_generation = pos 1;
  reason = codes "AcceptedByDefault";
  message = codes "Registration is accepted automatically.";
  last_transition_time = now;
}

-- The resource that `PutAs` stores.
unfoldable pub new_resource : UserRegistration → Principal → Text → ℕ → UserRegistration
unfolding accepted_by_default authenticated_principal
new_resource r p identifier now = record {
  api_version = api_version_text;
  kind = user_registration_kind;
  name = r.name;
  namespace = r.namespace;
  uid = identifier;
  resource_version = identifier;
  generation = pos 1;
  creation_timestamp = now;
  spec = r.spec;
  status = some (record {
    observed_generation = pos 1;
    authenticated_principal = if is_oidc p then some (authenticated_principal p) else none;
    conditions = accepted_by_default now ∷ [];
  });
}

-- `&v1alpha1.UserRegistrationStatus{}`.
abbrev pub empty_status : UserRegistrationStatus
empty_status = record {
  observed_generation = pos 0;
  authenticated_principal = none;
  conditions = [];
}

unfoldable pub bound_to : UserRegistration → Principal → Text → UserRegistration
unfolding authenticated_principal
bound_to r p identifier = record r {
  resource_version = identifier;
  status = some (record (option_or (r.status) empty_status) {
    authenticated_principal = some (authenticated_principal p);
  });
}

module _ (lib : Library) where
  -- `MarshalUserRegistration` and `writeUnlocked`.
  unfoldable pub save : Bool → UserRegistration → Store → Result StoreError Store
  unfolding write_unlocked
  save written r store = do checked lib (validate lib r); write_unlocked lib written r store

  unfoldable pub bind_principal :
      Answers → UserRegistration → Principal → Store → Result StoreError (Store × UserRegistration)
  unfolding save bound_to
  bind_principal a r p store = do
    identifier ← from_option a.identifier no_randomness
    saved ← save a.written (bound_to r p identifier) store
    ok (saved, bound_to r p identifier)

  -- A principal that does not own the resource takes it if nobody does.
  unfoldable pub take_over :
      Answers
      → UserRegistration
      → Principal
      → Store
      → Result StoreError (Store × UserRegistration × Bool)
  unfolding bind_principal
  take_over a existing p store = do
    require (not (is_some (owner existing))) forbidden
    (saved, bound) ← bind_principal a existing p store
    ok (saved, bound, false)

  -- The branch of `PutAs` for a resource that exists.
  unfoldable pub adopt :
      Answers
      → UserRegistration
      → UserRegistration
      → Principal
      → Store
      → Result StoreError (Store × UserRegistration × Bool)
  unfolding take_over registration_owned_by spec_eq
  adopt a existing r p store = do
    require (spec_eq existing.spec r.spec) conflict
    if is_oidc p && not (registration_owned_by existing p)
        then take_over a existing p store
        else ok (store, existing, false)

  unfoldable pub create :
      Answers
      → UserRegistration
      → Principal
      → Store
      → Result StoreError (Store × UserRegistration × Bool)
  unfolding save new_resource
  create a r p store = do
    identifier ← from_option a.identifier no_randomness
    saved ← save a.written (new_resource r p identifier a.now) store
    ok (saved, new_resource r p identifier a.now, true)

  -- `PutAs` after the look-up.
  unfoldable pub settle :
      Answers
      → Result StoreError UserRegistration
      → UserRegistration
      → Principal
      → Store
      → Result StoreError (Store × UserRegistration × Bool)
  unfolding adopt create
  settle a (ok existing) r p store = adopt a existing r p store
  settle a (err e) r p store = if is_not_found e then create a r p store else err e

  unfoldable pub put_as :
      Answers
      → UserRegistration
      → Principal
      → Store
      → Result StoreError (Store × UserRegistration × Bool)
  unfolding settle get_unlocked
  put_as a r p store = do
    checked lib (validate lib r)
    require (not (is_empty r.namespace)) namespace_required
    require (not (is_oidc p && not (text_eq p.identity r.spec.identity))) forbidden
    settle a (get_unlocked lib store r.namespace r.name) r p store

  unfoldable pub get_as : Store → Text → Text → Principal → Result StoreError UserRegistration
  unfolding get_unlocked registration_owned_by
  get_as store namespace name p = do
    r ← get_unlocked lib store namespace name
    require (not (is_oidc p && not (registration_owned_by r p))) forbidden
    ok r

  -- The loop of `PublicKey`: the wire form of the first key of the name.
  unfoldable pub find_key : Text → List SshPublicKey → Result StoreError Text
  find_key key_name [] = err not_found
  find_key key_name (k ∷ ks) =
      let rest = find_key key_name ks in
      if not (text_eq k.name key_name) then rest else (do
        (key, trailing) ← from_option (lib.parse_authorized_key k.key) bad_stored_key
        require (is_empty (trim_space trailing)) several_stored_keys
        ok key)

  unfoldable pub public_key_of : Store → Text → Text → Text → Principal → Result StoreError Text
  unfolding get_as find_key
  public_key_of store namespace name key_name p = do
    r ← get_as store namespace name p
    require (accepted lib r) forbidden
    find_key key_name r.spec.public_keys

  abbrev pub is_directory : FileKind → Bool
  is_directory directory = true
  is_directory regular = false
  is_directory other = false

  -- `filepath.Ext(name) == ".yaml"`.
  unfoldable pub has_yaml_extension : Text → Bool
  has_yaml_extension [] = false
  has_yaml_extension (c ∷ s) =
      let rest = has_yaml_extension s in if text_eq (c ∷ s) (codes ".yaml") then true else rest

  unfoldable pub list_files : Map StoredFile → Result StoreError (List UserRegistration)
  unfolding read_stored_file has_yaml_extension
  list_files [] = ok []
  list_files ((name, f) ∷ entries) =
      let rest = list_files entries in
      if is_directory f.kind
      then rest
      else if not (has_yaml_extension name)
      then rest
      else (do r ← read_stored_file lib f; rs ← rest; ok (r ∷ rs))

  unfoldable pub list : Store → Text → Result StoreError (List UserRegistration)
  unfolding list_files
  list store namespace = list_files (directory_of store namespace)

  -- The inner loop of `Authenticate`: whether one of the keys has the wire form.
  unfoldable pub match_keys : Text → List SshPublicKey → Result StoreError Bool
  match_keys wire [] = ok false
  match_keys wire (k ∷ ks) = do
    (candidate, trailing) ← from_option (lib.parse_authorized_key k.key) bad_stored_key
    let rest = match_keys wire ks
    if text_eq candidate wire then ok true else rest

  -- The outer loop.
  unfoldable pub match_registrations : Text → Text → List UserRegistration → Result StoreError Bool
  unfolding match_keys
  match_registrations identity wire [] = ok false
  match_registrations identity wire (r ∷ rs) =
      let rest = match_registrations identity wire rs in
      if not (text_eq r.spec.identity identity && accepted lib r)
      then rest
      else (do found ← match_keys wire r.spec.public_keys; if found then ok true else rest)

  abbrev pub verified : Attempt → Bool → Option Verified
  verified attempt found =
      if found
      then some (record {
        identity = attempt.identity;
        provider = codes "user-registration";
        valid_before = none;
      })
      else none

  unfoldable pub authenticate_key :
      Store → Attempt → PublicKey → Result StoreError (Option Verified)
  unfolding list match_registrations
  authenticate_key store attempt key = do
    registrations ← list store store.authentication_namespace
    found ← match_registrations attempt.identity key.wire registrations
    ok (verified attempt found)

  unfoldable pub authenticate : Store → Attempt → Result StoreError (Option Verified)
  unfolding authenticate_key
  authenticate store attempt = elim (offered_key attempt) [
    | none ↦ ok none
    | some key ↦ authenticate_key store attempt key
  ]
