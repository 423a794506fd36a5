-- ===== src/Registration/Store.antt =====
-- internal/registration/store.go. The directory of the store is a map from namespaces to their
-- files, and a file is the document that its YAML decodes to. Times are written in seconds.
pub mod Files
use tearenv.Common.{
  ℕ, ◌*◌, ◌/◌, ◌^◌, bit_and, pos, Bool, true, false, not, ◌&&◌, Text, codes, text_eq, trim_space,
  Map, lookup, insert, Option, none, some, option_or, is_some, List, [], ◌∷◌, ◌++◌, map, is_empty,
  ◌==◌, if◌then◌else◌, Result, ok, err, ◌>>=◌, ◌>>◌, require, from_option,
}
use tearenv.Authn.{Principal, Method, anonymous, token, oidc}
use tearenv.Api.{
  SshPublicKey, UserRegistrationSpec, AuthenticatedPrincipal, Condition, UserRegistrationStatus,
  UserRegistration,
}
use tearenv.Api.Library.{Library}
use tearenv.Api.Validation.{
  Problem, validate, accepted, api_version_text, user_registration_kind, condition_accepted,
  condition_true, authentication_method_oidc,
}

pub data FileKind : Type 0 where
  regular directory other : FileKind

pub record StoredFile : Type 0 where
  pub kind : FileKind
  pub mode : ℕ
  pub document : Option UserRegistration

pub record Store : Type 0 where
  pub files : Map (Map StoredFile)
  pub authentication_namespace : Text

-- The errors, by the message they carry.
pub data StoreError : Type 0 where
  path_required bad_authentication_namespace not_created not_a_directory : StoreError
  namespace_required not_found conflict forbidden bad_path : StoreError
  not_regular bad_permissions undecodable no_randomness not_written : StoreError
  bad_stored_key several_stored_keys : StoreError
  invalid : Problem → StoreError

abbrev pub is_not_found : StoreError → Bool
is_not_found not_found = true
is_not_found _ = false

-- `metav1.Time` is encoded in seconds.
abbrev pub in_seconds : ℕ → ℕ
in_seconds t = t / 10 ^ 9 * 10 ^ 9

abbrev pub encode_condition : Condition → Condition
encode_condition c = record c { last_transition_time = in_seconds c.last_transition_time }

abbrev pub encode_status : UserRegistrationStatus → UserRegistrationStatus
encode_status s = record s { conditions = map encode_condition s.conditions }

-- What a resource is read as after it was written.
unfoldable pub encode : UserRegistration → UserRegistration
encode r = record r {
  creation_timestamp = in_seconds r.creation_timestamp;
  status = elim (r.status) [ none ↦ none | some s ↦ some (encode_status s) ];
}

-- `reflect.DeepEqual` of two specs.
unfoldable pub keys_eq : List SshPublicKey → List SshPublicKey → Bool
keys_eq [] [] = true
keys_eq (j ∷ js) (k ∷ ks) = text_eq j.name k.name && text_eq j.key k.key && keys_eq js ks
keys_eq _ _ = false

unfoldable pub spec_eq : UserRegistrationSpec → UserRegistrationSpec → Bool
unfolding keys_eq
spec_eq a b = text_eq a.identity b.identity && keys_eq a.public_keys b.public_keys

abbrev pub is_oidc : Principal → Bool
is_oidc p = elim (p.method) [ anonymous ↦ false | token ↦ false | oidc ↦ true ]

-- `status.authenticatedPrincipal`, if the resource has a status.
abbrev pub owner : UserRegistration → Option AuthenticatedPrincipal
owner r = elim (r.status) [ none ↦ none | some s ↦ s.authenticated_principal ]

unfoldable pub authenticated_principal : Principal → AuthenticatedPrincipal
authenticated_principal p = record {
  method = authentication_method_oidc;
  issuer = p.issuer;
  subject = p.subject;
}

abbrev pub same_principal : AuthenticatedPrincipal → Principal → Bool
same_principal a p =
    text_eq a.method authentication_method_oidc
    && text_eq a.issuer p.issuer
    && text_eq a.subject p.subject

unfoldable pub registration_owned_by : UserRegistration → Principal → Bool
registration_owned_by r p =
    is_oidc p && elim (owner r) [ none ↦ false | some a ↦ same_principal a p ]

abbrev pub file_name : Text → Text
file_name name = name ++ codes ".yaml"

abbrev pub directory_of : Store → Text → Map StoredFile
directory_of store namespace = option_or (lookup namespace (store.files)) []

-- `NewStore`, where the last arguments are what `os.MkdirAll` and `os.Stat` answer.
module _ (lib : Library) where
  unfoldable pub new_store :
      Text → Text → Bool → Bool → ℕ → Map (Map StoredFile) → Result StoreError Store
  new_store root namespace created is_directory mode files = do
    require (not (is_empty (trim_space root))) path_required
    require (lib.is_dns_label namespace) bad_authentication_namespace
    require created not_created
    require is_directory not_a_directory
    require (bit_and mode 0o022 == 0) bad_permissions
    ok (record { files = files; authentication_namespace = namespace })

  -- `resourcePath`, which only checks.
  unfoldable pub resource_path : Text → Text → Result StoreError (Unit {0})
  resource_path namespace name = do
    require (lib.is_dns_label namespace) bad_path
    require (lib.is_dns_subdomain name) bad_path

  abbrev pub checked : Result Problem (Unit {0}) → Result StoreError (Unit {0})
  checked (ok u) = ok tt
  checked (err p) = err (invalid p)

  -- `LoadUserRegistration`.
  unfoldable pub load_user_registration :
      Option UserRegistration → Result StoreError UserRegistration
  load_user_registration document = do
    r ← from_option document undecodable
    checked (validate lib r)
    ok r

  abbrev pub is_regular : FileKind → Bool
  is_regular regular = true
  is_regular directory = false
  is_regular other = false

  -- `readStoredFile` of a file that exists, and its decoding.
  unfoldable pub read_stored_file : StoredFile → Result StoreError UserRegistration
  unfolding load_user_registration
  read_stored_file f = do
    require (is_regular f.kind) not_regular
    require (bit_and f.mode 0o022 == 0) bad_permissions
    load_user_registration f.document

  unfoldable pub get_unlocked : Store → Text → Text → Result StoreError UserRegistration
  unfolding resource_path read_stored_file
  get_unlocked store namespace name = do
    resource_path namespace name
    f ← from_option (lookup (file_name name) (directory_of store namespace)) not_found
    read_stored_file f

  abbrev pub stored_file : UserRegistration → StoredFile
  stored_file r = record { kind = regular; mode = 0o600; document = some (encode r) }

  -- `writeUnlocked`: the file is replaced by a rename, or nothing changes.
  unfoldable pub write_unlocked : Bool → UserRegistration → Store → Result StoreError Store
  unfolding resource_path
  write_unlocked written r store = do
    resource_path r.namespace r.name
    require written not_written
    let files = insert (file_name r.name) (stored_file r) (directory_of store r.namespace)
    ok (record store { files = insert r.namespace files store.files })
