-- ===== src/Authorization/Credentials.antt =====
-- internal/authorization/credentials.go: the operations on the credential file and on the
-- in-memory `Credentials`. The file at the path is an `Option File`, `none` if there is none: whether
-- its status can be read, its mode, and the document that encoding/json reads from it if it can. Randomness and the outcome of a write are arguments.
pub mod Stored
pub mod Grants
pub mod Invites
pub mod Enrollment
pub mod Listing
mod Tests
use tearenv.Common.{
  ℕ, ◌^◌, bit_and, Bool, true, false, not, ◌&&◌, Text, codes, text_eq, Map, lookup, insert, delete,
  Option, none, some, option_or, List, [], ◌∷◌, ◌++◌, is_empty, length, leb, ◌==◌, if◌then◌else◌,
  Result, ok, err, ◌>>=◌, ◌>>◌, require, from_option, traverse,
}
use tearenv.Authorization.{Service}
use tearenv.Authorization.Listing.{sorted_values}
use tearenv.Authorization.Names.{valid_identity}
use tearenv.Authorization.Library.{Library}
use tearenv.Authorization.Services.{
  Error, bad_identity, missing_file, inaccessible_file, bad_permissions, unreadable_file,
  short_token, bad_invite, not_file_backed, no_randomness, not_written, empty_store,
  validate_service,
}
use tearenv.Authorization.Document.{
  CredentialRecord, ServiceRecord, Document, Parsed, minimum_token_length, parse_credentials,
  set_hashed_users, service_record,
}

-- What there is at a path: whether `os.Stat` succeeds on it, its mode and its document.
pub record File : Type 0 where
  pub accessible : Bool
  pub mode : ℕ
  pub document : Option Document

abbrev pub empty_document : Document
empty_document = record { users = []; invites = []; access = [] }

-- `readCredentialsFile`.
unfoldable pub read_credentials_file : Option File → Result Error Document
read_credentials_file none = err missing_file
read_credentials_file (some f) = do
  require f.accessible inaccessible_file
  require (bit_and f.mode 0o077 == 0) bad_permissions
  from_option f.document unreadable_file

-- `writeCredentialsFile` replaces the file by a rename, or fails and leaves it.
unfoldable pub write_credentials_file : Bool → Document → Result Error File
write_credentials_file written d =
    if written
    then ok (record { accessible = true; mode = 0o600; document = some d })
    else err not_written

-- The fields of `Credentials`.
pub record Credentials : Type 0 where
  pub path : Text
  pub parsed : Parsed
  pub open parsed use *

-- `randomToken`: the prefix and 32 random bytes in base64, which are an argument.
unfoldable pub random_token : Text → Option Text → Result Error Text
random_token prefix random = do encoded ← from_option random no_randomness; ok (prefix ++ encoded)

-- The invites without those of an identity.
unfoldable pub drop_invites : Text → Map Text → Map Text
drop_invites identity [] = []
drop_invites identity ((hash, i) ∷ m) =
    let rest = drop_invites identity m in if text_eq i identity then rest else (hash, i) ∷ rest

module _ (lib : Library) where
  -- `tokenHashText`.
  unfoldable pub token_hash_text : Text → Text
  token_hash_text token = lib.hex_encode (lib.sha256 token)

  -- `LoadCredentials`.
  pub load_credentials : Text → Option File → Result Error Credentials
  load_credentials path file = do
    d ← read_credentials_file file
    parsed ← parse_credentials lib d
    ok (record { path = path; parsed = parsed })

  hash_users : Text → Text → Result Error Text
  hash_users identity token = do
    require (valid_identity identity) bad_identity
    require (leb minimum_token_length (length token)) short_token
    ok (lib.sha256 token)

  -- `NewCredentials`: no path, no invites and no services.
  pub new_credentials : Map Text → Result Error Credentials
  unfolding hash_users
  new_credentials users = do
    require (not (is_empty users)) empty_store
    hashes ← traverse hash_users users
    ok (record { path = []; parsed = record { users = hashes; invites = []; services = [] } })

  -- The document that a command starts from, with its users hashed: that of the file, or an empty
  -- one if there is no file.
  unfoldable pub open_document : Option File → Result Error Document
  open_document none = ok empty_document
  open_document (some f) = do
    d ← read_credentials_file (some f)
    parsed ← parse_credentials lib d
    ok (set_hashed_users lib parsed.users d)

  -- `CreateInvite`.
  unfoldable pub create_invite :
      Option Text → Bool → Text → Option File → Result Error (Text × File)
  create_invite random written identity file = do
    require (valid_identity identity) bad_identity
    d ← open_document file
    invite ← random_token (codes "ti_") random
    f ← write_credentials_file written (record d {
      invites = insert (token_hash_text invite) identity (drop_invites identity d.invites);
    })
    ok (invite, f)

  -- The access map with one more service of an identity.
  unfoldable pub add_service : Text → Service → Map (Map ServiceRecord) → Map (Map ServiceRecord)
  add_service identity s access =
      insert identity (insert s.name (service_record lib s) (option_or (lookup identity access) []))
        access

  -- `GrantService`.
  unfoldable pub grant_service : Bool → Text → Service → Option File → Result Error File
  grant_service written identity service file = do
    require (valid_identity identity) bad_identity
    s ← validate_service lib service
    d ← open_document file
    write_credentials_file written (record d { access = add_service identity s d.access })

  -- `AuthenticateToken`.
  unfoldable pub authenticate_token : Credentials → Text → Text → Bool
  authenticate_token c identity token = elim (lookup identity c.users) [
    | none ↦ false
    | some expected ↦ text_eq (lib.sha256 token) expected
  ]

  -- `reloadLocked`.
  unfoldable pub reload : Option File → Credentials → Result Error Credentials
  reload file c = do
    d ← read_credentials_file file
    parsed ← parse_credentials lib d
    ok (record c { parsed = parsed })

  invite_matches : Credentials → Text → Text → Bool
  invite_matches c identity invite = elim (lookup (token_hash_text invite) c.invites) [
    | none ↦ false
    | some registered ↦ text_eq registered identity
  ]

  -- `AuthenticateInvite`.
  unfoldable pub authenticate_invite : Option File → Credentials → Text → Text → Credentials × Bool
  unfolding invite_matches
  authenticate_invite file c identity invite =
      if is_empty c.path then (c, false) else elim (reload file c) [
        | err e ↦ (c, false)
        | ok c' ↦ (c', invite_matches c' identity invite)
      ]

  -- The document after an enrolment.
  unfoldable pub enrolled : Text → Text → Text → Map Text → Document → Document
  enrolled identity invite token users d =
      let hashed = set_hashed_users lib users d in
      record hashed {
        users =
            insert identity (record { token = []; token_hash = token_hash_text token })
              hashed.users;
        invites = delete (token_hash_text invite) d.invites;
      }

  -- `Enroll`: the token, the new file and the reloaded credentials.
  unfoldable pub enroll :
      Option Text
      → Bool
      → Option File
      → Credentials
      → Text
      → Text
      → Result Error (Text × File × Credentials)
  enroll random written file c identity invite = do
    require (not (is_empty c.path)) not_file_backed
    d ← read_credentials_file file
    parsed ← parse_credentials lib d
    invited ← from_option (lookup (token_hash_text invite) parsed.invites) bad_invite
    require (text_eq invited identity) bad_invite
    token ← random_token (codes "tu_") random
    let d' = enrolled identity invite token parsed.users d
    f ← write_credentials_file written d'
    parsed' ← parse_credentials lib d'
    ok (token, f, record c { parsed = parsed' })

  -- The reload that file-backed reads begin with.
  unfoldable pub refresh : Option File → Credentials → Result Error Credentials
  refresh file c = if is_empty c.path then ok c else reload file c

  -- `Services`, with the credentials it leaves.
  unfoldable pub list_services :
      Option File → Credentials → Text → Credentials × Result Error (List Service)
  list_services file c identity = elim (refresh file c) [
    | err e ↦ (c, err e)
    | ok c' ↦ (c', ok (sorted_values (option_or (lookup identity c'.services) [])))
  ]

  -- `ResolveService`, with the credentials it leaves.
  unfoldable pub resolve_service :
      Option File → Credentials → Text → Text → Credentials × Option Service
  resolve_service file c identity name = elim (refresh file c) [
    | err e ↦ (c, none)
    | ok c' ↦ (c', lookup name (option_or (lookup identity c'.services) []))
  ]
