-- ===== src/Authorization/PublicKeys.antt =====
-- internal/authorization/public_keys.go. The JSON document is represented by the map that it
-- decodes to; keys are their wire forms, `authorized` is `ssh.ParseAuthorizedKey` and `line` is
-- `ssh.MarshalAuthorizedKey`.
pub mod Laws
use tearenv.Common.{
  ℕ, bit_and, Bool, true, false, not, Text, codes, text_eq, trim_space, Map, lookup, insert, Option,
  none, some, option_or, List, [], ◌∷◌, ◌++◌, any, is_empty, ◌==◌, if◌then◌else◌, Result, ok, err,
  ◌>>=◌, ◌>>◌, require, from_option, traverse,
}
use tearenv.Authorization.Names.{valid_identity}
use tearenv.Authorization.Providers.{Attempt, PublicKey, Verified, offered_key}

-- The errors, by the message they carry.
pub data KeysError : Type 0 where
  path_required missing_file bad_permissions undecodable no_identity bad_identity : KeysError
  no_keys bad_key several_keys key_required : KeysError

-- The file, if it exists: its mode and the document it decodes to.
pub record KeysFile : Type 0 where
  pub mode : ℕ
  pub document : Option (Map (List Text))

module _ (authorized : Text → Option (Text × Text)) (line : Text → Text) where
  unfoldable pub parse_public_key : Text → Result KeysError Text
  parse_public_key value = do
    (key, rest) ← from_option (authorized value) bad_key
    require (is_empty (trim_space rest)) several_keys
    ok key

  unfoldable pub parse_all : List Text → Result KeysError (List Text)
  unfolding parse_public_key
  parse_all [] = ok []
  parse_all (value ∷ values) = do
    key ← parse_public_key value
    keys ← parse_all values
    ok (key ∷ keys)

  -- One identity of the document.
  unfoldable pub parse_identity : Text → List Text → Result KeysError (List Text)
  unfolding parse_all
  parse_identity identity values = do
    require (valid_identity identity) bad_identity
    require (not (is_empty values)) no_keys
    parse_all values

  -- `readPublicKeys`.
  unfoldable pub read_public_keys : Option KeysFile → Result KeysError (Map (List Text))
  unfolding parse_identity
  read_public_keys file = do
    f ← from_option file missing_file
    require (bit_and f.mode 0o022 == 0) bad_permissions
    encoded ← from_option f.document undecodable
    require (not (is_empty encoded)) no_identity
    traverse parse_identity encoded

  -- `Authenticate`, with the file as it is read at that time.
  unfoldable pub authenticate_public_key :
      Option KeysFile → Attempt → Result KeysError (Option Verified)
  unfolding read_public_keys
  authenticate_public_key file attempt = elim (offered_key attempt) [
    | none ↦ ok none
    | some key ↦ (do
      document ← read_public_keys file
      let candidates = option_or (lookup attempt.identity document) []
      if any (λ candidate. text_eq candidate key.wire) candidates
          then ok (
              some (record {
                identity = attempt.identity;
                provider = codes "public-key";
                valid_before = none;
              }))
          else ok none)
  ]

  -- The loop of `UpsertPublicKey`: whether the key is there, or the error of a key that is not.
  unfoldable pub contains_key : Text → List Text → Result KeysError Bool
  unfolding parse_public_key
  contains_key key [] = ok false
  contains_key key (value ∷ values) = do
    candidate ← parse_public_key value
    let rest = contains_key key values
    if text_eq candidate key then ok true else rest

  -- `UpsertPublicKey`; `none` is a document without contents, and `some none` one that does not
  -- decode.
  unfoldable pub upsert_public_key :
      Option (Option (Map (List Text))) → Text → Option Text → Result KeysError (Map (List Text))
  unfolding contains_key
  upsert_public_key contents identity public_key = do
    require (valid_identity identity) bad_identity
    key ← from_option public_key key_required
    document ← from_option (option_or contents (some [])) undecodable
    let existing = option_or (lookup identity document) []
    found ← contains_key key existing
    if found
        then ok document
        else ok (insert identity (existing ++ trim_space (line key) ∷ []) document)
