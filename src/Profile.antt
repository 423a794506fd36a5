-- ===== src/Profile.antt =====
-- internal/profile/profile.go: the saved login of a client. The file at the path is its mode and
-- the profile that its JSON decodes to; a save replaces it by a rename, or fails and leaves it.
use tearenv.Common.{
  ℕ, bit_and, Bool, not, ◌&&◌, ◌||◌, Text, codes, text_eq, is_empty, ◌==◌, Option, some, Result, ok,
  ◌>>=◌, ◌>>◌, >>=-eq-ok, require, require-then, from_option, ◌≡◌, refl,
}

pub record Profile : Type 0 where
  pub server_address : Text
  pub api_url : Text
  pub namespace : Text
  pub identity : Text
  pub authentication_mode : Text
  pub key_name : Text
  pub oidc_device : Bool
  pub token : Text
  pub private_key : Text
  pub known_hosts : Text
  pub insecure : Bool

pub record ProfileFile : Type 0 where
  pub mode : ℕ
  pub document : Option Profile

-- The errors, by the message they carry.
pub data ProfileError : Type 0 where
  no_file bad_permissions undecodable not_written : ProfileError
  no_server no_identity no_credential incomplete_oidc no_known_hosts : ProfileError

-- `validate`.
unfoldable pub validate : Profile → Result ProfileError (Unit {0})
validate p = do
  require (not (is_empty p.server_address)) no_server
  require (not (is_empty p.identity)) no_identity
  require (not (is_empty p.token && is_empty p.private_key)) no_credential
  require
      (not (
        text_eq p.authentication_mode (codes "oidc")
        && (is_empty p.api_url
            || is_empty p.namespace
            || is_empty p.key_name
            || is_empty p.private_key)))
      incomplete_oidc
  require (p.insecure || not (is_empty p.known_hosts)) no_known_hosts

unfoldable pub load : Option ProfileFile → Result ProfileError Profile
unfolding validate
load file = do
  f ← from_option file no_file
  require (bit_and f.mode 0o077 == 0) bad_permissions
  p ← from_option f.document undecodable
  validate p
  ok p

-- `Save`, by whether the file could be written and put in its place.
unfoldable pub save : Bool → Profile → Result ProfileError ProfileFile
unfolding validate
save written p = do
  validate p
  require written not_written
  ok (record { mode = 0o600; document = some p })

-- What was saved is loaded as it was.
pub load-save :
    (written : Bool) (p : Profile) (f : ProfileFile) → save written p ≡ ok f → load (some f) ≡ ok p
unfolding load save
load-save written p f e =
    let (u, valid, rest) = >>=-eq-ok (validate p) _ e in
    let (done, last) = require-then written _ _ rest in
    let same : record { mode = 0o600; document = some p } ≡ f = cc in rw (← same) (rw valid refl)
