-- ===== src/Authn.antt =====
-- internal/authn: principals, bearer credentials (authn.go) and the shared token (static.go).
pub mod Configuration
pub mod Oidc
use tearenv.Common.{
  not, Text, codes, text_eq, cut_prefix, trim_space, is_empty, Result, ok, ◌>>=◌, ◌>>◌, require,
  from_option, [],
}

pub data Method : Type 0 where
  anonymous token oidc : Method

pub record Principal : Type 0 where
  pub method : Method
  pub issuer : Text
  pub subject : Text
  pub identity : Text

-- The errors of the package, by the message they carry.
pub data AuthnError : Type 0 where
  unauthenticated token_required : AuthnError
  bad_token_type bad_issuer audience_required bad_ca_file not_discovered : AuthnError

-- A principal of which only the method is set.
abbrev pub of_method : Method → Principal
of_method m = record { method = m; issuer = []; subject = []; identity = [] }

-- `Anonymous`.
unfoldable pub authenticate_anonymous : Text → Result AuthnError Principal
authenticate_anonymous bearer_token = ok (of_method anonymous)

unfoldable pub bearer : Text → Result AuthnError Text
bearer authorization = do
  credential ← from_option (cut_prefix (trim_space authorization) (codes "Bearer ")) unauthenticated
  require (not (is_empty (trim_space credential))) unauthenticated
  ok (trim_space credential)

-- `sha256.Sum256` is the argument.
module _ (sha256 : Text → Text) where
  -- `StaticToken` is the hash `want`.
  unfoldable pub new_static_token : Text → Result AuthnError Text
  new_static_token t = do
    require (not (is_empty (trim_space t))) token_required
    ok (sha256 (trim_space t))

  unfoldable pub authenticate_static : Text → Text → Result AuthnError Principal
  authenticate_static want bearer_token = do
    require (text_eq want (sha256 (trim_space bearer_token))) unauthenticated
    ok (of_method token)
