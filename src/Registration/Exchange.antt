-- ===== src/Registration/Exchange.antt =====
-- internal/registration/token_exchange.go: the exchange of an OIDC token for an SSH certificate.
-- `mime.ParseMediaType` and `ssh.MarshalAuthorizedKey` are arguments; the form is the map that
-- `ParseForm` makes of a body of at most 64 KiB, or none.
pub mod Laws
mod Tests
use tearenv.Common.{
  ℕ, ◌/◌, ◌^◌, Bool, true, false, not, ◌&&◌, ◌||◌, Text, codes, text_eq, is_empty, is_space, any,
  trim_space, Map, lookup, Option, none, some, option_or, ◌==◌, List, [], ◌∷◌, if◌then◌else◌,
  Result, ok, err, ◌>>=◌, ◌>>◌, require, from_option, wrap,
}
use tearenv.Authorization.Providers.{Certificate}
use tearenv.Authorization.Ssh.{Ssh, user_cert}
use tearenv.Blueprint.Slug.{Digest}
use tearenv.Authn.{Principal, AuthnError}
use tearenv.Authn.Configuration.{normalize_subject_token_type}
use tearenv.Authn.Oidc.{extend}
use tearenv.Api.Library.{Library}
use tearenv.Api.Names.{resource_name}
use tearenv.Registration.Store.{Store, StoreError, forbidden, is_oidc}
use tearenv.Registration.Requests.{public_key_of}
use tearenv.Sshcert.{Issuer, Subject, IssuerError, issue}

abbrev pub token_exchange_grant_type : Text
token_exchange_grant_type = codes "urn:ietf:params:oauth:grant-type:token-exchange"

abbrev pub ssh_certificate_token_type : Text
ssh_certificate_token_type = codes "https://tearenv.io/oauth/token-type/ssh-certificate"

abbrev pub ssh_connect_scope : Text
ssh_connect_scope = codes "ssh:connect"

-- The fields of `TokenExchangeOptions` that are texts.
pub record TokenExchangeOptions : Type 0 where
  pub namespace : Text
  pub audience : Text
  pub subject_token_type : Text

pub data OptionsError : Type 0 where
  parts_required texts_required : OptionsError
  bad_type : AuthnError → OptionsError

-- The checks of `NewTokenExchangeHandler`, by whether its authenticator, store and issuer are
-- there: the options with which it serves.
unfoldable pub new_token_exchange_handler :
    Bool → TokenExchangeOptions → Result OptionsError TokenExchangeOptions
new_token_exchange_handler has_parts o = do
  require has_parts parts_required
  require (not (is_empty (trim_space o.namespace) || is_empty (trim_space o.audience)))
      texts_required
  t ← wrap bad_type (normalize_subject_token_type o.subject_token_type)
  ok (record o { subject_token_type = t })

-- The errors, by the status and the code that they are answered with.
pub data OauthError : Type 0 where
  unsupported_media_type invalid_form unsupported_grant_type no_subject_token : OauthError
  wrong_requested_type wrong_audience no_scope no_key_id invalid_grant : OauthError
  not_owned no_key issuance_failed : OauthError

-- The status and the code of `writeOAuthError`.
unfoldable pub oauth_error : OauthError → ℕ × Text
oauth_error unsupported_media_type = (415, codes "invalid_request")
oauth_error invalid_form = (400, codes "invalid_request")
oauth_error unsupported_grant_type = (400, codes "unsupported_grant_type")
oauth_error no_subject_token = (400, codes "invalid_request")
oauth_error wrong_requested_type = (400, codes "invalid_request")
oauth_error wrong_audience = (400, codes "invalid_target")
oauth_error no_scope = (400, codes "invalid_scope")
oauth_error no_key_id = (400, codes "invalid_request")
oauth_error invalid_grant = (400, codes "invalid_grant")
oauth_error not_owned = (400, codes "invalid_target")
oauth_error no_key = (400, codes "invalid_request")
oauth_error issuance_failed = (500, codes "server_error")

pub record TokenExchangeResponse : Type 0 where
  pub access_token : Text
  pub issued_token_type : Text
  pub token_type : Text
  pub expires_in : ℕ

pub record ExchangeRequest : Type 0 where
  pub content_type : Text
  pub form : Option (Map Text)

-- `PostForm.Get`.
abbrev pub value : Map Text → Text → Text
value form key = option_or (lookup key form) []

abbrev pub starts_word : Text → Bool
starts_word [] = false
starts_word (c ∷ s) = not (is_space c)

-- `strings.Fields`.
unfoldable pub fields : Text → List Text
fields [] = []
fields (c ∷ s) =
    let rest = fields s in
    if is_space c then rest else if starts_word s then extend c rest else (c ∷ []) ∷ rest

-- The checks of `handleTokenExchange` before the authentication: the name of the key.
unfoldable pub check_form : TokenExchangeOptions → Map Text → Result OauthError Text
unfolding fields
check_form o form = do
  require (text_eq (value form (codes "grant_type")) token_exchange_grant_type)
      unsupported_grant_type
  require
      (text_eq (value form (codes "subject_token_type")) o.subject_token_type
        && not (is_empty (trim_space (value form (codes "subject_token")))))
      no_subject_token
  require (text_eq (value form (codes "requested_token_type")) ssh_certificate_token_type)
      wrong_requested_type
  require (text_eq (value form (codes "audience")) o.audience) wrong_audience
  require (any (λ s. text_eq s ssh_connect_scope) (fields (value form (codes "scope")))) no_scope
  require (not (is_empty (trim_space (value form (codes "key_id"))))) no_key_id
  ok (trim_space (value form (codes "key_id")))

abbrev pub key_error : StoreError → OauthError
key_error forbidden = not_owned
key_error _ = no_key

abbrev pub issue_error : IssuerError → OauthError
issue_error e = issuance_failed

module _ (lib : Library) (ssh : Ssh) (digest : Digest) (parse_media_type : Text → Option Text)
    (marshal : Certificate → Text) where
  -- `handleTokenExchange` from the authentication on; the answer of the authenticator, the serial
  -- of the random source and the time are arguments.
  unfoldable pub exchange_subject :
      TokenExchangeOptions
      → Option Principal
      → Store
      → Issuer
      → Option ℕ
      → ℕ
      → Text
      → Result OauthError Certificate
  exchange_subject o subject store issuer serial now key_name = do
    principal ← from_option subject invalid_grant
    require (is_oidc principal) invalid_grant
    key ← wrap key_error (
        public_key_of lib store o.namespace (resource_name lib principal.identity) key_name
          principal)
    wrap issue_error (
        issue ssh digest issuer serial now principal.identity key_name (some key)
          (record { issuer = principal.issuer; subject = principal.subject }))

  unfoldable pub response_for : Issuer → Certificate → TokenExchangeResponse
  response_for issuer certificate = record {
    access_token = trim_space (marshal certificate);
    issued_token_type = ssh_certificate_token_type;
    token_type = codes "N_A";
    expires_in = issuer.ttl / 10 ^ 9;
  }

  -- `handleTokenExchange`, where `authenticate` answers `none` for an error.
  unfoldable pub handle_token_exchange :
      TokenExchangeOptions
      → (Text → Option Principal)
      → Store
      → Issuer
      → Option ℕ
      → ℕ
      → ExchangeRequest
      → Result OauthError TokenExchangeResponse
  unfolding check_form exchange_subject response_for
  handle_token_exchange o authenticate store issuer serial now request = do
    media ← from_option (parse_media_type request.content_type) unsupported_media_type
    require (text_eq media (codes "application/x-www-form-urlencoded")) unsupported_media_type
    form ← from_option request.form invalid_form
    key_name ← check_form o form
    certificate ←
        exchange_subject o (authenticate (value form (codes "subject_token"))) store issuer serial
          now key_name
    ok (response_for issuer certificate)

abbrev pub user_certificate : Option Certificate → Option Certificate
user_certificate none = none
user_certificate (some c) = if c.cert_type == user_cert then some c else none

-- `parseSSHCertificate`, where `parse` is `ssh.ParseAuthorizedKey`: the certificate, if the key is
-- one, and the rest.
unfoldable pub parse_ssh_certificate :
    (Text → Option (Option Certificate × Text)) → Text → Option Certificate
parse_ssh_certificate parse encoded = elim (parse encoded) [
  | none ↦ none
  | some parsed ↦ if is_empty (trim_space parsed.1) then user_certificate parsed.0 else none
]
