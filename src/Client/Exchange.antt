-- ===== src/Client/Exchange.antt =====
-- internal/client/authentication.go: `ExchangeSSHCertificate`. The URL of the endpoint is an
-- argument, as are the request, which is `doLimitedRequest`, and the decoding of its answer.
pub mod Laws
mod Tests
use tearenv.Common.{
  ℕ, Bool, true, false, not, ◌&&◌, Text, codes, text_eq, is_empty, any, trim_space, Map, Option,
  none, some, List, [], ◌∷◌, ◌==◌, leb, ltb, if◌then◌else◌, Result, ok, err, ◌>>=◌, ◌>>◌, require,
  from_option, wrap,
}
use tearenv.Authorization.Providers.{Certificate}
use tearenv.Authorization.Ssh.{user_cert}
use tearenv.Authn.{AuthnError}
use tearenv.Authn.Configuration.{
  OidcConfiguration, Configuration, normalized, normalize_subject_token_type,
}
use tearenv.Registration.Exchange.{
  token_exchange_grant_type, ssh_certificate_token_type, ssh_connect_scope, user_certificate,
}

pub data ExchangeError : Type 0 where
  no_signer no_configuration no_subject_token no_endpoint not_answered refused : ExchangeError
  undecodable wrong_token_type bad_certificate no_user_certificate wrong_key wrong_principal :
      ExchangeError
  bad_type : AuthnError → ExchangeError

-- The fields of the answer.
pub record ExchangeAnswer : Type 0 where
  pub access_token : Text
  pub issued_token_type : Text

abbrev pub audience_field : Text → Map Text
audience_field audience =
    if is_empty (trim_space audience) then [] else (codes "audience", audience) ∷ []

-- The form.
unfoldable pub exchange_form : OidcConfiguration → Text → Text → Text → Map Text
exchange_form c subject_token_type subject_token key_name =
    (codes "grant_type", token_exchange_grant_type)
    ∷ (codes "subject_token", trim_space subject_token)
    ∷ (codes "subject_token_type", subject_token_type)
    ∷ (codes "requested_token_type", ssh_certificate_token_type)
    ∷ (codes "scope", ssh_connect_scope)
    ∷ (codes "key_id", trim_space key_name)
    ∷ audience_field c.audience

-- `ExchangeSSHCertificate` up to the form.
unfoldable pub prepare_form : Configuration → Text → Text → Result ExchangeError (Map Text)
unfolding exchange_form
prepare_form c subject_token key_name = do
  o ← from_option (normalized c).oidc no_configuration
  t ← wrap bad_type (normalize_subject_token_type o.subject_token_type)
  require (not (is_empty (trim_space subject_token))) no_subject_token
  ok (exchange_form o t subject_token key_name)

-- `certificatePrincipal`.
unfoldable pub certificate_principal : Certificate → Text → Bool
certificate_principal c identity = any (λ p. text_eq p identity) c.valid_principals

-- The checks of the answer, where `parse` is `ssh.ParseAuthorizedKey`: the certificate, if the key
-- is one, and the rest.
unfoldable pub check_answer :
    (Text → Option (Option Certificate × Text))
    → ExchangeAnswer
    → Text
    → Text
    → Result ExchangeError Certificate
unfolding certificate_principal
check_answer parse a signer_key identity = do
  require (text_eq a.issued_token_type ssh_certificate_token_type) wrong_token_type
  parsed ← from_option (parse a.access_token) bad_certificate
  require (is_empty (trim_space parsed.1)) bad_certificate
  certificate ← from_option (user_certificate parsed.0) no_user_certificate
  require (text_eq certificate.key signer_key) wrong_key
  require (certificate_principal certificate identity) wrong_principal
  ok certificate

-- `ExchangeSSHCertificate` up to the signer of the certificate; the private signer is its public
-- key, if there is one.
unfoldable pub exchange_ssh_certificate :
    (Text → Option (Option Certificate × Text))
    → (Text → Option ExchangeAnswer)
    → Option Text
    → (Text → Map Text → Option (ℕ × Text))
    → Configuration
    → Text
    → Text
    → Text
    → Option Text
    → Result ExchangeError Certificate
unfolding prepare_form check_answer
exchange_ssh_certificate parse decode endpoint request c subject_token key_name identity signer = do
  signer_key ← from_option signer no_signer
  form ← prepare_form c subject_token key_name
  url ← from_option endpoint no_endpoint
  answer ← from_option (request url form) not_answered
  require (leb 200 answer.0 && ltb answer.0 300) refused
  a ← from_option (decode answer.1) undecodable
  check_answer parse a signer_key identity
