-- ===== src/Authn/Configuration.antt =====
-- internal/authn/configuration.go: the public settings of the authentication.
use tearenv.Common.{
  Bool, ◌||◌, Text, codes, text_eq, is_empty, any, trim_right, trim_space, ◌==◌, Option, none, some,
  List, ◌∷◌, if◌then◌else◌, Result, ok, err,
}
use tearenv.Authn.{AuthnError, bad_token_type}

abbrev pub subject_token_type_access_token : Text
subject_token_type_access_token = codes "urn:ietf:params:oauth:token-type:access_token"

abbrev pub subject_token_type_id_token : Text
subject_token_type_id_token = codes "urn:ietf:params:oauth:token-type:id_token"

-- `OIDCConfiguration`.
pub record OidcConfiguration : Type 0 where
  pub issuer_url : Text
  pub client_id : Text
  pub audience : Text
  pub scopes : List Text
  pub identity_claim : Text
  pub subject_token_type : Text
  pub device_flow : Bool

pub record Configuration : Type 0 where
  pub mode : Text
  pub token_endpoint : Text
  pub oidc : Option OidcConfiguration

-- `strings.TrimRight(strings.TrimSpace(url), "/")`.
abbrev pub trim_url : Text → Text
trim_url url = trim_right (λ c. c == b'/') (trim_space url)

abbrev pub or_default : Text → Text → Text
or_default fallback t = if is_empty t then fallback else t

abbrev pub openid : Text
openid = codes "openid"

abbrev pub with_openid : List Text → List Text
with_openid scopes = if any (λ s. text_eq s openid) scopes then scopes else openid ∷ scopes

unfoldable pub normalized_oidc : OidcConfiguration → OidcConfiguration
normalized_oidc c = record c {
  issuer_url = trim_url c.issuer_url;
  client_id = trim_space c.client_id;
  audience = trim_space c.audience;
  identity_claim = trim_space c.identity_claim;
  subject_token_type = or_default subject_token_type_access_token (trim_space c.subject_token_type);
  scopes = with_openid c.scopes;
}

-- `Normalized`.
unfoldable pub normalized : Configuration → Configuration
unfolding normalized_oidc
normalized c = record {
  mode = trim_space c.mode;
  token_endpoint = trim_space c.token_endpoint;
  oidc = elim (c.oidc) [ none ↦ none | some o ↦ some (normalized_oidc o) ];
}

abbrev pub names_type : Text → Text → Text → Bool
names_type short urn value = text_eq value short || text_eq value urn

-- `NormalizeSubjectTokenType`.
unfoldable pub normalize_subject_token_type : Text → Result AuthnError Text
normalize_subject_token_type value =
    if names_type (codes "access-token") subject_token_type_access_token (trim_space value)
    then ok subject_token_type_access_token
    else if names_type (codes "id-token") subject_token_type_id_token (trim_space value)
    then ok subject_token_type_id_token
    else err bad_token_type
