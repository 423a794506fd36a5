-- ===== src/Client/Exchange/Tests.antt =====
-- The form of a client for the key named laptop.
use tearenv.Common.{
  true, Text, codes, text_eq, trim, trim_left, trim_right, trim_space, Map, some, [], ◌∷◌, ok, ◌≡◌,
  refl,
}
use tearenv.Authn.Configuration.{
  OidcConfiguration, Configuration, subject_token_type_id_token, normalized, normalized_oidc,
  normalize_subject_token_type,
}
use tearenv.Registration.Exchange.{TokenExchangeOptions, check_form}
use tearenv.Client.Exchange.{exchange_form, prepare_form}
use tearenv.Client.Exchange.Laws.{check_form-prepare_form}

abbrev configured : OidcConfiguration
configured = record {
  issuer_url = codes "https://issuer";
  client_id = codes "tearenv";
  audience = codes "ssh";
  scopes = codes "openid" ∷ [];
  identity_claim = codes "email";
  subject_token_type = subject_token_type_id_token;
  device_flow = true;
}

abbrev configuration : Configuration
configuration = record {
  mode = codes "oidc";
  token_endpoint = codes "/oauth/token";
  oidc = some configured;
}

abbrev options : TokenExchangeOptions
options = record {
  namespace = codes "users";
  audience = codes "ssh";
  subject_token_type = subject_token_type_id_token;
}

abbrev form : Map Text
unfolding exchange_form trim_space trim trim_left trim_right
form = exchange_form configured subject_token_type_id_token (codes " t") (codes "laptop ")

configuration_normal : (normalized configuration).oidc ≡ some configured
unfolding normalized normalized_oidc trim_space trim trim_left trim_right text_eq
configuration_normal = refl

type_normal :
    normalize_subject_token_type subject_token_type_id_token ≡ ok subject_token_type_id_token
unfolding normalize_subject_token_type trim_space trim trim_left trim_right text_eq
type_normal = refl

form_prepared : prepare_form configuration (codes " t") (codes "laptop ") ≡ ok form
unfolding prepare_form normalize_subject_token_type normalized normalized_oidc exchange_form
    trim_space trim trim_left trim_right text_eq
form_prepared = refl

check_form-prepare_form_example : check_form options form ≡ ok (codes "laptop")
unfolding trim_space trim trim_left trim_right
check_form-prepare_form_example =
    check_form-prepare_form options configuration configured (codes " t") (codes "laptop ") form
      configuration_normal refl refl type_normal refl form_prepared
