-- ===== src/Authn/Oidc/Tests.antt =====
-- An access token of one issuer.
use tearenv.Common.{
  Bool, true, Text, codes, text_eq, trim, trim_left, trim_right, trim_space, lookup, Option, some,
  [], ◌∷◌, ok, ◌≡◌, refl,
}
use tearenv.Api.Library.{Url}
use tearenv.Authn.{Principal, oidc}
use tearenv.Authn.Configuration.{subject_token_type_access_token, normalize_subject_token_type}
use tearenv.Authn.Oidc.{
  OidcConfig, VerifiedOidcToken, Verifier, Decoders, Oidc, split, fits_type, token_header,
  matches_subject_token_type, authenticate_oidc, new_oidc,
}
use tearenv.Authn.Oidc.Laws.{IsConfigured, IsVouched, authenticate_oidc-IsTrusted}

abbrev decoders : Decoders
decoders = record {
  base64_decode = λ t. some t;
  header_type = λ t. some (codes "AT+JWT");
  json_string = λ t. some t;
}

abbrev token : VerifiedOidcToken
token = record {
  issuer = codes "https://issuer";
  subject = codes "a";
  claims = (codes "preferred_username", codes "alice") ∷ [];
}

abbrev verify : Verifier
verify t = some token

abbrev url_parse : Text → Option Url
url_parse t =
    some (record { scheme = codes "https"; host = codes "issuer"; raw_query = []; fragment = [] })

abbrev readable : Text → Bool
readable ca_file = true

abbrev discover : Text → Text → Option Verifier
discover url audience = some verify

abbrev config : OidcConfig
config = record {
  issuer_url = codes "https://issuer/";
  client_id = [];
  audience = codes "ssh";
  identity_claim = [];
  subject_token_type = codes "access-token";
  ca_file = [];
}

abbrev issuer : Oidc
issuer = record {
  issuer_url = codes "https://issuer";
  identity_claim = codes "preferred_username";
  subject_token_type = subject_token_type_access_token;
  verifier = verify;
}

issuer_new : new_oidc url_parse readable discover config ≡ ok issuer
unfolding new_oidc normalize_subject_token_type trim_space trim trim_left trim_right text_eq
issuer_new = refl

abbrev alice : Principal
alice = record {
  method = oidc;
  issuer = codes "https://issuer";
  subject = codes "a";
  identity = codes "alice";
}

alice_in : authenticate_oidc decoders issuer (codes "h.p.s ") ≡ ok alice
unfolding authenticate_oidc matches_subject_token_type token_header fits_type split lookup text_eq
    trim_space trim trim_left trim_right
alice_in = refl

authenticate_oidc-IsTrusted_example :
    IsConfigured url_parse discover config issuer × IsVouched decoders issuer (codes "h.p.s ") alice
authenticate_oidc-IsTrusted_example =
    authenticate_oidc-IsTrusted decoders url_parse readable discover config issuer (codes "h.p.s ")
      alice issuer_new alice_in
