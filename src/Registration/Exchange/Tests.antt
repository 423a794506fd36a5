-- ===== src/Registration/Exchange/Tests.antt =====
-- An exchange for the key of the registration of the sample.
use tearenv.Common.{
  Bool, true, Text, codes, text_eq, trim, trim_left, trim_right, trim_space, lookup, Map, Option,
  some, [], ◌∷◌, ◌≡◌, refl, ok, arith,
}
use tearenv.Authorization.Names.{valid_identity}
use tearenv.Authorization.Providers.{Certificate}
use tearenv.Authorization.Ssh.Sample.{ssh}
use tearenv.Blueprint.Slug.Sample.{sevens}
use tearenv.Authn.{Principal}
use tearenv.Authn.Configuration.{subject_token_type_access_token}
use tearenv.Api.Sample.{library}
use tearenv.Api.Names.{resource_name, replace_invalid, normalize_name}
use tearenv.Api.Validation.{
  validate, accepted, acceptance_condition, check_key, check_keys, validate_public_keys,
  validate_authenticated_principal, check_principal,
}
use tearenv.Registration.Sample.{principal_of, after}
use tearenv.Registration.Store.{
  encode, authenticated_principal, registration_owned_by, resource_path, load_user_registration,
  read_stored_file, get_unlocked,
}
use tearenv.Registration.Requests.{
  accepted_by_default, new_resource, get_as, find_key, public_key_of,
}
use tearenv.Sshcert.{Issuer, unix_before, unix_after, certificate_key_id, certificate_for, issue}
use tearenv.Registration.Exchange.{
  TokenExchangeOptions, TokenExchangeResponse, fields, check_form, exchange_subject, response_for,
  handle_token_exchange,
}
use tearenv.Registration.Exchange.Laws.{IsExchanged, handle_token_exchange-IsExchanged}

abbrev options : TokenExchangeOptions
options = record {
  namespace = codes "users";
  audience = codes "ssh";
  subject_token_type = subject_token_type_access_token;
}

abbrev form : Map Text
form =
    (codes "grant_type", codes "urn:ietf:params:oauth:grant-type:token-exchange")
    ∷ (codes "subject_token_type", subject_token_type_access_token)
    ∷ (codes "subject_token", codes "t")
    ∷ (codes "requested_token_type", codes "https://tearenv.io/oauth/token-type/ssh-certificate")
    ∷ (codes "audience", codes "ssh")
    ∷ (codes "scope", codes "openid ssh:connect")
    ∷ (codes "key_id", codes " laptop")
    ∷ []

abbrev form_type : Text
form_type = codes "application/x-www-form-urlencoded"

abbrev authenticate : Text → Option Principal
authenticate token = some (principal_of (codes "a"))

abbrev parse_media_type : Text → Option Text
parse_media_type t = some t

abbrev marshal : Certificate → Text
marshal c = c.key

abbrev issuer : Issuer
issuer = record { signer = codes "ca"; ttl = 600000000000; clock_skew = 0 }

abbrev response : TokenExchangeResponse
response = record {
  access_token = codes "k1";
  issued_token_type = codes "https://tearenv.io/oauth/token-type/ssh-certificate";
  token_type = codes "N_A";
  expires_in = 600;
}

alice_exchanged :
    handle_token_exchange library ssh sevens parse_media_type marshal options authenticate after
      issuer
      (some 7)
      1000000000000
      (record { content_type = form_type; form = some form })
    ≡ ok response
unfolding handle_token_exchange check_form fields exchange_subject response_for public_key_of get_as
    find_key get_unlocked resource_path read_stored_file load_user_registration validate
    validate_authenticated_principal check_principal validate_public_keys check_keys check_key
    resource_name normalize_name replace_invalid trim trim_left trim_right trim_space text_eq
    valid_identity new_resource accepted_by_default authenticated_principal encode lookup
    registration_owned_by accepted acceptance_condition issue certificate_for unix_before unix_after
    certificate_key_id
alice_exchanged = refl

abbrev trusted : Text → Bool
trusted authority = true

handle_token_exchange-IsExchanged_example :
    IsExchanged library ssh sevens parse_media_type marshal options authenticate after issuer
      1000000000000 trusted form response
handle_token_exchange-IsExchanged_example =
    handle_token_exchange-IsExchanged library ssh sevens parse_media_type marshal trusted options
      authenticate after issuer (some 7) 1000000000000 form_type form response (ground arith)
      (ground arith) alice_exchanged
