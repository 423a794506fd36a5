-- ===== src/Registration/Http/Tests.antt =====
-- A request for the registration of the sample.
use tearenv.Common.{
  Text, codes, text_eq, cut_prefix, trim, trim_left, trim_right, trim_space, lookup, insert, Option,
  none, some, [], Result, ok, err, if◌then◌else◌, ◌≡◌, refl,
}
use tearenv.Authorization.Names.{valid_identity}
use tearenv.Authn.{AuthnError, unauthenticated, Principal, bearer}
use tearenv.Authn.Oidc.{split}
use tearenv.Api.{UserRegistration}
use tearenv.Api.Sample.{library}
use tearenv.Api.Names.{resource_name, replace_invalid, normalize_name}
use tearenv.Api.Validation.{
  validate, check_key, check_keys, validate_public_keys, validate_authenticated_principal,
  check_principal,
}
use tearenv.Registration.Sample.{alice, principal_of, answers, empty, stored, after}
use tearenv.Registration.Store.{
  encode, authenticated_principal, resource_path, load_user_registration, get_unlocked,
  write_unlocked,
}
use tearenv.Registration.Requests.{accepted_by_default, new_resource, save, create, settle, put_as}
use tearenv.Registration.Requests.Ownership.{empty-IsFiled}
use tearenv.Registration.Exchange.{ExchangeRequest}
use tearenv.Registration.Http.{
  verifies, HandlerOptions, HttpRequest, registration, put_route, mode_configuration,
  read_registration, put_registration, authorize, serve_put, serve,
}
use tearenv.Registration.Http.Laws.{IsReadable, serve-IsReadable}

abbrev decode : Text → Option UserRegistration
decode t = some alice

abbrev authenticate : Text → Result AuthnError Principal
authenticate t = ok (principal_of (codes "a"))

abbrev options : HandlerOptions
options = record {
  authenticator = some (verifies authenticate);
  configuration = mode_configuration (codes "oidc");
  token_exchange = none;
}

abbrev request : HttpRequest
request = record {
  authorization = codes "Bearer t";
  content_type = codes "application/json; charset=utf-8";
  body = some (codes "{}");
  namespace = codes "users";
  name = codes "alice";
}

abbrev no_exchange : ExchangeRequest
no_exchange = record { content_type = []; form = none }

alice_served :
    serve library decode options answers put_route request no_exchange empty
    ≡ (after, registration 201 stored)
unfolding serve serve_put authorize bearer cut_prefix put_registration read_registration split
    put_as settle create save validate validate_authenticated_principal check_principal
    validate_public_keys check_keys check_key resource_name normalize_name replace_invalid trim
    trim_left trim_right trim_space text_eq valid_identity get_unlocked resource_path write_unlocked
    new_resource accepted_by_default authenticated_principal encode lookup insert
    load_user_registration
alice_served = refl

-- Later the token has expired, and the client has another one.
abbrev refreshing : Text → Result AuthnError Principal
refreshing t = if text_eq t (codes "u") then ok (principal_of (codes "a")) else err unauthenticated

abbrev later : HandlerOptions
later = record options { authenticator = some (verifies refreshing) }

abbrev again : HttpRequest
again = record request { authorization = codes "Bearer u" }

serve-IsReadable_example :
    IsReadable library decode later answers request again no_exchange after 201
unfolding authorize bearer cut_prefix text_eq trim_space trim trim_left trim_right
serve-IsReadable_example =
    serve-IsReadable library decode options later (codes "Bearer u") answers answers request
      no_exchange empty after 201 stored (empty-IsFiled library (codes "users")) refl alice_served
