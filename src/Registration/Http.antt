-- ===== src/Registration/Http.antt =====
-- internal/registration/http.go: the registration API. `net/http` chooses the route; the YAML of a
-- registration is decoded by an argument. Headers and texts of replies are left out.
pub mod Laws
mod Tests
use tearenv.Common.{
  ℕ, suc, Bool, true, false, not, ◌&&◌, Text, codes, text_eq, is_empty, trim_space, length, take,
  ltb, Option, none, some, option_or, List, [], ◌∷◌, if◌then◌else◌, Result, ok, err, ◌>>=◌, ◌>>◌,
  require, from_option,
}
use tearenv.Authn.{
  AuthnError, Principal, of_method, bearer, new_static_token, authenticate_static,
  authenticate_anonymous,
}
use tearenv.Authn.Configuration.{Configuration, normalized}
use tearenv.Authn.Oidc.{split}
use tearenv.Api.{UserRegistration}
use tearenv.Api.Library.{Library}
use tearenv.Registration.Store.{
  Store, StoreError, not_found, forbidden, conflict, load_user_registration,
}
use tearenv.Registration.Requests.{Answers, put_as, get_as}
use tearenv.Registration.Exchange.{ExchangeRequest, OauthError, TokenExchangeResponse}

-- `requestBodyLimit`.
abbrev pub request_body_limit : ℕ
request_body_limit = 1048576

-- The type `Anonymous`, or any other authenticator, by what its `Authenticate` answers at the time
-- of the request: each request has options of its own.
pub data HttpAuthenticator : Type 0 where
  anonymous_only : HttpAuthenticator
  verifies : (Text → Result AuthnError Principal) → HttpAuthenticator

abbrev pub Exchanger : Type 0
Exchanger = ExchangeRequest → Result OauthError TokenExchangeResponse

pub record HandlerOptions : Type 0 where
  pub authenticator : Option HttpAuthenticator
  pub configuration : Configuration
  pub token_exchange : Option Exchanger

-- What a request has; the body is none if it cannot be read.
pub record HttpRequest : Type 0 where
  pub authorization : Text
  pub content_type : Text
  pub body : Option Text
  pub namespace : Text
  pub name : Text

pub data HttpReply : Type 0 where
  healthy : HttpReply
  failure : ℕ → HttpReply
  discovery : Configuration → HttpReply
  registration : ℕ → UserRegistration → HttpReply
  exchanged : Result OauthError TokenExchangeResponse → HttpReply

-- The patterns of the `ServeMux`.
pub data Route : Type 0 where
  healthz readyz tearenv_configuration oauth_token put_route get_route : Route

-- `sha256.Sum256` is the argument.
unfoldable pub static_authenticator : (Text → Text) → Text → HttpAuthenticator
static_authenticator sha256 bearer_token = elim (new_static_token sha256 bearer_token) [
  | err e ↦ anonymous_only
  | ok want ↦ verifies (authenticate_static sha256 want)
]

abbrev pub mode_configuration : Text → Configuration
mode_configuration mode = record { mode = mode; token_endpoint = []; oidc = none }

-- `NewHandler`.
unfoldable pub static_options : (Text → Text) → Text → HandlerOptions
unfolding static_authenticator
static_options sha256 bearer_token =
    if is_empty (trim_space bearer_token)
    then record {
      authenticator = some anonymous_only;
      configuration = mode_configuration (codes "anonymous");
      token_exchange = none;
    }
    else record {
      authenticator = some (static_authenticator sha256 bearer_token);
      configuration = mode_configuration (codes "token");
      token_exchange = none;
    }

-- `authorize`; `none` is the answer 401.
unfoldable pub authorize : HttpAuthenticator → Text → Result AuthnError Principal
authorize anonymous_only authorization = authenticate_anonymous []
authorize (verifies authenticate) authorization = do
  bearer_token ← bearer authorization
  authenticate bearer_token

abbrev pub first : List Text → Text
first [] = []
first (t ∷ ts) = t

-- The statuses of `putRegistration` and `getRegistration` for an error of the store.
abbrev pub put_status : StoreError → ℕ
put_status forbidden = 403
put_status conflict = 409
put_status _ = 500

abbrev pub get_status : StoreError → ℕ
get_status not_found = 404
get_status forbidden = 403
get_status _ = 500

abbrev pub loaded : Result StoreError UserRegistration → Result ℕ UserRegistration
loaded (ok r) = ok r
loaded (err e) = err 400

-- 201 for a registration that was created.
abbrev pub put_code : Bool → ℕ
put_code true = 201
put_code false = 200

-- The answer to what `PutAs` returned.
abbrev pub put_reply :
    Store → Result StoreError (Store × UserRegistration × Bool) → Store × HttpReply
put_reply store (err e) = (store, failure (put_status e))
put_reply store (ok (saved, stored, created)) = (saved, registration (put_code created) stored)

abbrev pub get_reply : Result StoreError UserRegistration → HttpReply
get_reply (err e) = failure (get_status e)
get_reply (ok r) = registration 200 r

module _ (lib : Library) (decode : Text → Option UserRegistration) where
  -- `putRegistration` up to the store: the registration, or the status of a refusal.
  unfoldable pub read_registration : HttpRequest → Result ℕ UserRegistration
  read_registration q = do
    require (text_eq (trim_space (first (split b';' q.content_type))) (codes "application/json"))
        415
    body ← from_option q.body 400
    let contents = take (suc request_body_limit) body
    require (not (ltb request_body_limit (length contents))) 413
    r ← loaded (load_user_registration lib (decode contents))
    require (text_eq r.namespace q.namespace && text_eq r.name q.name) 400
    ok r

  unfoldable pub put_registration : Answers → HttpRequest → Principal → Store → Store × HttpReply
  unfolding read_registration
  put_registration a q p store = elim (read_registration q) [
    | err status ↦ (store, failure status)
    | ok r ↦ put_reply store (put_as lib a r p store)
  ]

  unfoldable pub get_registration : HttpRequest → Principal → Store → HttpReply
  get_registration q p store = get_reply (get_as lib store q.namespace q.name p)

  -- The handlers of the two routes of a registration.
  unfoldable pub serve_put : HttpAuthenticator → Answers → HttpRequest → Store → Store × HttpReply
  unfolding authorize put_registration
  serve_put authenticator a q store = elim (authorize authenticator q.authorization) [
    | err e ↦ (store, failure 401)
    | ok p ↦ put_registration a q p store
  ]

  unfoldable pub serve_get : HttpAuthenticator → HttpRequest → Store → HttpReply
  unfolding authorize get_registration
  serve_get authenticator q store = elim (authorize authenticator q.authorization) [
    | err e ↦ failure 401
    | ok p ↦ get_registration q p store
  ]

  abbrev pub exchange_reply : Option Exchanger → ExchangeRequest → HttpReply
  exchange_reply none q = failure 404
  exchange_reply (some exchange) q = exchanged (exchange q)

  -- `NewHandlerWithOptions`: the handler of each route.
  unfoldable pub serve :
      HandlerOptions → Answers → Route → HttpRequest → ExchangeRequest → Store → Store × HttpReply
  unfolding serve_put serve_get
  serve o a healthz q x store = (store, healthy)
  serve o a readyz q x store = (store, healthy)
  serve o a tearenv_configuration q x store = (store, discovery (normalized o.configuration))
  serve o a oauth_token q x store = (store, exchange_reply o.token_exchange x)
  serve o a put_route q x store = serve_put (option_or o.authenticator anonymous_only) a q store
  serve o a get_route q x store =
      (store, serve_get (option_or o.authenticator anonymous_only) q store)
