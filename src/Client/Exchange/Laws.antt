-- ===== src/Client/Exchange/Laws.antt =====
-- internal/client/authentication.go with internal/registration/token_exchange.go: the server takes
-- the form of the client.
use tearenv.Common.{
  ℕ, Bool, true, false, not, Text, codes, text_eq, text_eq_self, is_empty, is_space, any, trim,
  trim_left, trim_right, trim_space, Map, lookup, some, [], ◌∷◌, ok, >>=-eq-ok, require-then,
  from_option, wrap, wrap-eq-ok, ◌≡◌, refl, ap, ◌∙◌, arith,
}
use tearenv.Authn.Configuration.{
  OidcConfiguration, Configuration, normalized, normalize_subject_token_type,
}
use tearenv.Registration.Exchange.{
  TokenExchangeOptions, value, fields, check_form, ssh_connect_scope, token_exchange_grant_type,
  ssh_certificate_token_type,
}
use tearenv.Client.Exchange.{no_configuration, bad_type, exchange_form, prepare_form}

trim_right_idem : (p : ℕ → Bool) (s : Text) → trim_right p (trim_right p s) ≡ trim_right p s
unfolding trim_right
trim_right_idem p [] = refl
trim_right_idem p (c ∷ s) = ground (arith, trim_right_idem p s)

trim_left-trim_right :
    (p : ℕ → Bool) (s : Text)
    → trim_left p (trim_right p (trim_left p s)) ≡ trim_right p (trim_left p s)
unfolding trim_left trim_right
trim_left-trim_right p [] = refl
trim_left-trim_right p (c ∷ s) = ground (arith, trim_left-trim_right p s)

pub trim_space_idem : (s : Text) → trim_space (trim_space s) ≡ trim_space s
unfolding trim_space trim
trim_space_idem s =
    ap (trim_right is_space) (trim_left-trim_right is_space s)
    ∙ trim_right_idem is_space (trim_left is_space s)

has_scope : any (λ s. text_eq s ssh_connect_scope) (fields ssh_connect_scope) ≡ true
unfolding fields text_eq
has_scope = refl

-- A form whose fields are as the handler wants them.
check_form-ok :
    (o : TokenExchangeOptions) (form : Map Text) (token key : Text)
    → value form (codes "grant_type") ≡ token_exchange_grant_type
    → value form (codes "subject_token_type") ≡ o.subject_token_type
    → value form (codes "subject_token") ≡ trim_space token
    → value form (codes "requested_token_type") ≡ ssh_certificate_token_type
    → value form (codes "audience") ≡ o.audience
    → value form (codes "scope") ≡ ssh_connect_scope
    → value form (codes "key_id") ≡ trim_space key
    → is_empty (trim_space token) ≡ false
    → is_empty (trim_space key) ≡ false
    → check_form o form ≡ ok (trim_space key)
unfolding check_form
check_form-ok o form token key grant type_ sent wanted aimed scope named some_token some_key =
    rw
      (
        grant,
        type_,
        sent,
        wanted,
        aimed,
        scope,
        named,
        text_eq_self token_exchange_grant_type,
        text_eq_self (o.subject_token_type),
        text_eq_self ssh_certificate_token_type,
        text_eq_self (o.audience),
        trim_space_idem token,
        trim_space_idem key,
        some_token,
        some_key,
        has_scope,
      )
      refl

-- A server takes the form of a client that was configured with its audience and its kind of token,
-- for a name of a key that is not blank, and reads the name of the key from it.
pub check_form-prepare_form :
    (o : TokenExchangeOptions) (c : Configuration) (oidc : OidcConfiguration) (token key : Text)
    (form : Map Text)
    → (normalized c).oidc ≡ some oidc
    → oidc.audience ≡ o.audience
    → is_empty (trim_space (oidc.audience)) ≡ false
    → normalize_subject_token_type (oidc.subject_token_type) ≡ ok (o.subject_token_type)
    → is_empty (trim_space key) ≡ false
    → prepare_form c token key ≡ ok form
    → check_form o form ≡ ok (trim_space key)
unfolding prepare_form exchange_form lookup text_eq
check_form-prepare_form o c oidc token key form given audience aimed type_ some_key e =
    let (x, found, rest) = >>=-eq-ok (from_option (normalized c).oidc no_configuration) _ e in
    let same : x ≡ oidc = cc in
    let (t, typed, rest2) =
      >>=-eq-ok (wrap bad_type (normalize_subject_token_type (x.subject_token_type))) _ rest in
    let normal = wrap-eq-ok bad_type (normalize_subject_token_type (x.subject_token_type)) typed in
    let kind : t ≡ o.subject_token_type = cc in
    let (present, made) = require-then (not (is_empty (trim_space token))) _ _ rest2 in
    let some_token : is_empty (trim_space token) ≡ false = ground arith in
    let aimed_x : is_empty (trim_space (x.audience)) ≡ false = rw same aimed in
    let is : exchange_form x t token key ≡ form = cc in
    rw (← is) (
      check_form-ok o (exchange_form x t token key) token key refl kind refl refl
        (rw aimed_x (ap (λ (y : OidcConfiguration). y.audience) same ∙ audience)) refl refl
        some_token some_key)
