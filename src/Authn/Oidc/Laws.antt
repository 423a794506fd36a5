-- ===== src/Authn/Oidc/Laws.antt =====
-- internal/authn/oidc.go: whom the authenticator lets in.
use tearenv.Common.{
  Bool, true, false, not, ◌&&◌, Text, codes, text_eq, text_eq_iff, is_empty, trim_space, lookup,
  Option, some, ok, >>=-eq-ok, require-then, from_option, from_option-eq-ok, Option-cases,
  Bool-cases, inl, inr, ◌≡◌, ◌⊎◌, refl, arith,
}
use tearenv.Api.Library.{Url}
use tearenv.Authn.{oidc, Principal, unauthenticated, not_discovered}
use tearenv.Authn.Configuration.{
  subject_token_type_access_token, subject_token_type_id_token, trim_url, or_default,
  normalize_subject_token_type,
}
use tearenv.Authn.Oidc.{
  OidcConfig, VerifiedOidcToken, Verifier, Decoders, Oidc, split, is_access_token, fits_type,
  token_header, matches_subject_token_type, authenticate_oidc, good_issuer, verification_audience,
  new_oidc,
}

module _ (decoders : Decoders) where
  -- The profile of a token: an access token by the type in its header, or an ID token.
  abbrev pub HasProfile : Text → Text → Type 0
  HasProfile subject_token_type raw =
      (typ : Text) × (token_header decoders (split b'.' raw) ≡ some typ)
      × (((subject_token_type ≡ subject_token_type_access_token) × (is_access_token typ ≡ true))
          ⊎ ((subject_token_type ≡ subject_token_type_id_token) × (is_access_token typ ≡ false)))

  fits_type-cases :
      (subject_token_type : Text) (access : Bool)
      → fits_type subject_token_type access ≡ true
      → ((subject_token_type ≡ subject_token_type_access_token) × (access ≡ true))
        ⊎ ((subject_token_type ≡ subject_token_type_id_token) × (access ≡ false))
  unfolding fits_type
  fits_type-cases t access h = elim (Bool-cases (text_eq t subject_token_type_access_token)) [
    | inl one ↦ inl ((text_eq_iff t subject_token_type_access_token).0 one, ground arith)
    | inr two ↦ inr ((text_eq_iff t subject_token_type_id_token).0 (ground arith), ground arith)
  ]

  matches-HasProfile :
      (raw subject_token_type : Text)
      → matches_subject_token_type decoders raw subject_token_type ≡ true
      → HasProfile subject_token_type raw
  unfolding matches_subject_token_type
  matches-HasProfile raw t h = elim (Option-cases (token_header decoders (split b'.' raw))) [
    | inl none_ ↦ absurd (ground arith)
    | inr (typ, read) ↦ (typ, read, fits_type-cases t (is_access_token typ) (ground arith))
  ]

  -- What a principal of an authenticator has, for the token it was given.
  pub record IsVouched (o : Oidc) (bearer_token : Text) (p : Principal) : Type 0 where
    pub method : p.method ≡ oidc
    pub profile : HasProfile (o.subject_token_type) (trim_space bearer_token)
    pub verified : VerifiedOidcToken
    pub verifies : o.verifier (trim_space bearer_token) ≡ some verified
    pub trusted : verified.issuer ≡ o.issuer_url
    pub issuer : p.issuer ≡ o.issuer_url
    pub subject : p.subject ≡ verified.subject
    pub claim : Text
    pub claimed : lookup (o.identity_claim) (verified.claims) ≡ some claim
    pub name : Text
    pub named : decoders.json_string claim ≡ some name
    pub identity : p.identity ≡ trim_space name
    pub present : is_empty (p.identity) ≡ false

  authenticate_oidc-IsVouched :
      (o : Oidc) (bearer_token : Text) (p : Principal)
      → authenticate_oidc decoders o bearer_token ≡ ok p
      → IsVouched o bearer_token p
  unfolding authenticate_oidc
  authenticate_oidc-IsVouched o bearer_token p e =
      let raw = trim_space bearer_token in
      let (fits, rest) =
        require-then
          (not (is_empty raw) && matches_subject_token_type decoders raw (o.subject_token_type)) _ _
          e in
      let (v, verified, rest2) = >>=-eq-ok (from_option (o.verifier raw) unauthenticated) _ rest in
      let (known, rest3) =
        require-then (text_eq (v.issuer) (o.issuer_url) && not (is_empty (trim_space (v.subject))))
          _ _ rest2 in
      let (claim, claimed, rest4) =
        >>=-eq-ok (from_option (lookup (o.identity_claim) (v.claims)) unauthenticated) _ rest3 in
      let (name, named, rest5) =
        >>=-eq-ok (from_option (decoders.json_string claim) unauthenticated) _ rest4 in
      let (present, last) = require-then (not (is_empty (trim_space name))) _ _ rest5 in
      let same : record {
        method = oidc;
        issuer = v.issuer;
        subject = v.subject;
        identity = trim_space name;
      }
          ≡ p =
        cc in
      let trusted : v.issuer ≡ o.issuer_url =
        (text_eq_iff (v.issuer) (o.issuer_url)).0 (ground arith) in
      rw (← same) (record {
        method = refl;
        profile = matches-HasProfile raw (o.subject_token_type) (ground arith);
        verified = v;
        verifies = from_option-eq-ok (o.verifier raw) unauthenticated verified;
        trusted = trusted;
        issuer = trusted;
        subject = refl;
        claim = claim;
        claimed = from_option-eq-ok (lookup (o.identity_claim) (v.claims)) unauthenticated claimed;
        name = name;
        named = from_option-eq-ok (decoders.json_string claim) unauthenticated named;
        identity = refl;
        present = ground arith;
      })

normalize-cases :
    (value t : Text)
    → normalize_subject_token_type value ≡ ok t
    → (t ≡ subject_token_type_access_token) ⊎ (t ≡ subject_token_type_id_token)
unfolding normalize_subject_token_type
normalize-cases value t e = ground arith

or_default-cases :
    (default t : Text)
    → (is_empty t ≡ true → or_default default t ≡ default)
      × (is_empty t ≡ false → or_default default t ≡ t)
or_default-cases default t = (λ blank. ground arith, λ given. ground arith)

-- What a configured authenticator has.
pub record IsConfigured (url_parse : Text → Option Url) (discover : Text → Text → Option Verifier)
    (c : OidcConfig) (o : Oidc) : Type 0 where
  pub issuer : o.issuer_url ≡ trim_url (c.issuer_url)
  pub secure : good_issuer (url_parse (o.issuer_url)) ≡ true
  pub profile :
      (o.subject_token_type ≡ subject_token_type_access_token)
      ⊎ (o.subject_token_type ≡ subject_token_type_id_token)
  pub kind : normalize_subject_token_type (c.subject_token_type) ≡ ok (o.subject_token_type)
  pub claim :
      (is_empty (trim_space (c.identity_claim)) ≡ true
        → o.identity_claim ≡ codes "preferred_username")
      × (is_empty (trim_space (c.identity_claim)) ≡ false
          → o.identity_claim ≡ trim_space (c.identity_claim))
  pub audience : is_empty (verification_audience c (o.subject_token_type)) ≡ false
  pub discovered :
      discover (o.issuer_url) (verification_audience c (o.subject_token_type)) ≡ some (o.verifier)

new_oidc-IsConfigured :
    (url_parse : Text → Option Url) (good_ca_file : Text → Bool)
    (discover : Text → Text → Option Verifier) (c : OidcConfig) (o : Oidc)
    → new_oidc url_parse good_ca_file discover c ≡ ok o
    → IsConfigured url_parse discover c o
unfolding new_oidc
new_oidc-IsConfigured url_parse good_ca_file discover c o e =
    let url = trim_url (c.issuer_url) in
    let (secure, rest) = require-then (good_issuer (url_parse url)) _ _ e in
    let (t, normal, rest2) =
      >>=-eq-ok (normalize_subject_token_type (c.subject_token_type)) _ rest in
    let audience = verification_audience c t in
    let (present, rest3) = require-then (not (is_empty audience)) _ _ rest2 in
    let (readable, rest4) = require-then (good_ca_file (c.ca_file)) _ _ rest3 in
    let (v, found, last) = >>=-eq-ok (from_option (discover url audience) not_discovered) _ rest4 in
    let made : record {
      issuer_url = url;
      identity_claim = or_default (codes "preferred_username") (trim_space (c.identity_claim));
      subject_token_type = t;
      verifier = v;
    }
        ≡ o =
      cc in
    rw (← made) (record {
      issuer = refl;
      secure = secure;
      profile = normalize-cases (c.subject_token_type) t normal;
      kind = normal;
      claim = or_default-cases (codes "preferred_username") (trim_space (c.identity_claim));
      audience = ground arith;
      discovered = from_option-eq-ok (discover url audience) not_discovered found;
    })

-- A principal of an authenticator that was configured is one of the configured issuer, an https
-- URL without query and fragment, whose token was passed by the verifier that was discovered for
-- that issuer and the audience of the configured kind of token, has the type of that kind in its
-- header, and names the identity, which is not blank, in the configured claim, or in
-- preferred_username if none is configured.
pub authenticate_oidc-IsTrusted :
    (decoders : Decoders) (url_parse : Text → Option Url) (good_ca_file : Text → Bool)
    (discover : Text → Text → Option Verifier) (c : OidcConfig) (o : Oidc) (bearer_token : Text)
    (p : Principal)
    → new_oidc url_parse good_ca_file discover c ≡ ok o
    → authenticate_oidc decoders o bearer_token ≡ ok p
    → IsConfigured url_parse discover c o × IsVouched decoders o bearer_token p
authenticate_oidc-IsTrusted decoders url_parse good_ca_file discover c o bearer_token p e accepted =
    (
      new_oidc-IsConfigured url_parse good_ca_file discover c o e,
      authenticate_oidc-IsVouched decoders o bearer_token p accepted,
    )
