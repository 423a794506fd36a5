-- ===== src/Authn/Oidc.antt =====
-- internal/authn/oidc.go: the authenticator of subject tokens. The URL parser, the decoding of
-- base64 and JSON, the files and the verifier of go-oidc are arguments; HTTP clients are left out.
pub mod Laws
mod Tests
use tearenv.Common.{
  ℕ, ◌+◌, Bool, true, false, not, ◌&&◌, ◌||◌, Text, codes, text_eq, is_empty, any, map, trim_space,
  ◌==◌, Map, lookup, Option, none, some, List, [], ◌∷◌, if◌then◌else◌, Result, ok, err, ◌>>=◌, ◌>>◌,
  require, from_option,
}
use tearenv.Authorization.Names.{is_upper}
use tearenv.Api.Library.{Url}
use tearenv.Authn.{
  Method, oidc, Principal, AuthnError, unauthenticated, bad_issuer, audience_required, bad_ca_file,
  not_discovered,
}
use tearenv.Authn.Configuration.{
  subject_token_type_access_token, subject_token_type_id_token, trim_url, or_default,
  normalize_subject_token_type,
}

-- `OIDCConfig`.
pub record OidcConfig : Type 0 where
  pub issuer_url : Text
  pub client_id : Text
  pub audience : Text
  pub identity_claim : Text
  pub subject_token_type : Text
  pub ca_file : Text

-- `verifiedOIDCToken`, where a claim is its JSON text.
pub record VerifiedOidcToken : Type 0 where
  pub issuer : Text
  pub subject : Text
  pub claims : Map Text

-- `oidcTokenVerifier`.
abbrev pub Verifier : Type 0
Verifier = Text → Option VerifiedOidcToken

-- What is called of encoding/base64 and encoding/json: the bytes of a text without padding, the
-- field `typ` of a header, and a string.
pub record Decoders : Type 0 where
  pub base64_decode : Text → Option Text
  pub header_type : Text → Option Text
  pub json_string : Text → Option Text

-- `OIDC`.
pub record Oidc : Type 0 where
  pub issuer_url : Text
  pub identity_claim : Text
  pub subject_token_type : Text
  pub verifier : Verifier

-- The first of the parts with one byte more in front.
abbrev pub extend {ℓ} : {A : Type ℓ} → A → List (List A) → List (List A)
extend c [] = (c ∷ []) ∷ []
extend c (p ∷ ps) = (c ∷ p) ∷ ps

-- `strings.Split` at one byte.
unfoldable pub split : ℕ → Text → List Text
split separator [] = [] ∷ []
split separator (c ∷ s) =
    let rest = split separator s in if c == separator then [] ∷ rest else extend c rest

abbrev pub lower : Text → Text
lower t = map (λ c. if is_upper c then c + 32 else c) t

-- `strings.EqualFold` with a text of ASCII that has no k and no s, which no other letters fold to.
abbrev pub equal_fold : Text → Text → Bool
equal_fold t ascii = text_eq (lower t) (lower ascii)

abbrev pub is_access_token : Text → Bool
is_access_token typ = equal_fold typ (codes "at+jwt") || equal_fold typ (codes "application/at+jwt")

-- The `switch` over the subject token type.
unfoldable pub fits_type : Text → Bool → Bool
fits_type subject_token_type access =
    if text_eq subject_token_type subject_token_type_access_token
    then access
    else if text_eq subject_token_type subject_token_type_id_token
    then not access
    else false

module _ (decoders : Decoders) where
  -- The header of a token with three parts that are not empty.
  unfoldable pub token_header : List Text → Option Text
  token_header (h ∷ payload ∷ signature ∷ []) =
      if is_empty h || is_empty payload || is_empty signature
      then none
      else elim (decoders.base64_decode h) [ none ↦ none | some bytes ↦ decoders.header_type bytes ]
  token_header _ = none

  -- `matchesSubjectTokenType`.
  unfoldable pub matches_subject_token_type : Text → Text → Bool
  unfolding token_header fits_type split
  matches_subject_token_type raw_token subject_token_type =
      elim (token_header (split b'.' raw_token)) [
        | none ↦ false
        | some typ ↦ fits_type subject_token_type (is_access_token typ)
      ]

  -- `Authenticate`.
  unfoldable pub authenticate_oidc : Oidc → Text → Result AuthnError Principal
  unfolding matches_subject_token_type
  authenticate_oidc o bearer_token = do
    require
        (not (is_empty (trim_space bearer_token))
          && matches_subject_token_type (trim_space bearer_token) o.subject_token_type)
        unauthenticated
    verified ← from_option (o.verifier (trim_space bearer_token)) unauthenticated
    require (text_eq verified.issuer o.issuer_url && not (is_empty (trim_space verified.subject)))
        unauthenticated
    raw ← from_option (lookup o.identity_claim verified.claims) unauthenticated
    identity ← from_option (decoders.json_string raw) unauthenticated
    require (not (is_empty (trim_space identity))) unauthenticated
    ok (record {
      method = oidc;
      issuer = verified.issuer;
      subject = verified.subject;
      identity = trim_space identity;
    })

-- The checks of `newOIDCHTTPClient`: the CA file as it is read, whether there is a pool of the
-- system, whether the certificates of the file can be added to it, and the type of the transport.
unfoldable pub check_ca_file : (Text → Option Text) → Bool → (Text → Bool) → Bool → Text → Bool
check_ca_file read has_pool appends is_transport ca_file =
    if is_empty (trim_space ca_file) then true else elim (read (trim_space ca_file)) [
      | none ↦ false
      | some pem ↦ has_pool && appends pem && is_transport
    ]

abbrev pub good_issuer : Option Url → Bool
good_issuer none = false
good_issuer (some u) =
    text_eq u.scheme (codes "https")
    && not (is_empty u.host)
    && is_empty u.raw_query
    && is_empty u.fragment

abbrev pub verification_audience : OidcConfig → Text → Text
verification_audience c subject_token_type =
    if text_eq subject_token_type subject_token_type_id_token
    then trim_space c.client_id
    else trim_space c.audience

-- `NewOIDC`: `discover` makes the verifier of an issuer for an audience.
unfoldable pub new_oidc :
    (Text → Option Url)
    → (Text → Bool)
    → (Text → Text → Option Verifier)
    → OidcConfig
    → Result AuthnError Oidc
unfolding normalize_subject_token_type
new_oidc url_parse good_ca_file discover c = do
  require (good_issuer (url_parse (trim_url c.issuer_url))) bad_issuer
  subject_token_type ← normalize_subject_token_type c.subject_token_type
  require (not (is_empty (verification_audience c subject_token_type))) audience_required
  require (good_ca_file c.ca_file) bad_ca_file
  verifier ←
      from_option (discover (trim_url c.issuer_url) (verification_audience c subject_token_type))
        not_discovered
  ok (record {
    issuer_url = trim_url c.issuer_url;
    identity_claim = or_default (codes "preferred_username") (trim_space c.identity_claim);
    subject_token_type = subject_token_type;
    verifier = verifier;
  })
