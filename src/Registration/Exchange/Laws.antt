-- ===== src/Registration/Exchange/Laws.antt =====
-- internal/registration/token_exchange.go with internal/sshcert and the gateway: who gets a
-- certificate, and what it is good for.
use tearenv.Common.{
  ℕ, ◌+◌, ◌-◌, ◌/◌, ◌^◌, ◌≤◌, Bool, true, not, ◌&&◌, Text, codes, text_eq, text_eq_iff, is_empty,
  trim_space, Map, Option, none, some, List, [], ◌∷◌, if◌then◌else◌, leb, ltb, ok, ◌>>=◌, ◌>>◌,
  >>=-eq-ok, require, require-then, from_option, from_option-eq-ok, wrap, wrap-eq-ok, Member, here,
  there, Bool-cases, inl, inr, ◌≡◌, subst, sym, ap, ◌∙◌, arith, any,
}
use tearenv.Authorization.Providers.{Certificate}
use tearenv.Authorization.Ssh.{Ssh}
use tearenv.Authorization.Certificates.{check_certificate, max_expiry}
use tearenv.Blueprint.Slug.{Digest}
use tearenv.Authn.{Principal}
use tearenv.Api.{UserRegistration, SshPublicKey}
use tearenv.Api.Library.{Library}
use tearenv.Api.Names.{resource_name}
use tearenv.Api.Validation.{accepted}
use tearenv.Registration.Store.{
  Store, bad_stored_key, several_stored_keys, is_oidc, get_unlocked, registration_owned_by,
}
use tearenv.Registration.Requests.{find_key, get_as, public_key_of}
use tearenv.Sshcert.{Issuer, Subject, certificate_for, issue, no_serial, not_signed}
use tearenv.Sshcert.Laws.{check_certificate-issue}
use tearenv.Registration.Exchange.{
  TokenExchangeOptions, TokenExchangeResponse, unsupported_media_type, invalid_grant, value, fields,
  check_form, key_error, issue_error, exchange_subject, response_for, handle_token_exchange,
  ssh_connect_scope, ssh_certificate_token_type, token_exchange_grant_type,
}

module _ (lib : Library) where
  -- A key of a registration, by its name and its wire form.
  abbrev pub IsKey : Text → Text → SshPublicKey → Type 0
  IsKey key_name wire k =
      (k.name ≡ key_name)
      × ((trailing : Text) × (lib.parse_authorized_key (k.key) ≡ some (wire, trailing)))

  find_key-Member :
      (key_name wire : Text) (ks : List SshPublicKey)
      → find_key lib key_name ks ≡ ok wire
      → Member (IsKey key_name wire) ks
  unfolding find_key
  find_key-Member key_name wire [] e = cc
  find_key-Member key_name wire (k ∷ ks) e = elim (Bool-cases (text_eq (k.name) key_name)) [
    | inr differs ↦ there (find_key-Member key_name wire ks (ground arith))
    | inl same ↦
        let chain : (from_option (lib.parse_authorized_key (k.key)) bad_stored_key >>= λ p.
        require (is_empty (trim_space (p.1))) several_stored_keys >> ok (p.0))
            ≡ ok wire =
          ground arith in
        let (p, parsed, rest) =
          >>=-eq-ok (from_option (lib.parse_authorized_key (k.key)) bad_stored_key) _ chain in
        let (alone, last) = require-then (is_empty (trim_space (p.1))) _ _ rest in
        let wire_ : p.0 ≡ wire = cc in
        here (
          (text_eq_iff (k.name) key_name).0 same,
          (
            p.1,
            from_option-eq-ok (lib.parse_authorized_key (k.key)) bad_stored_key parsed
                ∙ ap (λ w. some (w, p.1)) wire_,
          ),
        )
  ]

  -- An accepted registration that a principal owns, with a key.
  pub record HasKey (store : Store) (namespace key_name : Text) (p : Principal) (wire : Text)
      : Type 0 where
    pub registration : UserRegistration
    pub stored : get_unlocked lib store namespace (resource_name lib (p.identity)) ≡ ok registration
    pub owned : registration_owned_by registration p ≡ true
    pub is_accepted : accepted lib registration ≡ true
    pub key : Member (IsKey key_name wire) (registration.spec.public_keys)

  public_key_of-HasKey :
      (store : Store) (namespace key_name : Text) (p : Principal) (wire : Text)
      → is_oidc p ≡ true
      → public_key_of lib store namespace (resource_name lib (p.identity)) key_name p ≡ ok wire
      → HasKey store namespace key_name p wire
  unfolding public_key_of get_as
  public_key_of-HasKey store namespace key_name p wire by_oidc e =
      let name = resource_name lib (p.identity) in
      let (r, seen, rest) = >>=-eq-ok (get_as lib store namespace name p) _ e in
      let (x, stored, rest2) = >>=-eq-ok (get_unlocked lib store namespace name) _ seen in
      let (mine, same) =
        require-then (not (is_oidc p && not (registration_owned_by x p))) _ _ rest2 in
      let x_is : x ≡ r = cc in
      let (allowed, found) = require-then (accepted lib r) _ _ rest in
      record {
        registration = r;
        stored = stored ∙ ap ok x_is;
        owned = rw (← x_is) (ground arith);
        is_accepted = allowed;
        key = find_key-Member key_name wire (r.spec.public_keys) found;
      }

module _ (ssh : Ssh) (digest : Digest) where
  issue-key :
      (i : Issuer) (serial : Option ℕ) (now : ℕ) (identity key_name key : Text) (subject : Subject)
      (d : Certificate)
      → issue ssh digest i serial now identity key_name (some key) subject ≡ ok d
      → d.key ≡ key
  unfolding issue certificate_for
  issue-key i serial now identity key_name key subject d e =
      let (named, rest) =
        require-then (not (is_empty (trim_space identity)) && not (is_empty (trim_space key_name)))
          _ _ e in
      let (number, drawn, rest2) = >>=-eq-ok (from_option serial no_serial) _ rest in
      let c = certificate_for digest i number now identity key_name key subject in
      let signed = from_option-eq-ok (ssh.sign_cert (i.signer) c) not_signed rest2 in
      let (signature, same) = ssh.sign_cert-signed (i.signer) c d signed in
      ap (λ (x : Certificate). x.key) same

-- What the gateway answers to a certificate for an identity, which it accepts from one second up to,
-- but not at, another.
abbrev pub OpensFor : Ssh → (Text → Bool) → Text → ℕ → ℕ → Certificate → Type 0
OpensFor ssh authority identity start end d =
    (time : ℕ) (principal : Text)
    → check_certificate ssh authority time principal d
      ≡ ok (
          if text_eq identity principal && leb start time && ltb time end
          then some (record {
            identity = principal;
            provider = codes "oidc-ssh-certificate";
            valid_before = some end;
          })
          else none)

module _ (lib : Library) (ssh : Ssh) (digest : Digest) (parse_media_type : Text → Option Text)
    (marshal : Certificate → Text) where
  -- What a certificate that was handed out shows.
  pub record IsExchanged (o : TokenExchangeOptions) (authenticate : Text → Option Principal)
      (store : Store) (issuer : Issuer) (now : ℕ) (authority : Text → Bool) (form : Map Text)
      (response : TokenExchangeResponse) : Type 0 where
    pub principal : Principal
    pub authenticated : authenticate (value form (codes "subject_token")) ≡ some principal
    pub by_oidc : is_oidc principal ≡ true
    pub for_audience : value form (codes "audience") ≡ o.audience
    pub key : Text
    pub registered :
        HasKey lib store (o.namespace) (trim_space (value form (codes "key_id"))) principal key
    pub certificate : Certificate
    pub answered : response.access_token ≡ trim_space (marshal certificate)
    pub same_key : certificate.key ≡ key
    pub opens :
        OpensFor ssh authority
          (principal.identity)
          ((now - issuer.clock_skew) / 10 ^ 9)
          ((now + issuer.ttl) / 10 ^ 9)
          certificate

  check_form-parts :
      (o : TokenExchangeOptions) (form : Map Text) (key_name : Text)
      → check_form o form ≡ ok key_name
      → (value form (codes "audience") ≡ o.audience)
        × (trim_space (value form (codes "key_id")) ≡ key_name)
  unfolding check_form
  check_form-parts o form key_name e =
      let (grant, rest) =
        require-then (text_eq (value form (codes "grant_type")) token_exchange_grant_type) _ _ e in
      let (subject, rest2) =
        require-then
          (text_eq (value form (codes "subject_token_type")) (o.subject_token_type)
            && not (is_empty (trim_space (value form (codes "subject_token")))))
          _ _ rest in
      let (wanted, rest3) =
        require-then
          (text_eq (value form (codes "requested_token_type")) ssh_certificate_token_type) _ _
          rest2 in
      let (audience, rest4) =
        require-then (text_eq (value form (codes "audience")) (o.audience)) _ _ rest3 in
      let (scope, rest5) =
        require-then (any (λ s. text_eq s ssh_connect_scope) (fields (value form (codes "scope"))))
          _ _ rest4 in
      let (named, last) =
        require-then (not (is_empty (trim_space (value form (codes "key_id"))))) _ _ rest5 in
      ((text_eq_iff (value form (codes "audience")) (o.audience)).0 audience, cc)

  -- Where the issuer dates back no further than to the epoch and certificates end within 63 bits
  -- of seconds: a form that is answered with a certificate had a subject token of an OIDC
  -- principal and the audience of the handler; the principal owns an accepted registration under
  -- the resource name of its identity that has the key of the certificate under the requested
  -- name; and the gateway takes the certificate exactly from the identity of the principal, in its
  -- period.
  pub handle_token_exchange-IsExchanged :
      (authority : Text → Bool) (o : TokenExchangeOptions) (authenticate : Text → Option Principal)
      (store : Store) (issuer : Issuer) (serial : Option ℕ) (now : ℕ) (content_type : Text)
      (form : Map Text) (response : TokenExchangeResponse)
      → issuer.clock_skew ≤ now
      → (now + issuer.ttl) / 10 ^ 9 ≤ max_expiry
      → handle_token_exchange lib ssh digest parse_media_type marshal o authenticate store issuer
          serial now
          (record { content_type = content_type; form = some form })
        ≡ ok response
      → IsExchanged o authenticate store issuer now authority form response
  unfolding handle_token_exchange exchange_subject response_for
  handle_token_exchange-IsExchanged authority o authenticate store issuer serial now content_type
        form response late early e =
      let token = value form (codes "subject_token") in
      let (media, parsed, rest) =
        >>=-eq-ok (from_option (parse_media_type content_type) unsupported_media_type) _ e in
      let (typed, rest2) =
        require-then (text_eq media (codes "application/x-www-form-urlencoded")) _ _ rest in
      let (key_name, checked, rest3) = >>=-eq-ok (check_form o form) _ rest2 in
      let (audience, named) = check_form-parts o form key_name checked in
      let (certificate, exchanged, last) =
        >>=-eq-ok
          (exchange_subject lib ssh digest parse_media_type marshal o (authenticate token) store
            issuer serial now key_name)
          _ rest3 in
      let (p, given, rest4) =
        >>=-eq-ok (from_option (authenticate token) invalid_grant) _ exchanged in
      let (by_oidc, rest5) = require-then (is_oidc p) _ _ rest4 in
      let lookup_ =
        public_key_of lib store (o.namespace) (resource_name lib (p.identity)) key_name p in
      let (key, found, issued_) = >>=-eq-ok (wrap key_error lookup_) _ rest5 in
      let subject : Subject = record { issuer = p.issuer; subject = p.subject } in
      let issued =
        wrap-eq-ok issue_error
          (issue ssh digest issuer serial now (p.identity) key_name (some key) subject) issued_ in
      let has =
        public_key_of-HasKey lib store (o.namespace) key_name p key by_oidc
          (wrap-eq-ok key_error lookup_ found) in
      record {
        principal = p;
        authenticated = from_option-eq-ok (authenticate token) invalid_grant given;
        by_oidc = by_oidc;
        for_audience = audience;
        key = key;
        registered = subst (λ n. HasKey lib store (o.namespace) n p key) (sym named) has;
        certificate = certificate;
        answered = cc;
        same_key =
            issue-key ssh digest issuer serial now (p.identity) key_name key subject certificate
              issued;
        opens =
            check_certificate-issue ssh digest authority issuer serial now (p.identity) key_name
              (some key) subject certificate issued late early;
      }
