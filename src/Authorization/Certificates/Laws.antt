-- ===== src/Authorization/Certificates/Laws.antt =====
-- internal/authorization/certificates.go: which certificates are accepted.
use tearenv.Common.{
  ℕ, ◌≤◌, Bool, true, false, not, ◌&&◌, Text, codes, none, some, is_empty, leb, ltb, ◌==◌,
  if◌then◌else◌, ok, ◌≡◌, refl, arith, ◌∙◌, Option-cases, inl, inr, if-cases,
}
use tearenv.Authorization.Providers.{Attempt, PublicKey, Certificate, Verified, offered_key}
use tearenv.Authorization.Ssh.{Ssh, user_cert, in_period, for_principal, signed_as}
use tearenv.Authorization.Certificates.{
  has_provenance, max_expiry, check_certificate, authenticate_certificate,
}

-- What an identity is let in as by a certificate.
abbrev pub let_in : Text → Certificate → Verified
let_in identity c = record {
  identity = identity;
  provider = codes "oidc-ssh-certificate";
  valid_before = some (c.valid_before);
}

module _ (ssh : Ssh) where
  -- The facts about a certificate that is accepted.
  pub record Accepted (authority : Text → Bool) (now : ℕ) (identity : Text) (c : Certificate)
      : Type 0 where
    pub of_user : c.cert_type ≡ user_cert
    pub provenance : has_provenance c ≡ true
    pub checked : ssh.check_cert authority now identity c ≡ true
    pub expiry : c.valid_before ≤ max_expiry

  check_certificate-Accepted :
      (authority : Text → Bool) (now : ℕ) (identity : Text) (c : Certificate) (v : Verified)
      → check_certificate ssh authority now identity c ≡ ok (some v)
      → (v ≡ let_in identity c) × Accepted authority now identity c
  unfolding check_certificate
  check_certificate-Accepted authority now identity c v e =
      elim (if-cases (not (c.cert_type == user_cert)) _ _ e) [
        | inl (other, stop) ↦ absurd cc
        | inr (user, rest) ↦ elim (if-cases (not (has_provenance c)) _ _ rest) [
          | inl (foreign, stop) ↦ absurd cc
          | inr (oidc, rest2) ↦
              elim (if-cases (not (ssh.check_cert authority now identity c)) _ _ rest2) [
                | inl (bad, stop) ↦ absurd cc
                | inr (good, rest3) ↦ elim (if-cases (ltb max_expiry (c.valid_before)) _ _ rest3) [
                  | inl (late, stop) ↦ absurd cc
                  | inr (fits, last) ↦ (
                    cc,
                    record {
                      of_user = ground arith;
                      provenance = ground arith;
                      checked = ground arith;
                      expiry = ground arith;
                    },
                  )
                ]
              ]
        ]
      ]

  -- Whoever is let in by a certificate is let in as the identity that was asked for and until the
  -- certificate expires, and offered a user certificate with the provenance of the token exchange
  -- that passes the checks of the library and expires within 63 bits.
  pub authenticate_certificate-Accepted :
      (authority : Text → Bool) (now : ℕ) (attempt : Attempt) (v : Verified)
      → authenticate_certificate ssh authority now attempt ≡ ok (some v)
      → (key : PublicKey) × (c : Certificate) × (offered_key attempt ≡ some key)
        × (key.certificate ≡ some c)
        × (v ≡ let_in (attempt.identity) c)
        × Accepted authority now (attempt.identity) c
  unfolding authenticate_certificate
  authenticate_certificate-Accepted authority now attempt v e =
      elim (Option-cases (offered_key attempt)) [
        | inl missing ↦ ground arith
        | inr (key, offered) ↦ elim (Option-cases (key.certificate)) [
          | inl plain ↦ ground arith
          | inr (c, is_certificate) ↦
              let tried : check_certificate ssh authority now (attempt.identity) c ≡ ok (some v) =
                ground arith in
              let (same, accepted) =
                check_certificate-Accepted authority now (attempt.identity) c v tried in
              (key, c, offered, is_certificate, same, accepted)
        ]
      ]

  -- The branches of the checks by what they read.
  check_certificate_by :
      (authority : Text → Bool) (identity : Text) (now before : ℕ) (b : Bool) (d : Certificate)
      → d.cert_type ≡ user_cert
      → has_provenance d ≡ true
      → ssh.check_cert authority now identity d ≡ b
      → d.valid_before ≡ before
      → leb before max_expiry ≡ true
      → check_certificate ssh authority now identity d
        ≡ ok (
            if b
            then some (record {
              identity = identity;
              provider = codes "oidc-ssh-certificate";
              valid_before = some before;
            })
            else none)
  unfolding check_certificate
  check_certificate_by authority identity now before true d user oidc checked expiry bound =
      let fits : ltb max_expiry before ≡ false = ground arith in
      rw (checked, oidc, expiry, fits, user) refl
  check_certificate_by authority identity now before false d user oidc checked expiry bound =
      rw (checked, oidc, user) refl

  has_provenance-signed_as :
      (c : Certificate) (authority signature : Text)
      → has_provenance (signed_as c authority signature) ≡ has_provenance c
  unfolding has_provenance
  has_provenance-signed_as c authority signature = refl

  -- What the checks of the library answer for a certificate that was signed.
  check_cert-sign_cert :
      (authority : Text → Bool) (signer principal : Text) (now : ℕ) (c d : Certificate)
      → is_empty (c.critical_options) ≡ true
      → is_empty (c.valid_principals) ≡ false
      → leb (c.valid_before) max_expiry ≡ true
      → ssh.sign_cert signer c ≡ some d
      → ssh.check_cert authority now principal d ≡ (for_principal principal c && in_period now c)
  check_cert-sign_cert authority signer principal now c d plain names bound signed =
      let (signature, shape) = ssh.sign_cert-signed signer c d signed in
      let passes = ssh.sign_cert-verify signer c d signed in
      ssh.check_cert-checks authority principal now d (rw shape plain) (rw shape names)
        (rw shape bound)
      ∙ rw (passes, shape) (ground arith)

  -- A user certificate with the provenance and without critical options that names principals,
  -- expires within 63 bits and was signed by any signer is accepted exactly for its principals in
  -- its period, whatever authority the gateway trusts.
  pub check_certificate_signed :
      (authority : Text → Bool) (signer identity : Text) (now : ℕ) (c d : Certificate)
      → c.cert_type ≡ user_cert
      → has_provenance c ≡ true
      → is_empty (c.critical_options) ≡ true
      → is_empty (c.valid_principals) ≡ false
      → leb (c.valid_before) max_expiry ≡ true
      → ssh.sign_cert signer c ≡ some d
      → check_certificate ssh authority now identity d
        ≡ ok
            (if for_principal identity c && in_period now c then some (let_in identity c) else none)
  check_certificate_signed authority signer identity now c d user oidc plain names bound signed =
      let (signature, shape) = ssh.sign_cert-signed signer c d signed in
      let answer =
        check_cert-sign_cert authority signer identity now c d plain names bound signed in
      check_certificate_by authority identity now (c.valid_before)
        (for_principal identity c && in_period now c) d (rw shape user)
        (rw shape (has_provenance-signed_as c (ssh.public_of signer) signature ∙ oidc)) answer
        (rw shape refl) bound
