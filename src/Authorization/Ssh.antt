-- ===== src/Authorization/Ssh.antt =====
-- What the program takes from golang.org/x/crypto/ssh for certificates. The laws are those of its
-- documentation.
pub mod Sample
use tearenv.Common.{
  ℕ, Bool, true, false, not, ◌&&◌, Text, text_eq, Option, some, List, [], ◌∷◌, any, ltb, leb, ◌≡◌,
  is_empty,
}
use tearenv.Authorization.Providers.{Certificate}

-- `ssh.UserCert`.
abbrev pub user_cert : ℕ
user_cert = 1

-- The period of a certificate, which ends before `valid_before`.
abbrev pub in_period : ℕ → Certificate → Bool
in_period now c = leb c.valid_after now && ltb now c.valid_before

-- The principals of a certificate that names some.
abbrev pub for_principal : Text → Certificate → Bool
for_principal principal c = any (λ p. text_eq p principal) c.valid_principals

-- Nothing but the signature differs.
abbrev pub signed_as : Certificate → Text → Text → Certificate
signed_as c authority signature = record c { signature_key = authority; signature = signature }

pub record Ssh : Type 0 where
  -- The public key of a signer, and `Certificate.SignCert`, which may fail.
  pub public_of : Text → Text
  pub sign_cert : Text → Certificate → Option Certificate
  pub sign_cert-signed :
      (signer : Text) (c d : Certificate)
      → sign_cert signer c ≡ some d
      → (signature : Text) × (d ≡ signed_as c (public_of signer) signature)
  -- The signature of a certificate is one of its key `SignatureKey`.
  pub verify : Certificate → Bool
  pub sign_cert-verify :
      (signer : Text) (c d : Certificate) → sign_cert signer c ≡ some d → verify d ≡ true
  -- `CertChecker.CheckCert` of a checker with only `IsUserAuthority`, at a time in seconds: what it
  -- does for a certificate without critical options that names principals and expires within 63
  -- bits. It does not ask for the authority.
  pub check_cert : (Text → Bool) → ℕ → Text → Certificate → Bool
  pub check_cert-checks :
      (is_user_authority : Text → Bool) (principal : Text) (now : ℕ) (c : Certificate)
      → is_empty (c.critical_options) ≡ true
      → is_empty (c.valid_principals) ≡ false
      → leb (c.valid_before) (9223372036854775807) ≡ true
      → check_cert is_user_authority now principal c
        ≡ (for_principal principal c && in_period now c && verify c)
