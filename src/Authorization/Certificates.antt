-- ===== src/Authorization/Certificates.antt =====
-- internal/authorization/certificates.go.
pub mod Laws
use tearenv.Common.{
  ℕ, ◌-◌, ◌^◌, Bool, true, false, not, ◌&&◌, Text, codes, text_eq, lookup, Option, none, some, ◌==◌,
  ltb, if◌then◌else◌, Result, ok, err,
}
use tearenv.Authorization.Providers.{Attempt, PublicKey, Certificate, Verified, offered_key}
use tearenv.Authorization.Ssh.{Ssh, user_cert}

pub data CertificateError : Type 0 where
  authority_required expiry_out_of_range : CertificateError

abbrev pub extension_name : Text
extension_name = codes "tearenv.io/authentication"

-- `certificate.Extensions[oidcAuthenticationExtension] == "oidc"`.
unfoldable pub has_provenance : Certificate → Bool
has_provenance c = elim (lookup extension_name (c.extensions)) [
  | none ↦ false
  | some value ↦ text_eq value (codes "oidc")
]

-- `NewCertificateAuthority`: the function `IsUserAuthority` of the checker.
unfoldable pub new_certificate_authority : Option Text → Result CertificateError (Text → Bool)
new_certificate_authority none = err authority_required
new_certificate_authority (some authority) = ok (λ candidate. text_eq candidate authority)

-- `uint64(^uint64(0) >> 1)`.
abbrev pub max_expiry : ℕ
max_expiry = 9223372036854775807

module _ (ssh : Ssh) where
  -- The checks of `Authenticate` after the type assertion.
  unfoldable pub check_certificate :
      (Text → Bool) → ℕ → Text → Certificate → Result CertificateError (Option Verified)
  unfolding has_provenance
  check_certificate authority now identity c =
      if not (c.cert_type == user_cert)
      then ok none
      else if not (has_provenance c)
      then ok none
      else if not (ssh.check_cert authority now identity c)
      then ok none
      else if ltb max_expiry c.valid_before
      then err expiry_out_of_range
      else ok (
          some (record {
            identity = identity;
            provider = codes "oidc-ssh-certificate";
            valid_before = some (c.valid_before);
          }))

  unfoldable pub authenticate_certificate :
      (Text → Bool) → ℕ → Attempt → Result CertificateError (Option Verified)
  unfolding check_certificate
  authenticate_certificate authority now attempt = elim (offered_key attempt) [
    | none ↦ ok none
    | some key ↦ elim (key.certificate) [
      | none ↦ ok none
      | some c ↦ check_certificate authority now attempt.identity c
    ]
  ]
