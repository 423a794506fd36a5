-- ===== src/Authorization/Ssh/Sample.antt =====
-- A concrete `Ssh` for the tests: a signature is the text of the signer.
use tearenv.Common.{
  ℕ, Bool, true, ◌&&◌, Text, text_eq, text_eq_self, Option, some, ◌≡◌, is_empty, false, leb, arith,
}
use tearenv.Authorization.Providers.{Certificate}
use tearenv.Authorization.Ssh.{Ssh, in_period, for_principal, signed_as}

abbrev pub sign : Text → Certificate → Option Certificate
sign signer c = some (signed_as c signer signer)

abbrev pub verify : Certificate → Bool
verify c = text_eq c.signature c.signature_key

abbrev pub check : (Text → Bool) → ℕ → Text → Certificate → Bool
check authority now principal c =
    is_empty c.critical_options && for_principal principal c && in_period now c && verify c

pub sign-signed :
    (signer : Text) (c d : Certificate)
    → sign signer c ≡ some d
    → (signature : Text) × (d ≡ signed_as c signer signature)
sign-signed signer c d e = (signer, cc)

pub sign-verify : (signer : Text) (c d : Certificate) → sign signer c ≡ some d → verify d ≡ true
sign-verify signer c d e =
    let same : signed_as c signer signer ≡ d = cc in rw (← same) (text_eq_self signer)

pub check_lem :
    (authority : Text → Bool) (principal : Text) (now : ℕ) (c : Certificate)
    → is_empty (c.critical_options) ≡ true
    → is_empty (c.valid_principals) ≡ false
    → leb (c.valid_before) 9223372036854775807 ≡ true
    → check authority now principal c ≡ (for_principal principal c && in_period now c && verify c)
check_lem authority principal now c plain names bound = rw plain (ground arith)

abbrev pub ssh : Ssh
ssh = record {
  public_of = λ signer. signer;
  sign_cert = sign;
  sign_cert-signed = sign-signed;
  verify = verify;
  sign_cert-verify = sign-verify;
  check_cert = check;
  check_cert-checks = check_lem;
}
