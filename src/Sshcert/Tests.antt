-- ===== src/Sshcert/Tests.antt =====
-- An issued certificate and one of another signer, and the theorems at them.
use tearenv.Common.{
  ◌*◌, pos, Bool, ◌&&◌, Text, codes, text_eq, trim, trim_left, trim_right, trim_space, none, some,
  leb, ltb, [], ◌∷◌, ok, ◌≡◌, refl, lookup, arith, if◌then◌else◌,
}
use tearenv.Authorization.Services.{minute}
use tearenv.Authorization.Providers.{Attempt, PublicKey, Certificate, offered_key, public_key}
use tearenv.Authorization.Ssh.{in_period, for_principal, user_cert}
use tearenv.Authorization.Ssh.Sample.{ssh}
use tearenv.Authorization.Certificates.{
  check_certificate, authenticate_certificate, has_provenance, extension_name,
}
use tearenv.Authorization.Certificates.Laws.{
  Accepted, let_in, authenticate_certificate-Accepted, check_certificate_signed,
}
use tearenv.Blueprint.Slug.Sample.{sevens}
use tearenv.Sshcert.{
  Issuer, Subject, new_issuer, between, issue, certificate_for, unix_before, unix_after,
  certificate_key_id,
}
use tearenv.Sshcert.Laws.{check_certificate-issue}

abbrev issuer : Issuer
issuer = record { signer = codes "ca"; ttl = 10 * minute; clock_skew = 0 }

issuer_new : new_issuer (some (codes "ca")) (pos 0) (pos 0) ≡ ok issuer
unfolding new_issuer between
issuer_new = refl

abbrev subject : Subject
subject = record { issuer = codes "issuer"; subject = codes "a" }

abbrev trusted : Text → Bool
trusted candidate = text_eq candidate (codes "ca")

-- A certificate for alice of any signer, from the second 1000 to the second 1600.
abbrev certificate_by : Text → Certificate
certificate_by signer = record {
  key = codes "k1";
  serial = 7;
  cert_type = user_cert;
  key_id = codes "oidc:777777777777777777777777";
  valid_principals = codes "alice" ∷ [];
  valid_after = 1000;
  valid_before = 1600;
  critical_options = [];
  extensions = (codes "permit-port-forwarding", []) ∷ (extension_name, codes "oidc") ∷ [];
  signature_key = signer;
  signature = signer;
}

alice_issued :
    issue ssh sevens issuer
      (some 7)
      1000000000000
      (codes "alice")
      (codes "laptop")
      (some (codes "k1"))
      subject
    ≡ ok (certificate_by (codes "ca"))
unfolding issue certificate_for unix_before unix_after certificate_key_id trim_space trim trim_left
    trim_right
alice_issued = refl

check_certificate-issue_example :
    check_certificate ssh trusted 1200 (codes "alice") (certificate_by (codes "ca"))
    ≡ ok (
        if text_eq (codes "alice") (codes "alice") && leb 1000 1200 && ltb 1200 1600
        then some (let_in (codes "alice") (certificate_by (codes "ca")))
        else none)
check_certificate-issue_example =
    check_certificate-issue ssh sevens trusted issuer (some 7) 1000000000000 (codes "alice")
      (codes "laptop") (some (codes "k1")) subject (certificate_by (codes "ca")) alice_issued
      (ground arith) (ground arith) 1200 (codes "alice")

-- The signer is not the trusted authority.
check_certificate_signed_example :
    check_certificate ssh trusted 1200 (codes "alice") (certificate_by (codes "mallory"))
    ≡ ok (
        if for_principal (codes "alice") (certificate_by []) && in_period 1200 (certificate_by [])
        then some (let_in (codes "alice") (certificate_by []))
        else none)
unfolding has_provenance lookup text_eq
check_certificate_signed_example =
    check_certificate_signed ssh trusted (codes "mallory") (codes "alice") 1200 (certificate_by [])
      (certificate_by (codes "mallory")) refl refl refl refl refl refl

abbrev attempt : Attempt
attempt = record {
  identity = codes "alice";
  method = public_key;
  password = [];
  public_key =
      some (record { wire = codes "c1"; certificate = some (certificate_by (codes "ca")) });
}

alice_in :
    authenticate_certificate ssh trusted 1200 attempt
    ≡ ok (some (let_in (codes "alice") (certificate_by (codes "ca"))))
unfolding authenticate_certificate check_certificate offered_key has_provenance lookup text_eq
alice_in = refl

authenticate_certificate-Accepted_example :
    (key : PublicKey) × (c : Certificate) × (offered_key attempt ≡ some key)
    × (key.certificate ≡ some c)
    × (let_in (codes "alice") (certificate_by (codes "ca")) ≡ let_in (codes "alice") c)
    × Accepted ssh trusted 1200 (codes "alice") c
authenticate_certificate-Accepted_example =
    authenticate_certificate-Accepted ssh trusted 1200 attempt
      (let_in (codes "alice") (certificate_by (codes "ca"))) alice_in
