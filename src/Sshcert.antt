-- ===== src/Sshcert.antt =====
-- internal/sshcert/issuer.go. Durations and times are nanoseconds, and those of a certificate are
-- seconds in 64 bits.
pub mod Laws
mod Tests
use tearenv.Common.{
  ℕ, ◌+◌, ◌-◌, ◌*◌, ◌/◌, ◌%◌, ◌^◌, bit_and, ℤ, pos, negsuc, is_zero, Bool, true, false, not, ◌&&◌,
  Text, codes, trim_space, Option, none, some, List, [], ◌∷◌, ◌++◌, is_empty, take, leb, ◌==◌,
  if◌then◌else◌, Result, ok, err, ◌>>=◌, ◌>>◌, require, from_option,
}
use tearenv.Authorization.Services.{minute}
use tearenv.Authorization.Providers.{Certificate}
use tearenv.Authorization.Ssh.{Ssh, user_cert}
use tearenv.Authorization.Certificates.{extension_name}
use tearenv.Blueprint.Slug.{Digest}

pub data IssuerError : Type 0 where
  signer_required bad_ttl bad_clock_skew arguments_required no_serial not_signed : IssuerError
  no_key_file not_regular bad_permissions unreadable bad_private_key : IssuerError

pub record Subject : Type 0 where
  pub issuer : Text
  pub subject : Text

-- `Issuer`, whose durations are not negative.
pub record Issuer : Type 0 where
  pub signer : Text
  pub ttl : ℕ
  pub clock_skew : ℕ

-- `DefaultTTL`.
abbrev pub default_ttl : ℤ
default_ttl = pos (10 * minute)

-- A duration that lies between two bounds.
unfoldable pub between : ℕ → ℕ → ℤ → Option ℕ
between low high (pos n) = if leb low n && leb n high then some n else none
between low high (negsuc n) = none

unfoldable pub new_issuer : Option Text → ℤ → ℤ → Result IssuerError Issuer
unfolding between
new_issuer signer ttl clock_skew = do
  s ← from_option signer signer_required
  lifetime ←
      from_option (between minute (60 * minute) (if is_zero ttl then default_ttl else ttl)) bad_ttl
  skew ← from_option (between 0 (5 * minute) clock_skew) bad_clock_skew
  ok (record { signer = s; ttl = lifetime; clock_skew = skew })

-- The key file of `LoadSigner`: whether it is regular, its mode, its contents if they can be read.
pub record KeyFile : Type 0 where
  pub regular : Bool
  pub mode : ℕ
  pub contents : Option Text

-- `LoadSigner`, where `parse` is `ssh.ParsePrivateKey`.
unfoldable pub load_signer : (Text → Option Text) → Option KeyFile → Result IssuerError Text
load_signer parse file = do
  f ← from_option file no_key_file
  require f.regular not_regular
  require (bit_and f.mode 0o022 == 0) bad_permissions
  contents ← from_option f.contents unreadable
  from_option (parse contents) bad_private_key

-- `uint64(t.Unix())` for a time that is the difference of two numbers of nanoseconds.
unfoldable pub unix_before : ℕ → ℕ → ℕ
unix_before now d =
    if leb d now
    then (now - d) / 10 ^ 9 % 2 ^ 64
    else (2 ^ 64 - (d - now + (10 ^ 9 - 1)) / 10 ^ 9) % 2 ^ 64

unfoldable pub unix_after : ℕ → ℕ → ℕ
unix_after now d = (now + d) / 10 ^ 9 % 2 ^ 64

-- `certificateKeyID`: twelve bytes are 24 digits.
unfoldable pub certificate_key_id : Digest → Subject → Text → Text
certificate_key_id digest s key_name =
    codes "oidc:" ++ take 24 (digest.hex (s.issuer ++ 0 ∷ s.subject ++ 0 ∷ key_name))

-- The certificate that `Issue` signs.
unfoldable pub certificate_for :
    Digest → Issuer → ℕ → ℕ → Text → Text → Text → Subject → Certificate
unfolding unix_before unix_after certificate_key_id
certificate_for digest issuer serial now identity key_name key subject = record {
  key = key;
  serial = serial;
  cert_type = user_cert;
  key_id = certificate_key_id digest subject key_name;
  valid_principals = identity ∷ [];
  valid_after = unix_before now issuer.clock_skew;
  valid_before = unix_after now issuer.ttl;
  critical_options = [];
  extensions = (codes "permit-port-forwarding", []) ∷ (extension_name, codes "oidc") ∷ [];
  signature_key = [];
  signature = [];
}

module _ (ssh : Ssh) (digest : Digest) where
  -- `Issue`: the serial of the random source and the time are arguments.
  unfoldable pub issue :
      Issuer → Option ℕ → ℕ → Text → Text → Option Text → Subject → Result IssuerError Certificate
  issue issuer serial now identity key_name public_key subject = do
    require (not (is_empty (trim_space identity)) && not (is_empty (trim_space key_name)))
        arguments_required
    key ← from_option public_key arguments_required
    number ← from_option serial no_serial
    from_option
        (ssh.sign_cert issuer.signer
          (certificate_for digest issuer number now identity key_name key subject))
        not_signed
