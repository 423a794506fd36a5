-- ===== src/Authorization/Library.antt =====
-- What internal/authorization takes from Go's packages: crypto/sha256, encoding/hex, net, strconv
-- and time. The laws are those of their documentation that the code relies on.
use tearenv.Common.{ℕ, ◌*◌, ◌<◌, ◌≡◌, ◌≢◌, ℤ, Text, Option, some, [], length}

pub record Library : Type 0 where
  -- `sha256.Sum256`: 32 bytes.
  pub sha256 : Text → Text
  pub length-sha256 : (t : Text) → length (sha256 t) ≡ 32
  -- `hex.EncodeToString` and `hex.DecodeString`.
  pub hex_encode : Text → Text
  pub hex_decode : Text → Option Text
  pub length-hex_encode : (t : Text) → length (hex_encode t) ≡ 2 * length t
  pub hex_decode-hex_encode : (t : Text) → hex_decode (hex_encode t) ≡ some t
  -- `net.SplitHostPort` and `strconv.ParseUint` in base 10 with 16 bits.
  pub split_host_port : Text → Option (Text × Text)
  pub parse_uint16 : Text → Option ℕ
  pub parse_uint16-lt : (t : Text) (n : ℕ) → parse_uint16 t ≡ some n → n < 65536
  -- `time.ParseDuration` and `Duration.String`.
  pub parse_duration : Text → Option ℤ
  pub duration_string : ℤ → Text
  pub duration_string-ne-nil : (d : ℤ) → duration_string d ≢ []
  pub parse_duration-duration_string : (d : ℤ) → parse_duration (duration_string d) ≡ some d
