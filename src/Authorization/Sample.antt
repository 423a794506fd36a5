-- ===== src/Authorization/Sample.antt =====
-- A concrete `Library` for the tests: a text is hashed by its first 32 bytes, a byte is written as
-- two, a target is split at its first colon, and a port is one byte.
use tearenv.Common.{
  ℕ, zero, suc, ◌*◌, ◌≤◌, ◌<◌, ◌≡◌, ◌≢◌, refl, ap, ℤ, pos, negsuc, Text, [], ◌∷◌, ◌++◌, Option,
  none, some, length, length-append, take, if◌then◌else◌, ltb, ◌==◌, arith,
}
use tearenv.Authorization.Library.{Library}

abbrev pub zeros : ℕ → Text
zeros zero = []
zeros (suc n) = 0 ∷ zeros n

length-take_of_le : (n : ℕ) (s : Text) → n ≤ length s → length (take n s) ≡ n
length-take_of_le zero s h = refl
length-take_of_le (suc n) [] h = absurd (omega arith)
length-take_of_le (suc n) (c ∷ s) h = ap suc (length-take_of_le n s (omega arith))

abbrev pub hash : Text → Text
hash t = take 32 (t ++ zeros 32)

pub length-hash : (t : Text) → length (hash t) ≡ 32
length-hash t = length-take_of_le 32 (t ++ zeros 32) (omega (arith, length-append t (zeros 32)))

abbrev pub encode : Text → Text
encode [] = []
encode (c ∷ s) = c ∷ 0 ∷ encode s

abbrev pub decode : Text → Option Text
decode [] = some []
decode (c ∷ []) = none
decode (c ∷ d ∷ s) = elim (decode s) [ none ↦ none | some r ↦ some (c ∷ r) ]

pub length-encode : (t : Text) → length (encode t) ≡ 2 * length t
length-encode [] = omega arith
length-encode (c ∷ s) = omega (arith, length-encode s)

pub decode-encode : (t : Text) → decode (encode t) ≡ some t
decode-encode [] = refl
decode-encode (c ∷ s) = rw (decode-encode s) refl

abbrev pub split : Text → Text → Option (Text × Text)
split host [] = none
split host (c ∷ s) =
    let rest = split (host ++ c ∷ []) s in if c == b':' then some (host, s) else rest

abbrev pub port : Text → Option ℕ
port (c ∷ []) = if ltb c 65536 then some c else none
port _ = none

pub port-lt : (t : Text) (n : ℕ) → port t ≡ some n → n < 65536
port-lt [] n e = cc
port-lt (c ∷ []) n e = ground arith
port-lt (c ∷ d ∷ s) n e = cc

abbrev pub duration_text : ℤ → Text
duration_text (pos n) = n ∷ 0 ∷ []
duration_text (negsuc n) = n ∷ 1 ∷ []

abbrev pub duration : Text → Option ℤ
duration (n ∷ zero ∷ []) = some (pos n)
duration (n ∷ suc m ∷ []) = some (negsuc n)
duration _ = none

pub duration_text-ne-nil : (d : ℤ) → duration_text d ≢ []
duration_text-ne-nil (pos n) e = cc
duration_text-ne-nil (negsuc n) e = cc

pub duration-duration_text : (d : ℤ) → duration (duration_text d) ≡ some d
duration-duration_text (pos n) = refl
duration-duration_text (negsuc n) = refl

abbrev pub sample : Library
sample = record {
  sha256 = hash;
  length-sha256 = length-hash;
  hex_encode = encode;
  hex_decode = decode;
  length-hex_encode = length-encode;
  hex_decode-hex_encode = decode-encode;
  split_host_port = split [];
  parse_uint16 = port;
  parse_uint16-lt = port-lt;
  parse_duration = duration;
  duration_string = duration_text;
  duration_string-ne-nil = duration_text-ne-nil;
  parse_duration-duration_string = duration-duration_text;
}
