-- ===== src/Blueprint/Slug.antt =====
-- internal/blueprint/blueprint.go: the DNS label that `slugIdentity` makes of an identity, and the
-- shortening of labels by a hash.
pub mod Shape
pub mod Laws
pub mod Sample
mod Tests
use tearenv.Common.{
  ℕ, ◌+◌, ◌-◌, ◌≡◌, Bool, true, false, not, ◌&&◌, ◌||◌, Text, text_eq, trim, trim_left, trim_right,
  List, [], ◌∷◌, ◌++◌, is_empty, length, take, all, ◌==◌, leb, ltb, if◌then◌else◌, Option, none,
  some,
}
use tearenv.Authorization.Names.{valid_identity, is_lower, is_digit, is_upper}

-- `validation.DNS1123LabelMaxLength` of k8s.io/apimachinery.
abbrev pub label_max_length : ℕ
label_max_length = 63

-- The digits of `fmt.Sprintf("%x", …)`.
abbrev pub is_hex : ℕ → Bool
is_hex c = is_digit c || (leb b'a' c && leb c b'f')

-- `fmt.Sprintf("%x", sha256.Sum256(…))`: 64 digits in lower case.
pub record Digest : Type 0 where
  pub hex : Text → Text
  pub length-hex : (t : Text) → length (hex t) ≡ 64
  pub is_hex-hex : (t : Text) → all is_hex (hex t) ≡ true

-- `strings.ToLower` on the bytes of an identity.
abbrev pub to_lower : ℕ → ℕ
to_lower c = if is_upper c then c + 32 else c

abbrev pub is_slug_char : ℕ → Bool
is_slug_char c = is_lower c || is_digit c

-- What the loop of `slugIdentity` writes for the rest of an identity, after a hyphen or not, and
-- with something written before or not.
unfoldable pub normalize : Bool → Bool → Text → Text
normalize hyphen begun [] = []
normalize hyphen begun (c ∷ s) = elim (is_slug_char (to_lower c)) [
  | true ↦ to_lower c ∷ normalize false true s
  | false ↦ elim (not hyphen && begun) [
    | true ↦ b'-' ∷ normalize true true s
    | false ↦ normalize hyphen begun s
  ]
]

abbrev pub is_hyphen : ℕ → Bool
is_hyphen c = c == b'-'

module _ (digest : Digest) where
  -- `hashDNSLabel`.
  unfoldable pub hash_label : Text → Text → Text
  hash_label value source = trim is_hyphen (take 54 value) ++ b'-' ∷ take 8 (digest.hex source)

  -- `shortenDNSLabel`.
  unfoldable pub shorten_label : Text → Text → Text
  shorten_label value source =
      if leb (length value) label_max_length then value else hash_label value source

  -- `slugIdentity`; `none` is the error for an identity that does not match the pattern.
  unfoldable pub slug_identity : Text → Option Text
  slug_identity identity =
      if not (valid_identity identity)
      then none
      else let value = trim is_hyphen (normalize false false identity) in
        some (
          if not (text_eq value identity) || ltb label_max_length (length value)
          then hash_label value identity
          else value)
