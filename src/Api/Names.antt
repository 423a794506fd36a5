-- ===== src/Api/Names.antt =====
-- api/v1alpha1/userregistration.go: `ResourceName` and `KeyName`, on ASCII values.
pub mod Laws
use tearenv.Common.{
  ℕ, Bool, true, false, ◌&&◌, ◌||◌, Text, codes, text_eq, trim, trim_right, trim_space, List, [],
  ◌∷◌, ◌++◌, is_empty, length, take, map, ◌==◌, leb, if◌then◌else◌,
}
use tearenv.Authorization.Names.{is_lower, is_digit}
use tearenv.Blueprint.Slug.{to_lower, Digest}
use tearenv.Api.Library.{Library}

-- `validation.DNS1123SubdomainMaxLength` and `validation.DNS1123LabelMaxLength`.
abbrev pub subdomain_max_length : ℕ
subdomain_max_length = 253

abbrev pub label_max_length : ℕ
label_max_length = 63

-- The class [a-z0-9.-].
abbrev pub is_name_char : ℕ → Bool
is_name_char c = is_lower c || is_digit c || c == b'.' || c == b'-'

abbrev pub is_edge : ℕ → Bool
is_edge c = c == b'.' || c == b'-'

-- `invalidResourceName.ReplaceAllString(s, "-")`; the flag says that the character before was
-- replaced.
unfoldable pub replace_invalid : Bool → Text → Text
replace_invalid run [] = []
replace_invalid run (c ∷ s) = elim (is_name_char c) [
  | true ↦ c ∷ replace_invalid false s
  | false ↦ elim run [ true ↦ replace_invalid true s | false ↦ b'-' ∷ replace_invalid true s ]
]

-- `strings.ReplaceAll(s, ".", "-")`.
abbrev pub dot_to_hyphen : ℕ → ℕ
dot_to_hyphen c = if c == b'.' then b'-' else c

unfoldable pub normalize_name : Text → Text
normalize_name original =
    let normalized = trim is_edge (replace_invalid false (map to_lower original)) in
    if is_empty normalized then codes "registration" else normalized

module _ (lib : Library) where
  unfoldable pub resource_name : Text → Text
  resource_name value =
      let original = trim_space value in
      let normalized = normalize_name original in
      if text_eq normalized original
        && leb (length normalized) subdomain_max_length
        && lib.is_dns_subdomain normalized
      then normalized
      else trim_right is_edge (take 240 normalized) ++ b'-' ∷ take 12 (lib.digest.hex value)

  unfoldable pub key_name : Text → Text
  key_name value =
      let name = map dot_to_hyphen (resource_name value) in
      if leb (length name) label_max_length
      then name
      else trim_right (λ c. c == b'-') (take 50 name) ++ b'-' ∷ take 12 (lib.digest.hex value)
