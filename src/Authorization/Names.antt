-- ===== src/Authorization/Names.antt =====
-- The patterns for identities and service names, which internal/authorization/credentials.go,
-- internal/blueprint/blueprint.go and api/v1alpha1/userregistration.go each compile.
use tearenv.Common.{ℕ, Bool, false, ◌&&◌, ◌||◌, Text, [], ◌∷◌, length, all, ◌==◌, leb}

abbrev pub is_lower : ℕ → Bool
is_lower c = leb b'a' c && leb c b'z'

abbrev pub is_digit : ℕ → Bool
is_digit c = leb b'0' c && leb c b'9'

abbrev pub is_upper : ℕ → Bool
is_upper c = leb b'A' c && leb c b'Z'

abbrev pub is_alphanumeric : ℕ → Bool
is_alphanumeric c = is_upper c || is_lower c || is_digit c

-- The class [A-Za-z0-9._@-].
abbrev pub is_identity_char : ℕ → Bool
is_identity_char c = is_alphanumeric c || c == b'.' || c == b'_' || c == b'@' || c == b'-'

-- `^[A-Za-z0-9][A-Za-z0-9._@-]{0,63}$`
unfoldable pub valid_identity : Text → Bool
valid_identity [] = false
valid_identity (c ∷ s) = is_alphanumeric c && all is_identity_char s && leb (length s) 63

-- `^[a-z][a-z0-9-]{0,31}$`
unfoldable pub valid_service_name : Text → Bool
valid_service_name [] = false
valid_service_name (c ∷ s) =
    is_lower c && all (λ d. is_lower d || is_digit d || d == b'-') s && leb (length s) 31
