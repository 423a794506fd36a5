-- ===== src/Api/Names/Laws.antt =====
-- api/v1alpha1/userregistration.go: the shape of resource and key names.
use tearenv.Common.{
  ℕ, ◌+◌, ◌≤◌, Bool, true, false, ◌&&◌, ◌||◌, Text, text_eq, trim, trim_left, trim_right,
  trim_space, [], ◌∷◌, ◌++◌, length, take, all, map, ◌==◌, leb, ◌≡◌, refl, arith, length-append,
  length-take-le, all-append, all-take, if-both, leb→le,
}
use tearenv.Authorization.Names.{is_lower, is_digit}
use tearenv.Blueprint.Slug.{to_lower, is_hex}
use tearenv.Api.Library.{Library}
use tearenv.Api.Names.{
  is_name_char, is_edge, replace_invalid, dot_to_hyphen, normalize_name, resource_name, key_name,
}

module _ (p : ℕ → Bool) where
  length-trim_right-le : (s : Text) → length (trim_right p s) ≤ length s
  unfolding trim_right
  length-trim_right-le [] = omega arith
  length-trim_right-le (c ∷ s) = ground (arith, length-trim_right-le s)

  all-trim_right : (q : ℕ → Bool) (s : Text) → all q s ≡ true → all q (trim_right p s) ≡ true
  unfolding trim_right
  all-trim_right q [] h = refl
  all-trim_right q (c ∷ s) h = ground (arith, all-trim_right q s)

  all-trim_left : (q : ℕ → Bool) (s : Text) → all q s ≡ true → all q (trim_left p s) ≡ true
  unfolding trim_left
  all-trim_left q [] h = refl
  all-trim_left q (c ∷ s) h = ground (arith, all-trim_left q s)

all-replace_invalid : (run : Bool) (s : Text) → all is_name_char (replace_invalid run s) ≡ true
unfolding replace_invalid
all-replace_invalid run [] = refl
all-replace_invalid true (c ∷ s) =
    ground (arith, all-replace_invalid false s, all-replace_invalid true s)
all-replace_invalid false (c ∷ s) =
    ground (arith, all-replace_invalid false s, all-replace_invalid true s)

all-hex : (s : Text) → all is_hex s ≡ true → all is_name_char s ≡ true
all-hex [] h = refl
all-hex (c ∷ s) h = ground (arith, all-hex s)

all-normalize_name : (s : Text) → all is_name_char (normalize_name s) ≡ true
unfolding normalize_name trim
all-normalize_name s =
    let inner =
      all-trim_right is_edge is_name_char
        (trim_left is_edge (replace_invalid false (map to_lower s)))
        (all-trim_left is_edge is_name_char (replace_invalid false (map to_lower s))
          (all-replace_invalid false (map to_lower s))) in
    ground arith

-- A name that is cut and gets the start of a hash.
abbrev hashed : (ℕ → Bool) → ℕ → Text → Text → Text
hashed p n name hash = trim_right p (take n name) ++ b'-' ∷ take 12 hash

all-hashed :
    (p q : ℕ → Bool) (n : ℕ) (name hash : Text)
    → q b'-' ≡ true
    → all q name ≡ true
    → all q hash ≡ true
    → all q (hashed p n name hash) ≡ true
all-hashed p q n name hash hyphen letters digits =
    let start = all-trim_right p q (take n name) (all-take q n name letters) in
    let end = all-take q 12 hash digits in
    rw (all-append q (trim_right p (take n name)) (b'-' ∷ take 12 hash), start, hyphen, end) refl

length-hashed : (p : ℕ → Bool) (n : ℕ) (name hash : Text) → length (hashed p n name hash) ≤ n + 13
length-hashed p n name hash = omega (
  arith,
  length-append (trim_right p (take n name)) (b'-' ∷ take 12 hash),
  length-trim_right-le p (take n name),
  length-take-le n name,
  length-take-le 12 hash,
)

abbrev pub IsName : Text → Type 0
IsName t = (all is_name_char t ≡ true) × (length t ≤ 253)

fits : (name : Text) (a b : Bool) → (a && leb (length name) 253 && b) ≡ true → length name ≤ 253
fits name a b e = ground arith

-- Every resource name consists of lower-case letters, digits, dots and hyphens, and has at most
-- 253 bytes.
pub resource_name-IsName : (lib : Library) (value : Text) → IsName (resource_name lib value)
unfolding resource_name
resource_name-IsName lib value =
    let hash = lib.digest.hex value in
    let name = normalize_name (trim_space value) in
    let letters = all-normalize_name (trim_space value) in
    let long =
      all-hashed is_edge is_name_char 240 name hash refl letters
        (all-hex hash (lib.digest.is_hex-hex value)) in
    let bound = length-hashed is_edge 240 name hash in
    let kept =
      text_eq name (trim_space value) && leb (length name) 253 && lib.is_dns_subdomain name in
    if-both IsName kept name (hashed is_edge 240 name hash) (λ e. (letters, fits name _ _ e))
      (λ e. (long, bound))

-- The class [a-z0-9-].
abbrev pub is_label_char : ℕ → Bool
is_label_char c = is_lower c || is_digit c || c == b'-'

abbrev pub IsLabel : Text → Type 0
IsLabel t = (all is_label_char t ≡ true) × (length t ≤ 63)

all-dot_to_hyphen :
    (s : Text) → all is_name_char s ≡ true → all is_label_char (map dot_to_hyphen s) ≡ true
all-dot_to_hyphen [] h = refl
all-dot_to_hyphen (c ∷ s) h = ground (arith, all-dot_to_hyphen s)

all-hex_label : (s : Text) → all is_hex s ≡ true → all is_label_char s ≡ true
all-hex_label [] h = refl
all-hex_label (c ∷ s) h = ground (arith, all-hex_label s)

-- Every key name consists of lower-case letters, digits and hyphens, and has at most 63 bytes.
pub key_name-IsLabel : (lib : Library) (value : Text) → IsLabel (key_name lib value)
unfolding key_name
key_name-IsLabel lib value =
    let hash = lib.digest.hex value in
    let name = map dot_to_hyphen (resource_name lib value) in
    let (good, size) = resource_name-IsName lib value in
    let letters = all-dot_to_hyphen (resource_name lib value) good in
    let hyphen : ℕ → Bool = λ c. c == b'-' in
    let long =
      all-hashed hyphen is_label_char 50 name hash refl letters
        (all-hex_label hash (lib.digest.is_hex-hex value)) in
    let bound = length-hashed hyphen 50 name hash in
    if-both IsLabel (leb (length name) 63) name (hashed hyphen 50 name hash)
      (λ e. (letters, leb→le _ _ e)) (λ e. (long, bound))
