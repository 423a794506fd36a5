-- ===== src/Blueprint/Slug/Shape.antt =====
-- The shape of a slug: letters and digits, with single hyphens between them.
use tearenv.Common.{
  ℕ, zero, suc, ◌≤◌, ◌≡◌, refl, Bool, true, false, not, ◌&&◌, ◌||◌, ◌⊎◌, inl, inr, Text, trim,
  trim_left, trim_right, [], ◌∷◌, ◌++◌, is_empty, length, take, all, if◌then◌else◌, Bool-cases,
  arith, ap,
}
use tearenv.Authorization.Names.{valid_identity, is_identity_char}
use tearenv.Blueprint.Slug.{normalize, is_hyphen, is_slug_char, to_lower, is_hex}

-- The rest of a slug at its start or after a hyphen (`true`), or after a letter or digit (`false`).
unfoldable pub slug_rest : Bool → Text → Bool
slug_rest start [] = not start
slug_rest start (c ∷ s) =
    if is_slug_char c then slug_rest false s else is_hyphen c && not start && slug_rest true s

-- The same but for the end, which may be a hyphen.
unfoldable pub open_rest : Bool → Text → Bool
open_rest start [] = true
open_rest start (c ∷ s) =
    if is_slug_char c then open_rest false s else is_hyphen c && not start && open_rest true s

pub open_rest-normalize :
    (hyphen begun : Bool) (s : Text)
    → open_rest (hyphen || not begun) (normalize hyphen begun s) ≡ true
unfolding open_rest normalize
open_rest-normalize hyphen begun [] = refl
open_rest-normalize hyphen begun (c ∷ s) = elim (Bool-cases (is_slug_char (to_lower c))) [
  | inl good ↦ rw (good, normalize) (rw good (open_rest-normalize false true s))
  | inr bad ↦ elim (Bool-cases (not hyphen && begun)) [
    | inl marked ↦
        rw (bad, normalize)
          (rw (marked, normalize) (ground (arith, open_rest-normalize true true s)))
    | inr skipped ↦
        rw (bad, normalize) (rw (skipped, normalize) (open_rest-normalize hyphen begun s))
  ]
]

pub open_rest-take :
    (n : ℕ) (b : Bool) (s : Text) → open_rest b s ≡ true → open_rest b (take n s) ≡ true
unfolding open_rest
open_rest-take zero b s h = refl
open_rest-take (suc n) b [] h = refl
open_rest-take (suc n) b (c ∷ s) h =
    ground (arith, open_rest-take n false s, open_rest-take n true s)

pub slug_rest-trim_right :
    (b : Bool) (s : Text)
    → open_rest b s ≡ true
    → (is_empty (trim_right is_hyphen s) ≡ true) ⊎ (slug_rest b (trim_right is_hyphen s) ≡ true)
unfolding open_rest slug_rest trim_right
slug_rest-trim_right b [] h = inl refl
slug_rest-trim_right b (c ∷ s) h =
    ground (arith, slug_rest-trim_right false s, slug_rest-trim_right true s)

-- A slug is its own normal form.
pub normalize-slug_rest :
    (hyphen begun : Bool) (s : Text)
    → slug_rest (hyphen || not begun) s ≡ true
    → normalize hyphen begun s ≡ s
unfolding slug_rest normalize
normalize-slug_rest hyphen begun [] h = refl
normalize-slug_rest hyphen begun (c ∷ s) h = elim (Bool-cases (is_slug_char c)) [
  | inl good ↦
      let low : to_lower c ≡ c = ground arith in
      rw (low, normalize) (rw (good, normalize) (ground (arith, normalize-slug_rest false true s)))
  | inr bad ↦
      let dash : c ≡ b'-' = ground arith in
      let marked : (not hyphen && begun) ≡ true = ground arith in
      let rest : slug_rest true s ≡ true = ground arith in
      rw dash (rw (marked, normalize) (ap (λ t. b'-' ∷ t) (normalize-slug_rest true true s rest)))
]

pub slug_rest-append :
    (b : Bool) (s t : Text)
    → slug_rest b s ≡ true
    → slug_rest true t ≡ true
    → slug_rest b (s ++ b'-' ∷ t) ≡ true
unfolding slug_rest
slug_rest-append true [] t h k = cc
slug_rest-append false [] t h k = k
slug_rest-append b (c ∷ s) t h k =
    ground (arith, slug_rest-append false s t, slug_rest-append true s t)

-- Digits and letters alone make a slug, unless there are none.
pub slug_rest-hex :
    (b : Bool) (s : Text) → all is_hex s ≡ true → (b && is_empty s) ≡ false → slug_rest b s ≡ true
unfolding slug_rest
slug_rest-hex b [] h k = ground arith
slug_rest-hex b (c ∷ s) h k = ground (arith, slug_rest-hex false s)

all-slug_rest : (b : Bool) (s : Text) → slug_rest b s ≡ true → all is_identity_char s ≡ true
unfolding slug_rest
all-slug_rest b [] h = refl
all-slug_rest b (c ∷ s) h = ground (arith, all-slug_rest false s, all-slug_rest true s)

-- A slug that fits a label is an identity of the pattern.
pub valid_identity-slug :
    (s : Text) → slug_rest true s ≡ true → length s ≤ 63 → valid_identity s ≡ true
unfolding valid_identity slug_rest
valid_identity-slug [] h k = cc
valid_identity-slug (c ∷ s) h k = ground (arith, all-slug_rest false s)

-- It has no hyphen to trim at either end.
pub trim_right-slug : (b : Bool) (s : Text) → slug_rest b s ≡ true → trim_right is_hyphen s ≡ s
unfolding trim_right slug_rest
trim_right-slug b [] h = refl
trim_right-slug b (c ∷ s) h = ground (arith, trim_right-slug false s, trim_right-slug true s)

pub trim-slug : (s : Text) → slug_rest true s ≡ true → trim is_hyphen s ≡ s
unfolding trim trim_left slug_rest
trim-slug [] h = cc
trim-slug (c ∷ s) h = ground (arith, trim_right-slug true (c ∷ s) h)

pub length-trim_right-le : (s : Text) → length (trim_right is_hyphen s) ≤ length s
unfolding trim_right
length-trim_right-le [] = omega arith
length-trim_right-le (c ∷ s) = ground (arith, length-trim_right-le s)

pub length-trim_left-le : (s : Text) → length (trim_left is_hyphen s) ≤ length s
unfolding trim_left
length-trim_left-le [] = omega arith
length-trim_left-le (c ∷ s) = ground (arith, length-trim_left-le s)
