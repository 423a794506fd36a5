-- ===== src/Blueprint/Slug/Laws.antt =====
-- Every slug is a DNS label, and its own slug: an identity whose slug has a hash shares it with the
-- identity that is spelled like the slug.
use tearenv.Common.{
  ℕ, suc, ◌≤◌, ◌≡◌, ◌≢◌, refl, Bool, true, false, inl, inr, Text, text_eq_iff, text_eq_self, trim,
  trim_left, trim_right, [], ◌∷◌, is_empty, length, length-append, length-take-le, take, all-take,
  arith, none, some, ◌⊎◌, ◌↔◌,
}
use tearenv.Authorization.Names.{valid_identity}
use tearenv.Blueprint.Slug.{
  Digest, is_slug_char, is_hyphen, is_hex, to_lower, normalize, hash_label, slug_identity,
}
use tearenv.Blueprint.Slug.Shape.{
  slug_rest, open_rest, open_rest-normalize, open_rest-take, slug_rest-trim_right,
  normalize-slug_rest, slug_rest-append, slug_rest-hex, valid_identity-slug, trim-slug,
  length-trim_right-le, length-trim_left-le,
}

-- Letters, digits and single hyphens between them, at most 63 bytes.
pub record IsLabel (s : Text) : Type 0 where
  pub shape : slug_rest true s ≡ true
  pub size : length s ≤ 63

trim_left-open : (s : Text) → open_rest true s ≡ true → trim_left is_hyphen s ≡ s
unfolding trim_left open_rest
trim_left-open [] h = refl
trim_left-open (c ∷ s) h = ground arith

trim_right-not_empty :
    (s : Text)
    → open_rest true s ≡ true
    → is_empty s ≡ false
    → is_empty (trim_right is_hyphen s) ≡ false
unfolding trim_right open_rest
trim_right-not_empty [] h k = cc
trim_right-not_empty (c ∷ s) h k = ground arith

slug_rest-trim :
    (s : Text)
    → open_rest true s ≡ true
    → is_empty s ≡ false
    → slug_rest true (trim is_hyphen s) ≡ true
unfolding trim
slug_rest-trim s h k =
    rw (trim_left-open s h)
      (ground (arith, slug_rest-trim_right true s h, trim_right-not_empty s h k))

length-trim-le : (s : Text) → length (trim is_hyphen s) ≤ length s
unfolding trim
length-trim-le s =
    omega (arith, length-trim_right-le (trim_left is_hyphen s), length-trim_left-le s)

normalize-not_empty :
    (s : Text) → valid_identity s ≡ true → is_empty (normalize false false s) ≡ false
unfolding normalize valid_identity
normalize-not_empty [] h = cc
normalize-not_empty (c ∷ s) h =
    let good : is_slug_char (to_lower c) ≡ true = ground arith in rw (good, normalize) refl

is_empty-take : (n : ℕ) (s : Text) → is_empty s ≡ false → is_empty (take (suc n) s) ≡ false
is_empty-take n [] h = cc
is_empty-take n (c ∷ s) h = refl

open_rest-slug : (b : Bool) (s : Text) → slug_rest b s ≡ true → open_rest b s ≡ true
unfolding slug_rest open_rest
open_rest-slug b [] h = refl
open_rest-slug b (c ∷ s) h = ground (arith, open_rest-slug false s, open_rest-slug true s)

module _ (digest : Digest) where
  hash-slug : (t : Text) → slug_rest true (take 8 (digest.hex t)) ≡ true
  hash-slug t =
      slug_rest-hex true (take 8 (digest.hex t))
        (all-take is_hex 8 (digest.hex t) (digest.is_hex-hex t))
        (some_digits (digest.hex t) (digest.length-hex t))
    where
      some_digits : (s : Text) → length s ≡ 64 → is_empty (take 8 s) ≡ false
      some_digits [] e = absurd (omega arith)
      some_digits (c ∷ s) e = refl

  hash_label-IsLabel :
      (value source : Text)
      → slug_rest true value ≡ true
      → is_empty value ≡ false
      → IsLabel (hash_label digest value source)
  unfolding hash_label
  hash_label-IsLabel value source h k =
      let cut = open_rest-take 54 true value (open_rest-slug true value h) in
      record {
        shape =
            slug_rest-append true (trim is_hyphen (take 54 value)) (take 8 (digest.hex source))
              (slug_rest-trim (take 54 value) cut (is_empty-take 53 value k)) (hash-slug source);
        size = omega (
          arith,
          length-append (trim is_hyphen (take 54 value)) (b'-' ∷ take 8 (digest.hex source)),
          length-trim-le (take 54 value),
          length-take-le 54 value,
          length-take-le 8 (digest.hex source),
        );
      }

  slug_not_empty : (s : Text) → slug_rest true s ≡ true → is_empty s ≡ false
  unfolding slug_rest
  slug_not_empty [] h = cc
  slug_not_empty (c ∷ s) h = refl

  abbrev slug_value : Text → Text
  slug_value identity = trim is_hyphen (normalize false false identity)

  slug_identity-cases :
      (identity s : Text)
      → slug_identity digest identity ≡ some s
      → (valid_identity identity ≡ true)
        × (((s ≡ identity) × (slug_value identity ≡ identity) × (length s ≤ 63))
            ⊎ (s ≡ hash_label digest (slug_value identity) identity))
  unfolding slug_identity
  slug_identity-cases identity s e =
      (ground arith, ground (arith, text_eq_iff (slug_value identity) identity))

  value-slug :
      (identity : Text)
      → valid_identity identity ≡ true
      → slug_rest true (slug_value identity) ≡ true
  value-slug identity valid =
      slug_rest-trim (normalize false false identity) (open_rest-normalize false false identity)
        (normalize-not_empty identity valid)

  -- Every slug starts and ends with a lower-case letter or a digit, has only those and single
  -- hyphens between them, and has at most 63 bytes.
  pub slug_identity-IsLabel :
      (identity s : Text) → slug_identity digest identity ≡ some s → IsLabel s
  slug_identity-IsLabel identity s e =
      let (valid, cases) = slug_identity-cases identity s e in
      elim cases [
        | inl (same, kept, small) ↦ record {
          shape = rw same (rw kept at (value-slug identity valid));
          size = small;
        }
        | inr hashed ↦
            let shaped = value-slug identity valid in
            rw hashed (
              hash_label-IsLabel (slug_value identity) identity shaped
                (slug_not_empty (slug_value identity) shaped))
      ]

  own_slug : (s : Text) → IsLabel s → slug_identity digest s ≡ some s
  unfolding slug_identity
  own_slug s v =
      let valid = valid_identity-slug s v.shape v.size in
      let kept : slug_value s ≡ s =
        rw (normalize-slug_rest false false s v.shape) (trim-slug s v.shape) in
      rw (valid, kept) (ground (arith, text_eq_self s, v.size))

  -- The slug of an identity is itself an identity of the pattern and its own slug, so wherever the
  -- slug of an identity differs from it, the two are distinct identities with the same slug.
  pub slug_identity-collides :
      (identity s : Text)
      → slug_identity digest identity ≡ some s
      → s ≢ identity
      → (valid_identity s ≡ true) × (slug_identity digest s ≡ slug_identity digest identity)
  slug_identity-collides identity s e other =
      let v = slug_identity-IsLabel identity s e in
      (valid_identity-slug s v.shape v.size, rw e (own_slug s v))

  -- The error case, and the only one: an identity that does not match the pattern.
  pub slug_identity-none_iff :
      (identity : Text) → (slug_identity digest identity ≡ none) ↔ (valid_identity identity ≡ false)
  unfolding slug_identity
  slug_identity-none_iff identity = ground arith
