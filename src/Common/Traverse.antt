-- ===== src/Common/Traverse.antt =====
-- A loop over a map that computes a new entry for each entry, and stops at the first error.
use mathlib.Core.Path.{◌≡◌, refl}
use mathlib.Core.Logic.{inl, inr}
use mathlib.Core.Option.{none, some}
use mathlib.Core.List.{[], ◌∷◌}
use native.Mathlib.Omega.{arith}
use tearenv.Common.Tests.{Bool-cases}
use tearenv.Common.Lists.{All}
use tearenv.Common.Texts.{Text, text_eq, text_eq_iff}
use tearenv.Common.Maps.{Map, lookup, insert, delete}
use tearenv.Common.Results.{Result, ok, ◌>>=◌, >>=-eq-ok}

module _ {ℓ κ μ} {E : Type ℓ} {A : Type κ} {B : Type μ} (f : Text → A → Result E B) where
  unfoldable pub traverse : Map A → Result E (Map B)
  traverse [] = ok []
  traverse ((k, a) ∷ m) = do b ← f k a; rest ← traverse m; ok ((k, b) ∷ rest)

  -- The first entry and the rest of a loop that succeeds.
  pub traverse-cons :
      (k : Text) (a : A) (m : Map A) (n : Map B)
      → traverse ((k, a) ∷ m) ≡ ok n
      → (b : B) × (rest : Map B) × (f k a ≡ ok b) × (traverse m ≡ ok rest) × ((k, b) ∷ rest ≡ n)
  unfolding traverse
  traverse-cons k a m n e =
      let (b, fb, e') = >>=-eq-ok (f k a) _ e in
      let (rest, tm, e'') = >>=-eq-ok (traverse m) _ e' in (b, rest, fb, tm, ground arith)

  pub traverse-All {ν} :
      (P : Text × B → Type ν) (m : Map A) (n : Map B)
      → ((k : Text) (a : A) (b : B) → f k a ≡ ok b → P (k, b))
      → traverse m ≡ ok n
      → All P n
  unfolding traverse
  traverse-All P [] n h e = let same : [] ≡ n = cc in rw (← same) tt
  traverse-All P ((k, a) ∷ m) n h e =
      let (b, rest, fb, tm, same) = traverse-cons k a m n e in
      rw (← same) (h k a b fb, traverse-All P m rest h tm)

  pub traverse-lookup :
      (k : Text) (a : A) (m : Map A) (n : Map B)
      → traverse m ≡ ok n
      → lookup k m ≡ some a
      → (b : B) × (f k a ≡ ok b) × (lookup k n ≡ some b)
  unfolding lookup
  traverse-lookup k a [] n e h = cc
  traverse-lookup k a ((j, x) ∷ m) n e h =
      let (b, rest, fb, tm, same) = traverse-cons j x m n e in
      elim (Bool-cases (text_eq j k)) [
        | inl hit ↦
            let key : j ≡ k = (text_eq_iff j k).0 hit in
            let here : x ≡ a = ground arith in
            (b, rw (← key, ← here) fb, rw (← same) (rw (hit, lookup)))
        | inr miss ↦
            let found : lookup k m ≡ some a = ground arith in
            let (c, fc, later) = traverse-lookup k a m rest tm found in
            (c, fc, rw (← same) (rw (miss, lookup) later))
      ]

  pub traverse-lookup-none :
      (k : Text) (m : Map A) (n : Map B) → traverse m ≡ ok n → lookup k m ≡ none → lookup k n ≡ none
  unfolding lookup
  traverse-lookup-none k [] n e h =
      let same : [] ≡ n = (unfold traverse in ground arith) in rw (← same) refl
  traverse-lookup-none k ((j, x) ∷ m) n e h =
      let (b, rest, fb, tm, same) = traverse-cons j x m n e in
      elim (Bool-cases (text_eq j k)) [
        | inl hit ↦ ground arith
        | inr miss ↦
            rw (← same) (rw (miss, lookup) (traverse-lookup-none k m rest tm (ground arith)))
      ]

  -- The loop over a changed map is the changed result.
  pub traverse-insert :
      (k : Text) (a : A) (b : B) (m : Map A) (n : Map B)
      → traverse m ≡ ok n
      → f k a ≡ ok b
      → traverse (insert k a m) ≡ ok (insert k b n)
  unfolding traverse insert
  traverse-insert k a b [] n e h = let same : [] ≡ n = ground arith in rw (← same, h) refl
  traverse-insert k a b ((j, x) ∷ m) n e h =
      let (c, rest, fc, tm, same) = traverse-cons j x m n e in
      elim (Bool-cases (text_eq j k)) [
        | inl hit ↦ rw (← same) (rw (hit, insert) (rw (h, traverse) (rw (tm) refl)))
        | inr miss ↦
            rw (← same)
              (rw (miss, insert) (rw (fc, traverse) (rw (traverse-insert k a b m rest tm h) refl)))
      ]

  pub traverse-delete :
      (k : Text) (m : Map A) (n : Map B)
      → traverse m ≡ ok n
      → traverse (delete k m) ≡ ok (delete k n)
  unfolding traverse delete
  traverse-delete k [] n e = let same : [] ≡ n = ground arith in rw (← same) refl
  traverse-delete k ((j, x) ∷ m) n e =
      let (c, rest, fc, tm, same) = traverse-cons j x m n e in
      elim (Bool-cases (text_eq j k)) [
        | inl hit ↦ rw (← same) (rw (hit, delete) (traverse-delete k m rest tm))
        | inr miss ↦
            rw (← same)
              (rw (miss, delete) (rw (fc, traverse) (rw (traverse-delete k m rest tm) refl)))
      ]
