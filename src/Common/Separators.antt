-- ===== src/Common/Separators.antt =====
-- Texts that zero bytes separate.

use mathlib.Core.Path.{◌≡◌, refl}
use mathlib.Core.Logic.{◌≢◌}
use mathlib.Core.List.{[], ◌∷◌, ◌++◌}
use native.Mathlib.Omega.{arith}
use tearenv.Common.Lists.{All}
use tearenv.Common.Texts.{Text}

abbrev pub NoNul : Text → Type 0
NoNul = All (λ c. c ≢ 0)

-- The separator splits a key in one way.
pub split_nul :
    (s t : Text) {x y : Text} → NoNul s → NoNul t → s ++ 0 ∷ x ≡ t ++ 0 ∷ y → (s ≡ t) × (x ≡ y)
split_nul [] [] h k e = (refl, ground arith)
split_nul [] (b ∷ t) h (p, k) e = absurd (p (ground arith))
split_nul (a ∷ s) [] (p, h) k e = absurd (p (ground arith))
split_nul (a ∷ s) (b ∷ t) {x} {y} (p, h) (q, k) e =
    let tails : s ++ 0 ∷ x ≡ t ++ 0 ∷ y = ground arith in
    let (same, rest) = split_nul s t h k tails in (ground arith, rest)
