-- ===== src/Blueprint/Slug/Sample.antt =====
-- A concrete `Digest` for the tests.
use tearenv.Common.{ℕ, zero, suc, refl, Text, [], ◌∷◌}
use tearenv.Blueprint.Slug.{Digest}

abbrev pub digits : ℕ → Text
digits zero = []
digits (suc n) = b'7' ∷ digits n

-- A digest of sevens.
abbrev pub sevens : Digest
sevens = record { hex = λ t. digits 64; length-hex = λ t. refl; is_hex-hex = λ t. refl }
