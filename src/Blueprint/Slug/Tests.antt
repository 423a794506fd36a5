-- ===== src/Blueprint/Slug/Tests.antt =====
-- The slug of one identity, and the theorems at it.
use tearenv.Common.{◌≡◌, refl, true, codes, text_eq, trim, some}
use tearenv.Authorization.Names.{valid_identity}
use tearenv.Blueprint.Slug.{normalize, hash_label, slug_identity}
use tearenv.Blueprint.Slug.Sample.{sevens}
use tearenv.Blueprint.Slug.Laws.{IsLabel, slug_identity-IsLabel, slug_identity-collides}

alice_slug : slug_identity sevens (codes "Alice") ≡ some (codes "alice-77777777")
unfolding slug_identity hash_label normalize trim valid_identity text_eq
alice_slug = refl

bob_slug : slug_identity sevens (codes "bob-2") ≡ some (codes "bob-2")
unfolding slug_identity hash_label normalize trim valid_identity text_eq
bob_slug = refl

slug_identity-IsLabel_example : IsLabel (codes "alice-77777777")
slug_identity-IsLabel_example =
    slug_identity-IsLabel sevens (codes "Alice") (codes "alice-77777777") alice_slug

slug_identity-collides_example :
    (valid_identity (codes "alice-77777777") ≡ true)
    × (slug_identity sevens (codes "alice-77777777") ≡ slug_identity sevens (codes "Alice"))
slug_identity-collides_example =
    slug_identity-collides sevens (codes "Alice") (codes "alice-77777777") alice_slug (λ e. cc)
