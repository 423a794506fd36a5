-- ===== src/Authorization/PublicKeys/Laws/Tests.antt =====
-- A second key for an identity.
use tearenv.Common.{
  true, Text, codes, text_eq, trim, trim_left, trim_right, trim_space, Map, lookup, insert, Option,
  none, some, option_or, List, [], ◌∷◌, is_empty, if◌then◌else◌, ok, ◌≡◌, ◌≢◌, refl,
}
use tearenv.Authorization.Names.{valid_identity}
use tearenv.Authorization.PublicKeys.{contains_key, upsert_public_key, parse_public_key}
use tearenv.Authorization.PublicKeys.Laws.{upsert_public_key_lem}

abbrev whole : Text → Option (Text × Text)
whole t = if is_empty t then none else some (t, [])

abbrev same : Text → Text
same t = t

abbrev before : Map (List Text)
before = (codes "alice", codes "k1" ∷ []) ∷ []

abbrev after : Map (List Text)
after = (codes "alice", codes "k1" ∷ codes "k2" ∷ []) ∷ []

key_added :
    upsert_public_key whole same (some (some before)) (codes "alice") (some (codes "k2")) ≡ ok after
unfolding upsert_public_key contains_key parse_public_key valid_identity lookup insert text_eq
    trim_space trim trim_left trim_right
key_added = refl

reads_back : whole (trim_space (codes "k2")) ≡ some (codes "k2", [])
unfolding trim_space trim trim_left trim_right
reads_back = refl

upsert_public_key_lem_example :
    (contains_key whole same (codes "k2") (option_or (lookup (codes "alice") after) []) ≡ ok true)
    × (upsert_public_key whole same (some (some after)) (codes "alice") (some (codes "k2"))
        ≡ ok after)
    × ((other : Text) → codes "alice" ≢ other → lookup other after ≡ lookup other before)
upsert_public_key_lem_example =
    upsert_public_key_lem whole same before after (codes "alice") (codes "k2") reads_back key_added
