-- ===== src/Kube/AuthorizedKeys/Tests.antt =====
-- A server that keeps all contents of one secret, and a second key that is added to it.
use tearenv.Common.{
  false, ℕ, suc, ◌<◌, Text, codes, text_eq, text_eq_iff, trim, trim_left, trim_right, trim_space,
  Map, lookup, insert, Option, none, some, List, [], ◌∷◌, length, is_empty, if◌then◌else◌, Result,
  ok, err, if-cases, inl, inr, here, there, ◌≡◌, refl, sym, ap, ◌∙◌, subst, arith,
}
use tearenv.Authorization.Names.{valid_identity}
use tearenv.Authorization.PublicKeys.{upsert_public_key, contains_key, parse_public_key}
use tearenv.Kube.Retry.{RetryOnConflict, Runs, last}
use tearenv.Kube.AuthorizedKeys.{
  ApiError, not_found, conflict, other, Secret, UpsertFailure, is_conflict, SecretClient, Outcome,
  update_secret, put_key, attempt, upsert_authorized_key_secret,
}
use tearenv.Kube.AuthorizedKeys.Laws.{
  Has, Optimistic, IsUpserted, upsert_authorized_key_secret-IsUpserted,
}

abbrev World : Type 0
World = List (Option (Option (Map (List Text))))

abbrev numbered : ℕ → Option (Option (Map (List Text))) → Secret
numbered n p = record { version = n ∷ []; keys = p; rest = [] }

abbrev number : World → List Secret
number [] = []
number (p ∷ ps) = numbered (length ps) p ∷ number ps

abbrev get : Text → World → World × Result ApiError Secret
get name [] = ([], err not_found)
get name (p ∷ ps) = (p ∷ ps, ok (numbered (length ps) p))

abbrev create : Text → Secret → World → World × Result ApiError (Unit {0})
create name s [] = (s.keys ∷ [], ok tt)
create name s (p ∷ ps) = (p ∷ ps, err other)

abbrev update : Text → Secret → World → World × Result ApiError (Unit {0})
update name s [] = ([], err not_found)
update name s (p ∷ ps) =
    if text_eq s.version (length ps ∷ []) then (s.keys ∷ p ∷ ps, ok tt) else (p ∷ ps, err conflict)

abbrev client : SecretClient World
client = record { get = get; create = create; update = update }

get-Has :
    (name : Text) (w w' : World) (s : Secret)
    → get name w ≡ (w', ok s)
    → Has World (number w') s × (is_empty (s.version) ≡ false)
get-Has name [] w' s e = cc
get-Has name (p ∷ ps) w' s e =
    let kept : p ∷ ps ≡ w' = cc in
    let read : numbered (length ps) p ≡ s = cc in
    (
      subst (λ v. Has World (number v) s) kept (here read),
      subst (λ (t : Secret). is_empty (t.version) ≡ false) read refl,
    )

below :
    (w : World) (s : Secret)
    → Has World (number w) s
    → (n : ℕ) × (s.version ≡ n ∷ []) × (n < length w)
below [] s h = elim h [ ]
below (p ∷ ps) s (here same) = (length ps, ap (λ (t : Secret). t.version) (sym same), omega arith)
below (p ∷ ps) s (there h) =
    let (n, version, small) = below ps s h in (n, version, omega (arith, small))

head-tail :
    (p : Option (Option (Map (List Text)))) (ps : World) (s t : Secret)
    → numbered (length ps) p ≡ s
    → Has World (number ps) t
    → s.version ≡ t.version
    → ⊥
head-tail p ps s t same h e =
    let (n, version, small) = below ps t h in
    let equal : length ps ∷ [] ≡ n ∷ [] = ap (λ (x : Secret). x.version) same ∙ e ∙ version in
    let numbers : length ps ≡ n = cc in omega (arith, numbers, small)

version_unique :
    (w : World) (s t : Secret)
    → Has World (number w) s
    → Has World (number w) t
    → s.version ≡ t.version
    → s ≡ t
version_unique [] s t h k e = elim h [ ]
version_unique (p ∷ ps) s t (here a) (here b) e = sym a ∙ b
version_unique (p ∷ ps) s t (here a) (there k) e = absurd (head-tail p ps s t a k e)
version_unique (p ∷ ps) s t (there h) (here b) e = absurd (head-tail p ps t s b h (sym e))
version_unique (p ∷ ps) s t (there h) (there k) e = version_unique ps s t h k e

create-adds :
    (name : Text) (w w' : World) (s : Secret)
    → create name s w ≡ (w', ok tt)
    → (new : Secret) × (earlier : List Secret) × (new.keys ≡ s.keys) × (number w' ≡ new ∷ earlier)
create-adds name [] w' s e =
    let made : s.keys ∷ [] ≡ w' = cc in (numbered 0 (s.keys), [], refl, ap number (sym made))
create-adds name (p ∷ ps) w' s e = cc

update-adds :
    (name : Text) (w w' : World) (s : Secret)
    → is_empty (s.version) ≡ false
    → update name s w ≡ (w', ok tt)
    → (new was : Secret) × (earlier : List Secret) × (new.keys ≡ s.keys)
      × (was.version ≡ s.version)
      × (number w' ≡ new ∷ was ∷ earlier)
      × ((t : Secret) → Has World (number w) t → Has World (was ∷ earlier) t)
update-adds name [] w' s v e = cc
update-adds name (p ∷ ps) w' s v e = elim (if-cases (text_eq (s.version) (length ps ∷ [])) _ _ e) [
  | inr (stale, failed) ↦ absurd cc
  | inl (fresh, done) ↦
      let made : s.keys ∷ p ∷ ps ≡ w' = cc in
      (
        numbered (suc (length ps)) (s.keys),
        numbered (length ps) p,
        number ps,
        refl,
        sym ((text_eq_iff (s.version) (length ps ∷ [])).0 fresh),
        ap number (sym made),
        λ t h. h,
      )
]

abbrev server : Optimistic World client
server = record {
  history = λ w name. number w;
  get-Has = get-Has;
  version_unique = λ name w. version_unique w;
  create-adds = create-adds;
  update-adds = update-adds;
}

once : (f : World → Outcome World) (w : World) → Runs World UpsertFailure is_conflict f w (f w)
once f w = last w

abbrev retries : RetryOnConflict World UpsertFailure is_conflict
retries = record { retry = λ f w. f w; retry-Runs = once }

abbrev whole : Text → Option (Text × Text)
whole t = if is_empty t then none else some (t, [])

abbrev same : Text → Text
same t = t

abbrev before : World
before = some (some ((codes "bob", codes "k1" ∷ []) ∷ [])) ∷ []

abbrev after : World
after =
    some (some ((codes "bob", codes "k1" ∷ []) ∷ (codes "alice", codes "k2" ∷ []) ∷ [])) ∷ before

alice_added :
    upsert_authorized_key_secret World retries whole same
      (some client)
      (codes "keys")
      (codes "alice")
      (some (codes "k2"))
      before
    ≡ (after, ok tt)
unfolding upsert_authorized_key_secret attempt put_key update_secret upsert_public_key contains_key
    parse_public_key valid_identity lookup insert text_eq trim_space trim trim_left trim_right
alice_added = refl

upsert_authorized_key_secret-IsUpserted_example :
    IsUpserted World client server whole same
      (codes "keys")
      (codes "alice")
      (some (codes "k2"))
      after
upsert_authorized_key_secret-IsUpserted_example =
    upsert_authorized_key_secret-IsUpserted World client server whole same (codes "keys")
      (codes "alice") (some (codes "k2")) retries before after alice_added
