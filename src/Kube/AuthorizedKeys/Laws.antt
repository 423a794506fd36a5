-- ===== src/Kube/AuthorizedKeys/Laws.antt =====
-- internal/kube/authorized_keys.go: no key that others have written is lost.
use tearenv.Common.{
  false, is_empty, Text, Map, Option, none, some, List, [], ◌∷◌, Result, ok, err, Result-cases, inl,
  inr, Member, here, there, ◌≡◌, ◌⊎◌, refl, subst, sym, ap, ◌∙◌, arith,
}
use tearenv.Authorization.PublicKeys.{upsert_public_key}
use tearenv.Kube.Retry.{RetryOnConflict, Runs-last}
use tearenv.Kube.AuthorizedKeys.{
  ApiError, not_found, conflict, other, Secret, UpsertFailure, not_created, not_updated,
  is_conflict, SecretClient, blame, create_secret, update_secret, put_key, attempt,
  upsert_authorized_key_secret,
}

module _ (World : Type 0) where
  abbrev pub Has : List Secret → Secret → Type 0
  Has secrets s = Member (λ (t : Secret). t ≡ s) secrets

  -- The optimistic concurrency of the API server, over the contents that a secret of a name has
  -- had, the newest first: a read gives one of them, with a version, no two have one version, a
  -- creation that succeeds adds what was sent, and an update that was sent with a version and
  -- succeeds adds it next to contents of that version, and forgets none.
  pub record Optimistic (client : SecretClient World) : Type 0 where
    pub history : World → Text → List Secret
    pub get-Has :
        (name : Text) (w w' : World) (s : Secret)
        → client.get name w ≡ (w', ok s)
        → Has (history w' name) s × (is_empty (s.version) ≡ false)
    pub version_unique :
        (name : Text) (w : World) (s t : Secret)
        → Has (history w name) s
        → Has (history w name) t
        → s.version ≡ t.version
        → s ≡ t
    pub create-adds :
        (name : Text) (w w' : World) (s : Secret)
        → client.create name s w ≡ (w', ok tt)
        → (new : Secret) × (earlier : List Secret) × (new.keys ≡ s.keys)
          × (history w' name ≡ new ∷ earlier)
    pub update-adds :
        (name : Text) (w w' : World) (s : Secret)
        → is_empty (s.version) ≡ false
        → client.update name s w ≡ (w', ok tt)
        → (new was : Secret) × (earlier : List Secret) × (new.keys ≡ s.keys)
          × (was.version ≡ s.version)
          × (history w' name ≡ new ∷ was ∷ earlier)
          × ((t : Secret) → Has (history w name) t → Has (was ∷ earlier) t)

  blame-ok :
      (failure : ApiError → UpsertFailure) (r : World × Result ApiError (Unit {0})) (w' : World)
      → blame World failure r ≡ (w', ok tt)
      → r ≡ (w', ok tt)
  blame-ok failure (w, ok u) w' e = cc
  blame-ok failure (w, err f) w' e = cc

  module _ (client : SecretClient World) (server : Optimistic client)
      (authorized : Text → Option (Text × Text)) (line : Text → Text) (name identity : Text)
      (key : Option Text) where
    -- A secret that was not there when it was read, and was created with the upsert of no document.
    pub record IsCreated (document : Map (List Text)) (w' : World) : Type 0 where
      pub before : World
      pub between : World
      pub absent : client.get name before ≡ (between, err not_found)
      pub created :
          client.create name
            (record { version = []; keys = some (some document); rest = [] })
            between
          ≡ (w', ok tt)
      pub upserted : upsert_public_key authorized line none identity key ≡ ok document

    -- Contents that take the place of others, of which they hold the upsert.
    pub record IsReplaced (document : Map (List Text)) (earlier : List Secret) : Type 0 where
      pub was : Secret
      pub older : List Secret
      pub order : earlier ≡ was ∷ older
      pub upserted : upsert_public_key authorized line (was.keys) identity key ≡ ok document

    -- The newest contents are those of a new secret, or an upsert of those they replaced.
    pub record IsUpserted (w' : World) : Type 0 where
      pub new : Secret
      pub earlier : List Secret
      pub order : server.history w' name ≡ new ∷ earlier
      pub document : Map (List Text)
      pub keys : new.keys ≡ some (some document)
      pub upserted : IsCreated document w' ⊎ IsReplaced document earlier

    create_secret-IsUpserted :
        (before w w' : World)
        → client.get name before ≡ (w, err not_found)
        → create_secret World authorized line client name identity key w ≡ (w', ok tt)
        → IsUpserted w'
    unfolding create_secret
    create_secret-IsUpserted before w w' absent e =
        elim (Result-cases (upsert_public_key authorized line none identity key)) [
          | inl (why, refused) ↦ absurd (ground arith)
          | inr (d, made) ↦
              let sent : Secret = record { version = []; keys = some (some d); rest = [] } in
              let done = blame-ok not_created (client.create name sent w) w' (ground arith) in
              let (new, earlier, same, order) = server.create-adds name w w' sent done in
              record {
                new = new;
                earlier = earlier;
                order = order;
                document = d;
                keys = same;
                upserted = inl (record {
                  before = before;
                  between = w;
                  absent = absent;
                  created = done;
                  upserted = made;
                });
              }
        ]

    update_secret-IsUpserted :
        (s : Secret) (w w' : World)
        → Has (server.history w name) s
        → is_empty (s.version) ≡ false
        → update_secret World authorized line client name identity key s w ≡ (w', ok tt)
        → IsUpserted w'
    unfolding update_secret
    update_secret-IsUpserted s w w' held versioned e =
        elim (Result-cases (upsert_public_key authorized line (s.keys) identity key)) [
          | inl (why, refused) ↦ absurd (ground arith)
          | inr (d, made) ↦
              let sent : Secret = record s { keys = some (some d) } in
              let done = blame-ok not_updated (client.update name sent w) w' (ground arith) in
              let (new, was, older, same, version, order, kept) =
                server.update-adds name w w' sent versioned done in
              let whole =
                server.version_unique name w' was s
                  (subst (λ l. Has l was) (sym order) (there (here refl)))
                  (subst (λ l. Has l s) (sym order) (there (kept s held))) version in
              record {
                new = new;
                earlier = was ∷ older;
                order = order;
                document = d;
                keys = same;
                upserted = inr (record {
                  was = was;
                  older = older;
                  order = refl;
                  upserted =
                      ap (λ (t : Secret). upsert_public_key authorized line (t.keys) identity key)
                        whole
                      ∙ made;
                });
              }
        ]

    put_key-IsUpserted :
        (w : World) (r : World × Result ApiError Secret) (w' : World)
        → client.get name w ≡ r
        → put_key World authorized line client name identity key r ≡ (w', ok tt)
        → IsUpserted w'
    unfolding put_key
    put_key-IsUpserted w (v, ok s) w' read e =
        let (held, versioned) = server.get-Has name w v s read in
        update_secret-IsUpserted s v w' held versioned e
    put_key-IsUpserted w (v, err not_found) w' read e = create_secret-IsUpserted w v w' read e
    put_key-IsUpserted w (v, err conflict) w' read e = cc
    put_key-IsUpserted w (v, err other) w' read e = cc

    -- Whatever others write in between, on a server with optimistic concurrency: an upsert that
    -- succeeds leaves as the newest document the upsert of the very document that it replaced, or
    -- it created a secret that was not there when it was read, with the upsert of no document.
    pub upsert_authorized_key_secret-IsUpserted :
        (retries : RetryOnConflict World UpsertFailure is_conflict) (w w' : World)
        → upsert_authorized_key_secret World retries authorized line
            (some client)
            name
            identity
            key
            w
          ≡ (w', ok tt)
        → IsUpserted w'
    unfolding upsert_authorized_key_secret attempt
    upsert_authorized_key_secret-IsUpserted retries w w' e =
        let step = attempt World authorized line client name identity key in
        let (at, same) =
          Runs-last World UpsertFailure is_conflict step w (retries.retry step w)
            (retries.retry-Runs step w) in
        put_key-IsUpserted at (client.get name at) w' refl (same ∙ e)
