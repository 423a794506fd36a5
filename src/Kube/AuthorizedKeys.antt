-- ===== src/Kube/AuthorizedKeys.antt =====
-- internal/kube/authorized_keys.go: the update of the secret of public keys. The state of the
-- cluster is passed through the calls of the client, which may change it in any way.
pub mod Laws
mod Tests
use tearenv.Common.{
  Bool, true, false, not, Text, is_empty, Map, Option, none, some, List, [], Result, ok, err, ◌>>=◌,
  ◌>>◌, require, if◌then◌else◌,
}
use tearenv.Authorization.PublicKeys.{KeysError, upsert_public_key}
use tearenv.Kube.Retry.{RetryOnConflict}

pub data ApiError : Type 0 where
  not_found conflict other : ApiError

-- A `corev1.Secret`: its resource version, the document in its data, which may be missing or not
-- decode, and all else of it.
pub record Secret : Type 0 where
  pub version : Text
  pub keys : Option (Option (Map (List Text)))
  pub rest : Text

-- The errors; those of the API keep their reason.
pub data UpsertFailure : Type 0 where
  no_client : UpsertFailure
  not_upserted : KeysError → UpsertFailure
  not_read not_created not_updated : ApiError → UpsertFailure

-- `IsConflict`, which looks through wrapped errors.
abbrev pub is_conflict : UpsertFailure → Bool
is_conflict (not_read conflict) = true
is_conflict (not_created conflict) = true
is_conflict (not_updated conflict) = true
is_conflict _ = false

-- The fields of `AuthorizedKeyOptions` that are checked.
abbrev pub good_options : Text → Text → Bool
good_options namespace secret = if is_empty namespace then false else not (is_empty secret)

module _ (World : Type 0) where
  -- `secretClient`.
  pub record SecretClient : Type 0 where
    pub get : Text → World → World × Result ApiError Secret
    pub create : Text → Secret → World → World × Result ApiError (Unit {0})
    pub update : Text → Secret → World → World × Result ApiError (Unit {0})

  abbrev pub Outcome : Type 0
  Outcome = World × Result UpsertFailure (Unit {0})

  abbrev pub blame : (ApiError → UpsertFailure) → World × Result ApiError (Unit {0}) → Outcome
  blame failure (w, ok u) = (w, ok u)
  blame failure (w, err e) = (w, err (failure e))

  module _ (authorized : Text → Option (Text × Text)) (line : Text → Text) (client : SecretClient)
      (name identity : Text) (key : Option Text) where
    -- The branch for a secret that does not exist.
    unfoldable pub create_secret : World → Outcome
    create_secret w = elim (upsert_public_key authorized line none identity key) [
      | err e ↦ (w, err (not_upserted e))
      | ok d ↦
          blame not_created
            (client.create name (record { version = []; keys = some (some d); rest = [] }) w)
    ]

    -- The branch for a secret that was read.
    unfoldable pub update_secret : Secret → World → Outcome
    update_secret s w = elim (upsert_public_key authorized line (s.keys) identity key) [
      | err e ↦ (w, err (not_upserted e))
      | ok d ↦ blame not_updated (client.update name (record s { keys = some (some d) }) w)
    ]

    unfoldable pub put_key : World × Result ApiError Secret → Outcome
    unfolding create_secret update_secret
    put_key (w, ok s) = update_secret s w
    put_key (w, err not_found) = create_secret w
    put_key (w, err conflict) = (w, err (not_read conflict))
    put_key (w, err other) = (w, err (not_read other))

    -- The closure that is retried.
    unfoldable pub attempt : World → Outcome
    unfolding put_key
    attempt w = put_key (client.get name w)

  -- `UpsertAuthorizedKeySecret`; the client may be nil.
  unfoldable pub upsert_authorized_key_secret :
      RetryOnConflict World UpsertFailure is_conflict
      → (Text → Option (Text × Text))
      → (Text → Text)
      → Option SecretClient
      → Text
      → Text
      → Option Text
      → World
      → Outcome
  unfolding attempt
  upsert_authorized_key_secret retries authorized line none name identity key w = (w, err no_client)
  upsert_authorized_key_secret retries authorized line (some client) name identity key w =
      retries.retry (attempt authorized line client name identity key) w
