-- ===== src/Authorization/PublicKeys/Laws.antt =====
-- internal/authorization/public_keys.go: what `UpsertPublicKey` leaves behind.
mod Tests
use tearenv.Common.{
  Bool, true, false, Text, text_eq, text_eq_self, trim_space, Map, lookup, insert,
  lookup-insert_self, lookup-insert_ne, Option, none, some, option_or, List, [], ◌∷◌, ◌++◌,
  is_empty, if◌then◌else◌, Result, ok, err, ◌>>=◌, ◌>>◌, require, require-then, >>=-eq-ok,
  from_option, from_option-eq-ok, ◌≡◌, ◌≢◌, refl, arith, if-cases, inl, inr, sym,
}
use tearenv.Authorization.Names.{valid_identity}
use tearenv.Authorization.PublicKeys.{
  KeysError, parse_public_key, contains_key, upsert_public_key, key_required, undecodable,
}

module _ (authorized : Text → Option (Text × Text)) (line : Text → Text) where
  contains_key-append :
      (key : Text) (values : List Text)
      → authorized (trim_space (line key)) ≡ some (key, [])
      → contains_key authorized line key values ≡ ok false
      → contains_key authorized line key (values ++ trim_space (line key) ∷ []) ≡ ok true
  unfolding contains_key parse_public_key trim_space
  contains_key-append key [] back e = rw (back, text_eq_self key) refl
  contains_key-append key (value ∷ values) back e =
      let (candidate, parsed, rest) = >>=-eq-ok (parse_public_key authorized line value) _ e in
      elim (if-cases (text_eq candidate key) _ _ rest) [
        | inl (same, found) ↦ absurd cc
        | inr (differs, later) ↦ rw (parsed, differs) (contains_key-append key values back later)
      ]

  -- The document after an upsert, for a key whose line is read back as that key: the identity has
  -- the key, a second upsert of it changes nothing, and the keys of every other identity are what
  -- they were.
  pub upsert_public_key_lem :
      (document new : Map (List Text)) (identity key : Text)
      → authorized (trim_space (line key)) ≡ some (key, [])
      → upsert_public_key authorized line (some (some document)) identity (some key) ≡ ok new
      → (contains_key authorized line key (option_or (lookup identity new) []) ≡ ok true)
        × (upsert_public_key authorized line (some (some new)) identity (some key) ≡ ok new)
        × ((other : Text) → identity ≢ other → lookup other new ≡ lookup other document)
  unfolding upsert_public_key
  upsert_public_key_lem document new identity key back e =
      let (named, rest) = require-then (valid_identity identity) _ _ e in
      let existing = option_or (lookup identity document) [] in
      let (found, looked, last) = >>=-eq-ok (contains_key authorized line key existing) _ rest in
      elim (if-cases found _ _ last) [
        | inl (there, same) ↦
            let kept : document ≡ new = cc in
            let has : contains_key authorized line key existing ≡ ok true = cc in
            rw (← kept) (has, rw (named, has) refl, λ other differs. refl)
        | inr (missing, same) ↦
            let added = existing ++ trim_space (line key) ∷ [] in
            let grown : insert identity added document ≡ new = cc in
            let lacks : contains_key authorized line key existing ≡ ok false = cc in
            let has = contains_key-append key existing back lacks in
            let here_ = lookup-insert_self identity added document in
            rw (← grown) (
              rw here_ has,
              rw (named, here_, has) refl,
              λ other differs. lookup-insert_ne other identity added document differs,
            )
      ]
