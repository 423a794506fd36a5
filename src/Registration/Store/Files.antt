-- ===== src/Registration/Store/Files.antt =====
-- internal/registration/store.go: what is read after a file was written.
use tearenv.Common.{
  Bool, true, false, ◌&&◌, Text, codes, text_eq, text_eq_iff, text_eq_self, lookup, insert,
  lookup-insert_self, lookup-insert_ne, List, [], ◌∷◌, ◌≡◌, ◌≢◌, refl, ok, >>=-eq-ok, require-then,
  Option-cases, Bool-cases, inl, inr, arith, from_option,
}
use mathlib.Core.List.{append_cancel_right}
use tearenv.Api.{SshPublicKey, UserRegistrationSpec, UserRegistration}
use tearenv.Api.Library.{Library}
use tearenv.Api.Validation.{validate, validate_authenticated_principal}
use tearenv.Registration.Store.{
  Store, StoredFile, encode, keys_eq, spec_eq, file_name, directory_of, get_unlocked,
  write_unlocked, stored_file, resource_path, read_stored_file, load_user_registration, owner,
  not_found,
}

pub file_name_inj : (m n : Text) → file_name m ≡ file_name n → m ≡ n
file_name_inj m n e = append_cancel_right m n (codes ".yaml") e

-- Comparing specs.
keys_eq_sound : (js ks : List SshPublicKey) → keys_eq js ks ≡ true → js ≡ ks
unfolding keys_eq
keys_eq_sound [] [] h = refl
keys_eq_sound [] (k ∷ ks) h = cc
keys_eq_sound (j ∷ js) [] h = cc
keys_eq_sound (j ∷ js) (k ∷ ks) h =
    ground (arith, text_eq_iff (j.name) (k.name), text_eq_iff (j.key) (k.key), keys_eq_sound js ks)

pub spec_eq_sound : (a b : UserRegistrationSpec) → spec_eq a b ≡ true → a ≡ b
unfolding spec_eq
spec_eq_sound a b h =
    ground
      (arith, text_eq_iff (a.identity) (b.identity), keys_eq_sound (a.public_keys) (b.public_keys))

keys_eq_self : (ks : List SshPublicKey) → keys_eq ks ks ≡ true
unfolding keys_eq
keys_eq_self [] = refl
keys_eq_self (k ∷ ks) = rw (text_eq_self k.name, text_eq_self k.key) (keys_eq_self ks)

pub spec_eq_self : (a : UserRegistrationSpec) → spec_eq a a ≡ true
unfolding spec_eq
spec_eq_self a = rw (text_eq_self a.identity) (keys_eq_self a.public_keys)

pub owner-encode : (r : UserRegistration) → owner (encode r) ≡ owner r
unfolding encode
owner-encode r = elim (Option-cases (r.status)) [
  | inl missing ↦ rw missing refl
  | inr (s, found) ↦ rw found refl
]

module _ (lib : Library) where
  pub validate-encode : (r : UserRegistration) → validate lib (encode r) ≡ validate lib r
  unfolding validate encode validate_authenticated_principal
  validate-encode r = elim (Option-cases (r.status)) [
    | inl missing ↦ rw missing refl
    | inr (s, found) ↦ rw found refl
  ]

  pub read_stored_file-stored_file :
      (r : UserRegistration)
      → validate lib r ≡ ok tt
      → read_stored_file lib (stored_file lib r) ≡ ok (encode r)
  unfolding read_stored_file load_user_registration
  read_stored_file-stored_file r valid = rw (validate-encode r, valid) refl

  -- The store after a write.
  abbrev pub with_file : UserRegistration → Store → Store
  with_file r store = record store {
    files =
        insert (r.namespace)
          (insert (file_name (r.name)) (stored_file lib r) (directory_of store (r.namespace)))
          (store.files);
  }

  pub write-eq :
      (written : Bool) (r : UserRegistration) (store saved : Store)
      → write_unlocked lib written r store ≡ ok saved
      → (resource_path lib (r.namespace) (r.name) ≡ ok tt) × (saved ≡ with_file r store)
  unfolding write_unlocked
  write-eq written r store saved e =
      let (tt, path, rest) = >>=-eq-ok (resource_path lib (r.namespace) (r.name)) _ e in
      let (there, same) = require-then written _ _ rest in (path, ground arith)

  pub directory-with_file :
      (r : UserRegistration) (store : Store)
      → directory_of (with_file r store) (r.namespace)
        ≡ insert (file_name (r.name)) (stored_file lib r) (directory_of store (r.namespace))
  directory-with_file r store =
      rw
        (lookup-insert_self (r.namespace)
          (insert (file_name (r.name)) (stored_file lib r) (directory_of store (r.namespace)))
          (store.files))
        refl

  pub directory-with_file_ne :
      (r : UserRegistration) (store : Store) (namespace : Text)
      → r.namespace ≢ namespace
      → directory_of (with_file r store) namespace ≡ directory_of store namespace
  directory-with_file_ne r store namespace h =
      rw
        (lookup-insert_ne namespace (r.namespace)
          (insert (file_name (r.name)) (stored_file lib r) (directory_of store (r.namespace)))
          (store.files) h)
        refl

  pub get-with_file :
      (r : UserRegistration) (store : Store)
      → validate lib r ≡ ok tt
      → resource_path lib (r.namespace) (r.name) ≡ ok tt
      → get_unlocked lib (with_file r store) (r.namespace) (r.name) ≡ ok (encode r)
  unfolding get_unlocked
  get-with_file r store valid path =
      rw
        (
          path,
          directory-with_file r store,
          lookup-insert_self (file_name (r.name)) (stored_file lib r)
              (directory_of store (r.namespace)),
          read_stored_file-stored_file r valid,
        )
        refl

  -- Another resource is read as before.
  pub get-with_file_other :
      (r : UserRegistration) (store : Store) (namespace name : Text)
      → (text_eq (r.namespace) namespace && text_eq (r.name) name) ≡ false
      → get_unlocked lib (with_file r store) namespace name ≡ get_unlocked lib store namespace name
  unfolding get_unlocked
  get-with_file_other r store namespace name h =
      elim (Bool-cases (text_eq (r.namespace) namespace)) [
        | inr differs ↦
            rw
              (directory-with_file_ne r store namespace
                (ground (arith, text_eq_iff (r.namespace) namespace)))
              refl
        | inl equal ↦
            let same : r.namespace ≡ namespace =
              ground (arith, text_eq_iff (r.namespace) namespace) in
            let differ : file_name (r.name) ≢ file_name name =
              λ e. ground (arith, text_eq_iff (r.name) name, file_name_inj (r.name) name e) in
            rw
              (
                ← same,
                directory-with_file r store,
                lookup-insert_ne (file_name name) (file_name (r.name)) (stored_file lib r)
                    (directory_of store (r.namespace)) differ,
              )
              refl
      ]

  pub load-validates :
      (f : StoredFile) (r : UserRegistration)
      → read_stored_file lib f ≡ ok r
      → validate lib r ≡ ok tt
  unfolding read_stored_file load_user_registration
  load-validates f r e = ground (arith)

  pub get-validates :
      (store : Store) (namespace name : Text) (r : UserRegistration)
      → get_unlocked lib store namespace name ≡ ok r
      → (validate lib r ≡ ok tt) × (resource_path lib namespace name ≡ ok tt)
  unfolding get_unlocked
  get-validates store namespace name r e =
      let (tt, path, rest) = >>=-eq-ok (resource_path lib namespace name) _ e in
      let (f, found, read) =
        >>=-eq-ok (from_option (lookup (file_name name) (directory_of store namespace)) not_found) _
          rest in
      (load-validates f r read, path)
