-- ===== src/Registration/Requests/Keys.antt =====
-- internal/registration/store.go: which keys `Authenticate` and `PublicKey` accept.
use tearenv.Common.{
  Bool, true, false, not, ◌&&◌, Text, text_eq, text_eq_iff, Map, some, List, [], ◌∷◌, ◌≡◌, refl,
  sym, ok, >>=-eq-ok, from_option, from_option-eq-ok, inl, inr, if-cases, arith, Member,
  Option-cases, here, there, subst,
}
use tearenv.Authorization.Providers.{Attempt, PublicKey, Verified, offered_key}
use tearenv.Api.{UserRegistration, SshPublicKey}
use tearenv.Api.Library.{Library}
use tearenv.Api.Validation.{accepted}
use tearenv.Registration.Store.{Store, StoredFile, read_stored_file, directory_of, bad_stored_key}
use tearenv.Registration.Requests.{
  match_keys, match_registrations, authenticate, authenticate_key, list, list_files, is_directory,
  has_yaml_extension, verified,
}

module _ (lib : Library) where
  -- A key whose text is the given wire form.
  pub record Carries (wire : Text) (k : SshPublicKey) : Type 0 where
    pub rest : Text
    pub parsed : lib.parse_authorized_key (k.key) ≡ some (wire, rest)

  -- A registration that lets in an identity by a key.
  pub record Admits (identity wire : Text) (r : UserRegistration) : Type 0 where
    pub for : r.spec.identity ≡ identity
    pub is_accepted : accepted lib r ≡ true
    pub by : Member (Carries wire) (r.spec.public_keys)

  -- A file of the namespace that is such a registration.
  pub record Files (identity wire : Text) (entry : Text × StoredFile) : Type 0 where
    pub extension : has_yaml_extension lib (entry.0) ≡ true
    pub registration : UserRegistration
    pub read : read_stored_file lib (entry.1) ≡ ok registration
    pub admits : Admits identity wire registration

  match_keys-Member :
      (wire : Text) (ks : List SshPublicKey)
      → match_keys lib wire ks ≡ ok true
      → Member (Carries wire) ks
  unfolding match_keys
  match_keys-Member wire [] e = cc
  match_keys-Member wire (k ∷ ks) e =
      let ((candidate, rest), parsed, then_) =
        >>=-eq-ok (from_option (lib.parse_authorized_key (k.key)) bad_stored_key) _ e in
      elim (if-cases (text_eq candidate wire) _ _ then_) [
        | inl (same, done) ↦
            let equal : candidate ≡ wire = ground (arith, text_eq_iff candidate wire) in
            here (record {
              rest = rest;
              parsed =
                  rw (← equal)
                    (from_option-eq-ok (lib.parse_authorized_key (k.key)) bad_stored_key parsed);
            })
        | inr (differs, later) ↦ there (match_keys-Member wire ks later)
      ]

  match_registrations-Member :
      (identity wire : Text) (rs : List UserRegistration)
      → match_registrations lib identity wire rs ≡ ok true
      → Member (Admits identity wire) rs
  unfolding match_registrations
  match_registrations-Member identity wire [] e = cc
  match_registrations-Member identity wire (r ∷ rs) e =
      elim (if-cases (not (text_eq (r.spec.identity) identity && accepted lib r)) _ _ e) [
        | inl (skipped, later) ↦ there (match_registrations-Member identity wire rs later)
        | inr (tried, then_) ↦
            let (hit, matched, rest) =
              >>=-eq-ok (match_keys lib wire (r.spec.public_keys)) _ then_ in
            elim (if-cases hit _ _ rest) [
              | inl (same, done) ↦
                  let right : match_keys lib wire (r.spec.public_keys) ≡ ok true = cc in
                  here (record {
                    for = ground (arith, text_eq_iff (r.spec.identity) identity);
                    is_accepted = ground arith;
                    by = match_keys-Member wire (r.spec.public_keys) right;
                  })
              | inr (differs, later) ↦ there (match_registrations-Member identity wire rs later)
            ]
      ]

  list_files-Member :
      (identity wire : Text) (entries : Map StoredFile) (rs : List UserRegistration)
      → list_files lib entries ≡ ok rs
      → Member (Admits identity wire) rs
      → Member (Files identity wire) entries
  unfolding list_files
  list_files-Member identity wire [] rs e m =
      let none_ : [] ≡ rs = cc in elim (subst (Member (Admits identity wire)) (sym none_) m) [ ]
  list_files-Member identity wire ((name, f) ∷ entries) rs e m =
      elim (if-cases (is_directory lib (f.kind)) _ _ e) [
        | inl (folder, later) ↦ there (list_files-Member identity wire entries rs later m)
        | inr (file, rest) ↦ elim (if-cases (not (has_yaml_extension lib name)) _ _ rest) [
          | inl (foreign, later) ↦ there (list_files-Member identity wire entries rs later m)
          | inr (yaml, rest2) ↦
              let (r, read, rest3) = >>=-eq-ok (read_stored_file lib f) _ rest2 in
              let (others, listed, same) = >>=-eq-ok (list_files lib entries) _ rest3 in
              let parts : (r ∷ others) ≡ rs = cc in
              elim (subst (Member (Admits identity wire)) (sym parts) m) [
                | here admits ↦ here (record {
                  extension = ground arith;
                  registration = r;
                  read = read;
                  admits = admits;
                })
                | there later ↦ there (list_files-Member identity wire entries others listed later)
              ]
        ]
      ]

  verified-some :
      (attempt : Attempt) (found : Bool) (v : Verified)
      → verified lib attempt found ≡ some v
      → (found ≡ true) × (v.identity ≡ attempt.identity)
  verified-some attempt true v e = (refl, cc)
  verified-some attempt false v e = cc

  authenticate_key-Member :
      (store : Store) (attempt : Attempt) (key : PublicKey) (v : Verified)
      → authenticate_key lib store attempt key ≡ ok (some v)
      → (v.identity ≡ attempt.identity)
        × Member
            (Files (attempt.identity) (key.wire))
            (directory_of store (store.authentication_namespace))
  unfolding authenticate_key list
  authenticate_key-Member store attempt key v e =
      let (registrations, listed, rest) =
        >>=-eq-ok (list lib store (store.authentication_namespace)) _ e in
      let (found, matched, last) =
        >>=-eq-ok (match_registrations lib (attempt.identity) (key.wire) registrations) _ rest in
      let given : verified lib attempt found ≡ some v = cc in
      let (hit, same) = verified-some attempt found v given in
      let right : match_registrations lib (attempt.identity) (key.wire) registrations ≡ ok true =
        cc in
      (
        same,
        list_files-Member (attempt.identity) (key.wire)
            (directory_of store (store.authentication_namespace)) registrations listed
            (match_registrations-Member (attempt.identity) (key.wire) registrations right),
      )

  -- The store lets in only the identity that was asked for, only by a public key, and only if a
  -- file of its authentication namespace is an accepted registration of that identity with that
  -- key.
  pub authenticate-Member :
      (store : Store) (attempt : Attempt) (v : Verified)
      → authenticate lib store attempt ≡ ok (some v)
      → (key : PublicKey) × (offered_key attempt ≡ some key)
        × (v.identity ≡ attempt.identity)
        × Member
            (Files (attempt.identity) (key.wire))
            (directory_of store (store.authentication_namespace))
  unfolding authenticate
  authenticate-Member store attempt v e = elim (Option-cases (offered_key attempt)) [
    | inl missing ↦ ground arith
    | inr (key, found) ↦
        let tried : authenticate_key lib store attempt key ≡ ok (some v) = ground arith in
        let (same, listed) = authenticate_key-Member store attempt key v tried in
        (key, found, same, listed)
  ]
