-- ===== src/Registration/Requests/Outcome.antt =====
-- internal/registration/store.go: the ways in which `PutAs` succeeds.
use tearenv.Common.{
  Bool, true, false, not, ◌&&◌, Text, text_eq, is_empty, none, is_some, ◌≡◌, refl, Result, ok, err,
  >>=-eq-ok, require-then, from_option, inl, inr, arith, ◌⊎◌, if-cases, text_eq_iff, sym, ap, ◌∙◌,
}
use tearenv.Authn.{Principal}
use tearenv.Api.{UserRegistration}
use tearenv.Api.Library.{Library}
use tearenv.Api.Validation.{validate, Problem}
use tearenv.Registration.Store.{
  Store, StoreError, not_found, is_not_found, is_oidc, owner, registration_owned_by, spec_eq,
  checked, get_unlocked, resource_path, no_randomness,
}
use tearenv.Registration.Store.Files.{with_file, write-eq, spec_eq_sound}
use tearenv.Registration.Requests.{
  Answers, new_resource, bound_to, save, bind_principal, take_over, settle, adopt, create, put_as,
}

module _ (lib : Library) where
  -- A valid resource that was written to the store.
  pub record Saved (r : UserRegistration) (store saved : Store) : Type 0 where
    pub valid : validate lib r ≡ ok tt
    pub path : resource_path lib (r.namespace) (r.name) ≡ ok tt
    pub result : saved ≡ with_file lib r store

  -- A resource that existed is returned as it is, is bound to the principal, or did not exist and
  -- is created.
  pub data Outcome (r : UserRegistration) (p : Principal) (store saved : Store)
      (result : UserRegistration) (created : Bool) : Type 0 where
    kept :
        get_unlocked lib store (r.namespace) (r.name) ≡ ok result
        → result.spec ≡ r.spec
        → (is_oidc p ≡ false) ⊎ (registration_owned_by result p ≡ true)
        → saved ≡ store
        → created ≡ false
        → Outcome r p store saved result created
    bound :
        (existing : UserRegistration) (identifier : Text)
        → get_unlocked lib store (r.namespace) (r.name) ≡ ok existing
        → existing.spec ≡ r.spec
        → is_oidc p ≡ true
        → owner existing ≡ none
        → result ≡ bound_to existing p identifier
        → Saved result store saved
        → created ≡ false
        → Outcome r p store saved result created
    fresh :
        (a : Answers) (identifier : Text)
        → get_unlocked lib store (r.namespace) (r.name) ≡ err not_found
        → result ≡ new_resource r p identifier (a.now)
        → Saved result store saved
        → created ≡ true
        → Outcome r p store saved result created

  checked-eq-ok : (v : Result Problem (Unit {0})) {u : Unit {0}} → checked lib v ≡ ok u → v ≡ ok tt
  checked-eq-ok (ok tt) h = refl
  checked-eq-ok (err p) h = cc

  save-Saved :
      (written : Bool) (r : UserRegistration) (store saved : Store)
      → save lib written r store ≡ ok saved
      → Saved r store saved
  unfolding save
  save-Saved written r store saved e =
      let (tt, valid, rest) = >>=-eq-ok (checked lib (validate lib r)) _ e in
      let (path, same) = write-eq lib written r store saved rest in
      record { valid = checked-eq-ok (validate lib r) valid; path = path; result = same }

  bind_principal-Saved :
      (a : Answers) (r : UserRegistration) (p : Principal) (store saved : Store)
      (b : UserRegistration)
      → bind_principal lib a r p store ≡ ok (saved, b)
      → (identifier : Text) × (b ≡ bound_to r p identifier) × Saved b store saved
  unfolding bind_principal
  bind_principal-Saved a r p store saved b e =
      let (identifier, given, rest) = >>=-eq-ok (from_option (a.identifier) no_randomness) _ e in
      let (other, done, same) =
        >>=-eq-ok (save lib (a.written) (bound_to r p identifier) store) _ rest in
      let result : bound_to r p identifier ≡ b = cc in
      let equal : other ≡ saved = cc in
      (
        identifier,
        cc,
        rw (← result, ← equal) (save-Saved (a.written) (bound_to r p identifier) store other done),
      )

  -- Both branches of `adopt` after the specs were compared.
  take_over-Outcome :
      (a : Answers) (existing r : UserRegistration) (p : Principal) (store saved : Store)
      (result : UserRegistration) (created : Bool)
      → get_unlocked lib store (r.namespace) (r.name) ≡ ok existing
      → existing.spec ≡ r.spec
      → is_oidc p ≡ true
      → take_over lib a existing p store ≡ ok (saved, result, created)
      → Outcome r p store saved result created
  unfolding take_over
  take_over-Outcome a existing r p store saved result created found spec by e =
      let (free, rest) = require-then (not (is_some (owner existing))) _ _ e in
      let ((other, b), did, same) = >>=-eq-ok (bind_principal lib a existing p store) _ rest in
      let (identifier, shape, written) = bind_principal-Saved a existing p store other b did in
      let equal : other ≡ saved = cc in
      let result_is : b ≡ result = cc in
      let outside : Saved result store saved = rw (← result_is, ← equal) written in
      bound existing identifier found spec by (ground arith) (cc) outside (cc)

  adopt-Outcome :
      (a : Answers) (existing r : UserRegistration) (p : Principal) (store saved : Store)
      (result : UserRegistration) (created : Bool)
      → get_unlocked lib store (r.namespace) (r.name) ≡ ok existing
      → adopt lib a existing r p store ≡ ok (saved, result, created)
      → Outcome r p store saved result created
  unfolding adopt
  adopt-Outcome a existing r p store saved result created found e =
      let (same, rest) = require-then (spec_eq (existing.spec) (r.spec)) _ _ e in
      let spec = spec_eq_sound (existing.spec) (r.spec) same in
      elim (if-cases (is_oidc p && not (registration_owned_by existing p)) _ _ rest) [
        | inl (foreign, took) ↦
            take_over-Outcome a existing r p store saved result created found spec (ground arith)
              took
        | inr (own, plain) ↦
            let result_is : existing ≡ result = cc in
            let owns : (is_oidc p ≡ false) ⊎ (registration_owned_by existing p ≡ true) =
              ground arith in
            kept (rw (← result_is) found) (rw (← result_is) spec) (rw (← result_is) owns) (cc) (cc)
      ]

  is_not_found_iff : (e : StoreError) → is_not_found e ≡ true → e ≡ not_found
  is_not_found_iff e h = ground arith

  create-Outcome :
      (a : Answers) (r : UserRegistration) (p : Principal) (store saved : Store)
      (result : UserRegistration) (created : Bool)
      → get_unlocked lib store (r.namespace) (r.name) ≡ err not_found
      → create lib a r p store ≡ ok (saved, result, created)
      → Outcome r p store saved result created
  unfolding create
  create-Outcome a r p store saved result created absent e =
      let (identifier, given, rest) = >>=-eq-ok (from_option (a.identifier) no_randomness) _ e in
      let (other, did, same) =
        >>=-eq-ok (save lib (a.written) (new_resource r p identifier (a.now)) store) _ rest in
      let result_is : new_resource r p identifier (a.now) ≡ result = cc in
      let equal : other ≡ saved = cc in
      let written = save-Saved (a.written) (new_resource r p identifier (a.now)) store other did in
      let outside : Saved result store saved = rw (← result_is, ← equal) written in
      fresh a identifier absent (sym result_is) outside (cc)

  settle-Outcome :
      (a : Answers) (found : Result StoreError UserRegistration) (r : UserRegistration)
      (p : Principal) (store saved : Store) (result : UserRegistration) (created : Bool)
      → get_unlocked lib store (r.namespace) (r.name) ≡ found
      → settle lib a found r p store ≡ ok (saved, result, created)
      → Outcome r p store saved result created
  unfolding settle
  settle-Outcome a (ok existing) r p store saved result created same e =
      adopt-Outcome a existing r p store saved result created same e
  settle-Outcome a (err why) r p store saved result created same e =
      elim (if-cases (is_not_found why) _ _ e) [
        | inl (absent, made) ↦
            create-Outcome a r p store saved result created
              (same ∙ ap err (is_not_found_iff why absent)) made
        | inr (broken, failed) ↦ absurd cc
      ]

  -- What a request that succeeds has checked, and what it did.
  pub put_as-Outcome :
      (a : Answers) (r : UserRegistration) (p : Principal) (store saved : Store)
      (result : UserRegistration) (created : Bool)
      → put_as lib a r p store ≡ ok (saved, result, created)
      → (validate lib r ≡ ok tt)
        × (is_oidc p ≡ true → p.identity ≡ r.spec.identity)
        × Outcome r p store saved result created
  unfolding put_as
  put_as-Outcome a r p store saved result created e =
      let (tt, valid, rest) = >>=-eq-ok (checked lib (validate lib r)) _ e in
      let (named, rest2) = require-then (not (is_empty (r.namespace))) _ _ rest in
      let (mine, rest3) =
        require-then (not (is_oidc p && not (text_eq (p.identity) (r.spec.identity)))) _ _ rest2 in
      (
        checked-eq-ok (validate lib r) valid,
        (λ by. ground (arith, text_eq_iff (p.identity) (r.spec.identity))),
        settle-Outcome a (get_unlocked lib store (r.namespace) (r.name)) r p store saved result
            created refl rest3,
      )
