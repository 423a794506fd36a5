-- ===== src/Registration/Requests/Retry.antt =====
-- internal/registration/store.go: what a principal reads after its `PutAs`, and repeating it.
use tearenv.Common.{
  Bool, true, false, not, ◌&&◌, Text, text_eq_self, is_empty, some, ◌≡◌, refl, ap, ◌∙◌, ok,
  require-then, >>=-eq-ok, ◌⊎◌, inl, inr, arith, Bool-cases, text_eq,
}
use tearenv.Authn.{Principal}
use tearenv.Api.{UserRegistration}
use tearenv.Api.Library.{Library}
use tearenv.Api.Validation.{validate}
use tearenv.Registration.Store.{
  Store, is_oidc, owner, registration_owned_by, get_unlocked, encode, authenticated_principal,
  checked,
}
use tearenv.Registration.Store.Files.{owner-encode, spec_eq_self, get-with_file}
use tearenv.Registration.Requests.{Answers, new_resource, bound_to, put_as, get_as, settle, adopt}
use tearenv.Registration.Requests.Outcome.{Outcome, kept, bound, fresh, Saved, put_as-Outcome}
use tearenv.Registration.Requests.Ownership.{IsFiled, bound_to-path, new_resource-path, spec-encode}

-- What the guard of `GetAs` and of `PutAs` tests.
may_use-passes :
    (r : UserRegistration) (p : Principal)
    → (is_oidc p ≡ false) ⊎ (registration_owned_by r p ≡ true)
    → (is_oidc p && not (registration_owned_by r p)) ≡ false
may_use-passes r p (inl h) = ground arith
may_use-passes r p (inr h) = ground arith

authenticated_principal-same :
    (r : UserRegistration) (p : Principal)
    → is_oidc p ≡ true
    → owner r ≡ some (authenticated_principal p)
    → registration_owned_by r p ≡ true
unfolding registration_owned_by authenticated_principal text_eq
authenticated_principal-same r p by e =
    rw (by, e, text_eq_self (p.issuer), text_eq_self (p.subject)) refl

module _ (lib : Library) where
  -- A resource that the principal may use, at the path of a request.
  pub record Seen (r : UserRegistration) (p : Principal) (saved : Store) : Type 0 where
    pub seen : UserRegistration
    pub found : get_unlocked lib saved (r.namespace) (r.name) ≡ ok seen
    pub same_spec : seen.spec ≡ r.spec
    pub may_use : (is_oidc p ≡ false) ⊎ (registration_owned_by seen p ≡ true)

  Saved-get :
      (r result : UserRegistration) (store saved : Store)
      → Saved lib result store saved
      → result.namespace ≡ r.namespace
      → result.name ≡ r.name
      → get_unlocked lib saved (r.namespace) (r.name) ≡ ok (encode result)
  Saved-get r result store saved s one two =
      rw (← one, ← two, s.result) (get-with_file lib result store (s.valid) (s.path))

  owner-bound_to :
      (r : UserRegistration) (p : Principal) (identifier : Text)
      → owner (encode (bound_to r p identifier)) ≡ some (authenticated_principal p)
  unfolding bound_to
  owner-bound_to r p identifier = owner-encode (bound_to r p identifier) ∙ refl

  may_use-new :
      (a : Answers) (r : UserRegistration) (p : Principal) (identifier : Text)
      → (is_oidc p ≡ false)
        ⊎ (registration_owned_by (encode (new_resource r p identifier (a.now))) p ≡ true)
  unfolding new_resource
  may_use-new a r p identifier = elim (Bool-cases (is_oidc p)) [
    | inl by ↦
        let owned : owner (new_resource r p identifier (a.now)) ≡ some (authenticated_principal p) =
          rw by refl in
        inr (
          authenticated_principal-same _ p by
            (owner-encode (new_resource r p identifier (a.now)) ∙ owned))
    | inr plain ↦ inl plain
  ]

  spec-bound_to :
      (r : UserRegistration) (p : Principal) (identifier : Text)
      → (bound_to r p identifier).spec ≡ r.spec
  unfolding bound_to
  spec-bound_to r p identifier = refl

  spec-new_resource :
      (a : Answers) (r : UserRegistration) (p : Principal) (identifier : Text)
      → (new_resource r p identifier (a.now)).spec ≡ r.spec
  unfolding new_resource
  spec-new_resource a r p identifier = refl

  Outcome-Seen :
      (r : UserRegistration) (p : Principal) (store saved : Store) (result : UserRegistration)
      (created : Bool)
      → IsFiled lib store
      → Outcome lib r p store saved result created
      → Seen r p saved
  unfolding IsFiled
  Outcome-Seen r p store saved result created filed (kept found spec own same c) = record {
    seen = result;
    found = rw same found;
    same_spec = spec;
    may_use = own;
  }
  Outcome-Seen r p store saved result created filed
        (bound existing identifier found spec by free shape s c) =
      let (one, two) = filed (r.namespace) (r.name) existing found in
      let (three, four) = bound_to-path lib existing p identifier in
      record {
        seen = encode result;
        found = Saved-get r result store saved s (cc) (cc);
        same_spec =
            spec-encode result
            ∙ ap (λ x. x.spec) shape
            ∙ spec-bound_to existing p identifier
            ∙ spec;
        may_use = inr (
            authenticated_principal-same (encode result) p by
              (rw shape (owner-bound_to existing p identifier)));
      }
  Outcome-Seen r p store saved result created filed (fresh a identifier absent shape s c) =
      let (three, four) = new_resource-path lib a r p identifier in
      record {
        seen = encode result;
        found = Saved-get r result store saved s (cc) (cc);
        same_spec =
            spec-encode result ∙ ap (λ x. x.spec) shape ∙ spec-new_resource a r p identifier;
        may_use = rw shape (may_use-new a r p identifier);
      }

  pub get_as-put_as :
      (a : Answers) (r : UserRegistration) (p : Principal) (store saved : Store)
      (result : UserRegistration) (created : Bool)
      → IsFiled lib store
      → put_as lib a r p store ≡ ok (saved, result, created)
      → (seen : UserRegistration) × (get_as lib saved (r.namespace) (r.name) p ≡ ok seen)
        × (seen.spec ≡ r.spec)
        × (is_oidc p ≡ true
            → (p.identity ≡ r.spec.identity) × (registration_owned_by seen p ≡ true))
  unfolding get_as
  get_as-put_as a r p store saved result created filed e =
      let (valid, mine, outcome) = put_as-Outcome lib a r p store saved result created e in
      let s = Outcome-Seen r p store saved result created filed outcome in
      let passes = may_use-passes (s.seen) p (s.may_use) in
      let owns : is_oidc p ≡ true → registration_owned_by (s.seen) p ≡ true =
        λ by. elim s.may_use [ inl h ↦ absurd cc | inr h ↦ h ] in
      (s.seen, rw (s.found, passes) refl, s.same_spec, λ by. (mine by, owns by))

  adopt-Seen :
      (a : Answers) (r : UserRegistration) (p : Principal) (saved : Store) (s : Seen r p saved)
      → adopt lib a (s.seen) r p saved ≡ ok (saved, s.seen, false)
  unfolding adopt
  adopt-Seen a r p saved s =
      let passes = may_use-passes (s.seen) p (s.may_use) in
      rw (s.same_spec, spec_eq_self (r.spec), passes) refl

  pub put_as-repeats :
      (a b : Answers) (r : UserRegistration) (p : Principal) (store saved : Store)
      (result : UserRegistration) (created : Bool)
      → IsFiled lib store
      → put_as lib a r p store ≡ ok (saved, result, created)
      → (seen : UserRegistration) × (get_as lib saved (r.namespace) (r.name) p ≡ ok seen)
        × (put_as lib b r p saved ≡ ok (saved, seen, false))
  unfolding put_as settle get_as
  put_as-repeats a b r p store saved result created filed e =
      let (valid, mine, outcome) = put_as-Outcome lib a r p store saved result created e in
      let s = Outcome-Seen r p store saved result created filed outcome in
      let (tt, once, rest) = >>=-eq-ok (checked lib (validate lib r)) _ e in
      let (named, rest2) = require-then (not (is_empty (r.namespace))) _ _ rest in
      let (allowed, rest3) =
        require-then (not (is_oidc p && not (text_eq (p.identity) (r.spec.identity)))) _ _ rest2 in
      let passes = may_use-passes (s.seen) p (s.may_use) in
      (
        s.seen,
        rw (s.found, passes) refl,
        rw (valid, named, allowed, s.found) (adopt-Seen b r p saved s),
      )
