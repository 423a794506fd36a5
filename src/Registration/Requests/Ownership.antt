-- ===== src/Registration/Requests/Ownership.antt =====
-- internal/registration/store.go: specs and owners over sequences of `PutAs`.
use tearenv.Common.{
  Bool, true, false, ◌&&◌, Text, text_eq, text_eq_iff, none, some, ◌≡◌, refl, sym, ap, ◌∙◌, ok, err,
  inl, inr, arith, Bool-cases, [], lookup,
}
use tearenv.Authn.{Principal}
use tearenv.Api.{UserRegistration, AuthenticatedPrincipal}
use tearenv.Api.Library.{Library}
use tearenv.Registration.Store.{Store, not_found, owner, get_unlocked, encode}
use tearenv.Registration.Store.Files.{get-with_file, get-with_file_other}
use tearenv.Registration.Requests.{Answers, new_resource, bound_to, put_as}
use tearenv.Registration.Requests.Outcome.{Outcome, kept, bound, fresh, Saved, put_as-Outcome}

pub spec-encode : (r : UserRegistration) → (encode r).spec ≡ r.spec
unfolding encode
spec-encode r = refl

module _ (lib : Library) where
  -- Every resource is stored under its own namespace and name.
  unfoldable pub IsFiled : Store → Type 0
  IsFiled store =
      (namespace name : Text) (r : UserRegistration)
      → get_unlocked lib store namespace name ≡ ok r
      → (r.namespace ≡ namespace) × (r.name ≡ name)

  -- What holds of a resource after a request, where `old` was read before.
  pub record Keeps (namespace name : Text) (old : UserRegistration) (saved : Store) : Type 0 where
    pub new : UserRegistration
    pub found : get_unlocked lib saved namespace name ≡ ok new
    pub same_spec : new.spec ≡ old.spec
    pub same_owner : (o : AuthenticatedPrincipal) → owner old ≡ some o → owner new ≡ some o

  abbrev unchanged :
      (namespace name : Text) (old : UserRegistration) (saved : Store)
      → get_unlocked lib saved namespace name ≡ ok old
      → Keeps namespace name old saved
  unchanged namespace name old saved e = record {
    new = old;
    found = e;
    same_spec = refl;
    same_owner = λ o h. h;
  }

  -- Reading at the path of a file that was written.
  pub get-Saved :
      (result : UserRegistration) (store saved : Store) (namespace name : Text)
      → Saved lib result store saved
      → (text_eq (result.namespace) namespace && text_eq (result.name) name) ≡ true
      → get_unlocked lib saved namespace name ≡ ok (encode result)
  get-Saved result store saved namespace name s h =
      let one : result.namespace ≡ namespace =
        ground (arith, text_eq_iff (result.namespace) namespace) in
      let two : result.name ≡ name = ground (arith, text_eq_iff (result.name) name) in
      rw (← one, ← two, s.result) (get-with_file lib result store (s.valid) (s.path))

  get-Saved_other :
      (result : UserRegistration) (store saved : Store) (namespace name : Text)
      → Saved lib result store saved
      → (text_eq (result.namespace) namespace && text_eq (result.name) name) ≡ false
      → get_unlocked lib saved namespace name ≡ get_unlocked lib store namespace name
  get-Saved_other result store saved namespace name s h =
      rw (s.result) (get-with_file_other lib result store namespace name h)

  bound-Keeps :
      (p : Principal) (store saved : Store) (existing result old : UserRegistration)
      (identifier namespace name : Text)
      → get_unlocked lib store (result.namespace) (result.name) ≡ ok existing
      → owner existing ≡ none
      → result ≡ bound_to existing p identifier
      → Saved lib result store saved
      → get_unlocked lib store namespace name ≡ ok old
      → Keeps namespace name old saved
  unfolding bound_to
  bound-Keeps p store saved existing result old identifier namespace name found free shape s e =
      elim (Bool-cases (text_eq (result.namespace) namespace && text_eq (result.name) name)) [
        | inl here ↦
            let one : result.namespace ≡ namespace =
              ground (arith, text_eq_iff (result.namespace) namespace) in
            let two : result.name ≡ name = ground (arith, text_eq_iff (result.name) name) in
            let same : old ≡ existing = cc in
            record {
              new = encode result;
              found = get-Saved result store saved namespace name s here;
              same_spec = spec-encode result ∙ ap (λ x. x.spec) shape ∙ ap (λ x. x.spec) (sym same);
              same_owner = λ o h. absurd cc;
            }
        | inr elsewhere ↦
            unchanged namespace name old saved
              (get-Saved_other result store saved namespace name s elsewhere ∙ e)
      ]

  fresh-Keeps :
      (store saved : Store) (result old : UserRegistration) (namespace name : Text)
      → get_unlocked lib store (result.namespace) (result.name) ≡ err not_found
      → Saved lib result store saved
      → get_unlocked lib store namespace name ≡ ok old
      → Keeps namespace name old saved
  fresh-Keeps store saved result old namespace name absent s e =
      elim (Bool-cases (text_eq (result.namespace) namespace && text_eq (result.name) name)) [
        | inl here ↦
            let one : result.namespace ≡ namespace =
              ground (arith, text_eq_iff (result.namespace) namespace) in
            let two : result.name ≡ name = ground (arith, text_eq_iff (result.name) name) in
            absurd cc
        | inr elsewhere ↦
            unchanged namespace name old saved
              (get-Saved_other result store saved namespace name s elsewhere ∙ e)
      ]

  pub bound_to-path :
      (r : UserRegistration) (p : Principal) (identifier : Text)
      → ((bound_to r p identifier).namespace ≡ r.namespace)
        × ((bound_to r p identifier).name ≡ r.name)
  unfolding bound_to
  bound_to-path r p identifier = (refl, refl)

  pub new_resource-path :
      (a : Answers) (r : UserRegistration) (p : Principal) (identifier : Text)
      → ((new_resource r p identifier (a.now)).namespace ≡ r.namespace)
        × ((new_resource r p identifier (a.now)).name ≡ r.name)
  unfolding new_resource
  new_resource-path a r p identifier = (refl, refl)

  Outcome-Keeps :
      (r : UserRegistration) (p : Principal) (store saved : Store) (result : UserRegistration)
      (created : Bool)
      → IsFiled store
      → Outcome lib r p store saved result created
      → (namespace name : Text) (old : UserRegistration)
      → get_unlocked lib store namespace name ≡ ok old
      → Keeps namespace name old saved
  unfolding IsFiled
  Outcome-Keeps r p store saved result created filed (kept found spec own same c) namespace name old
        e =
      rw same (unchanged namespace name old store e)
  Outcome-Keeps r p store saved result created filed
        (bound existing identifier found spec by free shape s c) namespace name old e =
      let (one, two) = filed (r.namespace) (r.name) existing found in
      let (three, four) = bound_to-path existing p identifier in
      let there : get_unlocked lib store (result.namespace) (result.name) ≡ ok existing = cc in
      bound-Keeps p store saved existing result old identifier namespace name there free shape s e
  Outcome-Keeps r p store saved result created filed (fresh a identifier absent shape s c) namespace
        name old e =
      let (three, four) = new_resource-path a r p identifier in
      let there : get_unlocked lib store (result.namespace) (result.name) ≡ err not_found = cc in
      fresh-Keeps store saved result old namespace name there s e

  -- What is written is filed.
  Saved-IsFiled :
      (result : UserRegistration) (store saved : Store)
      → IsFiled store
      → Saved lib result store saved
      → IsFiled saved
  unfolding IsFiled encode
  Saved-IsFiled result store saved filed s namespace name r e =
      elim (Bool-cases (text_eq (result.namespace) namespace && text_eq (result.name) name)) [
        | inl here ↦
            let one : result.namespace ≡ namespace =
              ground (arith, text_eq_iff (result.namespace) namespace) in
            let two : result.name ≡ name = ground (arith, text_eq_iff (result.name) name) in
            let same = get-Saved result store saved namespace name s here in
            let equal : encode result ≡ r = cc in
            (ap (λ x. x.namespace) (sym equal) ∙ one, ap (λ x. x.name) (sym equal) ∙ two)
        | inr elsewhere ↦
            filed namespace name r
              (sym (get-Saved_other result store saved namespace name s elsewhere) ∙ e)
      ]

  Outcome-IsFiled :
      (r : UserRegistration) (p : Principal) (store saved : Store) (result : UserRegistration)
      (created : Bool)
      → IsFiled store
      → Outcome lib r p store saved result created
      → IsFiled saved
  Outcome-IsFiled r p store saved result created filed (kept found spec own same c) = rw same filed
  Outcome-IsFiled r p store saved result created filed
        (bound existing identifier found spec by free shape s c) =
      Saved-IsFiled result store saved filed s
  Outcome-IsFiled r p store saved result created filed (fresh a identifier absent shape s c) =
      Saved-IsFiled result store saved filed s

  -- The stores that requests of any callers lead to; a request that fails changes nothing.
  pub data Puts (store : Store) : Store → Type 0 where
    start : Puts store store
    put :
        {before after : Store} (a : Answers) (r result : UserRegistration) (p : Principal)
        (created : Bool)
        → Puts store before
        → put_as lib a r p before ≡ ok (after, result, created)
        → Puts store after

  pub Puts-IsFiled : {store after : Store} → IsFiled store → Puts store after → IsFiled after
  Puts-IsFiled filed start = filed
  Puts-IsFiled filed (put {before} {after} a r result p created past e) =
      let (valid, mine, outcome) = put_as-Outcome lib a r p before after result created e in
      Outcome-IsFiled r p before after result created (Puts-IsFiled filed past) outcome

  -- In a store where every resource is filed under its own path, a resource that can be read stays
  -- readable after any requests of any principals, with the same spec, and with the same owner if
  -- it has one.
  pub Puts-Keeps :
      {store after : Store} (namespace name : Text) (old : UserRegistration)
      → IsFiled store
      → Puts store after
      → get_unlocked lib store namespace name ≡ ok old
      → Keeps namespace name old after
  Puts-Keeps {store} namespace name old filed start e = unchanged namespace name old store e
  Puts-Keeps namespace name old filed (put {before} {after} a r result p created past done) e =
      let earlier = Puts-Keeps namespace name old filed past e in
      let (valid, mine, outcome) = put_as-Outcome lib a r p before after result created done in
      let later =
        Outcome-Keeps r p before after result created (Puts-IsFiled filed past) outcome namespace
          name (earlier.new) (earlier.found) in
      record {
        new = later.new;
        found = later.found;
        same_spec = later.same_spec ∙ earlier.same_spec;
        same_owner = λ o h. later.same_owner o (earlier.same_owner o h);
      }

  -- An empty store.
  pub empty-IsFiled :
      (namespace : Text) → IsFiled (record { files = []; authentication_namespace = namespace })
  unfolding IsFiled get_unlocked lookup
  empty-IsFiled authentication namespace name r e = ground arith
