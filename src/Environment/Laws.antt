-- ===== src/Environment/Laws.antt =====
-- internal/environment/manager.go: what `Provision` makes reachable.
use tearenv.Common.{
  ℕ, Bool, true, false, Text, text_eq, Map, lookup, insert, lookup-insert, lookup-insert_self,
  lookup-insert_ne, Option, none, some, List, [], ◌∷◌, if◌then◌else◌, ok, >>=-eq-ok, require-then,
  from_option, from_option-eq-ok, wrap, wrap-eq-ok, ◌≡◌, ◌≢◌, refl, sym, ap, ◌∙◌, arith,
  Option-cases, inl, inr,
}
use tearenv.Authorization.{Service, Policy}
use tearenv.Blueprint.Document.{Declared, Instance}
use tearenv.Blueprint.Library.{Library}
use tearenv.Blueprint.Instantiation.{instantiate}
use tearenv.Environment.{
  Manager, render_service, render_services, instance_services, provision, resolve_service,
  bad_timeout, not_instantiated,
}

-- A declaration that comes later, or this one if it fits.
abbrev pub keep_last : Option Declared → Bool → Declared → Option Declared
keep_last (some later) fits d = some later
keep_last none fits d = if fits then some d else none

-- The last service of a name.
unfoldable pub last_named : Text → List Declared → Option Declared
last_named name [] = none
last_named name (d ∷ ds) = keep_last (last_named name ds) (text_eq d.name name) d

module _ (lib : Library) (join : Text → ℕ → Text) where
  abbrev pub rendered : Text → Option Declared → Option Service → Option Service
  rendered namespace none was = was
  rendered namespace (some d) was = render_service lib join namespace d

  -- One round of the loop.
  pick :
      (namespace : Text) (r : Option Declared) (b : Bool) (d : Declared) (s : Service)
      (found was : Option Service)
      → render_service lib join namespace d ≡ some s
      → found ≡ rendered namespace r (if b then some s else was)
      → found ≡ rendered namespace (keep_last r b d) was
  pick namespace (some x) b d s found was shown e = e
  pick namespace none true d s found was shown e = e ∙ sym shown
  pick namespace none false d s found was shown e = e

  lookup-render_services :
      (namespace name : Text) (ds : List Declared) (start services : Map Service)
      → render_services lib join namespace start ds ≡ ok services
      → lookup name services ≡ rendered namespace (last_named name ds) (lookup name start)
  unfolding render_services last_named
  lookup-render_services namespace name [] start services e = cc
  lookup-render_services namespace name (d ∷ ds) start services e =
      let (s, rendered, rest) =
        >>=-eq-ok (from_option (render_service lib join namespace d) bad_timeout) _ e in
      let shown = from_option-eq-ok (render_service lib join namespace d) bad_timeout rendered in
      let later =
        lookup-render_services namespace name ds (insert (d.name) s start) services rest in
      let added = lookup-insert name (d.name) s start in
      pick namespace (last_named name ds) (text_eq (d.name) name) d s (lookup name services)
        (lookup name start) shown (rw (← added) later)

  -- Every declared service was rendered.
  render_services-some :
      (namespace name : Text) (ds : List Declared) (start services : Map Service) (d : Declared)
      → render_services lib join namespace start ds ≡ ok services
      → last_named name ds ≡ some d
      → (s : Service) × (render_service lib join namespace d ≡ some s)
  unfolding render_services last_named
  render_services-some namespace name [] start services d e h = cc
  render_services-some namespace name (c ∷ ds) start services d e h =
      let (s, rendered_, rest) =
        >>=-eq-ok (from_option (render_service lib join namespace c) bad_timeout) _ e in
      let shown = from_option-eq-ok (render_service lib join namespace c) bad_timeout rendered_ in
      elim (Option-cases (last_named name ds)) [
        | inl missing ↦ let same : c ≡ d = ground arith in (s, rw (← same) shown)
        | inr (x, found) ↦
            let same : last_named name ds ≡ some d = ground arith in
            render_services-some namespace name ds (insert (c.name) s start) services d rest same
      ]

  -- The services of an identity against the base policy.
  resolve_rendered :
      (namespace name : Text) (ds : List Declared) (services : Map Service) (base : Option Service)
      → render_services lib join namespace [] ds ≡ ok services
      → (elim (lookup name services) as (λ x. Option Service) [ some s ↦ some s | none ↦ base ])
        ≡ rendered namespace (last_named name ds) base
  unfolding lookup
  resolve_rendered namespace name ds services base e =
      let found = lookup-render_services namespace name ds [] services e in
      elim (Option-cases (last_named name ds)) [
        | inl missing ↦
            let absent : lookup name services ≡ none =
              found ∙ ap (λ r. rendered namespace r none) missing in
            rw (missing, absent) refl
        | inr (d, there) ↦
            let (s, shown) = render_services-some namespace name ds [] services d e there in
            let present : lookup name services ≡ some s =
              found ∙ ap (λ r. rendered namespace r none) there ∙ shown in
            rw (there, present, shown) refl
      ]

  -- After a provisioning that succeeds the blueprint was instantiated and reconciled, the identity
  -- reaches the last service that the instance declares under a name, rendered in the namespace of
  -- the instance, and by any other name what the base policy gives; other identities reach what
  -- they reached before.
  pub resolve_service-provision :
      (slug_first : Bool) (reconcile : Instance → Bool) (base : Policy) (identity : Text)
      (before after : Manager)
      → provision lib join slug_first reconcile identity before ≡ ok after
      → (x : Instance) × (instantiate lib slug_first (before.document) identity ≡ ok x)
        × (reconcile x ≡ true)
        × ((name : Text)
            → resolve_service base after identity name
              ≡ rendered
                  (x.namespace)
                  (last_named name (x.services))
                  (base.resolve_service identity name))
        × ((other name : Text)
            → identity ≢ other
            → resolve_service base after other name ≡ resolve_service base before other name)
  unfolding provision instance_services resolve_service
  resolve_service-provision slug_first reconcile base identity before after e =
      let (x, made, rest) =
        >>=-eq-ok (wrap not_instantiated (instantiate lib slug_first (before.document) identity)) _
          e in
      let (services, built, rest2) = >>=-eq-ok (instance_services lib join x) _ rest in
      let (agreed, same) = require-then (reconcile x) _ _ rest2 in
      let all_services = insert identity services (before.services) in
      let stored : after.services ≡ all_services = cc in
      (
        x,
        wrap-eq-ok not_instantiated (instantiate lib slug_first (before.document) identity) made,
        agreed,
        (λ name.
            rw (stored, resolve_service, lookup-insert_self identity services (before.services))
              (resolve_rendered (x.namespace) name (x.services) services
                (base.resolve_service identity name) built)),
        (λ other name differs.
            rw
              (
                stored,
                resolve_service,
                lookup-insert_ne other identity services (before.services) differs,
              )
              refl),
      )
