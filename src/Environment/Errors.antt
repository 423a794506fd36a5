-- ===== src/Environment/Errors.antt =====
-- internal/environment/manager.go: the errors of `Provision`, and what the manager keeps.
use tearenv.Common.{
  ℕ, ℤ, Bool, true, false, Text, Map, insert, Option, none, some, List, [], ◌∷◌, ok, require,
  require-then, wrap, wrap-eq-ok, >>=-eq-ok, FailsAs, FailsAs->>=, FailsAs-require, FailsAs-wrap,
  All, ◌≡◌, refl, ◌∙◌,
}
use tearenv.Authorization.{Service}
use tearenv.Authorization.Listing.{IsKeyed, insert-IsKeyed, IsManaged, insert-IsManaged}
use tearenv.Blueprint.Document.{Declared, Document, Instance}
use tearenv.Blueprint.Library.{Library}
use tearenv.Blueprint.Values.{Fields}
use tearenv.Blueprint.Validation.{validate, is_positive, is_natural}
use tearenv.Blueprint.Validation.Laws.{IsServed, validate-IsRunnable}
use tearenv.Blueprint.Instantiation.{instantiate}
use tearenv.Blueprint.Instantiation.Laws.{instantiate-IsInstance}
use tearenv.Blueprint.Instantiation.Errors.{of_identity, instantiate-FailsAs}
use tearenv.Environment.{
  EnvironmentError, bad_document, not_instantiated, not_reconciled, Manager, new_manager,
  service_of, render_service, render_services, instance_services, provision,
}

-- The reconciler refused, or the templates do not fit the identity.
abbrev pub is_expected : EnvironmentError → Bool
is_expected (not_instantiated e) = of_identity e
is_expected not_reconciled = true
is_expected _ = false

module _ (lib : Library) (join : Text → ℕ → Text) where
  -- A manager of a valid blueprint whose services are stored under their names.
  pub record IsSound (m : Manager) : Type 0 where
    pub valid : validate lib (m.document) ≡ ok tt
    pub managed : IsManaged (m.services)

  pub new_manager-IsSound :
      (d : Document) (has_reconciler has_base : Bool) (m : Manager)
      → new_manager lib join d has_reconciler has_base ≡ ok m
      → IsSound m
  unfolding new_manager IsManaged
  new_manager-IsSound d has_reconciler has_base m e =
      let (u, checked, rest) = >>=-eq-ok (wrap bad_document (validate lib d)) _ e in
      let (r, rest2) = require-then has_reconciler _ _ rest in
      let (b, made) = require-then has_base _ _ rest2 in
      let same : record { document = d; services = [] } ≡ m = cc in
      rw (← same)
        (record { valid = wrap-eq-ok bad_document (validate lib d) checked ∙ refl; managed = tt })

  some_positive : (o : Option ℤ) → is_positive o ≡ true → (d : ℤ) × (o ≡ some d)
  some_positive none h = cc
  some_positive (some d) h = (d, refl)

  some_natural : (o : Option ℤ) → is_natural o ≡ true → (d : ℤ) × (o ≡ some d)
  some_natural none h = cc
  some_natural (some d) h = (d, refl)

  render_service-some :
      (namespace : Text) (d : Declared) (ready idle : ℤ)
      → lib.parse_duration (d.scale.ready_timeout) ≡ some ready
      → lib.parse_duration (d.scale.idle_timeout) ≡ some idle
      → render_service lib join namespace d ≡ some (service_of lib join namespace d ready idle)
  unfolding render_service
  render_service-some namespace d ready idle r i = rw (r, i, render_service) refl

  -- A service of a valid blueprint is rendered, under its name.
  render_service-IsServed :
      (namespace : Text) (resources : List Fields) (d : Declared)
      → IsServed lib resources d
      → (s : Service) × (render_service lib join namespace d ≡ some s) × (s.name ≡ d.name)
  render_service-IsServed namespace resources d h =
      let (ready, r) =
        some_positive (lib.parse_duration (d.scale.ready_timeout)) (h.scalable.ready) in
      let (idle, i) = some_natural (lib.parse_duration (d.scale.idle_timeout)) (h.scalable.idle) in
      (
        service_of lib join namespace d ready idle,
        render_service-some namespace d ready idle r i,
        refl,
      )

  render_services-IsServed :
      (namespace : Text) (resources : List Fields) (services : Map Service) (ds : List Declared)
      → All (IsServed lib resources) ds
      → IsKeyed services
      → (out : Map Service) × (render_services lib join namespace services ds ≡ ok out)
        × IsKeyed out
  unfolding render_services
  render_services-IsServed namespace resources services [] h k = (services, refl, k)
  render_services-IsServed namespace resources services (d ∷ ds) (first, h) k =
      let (s, shown, named) = render_service-IsServed namespace resources d first in
      let (out, rest, keyed) =
        render_services-IsServed namespace resources (insert (d.name) s services) ds h
          (insert-IsKeyed (d.name) s services named k) in
      (out, rw shown rest, keyed)

  instance_services-ok :
      (slug_first : Bool) (d : Document) (identity : Text) (x : Instance)
      → instantiate lib slug_first d identity ≡ ok x
      → (out : Map Service) × (instance_services lib join x ≡ ok out) × IsKeyed out
  unfolding instance_services IsKeyed
  instance_services-ok slug_first d identity x made =
      let made_of = instantiate-IsInstance lib slug_first d identity x made in
      let runnable = validate-IsRunnable lib d (made_of.valid) in
      let (out, built, keyed) =
        render_services-IsServed (x.namespace) (d.spec.resources) [] (d.spec.services)
          (runnable.services) tt in
      (out, rw (made_of.services) built, keyed)

  -- Of a manager of a valid blueprint `Provision` fails only because the reconciler refuses, or
  -- because the templates of the blueprint do not fit the identity: it never meets a timeout that
  -- is not one, and never writes to a nil map. If it succeeds it leaves a manager of the same
  -- blueprint.
  pub provision-IsSound :
      (slug_first : Bool) (reconcile : Instance → Bool) (identity : Text) (before : Manager)
      → IsSound before
      → FailsAs is_expected (provision lib join slug_first reconcile identity before)
        × ((after : Manager)
            → provision lib join slug_first reconcile identity before ≡ ok after
            → IsSound after × (after.document ≡ before.document))
  unfolding provision
  provision-IsSound slug_first reconcile identity before h = (
    FailsAs->>= is_expected
        (wrap not_instantiated (instantiate lib slug_first (before.document) identity)) _
        (FailsAs-wrap is_expected not_instantiated
          (instantiate lib slug_first (before.document) identity)
          (instantiate-FailsAs lib slug_first (before.document) identity (h.valid)))
        (λ x wrapped.
          let made =
            wrap-eq-ok not_instantiated (instantiate lib slug_first (before.document) identity)
              wrapped in
          let (out, built, keyed) =
            instance_services-ok slug_first (before.document) identity x made in
          rw built (
            FailsAs->>= is_expected (require (reconcile x) not_reconciled) _
              (FailsAs-require is_expected (reconcile x) not_reconciled refl) (λ u agreed. tt))),
    λ after e.
        let (x, wrapped, rest) =
          >>=-eq-ok (wrap not_instantiated (instantiate lib slug_first (before.document) identity))
            _ e in
        let made =
          wrap-eq-ok not_instantiated (instantiate lib slug_first (before.document) identity)
            wrapped in
        let (services, built, rest2) = >>=-eq-ok (instance_services lib join x) _ rest in
        let (out, built_, keyed) =
          instance_services-ok slug_first (before.document) identity x made in
        let same_services : out ≡ services = cc in
        let (agreed, last) = require-then (reconcile x) _ _ rest2 in
        let same : record before { services = insert identity services (before.services) } ≡ after =
          cc in
        rw (← same) (
          record {
            valid = h.valid;
            managed =
                insert-IsManaged identity services (before.services) (rw (← same_services) keyed)
                  (h.managed);
          },
          refl,
        ),
  )
