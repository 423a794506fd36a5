-- ===== src/Blueprint/Validation/Exposed.antt =====
-- internal/blueprint/blueprint.go: the resources that the services of a valid blueprint refer to.
use tearenv.Common.{
  pos, true, not, ◌&&◌, Text, codes, is_empty, some, List, [], ◌∷◌, ok, require-then, All, Member,
  ◌∙◌, here, there, NoNul, split_nul, ◌≡◌, ◌⊎◌, inl, inr, sym, subst, arith,
}
use mathlib.Core.List.{append_assoc}
use tearenv.Blueprint.Values.{Fields, get, as_text}
use tearenv.Blueprint.Document.{Declared, Document}
use tearenv.Blueprint.Library.{Library}
use tearenv.Blueprint.Validation.{
  resource_key, resource_exposes_port, nested_number, resource_identity, validate, metadata,
  api_version_of, kind_of, resource_name,
}
use tearenv.Blueprint.Validation.Laws.{IsNamed, IsServed, IsRunnable, validate-IsRunnable}

-- A resource whose version and kind hold no zero byte, which separates the parts of its key.
abbrev pub IsClean : Fields → Type 0
IsClean x = NoNul (api_version_of x) × NoNul (kind_of x)

-- A resource of a list by its version, kind and name.
pub record IsThe (api_version kind name : Text) (resource x : Fields) : Type 0 where
  pub same : x ≡ resource
  pub api_version_is : api_version_of x ≡ api_version
  pub kind_is : kind_of x ≡ kind
  pub name_is : resource_name x ≡ name

-- The resources that a service refers to.
pub record IsExposed (resources : List Fields) (s : Declared) : Type 0 where
  pub service : Fields
  pub declared : Member (IsThe (codes "v1") (codes "Service") (s.target.service) service) resources
  pub exposed : resource_exposes_port service (s.target.port) ≡ true
  pub workload : Fields
  pub scaled :
      Member
        (IsThe (codes "apps/v1") (s.scale.target_ref.kind) (s.scale.target_ref.name) workload)
        resources
  pub at_zero : nested_number workload (codes "spec") (codes "replicas") ≡ some (pos 0)
  pub kind :
      (s.scale.target_ref.kind ≡ codes "Deployment")
      ⊎ (s.scale.target_ref.kind ≡ codes "StatefulSet")

resource_key-separates :
    (a b k l n m : Text)
    → NoNul a
    → NoNul b
    → NoNul k
    → NoNul l
    → resource_key a k n ≡ resource_key b l m
    → (a ≡ b) × (k ≡ l) × (n ≡ m)
unfolding resource_key
resource_key-separates a b k l n m p q r t e =
    let (versions, rest) =
      split_nul a b p q
        (sym (append_assoc a (0 ∷ k) (0 ∷ n)) ∙ e ∙ append_assoc b (0 ∷ l) (0 ∷ m)) in
    let (kinds, names) = split_nul k l r t rest in (versions, kinds, names)

kind_NoNul : (kind : Text) → (kind ≡ codes "Deployment") ⊎ (kind ≡ codes "StatefulSet") → NoNul kind
kind_NoNul kind (inl e) = subst NoNul (sym e) (omega arith)
kind_NoNul kind (inr e) = subst NoNul (sym e) (omega arith)

service_NoNul : NoNul (codes "v1") × NoNul (codes "Service") × NoNul (codes "apps/v1")
service_NoNul = (omega arith, omega arith, omega arith)

module _ (lib : Library) where
  resource_identity-key :
      (x : Fields) (key : Text)
      → resource_identity lib x ≡ ok key
      → key ≡ resource_key (api_version_of x) (kind_of x) (resource_name x)
  unfolding resource_identity
  resource_identity-key x key e =
      let (whole, rest) =
        require-then
          (not (is_empty (api_version_of x))
            && not (is_empty (kind_of x))
            && not (is_empty (resource_name x)))
          _ _ e in
      let (bare, rest2) =
        require-then (is_empty (as_text (get (codes "namespace") (metadata x)))) _ _ rest in
      let (good, last) = require-then (lib.is_dns_subdomain (resource_name x)) _ _ rest2 in cc

  IsNamed-IsThe :
      (api_version kind name : Text) (resource : Fields) (resources : List Fields)
      → NoNul api_version
      → NoNul kind
      → All IsClean resources
      → Member (IsNamed lib (resource_key api_version kind name) resource) resources
      → Member (IsThe api_version kind name resource) resources
  IsNamed-IsThe a k n r [] p q clean h = elim h [ ]
  IsNamed-IsThe a k n r (x ∷ xs) p q (c, clean) (there h) =
      there (IsNamed-IsThe a k n r xs p q clean h)
  IsNamed-IsThe a k n r (x ∷ xs) p q ((c, d), clean) (here h) =
      let (versions, kinds, names) =
        resource_key-separates (api_version_of x) a (kind_of x) k (resource_name x) n c p d q
          (sym (resource_identity-key x (resource_key a k n) (h.named))) in
      here (record { same = h.same; api_version_is = versions; kind_is = kinds; name_is = names })

  IsServed-IsExposed :
      (resources : List Fields) (s : Declared)
      → All IsClean resources
      → IsServed lib resources s
      → IsExposed resources s
  IsServed-IsExposed resources s clean h =
      let (v1, service_kind, apps) = service_NoNul in
      let kinds = h.scalable.kind in
      record {
        service = h.service;
        declared =
            IsNamed-IsThe (codes "v1") (codes "Service") (s.target.service) (h.service) resources v1
              service_kind clean (h.declared);
        exposed = h.exposed;
        workload = h.scalable.workload;
        scaled =
            IsNamed-IsThe (codes "apps/v1") (s.scale.target_ref.kind) (s.scale.target_ref.name)
              (h.scalable.workload) resources apps (kind_NoNul (s.scale.target_ref.kind) kinds)
              clean
              (subst
                (λ v.
                  Member
                    (IsNamed lib
                      (resource_key v (s.scale.target_ref.kind) (s.scale.target_ref.name))
                      (h.scalable.workload))
                    resources)
                (h.scalable.version) (h.scalable.declared));
        at_zero = h.scalable.at_zero;
        kind = kinds;
      }

  services-IsExposed :
      (resources : List Fields) (ss : List Declared)
      → All IsClean resources
      → All (IsServed lib resources) ss
      → All (IsExposed resources) ss
  services-IsExposed resources [] clean h = tt
  services-IsExposed resources (s ∷ ss) clean (h, hs) =
      (IsServed-IsExposed resources s clean h, services-IsExposed resources ss clean hs)

  -- Where no version or kind of a resource of the blueprint holds a zero byte, a blueprint that
  -- passes validation has services of distinct names, each with a port from 1 to 65535 that the
  -- resource of the blueprint of version v1, kind Service and the name of its target exposes, and
  -- with a resource of the blueprint of version apps/v1, kind Deployment or StatefulSet and the
  -- name of its scale target that starts at zero replicas, a positive number of replicas, a
  -- positive readiness timeout and an idle timeout that is not negative.
  pub validate-IsExposed :
      (d : Document)
      → All IsClean (d.spec.resources)
      → validate lib d ≡ ok tt
      → IsRunnable lib d × All (IsExposed (d.spec.resources)) (d.spec.services)
  validate-IsExposed d clean e =
      let runnable = validate-IsRunnable lib d e in
      (runnable, services-IsExposed (d.spec.resources) (d.spec.services) clean (runnable.services))
