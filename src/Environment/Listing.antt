-- ===== src/Environment/Listing.antt =====
-- internal/environment/manager.go: the listing of `Services`.
use tearenv.Common.{
  Text, Map, lookup, insert, lookup-insert, Option, none, some, List, [], ◌∷◌, ◌≡◌, refl, arith,
  ◌∙◌,
}
use tearenv.Authorization.{Service, Policy}
use tearenv.Authorization.Listing.{
  sorted_values, find_named, IsKeyed, IsSorted, find_named-sorted_values, insert-IsKeyed,
  sorted_values-IsSorted, IsManaged, lookup-IsManaged,
}
use tearenv.Environment.{Manager, by_name, overlay, own_services, list_services, resolve_service}

empty-IsKeyed : IsKeyed []
unfolding IsKeyed
empty-IsKeyed = tt

by_name-IsKeyed :
    (ss : List Service) (combined : Map Service) → IsKeyed combined → IsKeyed (by_name ss combined)
unfolding by_name
by_name-IsKeyed [] combined h = h
by_name-IsKeyed (s ∷ ss) combined h =
    by_name-IsKeyed ss (insert (s.name) s combined) (insert-IsKeyed (s.name) s combined refl h)

overlay-IsKeyed :
    (own combined : Map Service) → IsKeyed own → IsKeyed combined → IsKeyed (overlay own combined)
unfolding overlay IsKeyed
overlay-IsKeyed [] combined h k = k
overlay-IsKeyed ((name, s) ∷ own) combined (same, h) k =
    insert-IsKeyed name s (overlay own combined) same (overlay-IsKeyed own combined h k)

lookup-overlay :
    (name : Text) (own combined : Map Service)
    → lookup name (overlay own combined) ≡ (elim (lookup name own) as (λ x. Option Service) [
      | some s ↦ some s
      | none ↦ lookup name combined
    ])
unfolding overlay lookup
lookup-overlay name [] combined = refl
lookup-overlay name ((k, s) ∷ own) combined =
    lookup-insert name k s (overlay own combined) ∙ ground (arith, lookup-overlay name own combined)

-- Where the base policy resolves a name to the last service that it lists under it, the list of an
-- identity is sorted by name, and holds under each name the service that the name is resolved to.
pub list_services-resolve_service :
    (base : Policy) (manager : Manager) (identity : Text) (direct listed : List Service)
    → IsManaged (manager.services)
    → base.services identity ≡ some direct
    → ((name : Text) → lookup name (by_name direct []) ≡ base.resolve_service identity name)
    → list_services base manager identity ≡ some listed
    → IsSorted listed
      × ((name : Text) → find_named name listed ≡ resolve_service base manager identity name)
unfolding list_services resolve_service
list_services-resolve_service base manager identity direct listed keyed given agrees e =
    let own = own_services manager identity in
    let all_ = overlay own (by_name direct []) in
    let same : sorted_values all_ ≡ listed = cc in
    let keys =
      overlay-IsKeyed own (by_name direct []) (lookup-IsManaged identity (manager.services) keyed)
        (by_name-IsKeyed direct [] empty-IsKeyed) in
    rw (← same) (
      sorted_values-IsSorted all_,
      λ name.
          find_named-sorted_values name all_ keys
          ∙ lookup-overlay name own (by_name direct [])
          ∙ ground (arith, agrees name),
    )
