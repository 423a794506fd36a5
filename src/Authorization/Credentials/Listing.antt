-- ===== src/Authorization/Credentials/Listing.antt =====
-- internal/authorization/credentials.go: the listing of `Services`.
use tearenv.Common.{
  false, Text, Map, lookup, Option, option_or, List, [], ok, >>=-eq-ok, require-then, traverse-All,
  is_empty, Result-cases, inl, inr, ◌≡◌, refl, ap, ◌∙◌, arith,
}
use tearenv.Authorization.{Service}
use tearenv.Authorization.Library.{Library}
use tearenv.Authorization.Listing.{
  sorted_values, find_named, IsKeyed, IsManaged, IsSorted, find_named-sorted_values,
  lookup-IsManaged, sorted_values-IsSorted,
}
use tearenv.Authorization.Names.{valid_identity}
use tearenv.Authorization.Services.Laws.{validate_service-parts}
use tearenv.Authorization.Document.{
  ServiceRecord, parse_workload, parse_service, parse_access, parse_credentials,
}
use tearenv.Authorization.Credentials.{
  File, Credentials, read_credentials_file, reload, refresh, list_services, resolve_service,
}
use tearenv.Authorization.Credentials.Stored.{parse_credentials-Parses}

module _ (lib : Library) where
  parse_service-name :
      (name : Text) (r : ServiceRecord) (s : Service)
      → parse_service lib name r ≡ ok s
      → s.name ≡ name
  unfolding parse_service
  parse_service-name name r s e =
      let (w, working, validated) = >>=-eq-ok (parse_workload lib (r.workload)) _ e in
      let before : Service = record {
        name = name;
        target = r.target;
        local_port = r.local_port;
        workload = w;
      } in
      let (port, v, named, targeted, small, working_, same) =
        validate_service-parts lib before s validated in
      ap (λ (t : Service). t.name) same

  parse_access-IsKeyed :
      (identity : Text) (services : Map ServiceRecord) (own : Map Service)
      → parse_access lib identity services ≡ ok own
      → IsKeyed own
  unfolding parse_access IsKeyed
  parse_access-IsKeyed identity services own e =
      let (valid, parsed) = require-then (valid_identity identity) _ _ e in
      traverse-All (parse_service lib) (λ (e : Text × Service). e.1.name ≡ e.0) services own
        parse_service-name parsed

  -- The services that a file grants are stored under their names.
  refresh-IsManaged :
      (file : Option File) (c c' : Credentials)
      → is_empty (c.path) ≡ false
      → refresh lib file c ≡ ok c'
      → IsManaged (c'.parsed.services)
  unfolding refresh reload IsManaged
  refresh-IsManaged file c c' backed e =
      let reloaded : reload lib file c ≡ ok c' = ground arith in
      let (d, read, rest) = >>=-eq-ok (read_credentials_file file) _ reloaded in
      let (p, parsed, last) = >>=-eq-ok (parse_credentials lib d) _ rest in
      let same : p ≡ c'.parsed = cc in
      let each = parse_credentials-Parses lib d p parsed in
      rw (← same) (
        traverse-All (parse_access lib) (λ (e : Text × Map Service). IsKeyed (e.1)) (d.access)
          (p.services) parse_access-IsKeyed (each.services))

  -- What file-backed credentials list for an identity is sorted by name, and holds under each name
  -- the service that they resolve the name to.
  pub list_services_lem :
      (file : Option File) (c : Credentials) (identity : Text) (listed : List Service)
      → is_empty (c.path) ≡ false
      → (list_services lib file c identity).1 ≡ ok listed
      → IsSorted listed
        × ((name : Text) → find_named name listed ≡ (resolve_service lib file c identity name).1)
  unfolding list_services resolve_service
  list_services_lem file c identity listed backed e = elim (Result-cases (refresh lib file c)) [
    | inl (why, failed) ↦ absurd (ground arith)
    | inr (c', fresh) ↦
        let own = option_or (lookup identity (c'.parsed.services)) [] in
        let same : sorted_values own ≡ listed = ground arith in
        rw (← same) (
          sorted_values-IsSorted own,
          λ name.
              find_named-sorted_values name own (
                lookup-IsManaged identity (c'.parsed.services)
                  (refresh-IsManaged file c c' backed fresh))
              ∙ rw (fresh, resolve_service) refl,
        )
  ]
