-- ===== src/Authorization/Credentials/Grants.antt =====
-- `GrantService` and `ResolveService`: what is granted, and only that, is resolved.
use tearenv.Common.{
  ◌≡◌, refl, Bool, true, false, ◌&&◌, Text, text_eq, text_eq_iff, Map, lookup, insert, Option, some,
  option_or, [], is_empty, if◌then◌else◌, ok, traverse, traverse-insert, traverse-lookup,
  traverse-lookup-none, lookup-insert, is_empty-insert, Option-cases, inl, inr, arith, Bool-cases,
  ◌∙◌,
}
use tearenv.Authorization.{Service}
use tearenv.Authorization.Names.{valid_identity}
use tearenv.Authorization.Library.{Library}
use tearenv.Authorization.Services.{validate_service}
use tearenv.Authorization.Document.{
  ServiceRecord, Document, Parsed, parse_access, parse_service, service_record,
}
use tearenv.Authorization.Document.Laws.{parse-service_record}
use tearenv.Authorization.Credentials.{
  File, Credentials, read_credentials_file, write_credentials_file, open_document, add_service,
  grant_service, reload, refresh, resolve_service,
}
use tearenv.Authorization.Credentials.Stored.{
  stored, open_document-Parses, Parses, Parses-parse_credentials,
}

-- The service of an identity under a name.
abbrev pub granted : Parsed → Text → Text → Option Service
granted p identity name = lookup name (option_or (lookup identity p.services) [])

module _ (lib : Library) where
  -- The services of an identity, parsed.
  parse-services_of :
      (identity : Text) (access : Map (Map ServiceRecord)) (services : Map (Map Service))
      → traverse (parse_access lib) access ≡ ok services
      → traverse (parse_service lib) (option_or (lookup identity access) [])
        ≡ ok (option_or (lookup identity services) [])
  unfolding parse_access traverse
  parse-services_of identity access services e = elim (Option-cases (lookup identity access)) [
    | inl missing ↦
        rw (missing, traverse-lookup-none (parse_access lib) identity access services e missing)
          refl
    | inr (old, found) ↦
        let (new, parsed, there) =
          traverse-lookup (parse_access lib) identity old access services e found in
        rw (found, there) (ground arith)
  ]

  parse-add_service :
      (identity : Text) (s t : Service) (access : Map (Map ServiceRecord))
      (services : Map (Map Service))
      → valid_identity identity ≡ true
      → validate_service lib s ≡ ok t
      → traverse (parse_access lib) access ≡ ok services
      → traverse (parse_access lib) (add_service lib identity t access)
        ≡ ok (insert identity (insert t.name t (option_or (lookup identity services) [])) services)
  unfolding add_service parse_access
  parse-add_service identity s t access services valid v e =
      traverse-insert (parse_access lib) identity _ _ access services e (
        rw (valid, parse_access)
          (traverse-insert (parse_service lib) t.name (service_record lib t) t _ _
            (parse-services_of identity access services e) (parse-service_record lib s t v)))

  -- The parsed credentials with one more service.
  abbrev pub with_service : Text → Service → Parsed → Parsed
  with_service identity t p = record p {
    services =
        insert identity (insert t.name t (option_or (lookup identity p.services) [])) p.services;
  }

  is_empty-add_service :
      (a b : Bool) (identity : Text) (t : Service) (access : Map (Map ServiceRecord))
      → (a && b && is_empty (add_service lib identity t access)) ≡ false
  unfolding add_service
  is_empty-add_service a b identity t access = ground (
    arith,
    is_empty-insert identity
        (insert t.name (service_record lib t) (option_or (lookup identity access) [])) access,
  )

  abbrev granted_document : Text → Service → Document → Document
  granted_document identity t d = record d { access = add_service lib identity t d.access }

  grant_service-parts :
      (written : Bool) (identity : Text) (s t : Service) (file : Option File) (f : File)
      → validate_service lib s ≡ ok t
      → grant_service lib written identity s file ≡ ok f
      → (d : Document) × (open_document lib file ≡ ok d)
        × (valid_identity identity ≡ true)
        × (f ≡ record {
          accessible = true;
          mode = 0o600;
          document = some (granted_document identity t d);
        })
  unfolding grant_service write_credentials_file
  grant_service-parts written identity s t file f v g =
      let (d, o) : (x : Document) × (open_document lib file ≡ ok x) = ground arith in
      (d, o, ground arith, ground arith)

  stored-granted :
      (identity : Text) (s t : Service) (d : Document) (p : Parsed)
      → valid_identity identity ≡ true
      → validate_service lib s ≡ ok t
      → Parses lib d p
      → stored lib (
          some (record {
            accessible = true;
            mode = 0o600;
            document = some (granted_document identity t d);
          }))
        ≡ ok (with_service identity t p)
  unfolding stored read_credentials_file
  stored-granted identity s t d p valid v h =
      Parses-parse_credentials lib (granted_document identity t d) (with_service identity t p)
        (is_empty-add_service (is_empty d.users) (is_empty d.invites) identity t d.access)
        (record {
          users = h.users;
          invites = h.invites;
          services = parse-add_service identity s t d.access p.services valid v h.services;
        })

  -- A grant adds its service, with the defaults filled in, to what the file holds, and changes
  -- nothing else: users, invites and other services are read back as before.
  pub grant_service-stored :
      (written : Bool) (identity : Text) (s t : Service) (file : Option File) (f : File)
      (p : Parsed)
      → stored lib file ≡ ok p
      → validate_service lib s ≡ ok t
      → grant_service lib written identity s file ≡ ok f
      → stored lib (some f) ≡ ok (with_service identity t p)
  grant_service-stored written identity s t file f p e v g =
      let (d, o, valid, made) = grant_service-parts written identity s t file f v g in
      rw made (stored-granted identity s t d p valid v (open_document-Parses lib file p d e o))

  resolve-stored :
      (f : File) (c : Credentials) (p : Parsed) (identity name : Text)
      → is_empty c.path ≡ false
      → stored lib (some f) ≡ ok p
      → (resolve_service lib (some f) c identity name).1 ≡ granted p identity name
  unfolding stored resolve_service refresh reload
  resolve-stored f c p identity name backed e = ground arith

  granted-with_service :
      (identity j name : Text) (t : Service) (p : Parsed)
      → granted (with_service identity t p) j name
        ≡ (if text_eq identity j && text_eq t.name name then some t else granted p j name)
  granted-with_service identity j name t p = elim (Bool-cases (text_eq identity j)) [
    | inl hit ↦
        let key : identity ≡ j = (text_eq_iff identity j).0 hit in
        rw (lookup-insert j identity _ p.services, hit)
          (rw (lookup-insert name t.name t _) (rw key refl))
    | inr miss ↦ rw (lookup-insert j identity _ p.services, miss) refl
  ]

  -- After a grant that succeeds, a gateway on that file resolves the granted name to the validated
  -- service, and every other identity or name as the file resolved it before.
  pub resolve_service-grant_service :
      (written : Bool) (identity : Text) (s t : Service) (file : Option File) (f : File)
      (p : Parsed) (c : Credentials) (j name : Text)
      → stored lib file ≡ ok p
      → validate_service lib s ≡ ok t
      → grant_service lib written identity s file ≡ ok f
      → is_empty c.path ≡ false
      → (resolve_service lib (some f) c j name).1
        ≡ (if text_eq identity j && text_eq t.name name then some t else granted p j name)
  resolve_service-grant_service written identity s t file f p c j name e v g backed =
      resolve-stored f c (with_service identity t p) j name backed
        (grant_service-stored written identity s t file f p e v g)
      ∙ granted-with_service identity j name t p
