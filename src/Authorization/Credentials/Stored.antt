-- ===== src/Authorization/Credentials/Stored.antt =====
-- What a credential file stands for, and the document that a command starts from.
use tearenv.Common.{
  ◌≡◌, refl, false, ◌&&◌, Text, Map, Option, none, some, [], is_empty, Result, ok, ◌>>=◌, >>=-eq-ok,
  traverse, arith,
}
use tearenv.Authorization.Library.{Library}
use tearenv.Authorization.Services.{Error}
use tearenv.Authorization.Document.{
  Document, Parsed, parse_user, parse_invite, parse_access, parse_credentials, set_hashed_users,
}
use tearenv.Authorization.Document.Laws.{parse-hashed_users}
use tearenv.Authorization.Credentials.{File, read_credentials_file, open_document}

abbrev pub nothing : Parsed
nothing = record { users = []; invites = []; services = [] }

module _ (lib : Library) where
  -- The users, invites and services of a file: none where there is no file.
  unfoldable pub stored : Option File → Result Error Parsed
  stored none = ok nothing
  stored (some f) = do d ← read_credentials_file (some f); parse_credentials lib d

  -- Each part of a document parses.
  pub record Parses (d : Document) (p : Parsed) : Type 0 where
    pub users : traverse (parse_user lib) d.users ≡ ok p.users
    pub invites : traverse (parse_invite lib) d.invites ≡ ok p.invites
    pub services : traverse (parse_access lib) d.access ≡ ok p.services

  pub parse_credentials-Parses :
      (d : Document) (p : Parsed) → parse_credentials lib d ≡ ok p → Parses d p
  unfolding parse_credentials
  parse_credentials-Parses d p e =
      let (us, u) : (v : Map Text) × (traverse (parse_user lib) d.users ≡ ok v) = ground arith in
      let (is, i) : (v : Map Text) × (traverse (parse_invite lib) d.invites ≡ ok v) =
        ground arith in
      record { users = ground arith; invites = ground arith; services = ground arith }

  -- A document with something in it parses if its parts do.
  pub Parses-parse_credentials :
      (d : Document) (p : Parsed)
      → (is_empty d.users && is_empty d.invites && is_empty d.access) ≡ false
      → Parses d p
      → parse_credentials lib d ≡ ok p
  unfolding parse_credentials
  Parses-parse_credentials d p some_thing h =
      rw some_thing (rw (h.users, h.invites, h.services) refl)

  -- The document that a command starts from holds what the file holds.
  pub open_document-Parses :
      (file : Option File) (p : Parsed) (d : Document)
      → stored file ≡ ok p
      → open_document lib file ≡ ok d
      → Parses d p
  unfolding stored open_document set_hashed_users traverse
  open_document-Parses none p d e o = record {
    users = ground arith;
    invites = ground arith;
    services = ground arith;
  }
  open_document-Parses (some f) p d e o =
      let (d', r, e') = >>=-eq-ok (read_credentials_file (some f)) _ e in
      let v = parse_credentials-Parses d' p e' in
      let same : set_hashed_users lib p.users d' ≡ d = ground arith in
      rw (← same) (record {
        users = parse-hashed_users lib d'.users p.users v.users;
        invites = v.invites;
        services = v.services;
      })
