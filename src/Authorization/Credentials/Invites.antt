-- ===== src/Authorization/Credentials/Invites.antt =====
-- `CreateInvite`, `AuthenticateInvite` and `Enroll`: an invite is good for one enrolment of the
-- identity that it was made for.
use tearenv.Common.{
  ◌≡◌, ◌≢◌, refl, Bool, true, false, ◌&&◌, Text, text_eq, text_eq_iff, text_eq_self, Map, lookup,
  insert, Option, none, some, [], ◌∷◌, is_empty, ok, traverse, traverse-cons, traverse-insert,
  lookup-insert, is_empty-insert, Bool-cases, inl, inr, arith,
}
use tearenv.Authorization.Names.{valid_identity}
use tearenv.Authorization.Library.{Library}
use tearenv.Authorization.Document.{Document, Parsed, parse_invite, decode_hash}
use tearenv.Authorization.Credentials.{
  File, Credentials, read_credentials_file, write_credentials_file, open_document, token_hash_text,
  drop_invites, create_invite, authenticate_invite, invite_matches, reload,
}
use tearenv.Authorization.Credentials.Stored.{
  stored, Parses, Parses-parse_credentials, open_document-Parses,
}

-- An invite of the identity is not among the others.
lookup-drop_invites :
    (h identity : Text) (m : Map Text) → lookup h (drop_invites identity m) ≢ some identity
unfolding lookup drop_invites
lookup-drop_invites h identity [] e = cc
lookup-drop_invites h identity ((k, i) ∷ m) e =
    ground (arith, lookup-drop_invites h identity m, text_eq_self identity)

not_registered :
    (identity : Text) (o : Option Text)
    → o ≢ some identity
    → elim o [ none ↦ false | some registered ↦ text_eq registered identity ] ≡ false
not_registered identity none h = refl
not_registered identity (some r) h = ground (arith, text_eq_iff r identity)

module _ (lib : Library) where
  pub parse_invite-facts :
      (k i j : Text) → parse_invite lib k i ≡ ok j → (i ≡ j) × (valid_identity i ≡ true)
  unfolding parse_invite
  parse_invite-facts k i j e = (ground arith, ground arith)

  -- Invites are read as they stand.
  pub traverse-invites : (m n : Map Text) → traverse (parse_invite lib) m ≡ ok n → m ≡ n
  unfolding traverse
  traverse-invites [] n e = ground arith
  traverse-invites ((k, i) ∷ m) n e =
      let (j, rest, here, later, same) = traverse-cons (parse_invite lib) k i m n e in
      let (eq, _) = parse_invite-facts k i j here in
      let tails = traverse-invites m rest later in rw (eq, tails) same

  traverse-drop_invites :
      (identity : Text) (m : Map Text)
      → traverse (parse_invite lib) m ≡ ok m
      → traverse (parse_invite lib) (drop_invites identity m) ≡ ok (drop_invites identity m)
  unfolding traverse drop_invites
  traverse-drop_invites identity [] e = refl
  traverse-drop_invites identity ((k, i) ∷ m) e =
      let (j, rest, here, later, same) = traverse-cons (parse_invite lib) k i m _ e in
      let tails : rest ≡ m = ground arith in
      let (eq, _) = parse_invite-facts k i j here in
      let again = traverse-drop_invites identity m (rw tails at later) in
      elim (Bool-cases (text_eq i identity)) [
        | inl mine ↦ rw (mine, drop_invites) again
        | inr other ↦ rw (other, drop_invites) (rw (here, traverse) (rw again (rw eq refl)))
      ]

  pub parse_hash_text :
      (token identity : Text)
      → valid_identity identity ≡ true
      → parse_invite lib (token_hash_text lib token) identity ≡ ok identity
  unfolding parse_invite decode_hash token_hash_text
  parse_hash_text token identity v =
      ground (arith, lib.hex_decode-hex_encode (lib.sha256 token), lib.length-sha256 token)

  -- The parsed credentials with a new invite, which replaces those of the identity.
  abbrev pub with_invite : Text → Text → Parsed → Parsed
  with_invite identity invite p = record p {
    invites = insert (token_hash_text lib invite) identity (drop_invites identity p.invites);
  }

  abbrev invited_document : Text → Text → Document → Document
  invited_document identity invite d = record d {
    invites = insert (token_hash_text lib invite) identity (drop_invites identity d.invites);
  }

  create_invite-parts :
      (random : Option Text) (written : Bool) (identity invite : Text) (file : Option File)
      (f : File)
      → create_invite lib random written identity file ≡ ok (invite, f)
      → (d : Document) × (open_document lib file ≡ ok d)
        × (valid_identity identity ≡ true)
        × (f ≡ record {
          accessible = true;
          mode = 0o600;
          document = some (invited_document identity invite d);
        })
  unfolding create_invite write_credentials_file
  create_invite-parts random written identity invite file f g =
      let (d, o) : (x : Document) × (open_document lib file ≡ ok x) = ground arith in
      (d, o, ground arith, ground arith)

  not_empty : (a c : Bool) (k i : Text) (m : Map Text) → (a && is_empty (insert k i m) && c) ≡ false
  not_empty a c k i m = ground (arith, is_empty-insert k i m)

  stored-invited :
      (identity invite : Text) (d : Document) (p : Parsed)
      → valid_identity identity ≡ true
      → Parses lib d p
      → stored lib (
          some (record {
            accessible = true;
            mode = 0o600;
            document = some (invited_document identity invite d);
          }))
        ≡ ok (with_invite identity invite p)
  unfolding stored read_credentials_file
  stored-invited identity invite d p valid h =
      let same = traverse-invites d.invites p.invites h.invites in
      Parses-parse_credentials lib (invited_document identity invite d)
        (with_invite identity invite p)
        (not_empty (is_empty d.users) (is_empty d.access) (token_hash_text lib invite) identity
          (drop_invites identity d.invites))
        (record {
          users = h.users;
          invites =
              traverse-insert (parse_invite lib) (token_hash_text lib invite) identity identity _ _
                (rw same (traverse-drop_invites identity p.invites (rw same at h.invites)))
                (parse_hash_text invite identity valid);
          services = h.services;
        })

  -- Creating an invite writes a file that holds what was there, with the new invite in place of
  -- those of its identity.
  pub create_invite-stored :
      (random : Option Text) (written : Bool) (identity invite : Text) (file : Option File)
      (f : File) (p : Parsed)
      → stored lib file ≡ ok p
      → create_invite lib random written identity file ≡ ok (invite, f)
      → stored lib (some f) ≡ ok (with_invite identity invite p)
  create_invite-stored random written identity invite file f p e g =
      let (d, o, valid, made) = create_invite-parts random written identity invite file f g in
      rw made (stored-invited identity invite d p valid (open_document-Parses lib file p d e o))

  matches-with_invite :
      (identity invite other : Text) (c : Credentials) (p : Parsed)
      → c.parsed ≡ with_invite identity invite p
      → invite_matches lib c identity other
        ≡ text_eq (token_hash_text lib invite) (token_hash_text lib other)
  unfolding invite_matches
  matches-with_invite identity invite other c p e =
      let h = token_hash_text lib other in
      let k = token_hash_text lib invite in
      let found = lookup-insert h k identity (drop_invites identity p.invites) in
      rw e (elim (Bool-cases (text_eq k h)) [
        | inl hit ↦ rw (found, hit, invite_matches) (rw (text_eq_self identity) refl)
        | inr miss ↦
            rw (found, miss, invite_matches)
              (not_registered identity _ (lookup-drop_invites h identity p.invites))
      ])

  -- With the file that a new invite was written to, its identity is let in to enrol exactly by
  -- texts with the hash of that invite: earlier invites of the identity are void.
  pub authenticate_invite-create_invite :
      (random : Option Text) (written : Bool) (identity invite other : Text) (file : Option File)
      (f : File) (p : Parsed) (c : Credentials)
      → stored lib file ≡ ok p
      → create_invite lib random written identity file ≡ ok (invite, f)
      → is_empty c.path ≡ false
      → (authenticate_invite lib (some f) c identity other).1
        ≡ text_eq (token_hash_text lib invite) (token_hash_text lib other)
  unfolding authenticate_invite reload stored
  authenticate_invite-create_invite random written identity invite other file f p c e g backed =
      let now = create_invite-stored random written identity invite file f p e g in
      ground (
        arith,
        matches-with_invite identity invite other
            (record c { parsed = with_invite identity invite p }) p refl,
      )
