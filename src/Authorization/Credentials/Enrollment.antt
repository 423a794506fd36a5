-- ===== src/Authorization/Credentials/Enrollment.antt =====
-- `Enroll` and `AuthenticateToken`: an enrolment takes an invite once and gives a token.
use tearenv.Common.{
  ◌≡◌, ◌≢◌, Bool, true, false, ◌&&◌, Text, codes, text_eq, text_eq_iff, text_eq_self, Map, lookup,
  insert, delete, Option, some, [], ◌++◌, is_empty, if◌then◌else◌, ok, err, traverse-insert,
  traverse-delete, traverse-lookup, lookup-insert, lookup-delete, is_empty-insert, Option-cases,
  Bool-cases, inl, inr, arith, ◌⊎◌,
}
use tearenv.Authorization.Names.{valid_identity}
use tearenv.Authorization.Library.{Library}
use tearenv.Authorization.Services.{bad_invite}
use tearenv.Authorization.Document.{
  Document, Parsed, parse_user, parse_invite, parse_credentials, set_hashed_users,
}
use tearenv.Authorization.Document.Laws.{parse_hashed_user, parse-hashed_users}
use tearenv.Authorization.Credentials.{
  File, Credentials, read_credentials_file, write_credentials_file, random_token, token_hash_text,
  authenticate_token, enrolled, enroll,
}
use tearenv.Authorization.Credentials.Stored.{
  Parses, parse_credentials-Parses, Parses-parse_credentials,
}
use tearenv.Authorization.Credentials.Invites.{parse_invite-facts, traverse-invites}

module _ (lib : Library) where
  -- The parsed credentials after an enrolment.
  abbrev pub after_enrollment : Text → Text → Text → Parsed → Parsed
  after_enrollment identity invite token p = record p {
    users = insert identity (lib.sha256 token) p.users;
    invites = delete (token_hash_text lib invite) p.invites;
  }

  -- An invited identity is one of the pattern.
  invited-valid :
      (hash identity : Text) (d : Document) (p : Parsed)
      → Parses lib d p
      → lookup hash p.invites ≡ some identity
      → valid_identity identity ≡ true
  invited-valid hash identity d p h found =
      let same = traverse-invites lib d.invites p.invites h.invites in
      let (j, here, _) =
        traverse-lookup (parse_invite lib) hash identity d.invites p.invites h.invites
          (rw same found) in
      (parse_invite-facts lib hash identity j here).1

  parse_new_user :
      (identity token : Text)
      → valid_identity identity ≡ true
      → parse_user lib identity (record { token = []; token_hash = token_hash_text lib token })
        ≡ ok (lib.sha256 token)
  unfolding token_hash_text
  parse_new_user identity token v =
      parse_hashed_user lib identity (lib.sha256 token) v (lib.length-sha256 token)

  enrolled_not_empty :
      (identity invite token : Text) (users : Map Text) (d : Document)
      → (is_empty (enrolled lib identity invite token users d).users
          && is_empty (enrolled lib identity invite token users d).invites
          && is_empty (enrolled lib identity invite token users d).access)
        ≡ false
  unfolding enrolled
  enrolled_not_empty identity invite token users d = ground (
    arith,
    is_empty-insert identity (record { token = []; token_hash = token_hash_text lib token })
        (set_hashed_users lib users d).users,
  )

  parse-enrolled :
      (identity invite token : Text) (d : Document) (p : Parsed)
      → parse_credentials lib d ≡ ok p
      → lookup (token_hash_text lib invite) p.invites ≡ some identity
      → parse_credentials lib (enrolled lib identity invite token p.users d)
        ≡ ok (after_enrollment identity invite token p)
  unfolding enrolled set_hashed_users
  parse-enrolled identity invite token d p e found =
      let h = parse_credentials-Parses lib d p e in
      let v = invited-valid (token_hash_text lib invite) identity d p h found in
      Parses-parse_credentials lib (enrolled lib identity invite token p.users d)
        (after_enrollment identity invite token p)
        (enrolled_not_empty identity invite token p.users d)
        (record {
          users =
              traverse-insert (parse_user lib) identity _ (lib.sha256 token) _ p.users
                (parse-hashed_users lib d.users p.users h.users) (parse_new_user identity token v);
          invites =
              traverse-delete (parse_invite lib) (token_hash_text lib invite) d.invites p.invites
                h.invites;
          services = h.services;
        })

  -- How an enrolment ends: if the invite is in the file for the identity, with a token, the file
  -- written and the credentials reloaded, and otherwise with an error.
  abbrev pub EnrollOutcome : Text → File → Credentials → Text → Text → Document → Parsed → Type 0
  EnrollOutcome random f c identity invite d p =
      let token = codes "tu_" ++ random in
      ((lookup (token_hash_text lib invite) p.invites ≡ some identity)
        × (enroll lib (some random) true (some f) c identity invite
            ≡ ok (
              token,
              record {
                accessible = true;
                mode = 0o600;
                document = some (enrolled lib identity invite token p.users d);
              },
              record c { parsed = after_enrollment identity invite token p },
            )))
      ⊎ ((lookup (token_hash_text lib invite) p.invites ≢ some identity)
          × (enroll lib (some random) true (some f) c identity invite ≡ err bad_invite))

  -- Every branch of an enrolment whose file is readable and whose token and write do not fail: the
  -- invite must be in the file, for that identity. If it is, the token is the prefix and the random
  -- text, the file is written, and the credentials have the token's hash for the identity, no
  -- longer have the invite, and are otherwise what the file held. If not, the error is that of a
  -- bad invite.
  pub enroll_lem :
      (random : Text) (f : File) (c : Credentials) (identity invite : Text) (d : Document)
      (p : Parsed)
      → is_empty c.path ≡ false
      → read_credentials_file (some f) ≡ ok d
      → parse_credentials lib d ≡ ok p
      → EnrollOutcome random f c identity invite d p
  unfolding enroll random_token write_credentials_file
  enroll_lem random f c identity invite d p backed r e =
      elim (Option-cases (lookup (token_hash_text lib invite) p.invites)) [
        | inl missing ↦ inr (λ x. cc, ground arith)
        | inr (i, found) ↦ elim (Bool-cases (text_eq i identity)) [
          | inl same ↦
              let mine : i ≡ identity = (text_eq_iff i identity).0 same in
              let here : lookup (token_hash_text lib invite) p.invites ≡ some identity =
                ground arith in
              inl (
                here,
                ground (arith, parse-enrolled identity invite (codes "tu_" ++ random) d p e here),
              )
          | inr other ↦ inr (λ x. ground (arith, text_eq_iff i identity), ground arith)
        ]
      ]

  -- The parts of an enrolment that succeeds.
  record Enrolled (file : Option File) (c : Credentials) (identity invite token : Text) (f : File)
      (c' : Credentials) : Type 0 where
    d : Document
    p : Parsed
    reads : read_credentials_file file ≡ ok d
    parses : parse_credentials lib d ≡ ok p
    invited : lookup (token_hash_text lib invite) p.invites ≡ some identity
    writes : f ≡ record {
      accessible = true;
      mode = 0o600;
      document = some (enrolled lib identity invite token p.users d);
    }
    holds : c' ≡ record c { parsed = after_enrollment identity invite token p }
    backed : is_empty c.path ≡ false

  enroll-parts :
      (random : Option Text) (written : Bool) (file : Option File) (c : Credentials)
      (identity invite token : Text) (f : File) (c' : Credentials) (d : Document) (p : Parsed)
      (i : Text)
      → read_credentials_file file ≡ ok d
      → parse_credentials lib d ≡ ok p
      → lookup (token_hash_text lib invite) p.invites ≡ some i
      → enroll lib random written file c identity invite ≡ ok (token, f, c')
      → Enrolled file c identity invite token f c'
  unfolding enroll write_credentials_file
  enroll-parts random written file c identity invite token f c' d p i r e found g =
      let mine : i ≡ identity = ground (arith, text_eq_iff i identity) in
      let here : lookup (token_hash_text lib invite) p.invites ≡ some identity =
        rw (← mine) found in
      let next = parse-enrolled identity invite token d p e here in
      record {
        d = d;
        p = p;
        reads = r;
        parses = e;
        invited = here;
        writes = ground (arith, text_eq_iff i identity);
        holds = ground (arith, text_eq_iff i identity, next);
        backed = ground arith;
      }

  enroll-Enrolled :
      (random : Option Text) (written : Bool) (file : Option File) (c : Credentials)
      (identity invite token : Text) (f : File) (c' : Credentials)
      → enroll lib random written file c identity invite ≡ ok (token, f, c')
      → Enrolled file c identity invite token f c'
  unfolding enroll
  enroll-Enrolled random written file c identity invite token f c' g =
      let (d, r) : (x : Document) × (read_credentials_file file ≡ ok x) = ground arith in
      let (p, e) : (x : Parsed) × (parse_credentials lib d ≡ ok x) = ground arith in
      let (i, found) : (x : Text) × (lookup (token_hash_text lib invite) p.invites ≡ some x) =
        ground arith in
      enroll-parts random written file c identity invite token f c' d p i r e found g

  -- After an enrolment a text authenticates the identity exactly if it has the hash of the new
  -- token, and every other identity is authenticated by the tokens that the file gave it before.
  pub authenticate_token-enroll :
      (random : Option Text) (written : Bool) (f f' : File) (c c' : Credentials)
      (identity invite token : Text) (d : Document) (p : Parsed) (j t : Text)
      → read_credentials_file (some f) ≡ ok d
      → parse_credentials lib d ≡ ok p
      → enroll lib random written (some f) c identity invite ≡ ok (token, f', c')
      → authenticate_token lib c' j t ≡ (
          if text_eq identity j
          then text_eq (lib.sha256 t) (lib.sha256 token)
          else authenticate_token lib (record c { parsed = p }) j t)
  unfolding authenticate_token
  authenticate_token-enroll random written f f' c c' identity invite token d p j t r e g =
      let parts = enroll-Enrolled random written (some f) c identity invite token f' c' g in
      let same_d : d ≡ parts.d = ground (arith, parts.reads) in
      let same_p : p ≡ parts.p = ground (arith, parts.parses) in
      rw parts.holds
        (rw same_p (ground (arith, lookup-insert j identity (lib.sha256 token) parts.p.users)))

  -- With the file that an enrolment has written, a second enrolment by the same invite is refused,
  -- whoever asks.
  pub enroll_once :
      (random again : Option Text) (written written' : Bool) (file : Option File)
      (c c' e : Credentials) (identity other invite token : Text) (f : File)
      → enroll lib random written file c identity invite ≡ ok (token, f, c')
      → is_empty e.path ≡ false
      → enroll lib again written' (some f) e other invite ≡ err bad_invite
  unfolding enroll read_credentials_file
  enroll_once random again written written' file c c' e identity other invite token f g backed =
      let parts = enroll-Enrolled random written file c identity invite token f c' g in
      let next = parse-enrolled identity invite token parts.d parts.p parts.parses parts.invited in
      rw parts.writes (
        ground (
          arith,
          next,
          lookup-delete (token_hash_text lib invite) (token_hash_text lib invite) parts.p.invites,
          text_eq_self (token_hash_text lib invite),
        ))
