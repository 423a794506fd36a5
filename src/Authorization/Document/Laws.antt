-- ===== src/Authorization/Document/Laws.antt =====
-- Parsing what the package writes gives back what was written.
use tearenv.Common.{
  ◌≡◌, ◌≢◌, refl, ℤ, true, false, Text, Map, Option, none, some, [], ◌∷◌, length, is_empty, ok,
  traverse, traverse-cons, arith,
}
use tearenv.Authorization.{Service, Workload}
use tearenv.Authorization.Names.{valid_identity}
use tearenv.Authorization.Library.{Library}
use tearenv.Authorization.Services.{validate_service, bad_token_hash, Error}
use tearenv.Authorization.Services.Laws.{validate_service_idem}
use tearenv.Authorization.Document.{
  CredentialRecord, decode_hash, parse_user, parse_timeout, parse_workload, parse_service,
  hashed_users, workload_record, service_record,
}

is_empty-of_length : (t : Text) → length t ≡ 64 → is_empty t ≡ false
is_empty-of_length [] e = absurd (omega arith)
is_empty-of_length (c ∷ t) e = refl

is_empty-of_ne : (t : Text) → t ≢ [] → is_empty t ≡ false
is_empty-of_ne [] h = absurd (h refl)
is_empty-of_ne (c ∷ t) h = refl

module _ (lib : Library) where
  decode_hash-length : (e : Error) (t h : Text) → decode_hash lib e t ≡ ok h → length h ≡ 32
  unfolding decode_hash
  decode_hash-length e t h p = ground arith

  -- An accepted user has an identity of the pattern and a hash of 32 bytes.
  pub parse_user-facts :
      (k h : Text) (r : CredentialRecord)
      → parse_user lib k r ≡ ok h
      → (valid_identity k ≡ true) × (length h ≡ 32)
  unfolding parse_user
  parse_user-facts k h r e =
      ground (arith, decode_hash-length bad_token_hash r.token_hash h, lib.length-sha256 r.token)

  pub parse_hashed_user :
      (k h : Text)
      → valid_identity k ≡ true
      → length h ≡ 32
      → parse_user lib k (record { token = []; token_hash = lib.hex_encode h }) ≡ ok h
  unfolding parse_user decode_hash
  parse_hashed_user k h v n = ground (
    arith,
    is_empty-of_length (lib.hex_encode h),
    lib.length-hex_encode h,
    lib.hex_decode-hex_encode h,
  )

  -- Rewriting the users as hashes keeps every token: `parseCredentials` reads the same hashes.
  pub parse-hashed_users :
      (m : Map CredentialRecord) (users : Map Text)
      → traverse (parse_user lib) m ≡ ok users
      → traverse (parse_user lib) (hashed_users lib users) ≡ ok users
  unfolding traverse hashed_users
  parse-hashed_users [] users e = let same : [] ≡ users = ground arith in rw (← same) refl
  parse-hashed_users ((k, r) ∷ m) users e =
      let (h, rest, here, later, same) = traverse-cons (parse_user lib) k r m users e in
      let (valid, size) = parse_user-facts k h r here in
      rw (← same) (
        rw (parse_hashed_user k h valid size, traverse) (rw (parse-hashed_users m rest later) refl))

  parse_timeout-string :
      (e : Error) (fallback d : ℤ) → parse_timeout lib e fallback (lib.duration_string d) ≡ ok d
  unfolding parse_timeout
  parse_timeout-string e fallback d =
      rw (is_empty-of_ne _ (lib.duration_string-ne-nil d), lib.parse_duration-duration_string d)
        refl

  parse-workload_record : (w : Option Workload) → parse_workload lib (workload_record lib w) ≡ ok w
  unfolding parse_workload workload_record
  parse-workload_record none = refl
  parse-workload_record (some w) =
      rw (parse_timeout-string _ _ w.ready_timeout, parse_timeout-string _ _ w.idle_timeout) refl

  -- The record written for a service that passed validation reads back as that service.
  pub parse-service_record :
      (s t : Service)
      → validate_service lib s ≡ ok t
      → parse_service lib t.name (service_record lib t) ≡ ok t
  unfolding parse_service service_record
  parse-service_record s t e =
      rw (parse-workload_record t.workload) (validate_service_idem lib s t e)
