-- ===== src/Server/Session/Attempts.antt =====
-- internal/server/server.go: an attempt to authenticate keeps the log of the calls justified.
use tearenv.Common.{
  Bool, true, false, Text, text_eq, text_eq_iff, Option, none, some, Member, here, there, ◌≡◌, refl,
  sym, ◌∙◌, arith, Bool-cases, Option-cases, Result-cases, inl, inr,
}
use tearenv.Authorization.Providers.{Attempt, Verified, PublicKey, Authenticator}
use tearenv.Server.Session.{
  failed, answered, invited, provisioned, Enrollment, Connection, note, enrollment_identity, settle,
  authenticate, begin_enrollment, authenticate_enrollment, password_handler, public_key_handler,
}
use tearenv.Server.Session.Steps.{provisioner_of}
use tearenv.Server.Session.Audit.{
  last_end, IsInvite, WasProvisioned, IsJustified, Core, Tried, Provisioning, unasked, asked,
  note-Core, refused, after_note, provision_environment-Provisioning, admit-Tried,
}

module _ (provisions : Bool) (provision : Text → Bool) where
  settle-Tried :
      (attempt : Attempt) (answer : Option Verified) (s : Connection)
      → Core provisions s
      → attempt.identity ≡ s.user
      → Tried provisions s (
          settle
            (provisioner_of provisions provision)
            attempt
            answer
            (note (answered attempt answer) s))
  unfolding settle IsJustified last_end
  settle-Tried attempt none s h same =
      let c = answered attempt none in
      after_note provisions c s _
        (refused provisions (note c s) (note-Core provisions c s h tt refl))
  settle-Tried attempt (some v) s h same =
      let c = answered attempt (some v) in
      let noted = note-Core provisions c s h tt refl in
      after_note provisions c s _ (elim (Bool-cases (text_eq (v.identity) (attempt.identity))) [
        | inl equal ↦
            let named = (text_eq_iff (v.identity) (attempt.identity)).0 equal in
            rw equal (
              admit-Tried provisions v (note c s) _ noted (here (attempt, refl, sym named))
                (named ∙ same)
                (provision_environment-Provisioning provisions provisions provision (v.identity)
                  (note c s) refl))
        | inr differs ↦ rw differs (refused provisions (note c s) noted)
      ])

  authenticate-Tried :
      {E : Type 0} (authenticator : Authenticator E) (attempt : Attempt) (s : Connection)
      → Core provisions s
      → attempt.identity ≡ s.user
      → Tried provisions s
          (authenticate (provisioner_of provisions provision) authenticator attempt s)
  unfolding authenticate IsJustified last_end
  authenticate-Tried authenticator attempt s h same = elim (Result-cases (authenticator attempt)) [
    | inl (e, failed_) ↦
        let c = failed attempt in
        rw (failed_, authenticate)
          (after_note provisions c s _
            (refused provisions (note c s) (note-Core provisions c s h tt refl)))
    | inr (answer, given) ↦ rw (given, authenticate) (settle-Tried attempt answer s h same)
  ]

  enrolling-Core :
      (identity invite : Text) (s : Connection)
      → Core provisions s
      → Member (IsInvite identity invite) (s.log)
      → WasProvisioned provisions identity (s.log)
      → Core provisions
          (record s { enrollment = some (record { identity = identity; invite = invite }) })
  enrolling-Core identity invite s h invited_ provided = record {
    audited = h.audited;
    end_ = h.end_;
    invite = λ a given.
        let same : identity ≡ a.identity = cc in
        let same_invite : invite ≡ a.invite = cc in rw (← same, ← same_invite) (invited_, provided);
  }

  begin_enrollment-accepted :
      (identity invite : Text) (s : Connection)
      → Core provisions s
      → Member (IsInvite identity invite) (s.log)
      → enrollment_identity (s.user) ≡ some identity
      → WasProvisioned provisions identity (s.log)
      → Tried provisions s (begin_enrollment identity invite (true, s))
  unfolding begin_enrollment
  begin_enrollment-accepted identity invite s h invited_ named provided = record {
    core = enrolling-Core identity invite s h invited_ provided;
    user = refl;
    connected = refl;
    kept = λ m. m;
    let_in = λ e client. absurd (ground arith);
  }

  begin_enrollment-Tried :
      (identity invite : Text) (s : Connection) (r : Bool × Connection)
      → Core provisions s
      → Member (IsInvite identity invite) (s.log)
      → enrollment_identity (s.user) ≡ some identity
      → Provisioning provisions s identity r
      → Tried provisions s (begin_enrollment identity invite r)
  unfolding begin_enrollment IsJustified last_end
  begin_enrollment-Tried identity invite s _ h invited_ named (unasked e) =
      begin_enrollment-accepted identity invite s h invited_ named (λ k. absurd (ground arith))
  begin_enrollment-Tried identity invite s _ h invited_ named (asked true) =
      let c = provisioned identity true in
      after_note provisions c s _ (
        begin_enrollment-accepted identity invite (note c s) (note-Core provisions c s h tt refl)
          (there invited_) named (λ k. here refl))
  begin_enrollment-Tried identity invite s _ h invited_ named (asked false) =
      let c = provisioned identity false in
      after_note provisions c s _
        (refused provisions (note c s) (note-Core provisions c s h tt refl))

  authenticate_enrollment-Tried :
      (store : Option Enrollment) (identity invite : Text) (s : Connection)
      → Core provisions s
      → enrollment_identity (s.user) ≡ some identity
      → Tried provisions s
          (authenticate_enrollment (provisioner_of provisions provision) store identity invite s)
  unfolding authenticate_enrollment IsJustified last_end
  authenticate_enrollment-Tried none identity invite s h named = refused provisions s h
  authenticate_enrollment-Tried (some store) identity invite s h named =
      elim (Bool-cases (store.authenticate_invite identity invite)) [
        | inl right ↦
            let c = invited identity invite true in
            rw right (
              after_note provisions c s _ (
                begin_enrollment-Tried identity invite (note c s) _
                  (note-Core provisions c s h tt refl) (here refl) named
                  (provision_environment-Provisioning provisions provisions provision identity
                    (note c s) refl)))
        | inr wrong ↦
            let c = invited identity invite false in
            rw wrong (
              after_note provisions c s _
                (refused provisions (note c s) (note-Core provisions c s h tt refl)))
      ]

  pub password_handler-Tried :
      {E : Type 0} (store : Option Enrollment) (authenticator : Authenticator E) (secret : Text)
      (s : Connection)
      → Core provisions s
      → Tried provisions s
          (password_handler (provisioner_of provisions provision) store authenticator secret s)
  unfolding password_handler
  password_handler-Tried store authenticator secret s h =
      elim (Option-cases (enrollment_identity (s.user))) [
        | inl client ↦ rw (client, password_handler) (authenticate-Tried authenticator _ s h refl)
        | inr (identity, named) ↦
            rw (named, password_handler)
              (authenticate_enrollment-Tried store identity secret s h named)
      ]

  pub public_key_handler-Tried :
      {E : Type 0} (authenticator : Authenticator E) (key : PublicKey) (s : Connection)
      → Core provisions s
      → Tried provisions s
          (public_key_handler (provisioner_of provisions provision) authenticator key s)
  unfolding public_key_handler
  public_key_handler-Tried authenticator key s h = authenticate-Tried authenticator _ s h refl
