-- ===== src/Server/Session/Audit.antt =====
-- internal/server: what the calls of one connection show about each other.
use tearenv.Common.{
  ℕ, ◌*◌, ◌<◌, Bool, true, false, Text, Option, none, some, List, [], ◌∷◌, Member, here, there, ◌≡◌,
  refl, sym, ◌∙◌, arith, Option-cases, inl, inr,
}
use tearenv.Authorization.Providers.{Attempt, Verified}
use tearenv.Server.Session.{
  Call, answered, invited, provisioned, admitted, enrolled, listed, opened, EnrollmentAttempt,
  AuthenticationExpiry, Connection, note, enrollment_identity, provision_environment, new_expiry,
  admit,
}
use tearenv.Server.Session.Steps.{provisioner_of}

-- The end of the last admission that had one.
unfoldable pub last_end : List Call → Option ℕ
last_end [] = none
last_end (admitted v ∷ calls) = elim (v.valid_before) [ some t ↦ some t | none ↦ last_end calls ]
last_end (_ ∷ calls) = last_end calls

-- A time before the end, if there is one.
abbrev pub IsBefore : ℕ → Option ℕ → Type 0
IsBefore now none = Unit {0}
IsBefore now (some t) = now < t * 1000000000

abbrev pub IsAdmission : Text → Call → Type 0
IsAdmission identity c = (v : Verified) × (c ≡ admitted v) × (v.identity ≡ identity)

abbrev pub IsAnswer : Verified → Call → Type 0
IsAnswer v c = (a : Attempt) × (c ≡ answered a (some v)) × (a.identity ≡ v.identity)

abbrev pub IsInvite : Text → Text → Call → Type 0
IsInvite identity invite c = c ≡ invited identity invite true

abbrev pub IsProvision : Text → Call → Type 0
IsProvision identity c = c ≡ provisioned identity true

module _ (provisions : Bool) where
  -- A successful call to the provisioner, if there is one.
  abbrev pub WasProvisioned : Text → List Call → Type 0
  WasProvisioned identity calls = provisions ≡ true → Member (IsProvision identity) calls

  -- What must come before a call for the services of an identity.
  pub record IsServable (now : ℕ) (identity : Text) (earlier : List Call) : Type 0 where
    pub is_client : enrollment_identity identity ≡ none
    pub was_admitted : Member (IsAdmission identity) earlier
    pub in_time : IsBefore now (last_end earlier)

  -- What must come before a call.
  unfoldable pub IsJustified : Call → List Call → Type 0
  IsJustified (admitted v) earlier =
      Member (IsAnswer v) earlier × WasProvisioned (v.identity) earlier
  IsJustified (listed now identity) earlier = IsServable now identity earlier
  IsJustified (opened now identity name) earlier = IsServable now identity earlier
  IsJustified (enrolled now identity invite) earlier =
      Member (IsInvite identity invite) earlier
      × WasProvisioned identity earlier
      × IsBefore now (last_end earlier)
  IsJustified _ earlier = Unit {0}

  -- Every call of a log is justified.
  unfoldable pub IsAudited : List Call → Type 0
  IsAudited [] = Unit {0}
  IsAudited (c ∷ earlier) = IsJustified c earlier × IsAudited earlier

  abbrev pub expiry_end : Option AuthenticationExpiry → Option ℕ
  expiry_end none = none
  expiry_end (some e) = some e.valid_before

  -- What the context and the log have in common.
  pub record Core (s : Connection) : Type 0 where
    pub audited : IsAudited (s.log)
    pub end_ : expiry_end (s.expiry) ≡ last_end (s.log)
    pub invite :
        (a : EnrollmentAttempt)
        → s.enrollment ≡ some a
        → Member (IsInvite (a.identity) (a.invite)) (s.log) × WasProvisioned (a.identity) (s.log)

  pub there_provisioned :
      (identity : Text) (c : Call) (calls : List Call)
      → WasProvisioned identity calls
      → WasProvisioned identity (c ∷ calls)
  there_provisioned identity c calls h e = there (h e)

  -- A call that admits nobody.
  pub note-Core :
      (c : Call) (s : Connection)
      → Core s
      → IsJustified c (s.log)
      → last_end (c ∷ s.log) ≡ last_end (s.log)
      → Core (note c s)
  unfolding IsAudited
  note-Core c s h j e = record {
    audited = (j, h.audited);
    end_ = h.end_ ∙ sym e;
    invite = λ a given.
        let (i, p) = h.invite a given in (there i, there_provisioned (a.identity) c (s.log) p);
  }

  -- An attempt: the context stays that of the user, and if it was accepted, and the user is not an
  -- enrolment, the user was admitted.
  pub record Tried (s : Connection) (r : Bool × Connection) : Type 0 where
    pub core : Core (r.1)
    pub user : r.1.user ≡ s.user
    pub connected : r.1.connected ≡ s.connected
    pub kept : Member (IsAdmission (s.user)) (s.log) → Member (IsAdmission (s.user)) (r.1.log)
    pub let_in :
        r.0 ≡ true → enrollment_identity (s.user) ≡ none → Member (IsAdmission (s.user)) (r.1.log)

  pub refused : (s : Connection) → Core s → Tried s (false, s)
  refused s h = record { core = h; user = refl; connected = refl; kept = λ m. m; let_in = λ e. cc }

  pub after_note :
      (c : Call) (s : Connection) (r : Bool × Connection) → Tried (note c s) r → Tried s r
  after_note c s r h = record {
    core = h.core;
    user = h.user;
    connected = h.connected;
    kept = λ m. h.kept (there m);
    let_in = h.let_in;
  }

  -- The provisioner is nil, or it was asked.
  pub data Provisioning (s : Connection) (identity : Text) : Bool × Connection → Type 0 where
    unasked : provisions ≡ false → Provisioning s identity (true, s)
    asked : (b : Bool) → Provisioning s identity (b, note (provisioned identity b) s)

  pub provision_environment-Provisioning :
      (provisions_ : Bool) (provision : Text → Bool) (identity : Text) (s : Connection)
      → provisions ≡ provisions_
      → Provisioning s identity
          (provision_environment (provisioner_of provisions_ provision) identity s)
  unfolding provision_environment
  provision_environment-Provisioning true provision identity s e = asked (provision identity)
  provision_environment-Provisioning false provision identity s e = unasked e

  admitted-Core :
      (v : Verified) (s : Connection)
      → Core s
      → Member (IsAnswer v) (s.log)
      → WasProvisioned (v.identity) (s.log)
      → Core (note (admitted v) (record s { expiry = new_expiry (v.valid_before) (s.expiry) }))
  unfolding IsAudited IsJustified last_end
  admitted-Core v s h answer provided = record {
    audited = ((answer, provided), h.audited);
    end_ = elim (Option-cases (v.valid_before)) [
      | inl none_ ↦ rw none_ (h.end_)
      | inr (t, some_) ↦ rw some_ refl
    ];
    invite = λ a given.
        let (i, p) = h.invite a given in
        (there i, there_provisioned (a.identity) (admitted v) (s.log) p);
  }

  admit-admitted :
      (v : Verified) (s : Connection)
      → Core s
      → Member (IsAnswer v) (s.log)
      → v.identity ≡ s.user
      → WasProvisioned (v.identity) (s.log)
      → Tried s (admit v (true, s))
  unfolding admit
  admit-admitted v s h answer same provided = record {
    core = admitted-Core v s h answer provided;
    user = refl;
    connected = refl;
    kept = λ m. there m;
    let_in = λ e client. here (v, refl, same);
  }

  pub admit-Tried :
      (v : Verified) (s : Connection) (r : Bool × Connection)
      → Core s
      → Member (IsAnswer v) (s.log)
      → v.identity ≡ s.user
      → Provisioning s (v.identity) r
      → Tried s (admit v r)
  unfolding admit IsJustified last_end
  admit-Tried v s _ h answer same (unasked e) =
      admit-admitted v s h answer same (λ k. absurd (ground arith))
  admit-Tried v s _ h answer same (asked true) =
      let c = provisioned (v.identity) true in
      after_note c s _
        (admit-admitted v (note c s) (note-Core c s h tt refl) (there answer) same (λ k. here refl))
  admit-Tried v s _ h answer same (asked false) =
      let c = provisioned (v.identity) false in
      after_note c s _ (refused (note c s) (note-Core c s h tt refl))
