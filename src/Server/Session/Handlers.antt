-- ===== src/Server/Session/Handlers.antt =====
-- internal/server/service.go, enrollment.go and authentication_expiry.go: the handlers behind the
-- check of the expiry keep the log of the calls justified.
use tearenv.Common.{
  Bool, true, false, not, ◌||◌, ltb, Text, Option, none, some, List, ◌∷◌, ◌==◌, Result, Member,
  there, ◌≡◌, refl, sym, ap, ◌∙◌, arith, Bool-cases, Option-cases, Result-cases, inl, inr,
}
use tearenv.Authorization.{Service}
use tearenv.Server.Session.{
  Call, enrolled, listed, opened, AuthenticationExpiry, Enrollment, Connection, note, deadline,
  enrollment_identity,
}
use tearenv.Server.Session.Requests.{
  DirectTcpipRequest, OpenError, check_expiry, expiring, service_catalog_handler,
  enrollment_handler, open_channel, service_channel_handler, expiring_channel, ChannelEnd,
}
use tearenv.Server.Session.Steps.{remember}
use tearenv.Server.Session.Audit.{
  last_end, IsBefore, IsAdmission, IsServable, IsJustified, expiry_end, Core, Tried, note-Core,
}

module _ (provisions : Bool) where
  pub record IsSound (s : Connection) : Type 0 where
    pub core : Core provisions s
    pub login : s.connected ≡ true → s.accepted ≡ true
    pub let_in :
        s.accepted ≡ true
        → enrollment_identity (s.user) ≡ none
        → Member (IsAdmission (s.user)) (s.log)

  note-IsSound :
      (c : Call) (s : Connection)
      → IsSound s
      → IsJustified provisions c (s.log)
      → last_end (c ∷ s.log) ≡ last_end (s.log)
      → IsSound (note c s)
  note-IsSound c s h j e = record {
    core = note-Core provisions c s (h.core) j e;
    login = h.login;
    let_in = λ a client. there (h.let_in a client);
  }

  pub remember-IsSound :
      (s : Connection) (r : Bool × Connection)
      → IsSound s
      → s.connected ≡ false
      → Tried provisions s r
      → IsSound (remember (s.accepted) r)
  remember-IsSound s (answer, t) h before tried = record {
    core = record {
      audited = tried.core.audited;
      end_ = tried.core.end_;
      invite = tried.core.invite;
    };
    login = λ e. absurd (ground (arith, tried.connected));
    let_in = λ accepted client.
        let user : t.user ≡ s.user = tried.user in
        let client_ : enrollment_identity (s.user) ≡ none =
          ap enrollment_identity (sym user) ∙ client in
        rw user (elim (Bool-cases (s.accepted)) [
          | inl was ↦ tried.kept (h.let_in was client_)
          | inr was_not ↦ tried.let_in (ground arith) client_
        ]);
  }

  -- A check of the expiry passes in time, or it may close the connection.
  pub data Enforced (s : Connection) : Bool × Connection → Type 0 where
    passed :
        (e : Option AuthenticationExpiry)
        → expiry_end provisions e ≡ expiry_end provisions (s.expiry)
        → IsBefore (s.now) (expiry_end provisions (s.expiry))
        → Enforced s (true, record s { expiry = e })
    stopped : Enforced s (false, record s { closed = s.closed || s.connected })

  pub check_expiry-Enforced :
      (o : Option AuthenticationExpiry) (s : Connection)
      → s.expiry ≡ o
      → Enforced s (check_expiry o s)
  unfolding check_expiry
  check_expiry-Enforced none s same = passed (s.expiry) refl (rw same tt)
  check_expiry-Enforced (some e) s same =
      elim (Bool-cases (not (s.connected) || not (ltb (s.now) (deadline e)))) [
        | inl late ↦ rw late stopped
        | inr in_time ↦
            rw in_time
              (passed (some (record e { started = true })) (rw same refl) (rw same (ground arith)))
      ]

  -- A call for the services of the user of a connection.
  serve-IsSound :
      (c : Call) (s : Connection)
      → IsSound s
      → s.connected ≡ true
      → (IsServable provisions (s.now) (s.user) (s.log) → IsJustified provisions c (s.log))
      → enrollment_identity (s.user) ≡ none
      → IsBefore (s.now) (last_end (s.log))
      → last_end (c ∷ s.log) ≡ last_end (s.log)
      → IsSound (note c s)
  serve-IsSound c s h connected justify client before same =
      note-IsSound c s h
        (justify (record {
          is_client = client;
          was_admitted = h.let_in (h.login connected) client;
          in_time = before;
        }))
        same

  pub service_catalog_handler-IsSound :
      (services : Text → Option (List Service)) (s : Connection)
      → IsSound s
      → s.connected ≡ true
      → IsBefore (s.now) (last_end (s.log))
      → IsSound (service_catalog_handler services s).1
  unfolding service_catalog_handler IsJustified last_end
  service_catalog_handler-IsSound services s h connected before =
      elim (Option-cases (enrollment_identity (s.user))) [
        | inr (identity, named) ↦ rw (named, service_catalog_handler) h
        | inl client ↦
            let next =
              serve-IsSound (listed (s.now) (s.user)) s h connected (λ k. k) client before refl in
            elim (Option-cases (services (s.user))) [
              | inl none_ ↦ rw (client, none_, service_catalog_handler) next
              | inr (found, some_) ↦ rw (client, some_, service_catalog_handler) next
            ]
      ]

  pub enrollment_handler-IsSound :
      (store : Enrollment) (s : Connection)
      → IsSound s
      → IsBefore (s.now) (last_end (s.log))
      → IsSound (enrollment_handler store s).1
  unfolding enrollment_handler IsJustified last_end
  enrollment_handler-IsSound store s h before = elim (Option-cases (s.enrollment)) [
    | inl none_ ↦ rw (none_, enrollment_handler) h
    | inr (a, given) ↦
        let (invite, provided) = h.core.invite a given in
        rw (given, enrollment_handler)
          (note-IsSound (enrolled (s.now) (a.identity) (a.invite)) s h (invite, provided, before)
            refl)
  ]

  open_channel-IsSound :
      (open_ : Text → Text → Result OpenError Service) (accepts : Bool) (name : Text)
      (s : Connection)
      → IsSound s
      → s.connected ≡ true
      → enrollment_identity (s.user) ≡ none
      → IsBefore (s.now) (last_end (s.log))
      → IsSound (open_channel open_ accepts name s).1
  unfolding open_channel IsJustified last_end
  open_channel-IsSound open_ accepts name s h connected client before =
      let next =
        serve-IsSound (opened (s.now) (s.user) name) s h connected (λ k. k) client before refl in
      elim (Result-cases (open_ (s.user) name)) [
        | inl (e, failed_) ↦ rw (failed_, open_channel) next
        | inr (service, found) ↦ rw (found, open_channel) next
      ]

  pub service_channel_handler-IsSound :
      (open_ : Text → Text → Result OpenError Service) (accepts : Bool)
      (request : Option DirectTcpipRequest) (s : Connection)
      → IsSound s
      → s.connected ≡ true
      → IsBefore (s.now) (last_end (s.log))
      → IsSound (service_channel_handler open_ accepts request s).1
  unfolding service_channel_handler
  service_channel_handler-IsSound open_ accepts none s h connected before =
      elim (Option-cases (enrollment_identity (s.user))) [
        | inr (identity, named) ↦ rw (named, service_channel_handler) h
        | inl client ↦ rw (client, service_channel_handler) h
      ]
  service_channel_handler-IsSound open_ accepts (some r) s h connected before =
      elim (Option-cases (enrollment_identity (s.user))) [
        | inr (identity, named) ↦ rw (named, service_channel_handler) h
        | inl client ↦ elim (Bool-cases (r.service_port == 0)) [
          | inl right ↦
              rw (client, right, service_channel_handler)
                (open_channel-IsSound open_ accepts (r.service_name) s h connected client before)
          | inr wrong ↦ rw (client, wrong, service_channel_handler) h
        ]
      ]

  passed-IsSound :
      (s : Connection) (e : Option AuthenticationExpiry)
      → IsSound s
      → expiry_end provisions e ≡ expiry_end provisions (s.expiry)
      → IsSound (record s { expiry = e })
  passed-IsSound s e h same = record {
    core = record { audited = h.core.audited; end_ = same ∙ h.core.end_; invite = h.core.invite };
    login = h.login;
    let_in = h.let_in;
  }

  pub closed-IsSound : (s : Connection) (c : Bool) → IsSound s → IsSound (record s { closed = c })
  closed-IsSound s c h = record {
    core = record { audited = h.core.audited; end_ = h.core.end_; invite = h.core.invite };
    login = h.login;
    let_in = h.let_in;
  }

  in_time :
      (s : Connection)
      → IsSound s
      → IsBefore (s.now) (expiry_end provisions (s.expiry))
      → IsBefore (s.now) (last_end (s.log))
  in_time s h before = rw (← h.core.end_) before

  -- A handler behind the check of the expiry.
  pub expiring-IsSound :
      {Reply : Type 0} (next : Connection → Option Reply × Connection) (s : Connection)
      (r : Bool × Connection)
      → IsSound s
      → s.connected ≡ true
      → ((t : Connection)
          → IsSound t
          → t.connected ≡ true
          → IsBefore (t.now) (last_end (t.log))
          → IsSound (next t).1)
      → Enforced s r
      → IsSound (expiring next r).1
  unfolding expiring
  expiring-IsSound next s _ h connected keeps stopped = closed-IsSound s _ h
  expiring-IsSound next s _ h connected keeps (passed e same before) =
      keeps (record s { expiry = e }) (passed-IsSound s e h same) connected (in_time s h before)

  pub expiring_channel-IsSound :
      (next : Connection → ChannelEnd × Connection) (s : Connection) (r : Bool × Connection)
      → IsSound s
      → s.connected ≡ true
      → ((t : Connection)
          → IsSound t
          → t.connected ≡ true
          → IsBefore (t.now) (last_end (t.log))
          → IsSound (next t).1)
      → Enforced s r
      → IsSound (expiring_channel next r).1
  unfolding expiring_channel
  expiring_channel-IsSound next s _ h connected keeps stopped = closed-IsSound s _ h
  expiring_channel-IsSound next s _ h connected keeps (passed e same before) =
      keeps (record s { expiry = e }) (passed-IsSound s e h same) connected (in_time s h before)
