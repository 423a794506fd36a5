-- ===== src/Server/Session/Invariant.antt =====
-- internal/server: what holds of a connection whatever its client does.
use tearenv.Common.{ℕ, Bool, true, Text, refl}
use tearenv.Server.Session.{Connection}
use tearenv.Server.Session.Requests.{
  enforce_authentication_expiry, service_catalog_handler, enrollment_handler,
  service_channel_handler,
}
use tearenv.Server.Session.Steps.{
  Step, try_password, try_public_key, log_in, pass, list_services, enroll_identity, open_service,
  fire_timer, Reach, begins, continues, new_connection,
}
use tearenv.Server.Session.Audit.{last_end, IsAudited}
use tearenv.Server.Session.Attempts.{password_handler-Tried, public_key_handler-Tried}
use tearenv.Server.Session.Handlers.{
  IsSound, remember-IsSound, check_expiry-Enforced, service_catalog_handler-IsSound,
  enrollment_handler-IsSound, service_channel_handler-IsSound, closed-IsSound, expiring-IsSound,
  expiring_channel-IsSound,
}

module _ (provisions : Bool) (E : Type 0) where
  Step-IsSound :
      (s t : Connection) → IsSound provisions s → Step E provisions s t → IsSound provisions t
  unfolding enforce_authentication_expiry
  Step-IsSound s _ h (try_password _ provision store authenticator secret before) =
      remember-IsSound provisions s _ h before
        (password_handler-Tried provisions provision store authenticator secret s (h.core))
  Step-IsSound s _ h (try_public_key _ provision authenticator key before) =
      remember-IsSound provisions s _ h before
        (public_key_handler-Tried provisions provision authenticator key s (h.core))
  Step-IsSound s _ h (log_in _ accepted) = record {
    core = record { audited = h.core.audited; end_ = h.core.end_; invite = h.core.invite };
    login = λ e. accepted;
    let_in = h.let_in;
  }
  Step-IsSound s _ h (pass _ n) = record {
    core = record { audited = h.core.audited; end_ = h.core.end_; invite = h.core.invite };
    login = h.login;
    let_in = h.let_in;
  }
  Step-IsSound s _ h (list_services _ services connected open_) =
      expiring-IsSound provisions (service_catalog_handler services) s _ h connected
        (service_catalog_handler-IsSound provisions services)
        (check_expiry-Enforced provisions (s.expiry) s refl)
  Step-IsSound s _ h (enroll_identity _ store connected open_) =
      expiring-IsSound provisions (enrollment_handler store) s _ h connected
        (λ t k c before. enrollment_handler-IsSound provisions store t k before)
        (check_expiry-Enforced provisions (s.expiry) s refl)
  Step-IsSound s _ h (open_service _ dial accepts request connected open_) =
      expiring_channel-IsSound provisions (service_channel_handler dial accepts request) s _ h
        connected (service_channel_handler-IsSound provisions dial accepts request)
        (check_expiry-Enforced provisions (s.expiry) s refl)
  Step-IsSound s _ h (fire_timer _ e given started late) = closed-IsSound provisions s true h

  new_connection-IsSound : (user : Text) (now : ℕ) → IsSound provisions (new_connection user now)
  unfolding IsAudited last_end
  new_connection-IsSound user now = record {
    core = record { audited = tt; end_ = refl; invite = λ a e. cc };
    login = λ e. cc;
    let_in = λ e client. cc;
  }

  Reach-IsSound : (user : Text) (s : Connection) → Reach E provisions user s → IsSound provisions s
  Reach-IsSound user _ (begins now) = new_connection-IsSound user now
  Reach-IsSound user _ (continues {s} {t} before step) =
      Step-IsSound s t (Reach-IsSound user s before) step

  -- Whatever a client does on a connection, in any order and with any answers: the gateway lists
  -- or opens services only for an identity that is not an enrolment and that was admitted on the
  -- connection, and before the end of the last admission that has one; it admits only an identity
  -- that an authenticator gave for an attempt of that very identity and, if there is a
  -- provisioner, that it provisioned; it enrols an identity only by the very invite that was
  -- accepted for it, after the identity was provisioned likewise, and before that end.
  pub Reach-IsAudited :
      (user : Text) (s : Connection) → Reach E provisions user s → IsAudited provisions (s.log)
  Reach-IsAudited user s h = let sound = Reach-IsSound user s h in sound.core.audited
