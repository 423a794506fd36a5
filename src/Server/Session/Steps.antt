-- ===== src/Server/Session/Steps.antt =====
-- internal/server/server.go: the connection of one client as the sequence of its handlers, the
-- passing of time and the timer of its expiry.
use tearenv.Common.{
  ℕ, ◌+◌, ◌≤◌, Bool, true, false, ◌||◌, Text, Option, none, some, Result, ◌≡◌, List, [],
}
use tearenv.Authorization.{Service}
use tearenv.Authorization.Providers.{PublicKey, Authenticator}
use tearenv.Server.Session.{
  AuthenticationExpiry, Enrollment, Connection, deadline, password_handler, public_key_handler,
}
use tearenv.Server.Session.Requests.{
  DirectTcpipRequest, OpenError, enforce_authentication_expiry, expiring, service_catalog_handler,
  enrollment_handler, service_channel_handler, expiring_channel,
}

-- The transport keeps whether any handler has accepted an attempt.
abbrev pub remember : Bool → Bool × Connection → Connection
remember before (answer, s) = record s { accepted = before || answer }

-- A new connection of a user.
abbrev pub new_connection : Text → ℕ → Connection
new_connection user now = record {
  user = user;
  expiry = none;
  enrollment = none;
  accepted = false;
  connected = false;
  closed = false;
  now = now;
  log = [];
}

abbrev pub provisioner_of : Bool → (Text → Bool) → Option (Text → Bool)
provisioner_of true provision = some provision
provisioner_of false provision = none

-- `provisions` tells whether the gateway has a provisioner. A public key may be tried without a
-- proof that the client holds it, and a login may follow any attempt that was accepted.
module _ (E : Type 0) (provisions : Bool) where
  pub data Step : Connection → Connection → Type 0 where
    try_password :
        (s : Connection) (provision : Text → Bool) (store : Option Enrollment)
        (authenticator : Authenticator E) (secret : Text)
        → s.connected ≡ false
        → Step s (
            remember
              (s.accepted)
              (password_handler (provisioner_of provisions provision) store authenticator secret s))
    try_public_key :
        (s : Connection) (provision : Text → Bool) (authenticator : Authenticator E)
        (key : PublicKey)
        → s.connected ≡ false
        → Step s (
            remember
              (s.accepted)
              (public_key_handler (provisioner_of provisions provision) authenticator key s))
    log_in : (s : Connection) → s.accepted ≡ true → Step s (record s { connected = true })
    pass : (s : Connection) (n : ℕ) → Step s (record s { now = s.now + n })
    list_services :
        (s : Connection) (services : Text → Option (List Service))
        → s.connected ≡ true
        → s.closed ≡ false
        → Step s (expiring (service_catalog_handler services) (enforce_authentication_expiry s)).1
    enroll_identity :
        (s : Connection) (store : Enrollment)
        → s.connected ≡ true
        → s.closed ≡ false
        → Step s (expiring (enrollment_handler store) (enforce_authentication_expiry s)).1
    open_service :
        (s : Connection) (open_ : Text → Text → Result OpenError Service) (accepts : Bool)
        (request : Option DirectTcpipRequest)
        → s.connected ≡ true
        → s.closed ≡ false
        → Step s
            (expiring_channel
              (service_channel_handler open_ accepts request)
              (enforce_authentication_expiry s)).1
    fire_timer :
        (s : Connection) (e : AuthenticationExpiry)
        → s.expiry ≡ some e
        → e.started ≡ true
        → deadline e ≤ s.now
        → Step s (record s { closed = true })

  -- The states that a connection of a user reaches.
  pub data Reach (user : Text) : Connection → Type 0 where
    begins : (now : ℕ) → Reach user (new_connection user now)
    continues : {s t : Connection} → Reach user s → Step s t → Reach user t
