-- ===== src/Server/Session/Tests.antt =====
-- A connection that tries a key, logs in and opens a service in time.
use tearenv.Common.{
  ℕ, Bool, true, false, Text, codes, text_eq, cut_prefix, none, some, Result, ok, ◌≡◌, refl,
}
use tearenv.Authorization.{Service}
use tearenv.Authorization.Providers.{Verified, PublicKey, Authenticator}
use tearenv.Server.Session.{
  Connection, enrollment_identity, provision_environment, admit, settle, authenticate,
  public_key_handler,
}
use tearenv.Server.Session.Requests.{
  DirectTcpipRequest, OpenError, enforce_authentication_expiry, check_expiry, expiring_channel,
  open_channel, service_channel_handler, proxied,
}
use tearenv.Server.Session.Steps.{
  Reach, begins, continues, try_public_key, log_in, open_service, new_connection, remember,
}
use tearenv.Server.Session.Audit.{IsAudited}
use tearenv.Server.Session.Invariant.{Reach-IsAudited}

abbrev key : PublicKey
key = record { wire = codes "key"; certificate = none }

abbrev alice_until_ten : Verified
alice_until_ten = record {
  identity = codes "alice";
  provider = codes "ssh";
  valid_before = some 10;
}

abbrev authenticator : Authenticator ℕ
authenticator attempt = ok (some alice_until_ten)

abbrev agrees : Text → Bool
agrees identity = true

abbrev tried : Connection
tried =
    remember false
      (public_key_handler (some agrees) authenticator key (new_connection (codes "alice") 5))

abbrev logged_in : Connection
logged_in = record tried { connected = true }

abbrev web : Service
web = record { name = codes "web"; target = codes "web:80"; local_port = 8080; workload = none }

abbrev dial : Text → Text → Result OpenError Service
dial identity name = ok web

abbrev request : DirectTcpipRequest
request = record {
  service_name = codes "web";
  service_port = 0;
  origin_host = codes "localhost";
  origin_port = 1;
}

abbrev served : Connection
served =
    (expiring_channel (service_channel_handler dial true (some request))
      (enforce_authentication_expiry logged_in)).1

tried-accepted : tried.accepted ≡ true
unfolding public_key_handler authenticate settle admit provision_environment text_eq
tried-accepted = refl

served_proxied :
    (expiring_channel
      (service_channel_handler dial true (some request))
      (enforce_authentication_expiry logged_in)).0
    ≡ proxied web
unfolding public_key_handler authenticate settle admit provision_environment text_eq
    expiring_channel enforce_authentication_expiry check_expiry service_channel_handler open_channel
    enrollment_identity cut_prefix
served_proxied = refl

logged_in-closed : logged_in.closed ≡ false
unfolding public_key_handler authenticate settle admit provision_environment text_eq
logged_in-closed = refl

served-Reach : Reach ℕ true (codes "alice") served
served-Reach =
    continues
      (continues
        (continues (begins 5)
          (try_public_key (new_connection (codes "alice") 5) agrees authenticator key refl))
        (log_in tried tried-accepted))
      (open_service logged_in dial true (some request) refl logged_in-closed)

Reach-IsAudited_example : IsAudited true (served.log)
Reach-IsAudited_example = Reach-IsAudited true ℕ (codes "alice") served served-Reach
