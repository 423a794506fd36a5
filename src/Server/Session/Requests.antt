-- ===== src/Server/Session/Requests.antt =====
-- internal/server/authentication_expiry.go, service.go and enrollment.go: the handlers of requests
-- and channels, behind the check of the expiry.
use tearenv.Common.{
  ℕ, Bool, true, false, not, ◌||◌, Text, Option, none, some, List, map, ltb, ◌==◌, if◌then◌else◌,
  Result, ok, err,
}
use tearenv.Authorization.{Service}
use tearenv.Authorization.Providers.{}
use tearenv.Server.Session.{
  AuthenticationExpiry, Connection, Enrollment, deadline, enrolled, enrollment_identity, listed,
  note, opened,
}

-- `enforceAuthenticationExpiry` of the expiry of the context.
unfoldable pub check_expiry : Option AuthenticationExpiry → Connection → Bool × Connection
check_expiry none s = (true, s)
check_expiry (some e) s =
    if not s.connected || not (ltb s.now (deadline e))
    then (false, record s { closed = s.closed || s.connected })
    else (true, record s { expiry = some (record e { started = true }) })

unfoldable pub enforce_authentication_expiry : Connection → Bool × Connection
unfolding check_expiry
enforce_authentication_expiry s = check_expiry s.expiry s

-- An answer to a request: `none` is a refusal.
abbrev pub Handler : Type 0 → Type 0
Handler Reply = Connection → Option Reply × Connection

-- `expiringRequestHandler`.
unfoldable pub expiring :
    {Reply : Type 0} → Handler Reply → Bool × Connection → Option Reply × Connection
expiring next (false, s) = (none, s)
expiring next (true, s) = next s

-- `protocol.Service`.
pub record Entry : Type 0 where
  pub name : Text
  pub local_port : ℕ

abbrev pub entry : Service → Entry
entry s = record { name = s.name; local_port = s.local_port }

-- `serviceCatalogHandler`; the payload is the list that its JSON text stands for.
unfoldable pub service_catalog_handler : (Text → Option (List Service)) → Handler (List Entry)
service_catalog_handler services s = elim (enrollment_identity s.user) [
  | some identity ↦ (none, s)
  | none ↦
      let s' = note (listed s.now s.user) s in
      elim (services s.user) [ none ↦ (none, s') | some found ↦ (some (map entry found), s') ]
]

-- The call of `Enroll`: the arguments that the provider gets are those of the log.
abbrev pub call_enroll : Enrollment → Text → Text → Handler Text
call_enroll store identity invite s =
    (store.enroll identity invite, note (enrolled s.now identity invite) s)

-- `enrollmentHandler`: the token.
unfoldable pub enrollment_handler : Enrollment → Handler Text
enrollment_handler store s = elim (s.enrollment) [
  | none ↦ (none, s)
  | some a ↦ call_enroll store a.identity a.invite s
]

-- The payload of a `direct-tcpip` channel.
pub record DirectTcpipRequest : Type 0 where
  pub service_name : Text
  pub service_port : ℕ
  pub origin_host : Text
  pub origin_port : ℕ

pub data OpenError : Type 0 where
  service_denied target_failed : OpenError

-- What becomes of a channel; with `not_accepted` the target is closed again.
pub data ChannelEnd : Type 0 where
  expired enrolling invalid_request not_granted unavailable not_accepted : ChannelEnd
  proxied : Service → ChannelEnd

abbrev pub refusal : OpenError → ChannelEnd
refusal service_denied = not_granted
refusal target_failed = unavailable

-- The part of `serviceChannelHandler` from `gateway.Open` on.
unfoldable pub open_channel :
    (Text → Text → Result OpenError Service) → Bool → Text → Connection → ChannelEnd × Connection
open_channel open_ accepts name s =
    let s' = note (opened s.now s.user name) s in
    elim (open_ s.user name) [
      | err e ↦ (refusal e, s')
      | ok service ↦ (if accepts then proxied service else not_accepted, s')
    ]

-- `serviceChannelHandler`; a request is `none` if its payload is malformed, and the other side may
-- be gone when the channel is accepted.
unfoldable pub service_channel_handler :
    (Text → Text → Result OpenError Service)
    → Bool
    → Option DirectTcpipRequest
    → Connection
    → ChannelEnd × Connection
unfolding open_channel
service_channel_handler open_ accepts request s = elim (enrollment_identity s.user) [
  | some identity ↦ (enrolling, s)
  | none ↦ elim request [
    | none ↦ (invalid_request, s)
    | some r ↦
        if r.service_port == 0
        then open_channel open_ accepts r.service_name s
        else (invalid_request, s)
  ]
]

-- `expiringChannelHandler`.
unfoldable pub expiring_channel :
    (Connection → ChannelEnd × Connection) → Bool × Connection → ChannelEnd × Connection
expiring_channel next (false, s) = (expired, s)
expiring_channel next (true, s) = next s
