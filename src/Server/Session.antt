-- ===== src/Server/Session.antt =====
-- internal/server/server.go with internal/protocol: one connection of the gateway, its context and
-- the handlers that authenticate it. Each call that a handler makes to a provider is kept in a
-- log, the newest first. The messages that the handlers log and count, the error of `Serve` and the
-- copying of bytes are left out.
pub mod Requests
pub mod Steps
pub mod Audit
pub mod Attempts
pub mod Handlers
pub mod Invariant
mod Tests
use tearenv.Common.{
  ℕ, ◌*◌, Bool, true, false, not, ◌&&◌, ◌||◌, Text, codes, text_eq, cut_prefix, Option, none, some,
  is_some, is_empty, List, [], ◌∷◌, ◌++◌, map, ltb, ◌==◌, if◌then◌else◌, Result, ok, err, ◌>>◌,
  ◌>>=◌, require,
}
use tearenv.Authorization.{Service}
use tearenv.Authorization.Providers.{
  Method, password, public_key, PublicKey, Attempt, Verified, Authenticator,
}

-- `enrollmentPrefix`.
abbrev pub enrollment_prefix : Text
enrollment_prefix = codes "enroll:"

-- `EnrollmentUser`.
unfoldable pub enrollment_user : Text → Text
enrollment_user identity = enrollment_prefix ++ identity

-- `EnrollmentIdentity`.
unfoldable pub enrollment_identity : Text → Option Text
enrollment_identity user = elim (cut_prefix user enrollment_prefix) [
  | none ↦ none
  | some identity ↦ if is_empty identity then none else some identity
]

-- The interface `Enrollment`; `none` is an error.
pub record Enrollment : Type 0 where
  pub authenticate_invite : Text → Text → Bool
  pub enroll : Text → Text → Option Text

pub data ServerError : Type 0 where
  no_authenticator no_signer no_policy : ServerError

-- The checks of `New`, by which fields of `Config` are nil.
unfoldable pub check_config : Bool → Bool → Bool → Bool → Result ServerError (Unit {0})
check_config has_authenticator has_signer has_gateway has_policy = do
  require has_authenticator no_authenticator
  require has_signer no_signer
  require (has_gateway || has_policy) no_policy

-- The calls to the providers, with their answers; the times are those of the handler.
pub data Call : Type 0 where
  failed : Attempt → Call
  answered : Attempt → Option Verified → Call
  invited : Text → Text → Bool → Call
  provisioned : Text → Bool → Call
  admitted : Verified → Call
  enrolled : ℕ → Text → Text → Call
  listed : ℕ → Text → Call
  opened : ℕ → Text → Text → Call

pub record EnrollmentAttempt : Type 0 where
  pub identity : Text
  pub invite : Text

-- `authenticationExpiry`, with whether the timer was started.
pub record AuthenticationExpiry : Type 0 where
  pub valid_before : ℕ
  pub started : Bool

-- A connection: the values of its context, whether the transport has authenticated it and put it
-- into the context, whether it is closed, the time in nanoseconds and the calls made for it.
pub record Connection : Type 0 where
  pub user : Text
  pub expiry : Option AuthenticationExpiry
  pub enrollment : Option EnrollmentAttempt
  pub accepted : Bool
  pub connected : Bool
  pub closed : Bool
  pub now : ℕ
  pub log : List Call

abbrev pub note : Call → Connection → Connection
note c s = record s { log = c ∷ s.log }

abbrev pub deadline : AuthenticationExpiry → ℕ
deadline e = e.valid_before * 1000000000

-- `provisionEnvironment`; the provisioner may be nil.
unfoldable pub provision_environment : Option (Text → Bool) → Text → Connection → Bool × Connection
provision_environment none identity s = (true, s)
provision_environment (some provision) identity s =
    (provision identity, note (provisioned identity (provision identity)) s)

abbrev pub new_expiry : Option ℕ → Option AuthenticationExpiry → Option AuthenticationExpiry
new_expiry none e = e
new_expiry (some t) e = some (record { valid_before = t; started = false })

-- The rest of `authenticate` after the provisioning.
unfoldable pub admit : Verified → Bool × Connection → Bool × Connection
admit v (false, s) = (false, s)
admit v (true, s) =
    (true, note (admitted v) (record s { expiry = new_expiry v.valid_before s.expiry }))

-- The rest of `authenticate` for an answer of the authenticator without an error.
unfoldable pub settle :
    Option (Text → Bool) → Attempt → Option Verified → Connection → Bool × Connection
unfolding admit provision_environment
settle provisioner attempt none s = (false, s)
settle provisioner attempt (some v) s =
    if text_eq v.identity attempt.identity
    then admit v (provision_environment provisioner v.identity s)
    else (false, s)

module _ {ℓ} {E : Type ℓ} where
  -- The function `authenticate` of `New`.
  unfoldable pub authenticate :
      Option (Text → Bool) → Authenticator E → Attempt → Connection → Bool × Connection
  unfolding settle
  authenticate provisioner authenticator attempt s = elim (authenticator attempt) [
    | err e ↦ (false, note (failed attempt) s)
    | ok answer ↦ settle provisioner attempt answer (note (answered attempt answer) s)
  ]

-- The rest of the enrolment of `PasswordHandler` after the provisioning.
unfoldable pub begin_enrollment : Text → Text → Bool × Connection → Bool × Connection
begin_enrollment identity invite (false, s) = (false, s)
begin_enrollment identity invite (true, s) =
    (true, record s { enrollment = some (record { identity = identity; invite = invite }) })

-- The enrolment of `PasswordHandler`.
unfoldable pub authenticate_enrollment :
    Option (Text → Bool) → Option Enrollment → Text → Text → Connection → Bool × Connection
unfolding begin_enrollment provision_environment
authenticate_enrollment provisioner none identity invite s = (false, s)
authenticate_enrollment provisioner (some store) identity invite s =
    let answer = store.authenticate_invite identity invite in
    let s' = note (invited identity invite answer) s in
    if answer
    then begin_enrollment identity invite (provision_environment provisioner identity s')
    else (false, s')

module _ {ℓ} {E : Type ℓ} where
  unfoldable pub password_handler :
      Option (Text → Bool)
      → Option Enrollment
      → Authenticator E
      → Text
      → Connection
      → Bool × Connection
  unfolding authenticate_enrollment authenticate
  password_handler provisioner store authenticator secret s = elim (enrollment_identity s.user) [
    | some identity ↦ authenticate_enrollment provisioner store identity secret s
    | none ↦
        authenticate provisioner authenticator
          (record { identity = s.user; method = password; password = secret; public_key = none }) s
  ]

  unfoldable pub public_key_handler :
      Option (Text → Bool) → Authenticator E → PublicKey → Connection → Bool × Connection
  unfolding authenticate
  public_key_handler provisioner authenticator key s =
      authenticate provisioner authenticator
        (record { identity = s.user; method = public_key; password = []; public_key = some key }) s
