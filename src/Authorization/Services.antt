-- ===== src/Authorization/Services.antt =====
-- internal/authorization/credentials.go: `validateService`, which fills in the defaults.
pub mod Laws
use tearenv.Common.{
  ℕ, ◌*◌, ◌^◌, ℤ, pos, negsuc, is_negative, is_zero, Bool, true, false, not, ◌||◌, Text, Option,
  none, some, List, [], ◌∷◌, is_empty, ◌==◌, leb, if◌then◌else◌, Result, ok, err, ◌>>=◌, ◌>>◌,
  require, from_option,
}
use tearenv.Authorization.{Service, Workload}
use tearenv.Authorization.Names.{valid_service_name}
use tearenv.Authorization.Library.{Library}

-- The errors of the package, by the message they carry.
pub data Error : Type 0 where
  bad_identity bad_service_name bad_target bad_port bad_local_port : Error
  kind_required workload_name_required negative_replicas negative_timeout : Error
  bad_ready_timeout bad_idle_timeout : Error
  missing_file inaccessible_file bad_permissions unreadable_file empty_store bad_token_hash
        short_token :
      Error
  bad_invite_hash bad_invite not_file_backed no_randomness not_written : Error

-- `minute` nanoseconds.
abbrev pub minute : ℕ
minute = 60 * 10 ^ 9

abbrev pub default_ready_timeout : ℤ
default_ready_timeout = pos (2 * minute)

abbrev pub default_idle_timeout : ℤ
default_idle_timeout = pos (10 * minute)

unfoldable pub validate_workload : Workload → Result Error Workload
validate_workload w = do
  require (not (is_empty w.kind)) kind_required
  require (not (is_empty w.name)) workload_name_required
  let replicas = if is_zero w.replicas then pos 1 else w.replicas
  require (not (is_negative replicas)) negative_replicas
  let ready = if is_zero w.ready_timeout then default_ready_timeout else w.ready_timeout
  require (not (is_negative ready || is_negative w.idle_timeout)) negative_timeout
  ok (record w { replicas = replicas; ready_timeout = ready })

unfoldable pub validate_optional : Option Workload → Result Error (Option Workload)
unfolding validate_workload
validate_optional none = ok none
validate_optional (some w) = do v ← validate_workload w; ok (some v)

abbrev pub default_port : ℕ → ℕ → ℕ
default_port port local = if local == 0 then port else local

module _ (lib : Library) where
  -- The port of a target `host:port`.
  unfoldable pub target_port : Text → Result Error ℕ
  target_port target = do
    (host, port_text) ← from_option (lib.split_host_port target) bad_target
    require (not (is_empty host)) bad_target
    port ← from_option (lib.parse_uint16 port_text) bad_port
    require (not (port == 0)) bad_port
    ok port

  unfoldable pub validate_service : Service → Result Error Service
  unfolding target_port validate_optional
  validate_service s = do
    require (valid_service_name s.name) bad_service_name
    port ← target_port s.target
    require (leb (default_port port s.local_port) 65535) bad_local_port
    w ← validate_optional s.workload
    ok (record s { local_port = default_port port s.local_port; workload = w })
