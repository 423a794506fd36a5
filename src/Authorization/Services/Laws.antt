-- ===== src/Authorization/Services/Laws.antt =====
-- What `validateService` guarantees, and that validating again changes nothing.
use tearenv.Common.{
  ℕ, ◌≤◌, ◌<◌, ◌≡◌, ◌≢◌, refl, is_negative, is_zero, true, false, not, Text, Option, none, some, [],
  is_empty, ok, >>=-eq-ok, from_option-eq-ok, arith, require, from_option,
}
use tearenv.Authorization.{Service, Workload}
use tearenv.Authorization.Names.{valid_service_name}
use tearenv.Authorization.Library.{Library}
use tearenv.Authorization.Services.{
  validate_workload, validate_optional, default_port, target_port, validate_service,
}

-- At least one replica, a positive readiness timeout and no negative one.
pub record IsValidWorkload (w : Workload) : Type 0 where
  pub kind : w.kind ≢ []
  pub name : w.name ≢ []
  pub replicas : (is_negative w.replicas ≡ false) × (is_zero w.replicas ≡ false)
  pub ready : (is_negative w.ready_timeout ≡ false) × (is_zero w.ready_timeout ≡ false)
  pub idle : is_negative w.idle_timeout ≡ false

abbrev pub IsValidOptional : Option Workload → Type 0
IsValidOptional none = Unit
IsValidOptional (some w) = IsValidWorkload w

validate_workload-IsValid : (w v : Workload) → validate_workload w ≡ ok v → IsValidWorkload v
unfolding validate_workload
validate_workload-IsValid w v e = ground arith

validate_workload_idem : (w v : Workload) → validate_workload w ≡ ok v → validate_workload v ≡ ok v
unfolding validate_workload
validate_workload_idem w v e = ground arith

validate_optional-IsValid : (w v : Option Workload) → validate_optional w ≡ ok v → IsValidOptional v
unfolding validate_optional
validate_optional-IsValid none v e = let same : none ≡ v = ground arith in rw (← same) tt
validate_optional-IsValid (some w) v e =
    let (x, valid, same) = >>=-eq-ok (validate_workload w) _ e in
    let here : some x ≡ v = ground arith in rw (← here) (validate_workload-IsValid w x valid)

validate_optional_idem :
    (w v : Option Workload) → validate_optional w ≡ ok v → validate_optional v ≡ ok v
unfolding validate_optional
validate_optional_idem none v e = let same : none ≡ v = ground arith in rw (← same) refl
validate_optional_idem (some w) v e =
    let (x, valid, same) = >>=-eq-ok (validate_workload w) _ e in
    let here : some x ≡ v = ground arith in rw (← here) (rw (validate_workload_idem w x valid) refl)

module _ (lib : Library) where
  target_port-pos : (t : Text) (n : ℕ) → target_port lib t ≡ ok n → (0 < n) × (n < 65536)
  unfolding target_port
  target_port-pos t n e =
      let ((host, port_text), split, e') = >>=-eq-ok (from_option (lib.split_host_port t) _) _ e in
      let (_, given, e'') = >>=-eq-ok (require (not (is_empty host)) _) _ e' in
      let (port, parsed, e''') = >>=-eq-ok (from_option (lib.parse_uint16 port_text) _) _ e'' in
      let small = lib.parse_uint16-lt port_text port (from_option-eq-ok _ _ parsed) in
      (ground arith, ground arith)

  -- The steps of a validation that succeeds.
  pub validate_service-parts :
      (s t : Service)
      → validate_service lib s ≡ ok t
      → (port : ℕ) × (w : Option Workload) × (valid_service_name s.name ≡ true)
        × (target_port lib s.target ≡ ok port)
        × (default_port port s.local_port ≤ 65535)
        × (validate_optional s.workload ≡ ok w)
        × (t ≡ record s { local_port = default_port port s.local_port; workload = w })
  unfolding validate_service
  validate_service-parts s t e =
      let (port, targeted) : (n : ℕ) × (target_port lib s.target ≡ ok n) = ground arith in
      let (w, working) : (v : Option Workload) × (validate_optional s.workload ≡ ok v) =
        ground arith in
      (port, w, ground arith, targeted, ground arith, working, ground arith)

  -- A named service at a port, with a local port in range and a valid workload if it has one.
  pub record IsValidService (s : Service) : Type 0 where
    pub name : valid_service_name s.name ≡ true
    pub port : (n : ℕ) × (target_port lib s.target ≡ ok n) × (0 < n) × (n < 65536)
    pub local_port : (0 < s.local_port) × (s.local_port < 65536)
    pub workload : IsValidOptional s.workload

  -- A service that passes validation has a name of the pattern, a target with a port from 1 to
  -- 65535, a local port in the same range, and, if it is managed, a kind, a name, at least one
  -- replica, a positive readiness timeout and an idle timeout that is not negative.
  pub validate_service-IsValid : (s t : Service) → validate_service lib s ≡ ok t → IsValidService t
  validate_service-IsValid s t e =
      let (port, w, named, targeted, small, working, same) = validate_service-parts s t e in
      let (low, high) = target_port-pos s.target port targeted in
      rw same (record {
        name = named;
        port = (port, targeted, low, high);
        local_port = (ground arith, ground arith);
        workload = validate_optional-IsValid s.workload w working;
      })

  -- Validating what a validation returned changes nothing.
  pub validate_service_idem :
      (s t : Service) → validate_service lib s ≡ ok t → validate_service lib t ≡ ok t
  unfolding validate_service
  validate_service_idem s t e =
      let (port, w, named, targeted, small, working, same) = validate_service-parts s t e in
      let (low, high) = target_port-pos s.target port targeted in
      let again = validate_optional_idem s.workload w working in
      rw same (rw (named, targeted) (ground (arith, again)))
