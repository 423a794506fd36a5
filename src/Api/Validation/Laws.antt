-- ===== src/Api/Validation/Laws.antt =====
-- api/v1alpha1/userregistration.go: what `Validate` accepts.
use tearenv.Common.{
  true, false, not, Text, text_eq, text_eq_iff, some, List, [], ◌∷◌, is_empty, ◌≡◌, ◌≢◌, refl, ok,
  >>=-eq-ok, require-then, from_option, from_option-eq-ok, All, arith, trim_space, ap,
}
use tearenv.Authorization.Names.{valid_identity}
use tearenv.Api.{SshPublicKey, UserRegistration}
use tearenv.Api.Library.{Library}
use tearenv.Api.Names.{resource_name}
use tearenv.Api.Validation.{
  is_known, check_key, check_keys, validate_public_keys, validate_authenticated_principal, validate,
  api_version_text, user_registration_kind, good_namespace, bad_key,
}

module _ (lib : Library) where
  -- A list of keys of which no name and no wire form is one of the given, and whose names and wire
  -- forms are distinct.
  pub data Distinct : List Text → List Text → List SshPublicKey → Type 0 where
    nil : {names wires : List Text} → Distinct names wires []
    cons :
        {names wires : List Text} {k : SshPublicKey} {ks : List SshPublicKey} (wire rest : Text)
        → lib.is_dns_label (k.name) ≡ true
        → All (λ n. n ≢ k.name) names
        → lib.parse_authorized_key (k.key) ≡ some (wire, rest)
        → trim_space rest ≡ []
        → All (λ w. w ≢ wire) wires
        → Distinct (k.name ∷ names) (wire ∷ wires) ks
        → Distinct names wires (k ∷ ks)

  unknown-All : (t : Text) (seen : List Text) → is_known t seen ≡ false → All (λ s. s ≢ t) seen
  unknown-All t [] h = tt
  unknown-All t (s ∷ seen) h =
      ((λ e. ground (arith, text_eq_iff s t)), unknown-All t seen (ground arith))

  empty-eq : (t : Text) → is_empty t ≡ true → t ≡ []
  empty-eq [] h = refl
  empty-eq (c ∷ t) h = cc

  check_keys-Distinct :
      (names wires : List Text) (ks : List SshPublicKey)
      → check_keys lib names wires ks ≡ ok tt
      → Distinct names wires ks
  unfolding check_keys check_key
  check_keys-Distinct names wires [] e = nil
  check_keys-Distinct names wires (k ∷ ks) e =
      let (wire, checked, later) = >>=-eq-ok (check_key lib names wires k) _ e in
      let (label, rest1) = require-then (lib.is_dns_label (k.name)) _ _ checked in
      let (fresh, rest2) = require-then (not (is_known (k.name) names)) _ _ rest1 in
      let ((parsed, rest), found, rest3) =
        >>=-eq-ok (from_option (lib.parse_authorized_key (k.key)) bad_key) _ rest2 in
      let (single, rest4) = require-then (is_empty (trim_space rest)) _ _ rest3 in
      let (unused, last) = require-then (not (is_known parsed wires)) _ _ rest4 in
      let same : parsed ≡ wire = cc in
      cons wire rest label (unknown-All (k.name) names (ground arith))
        (rw (← same) (from_option-eq-ok (lib.parse_authorized_key (k.key)) bad_key found))
        (empty-eq (trim_space rest) single) (rw (← same) (unknown-All parsed wires (ground arith)))
        (check_keys-Distinct (k.name ∷ names) (wire ∷ wires) ks later)

  -- What a registration that passes has.
  pub record IsValid (r : UserRegistration) : Type 0 where
    pub version : r.api_version ≡ api_version_text
    pub kind : r.kind ≡ user_registration_kind
    pub subdomain : lib.is_dns_subdomain (r.name) ≡ true
    pub namespace : good_namespace lib (r.namespace) ≡ true
    pub identity : valid_identity (r.spec.identity) ≡ true
    pub name : r.name ≡ resource_name lib (r.spec.identity)
    pub some_key : r.spec.public_keys ≢ []
    pub keys : Distinct [] [] (r.spec.public_keys)

  -- A registration that passes validation has the version and the kind of the API, a name that is
  -- a DNS subdomain and the resource name of its identity, an identity of the pattern, and one or
  -- more keys, each with a DNS label as its name and one public key as its text, where no two have
  -- the same name or the same public key.
  pub validate-IsValid : (r : UserRegistration) → validate lib r ≡ ok tt → IsValid r
  unfolding validate validate_public_keys
  validate-IsValid r e =
      let (version, rest1) = require-then (text_eq (r.api_version) api_version_text) _ _ e in
      let (kind, rest2) = require-then (text_eq (r.kind) user_registration_kind) _ _ rest1 in
      let (subdomain, rest3) = require-then (lib.is_dns_subdomain (r.name)) _ _ rest2 in
      let (namespace, rest4) = require-then (good_namespace lib (r.namespace)) _ _ rest3 in
      let (identity, rest5) = require-then (valid_identity (r.spec.identity)) _ _ rest4 in
      let (name, rest6) =
        require-then (text_eq (r.name) (resource_name lib (r.spec.identity))) _ _ rest5 in
      let (u, principal, rest7) =
        >>=-eq-ok (validate_authenticated_principal lib (r.status)) _ rest6 in
      let (many, keys) = require-then (not (is_empty (r.spec.public_keys))) _ _ rest7 in
      record {
        version = (text_eq_iff (r.api_version) api_version_text).0 version;
        kind = (text_eq_iff (r.kind) user_registration_kind).0 kind;
        subdomain = subdomain;
        namespace = namespace;
        identity = identity;
        name = (text_eq_iff (r.name) (resource_name lib (r.spec.identity))).0 name;
        some_key = λ e. ground (arith, ap is_empty e);
        keys = check_keys-Distinct [] [] (r.spec.public_keys) keys;
      }
