-- ===== src/Registration/Requests/Tests.antt =====
-- A store with the registration of one identity, and the theorems at it.
use tearenv.Common.{
  true, false, codes, text_eq, trim, trim_left, trim_right, trim_space, lookup, insert, none, some,
  [], ◌≡◌, refl, ok, err, Member,
}
use tearenv.Authorization.Names.{valid_identity}
use tearenv.Authorization.Providers.{Attempt, PublicKey, Verified, offered_key, public_key}
use tearenv.Api.Sample.{library}
use tearenv.Api.Names.{resource_name, replace_invalid, normalize_name}
use tearenv.Api.Validation.{
  validate, accepted, acceptance_condition, check_key, check_keys, validate_public_keys,
  validate_authenticated_principal, check_principal,
}
use tearenv.Api.Validation.Laws.{IsValid, validate-IsValid}
use tearenv.Api.Names.Laws.{IsName, resource_name-IsName}
use tearenv.Registration.Sample.{alice, principal_of, answers, empty, stored, after}
use tearenv.Registration.Store.{
  encode, keys_eq, spec_eq, authenticated_principal, registration_owned_by, resource_path,
  load_user_registration, read_stored_file, get_unlocked, write_unlocked, directory_of, forbidden,
}
use tearenv.Registration.Requests.{
  Answers, accepted_by_default, new_resource, save, adopt, create, settle, put_as, match_keys,
  match_registrations, has_yaml_extension, list_files, list, authenticate_key, authenticate,
}
use tearenv.Registration.Requests.Ownership.{
  IsFiled, Keeps, start, put, Puts-Keeps, empty-IsFiled, Puts-IsFiled,
}
use tearenv.Registration.Requests.Keys.{Files, authenticate-Member}

alice_valid : validate library alice ≡ ok tt
unfolding validate validate_authenticated_principal check_principal validate_public_keys check_keys
    check_key resource_name normalize_name replace_invalid trim trim_left trim_right trim_space
    text_eq valid_identity
alice_valid = refl

-- The names of the tests of the program.
alice_name :
    resource_name library (codes "Alice@Example.COM") ≡ codes "alice-example.com-777777777777"
unfolding resource_name normalize_name replace_invalid trim trim_left trim_right trim_space text_eq
alice_name = refl

-- A valid identity whose resource name is no DNS subdomain, since two dots follow each other.
dotted_name : resource_name library (codes "a..B") ≡ codes "a..b-777777777777"
unfolding resource_name normalize_name replace_invalid trim trim_left trim_right trim_space text_eq
dotted_name = refl

alice_put : put_as library answers alice (principal_of (codes "a")) empty ≡ ok (after, stored, true)
unfolding put_as settle create save validate validate_authenticated_principal check_principal
    validate_public_keys check_keys check_key resource_name normalize_name replace_invalid trim
    trim_left trim_right trim_space text_eq valid_identity get_unlocked resource_path write_unlocked
    new_resource accepted_by_default authenticated_principal encode lookup insert
alice_put = refl

alice_again :
    put_as library answers alice (principal_of (codes "a")) after ≡ ok (after, encode stored, false)
unfolding put_as settle adopt create save validate validate_authenticated_principal check_principal
    validate_public_keys check_keys check_key resource_name normalize_name replace_invalid trim
    trim_left trim_right trim_space text_eq valid_identity get_unlocked resource_path write_unlocked
    read_stored_file load_user_registration new_resource accepted_by_default authenticated_principal
    encode lookup insert spec_eq keys_eq registration_owned_by
alice_again = refl

-- Another subject is refused.
mallory_put : put_as library answers alice (principal_of (codes "m")) after ≡ err forbidden
unfolding put_as settle adopt create save validate validate_authenticated_principal check_principal
    validate_public_keys check_keys check_key resource_name normalize_name replace_invalid trim
    trim_left trim_right trim_space text_eq valid_identity get_unlocked resource_path write_unlocked
    read_stored_file load_user_registration new_resource accepted_by_default authenticated_principal
    encode lookup insert spec_eq keys_eq registration_owned_by
mallory_put = refl

alice_get : get_unlocked library after (codes "users") (codes "alice") ≡ ok (encode stored)
unfolding put_as settle adopt create save validate validate_authenticated_principal check_principal
    validate_public_keys check_keys check_key resource_name normalize_name replace_invalid trim
    trim_left trim_right trim_space text_eq valid_identity get_unlocked resource_path write_unlocked
    read_stored_file load_user_registration new_resource accepted_by_default authenticated_principal
    encode lookup insert spec_eq keys_eq registration_owned_by
alice_get = refl

after-IsFiled : IsFiled library after
after-IsFiled =
    Puts-IsFiled library (empty-IsFiled library (codes "users"))
      (put answers alice stored (principal_of (codes "a")) true start alice_put)

Puts-Keeps_example : Keeps library (codes "users") (codes "alice") (encode stored) after
Puts-Keeps_example =
    Puts-Keeps library (codes "users") (codes "alice") (encode stored) after-IsFiled
      (put answers alice (encode stored) (principal_of (codes "a")) false start alice_again)
      alice_get

abbrev later : Answers
later = record { identifier = none; now = 0; written = false }

abbrev attempt : Attempt
attempt = record {
  identity = codes "alice";
  method = public_key;
  password = [];
  public_key = some (record { wire = codes "k1"; certificate = none });
}

abbrev admitted : Verified
admitted = record {
  identity = codes "alice";
  provider = codes "user-registration";
  valid_before = none;
}

alice_in : authenticate library after attempt ≡ ok (some admitted)
unfolding authenticate authenticate_key list list_files match_registrations match_keys accepted
    acceptance_condition has_yaml_extension offered_key validate validate_authenticated_principal
    check_principal validate_public_keys check_keys check_key resource_name normalize_name
    replace_invalid trim trim_left trim_right trim_space text_eq valid_identity read_stored_file
    load_user_registration new_resource accepted_by_default authenticated_principal encode lookup
alice_in = refl

authenticate-Member_example :
    (key : PublicKey) × (offered_key attempt ≡ some key)
    × (codes "alice" ≡ codes "alice")
    × Member
        (Files library (codes "alice") (key.wire))
        (directory_of after (after.authentication_namespace))
authenticate-Member_example = authenticate-Member library after attempt admitted alice_in

validate-IsValid_example : IsValid library alice
validate-IsValid_example = validate-IsValid library alice alice_valid

resource_name-IsName_example : IsName (resource_name library (codes "Alice@Example.COM"))
resource_name-IsName_example = resource_name-IsName library (codes "Alice@Example.COM")
