-- ===== src/Registration/Sample.antt =====
-- The registration of one identity, and the store that holds it, for the tests.
use tearenv.Common.{true, Text, codes, none, some, [], ◌∷◌, pos}
use tearenv.Authn.{Principal, oidc}
use tearenv.Api.{UserRegistration}
use tearenv.Api.Validation.{api_version_text, user_registration_kind}
use tearenv.Registration.Store.{Store, encode, authenticated_principal, regular}
use tearenv.Registration.Requests.{Answers, accepted_by_default, new_resource}

abbrev pub alice : UserRegistration
alice = record {
  api_version = api_version_text;
  kind = user_registration_kind;
  name = codes "alice";
  namespace = codes "users";
  uid = [];
  resource_version = [];
  generation = pos 0;
  creation_timestamp = 0;
  spec = record {
    identity = codes "alice";
    public_keys = record { name = codes "laptop"; key = codes "k1" } ∷ [];
  };
  status = none;
}

abbrev pub principal_of : Text → Principal
principal_of subject = record {
  method = oidc;
  issuer = codes "issuer";
  subject = subject;
  identity = codes "alice";
}

abbrev pub answers : Answers
answers = record { identifier = some (codes "id"); now = 1500000000; written = true }

abbrev pub empty : Store
empty = record { files = []; authentication_namespace = codes "users" }

abbrev pub stored : UserRegistration
unfolding new_resource accepted_by_default authenticated_principal
stored = new_resource alice (principal_of (codes "a")) (codes "id") 1500000000

abbrev pub after : Store
unfolding encode new_resource accepted_by_default authenticated_principal
after = record {
  files =
      (
        codes "users",
        (
          codes "alice.yaml",
          record { kind = regular; mode = 0o600; document = some (encode stored) },
        )
            ∷ [],
      )
      ∷ [];
  authentication_namespace = codes "users";
}
