-- ===== src/Authorization/Credentials/Tests.antt =====
-- Runs of the credential operations, and the theorems at concrete files.
use tearenv.Common.{
  ◌≡◌, refl, pos, true, false, Text, codes, text_eq, lookup, insert, delete, none, some, [], ◌∷◌,
  ok, err, traverse, option_or,
}
use tearenv.Authorization.{Service}
use tearenv.Authorization.Names.{valid_identity, valid_service_name}
use tearenv.Authorization.Sample.{sample}
use tearenv.Authorization.Services.{validate_service, bad_invite}
use tearenv.Authorization.Services.Laws.{IsValidService, validate_service-IsValid}
use tearenv.Authorization.Document.{
  Document, Parsed, parse_user, parse_invite, parse_service, parse_access, parse_credentials,
  set_hashed_users, service_record,
}
use tearenv.Authorization.Credentials.{
  File, Credentials, read_credentials_file, write_credentials_file, open_document, random_token,
  token_hash_text, drop_invites, create_invite, add_service, grant_service, authenticate_token,
  authenticate_invite, reload, refresh, enrolled, enroll, resolve_service,
}
use tearenv.Authorization.Credentials.Stored.{stored, nothing}
use tearenv.Authorization.Credentials.Grants.{resolve_service-grant_service}
use tearenv.Authorization.Credentials.Invites.{authenticate_invite-create_invite}
use tearenv.Authorization.Credentials.Enrollment.{
  EnrollOutcome, enroll_lem, enroll_once, authenticate_token-enroll,
}

-- What the runs unfold.
running : Unit {0}
unfolding traverse lookup insert delete text_eq valid_identity valid_service_name validate_service
    parse_user parse_invite parse_service parse_access parse_credentials set_hashed_users
    service_record read_credentials_file write_credentials_file open_document random_token
    token_hash_text drop_invites create_invite add_service grant_service authenticate_token
    authenticate_invite reload refresh enrolled enroll resolve_service stored
running = tt

abbrev alice : Text
alice = codes "alice"

abbrev web : Service
web = record {
  name = codes "web";
  target = codes "web:P";
  local_port = 0;
  workload = some (record {
    kind = codes "deployment";
    namespace = codes "dev";
    name = codes "web";
    replicas = pos 0;
    ready_timeout = pos 0;
    idle_timeout = pos 5;
  });
}

-- The service with its defaults: port 80, one replica, two minutes.
abbrev full_web : Service
full_web = record {
  name = codes "web";
  target = codes "web:P";
  local_port = 80;
  workload = some (record {
    kind = codes "deployment";
    namespace = codes "dev";
    name = codes "web";
    replicas = pos 1;
    ready_timeout = pos 120_000_000_000;
    idle_timeout = pos 5;
  });
}

abbrev gateway : Credentials
gateway = record { path = codes "users.json"; parsed = nothing }

web_validates : validate_service sample web ≡ ok full_web
unfolding running
web_validates = refl

validate_service-IsValid_example : IsValidService sample full_web
validate_service-IsValid_example = validate_service-IsValid sample web full_web web_validates

-- The file after the first grant.
abbrev granted_file : File
granted_file = record {
  accessible = true;
  mode = 0o600;
  document = some (record {
    users = [];
    invites = [];
    access =
        (
          alice,
          (
            codes "web",
            record {
              target = codes "web:P";
              local_port = 80;
              workload = some (record {
                kind = codes "deployment";
                namespace = codes "dev";
                name = codes "web";
                replicas = pos 1;
                ready_timeout = 120_000_000_000 ∷ 0 ∷ [];
                idle_timeout = 5 ∷ 0 ∷ [];
              });
            },
          )
              ∷ [],
        )
        ∷ [];
  });
}

grant_runs : grant_service sample true alice web none ≡ ok granted_file
unfolding running
grant_runs = refl

resolve_service-grant_service_example :
    (resolve_service sample (some granted_file) gateway alice (codes "web")).1 ≡ some full_web
unfolding running
resolve_service-grant_service_example =
    resolve_service-grant_service sample true alice web full_web none granted_file nothing gateway
      alice (codes "web") refl web_validates grant_runs refl

abbrev invite : Text
invite = codes "ti_1"

abbrev invited_file : File
invited_file = record {
  accessible = true;
  mode = 0o600;
  document = some (record {
    users = [];
    invites = (sample.hex_encode (sample.sha256 invite), alice) ∷ [];
    access = [];
  });
}

invite_runs : create_invite sample (some (codes "1")) true alice none ≡ ok (invite, invited_file)
unfolding running
invite_runs = refl

authenticate_invite-create_invite_example :
    (authenticate_invite sample (some invited_file) gateway alice (codes "ti_2")).1 ≡ false
unfolding running
authenticate_invite-create_invite_example =
    authenticate_invite-create_invite sample (some (codes "1")) true alice invite (codes "ti_2")
      none invited_file nothing gateway refl invite_runs refl

abbrev invited_document : Document
invited_document =
    option_or invited_file.document (record { users = []; invites = []; access = [] })

abbrev invited : Parsed
invited = record {
  users = [];
  invites = (sample.hex_encode (sample.sha256 invite), alice) ∷ [];
  services = [];
}

invited_reads : read_credentials_file (some invited_file) ≡ ok invited_document
unfolding running
invited_reads = refl

invited_parses : parse_credentials sample invited_document ≡ ok invited
unfolding running
invited_parses = refl

enroll_lem_example :
    EnrollOutcome sample (codes "9") invited_file gateway alice invite invited_document invited
enroll_lem_example =
    enroll_lem sample (codes "9") invited_file gateway alice invite invited_document invited refl
      invited_reads invited_parses

abbrev token : Text
token = codes "tu_9"

abbrev enrolled_file : File
enrolled_file = record {
  accessible = true;
  mode = 0o600;
  document = some (record {
    users =
        (alice, record { token = []; token_hash = sample.hex_encode (sample.sha256 token) }) ∷ [];
    invites = [];
    access = [];
  });
}

abbrev enrolled_gateway : Credentials
enrolled_gateway = record {
  path = codes "users.json";
  parsed = record { users = (alice, sample.sha256 token) ∷ []; invites = []; services = [] };
}

enroll_runs :
    enroll sample (some (codes "9")) true (some invited_file) gateway alice invite
    ≡ ok (token, enrolled_file, enrolled_gateway)
unfolding running
enroll_runs = refl

enroll_once_example :
    enroll sample (some (codes "8")) true (some enrolled_file) enrolled_gateway alice invite
    ≡ err bad_invite
enroll_once_example =
    enroll_once sample (some (codes "9")) (some (codes "8")) true true (some invited_file) gateway
      enrolled_gateway enrolled_gateway alice alice invite token enrolled_file enroll_runs refl

authenticate_token-enroll_example : authenticate_token sample enrolled_gateway alice token ≡ true
unfolding running
authenticate_token-enroll_example =
    authenticate_token-enroll sample (some (codes "9")) true invited_file enrolled_file gateway
      enrolled_gateway alice invite token invited_document invited alice token invited_reads
      invited_parses enroll_runs
