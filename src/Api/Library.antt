-- ===== src/Api/Library.antt =====
-- What api/v1alpha1 takes from other modules: k8s.io/apimachinery (validation and conditions),
-- golang.org/x/crypto/ssh and net/url. A public key is its wire form, `Marshal`.
use tearenv.Common.{Text, Bool, Option, some, List, [], ◌∷◌, ◌≡◌}
use tearenv.Blueprint.Slug.{Digest}
use tearenv.Api.{Condition}

-- The parts of a `url.URL` that are read.
pub record Url : Type 0 where
  pub scheme : Text
  pub host : Text
  pub raw_query : Text
  pub fragment : Text

pub record Library : Type 0 where
  pub digest : Digest
  -- `validation.IsDNS1123Label` and `validation.IsDNS1123Subdomain`: whether there is no problem.
  pub is_dns_label : Text → Bool
  pub is_dns_subdomain : Text → Bool
  pub url_parse : Text → Option Url
  -- `ssh.ParseAuthorizedKey`: the key and the rest of the input.
  pub parse_authorized_key : Text → Option (Text × Text)
  -- `meta.FindStatusCondition`: a condition of the given type, if there is one.
  pub find_status_condition : List Condition → Text → Option Condition
  pub find_status_condition-one :
      (c : Condition) → find_status_condition (c ∷ []) c.condition_type ≡ some c
