-- ===== src/Blueprint/Library.antt =====
-- What internal/blueprint takes from k8s.io/apimachinery/pkg/util/validation (each function answers
-- whether there is no problem), crypto/sha256 and time.
use tearenv.Common.{ℤ, Text, Bool, Option}
use tearenv.Blueprint.Slug.{Digest}

pub record Library : Type 0 where
  pub digest : Digest
  pub is_dns_label : Text → Bool
  pub is_dns_subdomain : Text → Bool
  pub is_qualified_name : Text → Bool
  pub is_label_value : Text → Bool
  pub parse_duration : Text → Option ℤ
