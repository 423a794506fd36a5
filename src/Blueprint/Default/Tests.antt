-- ===== src/Blueprint/Default/Tests.antt =====
-- The starter blueprint of one name, encoded as that name.
use tearenv.Common.{
  ℤ, pos, Text, codes, text_eq, Option, none, some, ok, ◌≡◌, refl, if◌then◌else◌, ◌↔◌,
}
use tearenv.Blueprint.Document.{Document}
use tearenv.Blueprint.Library.{Library}
use tearenv.Blueprint.Sample.{sample}
use tearenv.Blueprint.Default.{default_blueprint, marshal, load}
use tearenv.Blueprint.Default.Laws.{IsStandard, validate-default_blueprint, load-marshal}
use tearenv.Blueprint.Validation.Laws.{IsRunnable}

abbrev minutes : Text → Option ℤ
minutes t =
    if text_eq t (codes "2m")
    then some (pos 120000000000)
    else if text_eq t (codes "10m")
    then some (pos 600000000000)
    else none

abbrev library : Library
library = record sample { parse_duration = minutes }

library-IsStandard : IsStandard library
unfolding text_eq
library-IsStandard = record {
  namespace = refl;
  workspace = refl;
  managed_by = refl;
  identity = refl;
  blueprint = refl;
  tearenv_value = refl;
  identity_value = refl;
  blueprint_value = refl;
  two_minutes = refl;
  ten_minutes = refl;
}

abbrev encode : Document → Option Text
encode d = some d.name

abbrev decode : Text → Option Document
decode t = some (default_blueprint t)

encoded : encode (default_blueprint (codes "team")) ≡ some (codes "team")
unfolding default_blueprint
encoded = refl

team_loaded : load library decode (codes "team") ≡ ok (default_blueprint (codes "team"))
unfolding load
team_loaded = rw (validate-default_blueprint library library-IsStandard (codes "team") refl) refl

load-marshal_example :
    (load library decode (codes "team") ≡ ok (default_blueprint (codes "team"))) ↔ (
      (decode (codes "team") ≡ some (default_blueprint (codes "team")))
      × (marshal library encode (default_blueprint (codes "team")) ≡ ok (codes "team"))
      × IsRunnable library (default_blueprint (codes "team")))
load-marshal_example =
    load-marshal library encode decode (codes "team") (codes "team")
      (default_blueprint (codes "team")) encoded
