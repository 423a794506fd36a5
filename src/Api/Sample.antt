-- ===== src/Api/Sample.antt =====
-- A concrete `Library` for the tests: a DNS name is checked by its characters, a URL is HTTPS with
-- the text as its host, and every text that is not empty is a key with itself as its wire form.
use tearenv.Common.{
  Text, codes, text_eq, text_eq_self, Option, none, some, List, [], ◌∷◌, is_empty, not, ◌&&◌, all,
  refl, if◌then◌else◌, Bool,
}
use tearenv.Blueprint.Slug.Sample.{sevens}
use tearenv.Api.{Condition}
use tearenv.Api.Library.{Library, Url}
use tearenv.Api.Names.{is_name_char}

abbrev pub is_name : Text → Bool
is_name t = not (is_empty t) && all is_name_char t

abbrev pub parse_url : Text → Option Url
parse_url t = some (record { scheme = codes "https"; host = t; raw_query = []; fragment = [] })

abbrev pub parse_key : Text → Option (Text × Text)
parse_key t = if is_empty t then none else some (t, [])

abbrev pub find_condition : List Condition → Text → Option Condition
find_condition [] t = none
find_condition (c ∷ cs) t = if text_eq c.condition_type t then some c else find_condition cs t

abbrev pub library : Library
library = record {
  digest = sevens;
  is_dns_label = is_name;
  is_dns_subdomain = is_name;
  url_parse = parse_url;
  parse_authorized_key = parse_key;
  find_status_condition = find_condition;
  find_status_condition-one = λ c. rw (text_eq_self (c.condition_type)) refl;
}
