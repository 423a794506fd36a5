-- ===== src/Client/Registration.antt =====
-- internal/client/registration.go: `SubmitUserRegistration`. The URL parser, path escaping and the
-- request are arguments; a body is the registration that it decodes to.
use tearenv.Common.{
  ℕ, suc, Bool, true, false, not, ◌&&◌, ◌||◌, Text, codes, text_eq, is_empty, length, take,
  trim_space, Option, none, some, leb, ltb, if◌then◌else◌, Result, ok, err, ◌>>=◌, ◌>>◌, >>=-eq-ok,
  require, require-then, from_option, wrap, ◌≡◌, arith,
}
use tearenv.Api.{Condition, UserRegistration}
use tearenv.Api.Library.{Library, Url}
use tearenv.Api.Validation.{Problem, validate, acceptance_condition}
use tearenv.Registration.Store.{StoreError, spec_eq, load_user_registration}

pub data SubmitError : Type 0 where
  no_client no_namespace bad_url not_answered unreadable too_large refused : SubmitError
  bad_response mismatched pending rejected : SubmitError
  invalid : Problem → SubmitError

-- `registrationResponseLimit`.
abbrev pub registration_response_limit : ℕ
registration_response_limit = 1048576

-- The checks of `userRegistrationURL`.
unfoldable pub good_base_url : Option Url → Bool
good_base_url none = false
good_base_url (some u) =
    (text_eq u.scheme (codes "http") || text_eq u.scheme (codes "https"))
    && not (is_empty u.host)
    && is_empty u.raw_query
    && is_empty u.fragment

-- The condition of the registration that was returned. The program returns the registration with
-- these errors too.
unfoldable pub check_condition : Option Condition → Result SubmitError (Unit {0})
check_condition none = err pending
check_condition (some c) =
    if text_eq c.status (codes "Unknown")
    then err pending
    else if text_eq c.status (codes "False")
    then err rejected
    else ok tt

abbrev pub drop_error : StoreError → SubmitError
drop_error e = bad_response

-- An answer: its status, and its body if it could be read.
pub record Answer : Type 0 where
  pub status : ℕ
  pub body : Option Text

module _ (lib : Library) (decode : Text → Option UserRegistration) where
  -- The checks of the answer.
  unfoldable pub check_answer : UserRegistration → Answer → Result SubmitError UserRegistration
  unfolding check_condition
  check_answer r a = do
    body ← from_option a.body unreadable
    let contents = take (suc registration_response_limit) body
    require (not (ltb registration_response_limit (length contents))) too_large
    require (leb 200 a.status && ltb a.status 300) refused
    accepted ← wrap drop_error (load_user_registration lib (decode contents))
    require
        (text_eq accepted.namespace r.namespace
          && text_eq accepted.name r.name
          && spec_eq accepted.spec r.spec)
        mismatched
    check_condition (acceptance_condition lib accepted)
    ok accepted

  -- `SubmitUserRegistration`, where `put` sends the registration with a bearer token, if it is not
  -- empty; the HTTP client may be nil.
  unfoldable pub submit_user_registration :
      Option (UserRegistration → Text → Option Answer)
      → Text
      → UserRegistration
      → Text
      → Result SubmitError UserRegistration
  unfolding check_answer good_base_url
  submit_user_registration client base_url r token = do
    put ← from_option client no_client
    wrap invalid (validate lib r)
    require (not (is_empty r.namespace)) no_namespace
    require (good_base_url (lib.url_parse (trim_space base_url))) bad_url
    a ← from_option (put r (trim_space token)) not_answered
    check_answer r a

  -- What the client takes for accepted is the resource that it sent.
  pub check_answer-sent :
      (r accepted : UserRegistration) (a : Answer)
      → check_answer r a ≡ ok accepted
      → (text_eq (accepted.name) (r.name) ≡ true) × (spec_eq (accepted.spec) (r.spec) ≡ true)
  unfolding check_answer
  check_answer-sent r accepted a e =
      let (body, given, rest) = >>=-eq-ok (from_option (a.body) unreadable) _ e in
      let contents = take (suc registration_response_limit) body in
      let (small, rest2) =
        require-then (not (ltb registration_response_limit (length contents))) _ _ rest in
      let (fine, rest3) = require-then (leb 200 (a.status) && ltb (a.status) 300) _ _ rest2 in
      let (x, loaded, rest4) =
        >>=-eq-ok (wrap drop_error (load_user_registration lib (decode contents))) _ rest3 in
      let (same, rest5) =
        require-then
          (text_eq (x.namespace) (r.namespace)
            && text_eq (x.name) (r.name)
            && spec_eq (x.spec) (r.spec))
          _ _ rest4 in
      let (u, checked, last) = >>=-eq-ok (check_condition (acceptance_condition lib x)) _ rest5 in
      let is : x ≡ accepted = cc in rw (← is) (ground arith, ground arith)
