-- ===== src/Registration/Http/Laws.antt =====
-- internal/registration/http.go: what a client reads after a request that was accepted.
use tearenv.Common.{
  ℕ, suc, Bool, true, false, not, ◌&&◌, Text, codes, text_eq, text_eq_iff, trim_space, length, take,
  ltb, Option, option_or, Result, ok, err, >>=-eq-ok, require-then, from_option, Result-cases, inl,
  inr, ◌≡◌, ◌⊎◌, refl, sym, ap, ◌∙◌, arith,
}
use tearenv.Authn.{AuthnError, Principal}
use tearenv.Authn.Oidc.{split}
use tearenv.Api.{UserRegistration}
use tearenv.Api.Library.{Library}
use tearenv.Registration.Store.{Store, StoreError, load_user_registration}
use tearenv.Registration.Requests.{Answers, put_as}
use tearenv.Registration.Requests.Ownership.{IsFiled}
use tearenv.Registration.Requests.Retry.{get_as-put_as, put_as-repeats}
use tearenv.Registration.Exchange.{ExchangeRequest}
use tearenv.Registration.Http.{
  anonymous_only, HandlerOptions, HttpRequest, registration, put_route, get_route,
  request_body_limit, first, loaded, put_code, put_reply, read_registration, put_registration,
  get_registration, authorize, serve_put, serve_get, serve,
}

module _ (lib : Library) (decode : Text → Option UserRegistration) where
  read_registration-path :
      (q : HttpRequest) (r : UserRegistration)
      → read_registration lib decode q ≡ ok r
      → (r.namespace ≡ q.namespace) × (r.name ≡ q.name)
  unfolding read_registration
  read_registration-path q r e =
      let (typed, rest) =
        require-then
          (text_eq (trim_space (first (split b';' (q.content_type)))) (codes "application/json")) _
          _ e in
      let (body, given, rest2) = >>=-eq-ok (from_option (q.body) 400) _ rest in
      let contents = take (suc request_body_limit) body in
      let (small, rest3) =
        require-then (not (ltb request_body_limit (length contents))) _ _ rest2 in
      let (x, read, rest4) =
        >>=-eq-ok (loaded (load_user_registration lib (decode contents))) _ rest3 in
      let (same, last) =
        require-then (text_eq (x.namespace) (q.namespace) && text_eq (x.name) (q.name)) _ _ rest4 in
      let is : x ≡ r = cc in
      rw (← is) (
        (text_eq_iff (x.namespace) (q.namespace)).0 (ground arith),
        (text_eq_iff (x.name) (q.name)).0 (ground arith),
      )

  -- A reply with a registration comes from the store.
  put_reply-registration :
      (before saved : Store) (result : Result StoreError (Store × UserRegistration × Bool))
      (status : ℕ) (stored : UserRegistration)
      → put_reply before result ≡ (saved, registration status stored)
      → (created : Bool) × (result ≡ ok (saved, stored, created)) × (status ≡ put_code created)
  put_reply-registration before saved (err e) status stored h = cc
  put_reply-registration before saved (ok (s, x, created)) status stored h = (created, cc, cc)

  abbrev pub IsCode : ℕ → Type 0
  IsCode status = (status ≡ 201) ⊎ (status ≡ 200)

  -- The same request with other credentials.
  abbrev pub signed : HttpRequest → Text → HttpRequest
  signed q authorization = record q { authorization = authorization }

  -- Whom the options of a handler let in.
  abbrev pub admits : HandlerOptions → Text → Result AuthnError Principal
  admits o authorization = authorize (option_or (o.authenticator) anonymous_only) authorization

  -- What a PUT that is answered with a registration leaves for the later requests `q'`.
  pub record IsReadable (o : HandlerOptions) (b : Answers) (q q' : HttpRequest)
      (x : ExchangeRequest) (saved : Store) (status : ℕ) : Type 0 where
    pub sent : UserRegistration
    pub read : read_registration lib decode q ≡ ok sent
    pub code : IsCode status
    pub seen : UserRegistration
    pub same_spec : seen.spec ≡ sent.spec
    pub got : serve lib decode o b get_route q' x saved ≡ (saved, registration 200 seen)
    pub again : serve lib decode o b put_route q' x saved ≡ (saved, registration 200 seen)

  IsCode-put_code : (created : Bool) → IsCode (put_code created)
  IsCode-put_code true = inl refl
  IsCode-put_code false = inr refl

  put_registration_lem :
      (a b : Answers) (q : HttpRequest) (p : Principal) (store saved : Store) (status : ℕ)
      (stored : UserRegistration)
      → IsFiled lib store
      → put_registration lib decode a q p store ≡ (saved, registration status stored)
      → (r : UserRegistration) × (seen : UserRegistration) × (read_registration lib decode q ≡ ok r)
        × IsCode status
        × (seen.spec ≡ r.spec)
        × (get_registration lib decode q p saved ≡ registration 200 seen)
        × (put_registration lib decode b q p saved ≡ (saved, registration 200 seen))
  unfolding put_registration get_registration
  put_registration_lem a b q p store saved status stored filed e =
      elim (Result-cases (read_registration lib decode q)) [
        | inl (why, refused) ↦ absurd (ground arith)
        | inr (r, read) ↦
            let put_ : put_reply store (put_as lib a r p store)
                ≡ (saved, registration status stored) =
              ground arith in
            let (created, accepted, code) =
              put_reply-registration store saved (put_as lib a r p store) status stored put_ in
            let (namespace, name) = read_registration-path q r read in
            let (seen, got, again) =
              put_as-repeats lib a b r p store saved stored created filed accepted in
            let (seen_, got_, same, owner) =
              get_as-put_as lib a r p store saved stored created filed accepted in
            let same_seen : seen_ ≡ seen = cc in
            (
              r,
              seen,
              read,
              rw code (IsCode-put_code created),
              ap (λ (u : UserRegistration). u.spec) (sym same_seen) ∙ same,
              rw (← namespace, ← name, got) refl,
              rw (read, put_registration) (rw again refl),
            )
      ]

  -- What does not read the credentials.
  put_registration-signed :
      (a : Answers) (q : HttpRequest) (authorization : Text) (p : Principal) (store : Store)
      → put_registration lib decode a (signed q authorization) p store
        ≡ put_registration lib decode a q p store
  unfolding put_registration read_registration
  put_registration-signed a q authorization p store = refl

  get_registration-signed :
      (q : HttpRequest) (authorization : Text) (p : Principal) (store : Store)
      → get_registration lib decode (signed q authorization) p store
        ≡ get_registration lib decode q p store
  unfolding get_registration
  get_registration-signed q authorization p store = refl

  -- In a store where every resource is filed under its own path: a PUT that is answered with a
  -- registration is answered 201 or 200, and then, with credentials that are authenticated at the
  -- time of a later request as the same principal, whatever identifiers, times and outcomes of
  -- writes follow, a GET of the same path is answered 200 with a registration that has the spec of
  -- the body of the PUT, and the same PUT again is answered 200 with the same registration and
  -- changes nothing.
  pub serve-IsReadable :
      (o o' : HandlerOptions) (authorization : Text) (a b : Answers) (q : HttpRequest)
      (x : ExchangeRequest) (store saved : Store) (status : ℕ) (stored : UserRegistration)
      → IsFiled lib store
      → admits o' authorization ≡ admits o (q.authorization)
      → serve lib decode o a put_route q x store ≡ (saved, registration status stored)
      → IsReadable o' b q (signed q authorization) x saved status
  unfolding serve serve_put serve_get
  serve-IsReadable o o' authorization a b q x store saved status stored filed alike e =
      elim (Result-cases (admits o (q.authorization))) [
        | inl (why, refused) ↦ absurd (ground arith)
        | inr (p, known) ↦
            let put_ : put_registration lib decode a q p store
                ≡ (saved, registration status stored) =
              ground arith in
            let (r, seen, read, code, same, got, again) =
              put_registration_lem a b q p store saved status stored filed put_ in
            let later = alike ∙ known in
            record {
              sent = r;
              read = read;
              code = code;
              seen = seen;
              same_spec = same;
              got =
                  rw (later, serve, serve_get)
                    (rw (get_registration-signed q authorization p saved ∙ got) refl);
              again =
                  rw (later, serve, serve_put)
                    (put_registration-signed b q authorization p saved ∙ again);
            }
      ]
