-- ===== src/Authorization/Providers/Chain.antt =====
-- internal/authorization/authorization.go: which provider of a chain decides.
mod Tests
use tearenv.Common.{
  Option, none, some, List, [], ◌∷◌, ◌++◌, Result, ok, err, ◌>>=◌, >>=-eq-ok, ◌≡◌, refl, ap, All,
  ◌∙◌, arith, inl, inr, Option-cases,
}
use tearenv.Authorization.Providers.{Authenticator, Attempt, Verified, authenticate_chain}

module _ {ℓ} {E : Type ℓ} where
  -- The result of the first provider that matches.
  pub record Decides (providers : List (Authenticator E)) (attempt : Attempt) (v : Verified)
      : Type ℓ where
    pub before : List (Authenticator E)
    pub provider : Authenticator E
    pub after : List (Authenticator E)
    pub order : providers ≡ before ++ provider ∷ after
    pub matches : provider attempt ≡ ok (some v)
    pub passed : All (λ (q : Authenticator E). q attempt ≡ ok none) before

  -- An attempt that a chain accepts has the result of one of its providers, and every provider
  -- before that one answered without an error that the attempt does not match.
  pub authenticate_chain-Decides :
      (providers : List (Authenticator E)) (attempt : Attempt) (v : Verified)
      → authenticate_chain providers attempt ≡ ok (some v)
      → Decides providers attempt v
  unfolding authenticate_chain
  authenticate_chain-Decides [] attempt v e = cc
  authenticate_chain-Decides (p ∷ ps) attempt v e =
      let (r, ran, rest) = >>=-eq-ok (p attempt) _ e in
      elim (Option-cases r) [
        | inl missing ↦
            let onwards : authenticate_chain ps attempt ≡ ok (some v) = ground arith in
            let later = authenticate_chain-Decides ps attempt v onwards in
            record {
              before = p ∷ later.before;
              provider = later.provider;
              after = later.after;
              order = ap (λ qs. p ∷ qs) later.order;
              matches = later.matches;
              passed = (ran ∙ ap ok missing, later.passed);
            }
        | inr (w, found) ↦
            let same : w ≡ v = ground arith in
            record {
              before = [];
              provider = p;
              after = ps;
              order = refl;
              matches = ran ∙ ap ok found ∙ ap (λ x. ok (some x)) same;
              passed = tt;
            }
      ]
