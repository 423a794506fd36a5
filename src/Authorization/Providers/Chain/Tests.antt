-- ===== src/Authorization/Providers/Chain/Tests.antt =====
-- A chain of a provider that never matches and one that always does.
use tearenv.Common.{Text, codes, none, some, [], ◌∷◌, ok, ◌≡◌, refl}
use tearenv.Authorization.Providers.{Authenticator, Attempt, Verified, password, authenticate_chain}
use tearenv.Authorization.Providers.Chain.{Decides, authenticate_chain-Decides}

abbrev attempt : Attempt
attempt = record {
  identity = codes "alice";
  method = password;
  password = codes "p";
  public_key = none;
}

abbrev alice : Verified
alice = record { identity = codes "alice"; provider = codes "all"; valid_before = none }

abbrev nobody : Authenticator Text
nobody a = ok none

abbrev everybody : Authenticator Text
everybody a = ok (some alice)

alice_in : authenticate_chain (nobody ∷ everybody ∷ []) attempt ≡ ok (some alice)
unfolding authenticate_chain
alice_in = refl

authenticate_chain-Decides_example : Decides (nobody ∷ everybody ∷ []) attempt alice
authenticate_chain-Decides_example =
    authenticate_chain-Decides (nobody ∷ everybody ∷ []) attempt alice alice_in
