-- ===== src/Authorization/Providers.antt =====
-- internal/authorization/authorization.go: authentication attempts, the providers that verify them
-- and their chain.
pub mod Chain
use tearenv.Common.{
  err, ◌>>◌, require, not, is_empty, ℕ, Text, Map, Option, none, some, List, [], ◌∷◌, Result, ok,
  ◌>>=◌,
}

pub data Method : Type 0 where
  password public_key : Method

-- An `ssh.Certificate`. Keys are their wire forms, and times are seconds.
pub record Certificate : Type 0 where
  pub key : Text
  pub serial : ℕ
  pub cert_type : ℕ
  pub key_id : Text
  pub valid_principals : List Text
  pub valid_after : ℕ
  pub valid_before : ℕ
  pub critical_options : Map Text
  pub extensions : Map Text
  pub signature_key : Text
  pub signature : Text

-- An `ssh.PublicKey` by its wire form, with the certificate if it is one.
pub record PublicKey : Type 0 where
  pub wire : Text
  pub certificate : Option Certificate

pub record Attempt : Type 0 where
  pub identity : Text
  pub method : Method
  pub password : Text
  pub public_key : Option PublicKey

-- The guard `attempt.Method != MethodPublicKey || attempt.PublicKey == nil` of the providers.
unfoldable pub offered_key : Attempt → Option PublicKey
offered_key attempt = elim (attempt.method) [ password ↦ none | public_key ↦ attempt.public_key ]

-- `Result`; `none` is the zero time.
pub record Verified : Type 0 where
  pub identity : Text
  pub provider : Text
  pub valid_before : Option ℕ

pub data ChainError : Type 0 where
  no_provider nil_provider : ChainError

-- `none` is an attempt that does not match.
abbrev pub Authenticator {ℓ} : Type ℓ → Type ℓ
Authenticator E = Attempt → Result E (Option Verified)

module _ {ℓ} {E : Type ℓ} where
  unfoldable pub present :
      List (Option (Authenticator E)) → Result ChainError (List (Authenticator E))
  present [] = ok []
  present (none ∷ providers) = err nil_provider
  present (some provider ∷ providers) = do rest ← present providers; ok (provider ∷ rest)

  -- `NewChain`, where `none` is a nil provider.
  unfoldable pub new_chain :
      List (Option (Authenticator E)) → Result ChainError (List (Authenticator E))
  unfolding present
  new_chain providers = do require (not (is_empty providers)) no_provider; present providers

  -- `Authenticate` of a chain.
  unfoldable pub authenticate_chain : List (Authenticator E) → Authenticator E
  authenticate_chain [] attempt = ok none
  authenticate_chain (provider ∷ providers) attempt = do
    result ← provider attempt
    elim result [ some v ↦ ok (some v) | none ↦ authenticate_chain providers attempt ]
