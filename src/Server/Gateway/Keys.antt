-- ===== src/Server/Gateway/Keys.antt =====
-- The keys of the map of runtimes in lifecycle.go tell runtimes apart.
use tearenv.Common.{
  ◌≡◌, refl, sym, Text, codes, Option, none, some, [], ◌∷◌, ◌++◌, arith, NoNul, split_nul,
}
use tearenv.Authorization.{Service, Workload}
use tearenv.Server.Lifecycle.{scaler_target}
use tearenv.Server.Gateway.{runtime_key}

not_nul : (s x y : Text) → NoNul x → x ≡ s ++ 0 ∷ y → ⊥
not_nul [] [] y h e = cc
not_nul [] (c ∷ x) y (p, h) e = p (ground arith)
not_nul (a ∷ s) [] y h e = cc
not_nul (a ∷ s) (c ∷ x) y (p, h) e =
    let tails : x ≡ s ++ 0 ∷ y = ground arith in not_nul s x y h tails

-- No byte of the fields that a separator follows, nor of the name of a static service, is zero.
abbrev pub IsClean : Text → Service → Option Workload → Type 0
IsClean identity service none = NoNul identity × NoNul service.name
IsClean identity service (some w) = NoNul w.kind × NoNul w.namespace

-- Two static services of the same identity and name, or two managed ones with the same workload.
abbrev pub SameRuntime :
    Text → Service → Option Workload → Text → Service → Option Workload → Type 0
SameRuntime i s none j t none = (i ≡ j) × (s.name ≡ t.name)
SameRuntime i s (some v) j t (some w) = scaler_target v ≡ scaler_target w
SameRuntime i s _ j t _ = ⊥

key_of : Text → Service → Option Workload → Text
key_of identity service none = identity ++ 0 ∷ service.name
key_of identity service (some w) =
    codes "workload" ++ 0 ∷ (w.kind ++ 0 ∷ (w.namespace ++ 0 ∷ w.name))

runtime_key-key_of :
    (i : Text) (s : Service) (w : Option Workload) → s.workload ≡ w → runtime_key i s ≡ key_of i s w
unfolding runtime_key key_of
runtime_key-key_of i s none e = rw (e, runtime_key)
runtime_key-key_of i s (some w) e = rw (e, runtime_key)

word_NoNul : NoNul (codes "workload")
word_NoNul = omega arith

key_of-separates :
    (i j : Text) (s t : Service) (v w : Option Workload)
    → IsClean i s v
    → IsClean j t w
    → key_of i s v ≡ key_of j t w
    → SameRuntime i s v j t w
unfolding key_of scaler_target
key_of-separates i j s t none none (p, q) (p', q') e = split_nul i j p p' e
key_of-separates i j s t none (some w) (p, q) k e =
    not_nul w.kind s.name _ q (split_nul i (codes "workload") p word_NoNul e).1
key_of-separates i j s t (some v) none h (p, q) e =
    not_nul v.kind t.name _ q (split_nul j (codes "workload") p word_NoNul (sym e)).1
key_of-separates i j s t (some v) (some w) (p, q) (p', q') e =
    let rest = (split_nul (codes "workload") (codes "workload") word_NoNul word_NoNul e).1 in
    let (kinds, rest') = split_nul v.kind w.kind p p' rest in
    let (spaces, names) = split_nul v.namespace w.namespace q q' rest' in ground arith

-- Where no identity, name, kind or namespace holds a zero byte, two services share a runtime only
-- if both are static and have the same identity and name, or both are managed and have the same
-- workload kind, namespace and name.
pub runtime_key-separates :
    (i j : Text) (s t : Service)
    → IsClean i s s.workload
    → IsClean j t t.workload
    → runtime_key i s ≡ runtime_key j t
    → SameRuntime i s s.workload j t t.workload
runtime_key-separates i j s t p q e =
    key_of-separates i j s t s.workload t.workload p q
      (rw (runtime_key-key_of i s s.workload refl, runtime_key-key_of j t t.workload refl) at e)

-- Two managed services with the same workload share it, whoever asks and under whatever name.
pub runtime_key-shares :
    (i j : Text) (s t : Service) (w w' : Workload)
    → s.workload ≡ some w
    → t.workload ≡ some w'
    → scaler_target w ≡ scaler_target w'
    → runtime_key i s ≡ runtime_key j t
unfolding runtime_key scaler_target
runtime_key-shares i j s t w w' p q e = ground arith
