-- ===== src/Kube/Retry.antt =====
-- What internal/kube uses of k8s.io/client-go/util/retry: `RetryOnConflict` runs a function again
-- while its error is a conflict, a limited number of times, and returns what its last run returned.
use tearenv.Common.{Bool, true, false, Result, ok, err, ◌≡◌, refl}

abbrev pub has_conflict : {E : Type 0} → (E → Bool) → Result E (Unit {0}) → Bool
has_conflict is_conflict (err e) = is_conflict e
has_conflict is_conflict (ok u) = false

module _ (World E : Type 0) (is_conflict : E → Bool) where
  -- The runs of a function from one state to the result of the last.
  pub data Runs (attempt : World → World × Result E (Unit {0}))
      : World → World × Result E (Unit {0}) → Type 0 where
    last : (w : World) → Runs attempt w (attempt w)
    again :
        (w : World) {r : World × Result E (Unit {0})}
        → has_conflict is_conflict (attempt w).1 ≡ true
        → Runs attempt (attempt w).0 r
        → Runs attempt w r

  -- `RetryOnConflict`.
  pub record RetryOnConflict : Type 0 where
    pub retry : (World → World × Result E (Unit {0})) → World → World × Result E (Unit {0})
    pub retry-Runs :
        (attempt : World → World × Result E (Unit {0})) (w : World)
        → Runs attempt w (retry attempt w)

  -- What the last run was.
  pub Runs-last :
      (attempt : World → World × Result E (Unit {0})) (w : World) (r : World × Result E (Unit {0}))
      → Runs attempt w r
      → (at : World) × (attempt at ≡ r)
  Runs-last attempt w _ (last _) = (w, refl)
  Runs-last attempt w r (again _ failed runs) = Runs-last attempt (attempt w).0 r runs
