-- ===== src/Kube/Scaler/Tests.antt =====
-- A deployment that is scaled after one conflict.
use tearenv.Common.{
  ℕ, zero, suc, ℤ, pos, Text, codes, text_eq, some, if◌then◌else◌, Result, ok, err, Bool-cases, inl,
  inr, ◌≡◌, refl,
}
use tearenv.Server.Lifecycle.{Target}
use tearenv.Kube.Retry.{has_conflict, Runs, last, again, RetryOnConflict}
use tearenv.Kube.Scaler.{
  ApiError, conflict, Scale, ScaleFailure, is_conflict, ScaleClient, AppsClient, set_replicas,
  attempt, workloads_of, scale_workload, scale,
}
use tearenv.Kube.Scaler.Laws.{IsScaled, scale-IsScaled}

-- The conflicts that are still to come, and the replicas.
abbrev World : Type 0
World = ℕ × ℤ

abbrev Attempt : Type 0
Attempt = World → World × Result ScaleFailure (Unit {0})

retry_times : ℕ → Attempt → Attempt
retry_times zero f w = f w
retry_times (suc n) f w =
    let rest = retry_times n f (f w).0 in if has_conflict is_conflict (f w).1 then rest else f w

retry_times-Runs :
    (n : ℕ) (f : Attempt) (w : World) → Runs World ScaleFailure is_conflict f w (retry_times n f w)
unfolding retry_times
retry_times-Runs zero f w = last w
retry_times-Runs (suc n) f w = elim (Bool-cases (has_conflict is_conflict (f w).1)) [
  | inl failed ↦ rw failed (again w failed (retry_times-Runs n f (f w).0))
  | inr done ↦ rw done (last w)
]

abbrev retries : RetryOnConflict World ScaleFailure is_conflict
retries = record { retry = retry_times 4; retry-Runs = retry_times-Runs 4 }

abbrev get_scale : Text → World → World × Result ApiError Scale
get_scale name (n, replicas) = ((n, replicas), ok (record { replicas = replicas; rest = name }))

abbrev update_scale : Text → Scale → World → World × Result ApiError (Unit {0})
update_scale name s (zero, replicas) = ((zero, s.replicas), ok tt)
update_scale name s (suc n, replicas) = ((n, replicas), err conflict)

abbrev workloads : ScaleClient World
workloads = record { get_scale = get_scale; update_scale = update_scale }

abbrev client : AppsClient World
client = record { deployments = λ namespace. workloads; stateful_sets = λ namespace. workloads }

abbrev target : Target
target = record { kind = codes "deployment"; namespace = codes "dev"; name = codes "web" }

web_scaled : scale World retries (some client) target (pos 1) (1, pos 0) ≡ ((0, pos 1), ok tt)
unfolding scale scale_workload workloads_of attempt set_replicas text_eq retry_times
web_scaled = refl

scale-IsScaled_example : IsScaled World retries client target (pos 1) (0, pos 1)
scale-IsScaled_example =
    scale-IsScaled World retries client target (pos 1) (1, pos 0) (0, pos 1) web_scaled
