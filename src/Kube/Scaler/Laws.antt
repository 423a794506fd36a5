-- ===== src/Kube/Scaler/Laws.antt =====
-- internal/kube/scaler.go: what a scaling that succeeds has done.
use tearenv.Common.{
  ℤ, false, ◌||◌, ◌⊎◌, if-cases, text_eq, text_eq_iff, codes, Text, is_empty, is_negative, Option,
  none, some, Result, ok, err, Bool-cases, inl, inr, ◌≡◌, refl, ◌∙◌, arith,
}
use tearenv.Server.Lifecycle.{Target}
use tearenv.Kube.Retry.{RetryOnConflict, Runs-last}
use tearenv.Kube.Scaler.{
  ApiError, Scale, ScaleFailure, is_conflict, ScaleClient, AppsClient, blame, set_replicas, attempt,
  scale_result, workloads_of, scale_workload, scale, update,
}

module _ (World : Type 0) where
  -- The last read of the scale, and the update that followed it.
  pub record IsWritten (workloads : ScaleClient World) (name : Text) (replicas : ℤ) (w' : World)
      : Type 0 where
    pub before : World
    pub between : World
    pub found : Scale
    pub read : workloads.get_scale name before ≡ (between, ok found)
    pub written :
        workloads.update_scale name (record found { replicas = replicas }) between ≡ (w', ok tt)

  blame-ok :
      (r : World × Result ApiError (Unit {0})) (w' : World)
      → blame World update r ≡ (w', ok tt)
      → r ≡ (w', ok tt)
  blame-ok (w, ok u) w' e = cc
  blame-ok (w, err f) w' e = cc

  set_replicas-IsWritten :
      (workloads : ScaleClient World) (name : Text) (replicas : ℤ) (before w' : World)
      (r : World × Result ApiError Scale)
      → workloads.get_scale name before ≡ r
      → set_replicas World workloads name replicas r ≡ (w', ok tt)
      → IsWritten workloads name replicas w'
  unfolding set_replicas
  set_replicas-IsWritten workloads name replicas before w' (mid, err f) read e = cc
  set_replicas-IsWritten workloads name replicas before w' (mid, ok s) read e = record {
    before = before;
    between = mid;
    found = s;
    read = read;
    written = blame-ok (workloads.update_scale name (record s { replicas = replicas }) mid) w' e;
  }

  scale_result-ok :
      (r : World × Result ScaleFailure (Unit {0})) (w' : World)
      → scale_result World r ≡ (w', ok tt)
      → r ≡ (w', ok tt)
  scale_result-ok (w, ok u) w' e = cc
  scale_result-ok (w, err f) w' e = cc

  module _ (retries : RetryOnConflict World ScaleFailure is_conflict) where
    -- What a scaling that succeeds was, of which workloads.
    pub record IsScaled (client : AppsClient World) (target : Target) (replicas : ℤ) (w' : World)
        : Type 0 where
      pub named : (is_empty (target.namespace) || is_empty (target.name)) ≡ false
      pub not_negative : is_negative replicas ≡ false
      pub workloads : ScaleClient World
      pub chosen :
          ((target.kind ≡ codes "deployment") × (workloads ≡ client.deployments (target.namespace)))
          ⊎ ((target.kind ≡ codes "statefulset")
              × (workloads ≡ client.stateful_sets (target.namespace)))
      pub is_written : IsWritten workloads (target.name) replicas w'

    workloads_of-cases :
        (client : AppsClient World) (target : Target) (workloads : ScaleClient World)
        → workloads_of World client target ≡ some workloads
        → ((target.kind ≡ codes "deployment") × (workloads ≡ client.deployments (target.namespace)))
          ⊎ ((target.kind ≡ codes "statefulset")
              × (workloads ≡ client.stateful_sets (target.namespace)))
    unfolding workloads_of
    workloads_of-cases client target workloads e =
        elim (if-cases (text_eq (target.kind) (codes "deployment")) _ _ e) [
          | inl (one, found) ↦ inl ((text_eq_iff (target.kind) (codes "deployment")).0 one, cc)
          | inr (other, rest) ↦
              elim (if-cases (text_eq (target.kind) (codes "statefulset")) _ _ rest) [
                | inl (two, found) ↦
                    inr ((text_eq_iff (target.kind) (codes "statefulset")).0 two, cc)
                | inr (unknown_, bad) ↦ absurd cc
              ]
        ]

    scale_workload-IsWritten :
        (o : Option (ScaleClient World)) (name : Text) (replicas : ℤ) (w w' : World)
        → scale_workload World retries o name replicas w ≡ (w', ok tt)
        → (workloads : ScaleClient World) × (o ≡ some workloads)
          × IsWritten workloads name replicas w'
    unfolding scale_workload attempt
    scale_workload-IsWritten none name replicas w w' e = cc
    scale_workload-IsWritten (some workloads) name replicas w w' e =
        let step = attempt World workloads name replicas in
        let ran = scale_result-ok (retries.retry step w) w' e in
        let (at, same) =
          Runs-last World ScaleFailure is_conflict step w (retries.retry step w)
            (retries.retry-Runs step w) in
        (
          workloads,
          refl,
          set_replicas-IsWritten workloads name replicas at w' (workloads.get_scale name at) refl
              (same ∙ ran),
        )

    -- A scaling that succeeds was of a deployment or a stateful set with a name and a namespace,
    -- to a number of replicas that is not negative; whatever conflicts came before, it ended with
    -- a read of the scale of that workload and an update that was taken, which changed nothing of
    -- the scale that was read but the replicas.
    pub scale-IsScaled :
        (client : AppsClient World) (target : Target) (replicas : ℤ) (w w' : World)
        → scale World retries (some client) target replicas w ≡ (w', ok tt)
        → IsScaled client target replicas w'
    unfolding scale
    scale-IsScaled client target replicas w w' e =
        elim (Bool-cases (is_empty (target.namespace) || is_empty (target.name))) [
          | inl missing ↦ absurd (ground arith)
          | inr named ↦ elim (Bool-cases (is_negative replicas)) [
            | inl negative ↦ absurd (ground arith)
            | inr fits ↦
                let (workloads, chosen, done) =
                  scale_workload-IsWritten (workloads_of World client target) (target.name) replicas
                    w w' (ground arith) in
                record {
                  named = named;
                  not_negative = fits;
                  workloads = workloads;
                  chosen = workloads_of-cases client target workloads chosen;
                  is_written = done;
                }
          ]
        ]
