-- ===== src/Kube/Scaler.antt =====
-- internal/kube/scaler.go: `Scale`. The state of the cluster is passed through the calls of the
-- client, which may change it in any way.
pub mod Laws
mod Tests
use tearenv.Common.{
  ℤ, Bool, true, false, not, ◌&&◌, ◌||◌, Text, codes, text_eq, is_empty, is_negative, Option, none,
  some, if◌then◌else◌, Result, ok, err,
}
use tearenv.Server.Lifecycle.{Target}
use tearenv.Kube.Retry.{RetryOnConflict}

pub data ApiError : Type 0 where
  conflict other : ApiError

pub data Operation : Type 0 where
  get update : Operation

-- An error of the closure, with the operation that failed.
pub record ScaleFailure : Type 0 where
  pub operation : Operation
  pub cause : ApiError

abbrev pub is_conflict : ScaleFailure → Bool
is_conflict f = elim (f.cause) [ conflict ↦ true | other ↦ false ]

pub data ScaleError : Type 0 where
  no_client no_target negative_replicas unsupported_kind : ScaleError
  failed : ScaleFailure → ScaleError

-- `autoscalingv1.Scale`: the replicas of its spec, and all else of it.
pub record Scale : Type 0 where
  pub replicas : ℤ
  pub rest : Text

module _ (World : Type 0) where
  -- `scaleClient` for a namespace.
  pub record ScaleClient : Type 0 where
    pub get_scale : Text → World → World × Result ApiError Scale
    pub update_scale : Text → Scale → World → World × Result ApiError (Unit {0})

  -- The two clients of `AppsV1Interface`, by namespace.
  pub record AppsClient : Type 0 where
    pub deployments : Text → ScaleClient
    pub stateful_sets : Text → ScaleClient

  abbrev pub blame :
      Operation → World × Result ApiError (Unit {0}) → World × Result ScaleFailure (Unit {0})
  blame operation (w, ok u) = (w, ok u)
  blame operation (w, err e) = (w, err (record { operation = operation; cause = e }))

  -- The closure after `GetScale`.
  unfoldable pub set_replicas :
      ScaleClient
      → Text
      → ℤ
      → World × Result ApiError Scale
      → World × Result ScaleFailure (Unit {0})
  set_replicas workloads name replicas (w, err e) = (w, err (record { operation = get; cause = e }))
  set_replicas workloads name replicas (w, ok s) =
      blame update (workloads.update_scale name (record s { replicas = replicas }) w)

  -- The closure that is retried.
  unfoldable pub attempt : ScaleClient → Text → ℤ → World → World × Result ScaleFailure (Unit {0})
  unfolding set_replicas
  attempt workloads name replicas w =
      set_replicas workloads name replicas (workloads.get_scale name w)

  abbrev pub scale_result :
      World × Result ScaleFailure (Unit {0}) → World × Result ScaleError (Unit {0})
  scale_result (w, ok u) = (w, ok u)
  scale_result (w, err f) = (w, err (failed f))

  -- The `switch` over the kind.
  unfoldable pub workloads_of : AppsClient → Target → Option ScaleClient
  workloads_of client target =
      if text_eq target.kind (codes "deployment")
      then some (client.deployments target.namespace)
      else if text_eq target.kind (codes "statefulset")
      then some (client.stateful_sets target.namespace)
      else none

  module _ (retries : RetryOnConflict World ScaleFailure is_conflict) where
    unfoldable pub scale_workload :
        Option ScaleClient → Text → ℤ → World → World × Result ScaleError (Unit {0})
    scale_workload none name replicas w = (w, err unsupported_kind)
    scale_workload (some workloads) name replicas w =
        scale_result (retries.retry (attempt workloads name replicas) w)

    -- `Scale`; the client may be nil.
    unfoldable pub scale :
        Option AppsClient → Target → ℤ → World → World × Result ScaleError (Unit {0})
    unfolding scale_workload workloads_of
    scale none target replicas w = (w, err no_client)
    scale (some client) target replicas w =
        if is_empty target.namespace || is_empty target.name
        then (w, err no_target)
        else if is_negative replicas
        then (w, err negative_replicas)
        else scale_workload (workloads_of client target) target.name replicas w
