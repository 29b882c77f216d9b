-- ===== src/Controller/Environment.antt =====
-- What `Reconcile` calls outside of its file, and what it holds. The cluster, a value of type `W`, is
-- read and written by functions of which nothing is assumed, and so are the library functions for
-- patches, conditions, sorting and formatting.
use neural_autoscaler.Base.{◌*◌, ◌^◌, String, Bool, Option, none, some, List}
use neural_autoscaler.Base.Int.{ℤ, pos}
use neural_autoscaler.Base.Result.{Result, wrap_err}
use neural_autoscaler.Api.Types.{
  ResourceMetric, MetricsSourceSpec, Condition, NeuralAutoscalerStatus, NeuralAutoscaler,
}
use neural_autoscaler.Metrics.History.{HistoryStore}
use neural_autoscaler.Metrics.Server.{FetchResult}
use neural_autoscaler.Resize.Apply.{Client, ApplyError}
use neural_autoscaler.Controller.Choice.{NotReady}
use neural_autoscaler.Controller.History.{evict_history}
use neural_autoscaler.Controller.Predict.{Predictor}

-- `metrics.Factory`: `NewFetcher`, and the history.
pub record Factory (F T W E : Type 0) : Type 0 where
  pub new_fetcher : MetricsSourceSpec → String → Result E (W → Result E (FetchResult F T))
  pub history : Option (HistoryStore F T)

pub record Reconciler (F T W E : Type 0) : Type 0 where
  pub factory : Option (Factory F T W E)
  pub forecaster : Option (Predictor F T E)

-- The answer to a `Get` of the custom resource.
pub data Gotten (T E : Type 0) : Type 0 where
  gotten : NeuralAutoscaler T → Gotten T E
  gone : Gotten T E
  unreadable : E → Gotten T E

-- `H` is the patch helper of an object.
pub record Environment (F T Q W H E : Type 0) : Type 0 where
  pub get : W → (namespace name : String) → Gotten T E
  pub new_helper : NeuralAutoscaler T → Result E H
  pub patch : H → W → NeuralAutoscaler T → W × Option E
  pub pods : Client Q W E
  pub fetch_time : W → T
  pub condition_time : W → T
  pub set_condition : List (Condition T) → Condition T → List (Condition T)
  pub sort_resources : List ResourceMetric → List ResourceMetric
  pub format_float : F → String
  pub error_text : E → String
  pub no_time : T

pub data ReconcileError (E : Type 0) : Type 0 where
  object_unreadable : E → ReconcileError E
  no_patch_helper : E → ReconcileError E
  invalid_source : E → ReconcileError E
  fetch_failed : E → ReconcileError E
  patch_failed : E → ReconcileError E

-- What is logged of the resizing, if anything.
pub data ResizeLog (E : Type 0) : Type 0 where
  nothing_logged : ResizeLog E
  resize_skipped : NotReady → ResizeLog E
  resize_failed : ApplyError E → ResizeLog E

-- What a reconciliation ends with; `requeue_after` is in nanoseconds, and 0 asks for no other.
pub record Outcome (F T W E : Type 0) : Type 0 where
  pub world : W
  pub reconciler : Reconciler F T W E
  pub requeue_after : ℤ
  pub error : Option (ReconcileError E)
  pub logged : ResizeLog E

abbrev pub default_requeue_interval : ℤ
default_requeue_interval = pos (20 * 10 ^ 9)

module _ {F T Q W H E : Type 0} (env : Environment F T Q W H E) where
  unfoldable pub new_default_scope : NeuralAutoscaler T → Result (ReconcileError E) H
  new_default_scope na = wrap_err no_patch_helper (env.new_helper na)

  unfoldable pub patch_object : H → W → NeuralAutoscaler T → W × Option E
  patch_object helper w na = env.patch helper w na

  abbrev pub with_status : NeuralAutoscaler T → NeuralAutoscalerStatus T → NeuralAutoscaler T
  with_status na status = record na { status = status }

  unfoldable pub set_metrics_ready_condition :
      W → NeuralAutoscaler T → Bool → (reason message : String) → NeuralAutoscaler T
  set_metrics_ready_condition w na status reason message = with_status na (record na.status {
    conditions = env.set_condition na.status.conditions (record {
      condition_type = "MetricsReady";
      status = status;
      reason = reason;
      message = message;
      last_transition_time = env.condition_time w;
      observed_generation = na.generation;
    });
  })

module _ {F T W E : Type 0} where
  abbrev pub with_history :
      Reconciler F T W E → Factory F T W E → Option (HistoryStore F T) → Reconciler F T W E
  with_history r factory history = record r {
    factory = some (record factory { history = history });
  }

  -- `evictHistory`, which does nothing without a factory.
  unfoldable pub evicted :
      Reconciler F T W E → Option (Factory F T W E) → (namespace name : String) → Reconciler F T W E
  evicted r none namespace name = r
  evicted r (some factory) namespace name =
      with_history r factory (evict_history factory.history namespace name)
