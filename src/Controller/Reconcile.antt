-- ===== src/Controller/Reconcile.antt =====
-- `Reconcile` of internal/controller/neuralautoscaler_controller.go. `none` is a panic.
pub mod Status
pub mod Calls
pub mod Visits
pub mod Ends
pub mod Safety
pub mod Requeue
use Prim.Native.String.{◌++◌ as ◌<>◌}
use neural_autoscaler.Base.{
  ℕ, String, Bool, true, false, Option, none, some, List, [], ◌∷◌, length, if◌then◌else◌,
}
use neural_autoscaler.Base.Int.{ℤ, pos}
use neural_autoscaler.Base.Dict.{Dict, insert}
use neural_autoscaler.Base.Decimal.{format_int}
use neural_autoscaler.Base.Float.{Float64}
use neural_autoscaler.Base.Result.{Result, ok, err}
use neural_autoscaler.Api.Types.{ResizeSpec, NeuralAutoscaler, ResourceMetric}
use neural_autoscaler.Api.Quantity.{Quantity}
use neural_autoscaler.Forecast.Types.{Response}
use neural_autoscaler.Metrics.History.{Series, HistoryStore, recent_peak_samples}
use neural_autoscaler.Metrics.Keys.{history_key}
use neural_autoscaler.Metrics.Server.{FetchResult}
use neural_autoscaler.Resize.Peak.{nought}
use neural_autoscaler.Resize.Apply.{ApplyError, apply}
use neural_autoscaler.Controller.Choice.{
  resources_to_process, metrics_target_namespace, forecast_not_ready_reason,
}
use neural_autoscaler.Controller.History.{◌>>=◌}
use neural_autoscaler.Controller.Process.{Progress, process}
use neural_autoscaler.Controller.Environment.{
  Factory, Reconciler, Gotten, gotten, gone, unreadable, Environment, ReconcileError,
  object_unreadable, invalid_source, fetch_failed, patch_failed, ResizeLog, nothing_logged,
  resize_skipped, resize_failed, Outcome, default_requeue_interval, new_default_scope, patch_object,
  with_status, set_metrics_ready_condition, with_history, evicted,
}
use neural_autoscaler.Controller.Reconcile.Status.{last_values_from, fetched_status, start}

module _ {F T : Type 0} ⦃f : Float64 F⦄ (no_time : T) where
  -- The loop over `historyByResource` before `Apply`.
  unfoldable pub recent_from :
      Option (HistoryStore F T)
      → (namespace name : String) → Dict (Series F T)
      → Dict (List F)
      → Dict (List F)
  recent_from history namespace name [] recent = recent
  recent_from history namespace name ((r, series) ∷ found) recent =
      let key = history_key namespace name r in
      recent_from history namespace name found
        (insert r (recent_peak_samples nought no_time history key series) recent)

abbrev log_of : {E : Type 0} → Option (ApplyError E) → ResizeLog E
log_of none = nothing_logged
log_of (some e) = resize_failed e

abbrev pub first_error :
    {E : Type 0} → Option (ReconcileError E) → Option E → Option (ReconcileError E)
first_error (some e) patch_error = some e
first_error none none = none
first_error none (some e) = some (patch_failed e)

-- The variables at a `return`, before the deferred patch.
pub record Body (F T W E : Type 0) : Type 0 where
  pub object : NeuralAutoscaler T
  pub outcome : Outcome F T W E

module _ {F T Q W H E : Type 0} ⦃f : Float64 F⦄ ⦃q : Quantity Q⦄
    (env : Environment F T Q W H E) where
  -- The resizing of `Reconcile`, given the forecasts.
  unfoldable pub resize_ready :
      W
      → NeuralAutoscaler T
      → Reconciler F T W E
      → List ResourceMetric
      → List String
      → Progress F T E
      → Option ResizeSpec
      → Dict (Response F)
      → W × ResizeLog E
  resize_ready w na r resources names done none forecasts = (w, nothing_logged)
  resize_ready w na r resources names done (some spec) [] = (
    w,
    resize_skipped (
        forecast_not_ready_reason na.spec.forecast r.forecaster resources done.history_by_resource
          done.forecast_errors),
  )
  resize_ready w na r resources names done (some spec) (entry ∷ forecasts) =
      let recent =
        recent_from env.no_time done.history na.namespace na.name done.history_by_resource [] in
      let namespace = metrics_target_namespace na.spec.metrics na.namespace in
      let (after, e) = apply env.pods w (some spec) (entry ∷ forecasts) recent names namespace in
      (after, log_of e)

  abbrev pub stop : W → Reconciler F T W E → ℤ → Option (ReconcileError E) → Outcome F T W E
  stop w r requeue e = record {
    world = w;
    reconciler = r;
    requeue_after = requeue;
    error = e;
    logged = nothing_logged;
  }

  abbrev fetch_message : FetchResult F T → String
  fetch_message result =
      ("fetched metrics for " <> format_int (pos (length result.by_resource))) <> " resource(s)"

  -- From the end of the loop on.
  abbrev pub processed :
      W
      → NeuralAutoscaler T
      → Reconciler F T W E
      → Factory F T W E
      → FetchResult F T
      → List ResourceMetric
      → Progress F T E
      → Body F T W E
  processed w na r factory result resources done =
      let counted = with_status env na (record na.status {
        last_metrics_count = done.max_samples;
        last_forecast = done.last_forecast;
      }) in
      let (after, logged) =
        resize_ready w na r resources result.pod_names done na.spec.resize done.forecasts in
      record {
        object =
            set_metrics_ready_condition env w counted true "MetricsFetched" (fetch_message result);
        outcome = record {
          world = after;
          reconciler = with_history r factory done.history;
          requeue_after = default_requeue_interval;
          error = none;
          logged = logged;
        };
      }

  unfoldable pub reconcile_fetched :
      W
      → NeuralAutoscaler T
      → Reconciler F T W E
      → Factory F T W E
      → Result E (FetchResult F T)
      → Option (Body F T W E)
  reconcile_fetched w na r factory (err e) = some (record {
    object = set_metrics_ready_condition env w na false "MetricsFetchFailed" (env.error_text e);
    outcome = stop w r (pos 0) (some (fetch_failed e));
  })
  reconcile_fetched w na r factory (ok result) =
      let now = with_status env na (fetched_status env w result na.status) in
      let resources = resources_to_process env.sort_resources na.spec.metrics result.by_resource in
      do
        done ←
            process env.no_time r.forecaster now result.by_resource resources
              (start factory.history now.status)
        some (processed w now r factory result resources done)

  unfoldable pub reconcile_source :
      W
      → NeuralAutoscaler T
      → Reconciler F T W E
      → Factory F T W E
      → Result E (W → Result E (FetchResult F T))
      → Option (Body F T W E)
  unfolding reconcile_fetched
  reconcile_source w na r factory (err e) = some (record {
    object = set_metrics_ready_condition env w na false "InvalidMetricsSource" (env.error_text e);
    outcome = stop w r (pos 0) (some (invalid_source e));
  })
  reconcile_source w na r factory (ok fetch) = reconcile_fetched w na r factory (fetch w)

  unfoldable pub reconcile_scoped :
      W → NeuralAutoscaler T → Reconciler F T W E → Option (Factory F T W E) → Option (Body F T W E)
  unfolding reconcile_source
  reconcile_scoped w na r none = some (record {
    object =
        set_metrics_ready_condition env w na false "MetricsFactoryMissing"
          "metrics factory is not configured";
    outcome = stop w r default_requeue_interval none;
  })
  reconcile_scoped w na r (some factory) =
      reconcile_source w na r factory (factory.new_fetcher na.spec.metrics na.namespace)

  -- The deferred patch.
  unfoldable pub patched : H → Body F T W E → Outcome F T W E
  patched helper body =
      let (after, e) = patch_object env helper body.outcome.world body.object in
      record body.outcome { world = after; error = first_error body.outcome.error e }

  abbrev pub reconcile_live :
      W
      → NeuralAutoscaler T
      → Reconciler F T W E
      → Result (ReconcileError E) H
      → Option (Outcome F T W E)
  reconcile_live w na r (err e) = some (stop w r (pos 0) (some e))
  reconcile_live w na r (ok helper) = do
    body ← reconcile_scoped w na r r.factory
    some (patched helper body)

  abbrev pub reconcile_gotten : W → Reconciler F T W E → Gotten T E → Option (Outcome F T W E)
  reconcile_gotten w r gone = some (stop w r (pos 0) none)
  reconcile_gotten w r (unreadable e) = some (stop w r (pos 0) (some (object_unreadable e)))
  reconcile_gotten w r (gotten na) =
      if na.terminating
      then some (stop w (evicted r r.factory na.namespace na.name) (pos 0) none)
      else reconcile_live w na r (new_default_scope env na)

  unfoldable pub reconcile :
      Reconciler F T W E → W → (namespace name : String) → Option (Outcome F T W E)
  reconcile r w namespace name = reconcile_gotten w r (env.get w namespace name)
