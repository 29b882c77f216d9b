-- ===== src/Controller/Process.antt =====
-- The loop of `Reconcile` over the resources. Its variables are one record; `none` is a panic.
pub mod Calls
pub mod Ready
use neural_autoscaler.Base.{
  ℕ, String, Bool, true, false, ◌==◌, Option, none, some, List, [], ◌∷◌, length, ltb, if◌then◌else◌,
}
use neural_autoscaler.Base.Int.{ℤ, pos, ltb_ℤ, wrap32}
use neural_autoscaler.Base.Dict.{Dict, lookup, insert}
use neural_autoscaler.Base.Float.{Float64}
use neural_autoscaler.Base.Result.{Result, ok, err}
use neural_autoscaler.Api.Types.{
  ResourceMetric, MetricsSourceType, metrics_source_metrics_server, ForecastSpec, ForecastStatus,
  NeuralAutoscaler,
}
use neural_autoscaler.Forecast.Types.{Response}
use neural_autoscaler.Metrics.History.{Series, HistoryStore, min_forecast_samples}
use neural_autoscaler.Metrics.Keys.{history_key}
use neural_autoscaler.Resize.Peak.{nought}
use neural_autoscaler.Controller.History.{◌>>=◌, accumulate_history, append_history_sample}
use neural_autoscaler.Controller.Predict.{Predictor, run_forecast, forecast_status}

pub record Progress (F T E : Type 0) : Type 0 where
  pub history : Option (HistoryStore F T)
  pub forecasts : Dict (Response F)
  pub forecast_errors : Dict E
  pub history_by_resource : Dict (Series F T)
  pub max_samples : ℤ
  pub last_forecast : Option ForecastStatus

module _ {F T : Type 0} ⦃f : Float64 F⦄ (no_time : T) where
  -- The history after the sample, and the series to forecast from.
  abbrev pub forecast_series :
      MetricsSourceType
      → Option (HistoryStore F T)
      → String
      → Series F T
      → Option (Option (HistoryStore F T) × Series F T)
  forecast_series source history key series =
      if source == metrics_source_metrics_server
      then accumulate_history nought no_time history key series
      else (do
        after ← append_history_sample nought no_time history key series
        some (after, series))

abbrev pub counted : {F : Type 0} → ℤ → List F → ℤ
counted most values =
    let count = wrap32 (pos (length values)) in if ltb_ℤ most count then count else most

module _ {F T E : Type 0} ⦃f : Float64 F⦄ where
  abbrev pub with_outcome : ResourceMetric → Result E (Response F) → Progress F T E → Progress F T E
  with_outcome r (err e) now = record now { forecast_errors = insert r e now.forecast_errors }
  with_outcome r (ok resp) now = record now {
    forecasts = insert r resp now.forecasts;
    last_forecast = some (forecast_status resp);
  }

  -- A forecast, if forecasts are wanted and there are samples enough.
  abbrev pub predicted :
      Option (Predictor F T E)
      → Option ForecastSpec
      → String
      → ResourceMetric
      → Series F T
      → Progress F T E
      → Progress F T E
  predicted none spec key r series now = now
  predicted (some p) none key r series now = now
  predicted (some p) (some spec) key r series now =
      if ltb (length series.values) min_forecast_samples
      then now
      else with_outcome r (run_forecast p spec key series) now

module _ {F T E : Type 0} ⦃f : Float64 F⦄ (no_time : T) where
  -- The body of the loop, after the guard.
  unfoldable pub process_series :
      Option (Predictor F T E)
      → NeuralAutoscaler T
      → ResourceMetric
      → Series F T
      → Progress F T E
      → Option (Progress F T E)
  process_series forecaster na r series now =
      let key = history_key na.namespace na.name r in
      do
        (after, found) ← forecast_series no_time na.spec.metrics.source_type now.history key series
        some (
            predicted forecaster na.spec.forecast key r found (record now {
              history = after;
              history_by_resource = insert r found now.history_by_resource;
              max_samples = counted now.max_samples found.values;
            }))

  abbrev pub process_found :
      Option (Predictor F T E)
      → NeuralAutoscaler T
      → ResourceMetric
      → Option (Series F T)
      → Progress F T E
      → Option (Progress F T E)
  process_found forecaster na r none now = some now
  process_found forecaster na r (some series) now = process_series forecaster na r series now

  unfoldable pub process :
      Option (Predictor F T E)
      → NeuralAutoscaler T
      → Dict (Series F T)
      → List ResourceMetric
      → Progress F T E
      → Option (Progress F T E)
  process forecaster na by_resource [] now = some now
  process forecaster na by_resource (r ∷ resources) now = do
    next ← process_found forecaster na r (lookup r by_resource) now
    process forecaster na by_resource resources next
