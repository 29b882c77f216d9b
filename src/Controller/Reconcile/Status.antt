-- ===== src/Controller/Reconcile/Status.antt =====
-- What `Reconcile` writes into the status when a fetch succeeds, and the state its loop starts with.
use neural_autoscaler.Base.{String, Option, some, List, [], ◌∷◌, last_or}
use neural_autoscaler.Base.Int.{pos}
use neural_autoscaler.Base.Dict.{Dict, insert}
use neural_autoscaler.Api.Types.{NeuralAutoscalerStatus}
use neural_autoscaler.Metrics.History.{Series, HistoryStore}
use neural_autoscaler.Metrics.Server.{FetchResult}
use neural_autoscaler.Controller.Process.{Progress}
use neural_autoscaler.Controller.Environment.{Environment}

abbrev set_last : {F : Type 0} → (F → String) → String → List F → Dict String → Dict String
set_last format_float r [] last = last
set_last format_float r (v ∷ values) last = insert r (format_float (last_or values v)) last

-- The loop over `ByResource`.
unfoldable pub last_values_from :
    {F T : Type 0} → (F → String) → Dict (Series F T) → Dict String → Dict String
last_values_from format_float [] last = last
last_values_from format_float ((r, series) ∷ by_resource) last =
    last_values_from format_float by_resource (set_last format_float r series.values last)

unfoldable pub fetched_status :
    {F T Q W H E : Type 0}
    → Environment F T Q W H E
    → W
    → FetchResult F T
    → NeuralAutoscalerStatus T
    → NeuralAutoscalerStatus T
fetched_status env w result status = record status {
  last_fetch_time = some (env.fetch_time w);
  last_resource_values = last_values_from env.format_float result.by_resource [];
}

abbrev pub start :
    {F T E : Type 0} → Option (HistoryStore F T) → NeuralAutoscalerStatus T → Progress F T E
start history status = record {
  history = history;
  forecasts = [];
  forecast_errors = [];
  history_by_resource = [];
  max_samples = pos 0;
  last_forecast = status.last_forecast;
}
