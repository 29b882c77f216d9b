-- ===== src/Controller/Choice.antt =====
-- `resourcesToProcess`, `metricsTargetNamespace` and `forecastNotReadyReason` of
-- internal/controller/neuralautoscaler_controller.go. The order in which `sort.Slice` puts names is a
-- parameter, of which nothing is assumed.
use neural_autoscaler.Base.{
  ℕ, String, ◌==◌, Option, none, some, List, [], ◌∷◌, length, ltb, if◌then◌else◌,
}
use neural_autoscaler.Base.Dict.{Dict, lookup}
use neural_autoscaler.Api.Types.{
  ResourceMetric, MetricsServerSourceSpec, PrometheusSourceSpec, MetricsSourceSpec, ForecastSpec,
}
use neural_autoscaler.Metrics.History.{Series, min_forecast_samples}

-- The keys of a map, in the order in which the loop meets them.
abbrev pub keys {ℓ} : {V : Type ℓ} → Dict V → List String
keys [] = []
keys ((k, v) ∷ m) = k ∷ keys m

abbrev prometheus_resources : Option PrometheusSourceSpec → List ResourceMetric
prometheus_resources none = []
prometheus_resources (some spec) = spec.resources

abbrev listed_or : List ResourceMetric → List ResourceMetric → List ResourceMetric
listed_or [] fallback = fallback
listed_or (r ∷ resources) fallback = r ∷ resources

abbrev server_resources_or :
    Option MetricsServerSourceSpec → List ResourceMetric → List ResourceMetric
server_resources_or none fallback = fallback
server_resources_or (some spec) fallback = spec.resources

unfoldable pub resources_to_process :
    {V : Type 0}
    → (List ResourceMetric → List ResourceMetric)
    → MetricsSourceSpec
    → Dict V
    → List ResourceMetric
resources_to_process sort spec by_resource =
    server_resources_or spec.metrics_server
      (listed_or (prometheus_resources spec.prometheus) (sort (keys by_resource)))

abbrev server_namespace : Option MetricsServerSourceSpec → String
server_namespace none = ""
server_namespace (some spec) = spec.namespace

abbrev prometheus_namespace : Option PrometheusSourceSpec → String
prometheus_namespace none = ""
prometheus_namespace (some spec) = spec.namespace

unfoldable pub metrics_target_namespace : MetricsSourceSpec → String → String
metrics_target_namespace spec namespace =
    if server_namespace spec.metrics_server == ""
    then (if prometheus_namespace spec.prometheus == ""
        then namespace
        else prometheus_namespace spec.prometheus)
    else server_namespace spec.metrics_server

pub data NotReady : Type 0 where
  forecast_not_configured : NotReady
  forecaster_not_loaded : NotReady
  insufficient_history : ℕ → NotReady
  forecast_failed : String → NotReady
  no_forecasts : NotReady

abbrev pub longer : {F T : Type 0} → ℕ → Option (Series F T) → ℕ
longer most none = most
longer most (some series) = if ltb most (length series.values) then length series.values else most

-- The loop over the resources.
unfoldable most_samples : {F T : Type 0} → Dict (Series F T) → ℕ → List ResourceMetric → ℕ
most_samples history most [] = most
most_samples history most (r ∷ resources) =
    most_samples history (longer most (lookup r history)) resources

-- The loop over the errors returns at the first one that it meets.
abbrev failed_or_none : {E : Type 0} → Dict E → NotReady
failed_or_none [] = no_forecasts
failed_or_none ((r, e) ∷ errors) = forecast_failed r

unfoldable pub forecast_not_ready_reason :
    {A F T E : Type 0}
    → Option ForecastSpec
    → Option A
    → List ResourceMetric
    → Dict (Series F T)
    → Dict E
    → NotReady
unfolding most_samples
forecast_not_ready_reason none forecaster resources history errors = forecast_not_configured
forecast_not_ready_reason (some spec) none resources history errors = forecaster_not_loaded
forecast_not_ready_reason (some spec) (some forecaster) resources history errors =
    let most = most_samples history 0 resources in
    if ltb most min_forecast_samples then insufficient_history most else failed_or_none errors
