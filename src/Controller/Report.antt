-- ===== src/Controller/Report.antt =====
-- What `runForecast` of internal/controller/neuralautoscaler_controller.go says in the log of a forecast.
use Prim.Native.String.{◌++◌ as ◌<>◌}
use neural_autoscaler.Base.{ℕ, String, Option, none, some, List, [], ◌∷◌, ◌==◌, if◌then◌else◌}
use neural_autoscaler.Base.Int.{ℤ}
use neural_autoscaler.Base.Float.{Float64}
use neural_autoscaler.Api.Types.{
  MetricsSourceSpec, MetricsServerSourceSpec, PrometheusSourceSpec, CrossVersionObjectReference,
  ResourceMetric, resource_metric_cpu, resource_metric_memory,
}
use neural_autoscaler.Forecast.Types.{Response, QuantileSeries}
use neural_autoscaler.Forecast.Format.{
  ValueUnit, unit_millicores, unit_bytes, unit_generic, format_points, format_quantiles,
}

abbrev value_unit_for_resource : ResourceMetric → ValueUnit
value_unit_for_resource resource =
    if resource == resource_metric_cpu
    then unit_millicores
    else if resource == resource_metric_memory
    then unit_bytes
    else unit_generic

abbrev metric_name : ResourceMetric → String
metric_name resource =
    if resource == resource_metric_cpu
    then "CPU"
    else if resource == resource_metric_memory
    then "memory"
    else resource

abbrev of_object : String → CrossVersionObjectReference → String
of_object metric ref = metric <> (" for " <> (ref.kind <> (" " <> ref.name)))

abbrev prometheus_target : String → Option CrossVersionObjectReference → String
prometheus_target metric (some ref) = of_object metric ref <> " from Prometheus"
prometheus_target metric none = metric <> " from Prometheus query"

abbrev metric_target :
    String → Option PrometheusSourceSpec → Option MetricsServerSourceSpec → String
metric_target metric (some prometheus) server = prometheus_target metric prometheus.target_ref
metric_target metric none none = "metrics source"
metric_target metric none (some server) = of_object metric server.target_ref

abbrev pub describe_metric_target : MetricsSourceSpec → ResourceMetric → String
describe_metric_target spec resource =
    metric_target (metric_name resource) spec.prometheus spec.metrics_server

module _ {F : Type 0} ⦃f : Float64 F⦄ (format_fixed : ℕ → F → String)
    (duration_text : ℤ → String) where
  abbrev quantiles_text : ℤ → ValueUnit → List (QuantileSeries F) → List (String × String)
  quantiles_text step kind [] = []
  quantiles_text step kind (q ∷ quantiles) =
      ("quantiles", format_quantiles format_fixed duration_text step (q ∷ quantiles) kind) ∷ []

  -- The arguments "forecast" and "quantiles" of the message.
  abbrev pub forecast_texts : ℤ → ResourceMetric → Response F → List (String × String)
  forecast_texts step resource resp =
      let kind = value_unit_for_resource resource in
      ("forecast", format_points format_fixed duration_text step resp.point kind)
      ∷ quantiles_text step kind resp.quantiles
