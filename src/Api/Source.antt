-- ===== src/Api/Source.antt =====
-- api/v1alpha1/metrics_source_validation.go: what a metrics source and the forecast settings must
-- satisfy. An error is a value with what its message says.
pub mod Metrics
pub mod Valid
use neural_autoscaler.Base.{
  String, Bool, true, false, ◌||◌, ◌==◌, Option, none, some, List, [], ◌∷◌, if◌then◌else◌,
}
use neural_autoscaler.Base.Int.{ℤ}
use neural_autoscaler.Base.Text.{trim_space}
use neural_autoscaler.Base.Result.{Result, ok, err, ◌>>=◌, ◌>>◌, fail_if, wrap_err}
use neural_autoscaler.Api.Types.{
  CrossVersionObjectReference, MetricsServerSourceSpec, SecretKeySelector, PrometheusSourceSpec,
  MetricsSourceSpec, ForecastSpec, ResourceMetric, resource_metric_cpu, resource_metric_memory,
  metrics_source_metrics_server, metrics_source_prometheus, prometheus_query_instant,
  prometheus_query_range,
}
use neural_autoscaler.Api.Duration.{DurationError, set_duration}

pub data SourceError : Type 0 where
  missing : String → SourceError
  unsupported : (field value : String) → SourceError
  duplicate_resource : (field value : String) → SourceError
  query_or_target : SourceError
  bad_duration : String → DurationError → SourceError

abbrev pub blank : String → Bool
blank s = trim_space s == ""

abbrev pub known_kind : String → Bool
known_kind kind =
    kind == "Deployment" || (kind == "StatefulSet" || (kind == "ReplicaSet" || kind == "Pod"))

-- The keys of `seen`.
abbrev pub seen_before : ResourceMetric → List ResourceMetric → Bool
seen_before r [] = false
seen_before r (x ∷ seen) = x == r || seen_before r seen

abbrev pub known_metric : ResourceMetric → Bool
known_metric r = r == resource_metric_cpu || r == resource_metric_memory

-- The loop over the resources, with those that it has seen.
unfoldable pub validate_metrics_from :
    List ResourceMetric → List ResourceMetric → String → Result SourceError (Unit {0})
validate_metrics_from seen [] field = ok tt
validate_metrics_from seen (r ∷ resources) field = do
  fail_if (if known_metric r then false else true) (unsupported field r)
  fail_if (seen_before r seen) (duplicate_resource field r)
  validate_metrics_from (r ∷ seen) resources field

unfoldable pub validate_resource_metrics :
    List ResourceMetric → String → Result SourceError (Unit {0})
unfolding validate_metrics_from
validate_resource_metrics resources field = validate_metrics_from [] resources field

abbrev pub is_empty : List ResourceMetric → Bool
is_empty [] = true
is_empty (r ∷ resources) = false

unfoldable pub validate_metrics_server_source :
    MetricsServerSourceSpec → Result SourceError (Unit {0})
unfolding validate_resource_metrics
validate_metrics_server_source spec = do
  fail_if (blank spec.target_ref.kind) (missing "metricsServer.targetRef.kind")
  fail_if (blank spec.target_ref.name) (missing "metricsServer.targetRef.name")
  fail_if (if known_kind spec.target_ref.kind then false else true)
      (unsupported "metricsServer.targetRef.kind" spec.target_ref.kind)
  fail_if (is_empty spec.resources) (missing "metricsServer.resources")
  validate_resource_metrics spec.resources "metricsServer.resources"

unfoldable pub validate_prometheus_target_ref :
    CrossVersionObjectReference → Result SourceError (Unit {0})
validate_prometheus_target_ref ref = do
  fail_if (blank ref.kind) (missing "prometheus.targetRef.kind")
  fail_if (blank ref.name) (missing "prometheus.targetRef.name")
  fail_if (if known_kind ref.kind then false else true)
      (unsupported "prometheus.targetRef.kind" ref.kind)

-- The branches on `spec.TargetRef`.
abbrev pub validate_query_or_target :
    Option CrossVersionObjectReference
    → List ResourceMetric
    → String
    → Result SourceError (Unit {0})
validate_query_or_target none resources query = fail_if (blank query) query_or_target
validate_query_or_target (some ref) resources query = do
  validate_prometheus_target_ref ref
  fail_if (is_empty resources) (missing "prometheus.resources")
  validate_resource_metrics resources "prometheus.resources"

abbrev pub known_query_type : String → Bool
known_query_type t = t == "" || (t == prometheus_query_instant || t == prometheus_query_range)

abbrev pub validate_auth : Option SecretKeySelector → Result SourceError (Unit {0})
validate_auth none = ok tt
validate_auth (some auth) = do
  fail_if (blank auth.name) (missing "prometheus.auth.name")
  fail_if (blank auth.key) (missing "prometheus.auth.key")

module _ (parse_duration : String → Option ℤ) where
  abbrev pub checked_duration :
      String → Result DurationError (Option ℤ) → Result SourceError (Unit {0})
  checked_duration field (ok d) = ok tt
  checked_duration field (err e) = err (bad_duration field e)

  unfoldable pub validate_optional_duration : String → Option String → Result SourceError (Unit {0})
  validate_optional_duration field interval =
      checked_duration field (set_duration parse_duration interval)

  unfoldable pub validate_prometheus_source : PrometheusSourceSpec → Result SourceError (Unit {0})
  unfolding validate_optional_duration validate_prometheus_target_ref validate_resource_metrics
  validate_prometheus_source spec = do
    fail_if (blank spec.url) (missing "prometheus.url")
    validate_query_or_target spec.target_ref spec.resources spec.query
    fail_if (if known_query_type spec.query_type then false else true)
        (unsupported "prometheus.queryType" spec.query_type)
    validate_auth spec.auth
    validate_optional_duration "prometheus.step" spec.step
    validate_optional_duration "prometheus.lookback" spec.lookback

  abbrev pub validate_set_server : Option MetricsServerSourceSpec → Result SourceError (Unit {0})
  validate_set_server none = err (missing "metricsServer")
  validate_set_server (some spec) = validate_metrics_server_source spec

  abbrev pub validate_set_prometheus : Option PrometheusSourceSpec → Result SourceError (Unit {0})
  validate_set_prometheus none = err (missing "prometheus")
  validate_set_prometheus (some spec) = validate_prometheus_source spec

  unfoldable pub validate_metrics_source : MetricsSourceSpec → Result SourceError (Unit {0})
  unfolding validate_metrics_server_source validate_prometheus_source
  validate_metrics_source spec =
      if spec.source_type == metrics_source_metrics_server
      then validate_set_server spec.metrics_server
      else (if spec.source_type == metrics_source_prometheus
          then validate_set_prometheus spec.prometheus
          else err (unsupported "type" spec.source_type))

  unfoldable pub validate_forecast : Option ForecastSpec → Result SourceError (Unit {0})
  unfolding validate_optional_duration
  validate_forecast none = ok tt
  validate_forecast (some spec) = validate_optional_duration "forecast.step" spec.step
