-- ===== src/Metrics/Factory.antt =====
-- `Factory.NewFetcher` of internal/metrics/factory.go: a fetcher for a metrics source. `W` is the
-- cluster, which a fetcher reads when it fetches; that a client is `nil` does not depend on it.
pub mod Timed
use neural_autoscaler.Base.{String, Bool, ◌==◌, Option, none, some, if◌then◌else◌, List}
use neural_autoscaler.Base.Int.{ℤ}
use neural_autoscaler.Base.Float.{Float64}
use neural_autoscaler.Base.Result.{Result, ok, err, ◌>>=◌, ◌>>◌, wrap_err}
use neural_autoscaler.Api.Types.{
  MetricsSourceSpec, MetricsServerSourceSpec, PrometheusSourceSpec, metrics_source_metrics_server,
  metrics_source_prometheus,
}
use neural_autoscaler.Api.Quantity.{Quantity}
use neural_autoscaler.Api.Source.{SourceError, validate_metrics_source}
use neural_autoscaler.Metrics.Server.{PodMetrics, FetchResult, FetchError, fetch}
use neural_autoscaler.Metrics.Prometheus.Query.{Texts}
use neural_autoscaler.Metrics.Prometheus.Fetch.{
  Kube, PrometheusApi, Access, PrometheusError, prometheus_fetch,
}

-- The fields of `Factory` but the history, and the library functions that fetchers call.
pub record Clients (F T Q W L S P E : Type 0) : Type 0 where
  pub kube : Option (W → Kube L S P E)
  pub metrics_client : Option (W → String → Result E (List (PodMetrics Q)))
  pub now : W → T
  pub api : W → PrometheusApi F T E
  pub texts : Texts
  pub parse_duration : String → Option ℤ
  pub add_time : T → ℤ → T

pub data FactoryError (E : Type 0) : Type 0 where
  invalid_spec : SourceError → FactoryError E
  clients_required : FactoryError E
  client_required_for_target : FactoryError E
  client_required_for_auth : FactoryError E
  unsupported_source : String → FactoryError E
  server_failed : FetchError E → FactoryError E
  prometheus_failed : PrometheusError E → FactoryError E
  other_error : E → FactoryError E

abbrev pub at {ℓ} : {W : Type 0} {A : Type ℓ} → W → Option (W → A) → Option A
at w none = none
at w (some read) = some (read w)

module _ {F T Q W L S P E : Type 0} ⦃f : Float64 F⦄ ⦃q : Quantity Q⦄
    (clients : Clients F T Q W L S P E) where
  abbrev pub Fetcher : Type 0
  Fetcher = W → Result (FactoryError E) (FetchResult F T)

  abbrev pub access_at : W → Access F T L S P E
  access_at w = record {
    texts = clients.texts;
    parse_duration = clients.parse_duration;
    add_time = clients.add_time;
    now = clients.now w;
    kube = at w clients.kube;
    api = clients.api w;
  }

  -- A `nil` block does not pass the validation.
  abbrev pub new_server_fetcher :
      Option MetricsServerSourceSpec
      → String
      → Option (W → Kube L S P E)
      → Option (W → String → Result E (List (PodMetrics Q)))
      → Result (FactoryError E) Fetcher
  new_server_fetcher (some spec) namespace (some kube) (some metrics) = ok (λ w.
      wrap_err server_failed (fetch (kube w).workloads (metrics w) (clients.now w) spec namespace))
  new_server_fetcher spec namespace kube metrics = err clients_required

  abbrev pub is_set {ℓ} : {A : Type ℓ} → Option A → Bool
  is_set none = Bool.false
  is_set (some a) = Bool.true

  abbrev pub new_prometheus_fetcher : PrometheusSourceSpec → String → Fetcher
  new_prometheus_fetcher spec namespace w =
      wrap_err prometheus_failed (prometheus_fetch (access_at w) spec namespace)

  abbrev pub new_set_prometheus_fetcher :
      Option PrometheusSourceSpec → String → Result (FactoryError E) Fetcher
  new_set_prometheus_fetcher none namespace = err clients_required
  new_set_prometheus_fetcher (some spec) namespace =
      if is_set clients.kube
      then ok (new_prometheus_fetcher spec namespace)
      else (if is_set spec.target_ref
          then err client_required_for_target
          else (if is_set spec.auth
              then err client_required_for_auth
              else ok (new_prometheus_fetcher spec namespace)))

  unfoldable pub new_fetcher : MetricsSourceSpec → String → Result (FactoryError E) Fetcher
  new_fetcher spec namespace = do
    wrap_err invalid_spec (validate_metrics_source clients.parse_duration spec)
    if spec.source_type == metrics_source_metrics_server
        then new_server_fetcher spec.metrics_server namespace clients.kube clients.metrics_client
        else (if spec.source_type == metrics_source_prometheus
            then new_set_prometheus_fetcher spec.prometheus namespace
            else err (unsupported_source spec.source_type))
