-- ===== src/Metrics/Prometheus/Fetch.antt =====
-- `prometheusFetcher` of internal/metrics/prometheus.go. The client of the API of Prometheus, the client
-- of Kubernetes and the clock are parameters, of which nothing is assumed.
use Prim.Native.String.{◌++◌ as ◌<>◌}
use text.Mathlib.Text.{starts_with}
use neural_autoscaler.Base.{
  ◌*◌, ◌^◌, String, Bool, ◌==◌, Option, none, some, List, [], ◌∷◌, if◌then◌else◌,
}
use neural_autoscaler.Base.Int.{ℤ, pos, ltb_ℤ, sub_int64}
use neural_autoscaler.Base.Dict.{Dict, lookup, insert}
use neural_autoscaler.Base.Float.{Float64}
use neural_autoscaler.Base.Text.{trim_space}
use neural_autoscaler.Base.Result.{Result, ok, err, ◌>>=◌, ◌>>◌, fail_if, wrap_err}
use neural_autoscaler.Api.Types.{
  CrossVersionObjectReference, ResourceMetric, PrometheusQueryType, prometheus_query_instant,
  prometheus_query_range, PrometheusSourceSpec, SecretKeySelector,
}
use neural_autoscaler.Api.Duration.{DurationError, set_duration}
use neural_autoscaler.Metrics.History.{Series}
use neural_autoscaler.Metrics.Server.{FetchResult}
use neural_autoscaler.Metrics.Pods.{WorkloadClient, PodsError, resolve_pod_names}
use neural_autoscaler.Metrics.Prometheus.Query.{
  Texts, QueryError, pod_matcher, build_prometheus_query, infer_resource_from_query,
  normalize_prometheus_url,
}
use neural_autoscaler.Metrics.Prometheus.Merge.{Value, ValueError, prometheus_value_to_series}

abbrev pub default_prometheus_lookback : ℤ
default_prometheus_lookback = pos (3600 * 10 ^ 9)

abbrev pub default_prometheus_step : ℤ
default_prometheus_step = pos (60 * 10 ^ 9)

-- What the controller asks of Kubernetes for a fetch.
pub record Kube (L S P E : Type 0) : Type 0 where
  pub workloads : WorkloadClient L S P E
  pub get_secret : (namespace name : String) → Result E (Dict String)

-- The type of a query, with its range.
pub record Window (T : Type 0) : Type 0 where
  pub query_type : PrometheusQueryType
  pub start : T
  pub end : T
  pub step : ℤ

-- The API of Prometheus, given a URL and the `Authorization` header, if there is one.
pub record PrometheusApi (F T E : Type 0) : Type 0 where
  pub new_client : (url : String) → Option E
  pub query : (url : String) → Option String → (promql : String) → T → Result E (Option (Value F T))
  pub query_range :
      (url : String)
      → Option String
      → (promql : String) → (start end : T) → (step : ℤ) → Result E (Option (Value F T))

pub data PrometheusError (E : Type 0) : Type 0 where
  no_target_pods : PodsError E → PrometheusError E
  bad_query : QueryError → PrometheusError E
  bad_value : ValueError → PrometheusError E
  bad_prometheus_duration : String → DurationError → PrometheusError E
  kubernetes_client_required : PrometheusError E
  get_auth_secret : String → E → PrometheusError E
  missing_auth_key : (name key : String) → PrometheusError E
  empty_auth_key : (name key : String) → PrometheusError E
  build_client_failed : E → PrometheusError E
  query_failed : (endpoint : String) → E → PrometheusError E
  empty_series_error : PrometheusError E
  for_resource : ResourceMetric → PrometheusError E → PrometheusError E
  nil_pointer : PrometheusError E

-- What a fetcher works with: the library functions, and the factory's clients and clock.
pub record Access (F T L S P E : Type 0) : Type 0 where
  pub texts : Texts
  pub parse_duration : String → Option ℤ
  pub add_time : T → ℤ → T
  pub now : T
  pub kube : Option (Kube L S P E)
  pub api : PrometheusApi F T E

unfoldable pub prometheus_fetch_namespace : PrometheusSourceSpec → String → String
prometheus_fetch_namespace spec cr_namespace =
    if spec.namespace == "" then cr_namespace else spec.namespace

abbrev pub duration_or : ℤ → Option ℤ → ℤ
duration_or fallback none = fallback
duration_or fallback (some d) = if ltb_ℤ (pos 0) d then d else fallback

module _ {F T L S P E : Type 0} (access : Access F T L S P E) (spec : PrometheusSourceSpec) where
  unfoldable pub resolve_prometheus_duration :
      String → Option String → ℤ → Result (PrometheusError E) ℤ
  resolve_prometheus_duration field raw fallback = do
    parsed ← wrap_err (bad_prometheus_duration field) (set_duration access.parse_duration raw)
    ok (duration_or fallback parsed)

  unfoldable pub resolve_step : PrometheusQueryType → Result (PrometheusError E) ℤ
  unfolding resolve_prometheus_duration
  resolve_step query_type =
      if query_type == prometheus_query_range
      then resolve_prometheus_duration "step" spec.step default_prometheus_step
      else ok (pos 0)

  abbrev pub resolve_start : PrometheusQueryType → Result (PrometheusError E) T
  resolve_start query_type =
      if query_type == prometheus_query_range
      then (do
        lookback ← resolve_prometheus_duration "lookback" spec.lookback default_prometheus_lookback
        ok (access.add_time access.now (sub_int64 (pos 0) lookback)))
      else ok access.now

  abbrev pub query_type_or_range : PrometheusQueryType → PrometheusQueryType
  query_type_or_range query_type = if query_type == "" then prometheus_query_range else query_type

  unfoldable pub resolve_query_window : Result (PrometheusError E) (Window T)
  unfolding resolve_step
  resolve_query_window = do
    step ← resolve_step (query_type_or_range spec.query_type)
    start ← resolve_start (query_type_or_range spec.query_type)
    ok (record {
      query_type = query_type_or_range spec.query_type;
      start = start;
      end = access.now;
      step = step;
    })

  abbrev pub bearer : String → String
  bearer value =
      if starts_with (access.texts.to_lower value) "bearer " then value else "Bearer " <> value

  abbrev pub token_of : SecretKeySelector → Option String → Result (PrometheusError E) String
  token_of auth none = err (missing_auth_key auth.name auth.key)
  token_of auth (some token) = do
    fail_if (trim_space token == "") (empty_auth_key auth.name auth.key)
    ok (bearer (trim_space token))

  abbrev secret_token :
      String → SecretKeySelector → Option (Kube L S P E) → Result (PrometheusError E) String
  secret_token namespace auth none = err kubernetes_client_required
  secret_token namespace auth (some kube) = do
    secret ← wrap_err (get_auth_secret auth.name) (kube.get_secret namespace auth.name)
    token_of auth (lookup auth.key secret)

  -- No header without authentication.
  unfoldable pub resolve_bearer_token :
      String → Option SecretKeySelector → Result (PrometheusError E) (Option String)
  unfolding trim_space
  resolve_bearer_token namespace none = ok none
  resolve_bearer_token namespace (some auth) = do
    token ← secret_token namespace auth access.kube
    ok (some token)

  abbrev pub build_client : String → Option E → Result (PrometheusError E) String
  build_client url none = ok url
  build_client url (some e) = err (build_client_failed e)

  abbrev pub ask :
      Window T
      → (url : String) → Option String
      → String
      → Result (PrometheusError E) (Option (Value F T))
  ask window url token promql =
      if window.query_type == prometheus_query_instant
      then wrap_err (query_failed "query") (access.api.query url token promql window.end)
      else wrap_err (query_failed "query_range")
          (access.api.query_range url token promql window.start window.end window.step)

module _ {F T L S P E : Type 0} ⦃f : Float64 F⦄ (access : Access F T L S P E)
    (spec : PrometheusSourceSpec) where
  unfoldable pub query : String → Window T → String → Result (PrometheusError E) (Series F T)
  unfolding resolve_bearer_token
  query namespace window promql = do
    url ← wrap_err bad_query (normalize_prometheus_url spec.url)
    token ← resolve_bearer_token access spec namespace spec.auth
    client ← build_client access spec url (access.api.new_client url)
    value ← ask access spec window client token promql
    wrap_err bad_value (prometheus_value_to_series value window.query_type)

  unfoldable pub fetch_series : String → String → Result (PrometheusError E) (Series F T)
  unfolding query
  fetch_series namespace promql = do
    window ← resolve_query_window access spec
    query namespace window promql

  -- `ErrEmptySeries` for a series without values.
  abbrev pub with_values : List F → Series F T → Result (PrometheusError E) (Series F T)
  with_values [] series = err empty_series_error
  with_values (v ∷ values) series = ok series

  abbrev pub not_empty : Series F T → Result (PrometheusError E) (Series F T)
  not_empty series = with_values series.values series

  abbrev pub fetch_resource :
      String → ResourceMetric → String × Bool → Result (PrometheusError E) (Series F T)
  fetch_resource namespace resource (matcher, exact) = do
    promql ←
        wrap_err bad_query (build_prometheus_query access.texts namespace resource matcher exact)
    wrap_err (for_resource resource) (do series ← fetch_series namespace promql; not_empty series)

  -- The loop over the resources.
  unfoldable pub fetch_resources :
      String
      → String × Bool
      → List ResourceMetric
      → Dict (Series F T)
      → Result (PrometheusError E) (Dict (Series F T))
  unfolding fetch_series
  fetch_resources namespace pods [] out = ok out
  fetch_resources namespace pods (resource ∷ resources) out = do
    series ← fetch_resource namespace resource pods
    fetch_resources namespace pods resources (insert resource series out)

  unfoldable pub fetch_by_resources :
      String
      → Kube L S P E
      → CrossVersionObjectReference
      → Result (PrometheusError E) (FetchResult F T)
  unfolding fetch_resources
  fetch_by_resources namespace kube ref = do
    names ← wrap_err no_target_pods (resolve_pod_names kube.workloads namespace ref)
    by_resource ← fetch_resources namespace (pod_matcher names ref) spec.resources []
    ok (record { by_resource = by_resource; pod_names = names })

  unfoldable pub fetch_legacy_query : String → Result (PrometheusError E) (FetchResult F T)
  unfolding fetch_series
  fetch_legacy_query namespace = do
    series ← fetch_series namespace spec.query
    found ← not_empty series
    ok (record {
      by_resource = (infer_resource_from_query access.texts spec.query, found) ∷ [];
      pod_names = [];
    })

  -- A client that is nil is called for a target alone: `nil_pointer` stands for the panic.
  abbrev pub fetch_target :
      String
      → Option CrossVersionObjectReference
      → Option (Kube L S P E)
      → Result (PrometheusError E) (FetchResult F T)
  fetch_target namespace none kube = fetch_legacy_query namespace
  fetch_target namespace (some ref) none = err nil_pointer
  fetch_target namespace (some ref) (some kube) = fetch_by_resources namespace kube ref

  unfoldable pub prometheus_fetch : String → Result (PrometheusError E) (FetchResult F T)
  prometheus_fetch cr_namespace =
      fetch_target (prometheus_fetch_namespace spec cr_namespace) spec.target_ref access.kube
