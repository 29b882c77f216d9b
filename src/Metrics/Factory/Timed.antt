-- ===== src/Metrics/Factory/Timed.antt =====
-- The series of every fetcher of `NewFetcher` have as many times as values.
use neural_autoscaler.Base.{
  ◌≡◌, refl, inl, inr, String, Bool, ◌==◌, Option, none, some, List, [], ◌∷◌, ℕ, zero, suc, length,
  Bool-cases, All,
}
use neural_autoscaler.Base.Dict.{Dict, All-insert}
use neural_autoscaler.Base.Float.{Float64}
use neural_autoscaler.Base.Result.{
  Result, ok, wrap_err, Holds, Holds-bind, Holds-last, Holds-wrap_err, Holds-ok,
}
use neural_autoscaler.Api.Types.{
  ResourceMetric, MetricsSourceSpec, MetricsServerSourceSpec, PrometheusSourceSpec,
  CrossVersionObjectReference, metrics_source_metrics_server, metrics_source_prometheus,
}
use neural_autoscaler.Api.Quantity.{Quantity}
use neural_autoscaler.Api.Source.{validate_metrics_source}
use neural_autoscaler.Metrics.History.{Series}
use neural_autoscaler.Metrics.Server.{
  PodMetrics, FetchResult, samples_at, fetched, fetch, fetch_for, fetch_namespace, no_target,
  metrics_list_failed, add_items, zero_totals,
}
use neural_autoscaler.Metrics.Prometheus.Query.{
  normalize_prometheus_url, build_prometheus_query, pod_matcher,
}
use neural_autoscaler.Metrics.Pods.{WorkloadClient, resolve_pod_names}
use neural_autoscaler.Metrics.Prometheus.Aligned.{
  IsAligned, IsAlignedEntry, AreAligned, prometheus_value_to_series-IsAligned,
}
use neural_autoscaler.Metrics.Prometheus.Merge.{prometheus_value_to_series}
use neural_autoscaler.Metrics.Prometheus.Fetch.{
  Kube, Access, Window, query, fetch_series, with_values, not_empty, fetch_resource,
  fetch_resources, fetch_by_resources, bad_query, bad_value, for_resource, no_target_pods, ask,
  build_client, resolve_bearer_token, resolve_query_window, prometheus_fetch_namespace,
  fetch_legacy_query, fetch_target, prometheus_fetch,
}
use neural_autoscaler.Metrics.Factory.{
  Clients, new_fetcher, new_server_fetcher, new_set_prometheus_fetcher, new_prometheus_fetcher,
  is_set, Fetcher, server_failed, prometheus_failed, access_at, invalid_spec,
}

samples_at-IsAligned :
    {F T : Type 0} (now : T) (totals : Dict F) → All IsAlignedEntry (samples_at now totals)
unfolding samples_at
samples_at-IsAligned now [] = tt
samples_at-IsAligned now ((metric, total) ∷ totals) = (refl, samples_at-IsAligned now totals)

module _ (F E : Type 0) {T : Type 0} where
  fetched-AreAligned :
      (now : T) (names : List String) (sums : Dict F × ℕ)
      → Holds AreAligned (fetched {F = F} {E = E} now names sums)
  fetched-AreAligned now names (totals, zero) = tt
  fetched-AreAligned now names (totals, suc matched) = samples_at-IsAligned now totals

module _ (F : Type 0) {Q E T : Type 0} ⦃f : Float64 F⦄ ⦃q : Quantity Q⦄ where
  fetch_for-AreAligned :
      (now : T) (listed : Result E (List (PodMetrics Q))) (resources : List ResourceMetric)
      (names : List String)
      → Holds (AreAligned {F = F}) (fetch_for now listed resources names)
  fetch_for-AreAligned now listed resources [] = tt
  fetch_for-AreAligned now listed resources (name ∷ names) =
      Holds-last AreAligned (wrap_err metrics_list_failed listed) _ (λ items.
        Holds-last AreAligned
          (add_items (name ∷ names) resources items (zero_totals resources [], 0)) _
          (fetched-AreAligned F E now (name ∷ names)))

module _ (F : Type 0) {Q L S P E T : Type 0} ⦃f : Float64 F⦄ ⦃q : Quantity Q⦄ where
  fetch-AreAligned :
      (client : WorkloadClient L S P E) (list_metrics : String → Result E (List (PodMetrics Q)))
      (now : T) (spec : MetricsServerSourceSpec) (namespace : String)
      → Holds (AreAligned {F = F}) (fetch client list_metrics now spec namespace)
  unfolding fetch
  fetch-AreAligned client list_metrics now spec namespace =
      let names = resolve_pod_names client (fetch_namespace spec namespace) spec.target_ref in
      Holds-last AreAligned (wrap_err no_target names) _ (λ names.
        fetch_for-AreAligned F now (list_metrics (fetch_namespace spec namespace)) spec.resources
          names)

module _ {F T L S P E : Type 0} ⦃f : Float64 F⦄ (access : Access F T L S P E)
    (spec : PrometheusSourceSpec) where
  query-IsAligned :
      (namespace : String) (window : Window T) (promql : String)
      → Holds IsAligned (query access spec namespace window promql)
  unfolding query
  query-IsAligned namespace window promql =
      Holds-last (IsAligned {F = F} {T = T})
        (wrap_err bad_query (normalize_prometheus_url spec.url)) _
        (λ url.
          Holds-last (IsAligned {F = F} {T = T})
            (resolve_bearer_token access spec namespace spec.auth) _
            (λ token.
              Holds-last (IsAligned {F = F} {T = T})
                (build_client access spec url (access.api.new_client url)) _
                (λ client.
                  Holds-last (IsAligned {F = F} {T = T})
                    (ask access spec window client token promql) _
                    (λ value.
                      Holds-wrap_err (IsAligned {F = F} {T = T}) bad_value
                        (prometheus_value_to_series value window.query_type)
                        (prometheus_value_to_series-IsAligned value window.query_type)))))

  fetch_series-IsAligned :
      (namespace promql : String) → Holds IsAligned (fetch_series access spec namespace promql)
  unfolding fetch_series
  fetch_series-IsAligned namespace promql =
      Holds-last (IsAligned {F = F} {T = T}) (resolve_query_window access spec) _
        (λ window. query-IsAligned namespace window promql)

  with_values-IsAligned :
      (values : List F) (series : Series F T)
      → IsAligned series
      → Holds IsAligned (with_values access spec values series)
  with_values-IsAligned [] series h = tt
  with_values-IsAligned (v ∷ values) series h = h

  not_empty-IsAligned :
      (series : Series F T) → IsAligned series → Holds IsAligned (not_empty access spec series)
  not_empty-IsAligned series h = with_values-IsAligned series.values series h

  fetch_resource-IsAligned :
      (namespace : String) (resource : ResourceMetric) (pods : String × Bool)
      → Holds IsAligned (fetch_resource access spec namespace resource pods)
  fetch_resource-IsAligned namespace resource (matcher, exact) =
      let built = build_prometheus_query access.texts namespace resource matcher exact in
      Holds-last (IsAligned {F = F} {T = T}) (wrap_err bad_query built) _ (λ promql.
        Holds-wrap_err (IsAligned {F = F} {T = T}) (for_resource resource) _ (
          Holds-bind IsAligned IsAligned (fetch_series access spec namespace promql)
            (not_empty access spec) (fetch_series-IsAligned namespace promql) not_empty-IsAligned))

  fetch_resources-IsAligned :
      (namespace : String) (pods : String × Bool) (resources : List ResourceMetric)
      (out : Dict (Series F T))
      → All IsAlignedEntry out
      → Holds (All IsAlignedEntry) (fetch_resources access spec namespace pods resources out)
  unfolding fetch_resources
  fetch_resources-IsAligned namespace pods [] out h = h
  fetch_resources-IsAligned namespace pods (resource ∷ resources) out h =
      Holds-bind IsAligned (All IsAlignedEntry) (fetch_resource access spec namespace resource pods)
        _ (fetch_resource-IsAligned namespace resource pods)
        (λ series aligned.
          fetch_resources-IsAligned namespace pods resources _
            (All-insert IsAlignedEntry resource series out aligned h))

  fetch_target-AreAligned :
      (namespace : String) (ref : Option CrossVersionObjectReference) (kube : Option (Kube L S P E))
      → Holds AreAligned (fetch_target access spec namespace ref kube)
  unfolding fetch_legacy_query fetch_by_resources
  fetch_target-AreAligned namespace none kube =
      Holds-bind IsAligned AreAligned (fetch_series access spec namespace spec.query) _
        (fetch_series-IsAligned namespace spec.query)
        (λ series aligned.
          Holds-bind IsAligned AreAligned (not_empty access spec series) _
            (not_empty-IsAligned series aligned) (λ found same. (same, tt)))
  fetch_target-AreAligned namespace (some ref) none = tt
  fetch_target-AreAligned namespace (some ref) (some kube) =
      let listed = resolve_pod_names kube.workloads namespace ref in
      Holds-last AreAligned (wrap_err no_target_pods listed) _ (λ names.
        Holds-bind (All IsAlignedEntry) AreAligned
          (fetch_resources access spec namespace (pod_matcher names ref) spec.resources []) _
          (fetch_resources-IsAligned namespace (pod_matcher names ref) spec.resources [] tt)
          (λ found h. h))

  prometheus_fetch-AreAligned :
      (namespace : String) → Holds AreAligned (prometheus_fetch access spec namespace)
  unfolding prometheus_fetch
  prometheus_fetch-AreAligned namespace =
      fetch_target-AreAligned (prometheus_fetch_namespace spec namespace) spec.target_ref
        access.kube

module _ {F T Q W L S P E : Type 0} ⦃f : Float64 F⦄ ⦃q : Quantity Q⦄
    (clients : Clients F T Q W L S P E) where
  abbrev AllAligned : Fetcher clients → Type 0
  AllAligned fetcher = (w : W) → Holds AreAligned (fetcher w)

  new_server_fetcher-AllAligned :
      (spec : Option MetricsServerSourceSpec) (namespace : String)
      (kube : Option (W → Kube L S P E))
      (metrics : Option (W → String → Result E (List (PodMetrics Q))))
      → Holds AllAligned (new_server_fetcher clients spec namespace kube metrics)
  new_server_fetcher-AllAligned none namespace kube metrics = tt
  new_server_fetcher-AllAligned (some spec) namespace none metrics = tt
  new_server_fetcher-AllAligned (some spec) namespace (some kube) none = tt
  new_server_fetcher-AllAligned (some spec) namespace (some kube) (some metrics) = λ w.
      Holds-wrap_err AreAligned server_failed _
        (fetch-AreAligned F (kube w).workloads (metrics w) (clients.now w) spec namespace)

  new_prometheus_fetcher-AllAligned :
      (spec : PrometheusSourceSpec) (namespace : String)
      → AllAligned (new_prometheus_fetcher clients spec namespace)
  new_prometheus_fetcher-AllAligned spec namespace w =
      Holds-wrap_err AreAligned prometheus_failed _
        (prometheus_fetch-AreAligned (access_at clients w) spec namespace)

  new_set_prometheus_fetcher-AllAligned :
      (spec : Option PrometheusSourceSpec) (namespace : String)
      → Holds AllAligned (new_set_prometheus_fetcher clients spec namespace)
  new_set_prometheus_fetcher-AllAligned none namespace = tt
  new_set_prometheus_fetcher-AllAligned (some spec) namespace =
      let made = new_prometheus_fetcher-AllAligned spec namespace in
      elim (Bool-cases (is_set clients clients.kube)) [
        | inl e ↦ rw e made
        | inr e ↦ rw e (elim (Bool-cases (is_set clients spec.target_ref)) [
          | inl target ↦ rw target tt
          | inr target ↦ rw target (elim (Bool-cases (is_set clients spec.auth)) [
            | inl auth ↦ rw auth tt
            | inr auth ↦ rw auth made
          ])
        ])
      ]

  new_fetcher-AllAligned :
      (spec : MetricsSourceSpec) (namespace : String)
      → Holds AllAligned (new_fetcher clients spec namespace)
  unfolding new_fetcher
  new_fetcher-AllAligned spec namespace =
      Holds-last AllAligned
        (wrap_err invalid_spec (validate_metrics_source clients.parse_duration spec)) _
        (λ valid. elim (Bool-cases (spec.source_type == metrics_source_metrics_server)) [
          | inl e ↦ rw e (
              new_server_fetcher-AllAligned spec.metrics_server namespace clients.kube
                clients.metrics_client)
          | inr e ↦ rw e (elim (Bool-cases (spec.source_type == metrics_source_prometheus)) [
            | inl p ↦ rw p (new_set_prometheus_fetcher-AllAligned spec.prometheus namespace)
            | inr p ↦ rw p tt
          ])
        ])

  -- Whatever the answers of Kubernetes, of the metrics API and of Prometheus, a fetcher that `NewFetcher`
  -- returns yields series with as many times as values.
  pub new_fetcher-AreAligned :
      (spec : MetricsSourceSpec) (namespace : String) (fetcher : Fetcher clients) (w : W)
      (result : FetchResult F T)
      → new_fetcher clients spec namespace ≡ ok fetcher
      → fetcher w ≡ ok result
      → All
          (λ (resource, series). length series.values ≡ length series.timestamps)
          result.by_resource
  new_fetcher-AreAligned spec namespace fetcher w result made fetched_e =
      Holds-ok AreAligned (fetcher w) result fetched_e (
        Holds-ok AllAligned (new_fetcher clients spec namespace) fetcher made
          (new_fetcher-AllAligned spec namespace) w)
