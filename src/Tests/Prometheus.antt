-- ===== src/Tests/Prometheus.antt =====
-- The fetchers of Clients.
use neural_autoscaler.Base.{
  inl, ℕ, ◌≡◌, refl, ◌↔◌, String, none, some, [], ◌∷◌, length, get_elem?, All,
}
use neural_autoscaler.Base.Int.{pos, add_int64}
use neural_autoscaler.Base.Dict.{lookup, insert}
use neural_autoscaler.Base.Float.{Fixed, fixed_float}
use neural_autoscaler.Base.Text.{trim_space}
use neural_autoscaler.Base.Result.{ok, wrap_err}
use neural_autoscaler.Api.Types.{MetricsSourceSpec}
use neural_autoscaler.Api.Quantity.{thousandths_quantity}
use neural_autoscaler.Api.Duration.{set_duration}
use neural_autoscaler.Api.Source.{validate_metrics_source}
use neural_autoscaler.Metrics.Server.{
  FetchResult, fetch, add_items, add_metrics, samples_at, zero_totals,
}
use neural_autoscaler.Metrics.Pods.{resolve_pod_names}
use neural_autoscaler.Metrics.Prometheus.Merge.{prometheus_matrix_to_series, add_values}
use neural_autoscaler.Metrics.Prometheus.Columns.{
  stream_column, first_times, sum_of, prometheus_matrix_to_series-columns,
}
use neural_autoscaler.Metrics.Prometheus.Fetch.{
  Access, Window, resolve_query_window, resolve_bearer_token,
}
use neural_autoscaler.Metrics.Prometheus.Window.{IsWindow, resolve_query_window-IsWindow}
use neural_autoscaler.Metrics.Prometheus.Access.{IsAuthorization, resolve_bearer_token_iff}
use neural_autoscaler.Metrics.Factory.{Fetcher, new_fetcher, access_at, server_failed}
use neural_autoscaler.Metrics.Factory.Timed.{new_fetcher-AreAligned}
use neural_autoscaler.Tests.Clients.{server, prometheus, kube, streams, clients, usage}

sums_test : (prometheus_matrix_to_series streams).values ≡ 13 ∷ 24 ∷ []
unfolding prometheus_matrix_to_series add_values
sums_test = refl

prometheus_matrix_to_series-columns_example :
    let series = prometheus_matrix_to_series streams in
    (get_elem? series.values 1 ≡ sum_of (stream_column 1 streams))
    × (series.timestamps ≡ first_times streams)
prometheus_matrix_to_series-columns_example =
    prometheus_matrix_to_series-columns 1 streams 1 (refl, (refl, tt))

abbrev access : Access Fixed ℕ String String String String
access = record (access_at clients 5) { parse_duration = λ text. some (pos 9); add_time = λ t d. t }

abbrev window : Window ℕ
window = record { query_type = "query_range"; start = 5; end = 5; step = pos 60000000000 }

window_made : resolve_query_window access prometheus ≡ ok window
unfolding resolve_query_window set_duration
window_made = refl

resolve_query_window-IsWindow_example : IsWindow access prometheus window
resolve_query_window-IsWindow_example =
    resolve_query_window-IsWindow access prometheus window (inl refl) window_made

header_test : resolve_bearer_token access prometheus "apps" prometheus.auth ≡ ok (some "Bearer abc")
unfolding resolve_bearer_token lookup trim_space
header_test = refl

resolve_bearer_token_iff_example :
    (resolve_bearer_token access prometheus "apps" prometheus.auth ≡ ok (some "Bearer abc"))
    ↔ IsAuthorization access prometheus access.kube "apps" prometheus.auth (some "Bearer abc")
resolve_bearer_token_iff_example =
    resolve_bearer_token_iff access prometheus "apps" prometheus.auth (some "Bearer abc")

abbrev source : MetricsSourceSpec
source = record { source_type = "MetricsServer"; metrics_server = some server; prometheus = none }

abbrev result : FetchResult Fixed ℕ
result = record {
  by_resource = ("cpu", record { values = 250000 ∷ []; timestamps = 5 ∷ [] }) ∷ [];
  pod_names = "a" ∷ [];
}

abbrev fetcher : Fetcher clients
fetcher w =
    wrap_err server_failed (fetch kube.workloads (λ namespace. ok (usage ∷ [])) w server "apps")

fetcher_made : new_fetcher clients source "apps" ≡ ok fetcher
unfolding new_fetcher validate_metrics_source trim_space
fetcher_made = refl

fetched : fetcher 5 ≡ ok result
unfolding fetch resolve_pod_names add_items add_metrics samples_at insert zero_totals lookup
    add_int64
fetched = refl

new_fetcher-AreAligned_example :
    All (λ (resource, series). length series.values ≡ length series.timestamps) result.by_resource
new_fetcher-AreAligned_example =
    new_fetcher-AreAligned clients source "apps" fetcher 5 result fetcher_made fetched
