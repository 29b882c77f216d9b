-- ===== src/Tests/Metrics.antt =====
-- The history of samples.
use neural_autoscaler.Base.{
  ℕ, ◌≡◌, refl, ◌↔◌, ◌⊎◌, inl, String, ◌==◌, none, some, List, [], ◌∷◌, arith, length,
  if◌then◌else◌,
}
use neural_autoscaler.Base.Int.{pos, add_int64, wrap64, ◌+ℤ◌}
use neural_autoscaler.Base.Dict.{lookup}
use neural_autoscaler.Base.Float.{Fixed, fixed_float}
use neural_autoscaler.Base.Result.{Result, ok, err}
use neural_autoscaler.Api.Types.{MetricsServerSourceSpec}
use neural_autoscaler.Api.Quantity.{Thousandths, thousandths_quantity}
use neural_autoscaler.Metrics.History.{
  HistoryStore, empty_series, RingBuffer, new_history_store, append, series, store_get, store_len,
}
use neural_autoscaler.Metrics.History.Ring.{IsValid, push_sample, append-IsValid, series-append}
use neural_autoscaler.Metrics.History.Store.{
  Call, sample, drop_prefix, last_samples, recorded, run, store_get-run,
}
use neural_autoscaler.Metrics.Pods.{
  WorkloadClient, resolve_pod_names, pod_names_for_selector, HasSelector, Listed,
  resolve_pod_names_iff,
}
use neural_autoscaler.Metrics.Server.{
  PodMetrics, FetchResult, fetch_namespace, cpu_millicores, usage_from, fetch,
}
use neural_autoscaler.Metrics.Server.Sums.{HasSums, fetch_lem}

-- A full ring of two, whose oldest sample stands second.
abbrev ring : RingBuffer ℕ ℕ
ring = record { values = 12 ∷ 11 ∷ []; timestamps = 2 ∷ 1 ∷ []; capacity = 2; start = 1; count = 2 }

ring-IsValid : IsValid ring
ring-IsValid = ground arith

append-IsValid_example : IsValid (append 0 0 ring 13 3)
append-IsValid_example = append-IsValid 0 0 ring 13 3 ring-IsValid

series-append_example : series 0 0 (append 0 0 ring 13 3) ≡ push_sample 2 (series 0 0 ring) 13 3
series-append_example = series-append 0 0 ring 13 3 ring-IsValid

abbrev calls : List (Call ℕ ℕ)
calls =
    sample "ns/a/cpu" 1 1 ∷ sample "ns/b/cpu" 2 2 ∷ drop_prefix "ns/a/" ∷ sample "ns/a/cpu" 3 3 ∷ []

store_get-run_example :
    let store = run 0 0 (new_history_store 0 0 (pos 2)) calls in
    (store_get 0 0 store "ns/a/cpu" ≡ last_samples 2 (recorded "ns/a/cpu" empty_series calls))
    × (store_len 0 0 store "ns/a/cpu" ≡ length (store_get 0 0 store "ns/a/cpu").values)
store_get-run_example = store_get-run 0 0 (pos 2) "ns/a/cpu" calls

-- One deployment with the pods "a" and "b", and the usage of "a" and of another pod.
abbrev workloads : WorkloadClient String String String String
workloads = record {
  get_pod = λ namespace name. some "not found";
  get_workload = λ kind namespace name. if name == "web" then ok "app=web" else err "not found";
  label_selector_as_selector = λ selector. ok selector;
  list_pods = λ namespace selector. ok ("a" ∷ "b" ∷ []);
  pod_name = λ pod. pod;
  is_not_found = λ e. e == "not found";
}

abbrev usage_a : PodMetrics Thousandths
usage_a = record {
  name = "a";
  containers = (("cpu", 250) ∷ ("memory", 1024000) ∷ []) ∷ (("cpu", 50) ∷ []) ∷ [];
}

abbrev usage_other : PodMetrics Thousandths
usage_other = record { name = "other"; containers = (("cpu", 900) ∷ []) ∷ [] }

abbrev list_metrics : String → Result String (List (PodMetrics Thousandths))
list_metrics namespace = ok (usage_other ∷ usage_a ∷ [])

abbrev server : MetricsServerSourceSpec
server = record {
  target_ref = record { api_group = "apps"; kind = "Deployment"; name = "web" };
  resources = "cpu" ∷ [];
  namespace = "";
}

pods_found :
    resolve_pod_names workloads (fetch_namespace server "apps") server.target_ref
    ≡ ok ("a" ∷ "b" ∷ [])
unfolding resolve_pod_names pod_names_for_selector fetch_namespace
pods_found = refl

usage_test : cpu_millicores usage_a ≡ pos 300
unfolding cpu_millicores usage_from lookup add_int64 wrap64 ◌+ℤ◌
usage_test = refl

fetch_lem_example :
    (result : FetchResult Fixed ℕ) × (fetch workloads list_metrics 7 server "apps" ≡ ok result)
    × (result.pod_names ≡ "a" ∷ "b" ∷ [])
    × HasSums workloads list_metrics result 7 ("cpu" ∷ []) (usage_a ∷ [])
fetch_lem_example =
    fetch_lem workloads list_metrics 7 server "apps" "a" ("b" ∷ []) (usage_other ∷ usage_a ∷ [])
      (inl refl, refl, tt) pods_found refl (λ e. cc)

resolve_pod_names_iff_example :
    (resolve_pod_names workloads "apps" server.target_ref ≡ ok ("a" ∷ "b" ∷ [])) ↔ (
      ((server.target_ref.kind ≡ "Pod")
        × ((workloads.get_pod "apps" "web" ≡ none)
            × (server.target_ref.name ∷ [] ≡ "a" ∷ "b" ∷ [])))
      ⊎ (HasSelector "Deployment" × Listed workloads (ok "app=web") "apps" ("a" ∷ "b" ∷ [])))
resolve_pod_names_iff_example =
    resolve_pod_names_iff workloads "apps" server.target_ref ("a" ∷ "b" ∷ [])

abbrev filled : HistoryStore ℕ ℕ
filled = run 0 0 (new_history_store 0 0 (pos 2)) (sample "apps/web/cpu" 1 1 ∷ [])
