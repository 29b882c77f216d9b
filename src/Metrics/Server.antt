-- ===== src/Metrics/Server.antt =====
-- `metricsServerFetcher.Fetch` of internal/metrics/metrics_server.go, and the adapters that add up the
-- usage of a pod. The client of the metrics API is a parameter, a function from a namespace to what
-- `List` answers. The clock is one too: the time of the call.
pub mod Sums
use neural_autoscaler.Base.{
  ℕ, zero, suc, ◌+◌, String, Bool, true, false, ◌==◌, ◌||◌, Option, none, some, List, [], ◌∷◌,
  if◌then◌else◌,
}
use neural_autoscaler.Base.Int.{ℤ, pos, add_int64}
use neural_autoscaler.Base.Dict.{Dict, lookup, insert}
use neural_autoscaler.Base.Float.{Float64}
use neural_autoscaler.Base.Result.{Result, ok, err, ◌>>=◌, wrap_err}
use neural_autoscaler.Api.Types.{
  ResourceMetric, resource_metric_cpu, resource_metric_memory, MetricsServerSourceSpec,
}
use neural_autoscaler.Api.Quantity.{Quantity}
use neural_autoscaler.Metrics.History.{Series}
use neural_autoscaler.Metrics.Pods.{WorkloadClient, PodsError, resolve_pod_names}

-- The usage of each container of a pod, by the names of the resources.
pub record PodMetrics (Q : Type 0) : Type 0 where
  pub name : String
  pub containers : List (Dict Q)

pub record FetchResult (F T : Type 0) : Type 0 where
  pub by_resource : Dict (Series F T)
  pub pod_names : List String

pub data FetchError (E : Type 0) : Type 0 where
  no_target : PodsError E → FetchError E
  no_pods : FetchError E
  metrics_list_failed : E → FetchError E
  unsupported_metric : String → FetchError E
  none_matched : FetchError E

-- The namespace of the spec, or that of the resource.
unfoldable pub fetch_namespace : MetricsServerSourceSpec → String → String
fetch_namespace spec cr_namespace = if spec.namespace == "" then cr_namespace else spec.namespace

module _ {Q : Type 0} ⦃q : Quantity Q⦄ where
  abbrev plus_usage : (Q → ℤ) → ℤ → Option Q → ℤ
  plus_usage read total none = total
  plus_usage read total (some amount) = add_int64 total (read amount)

  -- The loop over the containers.
  unfoldable pub usage_from : String → (Q → ℤ) → ℤ → List (Dict Q) → ℤ
  usage_from resource read total [] = total
  usage_from resource read total (usage ∷ containers) =
      usage_from resource read (plus_usage read total (lookup resource usage)) containers

  unfoldable pub cpu_millicores : PodMetrics Q → ℤ
  unfolding usage_from
  cpu_millicores pod = usage_from "cpu" q.milli_value (pos 0) pod.containers

  unfoldable pub memory_bytes : PodMetrics Q → ℤ
  unfolding usage_from
  memory_bytes pod = usage_from "memory" q.value (pos 0) pod.containers

-- Whether a name is a key of `podNameSet`.
abbrev pub is_target : String → List String → Bool
is_target name [] = false
is_target name (x ∷ names) = x == name || is_target name names

module _ {F : Type 0} ⦃f : Float64 F⦄ where
  abbrev pub total_or_zero : Option F → F
  total_or_zero none = f.decimal 0 0
  total_or_zero (some total) = total

  -- `totals[metric] += value`
  unfoldable pub add_total : ResourceMetric → F → Dict F → Dict F
  add_total metric value totals =
      insert metric (f.add (total_or_zero (lookup metric totals)) value) totals

  -- The loop that sets each total to 0.
  unfoldable pub zero_totals : List ResourceMetric → Dict F → Dict F
  zero_totals [] totals = totals
  zero_totals (metric ∷ resources) totals =
      zero_totals resources (insert metric (f.decimal 0 0) totals)

-- The loop over the totals, with one sample for each.
unfoldable pub samples_at : {F T : Type 0} → T → Dict F → Dict (Series F T)
samples_at now [] = []
samples_at now ((metric, total) ∷ totals) =
    (metric, record { values = total ∷ []; timestamps = now ∷ [] }) ∷ samples_at now totals

abbrev pub fetched :
    {F E T : Type 0} → T → List String → Dict F × ℕ → Result (FetchError E) (FetchResult F T)
fetched now names (totals, zero) = err none_matched
fetched now names (totals, suc matched) =
    ok (record { by_resource = samples_at now totals; pod_names = names })

module _ {F Q E : Type 0} ⦃f : Float64 F⦄ ⦃q : Quantity Q⦄ where
  -- The cases of the switch.
  unfoldable pub usage_of : ResourceMetric → PodMetrics Q → Result (FetchError E) F
  unfolding cpu_millicores memory_bytes
  usage_of metric item =
      if metric == resource_metric_cpu
      then ok (f.of_int64 (cpu_millicores item))
      else (if metric == resource_metric_memory
          then ok (f.of_int64 (memory_bytes item))
          else err (unsupported_metric metric))

  -- The inner loop, for one item.
  unfoldable pub add_metrics :
      List ResourceMetric → PodMetrics Q → Dict F → Result (FetchError E) (Dict F)
  unfolding usage_of add_total
  add_metrics [] item totals = ok totals
  add_metrics (metric ∷ resources) item totals = do
    value ← usage_of metric item
    add_metrics resources item (add_total metric value totals)

  abbrev add_item :
      List String
      → List ResourceMetric
      → PodMetrics Q
      → Dict F × ℕ
      → Result (FetchError E) (Dict F × ℕ)
  add_item names resources item (totals, matched) =
      if is_target item.name names
      then (do new ← add_metrics resources item totals; ok (new, matched + 1))
      else ok (totals, matched)

  -- The outer loop.
  unfoldable pub add_items :
      List String
      → List ResourceMetric
      → List (PodMetrics Q)
      → Dict F × ℕ
      → Result (FetchError E) (Dict F × ℕ)
  add_items names resources [] sums = ok sums
  add_items names resources (item ∷ items) sums = do
    next ← add_item names resources item sums
    add_items names resources items next

  abbrev pub fetch_for :
      {T : Type 0}
      → T
      → Result E (List (PodMetrics Q))
      → List ResourceMetric
      → List String
      → Result (FetchError E) (FetchResult F T)
  fetch_for now listed resources [] = err no_pods
  fetch_for now listed resources (name ∷ names) = do
    items ← wrap_err metrics_list_failed listed
    sums ← add_items (name ∷ names) resources items (zero_totals resources [], 0)
    fetched now (name ∷ names) sums

module _ {F Q L S P E T : Type 0} ⦃f : Float64 F⦄ ⦃q : Quantity Q⦄ (client : WorkloadClient L S P E)
    (list_metrics : String → Result E (List (PodMetrics Q))) where
  unfoldable pub fetch :
      T → MetricsServerSourceSpec → String → Result (FetchError E) (FetchResult F T)
  fetch now spec cr_namespace = do
    names ←
        wrap_err no_target
          (resolve_pod_names client (fetch_namespace spec cr_namespace) spec.target_ref)
    fetch_for now (list_metrics (fetch_namespace spec cr_namespace)) spec.resources names
