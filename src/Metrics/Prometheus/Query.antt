-- ===== src/Metrics/Prometheus/Query.antt =====
-- The queries of internal/metrics/prometheus_queries.go, `PodMatcher` of workload_pods.go, and the two
-- functions of prometheus.go that read texts. Go's `%q` and `strings.ToLower` are parameters, of which
-- nothing is assumed.
use Prim.Native.Char.{code}
use Prim.Native.String.{◌++◌ as ◌<>◌, len, slice}
use text.Mathlib.Text.{find?}
use neural_autoscaler.Base.{
  ◌-◌, ◌≡◌, refl, String, Bool, true, false, ◌==◌, ◌&&◌, ◌||◌, none, some, List, [], ◌∷◌, eqb, leb,
  if◌then◌else◌,
}
use neural_autoscaler.Base.Text.{trim_space}
use neural_autoscaler.Base.Result.{Result, ok, err}
use neural_autoscaler.Api.Types.{
  CrossVersionObjectReference, ResourceMetric, resource_metric_cpu, resource_metric_memory,
}

-- What the functions read texts with.
pub record Texts : Type 0 where
  pub quote : String → String
  pub to_lower : String → String

abbrev join_bars : String → List String → String
join_bars name [] = name
join_bars name (next ∷ names) = name <> ("|" <> join_bars next names)

-- The matcher, and whether it is the exact name of a pod.
unfoldable pub pod_matcher : List String → CrossVersionObjectReference → String × Bool
pod_matcher [] ref = (ref.name <> "-.*", false)
pod_matcher (name ∷ []) ref = (name, ref.kind == "Pod")
pod_matcher (name ∷ next ∷ names) ref = (join_bars name (next ∷ names), false)

abbrev container_filter : String
container_filter = "container!=\"\",container!=\"POD\""

abbrev pub contains : String → String → Bool
contains text part = elim (find? text part) [ none ↦ false | some i ↦ true ]

unfoldable trim_right_slashes : String → String
trim_right_slashes String.[] = String.[]
trim_right_slashes (String.◌∷◌ c s) =
    let rest = trim_right_slashes s in
    if eqb (code c) 0x2f && rest == "" then String.[] else String.◌∷◌ c rest

abbrev pub has_suffix : String → String → Bool
has_suffix text suffix =
    leb (len suffix) (len text) && slice text (len text - len suffix) (len text) == suffix

abbrev trim_suffix : String → String → String
trim_suffix text suffix =
    if has_suffix text suffix then slice text 0 (len text - len suffix) else text

pub data QueryError : Type 0 where
  url_required : QueryError
  unsupported_resource : String → QueryError

unfoldable pub normalize_prometheus_url : String → Result QueryError String
unfolding trim_right_slashes trim_space
normalize_prometheus_url raw =
    let base_url = trim_right_slashes (trim_space raw) in
    if base_url == "" then err url_required else ok (trim_suffix base_url "/api/v1")

normalize_prometheus_url_test :
    (normalize_prometheus_url " http://p:9090/api/v1/ " ≡ ok "http://p:9090")
    × (normalize_prometheus_url "http://p:9090//" ≡ ok "http://p:9090")
    × (normalize_prometheus_url " / " ≡ err url_required)
unfolding normalize_prometheus_url trim_space
normalize_prometheus_url_test = (refl, refl, refl)

module _ (texts : Texts) where
  unfoldable pod_label_selector : String → Bool → String
  pod_label_selector matcher exact =
      if exact then "pod=" <> texts.quote matcher else "pod=~" <> texts.quote matcher

  abbrev selectors : (namespace matcher : String) → Bool → String
  selectors namespace matcher exact =
      "{namespace="
      <> (texts.quote namespace
          <> ("," <> (pod_label_selector matcher exact <> ("," <> (container_filter <> "}")))))

  unfoldable pub build_prometheus_query :
      (namespace : String) → ResourceMetric → String → Bool → Result QueryError String
  unfolding pod_label_selector
  build_prometheus_query namespace resource matcher exact =
      if resource == resource_metric_cpu
      then ok (
          "sum(rate(container_cpu_usage_seconds_total"
          <> (selectors namespace matcher exact <> "[5m])) * 1000"))
      else (if resource == resource_metric_memory
          then ok (
              "sum(container_memory_working_set_bytes"
              <> (selectors namespace matcher exact <> ")"))
          else err (unsupported_resource resource))

  unfoldable pub infer_resource_from_query : String → ResourceMetric
  infer_resource_from_query query =
      let q = texts.to_lower query in
      if contains q "memory" || (contains q "container_memory" || contains q "_bytes")
      then resource_metric_memory
      else resource_metric_cpu
