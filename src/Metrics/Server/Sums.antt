-- ===== src/Metrics/Server/Sums.antt =====
-- What `Fetch` of the metrics server returns: for each metric the sum over the pods of the workload.
use neural_autoscaler.Base.{
  ℕ, suc, ◌+◌, ◌≡◌, refl, ap, subst, ◌∙◌, ◌≢◌, inl, inr, String, true, false, ◌==◌, eq_iff, Option,
  none, some, List, [], ◌∷◌, arith, Bool-cases, length, if◌then◌else◌,
}
use neural_autoscaler.Base.Dict.{Dict, lookup, insert, lookup-insert}
use neural_autoscaler.Base.Float.{Float64}
use neural_autoscaler.Base.Result.{Result, ok}
use neural_autoscaler.Api.Types.{ResourceMetric, MetricsServerSourceSpec}
use neural_autoscaler.Api.Quantity.{Quantity}
use neural_autoscaler.Api.Source.{seen_before}
use neural_autoscaler.Api.Source.Metrics.{IsMetric, AreMetrics}
use neural_autoscaler.Metrics.History.{Series}
use neural_autoscaler.Metrics.Pods.{WorkloadClient, resolve_pod_names}
use neural_autoscaler.Metrics.Server.{
  PodMetrics, FetchResult, fetch_namespace, cpu_millicores, memory_bytes, is_target, total_or_zero,
  add_total, zero_totals, usage_of, add_metrics, add_items, samples_at, fetched, fetch,
}

-- The items of the pods of the workload.
abbrev matched_items : {Q : Type 0} → List String → List (PodMetrics Q) → List (PodMetrics Q)
matched_items names [] = []
matched_items names (item ∷ items) =
    let rest = matched_items names items in if is_target item.name names then item ∷ rest else rest

abbrev one_sample : {F T : Type 0} → T → F → Series F T
one_sample now total = record { values = total ∷ []; timestamps = now ∷ [] }

abbrev sampled : {F T : Type 0} → T → Option F → Option (Series F T)
sampled now none = none
sampled now (some total) = some (one_sample now total)

lookup-samples_at :
    {F T : Type 0} (r : String) (now : T) (totals : Dict F)
    → lookup r (samples_at now totals) ≡ sampled now (lookup r totals)
unfolding lookup samples_at
lookup-samples_at r now [] = refl
lookup-samples_at r now ((k, total) ∷ totals) = elim (Bool-cases (k == r)) [
  | inl e ↦ rw e refl
  | inr ne ↦ rw ne (lookup-samples_at r now totals)
]

module _ {F : Type 0} ⦃f : Float64 F⦄ where
  lookup-add_total :
      (r metric : String) (value : F) (totals : Dict F)
      → lookup r (add_total metric value totals) ≡ (
          if metric == r
          then some (f.add (total_or_zero (lookup metric totals)) value)
          else lookup r totals)
  unfolding add_total
  lookup-add_total r metric value totals = lookup-insert r metric _ totals

  lookup-zero_totals :
      (resources : List ResourceMetric) (totals : Dict F) (r : String)
      → lookup r (zero_totals resources totals)
        ≡ (if seen_before r resources then some (f.decimal 0 0) else lookup r totals)
  unfolding zero_totals
  lookup-zero_totals [] totals r = refl
  lookup-zero_totals (metric ∷ resources) totals r =
      let nought = f.decimal 0 0 in
      ground (
        arith,
        lookup-zero_totals resources (insert metric nought totals) r,
        lookup-insert r metric nought totals,
      )

module _ {F Q : Type 0} ⦃f : Float64 F⦄ ⦃q : Quantity Q⦄ where
  -- What a pod uses of a metric, in thousandths of a processor or in bytes.
  abbrev pub amount : ResourceMetric → PodMetrics Q → F
  amount metric item =
      f.of_int64 (if metric == "cpu" then cpu_millicores item else memory_bytes item)

  abbrev sum_from : ResourceMetric → F → List (PodMetrics Q) → F
  sum_from metric total [] = total
  sum_from metric total (item ∷ items) = sum_from metric (f.add total (amount metric item)) items

  abbrev add_all : List ResourceMetric → PodMetrics Q → Dict F → Dict F
  add_all [] item totals = totals
  add_all (metric ∷ resources) item totals =
      add_all resources item (add_total metric (amount metric item) totals)

  abbrev add_each : List ResourceMetric → List (PodMetrics Q) → Dict F → Dict F
  add_each resources [] totals = totals
  add_each resources (item ∷ items) totals =
      add_each resources items (add_all resources item totals)

  lookup-add_all :
      (resources : List ResourceMetric) (item : PodMetrics Q) (totals : Dict F) (r : String)
      → AreMetrics resources
      → lookup r (add_all resources item totals) ≡ (
          if seen_before r resources
          then some (f.add (total_or_zero (lookup r totals)) (amount r item))
          else lookup r totals)
  lookup-add_all [] item totals r h = refl
  lookup-add_all (metric ∷ resources) item totals r (known, fresh, rest) =
      let next = add_total metric (amount metric item) totals in
      let ih = lookup-add_all resources item next r rest in
      let here = lookup-add_total r metric (amount metric item) totals in
      elim (Bool-cases (metric == r)) [
        | inl e ↦
            let key = (eq_iff metric r).0 e in
            let once : seen_before r resources ≡ false =
              subst (λ k. seen_before k resources ≡ false) key fresh in
            rw e (
              ih
              ∙ rw (once, here, e)
                  (ap (λ k. some (f.add (total_or_zero (lookup k totals)) (amount k item))) key))
        | inr ne ↦ rw ne (ih ∙ rw (here, ne) refl)
      ]

  lookup-add_each-in :
      (resources : List ResourceMetric) (items : List (PodMetrics Q)) (totals : Dict F) (r : String)
      (total : F)
      → AreMetrics resources
      → seen_before r resources ≡ true
      → lookup r totals ≡ some total
      → lookup r (add_each resources items totals) ≡ some (sum_from r total items)
  lookup-add_each-in resources [] totals r total h s e = e
  lookup-add_each-in resources (item ∷ items) totals r total h s e =
      lookup-add_each-in resources items (add_all resources item totals) r
        (f.add total (amount r item)) h s
        (lookup-add_all resources item totals r h ∙ rw (s, e) refl)

  lookup-add_each-out :
      (resources : List ResourceMetric) (items : List (PodMetrics Q)) (totals : Dict F) (r : String)
      → AreMetrics resources
      → seen_before r resources ≡ false
      → lookup r (add_each resources items totals) ≡ lookup r totals
  lookup-add_each-out resources [] totals r h s = refl
  lookup-add_each-out resources (item ∷ items) totals r h s =
      lookup-add_each-out resources items (add_all resources item totals) r h s
      ∙ lookup-add_all resources item totals r h
      ∙ rw s refl

  module _ {E : Type 0} where
    usage_of-eq :
        (metric : ResourceMetric) (item : PodMetrics Q)
        → IsMetric metric
        → usage_of {E = E} metric item ≡ ok (amount metric item)
    unfolding usage_of
    usage_of-eq metric item (inl e) = rw e refl
    usage_of-eq metric item (inr e) = rw e refl

    add_metrics-eq :
        (resources : List ResourceMetric) (item : PodMetrics Q) (totals : Dict F)
        → AreMetrics resources
        → add_metrics {E = E} resources item totals ≡ ok (add_all resources item totals)
    unfolding add_metrics
    add_metrics-eq [] item totals h = refl
    add_metrics-eq (metric ∷ resources) item totals (known, fresh, rest) =
        rw (usage_of-eq metric item known)
          (add_metrics-eq resources item (add_total metric (amount metric item) totals) rest)

    add_items-eq :
        (names : List String) (resources : List ResourceMetric) (items : List (PodMetrics Q))
        (totals : Dict F) (n : ℕ)
        → AreMetrics resources
        → let found = matched_items names items in
          add_items {E = E} names resources items (totals, n)
          ≡ ok (add_each resources found totals, n + length found)
    unfolding add_items
    add_items-eq names resources [] totals n h =
        ap (λ k. ok (totals, k)) {x = n} {y = n + 0} (omega arith)
    add_items-eq names resources (item ∷ items) totals n h =
        let found = matched_items names items in
        elim (Bool-cases (is_target item.name names)) [
          | inl e ↦
              let new = add_all resources item totals in
              rw (e, add_metrics-eq resources item totals h)
                (add_items-eq names resources items new (n + 1) h
                  ∙ ap (λ k. ok (add_each resources found new, k)) {x = n + 1 + length found}
                      {y = n + suc (length found)} (omega arith))
          | inr ne ↦ rw ne (add_items-eq names resources items totals n h)
        ]

fetched_some :
    {F Q E T : Type 0} (now : T) (names : List String) (totals : Dict F)
    (found : List (PodMetrics Q))
    → found ≢ []
    → fetched {E = E} now names (totals, 0 + length found)
      ≡ ok (record { by_resource = samples_at now totals; pod_names = names })
fetched_some now names totals [] h = absurd (h refl)
fetched_some now names totals (item ∷ found) h =
    ap (λ n. fetched now names (totals, n)) {x = 0 + suc (length found)} {y = suc (length found)}
      (omega arith)

module _ {F Q L S P E T : Type 0} ⦃f : Float64 F⦄ ⦃q : Quantity Q⦄ (client : WorkloadClient L S P E)
    (list_metrics : String → Result E (List (PodMetrics Q))) where
  -- Each metric that is asked for has one sample, the sum over the items, and no other has any.
  abbrev pub HasSums : FetchResult F T → T → List ResourceMetric → List (PodMetrics Q) → Type 0
  HasSums result now resources items =
      (r : String)
      → lookup r result.by_resource ≡ (
          if seen_before r resources
          then some (one_sample now (sum_from r (f.decimal 0 0) items))
          else none)

  lookup-sums :
      (now : T) (resources : List ResourceMetric) (items : List (PodMetrics Q)) (r : String)
      → AreMetrics resources
      → lookup r (samples_at now (add_each resources items (zero_totals resources []))) ≡ (
          if seen_before r resources
          then some (one_sample now (sum_from r (f.decimal 0 0) items))
          else none)
  unfolding lookup
  lookup-sums now resources items r h =
      let start = zero_totals resources [] in
      let zeros = lookup-zero_totals resources [] r in
      lookup-samples_at r now (add_each resources items start)
      ∙ elim (Bool-cases (seen_before r resources)) [
        | inl e ↦
            rw
              (
                lookup-add_each-in resources items start r (f.decimal 0 0) h e (zeros ∙ rw e refl),
                e,
              )
              refl
        | inr e ↦ rw (lookup-add_each-out resources items start r h e, zeros, e) refl
      ]

  -- If the workload has pods, the metrics can be listed, the metrics asked for are valid and some item
  -- is of a pod of the workload, then `Fetch` returns the names of the pods, and for each metric asked
  -- for one sample at the time of the call, the sum of its usage over the items of those pods. For no
  -- other resource there is a sample.
  pub fetch_lem :
      (now : T) (spec : MetricsServerSourceSpec) (cr_namespace name : String) (names : List String)
      (items : List (PodMetrics Q))
      → let namespace = fetch_namespace spec cr_namespace in
        let pods = name ∷ names in
        let found = matched_items pods items in
        AreMetrics spec.resources
        → resolve_pod_names client namespace spec.target_ref ≡ ok pods
        → list_metrics namespace ≡ ok items
        → found ≢ []
        → (result : FetchResult F T) × (fetch client list_metrics now spec cr_namespace ≡ ok result)
          × (result.pod_names ≡ pods)
          × HasSums result now spec.resources found
  unfolding fetch
  fetch_lem now spec cr_namespace name names items h resolved listed some_item =
      let resources = spec.resources in
      let pods = name ∷ names in
      let found = matched_items pods items in
      let totals = add_each resources found (zero_totals resources []) in
      (
        record { by_resource = samples_at now totals; pod_names = pods },
        rw
            (
              resolved,
              listed,
              add_items-eq {E = E} pods resources items (zero_totals resources []) 0 h,
            )
            (fetched_some {E = E} now pods totals found some_item),
        refl,
        λ r. lookup-sums now resources found r h,
      )
