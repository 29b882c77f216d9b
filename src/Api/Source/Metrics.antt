-- ===== src/Api/Source/Metrics.antt =====
-- The metrics that a source may ask for.
use neural_autoscaler.Base.{
  ◌≡◌, refl, ◌↔◌, ◌⊎◌, String, true, false, List, [], ◌∷◌, arith, eq_iff, if◌then◌else◌,
}
use neural_autoscaler.Base.Result.{ok, >>_iff, fail_if_iff}
use neural_autoscaler.Api.Types.{ResourceMetric}
use neural_autoscaler.Api.Source.{
  known_metric, seen_before, validate_metrics_from, validate_resource_metrics,
}

abbrev pub IsMetric : ResourceMetric → Type 0
IsMetric r = (r ≡ "cpu") ⊎ (r ≡ "memory")

-- Each is a metric that can be asked for, and none stands twice.
abbrev pub AreMetrics : List ResourceMetric → Type 0
AreMetrics [] = Unit
AreMetrics (r ∷ resources) = IsMetric r × (seen_before r resources ≡ false) × AreMetrics resources

abbrev NoneSeen : List ResourceMetric → List ResourceMetric → Type 0
NoneSeen seen [] = Unit
NoneSeen seen (r ∷ resources) = (seen_before r seen ≡ false) × NoneSeen seen resources

NoneSeen-cons :
    (r : ResourceMetric) (seen resources : List ResourceMetric)
    → NoneSeen (r ∷ seen) resources ↔ ((seen_before r resources ≡ false) × NoneSeen seen resources)
NoneSeen-cons r seen [] = ground arith
NoneSeen-cons r seen (x ∷ resources) =
    ground (arith, eq_iff r x, eq_iff x r, NoneSeen-cons r seen resources)

known_metric_iff :
    (r : ResourceMetric) → ((if known_metric r then false else true) ≡ false) ↔ IsMetric r
known_metric_iff r = ground (arith, eq_iff r "cpu", eq_iff r "memory")

validate_metrics_from_iff :
    (seen resources : List ResourceMetric) (field : String)
    → (validate_metrics_from seen resources field ≡ ok tt)
      ↔ (AreMetrics resources × NoneSeen seen resources)
unfolding validate_metrics_from
validate_metrics_from_iff seen [] field = (λ h. (tt, tt), λ h. refl)
validate_metrics_from_iff seen (r ∷ resources) field =
    let known = known_metric_iff r in
    let rest = validate_metrics_from_iff (r ∷ seen) resources field in
    let fresh = NoneSeen-cons r seen resources in
    (
      λ h.
          let c = (>>_iff _ _).0 h in
          let d = (>>_iff _ _).0 c.1 in
          let e = rest.0 d.1 in
          let g = fresh.0 e.1 in
          ((known.0 ((fail_if_iff _ _).0 c.0), g.0, e.0), ((fail_if_iff _ _).0 d.0, g.1)),
      λ v. (>>_iff _ _).1 (
        (fail_if_iff _ _).1 (known.1 v.0.0),
        (>>_iff _ _).1 ((fail_if_iff _ _).1 v.1.0, rest.1 (v.0.2, fresh.1 (v.0.1, v.1.1))),
      ),
    )

NoneSeen-nil : (resources : List ResourceMetric) → NoneSeen [] resources
NoneSeen-nil [] = tt
NoneSeen-nil (r ∷ resources) = (refl, NoneSeen-nil resources)

-- `validateResourceMetrics` accepts the resources exactly when each is "cpu" or "memory" and none
-- stands twice.
pub validate_resource_metrics_iff :
    (resources : List ResourceMetric) (field : String)
    → (validate_resource_metrics resources field ≡ ok tt) ↔ AreMetrics resources
unfolding validate_resource_metrics
validate_resource_metrics_iff resources field =
    let whole = validate_metrics_from_iff [] resources field in
    (λ h. (whole.0 h).0, λ v. whole.1 (v, NoneSeen-nil resources))
