-- ===== src/Api/Source/Valid.antt =====
-- What the validation of a metrics source accepts.
use neural_autoscaler.Base.{
  ◌≡◌, refl, sym, ap, ◌∙◌, ◌≢◌, ◌↔◌, ◌⊎◌, String, Bool, true, false, Option, none, some, List, [],
  ◌∷◌, arith, ◌==◌, eq_iff, or_iff, if◌then◌else◌,
}
use neural_autoscaler.Base.Int.{ℤ}
use neural_autoscaler.Base.Result.{Result, ok, err, fail_if, >>_iff, fail_if_iff}
use neural_autoscaler.Api.Types.{
  CrossVersionObjectReference, MetricsServerSourceSpec, SecretKeySelector, PrometheusSourceSpec,
  MetricsSourceSpec, ResourceMetric,
}
use neural_autoscaler.Api.Duration.{DurationError, set_duration}
use neural_autoscaler.Api.Source.{
  SourceError, unsupported, blank, known_kind, is_empty, validate_metrics_server_source,
  validate_prometheus_target_ref, validate_query_or_target, known_query_type, validate_auth,
  checked_duration, validate_optional_duration, validate_prometheus_source, validate_set_server,
  validate_set_prometheus, validate_metrics_source,
}
use neural_autoscaler.Api.Source.Metrics.{AreMetrics, validate_resource_metrics_iff}

require_iff :
    (b : Bool) (e : SourceError) → (fail_if (if b then false else true) e ≡ ok tt) ↔ (b ≡ true)
require_iff true e = ground arith
require_iff false e = ground arith

abbrev IsKind : String → Type 0
IsKind kind =
    (kind ≡ "Deployment") ⊎ ((kind ≡ "StatefulSet") ⊎ ((kind ≡ "ReplicaSet") ⊎ (kind ≡ "Pod")))

known_kind_iff : (kind : String) → (known_kind kind ≡ true) ↔ IsKind kind
known_kind_iff kind = or_iff _ _ (eq_iff kind "Deployment") (
    or_iff _ _ (eq_iff kind "StatefulSet")
      (or_iff _ _ (eq_iff kind "ReplicaSet") (eq_iff kind "Pod")))

-- A workload of a supported kind, with a name.
abbrev IsTarget : CrossVersionObjectReference → Type 0
IsTarget ref = (blank ref.kind ≡ false) × (blank ref.name ≡ false) × IsKind ref.kind

is_empty_iff : (resources : List ResourceMetric) → (is_empty resources ≡ false) ↔ (resources ≢ [])
is_empty_iff [] = (λ h. cc, λ h. absurd (h refl))
is_empty_iff (r ∷ resources) = (λ h e. cc, λ h. refl)

abbrev IsServer : MetricsServerSourceSpec → Type 0
IsServer spec = IsTarget spec.target_ref × (spec.resources ≢ []) × AreMetrics spec.resources

validate_metrics_server_source_iff :
    (spec : MetricsServerSourceSpec) → (validate_metrics_server_source spec ≡ ok tt) ↔ IsServer spec
unfolding validate_metrics_server_source
validate_metrics_server_source_iff spec =
    let kind = known_kind_iff spec.target_ref.kind in
    let some_resource = is_empty_iff spec.resources in
    let metrics = validate_resource_metrics_iff spec.resources "metricsServer.resources" in
    (
      λ h.
          let a = (>>_iff _ _).0 h in
          let b = (>>_iff _ _).0 a.1 in
          let c = (>>_iff _ _).0 b.1 in
          let d = (>>_iff _ _).0 c.1 in
          (
            ((fail_if_iff _ _).0 a.0, (fail_if_iff _ _).0 b.0, kind.0 ((require_iff _ _).0 c.0)),
            some_resource.0 ((fail_if_iff _ _).0 d.0),
            metrics.0 d.1,
          ),
      λ v. (>>_iff _ _).1 (
        (fail_if_iff _ _).1 v.0.0,
        (>>_iff _ _).1 (
          (fail_if_iff _ _).1 v.0.1,
          (>>_iff _ _).1 (
            (require_iff _ _).1 (kind.1 v.0.2),
            (>>_iff _ _).1 ((fail_if_iff _ _).1 (some_resource.1 v.1), metrics.1 v.2),
          ),
        ),
      ),
    )

validate_prometheus_target_ref_iff :
    (ref : CrossVersionObjectReference)
    → (validate_prometheus_target_ref ref ≡ ok tt) ↔ IsTarget ref
unfolding validate_prometheus_target_ref
validate_prometheus_target_ref_iff ref =
    let kind = known_kind_iff ref.kind in
    (
      λ h.
          let a = (>>_iff _ _).0 h in
          let b = (>>_iff _ _).0 a.1 in
          ((fail_if_iff _ _).0 a.0, (fail_if_iff _ _).0 b.0, kind.0 ((require_iff _ _).0 b.1)),
      λ v. (>>_iff _ _).1 (
        (fail_if_iff _ _).1 v.0,
        (>>_iff _ _).1 ((fail_if_iff _ _).1 v.1, (require_iff _ _).1 (kind.1 v.2)),
      ),
    )

-- A query of one's own, or a workload and metrics.
abbrev IsAsked : Option CrossVersionObjectReference → List ResourceMetric → String → Type 0
IsAsked none resources query = blank query ≡ false
IsAsked (some ref) resources query = IsTarget ref × (resources ≢ []) × AreMetrics resources

validate_query_or_target_iff :
    (ref : Option CrossVersionObjectReference) (resources : List ResourceMetric) (query : String)
    → (validate_query_or_target ref resources query ≡ ok tt) ↔ IsAsked ref resources query
validate_query_or_target_iff none resources query = fail_if_iff _ _
validate_query_or_target_iff (some ref) resources query =
    let target = validate_prometheus_target_ref_iff ref in
    let some_resource = is_empty_iff resources in
    let metrics = validate_resource_metrics_iff resources "prometheus.resources" in
    (
      λ h.
          let a = (>>_iff _ _).0 h in
          let b = (>>_iff _ _).0 a.1 in
          (target.0 a.0, some_resource.0 ((fail_if_iff _ _).0 b.0), metrics.0 b.1),
      λ v.
          (>>_iff _ _).1 (
            target.1 v.0,
            (>>_iff _ _).1 ((fail_if_iff _ _).1 (some_resource.1 v.1), metrics.1 v.2),
          ),
    )

abbrev IsAuth : Option SecretKeySelector → Type 0
IsAuth none = Unit
IsAuth (some auth) = (blank auth.name ≡ false) × (blank auth.key ≡ false)

validate_auth_iff : (auth : Option SecretKeySelector) → (validate_auth auth ≡ ok tt) ↔ IsAuth auth
validate_auth_iff none = (λ h. tt, λ h. refl)
validate_auth_iff (some auth) = (
  λ h. let a = (>>_iff _ _).0 h in ((fail_if_iff _ _).0 a.0, (fail_if_iff _ _).0 a.1),
  λ v. (>>_iff _ _).1 ((fail_if_iff _ _).1 v.0, (fail_if_iff _ _).1 v.1),
)

abbrev pub IsQueryType : String → Type 0
IsQueryType t = (t ≡ "") ⊎ ((t ≡ "query") ⊎ (t ≡ "query_range"))

known_query_type_iff : (t : String) → (known_query_type t ≡ true) ↔ IsQueryType t
known_query_type_iff t =
    or_iff _ _ (eq_iff t "") (or_iff _ _ (eq_iff t "query") (eq_iff t "query_range"))

by_type_iff :
    {P R : Type 0} {a b : Result SourceError (Unit {0})} (t : String) (e : SourceError)
    → (a ≡ ok tt) ↔ P
    → (b ≡ ok tt) ↔ R
    → ((if t == "MetricsServer" then a else (if t == "Prometheus" then b else err e)) ≡ ok tt)
      ↔ (((t ≡ "MetricsServer") × P) ⊎ ((t ≡ "Prometheus") × R))
by_type_iff t e p r =
    let other : (t == "MetricsServer") ≡ true → (t == "Prometheus") ≡ true → ⊥ = λ h k.
      let clash : ("Prometheus" == "MetricsServer") ≡ true =
        ap (λ u. u == "MetricsServer") (sym ((eq_iff t "Prometheus").0 k)) ∙ h in
      cc in
    ground (arith, eq_iff t "MetricsServer", eq_iff t "Prometheus", p, r, other)

module _ (parse_duration : String → Option ℤ) where
  abbrev IsReadable : Result DurationError (Option ℤ) → Type 0
  IsReadable (ok d) = Unit
  IsReadable (err e) = ⊥

  checked_duration_iff :
      (field : String) (d : Result DurationError (Option ℤ))
      → (checked_duration parse_duration field d ≡ ok tt) ↔ IsReadable d
  checked_duration_iff field (ok d) = (λ h. tt, λ h. refl)
  checked_duration_iff field (err e) = (λ h. cc, λ h. absurd h)

  abbrev IsPrometheus : PrometheusSourceSpec → Type 0
  IsPrometheus spec =
      (blank spec.url ≡ false)
      × IsAsked spec.target_ref spec.resources spec.query
      × IsQueryType spec.query_type
      × IsAuth spec.auth
      × IsReadable (set_duration parse_duration spec.step)
      × IsReadable (set_duration parse_duration spec.lookback)

  validate_prometheus_source_iff :
      (spec : PrometheusSourceSpec)
      → (validate_prometheus_source parse_duration spec ≡ ok tt) ↔ IsPrometheus spec
  unfolding validate_prometheus_source validate_optional_duration
  validate_prometheus_source_iff spec =
      let asked = validate_query_or_target_iff spec.target_ref spec.resources spec.query in
      let kind = known_query_type_iff spec.query_type in
      let auth = validate_auth_iff spec.auth in
      let step = checked_duration_iff "prometheus.step" (set_duration parse_duration spec.step) in
      let lookback =
        checked_duration_iff "prometheus.lookback" (set_duration parse_duration spec.lookback) in
      (
        λ h.
            let a = (>>_iff _ _).0 h in
            let b = (>>_iff _ _).0 a.1 in
            let c = (>>_iff _ _).0 b.1 in
            let d = (>>_iff _ _).0 c.1 in
            let e = (>>_iff _ _).0 d.1 in
            (
              (fail_if_iff _ _).0 a.0,
              asked.0 b.0,
              kind.0 ((require_iff _ _).0 c.0),
              auth.0 d.0,
              step.0 e.0,
              lookback.0 e.1,
            ),
        λ v. (>>_iff _ _).1 (
          (fail_if_iff _ _).1 v.0,
          (>>_iff _ _).1 (
            asked.1 v.1,
            (>>_iff _ _).1 (
              (require_iff _ _).1 (kind.1 v.2),
              (>>_iff _ _).1 (auth.1 v.3, (>>_iff _ _).1 (step.1 v.4, lookback.1 v.5)),
            ),
          ),
        ),
      )

  abbrev pub IsSetServer : Option MetricsServerSourceSpec → Type 0
  IsSetServer none = ⊥
  IsSetServer (some spec) = IsServer spec

  abbrev IsSetPrometheus : Option PrometheusSourceSpec → Type 0
  IsSetPrometheus none = ⊥
  IsSetPrometheus (some spec) = IsPrometheus spec

  validate_set_server_iff :
      (spec : Option MetricsServerSourceSpec)
      → (validate_set_server parse_duration spec ≡ ok tt) ↔ IsSetServer spec
  validate_set_server_iff none = (λ h. cc, λ h. absurd h)
  validate_set_server_iff (some spec) = validate_metrics_server_source_iff spec

  validate_set_prometheus_iff :
      (spec : Option PrometheusSourceSpec)
      → (validate_set_prometheus parse_duration spec ≡ ok tt) ↔ IsSetPrometheus spec
  validate_set_prometheus_iff none = (λ h. cc, λ h. absurd h)
  validate_set_prometheus_iff (some spec) = validate_prometheus_source_iff spec

  -- `ValidateMetricsSource` accepts a source exactly when its type is that of the metrics server or of
  -- Prometheus and the settings of that type are there and valid: a workload of a supported kind and
  -- metrics that are known and distinct, or for Prometheus a query in their place, an address, a known
  -- type of query, a whole reference to a secret if any, and durations that can be read.
  pub validate_metrics_source_iff :
      (spec : MetricsSourceSpec)
      → (validate_metrics_source parse_duration spec ≡ ok tt) ↔ (
          ((spec.source_type ≡ "MetricsServer") × IsSetServer spec.metrics_server)
          ⊎ ((spec.source_type ≡ "Prometheus") × IsSetPrometheus spec.prometheus))
  unfolding validate_metrics_source
  validate_metrics_source_iff spec =
      by_type_iff spec.source_type (unsupported "type" spec.source_type)
        (validate_set_server_iff spec.metrics_server) (validate_set_prometheus_iff spec.prometheus)
