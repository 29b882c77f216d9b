-- ===== src/Metrics/Prometheus/Window.antt =====
-- With which range Prometheus is asked.
use mathlib.Core.Option.{some-injective}
use neural_autoscaler.Base.{
  ◌≡◌, refl, sym, subst, ◌⊎◌, inl, inr, String, true, Option, none, some, Bool-cases,
}
use neural_autoscaler.Base.Int.{ℤ, pos, ltb_ℤ, sub_int64}
use neural_autoscaler.Base.Result.{◌>>=◌, Result, ok, Holds, Holds-bind, Holds-ok, Result-cases}
use neural_autoscaler.Api.Types.{PrometheusQueryType, PrometheusSourceSpec}
use neural_autoscaler.Api.Duration.{set_duration}
use neural_autoscaler.Api.Source.Valid.{IsQueryType}
use neural_autoscaler.Metrics.Prometheus.Fetch.{
  Access, Window, PrometheusError, duration_or, default_prometheus_lookback,
  resolve_prometheus_duration, resolve_step, resolve_start, query_type_or_range,
  resolve_query_window,
}

abbrev IsPositive : ℤ → Type 0
IsPositive d = ltb_ℤ (pos 0) d ≡ true

-- What a setting says, if it is positive, and the default otherwise.
pub data IsDuration (setting : Option ℤ) (default : ℤ) : ℤ → Type 0 where
  as_set : (d : ℤ) → setting ≡ some d → IsPositive d → IsDuration setting default d
  by_default : ((d : ℤ) → setting ≡ some d → ¬ IsPositive d) → IsDuration setting default default

duration_or-IsDuration :
    (default : ℤ) (setting : Option ℤ) → IsDuration setting default (duration_or default setting)
duration_or-IsDuration default none = by_default (λ d e. cc)
duration_or-IsDuration default (some d) = elim (Bool-cases (ltb_ℤ (pos 0) d)) [
  | inl e ↦ rw e (as_set d refl e)
  | inr e ↦ rw e (
      by_default (λ other same up. cc (subst IsPositive (sym (some-injective d other same)) up, e)))
]

-- The types of query that are for a range.
abbrev pub IsRangeType : String → Type 0
IsRangeType t = (t ≡ "") ⊎ (t ≡ "query_range")

module _ {F T L S P E : Type 0} (access : Access F T L S P E) (spec : PrometheusSourceSpec) where
  -- A duration that a field of the source says.
  abbrev pub IsRead : Option String → ℤ → ℤ → Type 0
  IsRead field default d =
      (setting : Option ℤ) × (set_duration access.parse_duration field ≡ ok setting)
      × IsDuration setting default d

  -- A range ends now, starts before by the lookback that is set or by an hour, and has the step that
  -- is set or one of a minute. An instant is now.
  abbrev pub IsWindow : Window T → Type 0
  IsWindow window =
      (window.end ≡ access.now)
      × ((IsRangeType spec.query_type
            × (window.query_type ≡ "query_range")
            × IsRead spec.step (pos 60000000000) window.step
            × ((lookback : ℤ) × IsRead spec.lookback (pos 3600000000000) lookback
                × (window.start ≡ access.add_time access.now (sub_int64 (pos 0) lookback))))
          ⊎ ((spec.query_type ≡ "query")
              × (window.query_type ≡ "query")
              × (window.step ≡ pos 0)
              × (window.start ≡ access.now)))

  resolve_prometheus_duration-IsRead :
      (name : String) (field : Option String) (default : ℤ)
      → Holds (IsRead field default) (resolve_prometheus_duration access spec name field default)
  unfolding resolve_prometheus_duration
  resolve_prometheus_duration-IsRead name field default =
      elim (Result-cases (set_duration access.parse_duration field)) [
        | inl (e, failed) ↦ rw failed tt
        | inr (setting, same) ↦ rw same (setting, same, duration_or-IsDuration default setting)
      ]

  -- `resolveQueryWindow`, once the type of the query is known.
  abbrev window_of : PrometheusQueryType → Result (PrometheusError E) (Window T)
  window_of query_type = do
    step ← resolve_step access spec query_type
    start ← resolve_start access spec query_type
    ok (record { query_type = query_type; start = start; end = access.now; step = step })

  abbrev StartsBefore : T → Type 0
  StartsBefore start =
      (lookback : ℤ) × IsRead spec.lookback (pos 3600000000000) lookback
      × (start ≡ access.add_time access.now (sub_int64 (pos 0) lookback))

  window_of-range : IsRangeType spec.query_type → Holds IsWindow (window_of "query_range")
  unfolding resolve_step
  window_of-range is_range =
      Holds-bind (IsRead spec.step (pos 60000000000)) IsWindow
        (resolve_step access spec "query_range") _
        (resolve_prometheus_duration-IsRead "step" spec.step (pos 60000000000))
        (λ step is_step.
          Holds-bind StartsBefore IsWindow (resolve_start access spec "query_range") _
            (Holds-bind (IsRead spec.lookback (pos 3600000000000)) StartsBefore
              (resolve_prometheus_duration access spec "lookback" spec.lookback
                default_prometheus_lookback)
              _ (resolve_prometheus_duration-IsRead "lookback" spec.lookback (pos 3600000000000))
              (λ lookback is_lookback. (lookback, is_lookback, refl)))
            (λ start before. (refl, inl (is_range, refl, is_step, before))))

  window_of-instant : spec.query_type ≡ "query" → Holds IsWindow (window_of "query")
  unfolding resolve_step
  window_of-instant e = (refl, inr (e, refl, refl, refl))

  window_of-IsWindow :
      IsQueryType spec.query_type
      → Holds IsWindow (window_of (query_type_or_range access spec spec.query_type))
  window_of-IsWindow (inl e) =
      subst (λ t. Holds IsWindow (window_of (query_type_or_range access spec t))) (sym e)
        (window_of-range (inl e))
  window_of-IsWindow (inr (inl e)) =
      subst (λ t. Holds IsWindow (window_of (query_type_or_range access spec t))) (sym e)
        (window_of-instant e)
  window_of-IsWindow (inr (inr e)) =
      subst (λ t. Holds IsWindow (window_of (query_type_or_range access spec t))) (sym e)
        (window_of-range (inr e))

  -- For a source whose type of query the validation accepts, if the settings can be read: a query of the
  -- type "query" is for the present instant; one of the type "query_range", or of no type, is for a
  -- range that ends now. The range starts before by the lookback that is set, and has the step that
  -- is set; one that is not set or not positive is an hour and a minute.
  pub resolve_query_window-IsWindow :
      (window : Window T)
      → IsQueryType spec.query_type
      → resolve_query_window access spec ≡ ok window
      → IsWindow window
  unfolding resolve_query_window
  resolve_query_window-IsWindow window known made =
      Holds-ok IsWindow (resolve_query_window access spec) window made (window_of-IsWindow known)
