-- ===== src/Controller/Process/Ready.antt =====
-- The forecasts that the loop of `Reconcile` hands on to the resizing.
use neural_autoscaler.Base.{
  ◌≡◌, refl, sym, ap, ◌∙◌, subst, inl, inr, ◌≤◌, String, Option, none, some, List, [], ◌∷◌, ◌++◌,
  length, ltb, arith, All, Bool-cases, Option-cases, append_assoc,
}
use neural_autoscaler.Base.Dict.{Dict, lookup, All-insert}
use neural_autoscaler.Base.Float.{Float64}
use neural_autoscaler.Base.Result.{ok, Result-cases}
use neural_autoscaler.Api.Types.{ResourceMetric, ForecastSpec, NeuralAutoscaler}
use neural_autoscaler.Forecast.Types.{Response}
use neural_autoscaler.Metrics.History.{Series, HistoryStore, min_forecast_samples}
use neural_autoscaler.Metrics.Keys.{history_key}
use neural_autoscaler.Controller.History.{◌>>=◌}
use neural_autoscaler.Controller.Predict.{Predictor, run_forecast}
use neural_autoscaler.Controller.Process.{
  Progress, forecast_series, predicted, process_series, process_found, process,
}

-- A forecast that is what the forecaster says of a series with samples enough.
pub record IsForecast {F T E : Type 0} ⦃f : Float64 F⦄ (na : NeuralAutoscaler T)
    (forecaster : Option (Predictor F T E)) (r : ResourceMetric) (series : Series F T)
    (resp : Response F) : Type 0 where
  pub predictor : Predictor F T E
  pub has_forecaster : forecaster ≡ some predictor
  pub spec : ForecastSpec
  pub has_spec : na.spec.forecast ≡ some spec
  pub enough : 16 ≤ length series.values
  pub forecasts : run_forecast predictor spec (history_key na.namespace na.name r) series ≡ ok resp

-- Such a forecast, of the series that the loop has for the resource when it comes to it: what was
-- fetched, or what the history holds then.
pub record IsBacked {F T E : Type 0} ⦃f : Float64 F⦄ (no_time : T) (na : NeuralAutoscaler T)
    (forecaster : Option (Predictor F T E)) (by_resource : Dict (Series F T))
    (resources : List ResourceMetric) (begin : Progress F T E) (entry : String × Response F)
    : Type 0 where
  pub before : List ResourceMetric
  pub rest : List ResourceMetric
  pub in_turn : resources ≡ before ++ (entry.0 ∷ rest)
  pub now : Progress F T E
  pub reached : process no_time forecaster na by_resource before begin ≡ some now
  pub fetched : Series F T
  pub was_fetched : lookup entry.0 by_resource ≡ some fetched
  pub after : Option (HistoryStore F T)
  pub series : Series F T
  pub has_series :
      forecast_series no_time na.spec.metrics.source_type now.history
        (history_key na.namespace na.name entry.0)
        fetched
      ≡ some (after, series)
  pub is_forecast : IsForecast na forecaster entry.0 series entry.1

module _ {F T E : Type 0} ⦃f : Float64 F⦄ (na : NeuralAutoscaler T) where
  All-predicted :
      (P : String × Response F → Type 0) (forecaster : Option (Predictor F T E))
      (spec : Option ForecastSpec) (r : ResourceMetric) (series : Series F T) (now : Progress F T E)
      → na.spec.forecast ≡ spec
      → ((resp : Response F) → IsForecast na forecaster r series resp → P (r, resp))
      → All P now.forecasts
      → All P
          (predicted forecaster spec (history_key na.namespace na.name r) r series now).forecasts
  All-predicted P none spec r series now e new h = h
  All-predicted P (some p) none r series now e new h = h
  All-predicted P (some p) (some spec) r series now e new h =
      let key = history_key na.namespace na.name r in
      elim (Bool-cases (ltb (length series.values) min_forecast_samples)) [
        | inl few ↦ rw few h
        | inr many ↦ rw many (elim (Result-cases (run_forecast p spec key series)) [
          | inl (failed, same) ↦ rw same h
          | inr (resp, same) ↦ rw same (
              All-insert P r resp now.forecasts
                (new resp (record {
                  predictor = p;
                  has_forecaster = refl;
                  spec = spec;
                  has_spec = e;
                  enough = ground (arith, many);
                  forecasts = same;
                }))
                h)
        ])
      ]

  module _ (no_time : T) (forecaster : Option (Predictor F T E)) (by_resource : Dict (Series F T))
      (resources : List ResourceMetric) (begin : Progress F T E) where
    abbrev pub Backed : String × Response F → Type 0
    Backed entry = IsBacked no_time na forecaster by_resource resources begin entry

    abbrev AllBacked : Option (Progress F T E) → Type 0
    AllBacked none = Unit
    AllBacked (some done) = All Backed done.forecasts

    process_found-AllBacked :
        (r : ResourceMetric) (found : Option (Series F T)) (now : Progress F T E)
        (before rest : List ResourceMetric)
        → resources ≡ before ++ (r ∷ rest)
        → process no_time forecaster na by_resource before begin ≡ some now
        → lookup r by_resource ≡ found
        → All Backed now.forecasts
        → AllBacked (process_found no_time forecaster na r found now)
    unfolding process_series
    process_found-AllBacked r none now before rest e reached same h = h
    process_found-AllBacked r (some fetched) now before rest e reached same h =
        let key = history_key na.namespace na.name r in
        let source = na.spec.metrics.source_type in
        elim (Option-cases (forecast_series no_time source now.history key fetched)) [
          | inl nothing ↦ rw nothing tt
          | inr ((after, series), some_e) ↦ rw some_e (
              All-predicted Backed forecaster na.spec.forecast r series _ refl
                (λ resp is_forecast. record {
                  before = before;
                  rest = rest;
                  in_turn = e;
                  now = now;
                  reached = reached;
                  fetched = fetched;
                  was_fetched = same;
                  after = after;
                  series = series;
                  has_series = some_e;
                  is_forecast = is_forecast;
                })
                h)
        ]

    process-snoc :
        (before : List ResourceMetric) (r : ResourceMetric) (first now : Progress F T E)
        → process no_time forecaster na by_resource before first ≡ some now
        → process no_time forecaster na by_resource (before ++ (r ∷ [])) first
          ≡ (do next ← process_found no_time forecaster na r (lookup r by_resource) now; some next)
    unfolding process
    process-snoc [] r first now e =
        let same : first ≡ now = ground (arith, e) in
        ap
          (λ n.
            process_found no_time forecaster na r (lookup r by_resource) n >>= λ next. some next)
          same
    process-snoc (x ∷ before) r first now e =
        elim (Option-cases (process_found no_time forecaster na x (lookup x by_resource) first)) [
          | inl nothing ↦
              let bad : ◌≡◌ {A = Option (Progress F T E)} none (some now) = rw nothing at e in cc
          | inr (next, some_e) ↦ rw some_e (process-snoc before r next now (rw some_e at e))
        ]

    process_rest-AllBacked :
        (left before : List ResourceMetric) (now : Progress F T E)
        → resources ≡ before ++ left
        → process no_time forecaster na by_resource before begin ≡ some now
        → All Backed now.forecasts
        → AllBacked (process no_time forecaster na by_resource left now)
    unfolding process
    process_rest-AllBacked [] before now e reached h = h
    process_rest-AllBacked (r ∷ left) before now e reached h =
        let found = lookup r by_resource in
        let step = process_found-AllBacked r found now before left e reached refl h in
        elim (Option-cases (process_found no_time forecaster na r found now)) [
          | inl nothing ↦ rw nothing tt
          | inr (next, some_e) ↦
              let backed : AllBacked (some next) = rw some_e at step in
              let further : process no_time forecaster na by_resource (before ++ (r ∷ [])) begin
                  ≡ some next =
                process-snoc before r begin now reached ∙ rw some_e refl in
              rw some_e (
                process_rest-AllBacked left (before ++ (r ∷ [])) next
                  (e ∙ sym (append_assoc before (r ∷ []) left)) further backed)
        ]

    pub process-AllBacked :
        (done : Progress F T E)
        → process no_time forecaster na by_resource resources begin ≡ some done
        → begin.forecasts ≡ []
        → All Backed done.forecasts
    unfolding process
    process-AllBacked done e none_yet =
        subst AllBacked e (
          process_rest-AllBacked resources [] begin refl refl
            (subst (All Backed) (sym none_yet) tt))
