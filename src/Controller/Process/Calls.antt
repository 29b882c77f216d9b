-- ===== src/Controller/Process/Calls.antt =====
-- What the loop does to the history: one sample for each resource that was fetched.
use neural_autoscaler.Base.{
  ◌≡◌, refl, ◌≢◌, inl, inr, String, ◌==◌, Option, none, some, List, [], ◌∷◌, ◌++◌, Bool-cases,
  Option-cases, last_or, length, ltb,
}
use neural_autoscaler.Base.Dict.{Dict, lookup}
use neural_autoscaler.Base.Float.{Float64}
use neural_autoscaler.Api.Types.{
  ResourceMetric, NeuralAutoscaler, ForecastSpec, metrics_source_metrics_server,
}
use neural_autoscaler.Base.Result.{Result, ok, err}
use neural_autoscaler.Forecast.Types.{Response}
use neural_autoscaler.Metrics.History.{
  min_forecast_samples, Series, HistoryStore, append_latest, store_append, store_get, delete,
  delete_by_prefix,
}
use neural_autoscaler.Metrics.History.Store.{Call, sample, drop_key, drop_prefix, run}
use neural_autoscaler.Metrics.Keys.{history_key}
use neural_autoscaler.Resize.Peak.{nought}
use neural_autoscaler.Controller.History.{accumulate_history, append_history_sample}
use neural_autoscaler.Controller.Predict.{Predictor, run_forecast}
use neural_autoscaler.Controller.Process.{
  Progress, forecast_series, predicted, with_outcome, process_series, process_found, process,
}

module _ {V T : Type 0} where
  -- The call of the store for the last sample of a series, if it has one.
  abbrev latest_call : String → List V → List T → List (Call V T)
  latest_call key [] times = []
  latest_call key (v ∷ values) [] = []
  latest_call key (v ∷ values) (t ∷ times) = sample key (last_or values v) (last_or times t) ∷ []

  abbrev call_for : String → Option (Series V T) → List (Call V T)
  call_for key none = []
  call_for key (some series) = latest_call key series.values series.timestamps

  -- A series with values has times.
  abbrev pub IsTimed : Option (Series V T) → Type 0
  IsTimed none = Unit
  IsTimed (some series) = series.values ≢ [] → series.timestamps ≢ []

  abbrev pub AllTimed : Dict (Series V T) → List ResourceMetric → Type 0
  AllTimed by_resource [] = Unit
  AllTimed by_resource (r ∷ resources) =
      IsTimed (lookup r by_resource) × AllTimed by_resource resources

  abbrev pub calls_for :
      (namespace name : String) → Dict (Series V T) → List ResourceMetric → List (Call V T)
  calls_for namespace name by_resource [] = []
  calls_for namespace name by_resource (r ∷ resources) =
      call_for (history_key namespace name r) (lookup r by_resource)
      ++ calls_for namespace name by_resource resources

module _ {V T : Type 0} (no_value : V) (no_time : T) where
  pub run-append :
      (first more : List (Call V T)) (store : HistoryStore V T)
      → run no_value no_time store (first ++ more)
        ≡ run no_value no_time (run no_value no_time store first) more
  run-append [] more store = refl
  run-append (sample k v t ∷ first) more store =
      run-append first more (store_append no_value no_time store k v t)
  run-append (drop_key k ∷ first) more store =
      run-append first more (delete no_value no_time store k)
  run-append (drop_prefix p ∷ first) more store = run-append first more (delete_by_prefix store p)

  append_latest-run :
      (store : HistoryStore V T) (key : String) (values : List V) (times : List T)
      → IsTimed (some (record { values = values; timestamps = times }))
      → append_latest no_value no_time store key (record { values = values; timestamps = times })
        ≡ some (run no_value no_time store (latest_call key values times))
  unfolding append_latest
  append_latest-run store key [] times h = refl
  append_latest-run store key (v ∷ values) [] h = absurd (h (λ e. cc) refl)
  append_latest-run store key (v ∷ values) (t ∷ times) h = refl

  append_history_sample-run :
      (store : HistoryStore V T) (key : String) (series : Series V T)
      → IsTimed (some series)
      → append_history_sample no_value no_time (some store) key series
        ≡ some (some (run no_value no_time store (call_for key (some series))))
  unfolding append_history_sample
  append_history_sample-run store key series h =
      rw (append_latest-run store key series.values series.timestamps h) refl

  accumulate_history-run :
      (store : HistoryStore V T) (key : String) (values : List V) (times : List T)
      → IsTimed (some (record { values = values; timestamps = times }))
      → (found : Series V T) × (accumulate_history no_value no_time
            (some store)
            key
            (record { values = values; timestamps = times })
          ≡ some (some (run no_value no_time store (latest_call key values times)), found))
  unfolding accumulate_history
  accumulate_history-run store key [] times h = (record { values = []; timestamps = times }, refl)
  accumulate_history-run store key (v ∷ values) times h =
      let after = run no_value no_time store (latest_call key (v ∷ values) times) in
      (
        store_get no_value no_time after key,
        rw (append_latest-run store key (v ∷ values) times h) refl,
      )

module _ {F T : Type 0} ⦃f : Float64 F⦄ (no_time : T) where
  forecast_series-run :
      (source : String) (store : HistoryStore F T) (key : String) (series : Series F T)
      → IsTimed (some series)
      → (found : Series F T) × (forecast_series no_time source (some store) key series
          ≡ some (some (run nought no_time store (call_for key (some series))), found))
  forecast_series-run source store key series h =
      elim (Bool-cases (source == metrics_source_metrics_server)) [
        | inl e ↦
            rw e (accumulate_history-run nought no_time store key series.values series.timestamps h)
        | inr e ↦
            (series, rw e (rw (append_history_sample-run nought no_time store key series h) refl))
      ]

module _ {F T E : Type 0} ⦃f : Float64 F⦄ where
  history-with_outcome :
      (r : ResourceMetric) (resp : Result E (Response F)) (now : Progress F T E)
      → (with_outcome r resp now).history ≡ now.history
  history-with_outcome r (ok resp) now = refl
  history-with_outcome r (err e) now = refl

  history-predicted :
      (p : Option (Predictor F T E)) (spec : Option ForecastSpec) (key : String)
      (r : ResourceMetric) (series : Series F T) (now : Progress F T E)
      → (predicted p spec key r series now).history ≡ now.history
  history-predicted none spec key r series now = refl
  history-predicted (some p) none key r series now = refl
  history-predicted (some p) (some spec) key r series now =
      elim (Bool-cases (ltb (length series.values) min_forecast_samples)) [
        | inl e ↦ rw e refl
        | inr e ↦ rw e (history-with_outcome r (run_forecast p spec key series) now)
      ]

module _ {F T E : Type 0} ⦃f : Float64 F⦄ (no_time : T) where
  abbrev HasHistory : HistoryStore F T → Option (Progress F T E) → Type 0
  HasHistory store none = ⊥
  HasHistory store (some done) = done.history ≡ some store

  process_series-run :
      (p : Option (Predictor F T E)) (na : NeuralAutoscaler T) (r : ResourceMetric)
      (series : Series F T) (now : Progress F T E) (store : HistoryStore F T)
      → now.history ≡ some store
      → IsTimed (some series)
      → let key = history_key na.namespace na.name r in
        HasHistory
          (run nought no_time store (call_for key (some series)))
          (process_series no_time p na r series now)
  unfolding process_series
  process_series-run p na r series now store e h =
      let key = history_key na.namespace na.name r in
      let (found, same) =
        forecast_series-run no_time na.spec.metrics.source_type store key series h in
      rw e (rw same (history-predicted p na.spec.forecast key r found _))

  process_found-run :
      (p : Option (Predictor F T E)) (na : NeuralAutoscaler T) (r : ResourceMetric)
      (series : Option (Series F T)) (now : Progress F T E) (store : HistoryStore F T)
      → now.history ≡ some store
      → IsTimed series
      → let key = history_key na.namespace na.name r in
        HasHistory
          (run nought no_time store (call_for key series))
          (process_found no_time p na r series now)
  process_found-run p na r none now store e h = e
  process_found-run p na r (some series) now store e h =
      process_series-run p na r series now store e h

  process-HasHistory :
      (p : Option (Predictor F T E)) (na : NeuralAutoscaler T) (by_resource : Dict (Series F T))
      (resources : List ResourceMetric) (now : Progress F T E) (store : HistoryStore F T)
      → now.history ≡ some store
      → AllTimed by_resource resources
      → HasHistory
          (run nought no_time store (calls_for na.namespace na.name by_resource resources))
          (process no_time p na by_resource resources now)
  unfolding process
  process-HasHistory p na by_resource [] now store e h = e
  process-HasHistory p na by_resource (r ∷ resources) now store e (timed, h) =
      let key = history_key na.namespace na.name r in
      let found = lookup r by_resource in
      let step = process_found-run p na r found now store e timed in
      let calls = call_for key found in
      rw
        (run-append nought no_time calls (calls_for na.namespace na.name by_resource resources)
          store)
        (elim (Option-cases (process_found no_time p na r found now)) [
          | inl none_e ↦ absurd (rw none_e at step)
          | inr (next, some_e) ↦
              let has : HasHistory (run nought no_time store calls) (some next) =
                rw some_e at step in
              rw some_e (
                process-HasHistory p na by_resource resources next (run nought no_time store calls)
                  has h)
        ])

  -- The loop of `Reconcile` over resources whose fetched series have a time if they have a value does
  -- not panic. What it does to the history is one `Append` of the last sample of each of those series
  -- that has one, in the order of the resources, for either source of metrics.
  pub process-run :
      (p : Option (Predictor F T E)) (na : NeuralAutoscaler T) (by_resource : Dict (Series F T))
      (resources : List ResourceMetric) (now : Progress F T E) (store : HistoryStore F T)
      → now.history ≡ some store
      → AllTimed by_resource resources
      → (done : Progress F T E) × (process no_time p na by_resource resources now ≡ some done)
        × (done.history
            ≡ some
                (run nought no_time store (calls_for na.namespace na.name by_resource resources)))
  process-run p na by_resource resources now store e h =
      let has = process-HasHistory p na by_resource resources now store e h in
      elim (Option-cases (process no_time p na by_resource resources now)) [
        | inl none_e ↦ absurd (rw none_e at has)
        | inr (done, some_e) ↦
            let same : HasHistory
                (run nought no_time store (calls_for na.namespace na.name by_resource resources))
                (some done) =
              rw some_e at has in
            (done, some_e, same)
      ]
