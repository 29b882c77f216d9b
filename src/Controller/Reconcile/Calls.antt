-- ===== src/Controller/Reconcile/Calls.antt =====
-- One reconciliation as calls of the history.
use neural_autoscaler.Base.{
  ◌≡◌, refl, inl, inr, String, Option, none, some, List, [], ◌∷◌, Bool-cases, Option-cases,
  if◌then◌else◌,
}
use neural_autoscaler.Base.Float.{Float64}
use neural_autoscaler.Base.Result.{Result, ok, err, wrap_err, Result-cases}
use neural_autoscaler.Api.Types.{MetricsSourceSpec, NeuralAutoscaler, ResourceMetric}
use neural_autoscaler.Api.Quantity.{Quantity}
use neural_autoscaler.Metrics.History.{HistoryStore}
use neural_autoscaler.Metrics.History.Store.{Call, drop_prefix, run}
use neural_autoscaler.Metrics.Keys.{history_prefix}
use neural_autoscaler.Metrics.Server.{FetchResult}
use neural_autoscaler.Resize.Peak.{nought}
use neural_autoscaler.Controller.Choice.{resources_to_process}
use neural_autoscaler.Controller.History.{◌>>=◌, evict_history}
use neural_autoscaler.Controller.Predict.{Predictor}
use neural_autoscaler.Controller.Process.Calls.{AllTimed, calls_for, process-run}
use neural_autoscaler.Controller.Environment.{
  Factory, Reconciler, Gotten, gotten, gone, unreadable, Environment, Outcome, with_status,
  new_default_scope, evicted, no_patch_helper,
}
use neural_autoscaler.Controller.Reconcile.Status.{fetched_status, start}
use neural_autoscaler.Controller.Reconcile.{
  reconcile_fetched, reconcile_source, reconcile_scoped, reconcile_live, reconcile_gotten,
  reconcile, patched, Body,
}

-- A reconciliation of a name in a world.
pub record Visit (W : Type 0) : Type 0 where
  pub world : W
  pub namespace : String
  pub name : String

abbrev pub NewFetcher : (F T W E : Type 0) → Type 0
NewFetcher F T W E = MetricsSourceSpec → String → Result E (W → Result E (FetchResult F T))

-- A controller with a factory that has a history.
abbrev pub holding :
    {F T W E : Type 0}
    → Option (Predictor F T E)
    → NewFetcher F T W E
    → HistoryStore F T
    → Reconciler F T W E
holding forecaster new_fetcher store = record {
  factory = some (record { new_fetcher = new_fetcher; history = some store });
  forecaster = forecaster;
}

module _ {F T Q W H E : Type 0} (env : Environment F T Q W H E)
    (new_fetcher : NewFetcher F T W E) where
  abbrev pub answer_of :
      W → Result E H → Result E (W → Result E (FetchResult F T)) → Option (FetchResult F T)
  answer_of w (err e) source = none
  answer_of w (ok helper) (err e) = none
  answer_of w (ok helper) (ok fetch) = elim (fetch w) [ err e ↦ none | ok result ↦ some result ]

  abbrev fetched_by : W → NeuralAutoscaler T → Option (FetchResult F T)
  fetched_by w na = answer_of w (env.new_helper na) (new_fetcher na.spec.metrics na.namespace)

  abbrev resources_of : NeuralAutoscaler T → FetchResult F T → List ResourceMetric
  resources_of na result =
      resources_to_process env.sort_resources na.spec.metrics result.by_resource

  -- The calls of the history for what was fetched.
  abbrev fetched_calls : NeuralAutoscaler T → Option (FetchResult F T) → List (Call F T)
  fetched_calls na none = []
  fetched_calls na (some result) =
      calls_for na.namespace na.name result.by_resource (resources_of na result)

  abbrev gotten_calls : W → Gotten T E → List (Call F T)
  gotten_calls w gone = []
  gotten_calls w (unreadable e) = []
  gotten_calls w (gotten na) =
      if na.terminating
      then drop_prefix (history_prefix na.namespace na.name) ∷ []
      else fetched_calls na (fetched_by w na)

  abbrev pub visit_calls : Visit W → List (Call F T)
  visit_calls v = gotten_calls v.world (env.get v.world v.namespace v.name)

  -- Every series that a fetch yields has a time if it has a value.
  abbrev pub IsTimedFetch : NeuralAutoscaler T → Option (FetchResult F T) → Type 0
  IsTimedFetch na none = Unit
  IsTimedFetch na (some result) = AllTimed result.by_resource (resources_of na result)

  abbrev pub IsTimedGet : W → Gotten T E → Type 0
  IsTimedGet w gone = Unit
  IsTimedGet w (unreadable e) = Unit
  IsTimedGet w (gotten na) = IsTimedFetch na (fetched_by w na)

  abbrev pub IsTimedVisit : Visit W → Type 0
  IsTimedVisit v = IsTimedGet v.world (env.get v.world v.namespace v.name)

module _ {F T Q W H E : Type 0} ⦃f : Float64 F⦄ ⦃q : Quantity Q⦄ (env : Environment F T Q W H E)
    (forecaster : Option (Predictor F T E)) (new_fetcher : NewFetcher F T W E) where
  abbrev pub after_calls : HistoryStore F T → List (Call F T) → Reconciler F T W E
  after_calls store calls = holding forecaster new_fetcher (run nought env.no_time store calls)

  abbrev BodyHolds : Reconciler F T W E → Option (Body F T W E) → Type 0
  BodyHolds r none = ⊥
  BodyHolds r (some body) = body.outcome.reconciler ≡ r

  abbrev OutcomeHolds : Reconciler F T W E → Option (Outcome F T W E) → Type 0
  OutcomeHolds r none = ⊥
  OutcomeHolds r (some out) = out.reconciler ≡ r

  reconcile_fetched-holds :
      (w : W) (na : NeuralAutoscaler T) (store : HistoryStore F T) (result : FetchResult F T)
      → AllTimed result.by_resource (resources_of env new_fetcher na result)
      → BodyHolds
          (after_calls store (
            calls_for na.namespace na.name result.by_resource
              (resources_of env new_fetcher na result)))
          (reconcile_fetched env w na
            (holding forecaster new_fetcher store)
            (record { new_fetcher = new_fetcher; history = some store })
            (ok result))
  unfolding reconcile_fetched
  reconcile_fetched-holds w na store result timed =
      let now = with_status env na (fetched_status env w result na.status) in
      let resources = resources_of env new_fetcher na result in
      let (done, e, same) =
        process-run env.no_time forecaster now result.by_resource resources
          (start (some store) now.status) store refl timed in
      rw e (rw same refl)

  abbrev factory_of : HistoryStore F T → Factory F T W E
  factory_of store = record { new_fetcher = new_fetcher; history = some store }

  reconcile_source-holds :
      (w : W) (na : NeuralAutoscaler T) (store : HistoryStore F T) (helper : H)
      (source : Result E (W → Result E (FetchResult F T)))
      → let answer = answer_of env new_fetcher w (ok helper) source in
        IsTimedFetch env new_fetcher na answer
        → BodyHolds (after_calls store (fetched_calls env new_fetcher na answer)) (
            reconcile_source env w na
              (holding forecaster new_fetcher store)
              (factory_of store)
              source)
  unfolding reconcile_source reconcile_fetched
  reconcile_source-holds w na store helper (err e) timed = refl
  reconcile_source-holds w na store helper (ok fetch) timed = elim (Result-cases (fetch w)) [
    | inl (e, failed) ↦ rw failed refl
    | inr (result, done) ↦
        let timed' : IsTimedFetch env new_fetcher na (some result) = rw done at timed in
        rw done (reconcile_fetched-holds w na store result timed')
  ]

  patched-holds :
      (r : Reconciler F T W E) (helper : H) (body : Option (Body F T W E))
      → BodyHolds r body
      → OutcomeHolds r (do done ← body; some (patched env helper done))
  unfolding patched
  patched-holds r helper none h = h
  patched-holds r helper (some body) h = h

  reconcile_live-holds :
      (w : W) (na : NeuralAutoscaler T) (store : HistoryStore F T) (made : Result E H)
      → let source = new_fetcher na.spec.metrics na.namespace in
        let answer = answer_of env new_fetcher w made source in
        IsTimedFetch env new_fetcher na answer
        → OutcomeHolds (after_calls store (fetched_calls env new_fetcher na answer)) (
            reconcile_live env w na
              (holding forecaster new_fetcher store)
              (wrap_err no_patch_helper made))
  unfolding reconcile_scoped
  reconcile_live-holds w na store (err e) timed = refl
  reconcile_live-holds w na store (ok helper) timed =
      patched-holds _ helper _
        (reconcile_source-holds w na store helper (new_fetcher na.spec.metrics na.namespace) timed)

  reconcile_gotten-holds :
      (w : W) (store : HistoryStore F T) (answer : Gotten T E)
      → IsTimedGet env new_fetcher w answer
      → OutcomeHolds
          (after_calls store (gotten_calls env new_fetcher w answer))
          (reconcile_gotten env w (holding forecaster new_fetcher store) answer)
  unfolding evicted evict_history new_default_scope
  reconcile_gotten-holds w store gone timed = refl
  reconcile_gotten-holds w store (unreadable e) timed = refl
  reconcile_gotten-holds w store (gotten na) timed = elim (Bool-cases na.terminating) [
    | inl e ↦ rw e refl
    | inr e ↦ simp e (reconcile_live-holds w na store (env.new_helper na) timed)
  ]

  -- A reconciliation of a controller with a history does not panic if what it fetches has a time for each
  -- value. It leaves the controller as it was but for the history, which is as after the calls that
  -- stand for the reconciliation: the eviction of an object that is being deleted, one sample for
  -- each fetched series of a live one, and nothing after a failure before the metrics are there.
  pub reconcile-calls :
      (store : HistoryStore F T) (v : Visit W)
      → IsTimedVisit env new_fetcher v
      → (out : Outcome F T W E) × (reconcile env
            (holding forecaster new_fetcher store)
            v.world
            v.namespace
            v.name
          ≡ some out)
        × (out.reconciler
            ≡ holding forecaster new_fetcher
                (run nought env.no_time store (visit_calls env new_fetcher v)))
  unfolding reconcile
  reconcile-calls store v timed =
      let answer = env.get v.world v.namespace v.name in
      let holds = reconcile_gotten-holds v.world store answer timed in
      let ended = reconcile_gotten env v.world (holding forecaster new_fetcher store) answer in
      elim (Option-cases ended) [
        | inl e ↦ absurd (rw e at holds)
        | inr (out, e) ↦
            let same : OutcomeHolds (after_calls store (visit_calls env new_fetcher v)) (some out) =
              rw e at holds in
            (out, e, same)
      ]
