-- ===== src/Controller/Reconcile/Visits.antt =====
-- Reconciliations one after the other. The cluster may change in any way between two of them, so each
-- has a world of its own.
use neural_autoscaler.Base.{◌≡◌, refl, sym, ap, ◌∙◌, All, String, Option, some, List, [], ◌∷◌, ◌++◌}
use neural_autoscaler.Base.Int.{ℤ}
use neural_autoscaler.Base.Float.{Float64}
use neural_autoscaler.Api.Quantity.{Quantity}
use neural_autoscaler.Metrics.History.{
  HistoryStore, or_default, empty_series, new_history_store, store_get,
}
use neural_autoscaler.Metrics.History.Store.{Call, run, recorded, last_samples, store_get-run}
use neural_autoscaler.Resize.Peak.{nought}
use neural_autoscaler.Controller.History.{◌>>=◌}
use neural_autoscaler.Controller.Predict.{Predictor}
use neural_autoscaler.Controller.Process.Calls.{run-append}
use neural_autoscaler.Controller.Environment.{Reconciler, Environment}
use neural_autoscaler.Controller.Reconcile.{reconcile}
use neural_autoscaler.Controller.Reconcile.Calls.{
  Visit, NewFetcher, holding, visit_calls, IsTimedVisit, after_calls, reconcile-calls,
}

module _ {F T Q W H E : Type 0} ⦃f : Float64 F⦄ ⦃q : Quantity Q⦄ (env : Environment F T Q W H E)
    (forecaster : Option (Predictor F T E)) (new_fetcher : NewFetcher F T W E) where
  abbrev pub reconcile_all : Reconciler F T W E → List (Visit W) → Option (Reconciler F T W E)
  reconcile_all r [] = some r
  reconcile_all r (v ∷ visits) = do
    out ← reconcile env r v.world v.namespace v.name
    reconcile_all out.reconciler visits

  abbrev pub all_calls : List (Visit W) → List (Call F T)
  all_calls [] = []
  all_calls (v ∷ visits) = visit_calls env new_fetcher v ++ all_calls visits

  reconcile_all-calls :
      (visits : List (Visit W)) (store : HistoryStore F T)
      → All (IsTimedVisit env new_fetcher) visits
      → reconcile_all (holding forecaster new_fetcher store) visits
        ≡ some (after_calls env forecaster new_fetcher store (all_calls visits))
  reconcile_all-calls [] store timed = refl
  reconcile_all-calls (v ∷ visits) store (timed, rest) =
      let (out, e, same) = reconcile-calls env forecaster new_fetcher store v timed in
      let calls = visit_calls env new_fetcher v in
      rw e (
        rw same (
          reconcile_all-calls visits (run nought env.no_time store calls) rest
          ∙ ap (λ s. some (holding forecaster new_fetcher s))
              (sym (run-append nought env.no_time calls (all_calls visits) store))))

  -- After any number of reconciliations, of any objects in any changing cluster, by a controller that starts
  -- with an empty history, if what is fetched has a time for each value: none of them panics. Of
  -- the latest samples of the series that were fetched for a key after the last reconciliation that
  -- found the key's object in deletion, the history holds the last ones, oldest first, as many as the
  -- capacity lets stand.
  pub reconcile_all-history :
      (capacity : ℤ) (k : String) (visits : List (Visit W))
      → All (IsTimedVisit env new_fetcher) visits
      → (store : HistoryStore F T) × (reconcile_all
            (holding forecaster new_fetcher (new_history_store nought env.no_time capacity))
            visits
          ≡ some (holding forecaster new_fetcher store))
        × (store_get nought env.no_time store k
            ≡ last_samples (or_default capacity) (recorded k empty_series (all_calls visits)))
  reconcile_all-history capacity k visits timed =
      let new = new_history_store nought env.no_time capacity in
      (
        run nought env.no_time new (all_calls visits),
        reconcile_all-calls visits new timed,
        (store_get-run nought env.no_time capacity k (all_calls visits)).0,
      )
