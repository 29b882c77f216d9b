-- ===== src/Controller/Reconcile/Requeue.antt =====
-- When a reconciliation asks for another, and how a deleted object goes.
use neural_autoscaler.Base.{
  ◌≡◌, refl, subst, ◌≢◌, ◌⊎◌, inl, inr, String, true, false, Option, none, some,
}
use neural_autoscaler.Base.Int.{pos}
use neural_autoscaler.Base.Float.{Float64}
use neural_autoscaler.Api.Types.{NeuralAutoscaler, ResourceMetric}
use neural_autoscaler.Api.Quantity.{Quantity}
use neural_autoscaler.Metrics.History.{HistoryStore, delete_by_prefix, empty_series, store_get}
use neural_autoscaler.Metrics.Keys.{history_key, history_prefix, store_get-delete_by_prefix}
use neural_autoscaler.Resize.Peak.{nought}
use neural_autoscaler.Controller.History.{evict_history}
use neural_autoscaler.Controller.Predict.{Predictor}
use neural_autoscaler.Controller.Environment.{
  Reconciler, gotten, Environment, ReconcileError, Outcome, default_requeue_interval, evicted,
}
use neural_autoscaler.Controller.Reconcile.{reconcile, patched, Body, stop, first_error}
use neural_autoscaler.Controller.Reconcile.Calls.{
  Visit, NewFetcher, holding, IsTimedVisit, reconcile-calls,
}
use neural_autoscaler.Controller.Reconcile.Ends.{
  BodyEnd, stopped, completed, OutcomeEnd, ended_error, ended_evicted, ended_patched, reconcile-end,
}

module _ {F T Q W H E : Type 0} ⦃f : Float64 F⦄ ⦃q : Quantity Q⦄ (env : Environment F T Q W H E)
    (forecaster : Option (Predictor F T E)) (new_fetcher : NewFetcher F T W E) where
  abbrev Continues : Outcome F T W E → Type 0
  Continues out = (out.requeue_after ≡ default_requeue_interval) ⊎ (out.error ≢ none)

  first_error-kept :
      (e : Option (ReconcileError E)) (patch_error : Option E)
      → e ≢ none
      → first_error e patch_error ≢ none
  first_error-kept none patch_error h = absurd (h refl)
  first_error-kept (some e) patch_error h = λ same. cc

  patched-Continues :
      (w : W) (r : Reconciler F T W E) (na : NeuralAutoscaler T) (helper : H) (body : Body F T W E)
      → BodyEnd env w r na body
      → Continues (patched env helper body)
  unfolding patched
  patched-Continues w r na helper _ (stopped object requeue e (inl same)) = inl same
  patched-Continues w r na helper _ (stopped object requeue e (inr bad)) =
      inr (first_error-kept e _ bad)
  patched-Continues w r na helper _ (completed factory result done fetched e) = inl refl

  end-Continues :
      (w : W) (r : Reconciler F T W E) (na : NeuralAutoscaler T) (out : Outcome F T W E)
      → OutcomeEnd env w r (gotten na) out
      → na.terminating ≡ false
      → Continues out
  end-Continues w r na _ (ended_error _ e) live = inr (λ same. cc)
  end-Continues w r na _ (ended_evicted _ e) live = cc
  end-Continues w r na _ (ended_patched _ helper body _ h) live =
      patched-Continues w r na helper body h

  -- The loop does not stop: a reconciliation of an object that is not being deleted, by a controller with a
  -- history, ends, if what is fetched has a time for each value, and it ends with an error, which the
  -- work queue retries, or with another reconciliation asked for in 20 seconds.
  pub reconcile-continues :
      (store : HistoryStore F T) (v : Visit W) (na : NeuralAutoscaler T)
      → env.get v.world v.namespace v.name ≡ gotten na
      → na.terminating ≡ false
      → IsTimedVisit env new_fetcher v
      → (out : Outcome F T W E) × (reconcile env
            (holding forecaster new_fetcher store)
            v.world
            v.namespace
            v.name
          ≡ some out)
        × ((out.requeue_after ≡ pos 20000000000) ⊎ (out.error ≢ none))
  reconcile-continues store v na found live timed =
      let r = holding forecaster new_fetcher store in
      let (out, e, same) = reconcile-calls env forecaster new_fetcher store v timed in
      let ended : OutcomeEnd env v.world r (gotten na) out =
        subst (λ answer. OutcomeEnd env v.world r answer out) found
          (reconcile-end env v.world r v.namespace v.name out e) in
      (out, e, end-Continues v.world r na out ended live)

  -- A reconciliation of an object that is being deleted leaves the cluster as it is, returns no error and
  -- asks for no other. Of the controller it changes the history alone: no key of the object has
  -- samples any more.
  pub reconcile-deleted :
      (store : HistoryStore F T) (w : W) (namespace name : String) (na : NeuralAutoscaler T)
      → env.get w namespace name ≡ gotten na
      → na.terminating ≡ true
      → (after : HistoryStore F T) × (reconcile env
            (holding forecaster new_fetcher store)
            w
            namespace
            name
          ≡ some (stop env w (holding forecaster new_fetcher after) (pos 0) none))
        × ((resource : ResourceMetric)
            → store_get nought env.no_time after (history_key na.namespace na.name resource)
              ≡ empty_series)
  unfolding reconcile evicted evict_history
  reconcile-deleted store w namespace name na found gone_soon = (
    delete_by_prefix store (history_prefix na.namespace na.name),
    simp (found, gone_soon) refl,
    λ resource. store_get-delete_by_prefix nought env.no_time store na.namespace na.name resource,
  )
