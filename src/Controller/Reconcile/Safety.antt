-- ===== src/Controller/Reconcile/Safety.antt =====
-- What a reconciliation may do to the cluster and to the controller, however it ends.
use neural_autoscaler.Base.{◌≡◌, refl, ◌≢◌, ◌⊎◌, inl, inr, String, Option, none, some}
use neural_autoscaler.Base.Dict.{Dict}
use neural_autoscaler.Base.Float.{Float64}
use neural_autoscaler.Api.Types.{NeuralAutoscaler}
use neural_autoscaler.Api.Quantity.{Quantity}
use neural_autoscaler.Forecast.Types.{Response}
use neural_autoscaler.Metrics.Server.{FetchResult}
use neural_autoscaler.Controller.Process.Ready.{IsBacked}
use neural_autoscaler.Controller.Environment.{
  Factory, Reconciler, Gotten, Environment, ReconcileError, patch_failed, Outcome, nothing_logged,
  patch_object,
}
use neural_autoscaler.Controller.Reconcile.Status.{fetched_status, start}
use neural_autoscaler.Controller.Reconcile.{reconcile, patched, Body, first_error}
use neural_autoscaler.Controller.Reconcile.Ends.{
  IsFetched, fetched_object, fetched_resources, BodyEnd, stopped, completed, OutcomeEnd, ended_gone,
  ended_error, ended_evicted, ended_patched, reconcile-end,
}

-- Resizing is asked for, the metrics were fetched, and there is a forecast for a resource.
pub record IsGrounded {F T Q W H E : Type 0} ⦃f : Float64 F⦄ ⦃q : Quantity Q⦄
    (env : Environment F T Q W H E) (w : W) (r : Reconciler F T W E) (na : NeuralAutoscaler T)
    : Type 0 where
  pub resizing : na.spec.resize ≢ none
  pub factory : Factory F T W E
  pub result : FetchResult F T
  pub fetched : IsFetched w r na factory result
  pub entry : String × Response F
  pub backed :
      IsBacked env.no_time
        (fetched_object env w na result)
        r.forecaster
        result.by_resource
        (fetched_resources env w na result)
        (start factory.history (fetched_status env w result na.status))
        entry

module _ {F T Q W H E : Type 0} ⦃f : Float64 F⦄ ⦃q : Quantity Q⦄
    (env : Environment F T Q W H E) where
  -- The cluster is as it was, but for one patch of a custom resource.
  abbrev pub OnlyPatched : W → W → Type 0
  OnlyPatched w after =
      (after ≡ w)
      ⊎ ((helper : H) × (object : NeuralAutoscaler T) × (after ≡ (env.patch helper w object).0))

  abbrev PatchFailed : Option (ReconcileError E) → Type 0
  PatchFailed e = (reason : E) × (e ≡ some (patch_failed reason))

  abbrev FailsClean : W → Reconciler F T W E → Outcome F T W E → Type 0
  FailsClean w r out =
      PatchFailed out.error
      ⊎ ((out.reconciler ≡ r) × (out.logged ≡ nothing_logged) × OnlyPatched w out.world)

  first_error-PatchFailed :
      (patch_error : Option E)
      → first_error none patch_error ≢ none
      → PatchFailed (first_error none patch_error)
  first_error-PatchFailed none h = absurd (h refl)
  first_error-PatchFailed (some e) h = (e, refl)

  patched-FailsClean :
      (w : W) (r : Reconciler F T W E) (na : NeuralAutoscaler T) (helper : H) (body : Body F T W E)
      → BodyEnd env w r na body
      → (patched env helper body).error ≢ none
      → FailsClean w r (patched env helper body)
  unfolding patched patch_object
  patched-FailsClean w r na helper _ (stopped object requeue e h) bad =
      inr (refl, refl, inr (helper, object, refl))
  patched-FailsClean w r na helper _ (completed factory result done fetched e) bad =
      inl (first_error-PatchFailed _ bad)

  end-FailsClean :
      (w : W) (r : Reconciler F T W E) (answer : Gotten T E) (out : Outcome F T W E)
      → OutcomeEnd env w r answer out
      → out.error ≢ none
      → FailsClean w r out
  end-FailsClean w r _ _ ended_gone bad = absurd (bad refl)
  end-FailsClean w r _ _ (ended_error answer e) bad = inr (refl, refl, inl refl)
  end-FailsClean w r _ _ (ended_evicted na e) bad = absurd (bad refl)
  end-FailsClean w r _ _ (ended_patched na helper body live h) bad =
      patched-FailsClean w r na helper body h bad

  -- If a reconciliation returns an error, and it is not that of the last patch, then the controller with its
  -- history is as before, no pod was resized, and the cluster is as before but for at most one
  -- patch of a custom resource.
  pub reconcile-error :
      (w : W) (r : Reconciler F T W E) (namespace name : String) (out : Outcome F T W E)
      → reconcile env r w namespace name ≡ some out
      → out.error ≢ none
      → ((reason : E) × (out.error ≡ some (patch_failed reason)))
        ⊎ ((out.reconciler ≡ r) × (out.logged ≡ nothing_logged) × OnlyPatched w out.world)
  reconcile-error w r namespace name out e bad =
      end-FailsClean w r (env.get w namespace name) out (reconcile-end env w r namespace name out e)
        bad
