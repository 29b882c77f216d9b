-- ===== src/Controller/Reconcile/Ends.antt =====
-- The ways in which a reconciliation ends, as a step relation, and that there are no others.
use neural_autoscaler.Base.{
  ◌≡◌, refl, subst, ◌≢◌, ◌⊎◌, inl, inr, String, true, false, Option, none, some, List, Bool-cases,
  Option-cases,
}
use neural_autoscaler.Base.Int.{ℤ, pos}
use neural_autoscaler.Base.Float.{Float64}
use neural_autoscaler.Base.Result.{Result, ok, err}
use neural_autoscaler.Api.Types.{NeuralAutoscaler, ResourceMetric}
use neural_autoscaler.Api.Quantity.{Quantity}
use neural_autoscaler.Metrics.Server.{FetchResult}
use neural_autoscaler.Controller.Choice.{resources_to_process}
use neural_autoscaler.Controller.History.{◌>>=◌}
use neural_autoscaler.Controller.Process.{Progress, process}
use neural_autoscaler.Controller.Environment.{
  Factory, Reconciler, Gotten, gotten, gone, unreadable, Environment, ReconcileError, Outcome,
  default_requeue_interval, with_status, new_default_scope, evicted, object_unreadable,
  fetch_failed, invalid_source,
}
use neural_autoscaler.Controller.Reconcile.Status.{fetched_status, start}
use neural_autoscaler.Controller.Reconcile.{
  reconcile_fetched, reconcile_source, reconcile_scoped, reconcile_live, reconcile_gotten,
  reconcile, patched, Body, processed, stop,
}

-- A step of an optional result: a panic satisfies nothing and is no step.
abbrev pub Each {ℓ} : {A : Type ℓ} → (A → Type ℓ) → Option A → Type ℓ
Each P none = Unit
Each P (some a) = P a

Each-some {ℓ} : {A : Type ℓ} (P : A → Type ℓ) (o : Option A) (a : A) → o ≡ some a → Each P o → P a
Each-some P o a e h = subst (Each P) e h

-- What the factory of a controller fetches for an object.
pub record IsFetched {F T W E : Type 0} (w : W) (r : Reconciler F T W E) (na : NeuralAutoscaler T)
    (factory : Factory F T W E) (result : FetchResult F T) : Type 0 where
  pub has_factory : r.factory ≡ some factory
  pub fetch : W → Result E (FetchResult F T)
  pub has_fetcher : factory.new_fetcher na.spec.metrics na.namespace ≡ ok fetch
  pub fetches : fetch w ≡ ok result

module _ {F T Q W H E : Type 0} ⦃f : Float64 F⦄ (env : Environment F T Q W H E) (w : W) where
  -- The object and the resources that the loop of `Reconcile` starts with.
  abbrev pub fetched_object : NeuralAutoscaler T → FetchResult F T → NeuralAutoscaler T
  fetched_object na result = with_status env na (fetched_status env w result na.status)

  abbrev pub fetched_resources : NeuralAutoscaler T → FetchResult F T → List ResourceMetric
  fetched_resources na result =
      resources_to_process env.sort_resources na.spec.metrics result.by_resource

module _ {F T Q W H E : Type 0} ⦃f : Float64 F⦄ ⦃q : Quantity Q⦄ (env : Environment F T Q W H E)
    (w : W) (r : Reconciler F T W E) where
  -- The returns of a live object before the deferred patch.
  pub data BodyEnd (na : NeuralAutoscaler T) : Body F T W E → Type 0 where
    stopped :
        (object : NeuralAutoscaler T) (requeue : ℤ) (e : Option (ReconcileError E))
        → (requeue ≡ default_requeue_interval) ⊎ (e ≢ none)
        → BodyEnd na (record { object = object; outcome = stop env w r requeue e })
    completed :
        (factory : Factory F T W E) (result : FetchResult F T) (done : Progress F T E)
        → IsFetched w r na factory result
        → process env.no_time r.forecaster
            (fetched_object env w na result)
            result.by_resource
            (fetched_resources env w na result)
            (start factory.history (fetched_status env w result na.status))
          ≡ some done
        → BodyEnd na (
            processed env w
              (fetched_object env w na result)
              r
              factory
              result
              (fetched_resources env w na result)
              done)

  pub data OutcomeEnd : Gotten T E → Outcome F T W E → Type 0 where
    ended_gone : OutcomeEnd gone (stop env w r (pos 0) none)
    ended_error :
        (answer : Gotten T E) (e : ReconcileError E)
        → OutcomeEnd answer (stop env w r (pos 0) (some e))
    ended_evicted :
        (na : NeuralAutoscaler T)
        → na.terminating ≡ true
        → OutcomeEnd
            (gotten na)
            (stop env w (evicted r r.factory na.namespace na.name) (pos 0) none)
    ended_patched :
        (na : NeuralAutoscaler T) (helper : H) (body : Body F T W E)
        → na.terminating ≡ false
        → BodyEnd na body
        → OutcomeEnd (gotten na) (patched env helper body)

  reconcile_fetched-end :
      (na : NeuralAutoscaler T) (factory : Factory F T W E) (fetch : W → Result E (FetchResult F T))
      (answer : Result E (FetchResult F T))
      → r.factory ≡ some factory
      → factory.new_fetcher na.spec.metrics na.namespace ≡ ok fetch
      → fetch w ≡ answer
      → Each (BodyEnd na) (reconcile_fetched env w na r factory answer)
  unfolding reconcile_fetched
  reconcile_fetched-end na factory fetch (err e) has_factory has_fetcher fetches =
      stopped _ (pos 0) (some (fetch_failed e)) (inr (λ h. cc))
  reconcile_fetched-end na factory fetch (ok result) has_factory has_fetcher fetches =
      let begin = start factory.history (fetched_status env w result na.status) in
      elim (Option-cases (
        process env.no_time r.forecaster (fetched_object env w na result) result.by_resource
          (fetched_resources env w na result) begin)) [
            | inl e ↦ rw e tt
            | inr (done, e) ↦ rw e (
                completed factory result done
                  (record {
                    has_factory = has_factory;
                    fetch = fetch;
                    has_fetcher = has_fetcher;
                    fetches = fetches;
                  })
                  e)
          ]

  reconcile_source-end :
      (na : NeuralAutoscaler T) (factory : Factory F T W E)
      (source : Result E (W → Result E (FetchResult F T)))
      → r.factory ≡ some factory
      → factory.new_fetcher na.spec.metrics na.namespace ≡ source
      → Each (BodyEnd na) (reconcile_source env w na r factory source)
  unfolding reconcile_source
  reconcile_source-end na factory (err e) has_factory has_fetcher =
      stopped _ (pos 0) (some (invalid_source e)) (inr (λ h. cc))
  reconcile_source-end na factory (ok fetch) has_factory has_fetcher =
      reconcile_fetched-end na factory fetch (fetch w) has_factory has_fetcher refl

  reconcile_scoped-end :
      (na : NeuralAutoscaler T) (factory : Option (Factory F T W E))
      → r.factory ≡ factory
      → Each (BodyEnd na) (reconcile_scoped env w na r factory)
  unfolding reconcile_scoped
  reconcile_scoped-end na none e = stopped _ default_requeue_interval none (inl refl)
  reconcile_scoped-end na (some factory) e =
      reconcile_source-end na factory (factory.new_fetcher na.spec.metrics na.namespace) e refl

  patched-end :
      (na : NeuralAutoscaler T) (helper : H) (body : Option (Body F T W E))
      → na.terminating ≡ false
      → Each (BodyEnd na) body
      → Each (OutcomeEnd (gotten na)) (do done ← body; some (patched env helper done))
  patched-end na helper none live h = tt
  patched-end na helper (some body) live h = ended_patched na helper body live h

  reconcile_live-end :
      (na : NeuralAutoscaler T) (made : Result (ReconcileError E) H)
      → na.terminating ≡ false
      → Each (OutcomeEnd (gotten na)) (reconcile_live env w na r made)
  reconcile_live-end na (err e) live = ended_error (gotten na) e
  reconcile_live-end na (ok helper) live =
      patched-end na helper _ live (reconcile_scoped-end na r.factory refl)

  reconcile_gotten-end :
      (answer : Gotten T E) → Each (OutcomeEnd answer) (reconcile_gotten env w r answer)
  reconcile_gotten-end gone = ended_gone
  reconcile_gotten-end (unreadable e) = ended_error (unreadable e) (object_unreadable e)
  reconcile_gotten-end (gotten na) = elim (Bool-cases na.terminating) [
    | inl e ↦ simp e (ended_evicted na e)
    | inr e ↦ simp e (reconcile_live-end na (new_default_scope env na) e)
  ]

  pub reconcile-end :
      (namespace name : String) (out : Outcome F T W E)
      → reconcile env r w namespace name ≡ some out
      → OutcomeEnd (env.get w namespace name) out
  unfolding reconcile
  reconcile-end namespace name out e =
      Each-some (OutcomeEnd (env.get w namespace name)) _ out e
        (reconcile_gotten-end (env.get w namespace name))
