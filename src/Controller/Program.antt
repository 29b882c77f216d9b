-- ===== src/Controller/Program.antt =====
-- The controller with the program's own factory: every series that it fetches has times for its
-- values, so that the loop of `Reconcile` never panics.
use neural_autoscaler.Base.{
  ◌≡◌, refl, ◌≢◌, ◌⊎◌, inl, inr, String, false, ◌==◌, Option, none, some, List, [], ◌∷◌, length,
  All, Bool-cases, arith,
}
use neural_autoscaler.Base.Int.{pos}
use neural_autoscaler.Base.Dict.{Dict, lookup}
use neural_autoscaler.Base.Float.{Float64}
use neural_autoscaler.Base.Result.{Result, ok, err, Result-cases}
use neural_autoscaler.Api.Types.{ResourceMetric, NeuralAutoscaler}
use neural_autoscaler.Api.Quantity.{Quantity}
use neural_autoscaler.Metrics.History.{Series, HistoryStore}
use neural_autoscaler.Metrics.Prometheus.Aligned.{IsAligned, IsAlignedEntry}
use neural_autoscaler.Metrics.Factory.{Clients, FactoryError, new_fetcher}
use neural_autoscaler.Metrics.Factory.Timed.{new_fetcher-AreAligned}
use neural_autoscaler.Controller.Predict.{Predictor}
use neural_autoscaler.Controller.Process.Calls.{IsTimed, AllTimed}
use neural_autoscaler.Controller.Environment.{
  Gotten, gotten, gone, unreadable, Environment, Outcome,
}
use neural_autoscaler.Controller.Reconcile.{reconcile}
use neural_autoscaler.Controller.Reconcile.Calls.{
  Visit, holding, answer_of, IsTimedFetch, IsTimedGet,
}
use neural_autoscaler.Controller.Reconcile.Requeue.{reconcile-continues}

module _ {F T : Type 0} where
  nonempty_of_length :
      (values : List F) (times : List T) → length values ≡ length times → values ≢ [] → times ≢ []
  nonempty_of_length [] times h some_value = absurd (some_value refl)
  nonempty_of_length (v ∷ values) [] h some_value = omega (arith, h)
  nonempty_of_length (v ∷ values) (t ∷ times) h some_value = λ e. cc

  IsAligned-IsTimed : (series : Series F T) → IsAligned series → IsTimed (some series)
  IsAligned-IsTimed series h = nonempty_of_length series.values series.timestamps h

  lookup-IsTimed :
      (r : String) (m : Dict (Series F T)) → All IsAlignedEntry m → IsTimed (lookup r m)
  unfolding lookup
  lookup-IsTimed r [] h = tt
  lookup-IsTimed r ((k, series) ∷ m) (same, h) = elim (Bool-cases (k == r)) [
    | inl e ↦ rw e (IsAligned-IsTimed series same)
    | inr e ↦ rw e (lookup-IsTimed r m h)
  ]

  lookup-AllTimed :
      (m : Dict (Series F T)) (resources : List ResourceMetric)
      → All IsAlignedEntry m
      → AllTimed m resources
  lookup-AllTimed m [] h = tt
  lookup-AllTimed m (r ∷ resources) h = (lookup-IsTimed r m h, lookup-AllTimed m resources h)

module _ {F T Q W H L S P E : Type 0} ⦃f : Float64 F⦄ ⦃q : Quantity Q⦄
    (env : Environment F T Q W H (FactoryError E)) (clients : Clients F T Q W L S P E) where
  answer_of-IsTimed :
      (w : W) (na : NeuralAutoscaler T) (made : Result (FactoryError E) H)
      → IsTimedFetch env (new_fetcher clients) na (
          answer_of env
            (new_fetcher clients)
            w
            made
            (new_fetcher clients na.spec.metrics na.namespace))
  answer_of-IsTimed w na (err e) = tt
  answer_of-IsTimed w na (ok helper) =
      let source = new_fetcher clients na.spec.metrics na.namespace in
      elim (Result-cases source) [
        | inl (e, refused) ↦ simp refused tt
        | inr (fetcher, made) ↦ simp made (elim (Result-cases (fetcher w)) [
          | inl (e, failed) ↦ simp failed tt
          | inr (result, done) ↦ simp done (
              lookup-AllTimed result.by_resource _ (
                new_fetcher-AreAligned clients na.spec.metrics na.namespace fetcher w result made
                  done))
        ])
      ]

  IsTimedGet_lem :
      (w : W) (answer : Gotten T (FactoryError E)) → IsTimedGet env (new_fetcher clients) w answer
  IsTimedGet_lem w gone = tt
  IsTimedGet_lem w (unreadable e) = tt
  IsTimedGet_lem w (gotten na) = answer_of-IsTimed w na (env.new_helper na)

  -- The controller of the program does not stop: a reconciliation of an object that is not being deleted
  -- ends, with an error, which the work queue retries, or with another asked for in 20 seconds.
  pub program-continues :
      (forecaster : Option (Predictor F T (FactoryError E))) (store : HistoryStore F T)
      (v : Visit W) (na : NeuralAutoscaler T)
      → env.get v.world v.namespace v.name ≡ gotten na
      → na.terminating ≡ false
      → (out : Outcome F T W (FactoryError E)) × (reconcile env
            (holding forecaster (new_fetcher clients) store)
            v.world
            v.namespace
            v.name
          ≡ some out)
        × ((out.requeue_after ≡ pos 20000000000) ⊎ (out.error ≢ none))
  program-continues forecaster store v na found live =
      reconcile-continues env forecaster (new_fetcher clients) store v na found live
        (IsTimedGet_lem v.world (env.get v.world v.namespace v.name))
