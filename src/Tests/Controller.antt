-- ===== src/Tests/Controller.antt =====
-- One autoscaler in a cluster without pods to resize. The world is a number, which a patch raises and
-- which is the time.
use neural_autoscaler.Base.{
  ℕ, ◌+◌, ◌≡◌, refl, ◌≢◌, ◌⊎◌, String, true, false, Option, none, some, [], ◌∷◌, replicate,
}
use neural_autoscaler.Base.Int.{pos}
use neural_autoscaler.Base.Float.{Fixed, fixed_float}
use neural_autoscaler.Base.Result.{ok, err}
use neural_autoscaler.Api.Types.{NeuralAutoscaler, MetricsSourceSpec, ResourceMetric}
use neural_autoscaler.Api.Quantity.{Thousandths, thousandths_quantity}
use neural_autoscaler.Metrics.History.{
  Series, HistoryStore, new_history_store, empty_series, store_get,
}
use neural_autoscaler.Metrics.History.Store.{run, sample}
use neural_autoscaler.Metrics.Keys.{history_key}
use neural_autoscaler.Metrics.Factory.{FactoryError, other_error, new_fetcher}
use neural_autoscaler.Resize.Apply.{not_found}
use neural_autoscaler.Resize.Peak.{nought}
use neural_autoscaler.Controller.Predict.{Predictor}
use neural_autoscaler.Controller.Environment.{
  gotten, Environment, Outcome, new_default_scope, patch_object, set_metrics_ready_condition,
  patch_failed, nothing_logged, fetch_failed,
}
use neural_autoscaler.Controller.Reconcile.{
  reconcile, stop, reconcile_scoped, reconcile_source, reconcile_fetched, patched,
}
use neural_autoscaler.Controller.Reconcile.Calls.{Visit, holding, NewFetcher}
use neural_autoscaler.Controller.Reconcile.Safety.{OnlyPatched, reconcile-error}
use neural_autoscaler.Controller.Reconcile.Requeue.{reconcile-deleted}
use neural_autoscaler.Controller.Program.{program-continues}
use neural_autoscaler.Tests.Data.{config}
use neural_autoscaler.Tests.Clients.{clients, server}

abbrev source : MetricsSourceSpec
source = record { source_type = "MetricsServer"; metrics_server = some server; prometheus = none }

abbrev web : NeuralAutoscaler ℕ
web = record {
  namespace = "apps";
  name = "web";
  generation = pos 1;
  terminating = false;
  spec = record {
    metrics = source;
    forecast = some (record { horizon = none; step = none });
    resize = none;
  };
  status = record {
    last_fetch_time = none;
    last_resource_values = [];
    last_metrics_count = pos 0;
    last_forecast = none;
    conditions = [];
  };
}

abbrev leaving : NeuralAutoscaler ℕ
leaving = record web { terminating = true }

abbrev environment : (E : Type 0) → NeuralAutoscaler ℕ → Environment Fixed ℕ Thousandths ℕ String E
environment E na = record {
  get = λ w namespace name. gotten na;
  new_helper = λ na. ok na.name;
  patch = λ helper w na. (w + 1, none);
  pods = record { get = λ w namespace name. not_found; update_resize = λ w pod. (w, none) };
  fetch_time = λ w. w;
  condition_time = λ w. w;
  set_condition = λ conditions new. new ∷ [];
  sort_resources = λ resources. resources;
  format_float = λ v. "";
  error_text = λ e. "failed";
  no_time = 0;
}

abbrev visit : Visit ℕ
visit = record { world = 5; namespace = "apps"; name = "web" }

abbrev forecaster : Option (Predictor Fixed ℕ (FactoryError String))
forecaster = some (record {
  forecast = λ req. ok (record { point = req.values; quantiles = []; model_version = "m" });
  parse_duration = λ text. none;
  as_error = λ e. other_error "bad step";
})

abbrev empty_store : HistoryStore Fixed ℕ
empty_store = new_history_store 0 0 (pos 2)

program-continues_example :
    (out : Outcome Fixed ℕ ℕ (FactoryError String)) × (reconcile
        (environment (FactoryError String) web)
        (holding forecaster (new_fetcher clients) empty_store)
        5
        "apps"
        "web"
      ≡ some out)
    × ((out.requeue_after ≡ pos 20000000000) ⊎ (out.error ≢ none))
program-continues_example =
    program-continues (environment (FactoryError String) web) clients forecaster empty_store visit
      web refl refl

reconcile-deleted_example :
    (after : HistoryStore Fixed ℕ) × (reconcile
        (environment (FactoryError String) leaving)
        (holding forecaster (new_fetcher clients) empty_store)
        5
        "apps"
        "web"
      ≡ some (
          stop
            (environment (FactoryError String) leaving)
            5
            (holding forecaster (new_fetcher clients) after)
            (pos 0)
            none))
    × ((resource : ResourceMetric)
        → store_get nought 0 after (history_key "apps" "web" resource) ≡ empty_series)
reconcile-deleted_example =
    reconcile-deleted (environment (FactoryError String) leaving) forecaster (new_fetcher clients)
      empty_store 5 "apps" "web" leaving refl refl

abbrev down : NewFetcher Fixed ℕ ℕ String
down spec namespace = ok (λ w. err "down")

abbrev failed : Outcome Fixed ℕ ℕ String
failed = record {
  world = 6;
  reconciler = holding none down empty_store;
  requeue_after = pos 0;
  error = some (fetch_failed "down");
  logged = nothing_logged;
}

fetch_fails :
    reconcile (environment String web) (holding none down empty_store) 5 "apps" "web" ≡ some failed
unfolding reconcile new_default_scope reconcile_scoped reconcile_source reconcile_fetched patched
    patch_object set_metrics_ready_condition
fetch_fails = refl

reconcile-error_example :
    ((reason : String) × (failed.error ≡ some (patch_failed reason)))
    ⊎ ((failed.reconciler ≡ holding none down empty_store)
        × (failed.logged ≡ nothing_logged)
        × OnlyPatched (environment String web) 5 failed.world)
reconcile-error_example =
    reconcile-error (environment String web) 5 (holding none down empty_store) "apps" "web" failed
      fetch_fails (λ e. cc)

-- A resource that is to be resized, and sixteen samples for it at once.
abbrev resized_web : NeuralAutoscaler ℕ
resized_web = record web {
  spec = record web.spec {
    metrics = record {
      source_type = "Prometheus";
      metrics_server = some server;
      prometheus = none;
    };
    resize = some config;
  };
}

abbrev samples : Series Fixed ℕ
samples = record { values = replicate 16 7; timestamps = replicate 16 1 }

abbrev ready_fetcher : NewFetcher Fixed ℕ ℕ String
ready_fetcher spec namespace =
    ok (λ w. ok (record { by_resource = ("cpu", samples) ∷ []; pod_names = [] }))

abbrev steady : Option (Predictor Fixed ℕ String)
steady = some (record {
  forecast = λ req. ok (record { point = 7 ∷ []; quantiles = []; model_version = "m" });
  parse_duration = λ text. none;
  as_error = λ e. "bad step";
})

abbrev done : Outcome Fixed ℕ ℕ String
done = record {
  world = 6;
  reconciler =
      holding steady ready_fetcher (run nought 0 empty_store (sample "apps/web/cpu" 7 1 ∷ []));
  requeue_after = pos 20000000000;
  error = none;
  logged = nothing_logged;
}
