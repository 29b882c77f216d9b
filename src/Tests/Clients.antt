-- ===== src/Tests/Clients.antt =====
-- A deployment of one pod, its usage, and a Prometheus that answers every query with two streams.
use neural_autoscaler.Base.{ℕ, String, ◌==◌, none, some, List, [], ◌∷◌}
use neural_autoscaler.Base.Float.{Fixed, fixed_float}
use neural_autoscaler.Base.Result.{ok, err}
use neural_autoscaler.Api.Types.{MetricsServerSourceSpec, PrometheusSourceSpec}
use neural_autoscaler.Api.Quantity.{Thousandths, thousandths_quantity}
use neural_autoscaler.Metrics.Server.{PodMetrics}
use neural_autoscaler.Metrics.Prometheus.Merge.{Sample, matrix}
use neural_autoscaler.Metrics.Prometheus.Fetch.{Kube, PrometheusApi}
use neural_autoscaler.Metrics.Factory.{Clients}

abbrev pub server : MetricsServerSourceSpec
server = record {
  target_ref = record { api_group = "apps"; kind = "Deployment"; name = "web" };
  resources = "cpu" ∷ [];
  namespace = "";
}

abbrev pub prometheus : PrometheusSourceSpec
prometheus = record {
  url = "http://prometheus:9090";
  target_ref = none;
  resources = [];
  namespace = "";
  query = "up";
  query_type = "";
  step = none;
  lookback = some "1h";
  auth = some (record { name = "token"; key = "value" });
}

abbrev pub kube : Kube String String String String
kube = record {
  workloads = record {
    get_pod = λ namespace name. none;
    get_workload = λ kind namespace name. ok "app=web";
    label_selector_as_selector = λ selector. ok selector;
    list_pods = λ namespace selector. ok ("a" ∷ []);
    pod_name = λ pod. pod;
    is_not_found = λ e. e == "not found";
  };
  get_secret = λ namespace name. ok (("value", " abc ") ∷ []);
}

abbrev pub streams : List (List (Sample Fixed ℕ))
streams =
    (record { timestamp = 1; value = 10 } ∷ record { timestamp = 2; value = 20 } ∷ [])
    ∷ (record { timestamp = 1; value = 3 } ∷ record { timestamp = 2; value = 4 } ∷ [])
    ∷ []

abbrev pub api : PrometheusApi Fixed ℕ String
api = record {
  new_client = λ url. none;
  query = λ url token promql at. err "not asked";
  query_range = λ url token promql start end step. ok (some (matrix streams));
}

abbrev pub usage : PodMetrics Thousandths
usage = record { name = "a"; containers = (("cpu", 250) ∷ []) ∷ [] }

abbrev pub clients : Clients Fixed ℕ Thousandths ℕ String String String String
clients = record {
  kube = some (λ w. kube);
  metrics_client = some (λ w namespace. ok (usage ∷ []));
  now = λ w. w;
  api = λ w. api;
  texts = record { quote = λ text. text; to_lower = λ text. text };
  parse_duration = λ text. none;
  add_time = λ t d. t;
}
