-- ===== src/Tests/Data.antt =====
-- A configuration, a cluster of one pod with two containers, and forecasts for it.
use neural_autoscaler.Base.{ℕ, ◌+◌, String, false, ◌==◌, none, some, List, [], ◌∷◌, if◌then◌else◌}
use neural_autoscaler.Base.Int.{pos}
use neural_autoscaler.Base.Dict.{Dict}
use neural_autoscaler.Base.Float.{Fixed}
use neural_autoscaler.Api.Types.{ResizeSpec, ResourceBoundsSpec}
use neural_autoscaler.Api.Quantity.{Thousandths}
use neural_autoscaler.Forecast.Types.{Response}
use neural_autoscaler.Resize.Target.{TargetInput, TargetResult}
use neural_autoscaler.Resize.Actuator.{Container, Pod, ContainerResizePlan}
use neural_autoscaler.Resize.Apply.{found, not_found, Client}

abbrev pub cpu_bounds : ResourceBoundsSpec
cpu_bounds = record { min = some "100m"; max = some "2"; min_change_percent = some (pos 10) }

abbrev pub memory_bounds : ResourceBoundsSpec
memory_bounds = record { min = some "1Ki"; max = some "4Ki"; min_change_percent = none }

abbrev pub config : ResizeSpec
config = record {
  container_name = some "web";
  min_change_percent = none;
  resources = ("cpu", cpu_bounds) ∷ ("memory", memory_bounds) ∷ [];
}

abbrev pub web : Container Thousandths
web = record {
  name = "web";
  requests = ("cpu", 500) ∷ ("memory", 1024000) ∷ [];
  limits = ("cpu", 600) ∷ [];
}

abbrev pub side : Container Thousandths
side = record { name = "side"; requests = ("cpu", 100) ∷ []; limits = [] }

abbrev pub pod_a : Pod Thousandths
pod_a = record {
  name = "a";
  namespace = "apps";
  terminating = false;
  conditions = record { condition_type = "PodResizeInProgress"; status = "False" } ∷ [];
  containers = side ∷ web ∷ [];
}

-- What is to be submitted for the pod: 1000 thousandths of a processor and a fifth more.
abbrev pub larger_web : Container Thousandths
larger_web = record {
  name = "web";
  requests = ("cpu", 1200) ∷ ("memory", 1024000) ∷ [];
  limits = ("cpu", 1200) ∷ [];
}

abbrev pub larger_pod : Pod Thousandths
larger_pod = record pod_a { containers = side ∷ larger_web ∷ [] }

abbrev pub forecasts : Dict (Response Fixed)
forecasts =
    ("cpu", record { point = 800000 ∷ 900000 ∷ []; quantiles = []; model_version = "m" }) ∷ []

abbrev pub samples : Dict (List Fixed)
samples = ("cpu", 1000000 ∷ 700000 ∷ []) ∷ []

abbrev pub peaks : Dict Fixed
peaks = ("cpu", 1000000) ∷ []

-- The world counts the updates; every one of them is refused.
abbrev pub cluster : Client Thousandths ℕ String
cluster = record {
  get = λ w namespace name. if name == "a" then found pod_a else not_found;
  update_resize = λ w pod. (w + 1, some "conflict");
}

abbrev pub input : TargetInput Fixed Thousandths
input = record {
  forecast_peaks = peaks;
  pod_count = pos 1;
  current_requests = web.requests;
  resources = config.resources;
}

abbrev pub targets : TargetResult Thousandths
targets = record { cpu = some 1200; memory = some 1024000 }

abbrev pub plan : ContainerResizePlan Thousandths
plan = record { index = 1; name = "web"; current = web.requests; targets = targets }
