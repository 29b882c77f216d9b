-- ===== src/Resize/Actuator.antt =====
-- internal/resize/actuator.go: which containers of a pod change and to what, and the pod that is
-- submitted. A pod has the fields that the program reads or writes. Logging leaves no trace in the model.
pub mod Build
pub mod Change
pub mod Plan
use neural_autoscaler.Base.{
  ℕ, zero, suc, ◌+◌, String, Bool, true, false, ◌==◌, ◌&&◌, ◌||◌, Option, none, some, List, [], ◌∷◌,
  map, length, get_elem?, set, eqb, if◌then◌else◌,
}
use Prim.Native.Nat.{Ordering}
use neural_autoscaler.Base.Int.{ℤ, pos}
use neural_autoscaler.Base.Dict.{Dict, lookup, insert}
use neural_autoscaler.Base.Float.{Float64}
use neural_autoscaler.Base.Result.{Result, ok, err, ◌>>=◌}
use neural_autoscaler.Api.Types.{ResizeSpec, ResourceBoundsSpec}
use neural_autoscaler.Api.Quantity.{Quantity, is_less, is_same}
use neural_autoscaler.Api.Resize.{ResizeError, validate_resize, controlled_resource_set}
use neural_autoscaler.Forecast.Types as Forecast
use neural_autoscaler.Forecast.Types.{Response}
use neural_autoscaler.Resize.Peak.{
  QuantileSeries, default_recent_peak_window, recent_peak, effective_peak, forecast_peaks,
}
use neural_autoscaler.Resize.Target.{
  ResourceList, resource_cpu, resource_memory, TargetInput, TargetResult, compute_targets,
}
use neural_autoscaler.Resize.Threshold.{apply_min_change_threshold}

-- The fields of a pod that the program reads or writes. `terminating` is a deletion timestamp.
pub record PodCondition : Type 0 where
  pub condition_type : String
  pub status : String

pub record Container (Q : Type 0) : Type 0 where
  pub name : String
  pub requests : ResourceList Q
  pub limits : ResourceList Q

pub record Pod (Q : Type 0) : Type 0 where
  pub name : String
  pub namespace : String
  pub terminating : Bool
  pub conditions : List PodCondition
  pub containers : List (Container Q)

pub record ContainerResizePlan (Q : Type 0) : Type 0 where
  pub index : ℕ
  pub name : String
  pub current : ResourceList Q
  pub targets : TargetResult Q

unfoldable pub in_progress : List PodCondition → Bool
in_progress [] = false
in_progress (cond ∷ conditions) =
    (cond.condition_type == "PodResizeInProgress" && cond.status == "True")
    || in_progress conditions

unfoldable pub resize_in_progress : {Q : Type 0} → Pod Q → Bool
unfolding in_progress
resize_in_progress pod = in_progress pod.conditions

-- The indexes `i`, `i + 1`, … of the containers.
unfoldable pub indexes_from : {Q : Type 0} → ℕ → List (Container Q) → List ℕ
indexes_from i [] = []
indexes_from i (c ∷ containers) = i ∷ indexes_from (i + 1) containers

-- The index of the first container of that name.
unfoldable pub index_of : {Q : Type 0} → String → ℕ → List (Container Q) → List ℕ
index_of name i [] = []
index_of name i (c ∷ containers) =
    if c.name == name then i ∷ [] else index_of name (i + 1) containers

abbrev pub indexes_for : {Q : Type 0} → Option String → List (Container Q) → List ℕ
indexes_for name [] = []
indexes_for none (c ∷ containers) = 0 ∷ []
indexes_for (some name) (c ∷ containers) =
    if name == "*" then indexes_from 0 (c ∷ containers) else index_of name 0 (c ∷ containers)

abbrev container_name_of : Option ResizeSpec → Option String
container_name_of none = none
container_name_of (some spec) = spec.container_name

unfoldable pub target_container_indexes : {Q : Type 0} → Pod Q → Option ResizeSpec → List ℕ
unfolding indexes_from index_of
target_container_indexes pod spec = indexes_for (container_name_of spec) pod.containers

module _ {Q : Type 0} ⦃q : Quantity Q⦄ where
  -- `!ok || cur.Cmp(target) != 0`
  abbrev pub differs : Option Q → Q → Bool
  differs none target = true
  differs (some current) target = if is_same current target then false else true

  abbrev target_differs : ResourceList Q → String → Option Q → Bool
  target_differs current name none = false
  target_differs current name (some target) = differs (lookup name current) target

  unfoldable pub targets_changed : ResourceList Q → TargetResult Q → Bool
  targets_changed current targets =
      target_differs current resource_cpu targets.cpu
      || target_differs current resource_memory targets.memory

  abbrev pub raise_limit : String → Q → Option Q → ResourceList Q → ResourceList Q
  raise_limit name target none limits = limits
  raise_limit name target (some limit) limits =
      if is_less limit target then insert name target limits else limits

  -- The block for one resource of `buildResizePod`.
  unfoldable pub set_request : Bool → String → Option Q → Container Q → Container Q
  set_request false name target c = c
  set_request true name none c = c
  set_request true name (some target) c = record c {
    requests = insert name target c.requests;
    limits = raise_limit name target (lookup name c.limits) c.limits;
  }

  unfoldable pub resize_container : (String → Bool) → TargetResult Q → Container Q → Container Q
  resize_container controlled targets c =
      set_request (controlled resource_memory) resource_memory targets.memory
        (set_request (controlled resource_cpu) resource_cpu targets.cpu c)

  abbrev pub set_container : ℕ → Option (Container Q) → Pod Q → Pod Q
  set_container i none pod = pod
  set_container i (some c) pod = record pod { containers = set pod.containers i c }

  abbrev pub resized :
      (String → Bool) → TargetResult Q → Option (Container Q) → Option (Container Q)
  resized controlled targets none = none
  resized controlled targets (some c) = some (resize_container controlled targets c)

  -- The loop over the plans; an index out of range is passed over.
  unfoldable pub apply_plans : (String → Bool) → List (ContainerResizePlan Q) → Pod Q → Pod Q
  apply_plans controlled [] out = out
  apply_plans controlled (plan ∷ plans) out = apply_plans controlled plans (
      set_container plan.index
        (resized controlled plan.targets (get_elem? out.containers plan.index)) out)

  unfoldable pub build_resize_pod :
      Pod Q → List (ContainerResizePlan Q) → Dict ResourceBoundsSpec → Pod Q
  build_resize_pod pod plans resources = apply_plans (controlled_resource_set resources) plans pod

module _ (F : Type 0) {Q : Type 0} ⦃f : Float64 F⦄ ⦃q : Quantity Q⦄ where
  -- The body of the loop over the container indexes: the plan, or `continue`.
  unfoldable pub plan_container :
      ResizeSpec → Dict F → ℤ → ℕ → Container Q → Option (ContainerResizePlan Q)
  unfolding targets_changed
  plan_container spec peaks pod_count idx c =
      let (targets, changed) =
        apply_min_change_threshold F c.requests
          (compute_targets (record {
            forecast_peaks = peaks;
            pod_count = pod_count;
            current_requests = c.requests;
            resources = spec.resources;
          }))
          spec.min_change_percent spec.resources in
      if changed && targets_changed c.requests targets
      then some (record { index = idx; name = c.name; current = c.requests; targets = targets })
      else none

  abbrev add_plan :
      Option (ContainerResizePlan Q) → List (ContainerResizePlan Q) → List (ContainerResizePlan Q)
  add_plan none plans = plans
  add_plan (some plan) plans = plan ∷ plans

  abbrev pub plan_at :
      ResizeSpec → Dict F → ℤ → ℕ → Option (Container Q) → Option (ContainerResizePlan Q)
  plan_at spec peaks pod_count idx none = none
  plan_at spec peaks pod_count idx (some c) = plan_container spec peaks pod_count idx c

  unfoldable pub plans_for :
      ResizeSpec → Dict F → ℤ → List (Container Q) → List ℕ → List (ContainerResizePlan Q)
  plans_for spec peaks pod_count containers [] = []
  plans_for spec peaks pod_count containers (idx ∷ indexes) =
      add_plan (plan_at spec peaks pod_count idx (get_elem? containers idx))
        (plans_for spec peaks pod_count containers indexes)

  abbrev pub pod_with_plans :
      Pod Q → Dict ResourceBoundsSpec → List (ContainerResizePlan Q) → Option (Pod Q)
  pod_with_plans pod resources [] = none
  pod_with_plans pod resources (plan ∷ plans) = some (build_resize_pod pod (plan ∷ plans) resources)

  -- What `resizePod` submits: nothing, or the changed pod.
  unfoldable pub resize_request : ResizeSpec → Dict F → ℤ → Pod Q → Option (Pod Q)
  resize_request spec peaks pod_count pod =
      if pod.terminating || resize_in_progress pod
      then none
      else pod_with_plans pod spec.resources
          (plans_for spec peaks pod_count pod.containers (target_container_indexes pod (some spec)))
