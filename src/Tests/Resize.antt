-- ===== src/Tests/Resize.antt =====
-- The resizing of the pods of Data.
use neural_autoscaler.Base.{
  ℕ, last_n, Option, ◌≡◌, refl, ◌↔◌, ◌⊎◌, String, true, false, arith, none, some, List, [], ◌∷◌,
  map, member, All, IsIn, IsDistinct, if◌then◌else◌,
}
use neural_autoscaler.Base.Int.{ℤ, pos, add_int64, div_int64, sub_int64, wrap64, ◌+ℤ◌, ◌-ℤ◌}
use neural_autoscaler.Base.Dict.{lookup, insert}
use neural_autoscaler.Base.Decimal.{format_from, format_int}
use neural_autoscaler.Base.Text.{trim_space}
use neural_autoscaler.Base.Float.{Fixed, fixed_float, Fixed-IsStrict}
use neural_autoscaler.Base.Result.{ok}
use neural_autoscaler.Api.Quantity.{Thousandths, thousandths_quantity, Thousandths-IsOrdered}
use neural_autoscaler.Api.Resize.{
  validate_resize, controlled_resource_set, validate_min_change_percent, validate_resize_resources,
  parse_optional_quantity, resource_bounds, clamp_quantity, effective_min_change_percent,
}
use neural_autoscaler.Api.Resize.Valid.{AreValidEntries}
use neural_autoscaler.Resize.Peak.{
  raise_over, raise_over_quantiles, recent_peak, effective_peak, forecast_peaks, IsWindowSize,
  effective_peak_covers, recent_peak_lem, default_recent_peak_window,
}
use neural_autoscaler.Resize.Target.{
  compute_targets, targets_from, normalize_memory_quantity, cpu_target, memory_target,
  current_quantity, in_whole_units, per_pod,
}
use neural_autoscaler.Resize.Target.Bounds.{
  IsPodCount, set_or, TargetWithin, compute_targets-eq, compute_targets-Within,
}
use neural_autoscaler.Resize.Threshold.{
  apply_min_change_threshold, quantity_magnitude, quantity_percent_change,
  exceeds_min_change_threshold,
}
use neural_autoscaler.Resize.Threshold.Reaches.{Exceeds, Decided, apply_min_change_threshold_lem}
use neural_autoscaler.Resize.Actuator.{
  resize_container, apply_plans, target_container_indexes, resize_in_progress, plan_at,
  resize_request, plans_for, plan_container, build_resize_pod, set_request, in_progress, index_of,
  indexes_from, targets_changed,
}
use neural_autoscaler.Resize.Actuator.Change.{IsPlan, plan_container_iff}
use neural_autoscaler.Resize.Actuator.Build.{
  target_for, request_after, limit_after, SamePod, resize_container_lem,
}
use neural_autoscaler.Resize.Actuator.Plan.{
  Selected, changed_by, target_container_indexes_iff, resize_request_lem,
}
use neural_autoscaler.Resize.Apply.{peaks_from, apply}
use neural_autoscaler.Resize.Apply.Laws.{
  after_updates, present, planned_peaks, apply_updates, apply-error, peaks_from_lem,
}
use neural_autoscaler.Tests.Data.{
  config, web, pod_a, larger_web, larger_pod, forecasts, samples, peaks, cluster, input, targets,
  plan,
}

config_accepted : validate_resize Thousandths (some config) ≡ ok tt
unfolding validate_resize trim_space
config_accepted = refl

abbrev names : List String
names = "a" ∷ "b" ∷ []

pod_request : resize_request Fixed config peaks (pos 1) pod_a ≡ some larger_pod
unfolding resize_request resize_in_progress plans_for target_container_indexes plan_container
    apply_min_change_threshold compute_targets lookup exceeds_min_change_threshold cpu_target
    clamp_quantity effective_min_change_percent build_resize_pod apply_plans resize_container
    set_request controlled_resource_set memory_target parse_optional_quantity resource_bounds
    format_from format_int insert add_int64 div_int64 sub_int64 wrap64 ◌+ℤ◌ ◌-ℤ◌ in_progress
    index_of indexes_from targets_changed current_quantity in_whole_units normalize_memory_quantity
    per_pod targets_from quantity_magnitude quantity_percent_change trim_space
pod_request = refl

-- One update is asked for: pod "a" is there, and "b" is not. That it is refused is no error of `Apply`.
apply_updates_example : apply cluster 0 (some config) forecasts samples names "apps" ≡ (
  after_updates cluster 0 (
      present
        (map (resize_request Fixed config (peaks_from forecasts samples []) (pos 1)) (pod_a ∷ []))),
  none,
)
unfolding resize_in_progress in_progress
apply_updates_example =
    apply_updates cluster 0 config forecasts samples names "apps" config_accepted tt

peaks_planned : peaks_from forecasts samples [] ≡ peaks
unfolding peaks_from lookup insert forecast_peaks raise_over raise_over_quantiles recent_peak
    effective_peak
peaks_planned = refl

apply-error_example :
    (apply cluster 7 (some record config { resources = [] }) forecasts samples names "apps").0 ≡ 7
unfolding apply validate_resize trim_space validate_min_change_percent validate_resize_resources
apply-error_example =
    apply-error cluster 7 (some record config { resources = [] }) forecasts samples names "apps"
      (λ e. cc)

peaks_from_lem_example :
    lookup "cpu" (peaks_from forecasts samples [])
    ≡ planned_peaks (lookup "cpu" forecasts) (lookup "cpu" samples) none
unfolding lookup
peaks_from_lem_example = peaks_from_lem "cpu" forecasts samples (refl, tt)

resize_request_lem_example :
    (some larger_web ≡ (
      if member 1 (target_container_indexes pod_a (some config))
      then changed_by Fixed
          (controlled_resource_set config.resources)
          (plan_at Fixed config peaks (pos 1) 1 (some web))
          (some web)
      else some web))
    × SamePod larger_pod pod_a
    × (false ≡ false)
    × (resize_in_progress pod_a ≡ false)
resize_request_lem_example =
    resize_request_lem Fixed config peaks (pos 1) pod_a larger_pod 1 pod_request

resize_container_lem_example :
    let wanted = target_for (λ name. true) targets "cpu" in
    let new = resize_container (λ name. true) targets web in
    (lookup "cpu" new.requests ≡ request_after wanted (lookup "cpu" web.requests))
    × (lookup "cpu" new.limits ≡ limit_after wanted (lookup "cpu" web.limits))
    × (new.name ≡ "web")
resize_container_lem_example = resize_container_lem (λ name. true) targets web "cpu"

target_container_indexes_iff_example :
    let indexes = target_container_indexes pod_a (some config) in
    ((member 1 indexes ≡ true) ↔ Selected (some "web") pod_a.containers 1) × IsDistinct indexes
target_container_indexes_iff_example = target_container_indexes_iff pod_a config 1

compute_targets-eq_example :
    (n : ℤ) × IsPodCount (pos 0) n
    × let counted = record input { pod_count = n } in
      (compute_targets (record input { pod_count = pos 0 }) ≡ record {
        cpu = set_or (lookup "cpu" config.resources) (cpu_target counted) none;
        memory = set_or (lookup "memory" config.resources) (memory_target counted) none;
      })
unfolding lookup
compute_targets-eq_example =
    compute_targets-eq (record input { pod_count = pos 0 }) (refl, (refl, tt))

entries_valid : AreValidEntries Thousandths config.resources
unfolding resource_bounds parse_optional_quantity trim_space
entries_valid = ground arith

compute_targets-Within_example :
    TargetWithin (lookup "cpu" config.resources) (compute_targets input).cpu
    × TargetWithin (lookup "memory" config.resources) (compute_targets input).memory
unfolding lookup
compute_targets-Within_example =
    compute_targets-Within Thousandths-IsOrdered input (refl, (refl, tt)) entries_valid

apply_min_change_threshold_lem_example :
    let (kept, changed) =
      apply_min_change_threshold Fixed web.requests targets none config.resources in
    let cpu_now = current_quantity web.requests "cpu" in
    let memory_now = current_quantity web.requests "memory" in
    ((changed ≡ true) ↔ (
      Exceeds Fixed none cpu_now (some 1200) (lookup "cpu" config.resources)
      ⊎ Exceeds Fixed none memory_now (some 1024000) (lookup "memory" config.resources)))
    × ((o : Option Thousandths)
        → Decided Fixed none cpu_now (some 1200) (lookup "cpu" config.resources) o ↔ (o ≡ kept.cpu))
    × ((o : Option Thousandths)
        → Decided Fixed none memory_now (some 1024000) (lookup "memory" config.resources) o
          ↔ (o ≡ kept.memory))
apply_min_change_threshold_lem_example =
    apply_min_change_threshold_lem Fixed web.requests targets none config.resources

effective_peak_covers_example :
    let peak =
      effective_peak
        (forecast_peaks {F = Fixed} (5 ∷ 3 ∷ []) [])
        (recent_peak (4 ∷ 8 ∷ []) default_recent_peak_window) in
    All (λ v. fixed_float.lt peak v ≡ false) (5 ∷ 3 ∷ [])
    × All (λ v. fixed_float.lt peak v ≡ false) (4 ∷ 8 ∷ [])
effective_peak_covers_example = effective_peak_covers Fixed-IsStrict (5 ∷ 3 ∷ []) [] (4 ∷ 8 ∷ [])

recent_peak_lem_example :
    (n : ℕ) × IsWindowSize (pos 0) n
    × let recent = last_n {A = Fixed} n (9 ∷ 4 ∷ 8 ∷ []) in
      let peak = recent_peak {F = Fixed} (9 ∷ 4 ∷ 8 ∷ []) (pos 0) in
      ((peak ≡ 0) ⊎ IsIn peak recent)
      × (fixed_float.lt peak 0 ≡ false)
      × All (λ v. fixed_float.lt peak v ≡ false) recent
recent_peak_lem_example = recent_peak_lem Fixed-IsStrict (9 ∷ 4 ∷ 8 ∷ []) (pos 0)

plan_made : plan_container Fixed config peaks (pos 1) 1 web ≡ some plan
unfolding resize_request resize_in_progress plans_for target_container_indexes plan_container
    apply_min_change_threshold compute_targets lookup exceeds_min_change_threshold cpu_target
    clamp_quantity effective_min_change_percent build_resize_pod apply_plans resize_container
    set_request controlled_resource_set memory_target parse_optional_quantity resource_bounds
    format_from format_int insert add_int64 div_int64 sub_int64 wrap64 ◌+ℤ◌ ◌-ℤ◌ in_progress
    index_of indexes_from targets_changed current_quantity in_whole_units normalize_memory_quantity
    per_pod targets_from quantity_magnitude quantity_percent_change trim_space
plan_made = refl

plan_container_iff_example :
    (plan_container Fixed config peaks (pos 1) 1 web ≡ some plan)
    ↔ IsPlan Fixed config peaks (pos 1) 1 web plan
plan_container_iff_example = plan_container_iff Fixed config peaks (pos 1) 1 web plan
