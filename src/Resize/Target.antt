-- ===== src/Resize/Target.antt =====
-- internal/resize/target.go: the wanted requests of a container. The program divides by the number
-- of pods, adds a fifth, rounds up, and clamps; a memory request is rounded up to a whole unit.
pub mod Bounds
pub mod Normal
use Prim.Native.String.{◌++◌ as ◌<>◌}
use neural_autoscaler.Base.{
  ℕ, ◌*◌, String, Bool, true, false, ◌==◌, Option, none, some, List, [], ◌∷◌, if◌then◌else◌,
}
use neural_autoscaler.Base.Int.{ℤ, pos, leb_ℤ, add_int64, sub_int64, div_int64}
use neural_autoscaler.Base.Dict.{Dict, lookup}
use neural_autoscaler.Base.Decimal.{format_int}
use neural_autoscaler.Base.Float.{Float64}
use neural_autoscaler.Api.Types.{
  ResourceBoundsSpec, ResourceMetric, resource_metric_cpu, resource_metric_memory,
}
use neural_autoscaler.Api.Quantity.{Quantity, Format, decimal_si, binary_si, is_less}
use neural_autoscaler.Api.Resize.{clamp_quantity}
use neural_autoscaler.Resize.Peak.{nought}

abbrev pub bytes_per_ki : ℕ
bytes_per_ki = 1024

abbrev pub bytes_per_mi : ℕ
bytes_per_mi = 1024 * bytes_per_ki

abbrev pub bytes_per_gi : ℕ
bytes_per_gi = 1024 * bytes_per_mi

-- `corev1.ResourceList`, and the names of its two entries that matter here.
abbrev pub ResourceList : Type 0 → Type 0
ResourceList Q = Dict Q

abbrev pub resource_cpu : String
resource_cpu = "cpu"

abbrev pub resource_memory : String
resource_memory = "memory"

pub record TargetInput (F Q : Type 0) : Type 0 where
  pub forecast_peaks : Dict F
  pub pod_count : ℤ
  pub current_requests : ResourceList Q
  pub resources : Dict ResourceBoundsSpec

pub record TargetResult (Q : Type 0) : Type 0 where
  pub cpu : Option Q
  pub memory : Option Q

module _ {Q : Type 0} ⦃q : Quantity Q⦄ where
  abbrev found_or_zero : Option Q → Q
  found_or_zero none = q.new_quantity (pos 0) decimal_si
  found_or_zero (some amount) = amount

  unfoldable pub current_quantity : ResourceList Q → String → Q
  current_quantity list name = found_or_zero (lookup name list)

  -- One case of the switch: the amount in whole units, rounded up, printed with the unit's suffix and
  -- read again, if that is not less than the amount.
  unfoldable pub in_whole_units : ℕ → String → Q → Q
  unfolding add_int64 sub_int64 div_int64 format_int
  in_whole_units unit suffix amount =
      let whole = div_int64 (sub_int64 (add_int64 (q.value amount) (pos unit)) (pos 1)) unit in
      let normalized = q.must_parse (format_int whole <> suffix) in
      if is_less normalized amount then amount else normalized

  unfoldable pub normalize_memory_quantity : Q → Q
  normalize_memory_quantity amount =
      let bytes = q.value amount in
      if leb_ℤ bytes (pos 0)
      then amount
      else (if leb_ℤ (pos bytes_per_gi) bytes
          then in_whole_units bytes_per_gi "Gi" amount
          else (if leb_ℤ (pos bytes_per_mi) bytes
              then in_whole_units bytes_per_mi "Mi" amount
              else (if leb_ℤ (pos bytes_per_ki) bytes
                  then in_whole_units bytes_per_ki "Ki" amount
                  else amount)))

abbrev pub positive_pod_count : ℤ → ℤ
positive_pod_count n = if leb_ℤ n (pos 0) then pos 1 else n

module _ {F : Type 0} ⦃f : Float64 F⦄ where
  abbrev default_headroom_factor : F
  default_headroom_factor = f.decimal 12 1

  -- `int64(math.Ceil((peak * defaultHeadroomFactor) / float64(in.PodCount)))`
  unfoldable pub per_pod : F → ℤ → ℤ
  per_pod peak pod_count =
      f.to_int64 (f.ceil (f.div (f.mul peak default_headroom_factor) (f.of_int64 pod_count)))

module _ {F Q : Type 0} ⦃f : Float64 F⦄ ⦃q : Quantity Q⦄ where
  -- The forecast amount if there is a peak above 0, and else the current one.
  abbrev desired_or : Option F → (F → Q) → Q → Q
  desired_or none wanted current = current
  desired_or (some peak) wanted current = if f.lt nought peak then wanted peak else current

  unfoldable pub cpu_target : TargetInput F Q → ResourceBoundsSpec → Q
  unfolding current_quantity per_pod
  cpu_target input bounds =
      clamp_quantity
        (desired_or (lookup resource_metric_cpu input.forecast_peaks)
          (λ peak. q.new_milli_quantity (per_pod peak input.pod_count) decimal_si)
          (current_quantity input.current_requests resource_cpu))
        bounds

  unfoldable pub memory_target : TargetInput F Q → ResourceBoundsSpec → Q
  unfolding current_quantity per_pod normalize_memory_quantity
  memory_target input bounds =
      let clamped =
        clamp_quantity
          (desired_or (lookup resource_metric_memory input.forecast_peaks)
            (λ peak. q.new_quantity (per_pod peak input.pod_count) binary_si)
            (current_quantity input.current_requests resource_memory))
          bounds in
      clamp_quantity (normalize_memory_quantity clamped) bounds

  -- The loop over `in.Resources`.
  unfoldable pub targets_from :
      TargetInput F Q → Dict ResourceBoundsSpec → TargetResult Q → TargetResult Q
  targets_from input [] out = out
  targets_from input ((key, bounds) ∷ resources) out = targets_from input resources (
      if key == resource_metric_cpu
      then record out { cpu = some (cpu_target input bounds) }
      else (if key == resource_metric_memory
          then record out { memory = some (memory_target input bounds) }
          else out))

  unfoldable pub compute_targets : TargetInput F Q → TargetResult Q
  unfolding targets_from
  compute_targets input =
      targets_from (record input { pod_count = positive_pod_count input.pod_count }) input.resources
        (record { cpu = none; memory = none })
