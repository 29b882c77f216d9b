-- ===== src/Resize/Threshold.antt =====
-- internal/resize/threshold.go: a target is dropped for the current request where the change is small.
pub mod Large
pub mod Reaches
use neural_autoscaler.Base.{
  ℕ, ◌≡◌, ◌≢◌, ◌↔◌, ◌⊎◌, Bool, true, false, ◌&&◌, ◌||◌, Option, none, some, arith, or_iff,
  if◌then◌else◌,
}
use Prim.Native.Nat.{Ordering}
use neural_autoscaler.Base.Int.{ℤ, pos}
use neural_autoscaler.Base.Dict.{Dict, lookup}
use neural_autoscaler.Base.Float.{Float64}
use neural_autoscaler.Api.Types.{ResourceBoundsSpec, resource_metric_cpu, resource_metric_memory}
use neural_autoscaler.Api.Quantity.{Quantity, is_same}
use neural_autoscaler.Api.Resize.{effective_min_change_percent}
use neural_autoscaler.Resize.Peak.{nought}
use neural_autoscaler.Resize.Target.{
  ResourceList, resource_cpu, resource_memory, TargetResult, current_quantity,
}

abbrev is_zero_int64 : ℤ → Bool
is_zero_int64 (pos ℕ.zero) = true
is_zero_int64 _ = false

module _ {Q : Type 0} ⦃q : Quantity Q⦄ where
  abbrev is_positive : Q → Bool
  is_positive amount = elim (q.sign amount) [ Ordering.gt ↦ true | _ ↦ false ]

module _ (F : Type 0) {Q : Type 0} ⦃f : Float64 F⦄ ⦃q : Quantity Q⦄ where
  unfoldable pub quantity_magnitude : Q → F
  quantity_magnitude amount =
      if q.is_zero amount
      then nought
      else (let milli = q.milli_value amount in
          if is_zero_int64 milli then f.of_int64 (q.value amount) else f.of_int64 milli)

  -- `oldMag == 0` is `<=` both ways.
  unfoldable pub quantity_percent_change : (old new : Q) → F
  unfolding quantity_magnitude
  quantity_percent_change old new =
      let old_mag = quantity_magnitude old in
      if f.le old_mag nought && f.le nought old_mag
      then nought
      else (let diff = f.abs (f.sub (quantity_magnitude new) old_mag) in
          f.mul (f.div diff old_mag) (f.decimal 100 0))

  unfoldable pub exceeds_min_change_threshold : (old new : Q) → ℤ → Bool
  unfolding quantity_percent_change
  exceeds_min_change_threshold old new percent =
      if q.is_zero old
      then is_positive new
      else (if is_same new old
          then false
          else f.le (f.of_int64 percent) (quantity_percent_change old new))

  -- The block for one resource: its current amount, its target and its entry.
  abbrev kept_or_changed : Option ℤ → Q → Option Q → Option ResourceBoundsSpec → Option Q × Bool
  kept_or_changed global current none entry = (none, false)
  kept_or_changed global current (some target) none = (some target, false)
  kept_or_changed global current (some target) (some bounds) =
      if exceeds_min_change_threshold current target
        (effective_min_change_percent global bounds.min_change_percent)
      then (some target, true)
      else (some current, false)

  unfoldable pub apply_min_change_threshold :
      ResourceList Q → TargetResult Q → Option ℤ → Dict ResourceBoundsSpec → TargetResult Q × Bool
  unfolding current_quantity
  apply_min_change_threshold current targets global resources =
      let (cpu, cpu_changed) =
        kept_or_changed global (current_quantity current resource_cpu) targets.cpu
          (lookup resource_metric_cpu resources) in
      let (memory, memory_changed) =
        kept_or_changed global (current_quantity current resource_memory) targets.memory
          (lookup resource_metric_memory resources) in
      (record { cpu = cpu; memory = memory }, cpu_changed || memory_changed)
