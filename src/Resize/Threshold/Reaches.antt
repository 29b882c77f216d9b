-- ===== src/Resize/Threshold/Reaches.antt =====
-- Which change of a request `ApplyMinChangeThreshold` takes for large enough, and what it makes of the targets.
use neural_autoscaler.Base.{
  ◌≡◌, refl, ◌↔◌, ◌⊎◌, inl, inr, true, Option, none, some, arith, or_iff, Bool-cases,
}
use neural_autoscaler.Base.Int.{ℤ, pos}
use neural_autoscaler.Base.Dict.{Dict, lookup}
use neural_autoscaler.Base.Float.{Float64}
use neural_autoscaler.Api.Types.{ResourceBoundsSpec}
use neural_autoscaler.Api.Quantity.{Quantity}
use neural_autoscaler.Api.Resize.{effective_min_change_percent}
use neural_autoscaler.Resize.Target.{ResourceList, TargetResult, current_quantity}
use neural_autoscaler.Resize.Threshold.{
  exceeds_min_change_threshold, kept_or_changed, apply_min_change_threshold,
}
use neural_autoscaler.Resize.Threshold.Large.{IsLarge, exceeds_iff}

-- The percentage in force: that of the entry, else that of the configuration, else ten.
pub data IsPercent : (global own : Option ℤ) → ℤ → Type 0 where
  of_entry : (global : Option ℤ) (percent : ℤ) → IsPercent global (some percent) percent
  of_config : (percent : ℤ) → IsPercent (some percent) none percent
  by_default : IsPercent none none (pos 10)

effective-IsPercent :
    (global own : Option ℤ) → IsPercent global own (effective_min_change_percent global own)
unfolding effective_min_change_percent
effective-IsPercent global (some percent) = of_entry global percent
effective-IsPercent (some percent) none = of_config percent
effective-IsPercent none none = by_default

IsPercent-eq :
    (global own : Option ℤ) (percent : ℤ)
    → IsPercent global own percent
    → effective_min_change_percent global own ≡ percent
unfolding effective_min_change_percent
IsPercent-eq _ _ _ (of_entry global percent) = refl
IsPercent-eq _ _ _ (of_config percent) = refl
IsPercent-eq _ _ _ by_default = refl

module _ (F : Type 0) {Q : Type 0} ⦃f : Float64 F⦄ ⦃q : Quantity Q⦄ where
  -- The change of a request to a target reaches the percentage in force for the entry.
  abbrev pub Reaches : Option ℤ → Q → Q → ResourceBoundsSpec → Type 0
  Reaches global current target bounds =
      (percent : ℤ) × IsPercent global bounds.min_change_percent percent
      × IsLarge F current target percent

  exceeds_entry_iff :
      (global : Option ℤ) (current target : Q) (bounds : ResourceBoundsSpec)
      → (exceeds_min_change_threshold F current target
            (effective_min_change_percent global bounds.min_change_percent)
          ≡ true)
        ↔ Reaches global current target bounds
  exceeds_entry_iff global current target bounds = (
    λ e. (
      effective_min_change_percent global bounds.min_change_percent,
      effective-IsPercent global bounds.min_change_percent,
      (exceeds_iff F current target _).0 e,
    ),
    λ (percent, in_force, large).
        rw (IsPercent-eq global bounds.min_change_percent percent in_force)
          ((exceeds_iff F current target percent).1 large),
  )

  -- There is a target and an entry, and the change reaches the percentage.
  abbrev pub Exceeds : Option ℤ → Q → Option Q → Option ResourceBoundsSpec → Type 0
  Exceeds global current (some target) (some bounds) = Reaches global current target bounds
  Exceeds global current _ _ = ⊥

  -- What becomes of one target: it stands where the change is large enough or the resource has no
  -- entry, and else gives way to the current amount.
  abbrev pub Decided : Option ℤ → Q → Option Q → Option ResourceBoundsSpec → Option Q → Type 0
  Decided global current none entry kept = kept ≡ none
  Decided global current (some target) none kept = kept ≡ some target
  Decided global current (some target) (some bounds) kept =
      (Reaches global current target bounds × (kept ≡ some target))
      ⊎ ((¬ Reaches global current target bounds) × (kept ≡ some current))

  kept_or_changed_iff :
      (global : Option ℤ) (current : Q) (target : Option Q) (entry : Option ResourceBoundsSpec)
      → let (kept, changed) = kept_or_changed F global current target entry in
        ((o : Option Q) → Decided global current target entry o ↔ (o ≡ kept))
        × ((changed ≡ true) ↔ Exceeds global current target entry)
  kept_or_changed_iff global current none none = (λ o. (λ h. h, λ h. h), ground arith)
  kept_or_changed_iff global current none (some bounds) = (λ o. (λ h. h, λ h. h), ground arith)
  kept_or_changed_iff global current (some target) none = (λ o. (λ h. h, λ h. h), ground arith)
  kept_or_changed_iff global current (some target) (some bounds) =
      let (there, back) = exceeds_entry_iff global current target bounds in
      elim (Bool-cases (
        exceeds_min_change_threshold F current target
          (effective_min_change_percent global bounds.min_change_percent))) [
            | inl e ↦ rw e (
              λ o. (
                elim [ inl (r, same) ↦ same | inr (not_so, same) ↦ absurd (not_so (there e)) ],
                λ same. inl (there e, same),
              ),
              (λ h. there e, λ h. refl),
            )
            | inr e ↦
                let not_so : ¬ Reaches global current target bounds = λ r. cc (back r, e) in
                rw e (
                  λ o. (
                    elim [ inl (r, same) ↦ absurd (not_so r) | inr (k, same) ↦ same ],
                    λ same. inr (not_so, same),
                  ),
                  (λ h. cc h, λ r. absurd (not_so r)),
                )
          ]

  -- A change is reported exactly when for one of the two resources there is a target and an entry, and
  -- the change from the current request to the target reaches the percentage: that of the entry, else
  -- that of the configuration, else ten. From a request of 0 any rise is enough, and an equal amount is no change; else the change of another is
  -- the difference in percent of it, both counted in thousandths, or in units where those are 0, and 0
  -- if it counts as 0 itself. Each target is decided by itself: it stands if its own change is large enough or its resource has no
  -- entry, and is the current request otherwise.
  pub apply_min_change_threshold_lem :
      (current : ResourceList Q) (targets : TargetResult Q) (global : Option ℤ)
      (resources : Dict ResourceBoundsSpec)
      → let (kept, changed) = apply_min_change_threshold F current targets global resources in
        let cpu_now = current_quantity current "cpu" in
        let memory_now = current_quantity current "memory" in
        ((changed ≡ true) ↔ (
          Exceeds global cpu_now targets.cpu (lookup "cpu" resources)
          ⊎ Exceeds global memory_now targets.memory (lookup "memory" resources)))
        × ((o : Option Q)
            → Decided global cpu_now targets.cpu (lookup "cpu" resources) o ↔ (o ≡ kept.cpu))
        × ((o : Option Q)
            → Decided global memory_now targets.memory (lookup "memory" resources) o
              ↔ (o ≡ kept.memory))
  unfolding apply_min_change_threshold
  apply_min_change_threshold_lem current targets global resources =
      let cpu =
        kept_or_changed_iff global (current_quantity current "cpu") targets.cpu
          (lookup "cpu" resources) in
      let memory =
        kept_or_changed_iff global (current_quantity current "memory") targets.memory
          (lookup "memory" resources) in
      (or_iff _ _ cpu.1 memory.1, cpu.0, memory.0)
