-- ===== src/Resize/Target/Bounds.antt =====
-- Which targets `ComputeTargets` sets, and that they lie within the configured bounds.
use mathlib.Core.Option.{some-injective}
use neural_autoscaler.Base.{
  ℕ, zero, suc, ◌<◌, leb, false, arith, subst, ◌≡◌, refl, inl, inr, String, ◌==◌, eq_iff, Option,
  none, some, [], ◌∷◌, Bool-cases,
}
use neural_autoscaler.Base.Int.{ℤ, pos, negsuc, ◌≤ℤ◌}
use neural_autoscaler.Base.Dict.{Dict, lookup, NodupKeys}
use neural_autoscaler.Base.Float.{Float64}
use neural_autoscaler.Api.Types.{ResourceBoundsSpec}
use neural_autoscaler.Api.Quantity.{Quantity, IsOrdered}
use neural_autoscaler.Api.Resize.{resource_bounds}
use neural_autoscaler.Api.Resize.Clamp.{Within, clamp_quantity-Within}
use neural_autoscaler.Api.Resize.Valid.{
  AreValidEntries, validate_resource_bounds_spec_iff, IsValidBounds,
}
use neural_autoscaler.Resize.Target.{
  TargetInput, TargetResult, cpu_target, memory_target, targets_from, positive_pod_count,
  compute_targets,
}

abbrev pub set_or {ℓ} : {A : Type 0} {B : Type ℓ} → Option B → (B → A) → Option A → Option A
set_or none g old = old
set_or (some b) g old = some (g b)

-- The number of pods that an amount is shared among.
pub data IsPodCount : ℤ → ℤ → Type 0 where
  as_counted : (n : ℕ) → 0 < n → IsPodCount (pos n) (pos n)
  at_least_one : (n : ℤ) → n ≤ℤ pos 0 → IsPodCount n (pos 1)

positive_pod_count-IsPodCount : (n : ℤ) → IsPodCount n (positive_pod_count n)
positive_pod_count-IsPodCount (pos zero) = at_least_one (pos 0) (omega arith)
positive_pod_count-IsPodCount (pos (suc n)) =
    let more : leb (suc n) 0 ≡ false = ground arith in rw more (as_counted (suc n) (omega arith))
positive_pod_count-IsPodCount (negsuc n) = at_least_one (negsuc n) (omega arith)

module _ {Q : Type 0} ⦃q : Quantity Q⦄ where
  -- The bounds of the entry hold of the target, if there is a target.
  abbrev pub TargetWithin : Option ResourceBoundsSpec → Option Q → Type 0
  TargetWithin none none = Unit
  TargetWithin (some bounds) (some target) = Within (resource_bounds bounds) target
  TargetWithin _ _ = ⊥

  set_or-TargetWithin :
      (o : Option ResourceBoundsSpec) (target : ResourceBoundsSpec → Q)
      → ((bounds : ResourceBoundsSpec)
          → o ≡ some bounds
          → Within (resource_bounds bounds) (target bounds))
      → TargetWithin o (set_or o target none)
  set_or-TargetWithin none target h = tt
  set_or-TargetWithin (some bounds) target h = h bounds refl

module _ (Q : Type 0) ⦃q : Quantity Q⦄ where
  lookup-IsValidBounds :
      (name : String) (resources : Dict ResourceBoundsSpec)
      → AreValidEntries Q resources
      → {bounds : ResourceBoundsSpec} → lookup name resources ≡ some bounds
      → IsValidBounds Q bounds
  unfolding lookup
  lookup-IsValidBounds name [] v e = cc
  lookup-IsValidBounds name ((key, b) ∷ resources) v {bounds} e = elim (Bool-cases (key == name)) [
    | inl same ↦
        let here : some b ≡ some bounds = rw same at e in
        subst (IsValidBounds Q) (some-injective _ _ here) v.1
    | inr differ ↦ lookup-IsValidBounds name resources v.2 (rw differ at e)
  ]

module _ {F Q : Type 0} ⦃f : Float64 F⦄ ⦃q : Quantity Q⦄ where
  targets_from-eq :
      (input : TargetInput F Q) (resources : Dict ResourceBoundsSpec) (out : TargetResult Q)
      → NodupKeys resources
      → targets_from input resources out ≡ record {
        cpu = set_or (lookup "cpu" resources) (cpu_target input) out.cpu;
        memory = set_or (lookup "memory" resources) (memory_target input) out.memory;
      }
  unfolding targets_from lookup
  targets_from-eq input [] out u = refl
  targets_from-eq input ((key, bounds) ∷ resources) out (fresh, u) =
      elim (Bool-cases (key == "cpu")) [
        | inl e ↦
            let k = (eq_iff key "cpu").0 e in
            let none_left : lookup "cpu" resources ≡ none = rw k at fresh in
            rw (k, targets_from-eq input resources _ u) (rw none_left)
        | inr ne ↦ elim (Bool-cases (key == "memory")) [
          | inl e ↦
              let k = (eq_iff key "memory").0 e in
              let none_left : lookup "memory" resources ≡ none = rw k at fresh in
              rw (k, targets_from-eq input resources _ u) (rw none_left)
          | inr ne' ↦ rw (ne, ne') (targets_from-eq input resources out u)
        ]
      ]

  compute_targets-counted :
      (input : TargetInput F Q)
      → NodupKeys input.resources
      → let counted = record input { pod_count = positive_pod_count input.pod_count } in
        compute_targets input ≡ record {
          cpu = set_or (lookup "cpu" input.resources) (cpu_target counted) none;
          memory = set_or (lookup "memory" input.resources) (memory_target counted) none;
        }
  unfolding compute_targets
  compute_targets-counted input u = targets_from-eq _ input.resources _ u

  -- The loop over the map, in any order of its entries, sets the target of the processor exactly
  -- where the map has a "cpu" entry, from that entry, and that of the memory likewise. They are
  -- computed for the number of pods, or for one pod if that number is not positive.
  pub compute_targets-eq :
      (input : TargetInput F Q)
      → NodupKeys input.resources
      → (n : ℤ) × IsPodCount input.pod_count n
        × let counted = record input { pod_count = n } in
          (compute_targets input ≡ record {
            cpu = set_or (lookup "cpu" input.resources) (cpu_target counted) none;
            memory = set_or (lookup "memory" input.resources) (memory_target counted) none;
          })
  compute_targets-eq input u = (
    positive_pod_count input.pod_count,
    positive_pod_count-IsPodCount input.pod_count,
    compute_targets-counted input u,
  )

  module _ (laws : IsOrdered Q) where
    cpu_target-Within :
        (input : TargetInput F Q) (bounds : ResourceBoundsSpec)
        → IsValidBounds Q bounds
        → Within (resource_bounds bounds) (cpu_target input bounds)
    unfolding cpu_target
    cpu_target-Within input bounds v =
        (clamp_quantity-Within laws "cpu" bounds _
          ((validate_resource_bounds_spec_iff Q "cpu" bounds).1 v)).0

    memory_target-Within :
        (input : TargetInput F Q) (bounds : ResourceBoundsSpec)
        → IsValidBounds Q bounds
        → Within (resource_bounds bounds) (memory_target input bounds)
    unfolding memory_target
    memory_target-Within input bounds v =
        (clamp_quantity-Within laws "memory" bounds _
          ((validate_resource_bounds_spec_iff Q "memory" bounds).1 v)).0

    -- With a validated configuration, the target of the processor is set exactly where the map has a
    -- "cpu" entry, and lies within each bound of that entry that is set; likewise for the memory,
    -- although its amount is rounded up to whole units.
    pub compute_targets-Within :
        (input : TargetInput F Q)
        → NodupKeys input.resources
        → AreValidEntries Q input.resources
        → TargetWithin (lookup "cpu" input.resources) (compute_targets input).cpu
          × TargetWithin (lookup "memory" input.resources) (compute_targets input).memory
    compute_targets-Within input u v = rw (compute_targets-counted input u) (
      set_or-TargetWithin (lookup "cpu" input.resources) _
          (λ b e. cpu_target-Within _ b (lookup-IsValidBounds Q "cpu" input.resources v e)),
      set_or-TargetWithin (lookup "memory" input.resources) _
          (λ b e. memory_target-Within _ b (lookup-IsValidBounds Q "memory" input.resources v e)),
    )
