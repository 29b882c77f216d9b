-- ===== src/Resize/Actuator/Change.antt =====
-- When `resizePod` plans a change of a container, and which.
use neural_autoscaler.Base.{
  ℕ, ◌≡◌, refl, sym, ap, ap₂, subst, ◌∙◌, ◌↔◌, ◌⊎◌, inl, inr, String, Bool, true, false, ◌&&◌,
  Option, none, some, arith, or_iff, Bool-cases, if◌then◌else◌,
}
use Prim.Native.Nat.{Ordering}
use mathlib.Core.Option.{some-injective}
use neural_autoscaler.Base.Int.{ℤ}
use neural_autoscaler.Base.Dict.{Dict, lookup}
use neural_autoscaler.Base.Float.{Float64}
use neural_autoscaler.Api.Types.{ResizeSpec}
use neural_autoscaler.Api.Quantity.{Quantity, is_same}
use neural_autoscaler.Resize.Target.{
  ResourceList, TargetInput, TargetResult, current_quantity, compute_targets,
}
use neural_autoscaler.Resize.Threshold.{apply_min_change_threshold}
use neural_autoscaler.Resize.Threshold.Large.{is_same_iff}
use neural_autoscaler.Resize.Threshold.Reaches.{Exceeds, Decided, apply_min_change_threshold_lem}
use neural_autoscaler.Resize.Actuator.{
  Container, ContainerResizePlan, differs, target_differs, targets_changed, plan_container,
}

guarded_iff :
    {A : Type 0} (a b : Bool) (x y : A)
    → ((if a && b then some x else none) ≡ some y) ↔ ((a ≡ true) × (b ≡ true) × (x ≡ y))
guarded_iff true true x y = (λ e. (refl, refl, some-injective _ _ e), λ h. ap some h.2)
guarded_iff true false x y = (λ e. cc, λ h. cc h.1)
guarded_iff false b x y = (λ e. cc, λ h. cc h.0)

module _ {Q : Type 0} ⦃q : Quantity Q⦄ where
  -- The request of a container is not yet this target.
  abbrev pub IsOther : Option Q → Option Q → Type 0
  IsOther request none = ⊥
  IsOther none (some target) = Unit
  IsOther (some request) (some target) = ¬ (q.cmp request target ≡ Ordering.eq)

  differs_iff :
      (request : Option Q) (target : Q)
      → (differs request target ≡ true) ↔ IsOther request (some target)
  differs_iff none target = ground arith
  differs_iff (some request) target =
      let (there, back) = is_same_iff request target in
      elim (Bool-cases (is_same request target)) [
        | inl e ↦ rw e (λ h. cc h, λ other. absurd (other (there e)))
        | inr e ↦ rw e (λ _. λ same. cc (back same, e), λ _. refl)
      ]

  target_differs_iff :
      (current : ResourceList Q) (name : String) (target : Option Q)
      → (target_differs current name target ≡ true) ↔ IsOther (lookup name current) target
  target_differs_iff current name none = ground arith
  target_differs_iff current name (some target) = differs_iff (lookup name current) target

  targets_changed_iff :
      (current : ResourceList Q) (targets : TargetResult Q)
      → (targets_changed current targets ≡ true) ↔ (
          IsOther (lookup "cpu" current) targets.cpu
          ⊎ IsOther (lookup "memory" current) targets.memory)
  unfolding targets_changed
  targets_changed_iff current targets =
      or_iff _ _ (target_differs_iff current "cpu" targets.cpu)
        (target_differs_iff current "memory" targets.memory)

abbrev plan_of : {Q : Type 0} → ℕ → Container Q → TargetResult Q → ContainerResizePlan Q
plan_of idx c targets = record {
  index = idx;
  name = c.name;
  current = c.requests;
  targets = targets;
}

abbrev both : {Q : Type 0} → Option Q → Option Q → TargetResult Q
both cpu memory = record { cpu = cpu; memory = memory }

module _ (F : Type 0) {Q : Type 0} ⦃f : Float64 F⦄ ⦃q : Quantity Q⦄ where
  -- What the targets of a container are computed from.
  abbrev pub input_for : ResizeSpec → Dict F → ℤ → Container Q → TargetInput F Q
  input_for spec peaks pod_count c = record {
    forecast_peaks = peaks;
    pod_count = pod_count;
    current_requests = c.requests;
    resources = spec.resources;
  }

  -- The plan for a container: the computed targets as the thresholds leave them, which differ from the
  -- requests, and at least one of which is a large enough change.
  pub record IsPlan (spec : ResizeSpec) (peaks : Dict F) (n : ℤ) (idx : ℕ) (c : Container Q)
      (plan : ContainerResizePlan Q) : Type 0 where
    pub made_for :
        plan ≡ record { index = idx; name = c.name; current = c.requests; targets = plan.targets }
    pub large :
        Exceeds F spec.min_change_percent
          (current_quantity c.requests "cpu")
          (compute_targets (input_for spec peaks n c)).cpu
          (lookup "cpu" spec.resources)
        ⊎ Exceeds F spec.min_change_percent
            (current_quantity c.requests "memory")
            (compute_targets (input_for spec peaks n c)).memory
            (lookup "memory" spec.resources)
    pub cpu :
        Decided F spec.min_change_percent
          (current_quantity c.requests "cpu")
          (compute_targets (input_for spec peaks n c)).cpu
          (lookup "cpu" spec.resources)
          plan.targets.cpu
    pub memory :
        Decided F spec.min_change_percent
          (current_quantity c.requests "memory")
          (compute_targets (input_for spec peaks n c)).memory
          (lookup "memory" spec.resources)
          plan.targets.memory
    pub other :
        IsOther (lookup "cpu" c.requests) plan.targets.cpu
        ⊎ IsOther (lookup "memory" c.requests) plan.targets.memory

  -- A container is planned for, and with this plan, exactly when the change of the processor or of the
  -- memory, from its current request to the computed target, reaches the percentage in force, the
  -- plan has each computed target if its own change is large enough or its resource has no entry, and
  -- else the current request, and one of these targets is not a request of the container yet. The plan
  -- names the container, its index and its requests.
  pub plan_container_iff :
      (spec : ResizeSpec) (peaks : Dict F) (n : ℤ) (idx : ℕ) (c : Container Q)
      (plan : ContainerResizePlan Q)
      → (plan_container F spec peaks n idx c ≡ some plan) ↔ IsPlan spec peaks n idx c plan
  unfolding plan_container
  plan_container_iff spec peaks n idx c plan =
      let wanted = compute_targets (input_for spec peaks n c) in
      let (kept, changed) =
        apply_min_change_threshold F c.requests wanted spec.min_change_percent spec.resources in
      let (reported, cpu, memory) =
        apply_min_change_threshold_lem F c.requests wanted spec.min_change_percent spec.resources in
      let (there, back) =
        guarded_iff changed (targets_changed c.requests kept) (plan_of idx c kept) plan in
      (
        λ e.
            let (large, other, same) = there e in
            let targets : kept ≡ plan.targets = ap (λ p. p.targets) same in
            record {
              made_for = sym same ∙ ap (plan_of idx c) targets;
              large = reported.0 large;
              cpu = (cpu plan.targets.cpu).1 (ap (λ t. t.cpu) (sym targets));
              memory = (memory plan.targets.memory).1 (ap (λ t. t.memory) (sym targets));
              other =
                  (targets_changed_iff c.requests plan.targets).0
                    (subst (λ t. targets_changed c.requests t ≡ true) targets other);
            },
        λ h.
            let targets : kept ≡ plan.targets = sym (
              ap₂ both ((cpu plan.targets.cpu).0 h.cpu)
                ((memory plan.targets.memory).0 h.memory)) in
            let other : targets_changed c.requests kept ≡ true =
              subst (λ t. targets_changed c.requests t ≡ true) (sym targets)
                ((targets_changed_iff c.requests plan.targets).1 h.other) in
            back (reported.1 h.large, other, ap (plan_of idx c) targets ∙ sym h.made_for),
      )
