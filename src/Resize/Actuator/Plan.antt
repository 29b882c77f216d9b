-- ===== src/Resize/Actuator/Plan.antt =====
-- Which containers `resizePod` changes, and to what.
use mathlib.Core.Option.{some-injective}
use neural_autoscaler.Base.{
  subst, ℕ, zero, suc, ◌+◌, ◌≤◌, ◌<◌, ◌≡◌, refl, ◌∙◌, ◌≢◌, ◌↔◌, ◌⊎◌, inl, inr, String, Bool, true,
  false, ◌==◌, eq_iff, Option, none, some, List, [], ◌∷◌, arith, eqb, Bool-cases, Option-cases,
  length, get_elem?, member, IsDistinct, if◌then◌else◌,
}
use neural_autoscaler.Base.Int.{ℤ}
use neural_autoscaler.Base.Dict.{Dict}
use neural_autoscaler.Base.Float.{Float64}
use neural_autoscaler.Api.Types.{ResizeSpec, ResourceBoundsSpec}
use neural_autoscaler.Api.Quantity.{Quantity}
use neural_autoscaler.Api.Resize.{controlled_resource_set}
use neural_autoscaler.Resize.Actuator.{
  Container, Pod, ContainerResizePlan, resized, indexes_from, index_of, indexes_for,
  target_container_indexes, resize_in_progress, build_resize_pod, plan_container, plan_at,
  plans_for, pod_with_plans, resize_request,
}
use neural_autoscaler.Resize.Actuator.Build.{after_plans, SamePod, apply_plans_lem}

module _ {Q : Type 0} where
  member-indexes_from :
      (i j : ℕ) (cs : List (Container Q))
      → (member j (indexes_from i cs) ≡ true) ↔ ((i ≤ j) × (j < i + length cs))
  unfolding indexes_from
  member-indexes_from i j [] = (λ h. cc, λ h. absurd (omega arith))
  member-indexes_from i j (c ∷ cs) = ground (arith, member-indexes_from (i + 1) j cs)

  indexes_from-IsDistinct : (i : ℕ) (cs : List (Container Q)) → IsDistinct (indexes_from i cs)
  unfolding indexes_from
  indexes_from-IsDistinct i [] = tt
  indexes_from-IsDistinct i (c ∷ cs) =
      (ground (arith, member-indexes_from (i + 1) i cs), indexes_from-IsDistinct (i + 1) cs)

  index_of-IsDistinct :
      (name : String) (i : ℕ) (cs : List (Container Q)) → IsDistinct (index_of name i cs)
  unfolding index_of
  index_of-IsDistinct name i [] = tt
  index_of-IsDistinct name i (c ∷ cs) = ground (arith, index_of-IsDistinct name (i + 1) cs)

  indexes_for-IsDistinct :
      (name : Option String) (cs : List (Container Q)) → IsDistinct (indexes_for name cs)
  indexes_for-IsDistinct name [] = tt
  indexes_for-IsDistinct none (c ∷ cs) = (refl, tt)
  indexes_for-IsDistinct (some name) (c ∷ cs) =
      ground (arith, indexes_from-IsDistinct 0 (c ∷ cs), index_of-IsDistinct name 0 (c ∷ cs))

  -- Container `j` is the first one of that name.
  abbrev FirstNamed : String → List (Container Q) → ℕ → Type 0
  FirstNamed name [] j = ⊥
  FirstNamed name (c ∷ cs) zero = c.name ≡ name
  FirstNamed name (c ∷ cs) (suc j) = (c.name ≢ name) × FirstNamed name cs j

  -- Which containers a configuration means: the first one, all of them, or the one of a name.
  abbrev pub Selected : Option String → List (Container Q) → ℕ → Type 0
  Selected none cs j = (j ≡ 0) × (j < length cs)
  Selected (some name) cs j =
      ((name ≡ "*") × (j < length cs)) ⊎ ((name ≢ "*") × FirstNamed name cs j)

  le-member-index_of :
      (name : String) (i j : ℕ) (cs : List (Container Q))
      → member j (index_of name i cs) ≡ true
      → i ≤ j
  unfolding index_of
  le-member-index_of name i j [] h = cc
  le-member-index_of name i j (c ∷ cs) h = ground (arith, le-member-index_of name (i + 1) j cs)

  member-index_of :
      (name : String) (i j k : ℕ) (cs : List (Container Q))
      → j ≡ i + k
      → (member j (index_of name i cs) ≡ true) ↔ FirstNamed name cs k
  unfolding index_of
  member-index_of name i j k [] e = (λ h. cc, λ h. absurd h)
  member-index_of name i j zero (c ∷ cs) e =
      ground (arith, eq_iff c.name name, le-member-index_of name (i + 1) j cs)
  member-index_of name i j (suc k) (c ∷ cs) e =
      ground (arith, eq_iff c.name name, member-index_of name (i + 1) j k cs (omega arith))

  named_iff :
      (name : String) (c : Container Q) (cs : List (Container Q)) (j : ℕ)
      → (member j (indexes_for (some name) (c ∷ cs)) ≡ true) ↔ Selected (some name) (c ∷ cs) j
  named_iff name c cs j = elim (Bool-cases (name == "*")) [
    | inl e ↦
        let all = member-indexes_from 0 j (c ∷ cs) in
        let star = (eq_iff name "*").0 e in
        rw e (
          λ h. inl (star, omega (arith, all.0 h)),
          elim [ inl s ↦ all.1 (omega arith, omega (arith, s.1)) | inr s ↦ absurd (s.0 star) ],
        )
    | inr ne ↦
        let first = member-index_of name 0 j j (c ∷ cs) (omega arith) in
        let plain : name ≢ "*" = ground (arith, eq_iff name "*") in
        rw ne
          (λ h. inr (plain, first.0 h), elim [ inl s ↦ absurd (plain s.0) | inr s ↦ first.1 s.1 ])
  ]

  indexes_for_iff :
      (name : Option String) (cs : List (Container Q)) (j : ℕ)
      → (member j (indexes_for name cs) ≡ true) ↔ Selected name cs j
  indexes_for_iff none [] j = (λ h. cc, λ h. absurd (omega arith))
  indexes_for_iff (some name) [] j = (λ h. cc, λ h. absurd (ground arith))
  indexes_for_iff none (c ∷ cs) j = ground arith
  indexes_for_iff (some name) (c ∷ cs) j = named_iff name c cs j

  -- The indexes are those of the containers that the configuration means, each once. With no name it
  -- means the first container, with "*" all, and with any other name the first one of that name.
  pub target_container_indexes_iff :
      (pod : Pod Q) (spec : ResizeSpec) (j : ℕ)
      → let indexes = target_container_indexes pod (some spec) in
        ((member j indexes ≡ true) ↔ Selected spec.container_name pod.containers j)
        × IsDistinct indexes
  unfolding target_container_indexes
  target_container_indexes_iff pod spec j = (
    indexes_for_iff spec.container_name pod.containers j,
    indexes_for-IsDistinct spec.container_name pod.containers,
  )

module _ (F : Type 0) {Q : Type 0} ⦃f : Float64 F⦄ ⦃q : Quantity Q⦄ where
  plan_at-index :
      (spec : ResizeSpec) (peaks : Dict F) (n : ℤ) (idx : ℕ) (c : Option (Container Q))
      (plan : ContainerResizePlan Q)
      → plan_at F spec peaks n idx c ≡ some plan
      → plan.index ≡ idx
  unfolding plan_container
  plan_at-index spec peaks n idx none plan e = cc
  plan_at-index spec peaks n idx (some c) plan e = ground arith

  -- A container changed by its plan, if it has one.
  abbrev pub changed_by :
      (String → Bool) → Option (ContainerResizePlan Q) → Option (Container Q) → Option (Container Q)
  changed_by controlled none c = c
  changed_by controlled (some plan) c = resized controlled plan.targets c

  after_plans-plans_for :
      (spec : ResizeSpec) (controlled : String → Bool) (peaks : Dict F) (n : ℤ)
      (containers : List (Container Q)) (indexes : List ℕ) (j : ℕ) (c : Option (Container Q))
      → IsDistinct indexes
      → after_plans controlled (plans_for F spec peaks n containers indexes) j c ≡ (
          if member j indexes
          then changed_by controlled (plan_at F spec peaks n j (get_elem? containers j)) c
          else c)
  unfolding plans_for
  after_plans-plans_for spec controlled peaks n containers [] j c u = refl
  after_plans-plans_for spec controlled peaks n containers (idx ∷ indexes) j c (fresh, u) =
      elim (Option-cases (plan_at F spec peaks n idx (get_elem? containers idx))) [
        | inl e ↦ rw e (
            ground
              (arith, e, after_plans-plans_for spec controlled peaks n containers indexes j c u))
        | inr (plan, e) ↦
            let same = plan_at-index spec peaks n idx (get_elem? containers idx) plan e in
            let once = if eqb idx j then resized controlled plan.targets c else c in
            rw e (
              ground (
                arith,
                e,
                same,
                after_plans-plans_for spec controlled peaks n containers indexes j once u,
              ))
      ]

  pod_with_plans-eq :
      (pod new : Pod Q) (resources : Dict ResourceBoundsSpec) (plans : List (ContainerResizePlan Q))
      → pod_with_plans F pod resources plans ≡ some new
      → build_resize_pod pod plans resources ≡ new
  pod_with_plans-eq pod new resources [] e = cc
  pod_with_plans-eq pod new resources (plan ∷ plans) e = some-injective _ _ e

  -- What `resizePod` submits, if it submits anything, is a pod with no resize in progress and not
  -- being deleted, in which each container that the configuration means is changed by its own plan,
  -- made from its own requests before the change, and all else is as it was.
  pub resize_request_lem :
      (spec : ResizeSpec) (peaks : Dict F) (n : ℤ) (pod new : Pod Q) (j : ℕ)
      → resize_request F spec peaks n pod ≡ some new
      → let c = get_elem? pod.containers j in
        (get_elem? new.containers j ≡ (
          if member j (target_container_indexes pod (some spec))
          then changed_by (controlled_resource_set spec.resources) (plan_at F spec peaks n j c) c
          else c))
        × SamePod new pod
        × (pod.terminating ≡ false)
        × (resize_in_progress pod ≡ false)
  unfolding resize_request build_resize_pod
  resize_request_lem spec peaks n pod new j e =
      let controlled = controlled_resource_set spec.resources in
      let indexes = target_container_indexes pod (some spec) in
      let plans = plans_for F spec peaks n pod.containers indexes in
      let guards : (pod.terminating ≡ false) × (resize_in_progress pod ≡ false) = ground arith in
      let reached : pod_with_plans F pod spec.resources plans ≡ some new = ground (arith, guards) in
      let built = pod_with_plans-eq pod new spec.resources plans reached in
      let changed = apply_plans_lem controlled plans pod j in
      let c = get_elem? pod.containers j in
      let distinct = (target_container_indexes_iff pod spec j).1 in
      subst
        (λ p.
          (get_elem? p.containers j ≡ (
            if member j indexes then changed_by controlled (plan_at F spec peaks n j c) c else c))
          × SamePod p pod
          × (pod.terminating ≡ false)
          × (resize_in_progress pod ≡ false))
        built
        (
          changed.0
              ∙ after_plans-plans_for spec controlled peaks n pod.containers indexes j c distinct,
          changed.1,
          guards.0,
          guards.1,
        )
