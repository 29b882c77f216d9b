-- ===== src/Resize/Actuator/Build.antt =====
-- What `buildResizePod` writes into a pod.
use neural_autoscaler.Base.{
  ℕ, ◌≡◌, refl, ap, ◌∙◌, inl, inr, String, Bool, true, false, ◌==◌, eq_iff, Option, none, some,
  List, [], ◌∷◌, arith, eqb, Option-cases, length, get_elem?, length-set, get_elem?-set,
  if◌then◌else◌,
}
use neural_autoscaler.Base.Dict.{lookup, lookup-insert}
use neural_autoscaler.Api.Quantity.{Quantity, is_less}
use neural_autoscaler.Resize.Target.{ResourceList, TargetResult}
use neural_autoscaler.Resize.Actuator.{
  Container, Pod, ContainerResizePlan, raise_limit, set_request, resize_container, resized,
  set_container, apply_plans,
}

module _ {Q : Type 0} ⦃q : Quantity Q⦄ where
  -- The target that a resize sets for a resource, if it sets one.
  abbrev pub target_for : (String → Bool) → TargetResult Q → String → Option Q
  target_for controlled targets name =
      if "memory" == name
      then (if controlled "memory" then targets.memory else none)
      else (if "cpu" == name then (if controlled "cpu" then targets.cpu else none) else none)

  abbrev pub request_after : Option Q → Option Q → Option Q
  request_after none old = old
  request_after (some target) old = some target

  -- A limit is raised to a target above it. None is set where there was none.
  abbrev pub limit_after : Option Q → Option Q → Option Q
  limit_after none old = old
  limit_after (some target) none = none
  limit_after (some target) (some limit) = some (if is_less limit target then target else limit)

  lookup-raise_limit :
      (name k : String) (target : Q) (old : Option Q) (limits : ResourceList Q)
      → lookup name limits ≡ old
      → lookup k (raise_limit name target old limits)
        ≡ (if name == k then limit_after (some target) old else lookup k limits)
  lookup-raise_limit name k target none limits e = ground (arith, eq_iff name k)
  lookup-raise_limit name k target (some limit) limits e =
      ground (arith, eq_iff name k, lookup-insert k name target limits)

  -- One resource: its request and its limit, and nothing of any other resource.
  set_request_lem :
      (on : Bool) (name : String) (target : Option Q) (c : Container Q) (k : String)
      → let wanted = if name == k then (if on then target else none) else none in
        let new = set_request on name target c in
        (lookup k new.requests ≡ request_after wanted (lookup k c.requests))
        × (lookup k new.limits ≡ limit_after wanted (lookup k c.limits))
        × (new.name ≡ c.name)
  unfolding set_request
  set_request_lem false name target c k = ground arith
  set_request_lem true name none c k = ground arith
  set_request_lem true name (some target) c k =
      let limits = lookup-raise_limit name k target (lookup name c.limits) c.limits refl in
      ground (arith, eq_iff name k, lookup-insert k name target c.requests, limits)

  -- After a resize of a container each controlled resource with a target has that target for its
  -- request. Its limit, where it had one, is the old one or the target, whichever is more. All other
  -- requests and limits, and the container's name, are as before.
  pub resize_container_lem :
      (controlled : String → Bool) (targets : TargetResult Q) (c : Container Q) (name : String)
      → let wanted = target_for controlled targets name in
        let new = resize_container controlled targets c in
        (lookup name new.requests ≡ request_after wanted (lookup name c.requests))
        × (lookup name new.limits ≡ limit_after wanted (lookup name c.limits))
        × (new.name ≡ c.name)
  unfolding resize_container
  resize_container_lem controlled targets c name =
      let middle = set_request (controlled "cpu") "cpu" targets.cpu c in
      let first = set_request_lem (controlled "cpu") "cpu" targets.cpu c name in
      let second = set_request_lem (controlled "memory") "memory" targets.memory middle name in
      ground (arith, first, second, eq_iff "cpu" name, eq_iff "memory" name, eq_iff "cpu" "memory")

  -- What becomes of container `j`: each plan for it changes it once more.
  abbrev pub after_plans :
      (String → Bool)
      → List (ContainerResizePlan Q)
      → ℕ
      → Option (Container Q)
      → Option (Container Q)
  after_plans controlled [] j c = c
  after_plans controlled (plan ∷ plans) j c =
      after_plans controlled plans j
        (if eqb plan.index j then resized controlled plan.targets c else c)

  -- All of a pod but what its containers hold.
  abbrev pub SamePod : Pod Q → Pod Q → Type 0
  SamePod new old =
      (length new.containers ≡ length old.containers)
      × (new.name ≡ old.name)
      × (new.namespace ≡ old.namespace)
      × (new.conditions ≡ old.conditions)
      × (new.terminating ≡ old.terminating)

  set_container_lem :
      (controlled : String → Bool) (plan : ContainerResizePlan Q) (pod : Pod Q) (j : ℕ)
      → let new =
          set_container plan.index
            (resized controlled plan.targets (get_elem? pod.containers plan.index))
            pod in
        (get_elem? new.containers j ≡ (
          if eqb plan.index j
          then resized controlled plan.targets (get_elem? pod.containers j)
          else get_elem? pod.containers j))
        × SamePod new pod
  set_container_lem controlled plan pod j =
      elim (Option-cases (get_elem? pod.containers plan.index)) [
        | inl e ↦ ground (arith, e)
        | inr (c, e) ↦
            let new = resize_container controlled plan.targets c in
            rw e (
              ground (
                arith,
                e,
                get_elem?-set pod.containers plan.index j new c e,
                length-set pod.containers plan.index new,
              ))
      ]

  SamePod-trans : (a b c : Pod Q) → SamePod a b → SamePod b c → SamePod a c
  SamePod-trans a b c h k = (h.0 ∙ k.0, h.1 ∙ k.1, h.2 ∙ k.2, h.3 ∙ k.3, h.4 ∙ k.4)

  -- Each container is changed by the plans for its index, and nothing else in the pod is.
  pub apply_plans_lem :
      (controlled : String → Bool) (plans : List (ContainerResizePlan Q)) (pod : Pod Q) (j : ℕ)
      → let new = apply_plans controlled plans pod in
        (get_elem? new.containers j ≡ after_plans controlled plans j (get_elem? pod.containers j))
        × SamePod new pod
  unfolding apply_plans
  apply_plans_lem controlled [] pod j = (refl, (refl, refl, refl, refl, refl))
  apply_plans_lem controlled (plan ∷ plans) pod j =
      let middle =
        set_container plan.index
          (resized controlled plan.targets (get_elem? pod.containers plan.index)) pod in
      let step = set_container_lem controlled plan pod j in
      let rest = apply_plans_lem controlled plans middle j in
      (
        rest.0 ∙ ap (after_plans controlled plans j) step.0,
        SamePod-trans (apply_plans controlled plans middle) middle pod rest.1 step.1,
      )
