-- ===== src/Metrics/Pods.antt =====
-- `ResolvePodNames` of internal/metrics/workload_pods.go. The client of Kubernetes is a parameter, of
-- which nothing is assumed: what a `Get` of a pod or of a workload answers, how the selector of a
-- workload is read, and which pods a `List` returns.
use neural_autoscaler.Base.{
  ◌≡◌, refl, sym, ap, ◌∙◌, ◌↔◌, ◌⊎◌, inl, inr, String, Bool, true, ◌==◌, ◌||◌, eq_iff, Option, none,
  some, List, [], ◌∷◌, map, arith, or_iff, Bool-cases, if◌then◌else◌,
}
use neural_autoscaler.Base.Result.{Result, ok, err, ◌>>=◌, wrap_err}
use neural_autoscaler.Api.Types.{CrossVersionObjectReference}

-- `L` is a label selector as it is written, `S` a selector, `P` a pod and `E` an error.
pub record WorkloadClient (L S P E : Type 0) : Type 0 where
  pub get_pod : (namespace name : String) → Option E
  pub get_workload : (kind namespace name : String) → Result E L
  pub label_selector_as_selector : L → Result E S
  pub list_pods : (namespace : String) → S → Result E (List P)
  pub pod_name : P → String
  pub is_not_found : E → Bool

pub data PodsError (E : Type 0) : Type 0 where
  pod_get : String → E → PodsError E
  target_get : (kind name : String) → E → PodsError E
  selector_failed : (kind name : String) → E → PodsError E
  list_failed : (kind name : String) → E → PodsError E
  unsupported_kind : String → PodsError E

abbrev has_selector : String → Bool
has_selector kind = kind == "Deployment" || (kind == "StatefulSet" || kind == "ReplicaSet")

module _ {L S P E : Type 0} (client : WorkloadClient L S P E) where
  -- The three closures that are given to `podNamesForSelector`, one for each kind.
  abbrev workload_selector : (kind namespace name : String) → Result E S
  workload_selector kind namespace name =
      client.get_workload kind namespace name >>= client.label_selector_as_selector

  abbrev selector_error : (kind name : String) → E → PodsError E
  selector_error kind name e =
      if client.is_not_found e then target_get kind name e else selector_failed kind name e

  unfoldable pub pod_names_for_selector :
      (kind namespace name : String) → Result (PodsError E) (List String)
  pod_names_for_selector kind namespace name = do
    selector ← wrap_err (selector_error kind name) (workload_selector kind namespace name)
    pods ← wrap_err (list_failed kind name) (client.list_pods namespace selector)
    ok (map client.pod_name pods)

  abbrev one_pod : String → Option E → Result (PodsError E) (List String)
  one_pod name none = ok (name ∷ [])
  one_pod name (some e) = err (pod_get name e)

  unfoldable pub resolve_pod_names :
      String → CrossVersionObjectReference → Result (PodsError E) (List String)
  unfolding pod_names_for_selector
  resolve_pod_names namespace ref =
      if ref.kind == "Pod"
      then one_pod ref.name (client.get_pod namespace ref.name)
      else (if has_selector ref.kind
          then pod_names_for_selector ref.kind namespace ref.name
          else err (unsupported_kind ref.kind))

  -- What a workload's selector finds.
  abbrev pub Listed : Result E S → String → List String → Type 0
  Listed (err e) namespace names = ⊥
  Listed (ok selector) namespace names =
      (pods : List P) × (client.list_pods namespace selector ≡ ok pods)
      × (map client.pod_name pods ≡ names)

  listed_of_ok :
      (kind namespace name : String) (selector : S) (listed : Result E (List P))
      (names : List String)
      → (do pods ← wrap_err (list_failed kind name) listed; ok (map client.pod_name pods))
        ≡ ok names
      → (pods : List P) × (listed ≡ ok pods) × (map client.pod_name pods ≡ names)
  listed_of_ok kind namespace name selector (ok pods) names h = (pods, refl, ground arith)
  listed_of_ok kind namespace name selector (err e) names h = cc

  Listed-iff :
      (kind namespace name : String) (selector : Result E S) (names : List String)
      → (do
        s ← wrap_err (selector_error kind name) selector
        pods ← wrap_err (list_failed kind name) (client.list_pods namespace s)
        ok (map client.pod_name pods))
          ≡ ok names
        ↔ Listed selector namespace names
  Listed-iff kind namespace name (err e) names = (λ h. cc, λ h. absurd h)
  Listed-iff kind namespace name (ok s) names = (
    λ h. listed_of_ok kind namespace name s (client.list_pods namespace s) names h,
    λ (pods, e, same). rw e (ap ok same),
  )

  one_pod_iff :
      (name : String) (e : Option E) (names : List String)
      → (one_pod name e ≡ ok names) ↔ ((e ≡ none) × (name ∷ [] ≡ names))
  one_pod_iff name none names = (λ h. (refl, ground arith), λ h. ap ok h.1)
  one_pod_iff name (some e) names = (λ h. cc, λ h. cc)

abbrev pub HasSelector : String → Type 0
HasSelector kind = (kind ≡ "Deployment") ⊎ ((kind ≡ "StatefulSet") ⊎ (kind ≡ "ReplicaSet"))

has_selector_iff : (kind : String) → (has_selector kind ≡ true) ↔ HasSelector kind
has_selector_iff kind =
    or_iff _ _ (eq_iff kind "Deployment")
      (or_iff _ _ (eq_iff kind "StatefulSet") (eq_iff kind "ReplicaSet"))

pod_or_selector_iff :
    {E A P R : Type 0} {a b : Result E A} {x : A} (kind : String) (e : E)
    → (a ≡ ok x) ↔ P
    → (b ≡ ok x) ↔ R
    → ((if kind == "Pod" then a else (if has_selector kind then b else err e)) ≡ ok x)
      ↔ (((kind ≡ "Pod") × P) ⊎ (HasSelector kind × R))
pod_or_selector_iff kind e p r = elim (Bool-cases (kind == "Pod")) [
  | inl same ↦
      let pod = (eq_iff kind "Pod").0 same in
      let other : HasSelector kind → ⊥ = λ s.
        let clash : has_selector "Pod" ≡ true =
          ap has_selector (sym pod) ∙ (has_selector_iff kind).1 s in
        cc in
      rw same (λ h. inl (pod, p.0 h), elim [ inl h ↦ p.1 h.1 | inr h ↦ absurd (other h.0) ])
  | inr differ ↦
      let no_pod : kind ≡ "Pod" → ⊥ = λ k. cc ((eq_iff kind "Pod").1 k, differ) in
      rw differ (elim (Bool-cases (has_selector kind)) [
        | inl selects ↦ rw selects (
          λ h. inr ((has_selector_iff kind).0 selects, r.0 h),
          elim [ inl h ↦ absurd (no_pod h.0) | inr h ↦ r.1 h.1 ],
        )
        | inr unknown ↦ rw unknown (
          λ h. cc,
          elim [
            | inl h ↦ absurd (no_pod h.0)
            | inr h ↦ cc ((has_selector_iff kind).1 h.0, unknown)
          ],
        )
      ])
]

module _ {L S P E : Type 0} (client : WorkloadClient L S P E) where
  -- `ResolvePodNames` returns names exactly when the target is a pod that is there, whose name alone it
  -- returns, or a workload of a kind with a selector, whose selector can be read and whose pods can be
  -- listed. It then returns the names of the pods listed, in their order.
  pub resolve_pod_names_iff :
      (namespace : String) (ref : CrossVersionObjectReference) (names : List String)
      → (resolve_pod_names client namespace ref ≡ ok names) ↔ (
          ((ref.kind ≡ "Pod")
            × ((client.get_pod namespace ref.name ≡ none) × (ref.name ∷ [] ≡ names)))
          ⊎ (HasSelector ref.kind
              × Listed client
                  (workload_selector client ref.kind namespace ref.name)
                  namespace
                  names))
  unfolding resolve_pod_names pod_names_for_selector
  resolve_pod_names_iff namespace ref names =
      pod_or_selector_iff ref.kind (unsupported_kind ref.kind)
        (one_pod_iff client ref.name (client.get_pod namespace ref.name) names)
        (Listed-iff client ref.kind namespace ref.name
          (workload_selector client ref.kind namespace ref.name) names)
