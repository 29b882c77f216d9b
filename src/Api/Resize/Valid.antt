-- ===== src/Api/Resize/Valid.antt =====
-- What the validation of a resize configuration accepts, in words of the configuration.
use neural_autoscaler.Base.{
  ◌≡◌, refl, ◌≢◌, ◌↔◌, ◌⊎◌, String, false, Option, none, some, [], ◌∷◌, arith, eq_iff,
}
use neural_autoscaler.Base.Int.{ℤ, pos, ◌≤ℤ◌}
use neural_autoscaler.Base.Dict.{Dict}
use neural_autoscaler.Base.Result.{
  Result, ok, err, ◌>>=◌, ◌>>◌, fail_if, wrap_err, >>_iff, fail_if_iff, wrap_err_iff,
}
use neural_autoscaler.Api.Types.{ResizeSpec, ResourceBoundsSpec}
use neural_autoscaler.Api.Quantity.{Quantity}
use neural_autoscaler.Api.Resize.{
  ResizeError, min_exceeds_max, in_field, validate_min_change_percent, validate_resource_key,
  parse_optional_quantity, resource_bounds, exceeds, is_blank, validate_resource_bounds_spec,
  validate_entries, validate_resize_resources, validate_resize,
}

abbrev IsPercent : Option ℤ → Type 0
IsPercent none = Unit
IsPercent (some value) = (pos 0 ≤ℤ value) × (value ≤ℤ pos 100)

abbrev IsControllable : String → Type 0
IsControllable key = (key ≡ "cpu") ⊎ (key ≡ "memory")

validate_min_change_percent_iff :
    (field : String) (value : Option ℤ)
    → (validate_min_change_percent field value ≡ ok tt) ↔ IsPercent value
unfolding validate_min_change_percent
validate_min_change_percent_iff field none = (λ _. tt, λ _. refl)
validate_min_change_percent_iff field (some value) = ground arith

validate_resource_key_iff :
    (key : String) → (validate_resource_key key ≡ ok tt) ↔ IsControllable key
unfolding validate_resource_key
validate_resource_key_iff key = ground (arith, eq_iff key "cpu", eq_iff key "memory")

module _ (Q : Type 0) ⦃q : Quantity Q⦄ where
  -- The bounds can be read, and the lower is not above the upper.
  abbrev pub Consistent : Result ResizeError (Option Q × Option Q) → Type 0
  Consistent (err e) = ⊥
  Consistent (ok (lo, hi)) = exceeds lo hi ≡ false

  checked_iff :
      (lo hi : Result ResizeError (Option Q)) (rest : Result ResizeError (Unit {0}))
      → (do
        l ← wrap_err (in_field "min") lo
        h ← wrap_err (in_field "max") hi
        fail_if (exceeds l h) min_exceeds_max
        rest)
          ≡ ok tt
        ↔ Consistent
            (do l ← wrap_err (in_field "min") lo; h ← wrap_err (in_field "max") hi; ok (l, h))
          × (rest ≡ ok tt)
  checked_iff (err e) hi rest = ground arith
  checked_iff (ok l) (err e) rest = ground arith
  checked_iff (ok l) (ok h) rest = ground arith

  abbrev pub IsValidBounds : ResourceBoundsSpec → Type 0
  IsValidBounds bounds = Consistent (resource_bounds bounds) × IsPercent bounds.min_change_percent

  pub validate_resource_bounds_spec_iff :
      (key : String) (bounds : ResourceBoundsSpec)
      → (validate_resource_bounds_spec Q key bounds ≡ ok tt) ↔ IsValidBounds bounds
  unfolding validate_resource_bounds_spec resource_bounds
  validate_resource_bounds_spec_iff key bounds =
      let lo = parse_optional_quantity {Q = Q} bounds.min in
      let hi = parse_optional_quantity {Q = Q} bounds.max in
      let percent = validate_min_change_percent_iff "minChangePercent" bounds.min_change_percent in
      let rest = validate_min_change_percent "minChangePercent" bounds.min_change_percent in
      (
        λ h. let c = (checked_iff lo hi rest).0 h in (c.0, percent.0 c.1),
        λ v. (checked_iff lo hi rest).1 (v.0, percent.1 v.1),
      )

  abbrev pub AreValidEntries : Dict ResourceBoundsSpec → Type 0
  AreValidEntries [] = Unit
  AreValidEntries ((key, bounds) ∷ resources) =
      IsControllable key × IsValidBounds bounds × AreValidEntries resources

  validate_entries_iff :
      (resources : Dict ResourceBoundsSpec)
      → (validate_entries Q resources ≡ ok tt) ↔ AreValidEntries resources
  unfolding validate_entries
  validate_entries_iff [] = (λ _. tt, λ _. refl)
  validate_entries_iff ((key, bounds) ∷ resources) =
      let known = validate_resource_key_iff key in
      let bounded = validate_resource_bounds_spec_iff key bounds in
      let rest = validate_entries_iff resources in
      (
        λ h.
            let c = (>>_iff _ _).0 h in
            let d = (>>_iff _ _).0 c.1 in
            (known.0 ((wrap_err_iff _ _).0 c.0), bounded.0 ((wrap_err_iff _ _).0 d.0), rest.0 d.1),
        λ v. (>>_iff _ _).1 (
          (wrap_err_iff _ _).1 (known.1 v.0),
          (>>_iff _ _).1 ((wrap_err_iff _ _).1 (bounded.1 v.1), rest.1 v.2),
        ),
      )

  validate_resize_resources_iff :
      (resources : Dict ResourceBoundsSpec)
      → (validate_resize_resources Q resources ≡ ok tt)
        ↔ ((resources ≢ []) × AreValidEntries resources)
  unfolding validate_resize_resources
  validate_resize_resources_iff [] = (λ h. cc, λ v. absurd (v.0 refl))
  validate_resize_resources_iff (entry ∷ resources) =
      let each = validate_entries_iff (entry ∷ resources) in
      (λ h. (λ e. cc, each.0 h), λ v. each.1 v.1)

  -- `ValidateResize` accepts a configuration exactly when the container's name, where it is set, is
  -- not blank, each percentage that is set is from 0 to 100, there is an entry, and each entry is
  -- for the processor or the memory, with bounds that can be read and do not cross.
  pub validate_resize_iff :
      (spec : ResizeSpec)
      → (validate_resize Q (some spec) ≡ ok tt) ↔ (
          (is_blank spec.container_name ≡ false)
          × IsPercent spec.min_change_percent
          × (spec.resources ≢ [])
          × AreValidEntries spec.resources)
  unfolding validate_resize
  validate_resize_iff spec =
      let percent =
        validate_min_change_percent_iff "resize.minChangePercent" spec.min_change_percent in
      let rest = validate_resize_resources_iff spec.resources in
      (
        λ h.
            let c = (>>_iff _ _).0 h in
            let d = (>>_iff _ _).0 c.1 in
            ((fail_if_iff _ _).0 c.0, percent.0 d.0, (rest.0 d.1).0, (rest.0 d.1).1),
        λ v.
            (>>_iff _ _).1
              ((fail_if_iff _ _).1 v.0, (>>_iff _ _).1 (percent.1 v.1, rest.1 (v.2, v.3))),
      )
