-- ===== src/Api/Resize.antt =====
-- api/v1alpha1/resize_validation.go, policy_clamp.go and min_change_percent.go: what a resize
-- configuration must satisfy, and how its bounds are applied to a quantity. An error is a value
-- with what its message says; the two `%w` prefixes are `in_field` and `in_resource`.
pub mod Clamp
pub mod Valid
use neural_autoscaler.Base.{
  String, Bool, true, false, ◌||◌, ◌==◌, Option, none, some, List, [], ◌∷◌, if◌then◌else◌,
}
use neural_autoscaler.Base.Int.{ℤ, pos, ltb_ℤ}
use neural_autoscaler.Base.Dict.{Dict}
use neural_autoscaler.Base.Text.{trim_space}
use neural_autoscaler.Base.Result.{Result, ok, err, ◌>>=◌, ◌>>◌, fail_if, wrap_err}
use neural_autoscaler.Api.Types.{
  ResizeSpec, ResourceBoundsSpec, ResourceMetric, resource_metric_cpu, resource_metric_memory,
  default_min_change_percent,
}
use neural_autoscaler.Api.Quantity.{Quantity, is_less, is_more}

pub data ResizeError : Type 0 where
  empty_container_name : ResizeError
  percent_range : String → ResizeError
  no_resources : ResizeError
  unsupported_resource : String → ResizeError
  bad_quantity : String → ResizeError
  min_exceeds_max : ResizeError
  in_field : String → ResizeError → ResizeError
  in_resource : String → ResizeError → ResizeError

unfoldable pub validate_min_change_percent : String → Option ℤ → Result ResizeError (Unit {0})
validate_min_change_percent field none = ok tt
validate_min_change_percent field (some value) =
    fail_if (ltb_ℤ value (pos 0) || ltb_ℤ (pos 100) value) (percent_range field)

unfoldable pub validate_resource_key : String → Result ResizeError (Unit {0})
validate_resource_key key =
    if key == resource_metric_cpu
    then ok tt
    else (if key == resource_metric_memory then ok tt else err (unsupported_resource key))

unfoldable pub effective_min_change_percent : (global per_resource : Option ℤ) → ℤ
effective_min_change_percent global (some percent) = percent
effective_min_change_percent (some percent) none = percent
effective_min_change_percent none none = default_min_change_percent

-- The resources with an entry. The names of Kubernetes' resources and of the metrics are the same.
unfoldable pub controlled_resource_set : Dict ResourceBoundsSpec → String → Bool
controlled_resource_set [] name = false
controlled_resource_set ((key, bounds) ∷ resources) name =
    (if key == resource_metric_cpu
      then name == "cpu"
      else (if key == resource_metric_memory then name == "memory" else false))
    || controlled_resource_set resources name

abbrev pub is_blank : Option String → Bool
is_blank none = false
is_blank (some name) = trim_space name == ""

module _ {Q : Type 0} ⦃q : Quantity Q⦄ where
  abbrev read_quantity : String → Option Q → Result ResizeError (Option Q)
  read_quantity raw none = err (bad_quantity raw)
  read_quantity raw (some amount) = ok (some amount)

  unfoldable pub parse_optional_quantity : Option String → Result ResizeError (Option Q)
  parse_optional_quantity none = ok none
  parse_optional_quantity (some raw) =
      if raw == "" then ok none else read_quantity raw (q.parse raw)

  unfoldable pub resource_bounds : ResourceBoundsSpec → Result ResizeError (Option Q × Option Q)
  unfolding parse_optional_quantity
  resource_bounds bounds = do
    lo ← wrap_err (in_field "min") (parse_optional_quantity bounds.min)
    hi ← wrap_err (in_field "max") (parse_optional_quantity bounds.max)
    ok (lo, hi)

  abbrev pub exceeds : Option Q → Option Q → Bool
  exceeds (some lo) (some hi) = is_more lo hi
  exceeds _ _ = false

  abbrev pub raise_to : Option Q → Q → Q
  raise_to none out = out
  raise_to (some lo) out = if is_less out lo then lo else out

  abbrev pub cut_to : Option Q → Q → Q
  cut_to none out = out
  cut_to (some hi) out = if is_more out hi then hi else out

  abbrev pub clamp_between : Result ResizeError (Option Q × Option Q) → Q → Q
  clamp_between (err e) out = out
  clamp_between (ok (lo, hi)) out = cut_to hi (raise_to lo out)

  unfoldable pub clamp_quantity : Q → ResourceBoundsSpec → Q
  unfolding resource_bounds
  clamp_quantity amount bounds = clamp_between (resource_bounds bounds) amount

-- The type of quantities shows only in what is read on the way.
module _ (Q : Type 0) ⦃q : Quantity Q⦄ where
  unfoldable pub validate_resource_bounds_spec :
      String → ResourceBoundsSpec → Result ResizeError (Unit {0})
  unfolding parse_optional_quantity validate_min_change_percent
  validate_resource_bounds_spec key bounds = do
    lo ← wrap_err (in_field "min") (parse_optional_quantity {Q = Q} bounds.min)
    hi ← wrap_err (in_field "max") (parse_optional_quantity {Q = Q} bounds.max)
    fail_if (exceeds lo hi) min_exceeds_max
    validate_min_change_percent "minChangePercent" bounds.min_change_percent

  -- The loop of `validateResizeResources`.
  unfoldable pub validate_entries : Dict ResourceBoundsSpec → Result ResizeError (Unit {0})
  unfolding validate_resource_key validate_resource_bounds_spec
  validate_entries [] = ok tt
  validate_entries ((key, bounds) ∷ resources) = do
    wrap_err (in_field "resize.resources") (validate_resource_key key)
    wrap_err (in_resource key) (validate_resource_bounds_spec key bounds)
    validate_entries resources

  unfoldable pub validate_resize_resources : Dict ResourceBoundsSpec → Result ResizeError (Unit {0})
  unfolding validate_entries
  validate_resize_resources [] = err no_resources
  validate_resize_resources (entry ∷ resources) = validate_entries (entry ∷ resources)

  unfoldable pub validate_resize : Option ResizeSpec → Result ResizeError (Unit {0})
  unfolding validate_min_change_percent validate_resize_resources
  validate_resize none = ok tt
  validate_resize (some spec) = do
    fail_if (is_blank spec.container_name) empty_container_name
    validate_min_change_percent "resize.minChangePercent" spec.min_change_percent
    validate_resize_resources spec.resources
