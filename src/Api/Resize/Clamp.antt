-- ===== src/Api/Resize/Clamp.antt =====
-- What `ClampQuantity` does with a quantity.
use neural_autoscaler.Base.{◌≡◌, refl, ap, ◌∙◌, String, false, Option, none, some, arith}
use neural_autoscaler.Base.Result.{Result, ok, err}
use neural_autoscaler.Api.Types.{ResourceBoundsSpec}
use neural_autoscaler.Api.Quantity.{Quantity, IsOrdered, ◌≼◌}
use neural_autoscaler.Api.Resize.Valid.{Consistent, validate_resource_bounds_spec_iff}
use neural_autoscaler.Api.Resize.{
  ResizeError, resource_bounds, exceeds, raise_to, cut_to, clamp_between, clamp_quantity,
  validate_resource_bounds_spec,
}

module _ {Q : Type 0} ⦃q : Quantity Q⦄ where
  abbrev AtLeast : Option Q → Q → Type 0
  AtLeast none a = Unit
  AtLeast (some lo) a = lo ≼ a

  abbrev AtMost : Option Q → Q → Type 0
  AtMost none a = Unit
  AtMost (some hi) a = a ≼ hi

  -- The bounds can be read, and each one that is set holds of the amount.
  abbrev pub Within : Result ResizeError (Option Q × Option Q) → Q → Type 0
  Within (err e) a = ⊥
  Within (ok (lo, hi)) a = AtLeast lo a × AtMost hi a

  module _ (laws : IsOrdered Q) where
    open laws use {cmp_refl, cmp_flip, le_trans}

    raise_to-AtLeast : (lo : Option Q) (a : Q) → AtLeast lo (raise_to lo a)
    raise_to-AtLeast none a = tt
    raise_to-AtLeast (some lo) a = ground (arith, cmp_flip a lo, cmp_flip lo a, cmp_refl lo)

    cut_to-AtMost : (hi : Option Q) (a : Q) → AtMost hi (cut_to hi a)
    cut_to-AtMost none a = tt
    cut_to-AtMost (some hi) a = ground (arith, cmp_refl hi)

    cut_to-AtLeast :
        (lo hi : Option Q) (a : Q) → exceeds lo hi ≡ false → AtLeast lo a → AtLeast lo (cut_to hi a)
    cut_to-AtLeast none hi a e h = tt
    cut_to-AtLeast (some lo) none a e h = h
    cut_to-AtLeast (some lo) (some hi) a e h = ground arith

    raise_to_id : (lo : Option Q) (a : Q) → AtLeast lo a → raise_to lo a ≡ a
    raise_to_id none a h = refl
    raise_to_id (some lo) a h = ground (arith, cmp_flip a lo)

    cut_to_id : (hi : Option Q) (a : Q) → AtMost hi a → cut_to hi a ≡ a
    cut_to_id none a h = refl
    cut_to_id (some hi) a h = ground arith

    raise_to_mono : (lo : Option Q) (a b : Q) → a ≼ b → raise_to lo a ≼ raise_to lo b
    raise_to_mono none a b h = h
    raise_to_mono (some lo) a b h =
        ground (arith, cmp_flip a lo, cmp_flip b lo, cmp_flip lo b, cmp_refl lo, le_trans lo a b)

    cut_to_mono : (hi : Option Q) (a b : Q) → a ≼ b → cut_to hi a ≼ cut_to hi b
    cut_to_mono none a b h = h
    cut_to_mono (some hi) a b h =
        ground (arith, cmp_flip hi a, cmp_flip hi b, cmp_flip a hi, cmp_refl hi, le_trans a b hi)

    clamp_between-Within :
        (r : Result ResizeError (Option Q × Option Q)) (a : Q)
        → Consistent Q r
        → Within r (clamp_between r a) × (Within r a → clamp_between r a ≡ a)
    clamp_between-Within (err e) a c = absurd c
    clamp_between-Within (ok (lo, hi)) a c = (
      (
        cut_to-AtLeast lo hi (raise_to lo a) c (raise_to-AtLeast lo a),
        cut_to-AtMost hi (raise_to lo a),
      ),
      λ w. ap (cut_to hi) (raise_to_id lo a w.0) ∙ cut_to_id hi a w.1,
    )

    clamp_between_mono :
        (r : Result ResizeError (Option Q × Option Q)) (a b : Q)
        → a ≼ b
        → clamp_between r a ≼ clamp_between r b
    clamp_between_mono (err e) a b h = h
    clamp_between_mono (ok (lo, hi)) a b h =
        cut_to_mono hi (raise_to lo a) (raise_to lo b) (raise_to_mono lo a b h)

    -- Where the bounds of a resource pass the validation, `ClampQuantity` returns an amount within
    -- every bound that is set, and returns an amount that is already within them unchanged.
    pub clamp_quantity-Within :
        (key : String) (bounds : ResourceBoundsSpec) (a : Q)
        → validate_resource_bounds_spec Q key bounds ≡ ok tt
        → Within (resource_bounds bounds) (clamp_quantity a bounds)
          × (Within (resource_bounds bounds) a → clamp_quantity a bounds ≡ a)
    unfolding clamp_quantity
    clamp_quantity-Within key bounds a valid =
        clamp_between-Within (resource_bounds bounds) a
          ((validate_resource_bounds_spec_iff Q key bounds).0 valid).0

    -- `ClampQuantity` keeps the order of two amounts, whatever the bounds are.
    clamp_quantity_mono :
        (bounds : ResourceBoundsSpec) (a b : Q)
        → a ≼ b
        → clamp_quantity a bounds ≼ clamp_quantity b bounds
    unfolding clamp_quantity
    clamp_quantity_mono bounds a b h = clamp_between_mono (resource_bounds bounds) a b h
