-- ===== src/Resize/Threshold/Large.antt =====
-- Which change of an amount `ExceedsMinChangeThreshold` takes for large enough.
use Prim.Native.Nat.{Ordering}
use neural_autoscaler.Base.{
  zero, suc, ◌≡◌, refl, sym, ◌∙◌, ◌≢◌, ◌↔◌, ◌⊎◌, inl, inr, Bool, true, false, ◌&&◌, arith,
  Bool-cases, if◌then◌else◌,
}
use neural_autoscaler.Base.Int.{ℤ, pos, negsuc}
use neural_autoscaler.Base.Float.{Float64}
use neural_autoscaler.Api.Quantity.{Quantity, is_same}
use neural_autoscaler.Resize.Peak.{nought}
use neural_autoscaler.Resize.Threshold.{
  quantity_magnitude, quantity_percent_change, exceeds_min_change_threshold, is_zero_int64,
  is_positive,
}

is_zero_int64_iff : (z : ℤ) → (is_zero_int64 z ≡ true) ↔ (z ≡ pos 0)
is_zero_int64_iff (pos zero) = ground arith
is_zero_int64_iff (pos (suc n)) = ground arith
is_zero_int64_iff (negsuc n) = ground arith

-- The tests of `ExceedsMinChangeThreshold`.
abbrev branch : (zero_now up same reaches : Bool) → Bool
branch zero_now up same reaches = if zero_now then up else (if same then false else reaches)

branch_iff :
    (z up same reaches : Bool)
    → (branch z up same reaches ≡ true)
      ↔ (((z ≡ true) × (up ≡ true)) ⊎ ((z ≡ false) × (same ≡ false) × (reaches ≡ true)))
branch_iff true up same reaches = ground arith
branch_iff false up true reaches = ground arith
branch_iff false up false reaches = ground arith

not_true : (b : Bool) → b ≢ true → b ≡ false
not_true true h = absurd (h refl)
not_true false h = refl

is_gt_iff :
    (o : Ordering) → ((elim o [ Ordering.gt ↦ true | _ ↦ false ]) ≡ true) ↔ (o ≡ Ordering.gt)
is_gt_iff Ordering.lt = ground arith
is_gt_iff Ordering.eq = ground arith
is_gt_iff Ordering.gt = ground arith

is_eq_iff :
    (o : Ordering) → ((elim o [ Ordering.eq ↦ true | _ ↦ false ]) ≡ true) ↔ (o ≡ Ordering.eq)
is_eq_iff Ordering.lt = ground arith
is_eq_iff Ordering.eq = ground arith
is_eq_iff Ordering.gt = ground arith

module _ {Q : Type 0} ⦃q : Quantity Q⦄ where
  is_positive_iff : (amount : Q) → (is_positive amount ≡ true) ↔ (q.sign amount ≡ Ordering.gt)
  is_positive_iff amount = is_gt_iff (q.sign amount)

  pub is_same_iff : (a b : Q) → (is_same a b ≡ true) ↔ (q.cmp a b ≡ Ordering.eq)
  is_same_iff a b = is_eq_iff (q.cmp a b)

module _ (F : Type 0) {Q : Type 0} ⦃f : Float64 F⦄ ⦃q : Quantity Q⦄ where
  -- An amount as a float: in thousandths, or in units where it has no thousandths.
  pub data IsMagnitude (amount : Q) : F → Type 0 where
    no_amount : q.is_zero amount ≡ true → IsMagnitude amount nought
    in_thousandths :
        q.is_zero amount ≡ false
        → q.milli_value amount ≢ pos 0
        → IsMagnitude amount (f.of_int64 (q.milli_value amount))
    in_units :
        q.is_zero amount ≡ false
        → q.milli_value amount ≡ pos 0
        → IsMagnitude amount (f.of_int64 (q.value amount))

  -- A change in percent of the old amount, 0 from an old amount of 0.
  pub data IsPercentChange (old new : Q) : F → Type 0 where
    from_nothing :
        (a : F)
        → IsMagnitude old a
        → (f.le a nought && f.le nought a) ≡ true
        → IsPercentChange old new nought
    relative :
        (a b : F)
        → IsMagnitude old a
        → IsMagnitude new b
        → (f.le a nought && f.le nought a) ≡ false
        → IsPercentChange old new (f.mul (f.div (f.abs (f.sub b a)) a) (f.decimal 100 0))

  -- A change that is not below a percentage of the old amount; from 0, any rise.
  pub data IsLarge (old new : Q) (percent : ℤ) : Type 0 where
    from_zero : q.is_zero old ≡ true → q.sign new ≡ Ordering.gt → IsLarge old new percent
    by_percent :
        (change : F)
        → q.is_zero old ≡ false
        → q.cmp new old ≢ Ordering.eq
        → IsPercentChange old new change
        → f.le (f.of_int64 percent) change ≡ true
        → IsLarge old new percent

  quantity_magnitude-IsMagnitude : (amount : Q) → IsMagnitude amount (quantity_magnitude F amount)
  unfolding quantity_magnitude
  quantity_magnitude-IsMagnitude amount = elim (Bool-cases (q.is_zero amount)) [
    | inl e ↦ rw e (no_amount e)
    | inr e ↦ elim (Bool-cases (is_zero_int64 (q.milli_value amount))) [
      | inl none_left ↦
          rw (e, none_left) (in_units e ((is_zero_int64_iff (q.milli_value amount)).0 none_left))
      | inr some_left ↦
          rw (e, some_left)
            (in_thousandths e
              (λ same. cc ((is_zero_int64_iff (q.milli_value amount)).1 same, some_left)))
    ]
  ]

  IsMagnitude-eq : (amount : Q) (m : F) → IsMagnitude amount m → quantity_magnitude F amount ≡ m
  unfolding quantity_magnitude
  IsMagnitude-eq amount _ (no_amount e) = rw e refl
  IsMagnitude-eq amount _ (in_thousandths e h) =
      elim (Bool-cases (is_zero_int64 (q.milli_value amount))) [
        | inl none_left ↦ absurd (h ((is_zero_int64_iff (q.milli_value amount)).0 none_left))
        | inr some_left ↦ rw (e, some_left) refl
      ]
  IsMagnitude-eq amount _ (in_units e h) =
      rw (e, (is_zero_int64_iff (q.milli_value amount)).1 h) refl

  quantity_percent_change-IsPercentChange :
      (old new : Q) → IsPercentChange old new (quantity_percent_change F old new)
  unfolding quantity_percent_change
  quantity_percent_change-IsPercentChange old new =
      let a = quantity_magnitude F old in
      elim (Bool-cases (f.le a nought && f.le nought a)) [
        | inl e ↦ rw e (from_nothing a (quantity_magnitude-IsMagnitude old) e)
        | inr e ↦ rw e (
            relative a (quantity_magnitude F new) (quantity_magnitude-IsMagnitude old)
              (quantity_magnitude-IsMagnitude new) e)
      ]

  IsPercentChange-eq :
      (old new : Q) (change : F)
      → IsPercentChange old new change
      → quantity_percent_change F old new ≡ change
  unfolding quantity_percent_change
  IsPercentChange-eq old new _ (from_nothing a h e) = rw (IsMagnitude-eq old a h, e) refl
  IsPercentChange-eq old new _ (relative a b h k e) =
      rw (IsMagnitude-eq old a h, IsMagnitude-eq new b k, e) refl

  exceeds-branch :
      (old new : Q) (percent : ℤ)
      → exceeds_min_change_threshold F old new percent
        ≡ branch
            (q.is_zero old)
            (is_positive new)
            (is_same new old)
            (f.le (f.of_int64 percent) (quantity_percent_change F old new))
  unfolding exceeds_min_change_threshold
  exceeds-branch old new percent = refl

  pub exceeds_iff :
      (old new : Q) (percent : ℤ)
      → (exceeds_min_change_threshold F old new percent ≡ true) ↔ IsLarge old new percent
  exceeds_iff old new percent =
      let (there, back) =
        branch_iff (q.is_zero old) (is_positive new) (is_same new old)
          (f.le (f.of_int64 percent) (quantity_percent_change F old new)) in
      (
        λ e. elim (there (sym (exceeds-branch old new percent) ∙ e)) [
          | inl (zero_now, up) ↦ from_zero zero_now ((is_positive_iff new).0 up)
          | inr (some_now, differ, reaches) ↦
              by_percent (quantity_percent_change F old new) some_now
                (λ same. cc ((is_same_iff new old).1 same, differ))
                (quantity_percent_change-IsPercentChange old new) reaches
        ],
        λ large.
            exceeds-branch old new percent
            ∙ back (elim large [
              | from_zero zero_now up ↦ inl (zero_now, (is_positive_iff new).1 up)
              | by_percent change some_now differ is_change reaches ↦ inr (
                some_now,
                not_true (is_same new old) (λ same. differ ((is_same_iff new old).0 same)),
                rw (IsPercentChange-eq old new change is_change) reaches,
              )
            ]),
      )
