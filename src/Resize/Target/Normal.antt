-- ===== src/Resize/Target/Normal.antt =====
-- What rounding a memory request to whole units does to its amount.
use Prim.Native.String.{◌++◌ as ◌<>◌}
use native.Mathlib.Nat.{div-add-mod', mod-lt}
use neural_autoscaler.Base.{
  ℕ, ◌+◌, ◌-◌, ◌*◌, ◌/◌, ◌^◌, ◌≤◌, ◌<◌, ◌≡◌, ap, ◌∙◌, inl, inr, String, false, arith, leb,
  Bool-cases, if◌then◌else◌,
}
use neural_autoscaler.Base.Int.{
  pos, ◌≤ℤ◌, add_int64, sub_int64, div_int64, add_int64_small, sub_int64_small,
}
use neural_autoscaler.Base.Decimal.{format_int}
use neural_autoscaler.Api.Quantity.{Quantity, IsOrdered, ◌≼◌, is_less}
use neural_autoscaler.Resize.Target.{
  bytes_per_ki, bytes_per_mi, bytes_per_gi, in_whole_units, normalize_memory_quantity,
}

-- What Kubernetes documents of `MustParse` and `Value`: a whole number with one of the suffixes is
-- that many units of bytes, and an amount that is less has no greater value.
record ReadsUnits (Q : Type 0) ⦃q : Quantity Q⦄ : Type 0 where
  pub read_ki :
      (n : ℕ) → q.value (q.must_parse (format_int (pos n) <> "Ki")) ≡ pos (n * bytes_per_ki)
  pub read_mi :
      (n : ℕ) → q.value (q.must_parse (format_int (pos n) <> "Mi")) ≡ pos (n * bytes_per_mi)
  pub read_gi :
      (n : ℕ) → q.value (q.must_parse (format_int (pos n) <> "Gi")) ≡ pos (n * bytes_per_gi)
  pub value_mono : (a b : Q) → a ≼ b → q.value a ≤ℤ q.value b

-- The unit for so many bytes, and the next whole number of units.
abbrev unit_of : ℕ → ℕ
unit_of n =
    if leb bytes_per_gi n
    then bytes_per_gi
    else (if leb bytes_per_mi n
        then bytes_per_mi
        else (if leb bytes_per_ki n then bytes_per_ki else 1))

abbrev rounded_up : ℕ → ℕ → ℕ
rounded_up unit n = (n + unit - 1) / unit * unit

whole_int64 :
    (n unit : ℕ)
    → 0 < unit
    → n + unit < 2 ^ 63
    → div_int64 (sub_int64 (add_int64 (pos n) (pos unit)) (pos 1)) unit
      ≡ pos ((n + unit - 1) / unit)
unfolding div_int64
whole_int64 n unit h k =
    rw (add_int64_small n unit k, sub_int64_small (n + unit) 1 (omega arith) (omega arith))

rounded_up_bounds :
    (n unit : ℕ) → 0 < unit → (n ≤ rounded_up unit n) × (rounded_up unit n < n + unit)
rounded_up_bounds n unit h =
    omega (arith, div-add-mod' (n + unit - 1) unit, mod-lt (n + unit - 1) h)

module _ {Q : Type 0} ⦃q : Quantity Q⦄ where
  in_whole_units-eq :
      (unit : ℕ) (suffix : String) (amount : Q) (n : ℕ)
      → q.value amount ≡ pos n
      → 0 < unit
      → n + unit < 2 ^ 63
      → let read = q.must_parse (format_int (pos ((n + unit - 1) / unit)) <> suffix) in
        in_whole_units unit suffix amount ≡ (if is_less read amount then amount else read)
  unfolding in_whole_units
  in_whole_units-eq unit suffix amount n e h k = rw (e, whole_int64 n unit h k)

  module _ (laws : IsOrdered Q) where
    open laws use {cmp_refl, cmp_flip}

    le-pick : (a r : Q) → a ≼ (if is_less r a then a else r)
    le-pick a r = elim (Bool-cases (is_less r a)) [
      | inl less ↦ rw less (ground (arith, cmp_refl a))
      | inr more ↦ rw more (ground (arith, cmp_flip r a))
    ]

    le-in_whole_units : (unit : ℕ) (suffix : String) (a : Q) → a ≼ in_whole_units unit suffix a
    unfolding in_whole_units
    le-in_whole_units unit suffix a = le-pick a _

    -- Rounding a memory request never lowers it, whatever `MustParse` reads.
    le-normalize_memory_quantity : (a : Q) → a ≼ normalize_memory_quantity a
    unfolding normalize_memory_quantity
    le-normalize_memory_quantity a = ground (
      arith,
      cmp_refl a,
      le-in_whole_units bytes_per_gi "Gi" a,
      le-in_whole_units bytes_per_mi "Mi" a,
      le-in_whole_units bytes_per_ki "Ki" a,
    )

  module _ (reads : ReadsUnits Q) where
    open reads use {read_ki, read_mi, read_gi, value_mono}

    -- The guard of the rounding does not change the value.
    value-in_whole_units :
        (unit : ℕ) (suffix : String) (amount : Q) (n : ℕ)
        → ((m : ℕ) → q.value (q.must_parse (format_int (pos m) <> suffix)) ≡ pos (m * unit))
        → q.value amount ≡ pos n
        → 0 < unit
        → n + unit < 2 ^ 63
        → q.value (in_whole_units unit suffix amount) ≡ pos (rounded_up unit n)
    value-in_whole_units unit suffix amount n reader e h k =
        let whole = (n + unit - 1) / unit in
        let read = q.must_parse (format_int (pos whole) <> suffix) in
        rw (in_whole_units-eq unit suffix amount n e h k) (elim (Bool-cases (is_less read amount)) [
          | inl less ↦
              let small : pos (rounded_up unit n) ≤ℤ pos n =
                rw (reader whole, e) at (value_mono read amount (ground arith)) in
              rw less (e ∙ ap pos (omega (arith, rounded_up_bounds n unit h)))
          | inr more ↦ rw more (reader whole)
        ])

    value-of_unit :
        (amount : Q) (n : ℕ)
        → q.value amount ≡ pos n
        → n + bytes_per_gi < 2 ^ 63
        → q.value (normalize_memory_quantity amount) ≡ pos (rounded_up (unit_of n) n)
    unfolding normalize_memory_quantity
    value-of_unit amount n e k = elim (Bool-cases (leb bytes_per_gi n)) [
      | inl gi ↦
          let some_bytes : leb n 0 ≡ false = ground arith in
          rw (e, some_bytes, gi)
            (value-in_whole_units bytes_per_gi "Gi" amount n read_gi e (omega arith) k)
      | inr below_gi ↦ elim (Bool-cases (leb bytes_per_mi n)) [
        | inl mi ↦
            let some_bytes : leb n 0 ≡ false = ground arith in
            rw (e, some_bytes, below_gi, mi)
              (value-in_whole_units bytes_per_mi "Mi" amount n read_mi e (omega arith)
                (omega arith))
        | inr below_mi ↦ elim (Bool-cases (leb bytes_per_ki n)) [
          | inl ki ↦
              let some_bytes : leb n 0 ≡ false = ground arith in
              rw (e, some_bytes, below_gi, below_mi, ki)
                (value-in_whole_units bytes_per_ki "Ki" amount n read_ki e (omega arith)
                  (omega arith))
          | inr below_ki ↦ rw (e, below_gi, below_mi, below_ki) (ground (arith, e))
        ]
      ]
    ]

    -- A memory request of `n` bytes, so far from the end of `int64` that a whole Gi can be added,
    -- becomes the next whole number of units, of the largest of Gi, Mi and Ki that is not above `n`.
    -- That is at least `n`, and less than a unit more.
    value-normalize_memory_quantity :
        (amount : Q) (n : ℕ)
        → q.value amount ≡ pos n
        → n + bytes_per_gi < 2 ^ 63
        → let unit = unit_of n in
          (q.value (normalize_memory_quantity amount) ≡ pos (rounded_up unit n))
          × (n ≤ rounded_up unit n)
          × (rounded_up unit n < n + unit)
    value-normalize_memory_quantity amount n e k =
        let bounds = rounded_up_bounds n (unit_of n) (ground arith) in
        (value-of_unit amount n e k, bounds.0, bounds.1)
