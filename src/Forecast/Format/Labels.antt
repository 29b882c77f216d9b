-- ===== src/Forecast/Format/Labels.antt =====
-- What the labels of points and amounts say.
use Prim.Native.String.{String, ◌++◌ as ◌<>◌}
use neural_autoscaler.Base.{
  ℕ, zero, suc, ◌+◌, ◌*◌, ◌/◌, ◌%◌, ◌^◌, ◌<◌, ◌≡◌, refl, ◌≢◌, ◌⊎◌, inl, inr, true, false, some,
  List, [], ◌∷◌, arith, get_elem?, get_or, leb, eqb, Bool-cases,
}
use neural_autoscaler.Base.Int.{ℤ, pos, times_int64, wrap64_small}
use neural_autoscaler.Base.Decimal.{format_int}
use neural_autoscaler.Base.Float.{Float64}
use neural_autoscaler.Forecast.Format.{
  hour, minute, second, offset_text, format_step_offset, suffixes, unit, scale_from, format_bytes,
}

suffix_at : (exp : ℕ) → exp < 4 → (suffix : String) × (get_elem? suffixes exp ≡ some suffix)
suffix_at zero h = ("KiB", refl)
suffix_at (suc zero) h = ("MiB", refl)
suffix_at (suc (suc zero)) h = ("GiB", refl)
suffix_at (suc (suc (suc zero))) h = ("TiB", refl)
suffix_at (suc (suc (suc (suc k)))) h = absurd (ground (arith, h))

get_or-some :
    {A : Type 0} (xs : List A) (i : ℕ) (d a : A) → get_elem? xs i ≡ some a → get_or xs i d ≡ a
get_or-some [] i d a e = cc
get_or-some (x ∷ xs) zero d a e = cc
get_or-some (x ∷ xs) (suc i) d a e = get_or-some xs i d a e

module _ {F : Type 0} ⦃f : Float64 F⦄ where
  -- 1024 to the power k + 1, and v divided k times by 1024.
  abbrev pub power : ℕ → F
  power zero = unit
  power (suc k) = f.mul (power k) unit

  abbrev quotient : F → ℕ → F
  quotient v zero = v
  quotient v (suc k) = f.div (quotient v k) unit

  -- The unit of an amount: as many more divisions by 1024 as start from 1024 or more, if there is a unit for them.
  pub record IsScale (v : F) (exp : ℕ) : Type 0 where
    pub suffix : String
    pub has_suffix : get_elem? suffixes exp ≡ some suffix
    pub reached : (j : ℕ) → j < exp → f.le unit (quotient v (suc j)) ≡ true
    pub last : (suc exp ≡ 4) ⊎ (f.le unit (quotient v (suc exp)) ≡ false)

  abbrev Scaled : F → F × ℕ → Type 0
  Scaled v (divisor, exp) = (divisor ≡ power exp) × IsScale v exp

  reached_next :
      (v : F) (exp : ℕ)
      → ((j : ℕ) → j < exp → f.le unit (quotient v (suc j)) ≡ true)
      → f.le unit (quotient v (suc exp)) ≡ true
      → (j : ℕ) → j < suc exp
      → f.le unit (quotient v (suc j)) ≡ true
  reached_next v exp before now j h = elim (Bool-cases (eqb j exp)) [
    | inl e ↦ let same : j ≡ exp = ground (arith, e) in rw same now
    | inr e ↦ before j (ground (arith, e, h))
  ]

  scale_from-Scaled :
      (v : F) (left exp : ℕ)
      → left + exp ≡ 3
      → ((j : ℕ) → j < exp → f.le unit (quotient v (suc j)) ≡ true)
      → Scaled v (scale_from left (power exp) exp (quotient v (suc exp)))
  unfolding scale_from
  scale_from-Scaled v zero exp h reached =
      let (suffix, e) = suffix_at exp (omega (arith, h)) in
      (
        refl,
        record {
          suffix = suffix;
          has_suffix = e;
          reached = reached;
          last = inl (omega (arith, h));
        },
      )
  scale_from-Scaled v (suc left) exp h reached =
      elim (Bool-cases (f.le unit (quotient v (suc exp)))) [
        | inl e ↦
            rw e
              (scale_from-Scaled v left (suc exp) (omega (arith, h)) (reached_next v exp reached e))
        | inr e ↦
            let (suffix, has) = suffix_at exp (omega (arith, h)) in
            rw e
              (refl, record { suffix = suffix; has_suffix = has; reached = reached; last = inr e })
      ]

  -- The text of an amount of bytes: below 1024 the amount itself, otherwise the amount in KiB, MiB, GiB or
  -- TiB, one unit further for each division by 1024 after the first that starts from 1024 or more,
  -- as long as there is a further unit.
  pub format_bytes_lem :
      (format_fixed : ℕ → F → String) (v : F)
      → ((f.lt v unit ≡ true) × (format_bytes format_fixed v ≡ format_fixed 0 v <> " B"))
        ⊎ ((f.lt v unit ≡ false)
            × (exp : ℕ) × (scale : IsScale v exp) × (format_bytes format_fixed v
                ≡ format_fixed 2 (f.div v (power exp)) <> (" " <> scale.suffix)))
  unfolding format_bytes
  format_bytes_lem format_fixed v = elim (Bool-cases (f.lt v unit)) [
    | inl e ↦ inl (e, rw e refl)
    | inr e ↦
        let r = scale_from 3 unit 0 (f.div v unit) in
        let (same, scale) : Scaled v r =
          scale_from-Scaled v 3 0 refl (λ j h. absurd (ground (arith, h))) in
        inr (
          e,
          r.1,
          scale,
          rw e (rw (same, get_or-some suffixes r.1 "" scale.suffix scale.has_suffix) refl),
        )
  ]

-- The unit of a label, and that no larger one divides the offset.
pub data IsUnit (n : ℕ) : ℕ → String → Type 0 where
  in_hours : n % hour ≡ 0 → IsUnit n hour "h"
  in_minutes : n % hour ≢ 0 → n % minute ≡ 0 → IsUnit n minute "m"
  in_seconds : n % hour ≢ 0 → n % minute ≢ 0 → n % second ≡ 0 → IsUnit n second "s"

offset_text-IsUnit :
    (duration_text : ℤ → String) (n : ℕ)
    → 0 < n
    → n % second ≡ 0
    → (size : ℕ) × (letter : String) × (count : ℕ) × IsUnit n size letter
      × (n ≡ count * size)
      × (offset_text duration_text (pos n) ≡ "+" <> (format_int (pos count) <> letter))
offset_text-IsUnit duration_text n positive whole =
    let some_time : leb n 0 ≡ false = ground (arith, positive) in
    elim (Bool-cases (eqb (n % hour) 0)) [
      | inl h ↦ (
        hour,
        "h",
        n / hour,
        in_hours (ground (arith, h)),
        ground (arith, h),
        simp (some_time, h) refl,
      )
      | inr h ↦ elim (Bool-cases (eqb (n % minute) 0)) [
        | inl m ↦ (
          minute,
          "m",
          n / minute,
          in_minutes (ground (arith, h)) (ground (arith, m)),
          ground (arith, m),
          simp (some_time, h, m) refl,
        )
        | inr m ↦
            let s : eqb (n % second) 0 ≡ true = ground (arith, whole) in
            (
              second,
              "s",
              n / second,
              in_seconds (ground (arith, h)) (ground (arith, m)) whole,
              omega (arith, whole),
              simp (some_time, h, m, s) refl,
            )
      ]
    ]

-- The label of step `i` of a forecast, where `i + 1` steps are a whole number of seconds and fit
-- an int64: a count of the largest of the units hour, minute and second that divides them, with
-- which it makes them up exactly.
pub format_step_offset_lem :
    (duration_text : ℤ → String) (step i : ℕ)
    → 0 < step
    → step * (i + 1) < 2 ^ 63
    → step * (i + 1) % second ≡ 0
    → (size : ℕ) × (letter : String) × (count : ℕ) × IsUnit (step * (i + 1)) size letter
      × (step * (i + 1) ≡ count * size)
      × (format_step_offset duration_text (pos step) i ≡ "+" <> (format_int (pos count) <> letter))
unfolding format_step_offset times_int64
format_step_offset_lem duration_text step i positive small whole =
    rw (wrap64_small (step * (i + 1)) small)
      (offset_text-IsUnit duration_text (step * (i + 1)) (omega (arith, positive)) whole)
