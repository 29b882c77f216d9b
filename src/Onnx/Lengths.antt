-- ===== src/Onnx/Lengths.antt =====
-- How many values the models' outputs yield.
use neural_autoscaler.Base.{
  ℕ, zero, suc, ◌+◌, ◌*◌, ◌≡◌, refl, ap, ◌≤◌, inl, inr, false, ◌||◌, Option, none, some, List, [],
  ◌∷◌, map, length, get_elem?, take, length-replicate, arith, min, leb, Bool-cases,
}
use neural_autoscaler.Base.Int.{ℤ, pos, pos_part, leb_ℤ, ltb_ℤ}
use neural_autoscaler.Base.Float.{Float64, Float32}
use neural_autoscaler.Onnx.Preprocess.{
  read_entry, read_steps, slice_horizon, quantile_series, column, quantile_index,
}
use neural_autoscaler.Onnx.Chronos.{
  Hyperbolic, chronos_horizon_len, chronos_quantile_count, chronos_quantile_horizon,
}

module _ {S F : Type 0} (nought : F) (value : S → F) where
  length-read_entry :
      (k : ℕ) (o : Option S) (rest : List F)
      → length rest ≡ k
      → length (read_entry nought value k o rest) ≡ suc k
  length-read_entry k none rest h = ap suc (length-replicate k nought)
  length-read_entry k (some v) rest h = ap suc h

  length-read_steps :
      (offset : ℕ → ℕ) (numbers : List S) (step k : ℕ)
      → length (read_steps nought offset value numbers step k) ≡ k
  unfolding read_steps
  length-read_steps offset numbers step zero = refl
  length-read_steps offset numbers step (suc k) =
      length-read_entry k (get_elem? numbers (offset step)) _
        (length-read_steps offset numbers (step + 1) k)

length-take_le : {A : Type 0} (n : ℕ) (xs : List A) → length (take n xs) ≤ n
length-take_le zero xs = omega arith
length-take_le (suc n) [] = omega arith
length-take_le (suc n) (x ∷ xs) = omega (arith, length-take_le n xs)

length-map_eq : {A B : Type 0} (g : A → B) (xs : List A) → length (map g xs) ≡ length xs
length-map_eq g [] = refl
length-map_eq g (x ∷ xs) = ap suc (length-map_eq g xs)

module _ (F : Type 0) {S : Type 0} ⦃f : Float64 F⦄ ⦃s : Float32 F S⦄ where
  pub slice_horizon_le :
      (values : List S) (horizon : ℤ)
      → length {A = F} (slice_horizon values horizon) ≤ pos_part horizon
  unfolding slice_horizon
  slice_horizon_le values horizon = elim (Bool-cases (leb_ℤ horizon (pos 0))) [
    | inl e ↦ rw e (omega arith)
    | inr e ↦
        let taken = take (min (pos_part horizon) (length values)) values in
        rw e (
          omega (
            arith,
            length-map_eq s.widen taken,
            length-take_le (min (pos_part horizon) (length values)) values,
          ))
  ]

module _ {F S : Type 0} ⦃f : Float64 F⦄ ⦃s : Float32 F S⦄ where
  pub quantile_series_le :
      (full : List S) (shape : List ℕ) (level : F) (horizon : ℕ)
      → length (quantile_series full shape level horizon) ≤ horizon
  unfolding quantile_series
  quantile_series_le [] shape level horizon = omega arith
  quantile_series_le (x ∷ full) [] level horizon = omega arith
  quantile_series_le (x ∷ full) (b ∷ []) level horizon = omega arith
  quantile_series_le (x ∷ full) (b ∷ zero ∷ []) level horizon = omega arith
  quantile_series_le (x ∷ full) (b ∷ suc h ∷ []) level horizon = omega arith
  quantile_series_le (x ∷ full) (b ∷ zero ∷ q ∷ []) level horizon = omega arith
  quantile_series_le (x ∷ full) (b ∷ suc h ∷ zero ∷ []) level horizon = omega arith
  quantile_series_le (x ∷ full) (b ∷ suc h ∷ suc q ∷ []) level horizon =
      let idx = column (quantile_index level) (suc q) in
      omega (
        arith,
        length-read_steps (f.decimal 0 0) s.widen (λ step. step * suc q + idx) (x ∷ full) 0
            (min horizon (suc h)),
      )
  quantile_series_le (x ∷ full) (b ∷ zero ∷ q ∷ d ∷ shape) level horizon = omega arith
  quantile_series_le (x ∷ full) (b ∷ suc h ∷ zero ∷ d ∷ shape) level horizon = omega arith
  quantile_series_le (x ∷ full) (b ∷ suc h ∷ suc q ∷ d ∷ shape) level horizon = omega arith

  pub length-chronos_quantile_horizon :
      (math : Hyperbolic F) (preds : List S) (idx : ℕ) (scale : F) (horizon : ℤ)
      → leb chronos_quantile_count idx ≡ false
      → length (chronos_quantile_horizon math preds (pos idx) scale horizon)
        ≡ min (pos_part horizon) chronos_horizon_len
  unfolding chronos_quantile_horizon
  length-chronos_quantile_horizon math preds idx scale horizon h =
      let inside : (ltb_ℤ (pos idx) (pos 0) || leb_ℤ (pos chronos_quantile_count) (pos idx))
          ≡ false =
        ground (arith, h) in
      elim (Bool-cases (leb_ℤ horizon (pos 0))) [
        | inl e ↦ rw inside (rw e (ground (arith, e)))
        | inr e ↦
            rw inside
              (rw e (length-read_steps _ _ _ preds 0 (min (pos_part horizon) chronos_horizon_len)))
      ]
