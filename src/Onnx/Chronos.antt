-- ===== src/Onnx/Chronos.antt =====
-- internal/forecast/onnx/chronos2_preprocess.go: the input of Chronos-2 and what is read from its output.
-- The hyperbolic functions of package math are parameters of which nothing is assumed.
pub mod Laws
use neural_autoscaler.Base.{
  ℕ, zero, suc, ◌+◌, ◌-◌, ◌*◌, ◌/◌, ◌%◌, Bool, true, false, ◌||◌, Option, none, some, List, [], ◌∷◌,
  ◌++◌, map, length, get_or, set, last_n, replicate, leb, ltb, eqb, min, if◌then◌else◌,
}
use neural_autoscaler.Base.Int.{ℤ, pos, pos_part, leb_ℤ, ltb_ℤ}
use neural_autoscaler.Base.Float.{Float64, Float32}
use neural_autoscaler.Onnx.Preprocess.{read_steps}

abbrev pub chronos_context_len : ℕ
chronos_context_len = 512

abbrev pub chronos_horizon_len : ℕ
chronos_horizon_len = 64

abbrev pub chronos_future_cov_len : ℕ
chronos_future_cov_len = 64

abbrev pub chronos_quantile_count : ℕ
chronos_quantile_count = 21

pub record Hyperbolic (F : Type 0) : Type 0 where
  pub asinh : F → F
  pub sinh : F → F

pub record ChronosInputs (F S : Type 0) : Type 0 where
  pub context : List S
  pub attention_mask : List S
  pub future_covariates : List S
  pub scale : F

-- The two loops that write at `offset + i`.
unfoldable pub write_from : {A : Type 0} → List A → ℕ → List A → List A
write_from out at [] = out
write_from out at (v ∷ vs) = write_from (set out at v) (at + 1) vs

module _ {F : Type 0} ⦃f : Float64 F⦄ where
  abbrev pub chronos_quantile_levels : List F
  chronos_quantile_levels =
      f.decimal 1 2
      ∷ f.decimal 5 2
      ∷ f.decimal 1 1
      ∷ f.decimal 15 2
      ∷ f.decimal 2 1
      ∷ f.decimal 25 2
      ∷ f.decimal 3 1
      ∷ f.decimal 35 2
      ∷ f.decimal 4 1
      ∷ f.decimal 45 2
      ∷ f.decimal 5 1
      ∷ f.decimal 55 2
      ∷ f.decimal 6 1
      ∷ f.decimal 65 2
      ∷ f.decimal 7 1
      ∷ f.decimal 75 2
      ∷ f.decimal 8 1
      ∷ f.decimal 85 2
      ∷ f.decimal 9 1
      ∷ f.decimal 95 2
      ∷ f.decimal 99 2
      ∷ []

  -- The inner loop of the sort, for the place `j + 1` of the code, until a value is not above the key.
  unfoldable pub shift_above : F → List F → ℕ → List F
  shift_above key abs zero = set abs 0 key
  shift_above key abs (suc j) =
      let v = get_or abs j key in
      let rest = shift_above key (set abs (suc j) v) j in
      if f.lt key v then rest else set abs (suc j) key

  -- The outer loop from `i` on, `k` turns.
  unfoldable pub sort_from : List F → (i k : ℕ) → List F
  unfolding shift_above
  sort_from abs i zero = abs
  sort_from abs i (suc k) = sort_from (shift_above (get_or abs i (f.decimal 0 0)) abs i) (i + 1) k

  unfoldable pub median_abs_scale : List F → F
  unfolding sort_from
  median_abs_scale [] = f.decimal 1 0
  median_abs_scale (v ∷ values) =
      let abs = sort_from (map f.abs (v ∷ values)) 1 (length values) in
      let mid = length abs / 2 in
      let nought = f.decimal 0 0 in
      if eqb (length abs % 2) 0
      then f.div (f.add (get_or abs (mid - 1) nought) (get_or abs mid nought)) (f.decimal 2 0)
      else get_or abs mid nought

  -- `scale == 0`: neither above nor below 0, and a number.
  abbrev pub nonzero_scale : F → F
  nonzero_scale scale =
      let nought = f.decimal 0 0 in
      if f.le scale nought then (if f.le nought scale then f.decimal 1 0 else scale) else scale

  -- The loop over the levels, from level `i` on.
  unfoldable pub nearest_from : F → (best_idx : ℕ) → (best_dist : F) → (i : ℕ) → List F → ℕ
  nearest_from level best_idx best_dist i [] = best_idx
  nearest_from level best_idx best_dist i (q ∷ levels) =
      let dist = f.abs (f.sub q level) in
      nearest_from level (if f.lt dist best_dist then i else best_idx)
        (if f.lt dist best_dist then dist else best_dist) (i + 1) levels

  -- `largest` is `math.MaxFloat64`.
  unfoldable pub chronos_quantile_index : F → F → ℕ
  unfolding nearest_from
  chronos_quantile_index largest level = nearest_from level 0 largest 0 chronos_quantile_levels

module _ {F S : Type 0} ⦃f : Float64 F⦄ ⦃s : Float32 F S⦄ (math : Hyperbolic F) where
  unfoldable pub prepare_chronos_inputs : List F → ChronosInputs F S
  unfolding write_from median_abs_scale
  prepare_chronos_inputs values =
      let tail = last_n chronos_context_len values in
      let scale = nonzero_scale (median_abs_scale tail) in
      let empty = replicate chronos_context_len s.zero32 in
      let offset = chronos_context_len - length tail in
      record {
        context = write_from empty offset (map (λ v. s.narrow (math.asinh (f.div v scale))) tail);
        attention_mask = write_from empty offset (map (λ v. s.one32) tail);
        future_covariates = replicate chronos_future_cov_len s.zero32;
        scale = scale;
      }

  unfoldable pub chronos_quantile_horizon : List S → ℤ → F → ℤ → List F
  unfolding read_steps
  chronos_quantile_horizon preds quantile_idx scale horizon =
      if ltb_ℤ quantile_idx (pos 0) || leb_ℤ (pos chronos_quantile_count) quantile_idx
      then []
      else (if leb_ℤ horizon (pos 0)
          then []
          else read_steps (f.decimal 0 0)
              (λ step. pos_part quantile_idx * chronos_horizon_len + step)
              (λ v. f.mul (math.sinh (s.widen v)) scale) preds 0
              (min (pos_part horizon) chronos_horizon_len))

  unfoldable pub chronos_point_series : F → List S → F → ℤ → List F
  unfolding chronos_quantile_index chronos_quantile_horizon
  chronos_point_series largest preds scale horizon =
      chronos_quantile_horizon preds (pos (chronos_quantile_index largest (f.decimal 5 1))) scale
        horizon
