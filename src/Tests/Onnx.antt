-- ===== src/Tests/Onnx.antt =====
-- Tensors of a few numbers.
use neural_autoscaler.Base.{
  ◌+◌, ◌*◌, ◌≡◌, refl, false, some, List, [], ◌∷◌, ◌++◌, map, arith, min, length, get_elem?,
  replicate, All,
}
use neural_autoscaler.Base.Int.{pos}
use neural_autoscaler.Base.Float.{Fixed, fixed_float, fixed_single, Fixed-IsStrict}
use neural_autoscaler.Onnx.Preprocess.{prepare_batch_input, quantile_index, quantile_series}
use neural_autoscaler.Onnx.Preprocess.Rows.{rows, prepare_batch_input_lem}
use neural_autoscaler.Onnx.Preprocess.Output.{read_at, quantile_series_lem}
use neural_autoscaler.Onnx.Chronos.{
  Hyperbolic, chronos_quantile_levels, median_abs_scale, chronos_quantile_index,
  prepare_chronos_inputs, sort_from, shift_above,
}
use neural_autoscaler.Onnx.Chronos.Laws.{
  distance, prepare_chronos_inputs_lem, chronos_quantile_index_lem,
}

prepare_batch_input_lem_example :
    prepare_batch_input {F = Fixed} {S = Fixed} (1 ∷ 2 ∷ 3 ∷ []) (pos 2) (pos 2)
    ≡ (rows 2 (2 ∷ 3 ∷ []), 2)
prepare_batch_input_lem_example = prepare_batch_input_lem (1 ∷ 2 ∷ 3 ∷ []) (pos 2) (pos 2)

abbrev tensor : List Fixed
tensor = 10 ∷ 20 ∷ 30 ∷ 40 ∷ 50 ∷ []

quantile_series_lem_example :
    let idx = min (quantile_index {F = Fixed} 100) 1 in
    get_elem? (quantile_series {F = Fixed} tensor (1 ∷ 3 ∷ 2 ∷ []) 100 8) 1
    ≡ some (read_at 0 (λ v. v) (get_elem? tensor (1 * 2 + idx)))
quantile_series_lem_example =
    quantile_series_lem tensor 1 3 2 100 8 1 (λ e. cc) (omega arith) (omega arith)

abbrev unscaled : Hyperbolic Fixed
unscaled = record { asinh = λ v. v; sinh = λ v. v }

median_tests :
    (median_abs_scale {F = Fixed} (5000 ∷ 1000 ∷ 3000 ∷ []) ≡ 3000)
    × (median_abs_scale {F = Fixed} (4000 ∷ 1000 ∷ 3000 ∷ 2000 ∷ []) ≡ 2500)
unfolding median_abs_scale sort_from shift_above
median_tests = (refl, refl)

prepare_chronos_inputs_lem_example :
    let inputs = prepare_chronos_inputs {S = Fixed} unscaled (7000 ∷ 9000 ∷ []) in
    (inputs.context
      ≡ replicate 510 0 ++ map (λ v. fixed_float.div v inputs.scale) (7000 ∷ 9000 ∷ []))
    × (inputs.attention_mask ≡ replicate 510 0 ++ (1000 ∷ 1000 ∷ []))
    × (length inputs.context ≡ 512)
    × (length inputs.attention_mask ≡ 512)
prepare_chronos_inputs_lem_example = prepare_chronos_inputs_lem unscaled (7000 ∷ 9000 ∷ [])

chronos_quantile_index_lem_example :
    (q : Fixed) × (get_elem? chronos_quantile_levels
        (chronos_quantile_index {F = Fixed} 1000000 900)
      ≡ some q)
    × All (λ p. fixed_float.lt (distance 900 p) (distance 900 q) ≡ false) chronos_quantile_levels
chronos_quantile_index_lem_example = chronos_quantile_index_lem Fixed-IsStrict 1000000 900 refl
