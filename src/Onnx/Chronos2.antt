-- ===== src/Onnx/Chronos2.antt =====
-- `Chronos2.Forecast` of internal/forecast/onnx/chronos2.go. The lock lets one run at a time into the
-- session, and a closed value is not read again, so that neither shows in the result.
use neural_autoscaler.Base.{
  ℕ, ◌+◌, ◌<◌, Bool-cases, ◌≡◌, refl, ap, inl, inr, String, Bool, true, false, Option, List, [],
  ◌∷◌, map, length, arith, min, eqb, leb, All, if◌then◌else◌,
}
use neural_autoscaler.Base.Int.{ℤ, pos, pos_part}
use neural_autoscaler.Base.Dict.{Dict, lookup}
use neural_autoscaler.Base.Float.{Float64, Float32}
use neural_autoscaler.Base.Result.{
  Result, ok, ◌>>=◌, ◌>>◌, wrap_err, fail_if, Holds, Holds-last, Holds-ok,
}
use neural_autoscaler.Forecast.Types.{Request, Response, QuantileSeries}
use neural_autoscaler.Forecast.Validate.{validate_request}
use neural_autoscaler.Onnx.Chronos.{
  Hyperbolic, ChronosInputs, prepare_chronos_inputs, chronos_context_len, chronos_future_cov_len,
  chronos_horizon_len, chronos_quantile_count, chronos_quantile_index, chronos_quantile_horizon,
  chronos_point_series, chronos_quantile_levels, nearest_from,
}
use neural_autoscaler.Onnx.Session.{
  Tensor, floats, integers, Ort, BackendError, bad_request, build_tensor, run_failed, read_failed,
  unexpected_shape, not_cancelled, output_or_missing, ready,
}
use neural_autoscaler.Onnx.Lengths.{length-chronos_quantile_horizon}

pub record Chronos2 (R N M : Type 0) : Type 0 where
  pub runtime : Option R
  pub env : Option N
  pub session : Option M
  pub num_output_patches : ℤ

abbrev chronos_model_version : String
chronos_model_version = "TSFM-ai/chronos-2-onnx"

-- `len(shape) != 3 || int(shape[1]) != chronosQuantileCount`
abbrev wrong_shape : List ℕ → Bool
wrong_shape (batch ∷ levels ∷ horizon ∷ []) =
    if eqb levels chronos_quantile_count then false else true
wrong_shape shape = true

module _ {F S V R N M E : Type 0} ⦃f : Float64 F⦄ ⦃s : Float32 F S⦄ (math : Hyperbolic F)
    (largest : F) (ort : Ort S V R N M E) (c : Chronos2 R N M) where
  abbrev chronos_level_series : List S → F → ℤ → F → QuantileSeries F
  chronos_level_series preds scale horizon level = record {
    level = level;
    values =
        chronos_quantile_horizon math preds (pos (chronos_quantile_index largest level)) scale
          horizon;
  }

  abbrev pub tensor : R → String → Tensor S → Result (BackendError E) V
  tensor runtime name values = wrap_err (build_tensor name) (ort.new_tensor_value runtime values)

  -- The five tensors, by the names of the inputs.
  unfoldable chronos_inputs : R → ChronosInputs F S → Result (BackendError E) (Dict V)
  chronos_inputs runtime prepared = do
    context ←
        tensor runtime "context" (floats prepared.context (pos 1 ∷ pos chronos_context_len ∷ []))
    group_ids ← tensor runtime "group_ids" (integers (pos 0 ∷ []) (pos 1 ∷ []))
    mask ←
        tensor runtime "attention_mask"
          (floats prepared.attention_mask (pos 1 ∷ pos chronos_context_len ∷ []))
    covariates ←
        tensor runtime "future_covariates"
          (floats prepared.future_covariates (pos 1 ∷ pos chronos_future_cov_len ∷ []))
    patches ← tensor runtime "num_output_patches" (integers (c.num_output_patches ∷ []) [])
    ok (
        ("context", context)
        ∷ ("group_ids", group_ids)
        ∷ ("attention_mask", mask)
        ∷ ("future_covariates", covariates)
        ∷ ("num_output_patches", patches)
        ∷ [])

  unfoldable chronos_run :
      R × M → ChronosInputs F S → ℤ → List F → Result (BackendError E) (Response F)
  unfolding chronos_inputs
  chronos_run handles prepared horizon levels = do
    inputs ← chronos_inputs handles.0 prepared
    outputs ← wrap_err run_failed (ort.session_run handles.1 inputs)
    quantiles ← output_or_missing "quantile_preds" (lookup "quantile_preds" outputs)
    read ← wrap_err (read_failed "quantile predictions") (ort.get_tensor_data quantiles)
    fail_if (wrong_shape read.1) (unexpected_shape read.1)
    ok (record {
      point = chronos_point_series math largest read.0 prepared.scale horizon;
      quantiles = map (chronos_level_series read.0 prepared.scale horizon) levels;
      model_version = chronos_model_version;
    })

  unfoldable pub chronos_forecast :
      {T : Type 0} → Option E → Request F T → Result (BackendError E) (Response F)
  unfolding chronos_run
  chronos_forecast ctx_err req = do
    wrap_err bad_request (validate_request req)
    handles ← ready c.runtime c.session
    not_cancelled ctx_err
    chronos_run handles (prepare_chronos_inputs math req.values) req.horizon req.quantiles

-- A forecast has the points and the quantile series that were asked for, at most as many values as one
-- run of the model yields.
abbrev pub AnswersAll : {F T : Type 0} → Request F T → Response F → Type 0
AnswersAll req resp =
    (length resp.point ≡ min (pos_part req.horizon) chronos_horizon_len)
    × (map (λ series. series.level) resp.quantiles ≡ req.quantiles)
    × All (λ series. length series.values ≡ min (pos_part req.horizon) chronos_horizon_len)
        resp.quantiles

not_leb_of_lt : (k n : ℕ) → k < n → leb n k ≡ false
not_leb_of_lt k n h = ground (arith, h)

module _ {F : Type 0} ⦃f : Float64 F⦄ where
  nearest_from_lt :
      (n : ℕ) (level : F) (best : ℕ) (dist : F) (i : ℕ) (levels : List F)
      → i + length levels ≡ n
      → best < n
      → nearest_from level best dist i levels < n
  unfolding nearest_from
  nearest_from_lt n level best dist i [] e h = h
  nearest_from_lt n level best dist i (q ∷ levels) e h =
      elim (Bool-cases (f.lt (f.abs (f.sub q level)) dist)) [
        | inl nearer ↦
            rw nearer
              (nearest_from_lt n level i _ (i + 1) levels (omega (arith, e)) (omega (arith, e)))
        | inr farther ↦
            rw farther (nearest_from_lt n level best _ (i + 1) levels (omega (arith, e)) h)
      ]

  chronos_quantile_index_lt :
      (largest level : F)
      → leb chronos_quantile_count (chronos_quantile_index largest level) ≡ false
  unfolding chronos_quantile_index
  chronos_quantile_index_lt largest level =
      let h =
        nearest_from_lt 21 level 0 largest 0 chronos_quantile_levels (omega arith) (omega arith) in
      not_leb_of_lt (nearest_from level 0 largest 0 chronos_quantile_levels) 21 h

module _ {F S V R N M E : Type 0} ⦃f : Float64 F⦄ ⦃s : Float32 F S⦄ (math : Hyperbolic F)
    (largest : F) (ort : Ort S V R N M E) (c : Chronos2 R N M) where
  chronos_level_series-levels :
      (preds : List S) (scale : F) (horizon : ℤ) (levels : List F)
      → let series = map (chronos_level_series math largest ort c preds scale horizon) levels in
        (map (λ (q : QuantileSeries F). q.level) series ≡ levels)
        × All (λ q. length q.values ≡ min (pos_part horizon) chronos_horizon_len) series
  chronos_level_series-levels preds scale horizon [] = (refl, tt)
  chronos_level_series-levels preds scale horizon (level ∷ levels) =
      let (same, rest) = chronos_level_series-levels preds scale horizon levels in
      (
        ap (λ ls. level ∷ ls) same,
        (
          length-chronos_quantile_horizon math preds (chronos_quantile_index largest level) scale
              horizon (chronos_quantile_index_lt largest level),
          rest,
        ),
      )

  chronos_forecast-Holds :
      {T : Type 0} (ctx_err : Option E) (req : Request F T)
      → Holds (AnswersAll req) (chronos_forecast math largest ort c ctx_err req)
  unfolding chronos_forecast chronos_run chronos_point_series
  chronos_forecast-Holds ctx_err req =
      let prepared : ChronosInputs F S = prepare_chronos_inputs math req.values in
      let good = AnswersAll req in
      Holds-last good (wrap_err bad_request (validate_request req)) _ (λ valid.
        Holds-last good (ready c.runtime c.session) _ (λ handles.
          Holds-last good (not_cancelled ctx_err) _ (λ going.
            Holds-last good (chronos_inputs math largest ort c handles.0 prepared) _ (λ inputs.
              Holds-last good (wrap_err run_failed (ort.session_run handles.1 inputs)) _ (λ outputs.
                Holds-last good
                  (output_or_missing "quantile_preds" (lookup "quantile_preds" outputs)) _
                  (λ out.
                    Holds-last good
                      (wrap_err (read_failed "quantile predictions") (ort.get_tensor_data out)) _
                      (λ read.
                        Holds-last good (fail_if (wrong_shape read.1) (unexpected_shape read.1)) _
                          (λ shaped. (
                            length-chronos_quantile_horizon math read.0
                                (chronos_quantile_index largest (f.decimal 5 1)) prepared.scale
                                req.horizon (chronos_quantile_index_lt largest (f.decimal 5 1)),
                            (chronos_level_series-levels read.0 prepared.scale req.horizon
                                req.quantiles).0,
                            (chronos_level_series-levels read.0 prepared.scale req.horizon
                                req.quantiles).1,
                          )))))))))

  -- Whatever the model returns, a forecast of Chronos-2 has a point for each step of the horizon, up to the 64 of
  -- one run, and one quantile series of that length for each level of the request, in its order.
  pub chronos_forecast-AnswersAll :
      {T : Type 0} (ctx_err : Option E) (req : Request F T) (resp : Response F)
      → chronos_forecast math largest ort c ctx_err req ≡ ok resp
      → AnswersAll req resp
  chronos_forecast-AnswersAll ctx_err req resp e =
      Holds-ok (AnswersAll req) (chronos_forecast math largest ort c ctx_err req) resp e
        (chronos_forecast-Holds ctx_err req)
