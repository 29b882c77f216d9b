-- ===== src/Onnx/TimesFm.antt =====
-- `TimesFM.Forecast` of internal/forecast/onnx/timesfm.go. The lock lets one run at a time into the
-- session, and a closed value is not read again, so that neither shows in the result.
use neural_autoscaler.Base.{
  ℕ, ◌≡◌, refl, sym, ap, ◌∙◌, ◌≤◌, ◌⊎◌, inl, inr, String, ◌==◌, Option, none, some, List, [], ◌∷◌,
  map, length, if◌then◌else◌,
}
use neural_autoscaler.Base.Int.{ℤ, pos, pos_part}
use neural_autoscaler.Base.Dict.{lookup}
use neural_autoscaler.Base.Float.{Float64, Float32}
use neural_autoscaler.Base.Result.{Result, ok, ◌>>=◌, ◌>>◌, wrap_err, Holds, Holds-last, Holds-ok}
use neural_autoscaler.Forecast.Types.{Request, Response, QuantileSeries}
use neural_autoscaler.Forecast.Validate.{validate_request}
use neural_autoscaler.Onnx.Preprocess.{prepare_batch_input, slice_horizon, quantile_series}
use neural_autoscaler.Base.{All}
use neural_autoscaler.Onnx.Lengths.{slice_horizon_le, quantile_series_le}
use neural_autoscaler.Onnx.Session.{
  floats, Ort, BackendError, bad_request, build_tensor, run_failed, read_failed, not_cancelled,
  output_or_missing, ready,
}

pub record TimesFm (R N M : Type 0) : Type 0 where
  pub max_context : ℤ
  pub runtime : Option R
  pub env : Option N
  pub session : Option M
  pub input_name : String
  pub mean_output : String
  pub full_output : String
  pub batch_size : ℤ

abbrev timesfm_model_version : String
timesfm_model_version = "google/timesfm-2.5-200m-transformers-onnx"

abbrev output_mean_predictions : String
output_mean_predictions = "mean_predictions"

abbrev output_full_predictions : String
output_full_predictions = "full_predictions"

abbrev pub first_or : String → List String → String
first_or fallback [] = fallback
first_or fallback (name ∷ names) = name

-- The loop over the names of the outputs.
unfoldable pub choose_outputs : String × String → List String → String × String
choose_outputs chosen [] = chosen
choose_outputs (mean, full) (name ∷ names) =
    choose_outputs
      (if name == output_mean_predictions
        then (name, full)
        else (if name == output_full_predictions then (mean, name) else (mean, full)))
      names

module _ {F S V R N M E : Type 0} ⦃f : Float64 F⦄ ⦃s : Float32 F S⦄ (ort : Ort S V R N M E)
    (t : TimesFm R N M) where
  abbrev level_series : List S × List ℕ → ℤ → F → QuantileSeries F
  level_series (data_, shape) horizon level = record {
    level = level;
    values = quantile_series data_ shape level (pos_part horizon);
  }

  abbrev with_full : List F → ℤ → Option V → Response F → Result (BackendError E) (Response F)
  with_full [] horizon full resp = ok resp
  with_full (level ∷ levels) horizon none resp = ok resp
  with_full (level ∷ levels) horizon (some full) resp = do
    read ← wrap_err (read_failed "quantile predictions") (ort.get_tensor_data full)
    ok (record resp { quantiles = map (level_series read horizon) (level ∷ levels) })

  unfoldable timesfm_forecast :
      {T : Type 0} → Option E → Request F T → Result (BackendError E) (Response F)
  timesfm_forecast ctx_err req = do
    wrap_err bad_request (validate_request req)
    handles ← ready t.runtime t.session
    not_cancelled ctx_err
    (let (values, context_len) =
          prepare_batch_input {S = S} req.values t.max_context t.batch_size in
        do
          input ←
              wrap_err (build_tensor "input") (
                ort.new_tensor_value handles.0
                  (floats values (t.batch_size ∷ pos context_len ∷ [])))
          outputs ← wrap_err run_failed (ort.session_run handles.1 ((t.input_name, input) ∷ []))
          mean ← output_or_missing t.mean_output (lookup t.mean_output outputs)
          read ← wrap_err (read_failed "mean predictions") (ort.get_tensor_data mean)
          with_full req.quantiles req.horizon (lookup t.full_output outputs) (record {
            point = slice_horizon read.0 req.horizon;
            quantiles = [];
            model_version = timesfm_model_version;
          }))

-- A forecast has no more points than were asked for. Its quantile series are those that were asked for,
-- in order, or none at all, and none has more values than were asked for.
abbrev Answers : {F T : Type 0} → Request F T → Response F → Type 0
Answers req resp =
    (length resp.point ≤ pos_part req.horizon)
    × ((map (λ series. series.level) resp.quantiles ≡ req.quantiles) ⊎ (resp.quantiles ≡ []))
    × All (λ series. length series.values ≤ pos_part req.horizon) resp.quantiles

module _ {F S V R N M E : Type 0} ⦃f : Float64 F⦄ ⦃s : Float32 F S⦄ (ort : Ort S V R N M E)
    (t : TimesFm R N M) where
  level_series-levels :
      (read : List S × List ℕ) (horizon : ℤ) (levels : List F)
      → (map
            (λ (series : QuantileSeries F). series.level)
            (map (level_series ort t read horizon) levels)
          ≡ levels)
        × All
            (λ series. length series.values ≤ pos_part horizon)
            (map (level_series ort t read horizon) levels)
  level_series-levels read horizon [] = (refl, tt)
  level_series-levels (values, shape) horizon (level ∷ levels) =
      let (same, rest) = level_series-levels (values, shape) horizon levels in
      (ap (λ ls. level ∷ ls) same, (quantile_series_le values shape level (pos_part horizon), rest))

  with_full-Answers :
      {T : Type 0} (req : Request F T) (levels : List F) (full : Option V) (point : List F)
      (version : String)
      → req.quantiles ≡ levels
      → length point ≤ pos_part req.horizon
      → Holds (Answers req) (
          with_full ort t levels req.horizon full
            (record { point = point; quantiles = []; model_version = version }))
  with_full-Answers req [] full point version e h = (h, inr refl, tt)
  with_full-Answers req (level ∷ levels) none point version e h = (h, inr refl, tt)
  with_full-Answers req (level ∷ levels) (some full) point version e h =
      Holds-last (Answers req)
        (wrap_err (read_failed "quantile predictions") (ort.get_tensor_data full)) _
        (λ read.
          let (same, rest) = level_series-levels read req.horizon (level ∷ levels) in
          (h, inl (same ∙ sym e), rest))

  timesfm_forecast-Holds :
      {T : Type 0} (ctx_err : Option E) (req : Request F T)
      → Holds (Answers req) (timesfm_forecast ort t ctx_err req)
  unfolding timesfm_forecast
  timesfm_forecast-Holds ctx_err req =
      let (values, context_len) =
        prepare_batch_input {S = S} req.values t.max_context t.batch_size in
      let input = floats values (t.batch_size ∷ pos context_len ∷ []) in
      Holds-last (Answers req) (wrap_err bad_request (validate_request req)) _ (λ valid.
        Holds-last (Answers req) (ready t.runtime t.session) _ (λ handles.
          Holds-last (Answers req) (not_cancelled ctx_err) _ (λ going.
            Holds-last (Answers req)
              (wrap_err (build_tensor "input") (ort.new_tensor_value handles.0 input)) _
              (λ made.
                Holds-last (Answers req)
                  (wrap_err run_failed (ort.session_run handles.1 ((t.input_name, made) ∷ []))) _
                  (λ outputs.
                    Holds-last (Answers req)
                      (output_or_missing t.mean_output (lookup t.mean_output outputs)) _
                      (λ mean.
                        Holds-last (Answers req)
                          (wrap_err (read_failed "mean predictions") (ort.get_tensor_data mean)) _
                          (λ read.
                            with_full-Answers req req.quantiles (lookup t.full_output outputs)
                              (slice_horizon read.0 req.horizon) timesfm_model_version refl
                              (slice_horizon_le F read.0 req.horizon))))))))

  -- Whatever the model returns, a forecast of TimesFM has no more points than the horizon, and its quantile series,
  -- none of which has more, are those of the request, in its order, or there are none.
  timesfm_forecast-Answers :
      {T : Type 0} (ctx_err : Option E) (req : Request F T) (resp : Response F)
      → timesfm_forecast ort t ctx_err req ≡ ok resp
      → Answers req resp
  timesfm_forecast-Answers ctx_err req resp e =
      Holds-ok (Answers req) (timesfm_forecast ort t ctx_err req) resp e
        (timesfm_forecast-Holds ctx_err req)
