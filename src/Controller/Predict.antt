-- ===== src/Controller/Predict.antt =====
-- `runForecast`. The forecaster is a parameter, a function from a request to a response or an error; so
-- is the reader of durations. Of both nothing is assumed. An error of the validation becomes an error
-- of type `E` by a parameter too. Durations are nanoseconds.
use neural_autoscaler.Base.{
  ◌*◌, ◌^◌, String, Option, none, some, List, [], ◌∷◌, length, if◌then◌else◌,
}
use neural_autoscaler.Base.Int.{ℤ, pos, ltb_ℤ, wrap32}
use neural_autoscaler.Base.Float.{Float64}
use neural_autoscaler.Base.Result.{Result, ◌>>=◌, ◌>>◌, wrap_err}
use neural_autoscaler.Api.Types.{ForecastSpec, ForecastStatus}
use neural_autoscaler.Api.Duration.{set_duration}
use neural_autoscaler.Api.Source.{SourceError, bad_duration, validate_forecast}
use neural_autoscaler.Forecast.Types.{Request, Response}
use neural_autoscaler.Metrics.History.{Series}

abbrev default_forecast_horizon : ℤ
default_forecast_horizon = pos 12

abbrev default_forecast_step : ℤ
default_forecast_step = pos (60 * 10 ^ 9)

-- The default, or a value that is set and positive.
unfoldable positive_or : ℤ → Option ℤ → ℤ
positive_or fallback none = fallback
positive_or fallback (some n) = if ltb_ℤ (pos 0) n then n else fallback

-- What a run of a forecast needs from outside.
pub record Predictor (F T E : Type 0) : Type 0 where
  pub forecast : Request F T → Result E (Response F)
  pub parse_duration : String → Option ℤ
  pub as_error : SourceError → E

module _ {F T E : Type 0} ⦃f : Float64 F⦄ (p : Predictor F T E) where
  abbrev quantile_levels : List F
  quantile_levels = f.decimal 9 1 ∷ f.decimal 99 2 ∷ []

  unfoldable forecast_request : ForecastSpec → String → Series F T → Option ℤ → Request F T
  unfolding positive_or
  forecast_request spec series_id series parsed_step = record {
    series_id = series_id;
    values = series.values;
    timestamps = series.timestamps;
    horizon = positive_or default_forecast_horizon spec.horizon;
    step = positive_or default_forecast_step parsed_step;
    quantiles = quantile_levels;
  }

  unfoldable pub run_forecast : ForecastSpec → String → Series F T → Result E (Response F)
  unfolding forecast_request
  run_forecast spec series_id series = do
    wrap_err p.as_error (validate_forecast p.parse_duration (some spec))
    step ←
        wrap_err (λ e. p.as_error (bad_duration "forecast step" e))
          (set_duration p.parse_duration spec.step)
    p.forecast (forecast_request spec series_id series step)

-- What `runForecast` leaves in the status.
abbrev pub forecast_status : {F : Type 0} → Response F → ForecastStatus
forecast_status resp = record {
  horizon = wrap32 (pos (length resp.point));
  model_version = resp.model_version;
}
