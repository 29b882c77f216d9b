-- ===== src/Forecast/Types.antt =====
-- internal/forecast/types.go, over any types of values and times. A `time.Duration` is an integer.
use neural_autoscaler.Base.{String, List}
use neural_autoscaler.Base.Int.{ℤ}

pub record Request (F T : Type 0) : Type 0 where
  pub series_id : String
  pub values : List F
  pub timestamps : List T
  pub horizon : ℤ
  pub step : ℤ
  pub quantiles : List F

pub record QuantileSeries (F : Type 0) : Type 0 where
  pub level : F
  pub values : List F

pub record Response (F : Type 0) : Type 0 where
  pub point : List F
  pub quantiles : List (QuantileSeries F)
  pub model_version : String
