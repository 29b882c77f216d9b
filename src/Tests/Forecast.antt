-- ===== src/Tests/Forecast.antt =====
-- A forecast request.
use neural_autoscaler.Base.{ℕ, ◌≡◌, ◌≢◌, ◌↔◌, ◌⊎◌, [], ◌∷◌, length, All}
use neural_autoscaler.Base.Int.{pos, ◌≤ℤ◌}
use neural_autoscaler.Base.Text.{trim_space}
use neural_autoscaler.Base.Float.{Fixed, fixed_float}
use neural_autoscaler.Base.Result.{ok}
use neural_autoscaler.Forecast.Types.{Request}
use neural_autoscaler.Forecast.Validate.{IsLevel, validate_request, validate_request_iff}

abbrev request : Request Fixed ℕ
request = record {
  series_id = "apps/web/cpu";
  values = 1000 ∷ 2000 ∷ [];
  timestamps = 1 ∷ 2 ∷ [];
  horizon = pos 8;
  step = pos 60;
  quantiles = 900 ∷ [];
}

validate_request_iff_example : (validate_request request ≡ ok tt) ↔ (
    (trim_space "apps/web/cpu" ≢ "")
    × (request.values ≢ [])
    × (pos 1 ≤ℤ pos 8)
    × ((request.timestamps ≡ []) ⊎ (2 ≡ length request.values))
    × All (IsLevel {F = Fixed}) (900 ∷ []))
validate_request_iff_example = validate_request_iff request
