-- ===== src/Forecast/Format.antt =====
-- internal/forecast/format.go: the texts of forecasts in the log. `fmt.Sprintf("%.<n>f", x)` and
-- `Duration.String` are parameters.
pub mod Labels
use Prim.Native.String.{String, ◌++◌ as ◌<>◌}
use neural_autoscaler.Base.{
  ℕ, zero, suc, ◌*◌, ◌/◌, ◌%◌, ◌+◌, Bool, ◌&&◌, ◌||◌, ◌==◌, List, [], ◌∷◌, leb, eqb, get_or,
  if◌then◌else◌,
}
use neural_autoscaler.Base.Int.{ℤ, pos, negsuc, times_int64}
use neural_autoscaler.Base.Decimal.{format_int}
use neural_autoscaler.Base.Text.{trim_right_of, join}
use neural_autoscaler.Base.Float.{Float64}
use neural_autoscaler.Forecast.Types.{QuantileSeries}

pub data ValueUnit : Type 0 where
  unit_millicores : ValueUnit
  unit_bytes : ValueUnit
  unit_generic : ValueUnit

abbrev pub second : ℕ
second = 1000000000

abbrev pub minute : ℕ
minute = 60 * second

abbrev pub hour : ℕ
hour = 60 * minute

abbrev pub offset_text : (ℤ → String) → ℤ → String
offset_text duration_text (negsuc n) = "+0s"
offset_text duration_text (pos n) =
    if leb n 0
    then "+0s"
    else if eqb (n % hour) 0
    then "+" <> (format_int (pos (n / hour)) <> "h")
    else if eqb (n % minute) 0
    then "+" <> (format_int (pos (n / minute)) <> "m")
    else if eqb (n % second) 0
    then "+" <> (format_int (pos (n / second)) <> "s")
    else "+" <> duration_text (pos n)

unfoldable pub format_step_offset : (ℤ → String) → (step : ℤ) (index : ℕ) → String
unfolding times_int64
format_step_offset duration_text step index =
    offset_text duration_text (times_int64 step (index + 1))

abbrev pub suffixes : List String
suffixes = "KiB" ∷ "MiB" ∷ "GiB" ∷ "TiB" ∷ []

module _ {F : Type 0} ⦃f : Float64 F⦄ where
  abbrev pub unit : F
  unit = f.decimal 1024 0

  -- The loop of `formatBytes`, from `div`, `exp` and `n`. The first argument is how often `exp` may
  -- still be raised, len(suffixes) - 1 - exp.
  unfoldable pub scale_from : ℕ → (divisor : F) (exp : ℕ) (n : F) → F × ℕ
  scale_from zero divisor exp n = (divisor, exp)
  scale_from (suc left) divisor exp n =
      let further = scale_from left (f.mul divisor unit) (suc exp) (f.div n unit) in
      if f.le unit n then further else (divisor, exp)

  module _ (format_fixed : ℕ → F → String) where
    abbrev scaled_text : F → F × ℕ → String
    scaled_text v (divisor, exp) =
        format_fixed 2 (f.div v divisor) <> (" " <> get_or suffixes exp "")

    unfoldable pub format_bytes : F → String
    unfolding scale_from
    format_bytes v =
        if f.lt v unit
        then format_fixed 0 v <> " B"
        else scaled_text v (scale_from 3 unit 0 (f.div v unit))

    abbrev format_millicores : F → String
    format_millicores v =
        let cores = f.div v (f.decimal 1000 0) in
        if f.le (f.decimal 1000 0) v
        then (if f.le (f.decimal 10 0) cores
            then format_fixed 1 cores <> " cores"
            else format_fixed 2 cores <> " cores")
        else format_fixed 0 v <> "m"

    -- 48 is the code of "0", 46 that of ".".
    abbrev format_generic : F → String
    format_generic v =
        let s = trim_right_of 46 (trim_right_of 48 (format_fixed 3 v)) in
        if s == "" || s == "-0" then "0" else s

    unfoldable format_value : F → ValueUnit → String
    unfolding format_bytes
    format_value v unit_millicores = format_millicores v
    format_value v unit_bytes = format_bytes v
    format_value v unit_generic = format_generic v

    module _ (duration_text : ℤ → String) where
      abbrev point_parts : ℤ → ℕ → List F → ValueUnit → List String
      point_parts step i [] kind = []
      point_parts step i (v ∷ points) kind =
          (format_step_offset duration_text step i <> (": " <> format_value v kind))
          ∷ point_parts step (suc i) points kind

      unfoldable pub format_points : ℤ → List F → ValueUnit → String
      unfolding format_value format_step_offset
      format_points step points kind = join ", " (point_parts step 0 points kind)

      abbrev quantile_parts : ℤ → List (QuantileSeries F) → ValueUnit → List String
      quantile_parts step [] kind = []
      quantile_parts step (q ∷ quantiles) kind =
          ("q" <> (format_fixed 2 q.level <> (" (" <> (format_points step q.values kind <> ")"))))
          ∷ quantile_parts step quantiles kind

      unfoldable pub format_quantiles : ℤ → List (QuantileSeries F) → ValueUnit → String
      unfolding format_points
      format_quantiles step quantiles kind = join "; " (quantile_parts step quantiles kind)
