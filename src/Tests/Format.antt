-- ===== src/Tests/Format.antt =====
-- The texts of forecasts, with two decimals written as none.
use Prim.Native.String.{◌++◌ as ◌<>◌}
use neural_autoscaler.Base.{
  ℕ, ◌*◌, ◌/◌, ◌≡◌, refl, ◌⊎◌, String, true, false, none, some, [], ◌∷◌, arith,
}
use neural_autoscaler.Base.Int.{ℤ, pos}
use neural_autoscaler.Base.Decimal.{format_int}
use neural_autoscaler.Base.Float.{Fixed, fixed_float}
use neural_autoscaler.Forecast.Types.{Response}
use neural_autoscaler.Forecast.Format.{
  minute, second, unit, format_step_offset, format_bytes, format_points, format_quantiles,
}
use neural_autoscaler.Forecast.Format.Labels.{
  power, IsScale, IsUnit, format_bytes_lem, format_step_offset_lem,
}
use neural_autoscaler.Controller.Report.{forecast_texts, describe_metric_target}
use neural_autoscaler.Tests.Clients.{server}

abbrev whole : ℕ → Fixed → String
whole digits v = format_int (pos (v / 1000))

abbrev nanoseconds : ℤ → String
nanoseconds d = format_int d <> "ns"

-- 128 MiB.
abbrev memory : Fixed
memory = 128 * 1024 * 1024 * 1000

format_bytes_lem_example :
    ((fixed_float.lt memory unit ≡ true) × (format_bytes whole memory ≡ whole 0 memory <> " B"))
    ⊎ ((fixed_float.lt memory unit ≡ false)
        × (exp : ℕ) × (scale : IsScale memory exp) × (format_bytes whole memory
            ≡ whole 2 (fixed_float.div memory (power exp)) <> (" " <> scale.suffix)))
format_bytes_lem_example = format_bytes_lem whole memory

format_step_offset_lem_example :
    (size : ℕ) × (letter : String) × (count : ℕ) × IsUnit (30 * second * 2) size letter
    × (30 * second * 2 ≡ count * size)
    × (format_step_offset nanoseconds (pos (30 * second)) 1
        ≡ "+" <> (format_int (pos count) <> letter))
format_step_offset_lem_example =
    format_step_offset_lem nanoseconds (30 * second) 1 (omega arith) (omega arith) (omega arith)

abbrev answer : Response Fixed
answer = record {
  point = 250000 ∷ 1500000 ∷ [];
  quantiles = record { level = 1000; values = 7000 ∷ [] } ∷ [];
  model_version = "m";
}

report_test :
    forecast_texts whole nanoseconds (pos minute) "cpu" answer
    ≡ ("forecast", "+1m: 250m, +2m: 1 cores") ∷ ("quantiles", "q1 (+1m: 7m)") ∷ []
unfolding format_points format_quantiles format_int
report_test = refl

bytes_test : format_bytes whole memory ≡ "128 MiB"
unfolding format_bytes format_int
bytes_test = refl

target_test :
    describe_metric_target
      (record { source_type = "MetricsServer"; metrics_server = some server; prometheus = none })
      "cpu"
    ≡ "CPU for " <> (server.target_ref.kind <> (" " <> server.target_ref.name))
target_test = refl
