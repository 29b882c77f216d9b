-- ===== src/Api/Duration.antt =====
-- api/v1alpha1/duration.go. The reader of durations, `time.ParseDuration`, is a parameter: from a
-- text to nanoseconds, or `none` for a text that it refuses. Nothing is assumed of it.
use neural_autoscaler.Base.{String, ◌==◌, Option, none, some, if◌then◌else◌}
use neural_autoscaler.Base.Int.{ℤ}
use neural_autoscaler.Base.Text.{trim_space}
use neural_autoscaler.Base.Result.{Result, ok, err}

pub data DurationError : Type 0 where
  invalid_duration : String → DurationError

module _ (parse_duration : String → Option ℤ) where
  abbrev pub parsed : String → Option ℤ → Result DurationError (Option ℤ)
  parsed text none = err (invalid_duration text)
  parsed text (some d) = ok (some d)

  unfoldable pub set_duration : Option String → Result DurationError (Option ℤ)
  unfolding trim_space
  set_duration none = ok none
  set_duration (some interval) =
      let text = trim_space interval in
      if text == "" then ok none else parsed text (parse_duration text)
