-- ===== src/Metrics/Prometheus/Merge.antt =====
-- The conversion of an answer of Prometheus to a series: `prometheusValueToSeries` and what it calls.
use neural_autoscaler.Base.{
  String, ◌==◌, Option, none, some, List, [], ◌∷◌, map, length, eqb, if◌then◌else◌,
}
use neural_autoscaler.Base.Float.{Float64}
use neural_autoscaler.Base.Result.{Result, ok, err}
use neural_autoscaler.Api.Types.{PrometheusQueryType, prometheus_query_instant}
use neural_autoscaler.Metrics.History.{Series, empty_series}
use neural_autoscaler.Resize.Peak.{nought}

pub record Sample (F T : Type 0) : Type 0 where
  pub timestamp : T
  pub value : F

-- `model.Value`: a vector, a matrix of sample streams, or another kind, by its name.
pub data Value (F T : Type 0) : Type 0 where
  vector : List (Sample F T) → Value F T
  matrix : List (List (Sample F T)) → Value F T
  other_value : String → Value F T

abbrev kind_of : {F T : Type 0} → Value F T → String
kind_of (vector samples) = "model.Vector"
kind_of (matrix streams) = "model.Matrix"
kind_of (other_value kind) = kind

pub data ValueError : Type 0 where
  want_vector : String → ValueError
  want_matrix : String → ValueError

abbrev pub sample_time : {F T : Type 0} → Sample F T → T
sample_time s = s.timestamp

abbrev pub sample_value : {F T : Type 0} → Sample F T → F
sample_value s = s.value

unfoldable pub sample_stream_to_series : {F T : Type 0} → List (Sample F T) → Series F T
sample_stream_to_series stream = record {
  values = map sample_value stream;
  timestamps = map sample_time stream;
}

module _ {F : Type 0} ⦃f : Float64 F⦄ where
  -- The loop `total += float64(sample.Value)`.
  unfoldable pub total_from : {T : Type 0} → F → List (Sample F T) → F
  total_from total [] = total
  total_from total (s ∷ samples) = total_from (f.add total s.value) samples

  unfoldable pub prometheus_vector_to_series : {T : Type 0} → List (Sample F T) → Series F T
  unfolding total_from
  prometheus_vector_to_series [] = empty_series
  prometheus_vector_to_series (s ∷ samples) = record {
    values = total_from nought (s ∷ samples) ∷ [];
    timestamps = s.timestamp ∷ [];
  }

  -- `out.Values[i] = base.Values[i] + add.Values[i]`, for slices of one length.
  unfoldable pub add_values : List F → List F → List F
  add_values [] ys = []
  add_values (x ∷ xs) [] = []
  add_values (x ∷ xs) (y ∷ ys) = f.add x y ∷ add_values xs ys

  unfoldable pub merge_series : {T : Type 0} → Series F T → Series F T → Series F T
  merge_series base add =
      if eqb (length base.values) 0
      then add
      else (if eqb (length add.values) 0
          then base
          else (if eqb (length base.values) (length add.values)
              then record {
                values = add_values base.values add.values;
                timestamps = base.timestamps;
              }
              else add))

  -- The loop over the streams.
  unfoldable pub merge_streams : {T : Type 0} → Series F T → List (List (Sample F T)) → Series F T
  unfolding sample_stream_to_series merge_series
  merge_streams merged [] = merged
  merge_streams merged (stream ∷ streams) =
      merge_streams (merge_series merged (sample_stream_to_series stream)) streams

  unfoldable pub prometheus_matrix_to_series : {T : Type 0} → List (List (Sample F T)) → Series F T
  unfolding merge_streams
  prometheus_matrix_to_series streams = merge_streams empty_series streams

  abbrev pub want_matrix_series : {T : Type 0} → Value F T → Result ValueError (Series F T)
  want_matrix_series (matrix streams) = ok (prometheus_matrix_to_series streams)
  want_matrix_series (vector samples) = err (want_matrix (kind_of (vector samples)))
  want_matrix_series (other_value kind) = err (want_matrix kind)

  abbrev pub want_vector_series : {T : Type 0} → Value F T → Result ValueError (Series F T)
  want_vector_series (vector samples) = ok (prometheus_vector_to_series samples)
  want_vector_series (matrix streams) = err (want_vector (kind_of (matrix streams)))
  want_vector_series (other_value kind) = err (want_vector kind)

  unfoldable pub prometheus_value_to_series :
      {T : Type 0} → Option (Value F T) → PrometheusQueryType → Result ValueError (Series F T)
  prometheus_value_to_series none query_type = ok empty_series
  prometheus_value_to_series (some value) query_type =
      if query_type == prometheus_query_instant
      then want_vector_series value
      else want_matrix_series value
