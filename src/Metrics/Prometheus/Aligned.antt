-- ===== src/Metrics/Prometheus/Aligned.antt =====
-- A series that is made of an answer of Prometheus has as many times as values.
use neural_autoscaler.Base.{
  ◌≡◌, refl, sym, ap, ◌∙◌, inl, inr, String, ◌==◌, Option, none, some, List, [], ◌∷◌, suc, map,
  length, arith, Bool-cases,
}
use neural_autoscaler.Base.Float.{Float64}
use neural_autoscaler.Base.Result.{Holds}
use neural_autoscaler.Api.Types.{PrometheusQueryType, prometheus_query_instant}
use neural_autoscaler.Metrics.History.{Series, empty_series}
use neural_autoscaler.Metrics.Server.{FetchResult}
use neural_autoscaler.Base.{All}
use neural_autoscaler.Metrics.Prometheus.Merge.{
  Sample, sample_time, sample_value, Value, vector, matrix, other_value, sample_stream_to_series,
  prometheus_vector_to_series, add_values, merge_series, merge_streams, prometheus_matrix_to_series,
  prometheus_value_to_series, want_vector_series, want_matrix_series,
}

abbrev pub IsAligned : {F T : Type 0} → Series F T → Type 0
IsAligned series = length series.values ≡ length series.timestamps

abbrev pub IsAlignedEntry : {F T : Type 0} → String × Series F T → Type 0
IsAlignedEntry (r, series) = IsAligned series

abbrev pub AreAligned : {F T : Type 0} → FetchResult F T → Type 0
AreAligned result = All IsAlignedEntry result.by_resource

length-map {ℓ κ} :
    {A : Type ℓ} {B : Type κ} (g : A → B) (xs : List A) → length (map g xs) ≡ length xs
length-map g [] = refl
length-map g (x ∷ xs) = ap suc (length-map g xs)

sample_stream_to_series-IsAligned :
    {F T : Type 0} (stream : List (Sample F T)) → IsAligned (sample_stream_to_series stream)
unfolding sample_stream_to_series
sample_stream_to_series-IsAligned stream =
    length-map sample_value stream ∙ sym (length-map sample_time stream)

module _ {F : Type 0} ⦃f : Float64 F⦄ where
  length-add_values :
      (xs ys : List F) → length xs ≡ length ys → length (add_values xs ys) ≡ length xs
  unfolding add_values
  length-add_values [] ys h = refl
  length-add_values (x ∷ xs) [] h = omega (arith, h)
  length-add_values (x ∷ xs) (y ∷ ys) h = ap suc (length-add_values xs ys (omega (arith, h)))

module _ {F T : Type 0} ⦃f : Float64 F⦄ where
  merge_series-IsAligned :
      (base add : Series F T) → IsAligned base → IsAligned add → IsAligned (merge_series base add)
  unfolding merge_series
  merge_series-IsAligned base add hb ha = ground (arith, length-add_values base.values add.values)

  merge_streams-IsAligned :
      (merged : Series F T) (streams : List (List (Sample F T)))
      → IsAligned merged
      → IsAligned (merge_streams merged streams)
  unfolding merge_streams
  merge_streams-IsAligned merged [] h = h
  merge_streams-IsAligned merged (stream ∷ streams) h =
      merge_streams-IsAligned (merge_series merged (sample_stream_to_series stream)) streams
        (merge_series-IsAligned merged _ h (sample_stream_to_series-IsAligned stream))

  prometheus_vector_to_series-IsAligned :
      (samples : List (Sample F T)) → IsAligned (prometheus_vector_to_series samples)
  unfolding prometheus_vector_to_series
  prometheus_vector_to_series-IsAligned [] = refl
  prometheus_vector_to_series-IsAligned (s ∷ samples) = refl

  want_vector_series-IsAligned : (value : Value F T) → Holds IsAligned (want_vector_series value)
  want_vector_series-IsAligned (vector samples) = prometheus_vector_to_series-IsAligned samples
  want_vector_series-IsAligned (matrix streams) = tt
  want_vector_series-IsAligned (other_value kind) = tt

  want_matrix_series-IsAligned : (value : Value F T) → Holds IsAligned (want_matrix_series value)
  unfolding prometheus_matrix_to_series
  want_matrix_series-IsAligned (vector samples) = tt
  want_matrix_series-IsAligned (matrix streams) = merge_streams-IsAligned empty_series streams refl
  want_matrix_series-IsAligned (other_value kind) = tt

  pub prometheus_value_to_series-IsAligned :
      (value : Option (Value F T)) (query_type : PrometheusQueryType)
      → Holds IsAligned (prometheus_value_to_series value query_type)
  unfolding prometheus_value_to_series
  prometheus_value_to_series-IsAligned none query_type = refl
  prometheus_value_to_series-IsAligned (some value) query_type =
      elim (Bool-cases (query_type == prometheus_query_instant)) [
        | inl e ↦ rw e (want_vector_series-IsAligned value)
        | inr e ↦ rw e (want_matrix_series-IsAligned value)
      ]
