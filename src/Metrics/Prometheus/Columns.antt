-- ===== src/Metrics/Prometheus/Columns.antt =====
-- What `prometheusMatrixToSeries` makes of streams of one length: the sums of their columns.
use neural_autoscaler.Base.{
  ℕ, zero, suc, ◌≤◌, ◌≡◌, refl, sym, subst, ap, ◌∙◌, Option, none, some, List, [], ◌∷◌, map, length,
  get_elem?, arith, All,
}
use neural_autoscaler.Base.Float.{Float64}
use neural_autoscaler.Metrics.History.{Series, empty_series}
use neural_autoscaler.Metrics.Prometheus.Merge.{
  Sample, sample_time, sample_value, sample_stream_to_series, total_from, add_values, merge_series,
  merge_streams, prometheus_matrix_to_series,
}

module _ {F T : Type 0} where
  abbrev push_some : Option (Sample F T) → List (Sample F T) → List (Sample F T)
  push_some none samples = samples
  push_some (some s) samples = s ∷ samples

  -- The samples at an index, in the order of the streams.
  abbrev pub stream_column : ℕ → List (List (Sample F T)) → List (Sample F T)
  stream_column i [] = []
  stream_column i (stream ∷ streams) = push_some (get_elem? stream i) (stream_column i streams)

  abbrev pub first_times : List (List (Sample F T)) → List T
  first_times [] = []
  first_times (stream ∷ streams) = map sample_time stream

  abbrev AllLong : ℕ → List (List (Sample F T)) → Type 0
  AllLong n streams = All (λ stream. length stream ≡ n) streams

module _ {F : Type 0} ⦃f : Float64 F⦄ where
  length-add_values :
      (xs ys : List F) → length xs ≡ length ys → length (add_values xs ys) ≡ length xs
  unfolding add_values
  length-add_values [] ys h = refl
  length-add_values (x ∷ xs) [] h = omega (arith, h)
  length-add_values (x ∷ xs) (y ∷ ys) h = ap suc (length-add_values xs ys (omega (arith, h)))

module _ {F T : Type 0} ⦃f : Float64 F⦄ where
  -- The sum of samples from left to right, if there is one.
  abbrev pub sum_of : List (Sample F T) → Option F
  sum_of [] = none
  sum_of (s ∷ samples) = some (total_from s.value samples)

  abbrev added : Option F → List (Sample F T) → Option F
  added none samples = none
  added (some v) samples = some (total_from v samples)

  length-values : (stream : List (Sample F T)) → length (map sample_value stream) ≡ length stream
  length-values [] = refl
  length-values (s ∷ stream) = ap suc (length-values stream)

  added-push :
      (xs : List F) (stream : List (Sample F T)) (i : ℕ) (samples : List (Sample F T))
      → length xs ≡ length stream
      → added (get_elem? (add_values xs (map sample_value stream)) i) samples
        ≡ added (get_elem? xs i) (push_some (get_elem? stream i) samples)
  unfolding add_values total_from
  added-push [] [] i samples h = refl
  added-push [] (s ∷ stream) i samples h = absurd (omega (arith, h))
  added-push (x ∷ xs) [] i samples h = absurd (omega (arith, h))
  added-push (x ∷ xs) (s ∷ stream) zero samples h = refl
  added-push (x ∷ xs) (s ∷ stream) (suc i) samples h =
      added-push xs stream i samples (omega (arith, h))

  merge_series-same :
      (n : ℕ) (merged : Series F T) (stream : List (Sample F T))
      → length merged.values ≡ suc n
      → length stream ≡ suc n
      → merge_series merged (sample_stream_to_series stream) ≡ record {
        values = add_values merged.values (map sample_value stream);
        timestamps = merged.timestamps;
      }
  unfolding merge_series sample_stream_to_series
  merge_series-same n merged stream h hs = ground (arith, length-values stream, h, hs)

  merge_streams-columns :
      (n : ℕ) (streams : List (List (Sample F T))) (merged : Series F T) (i : ℕ)
      → length merged.values ≡ suc n
      → AllLong (suc n) streams
      → let result = merge_streams merged streams in
        (get_elem? result.values i ≡ added (get_elem? merged.values i) (stream_column i streams))
        × (result.timestamps ≡ merged.timestamps)
  unfolding merge_streams total_from
  merge_streams-columns n [] merged i h long = (
    elim (get_elem? merged.values i) as (λ v. v ≡ added v []) [ none ↦ refl | some v ↦ refl ],
    refl,
  )
  merge_streams-columns n (stream ∷ streams) merged i h (hs, long) =
      let values = add_values merged.values (map sample_value stream) in
      let next : Series F T = record { values = values; timestamps = merged.timestamps } in
      let same = h ∙ sym (length-values stream ∙ hs) in
      let (col, times) =
        merge_streams-columns n streams next i
          (length-add_values merged.values (map sample_value stream) same ∙ h) long in
      subst
        (λ m.
          let result = merge_streams m streams in
          (get_elem? result.values i
            ≡ added (get_elem? merged.values i) (stream_column i (stream ∷ streams)))
          × (result.timestamps ≡ merged.timestamps))
        (sym (merge_series-same n merged stream h hs))
        (col ∙ added-push merged.values stream i (stream_column i streams) (h ∙ sym hs), times)

  no-sample : (stream : List (Sample F T)) (i : ℕ) → length stream ≤ i → get_elem? stream i ≡ none
  no-sample [] i h = refl
  no-sample (s ∷ stream) zero h = absurd (omega (arith, h))
  no-sample (s ∷ stream) (suc i) h = no-sample stream i (omega (arith, h))

  no-stream_column :
      (streams : List (List (Sample F T))) (n i : ℕ)
      → AllLong n streams
      → n ≤ i
      → stream_column i streams ≡ []
  no-stream_column [] n i long h = refl
  no-stream_column (stream ∷ streams) n i (e, long) h =
      ap (λ o. push_some o (stream_column i streams))
        (no-sample stream i (subst (λ m. m ≤ i) (sym e) h))
      ∙ no-stream_column streams n i long h

  sum-push :
      (stream : List (Sample F T)) (i : ℕ) (samples : List (Sample F T))
      → (length stream ≤ i → samples ≡ [])
      → added (get_elem? (map sample_value stream) i) samples
        ≡ sum_of (push_some (get_elem? stream i) samples)
  sum-push [] i samples h = ap sum_of (sym (h (omega arith)))
  sum-push (s ∷ stream) zero samples h = refl
  sum-push (s ∷ stream) (suc i) samples h =
      sum-push stream i samples (λ short. h (omega (arith, short)))

  length-first :
      (stream : List (Sample F T)) → length (sample_stream_to_series stream).values ≡ length stream
  unfolding sample_stream_to_series
  length-first stream = length-values stream

  merge_series-first : (add : Series F T) → merge_series empty_series add ≡ add
  unfolding merge_series
  merge_series-first add = refl

  first-sum :
      (stream : List (Sample F T)) (i : ℕ) (samples : List (Sample F T))
      → (length stream ≤ i → samples ≡ [])
      → (added (get_elem? (sample_stream_to_series stream).values i) samples
          ≡ sum_of (push_some (get_elem? stream i) samples))
        × ((sample_stream_to_series stream).timestamps ≡ map sample_time stream)
  unfolding sample_stream_to_series
  first-sum stream i samples h = (sum-push stream i samples h, refl)

  -- Sample streams with one number of samples, which is not 0, become one series. Its value at each index is the
  -- sum of the samples at that index, from the first stream to the last, it has no other values, and
  -- its times are those of the first stream.
  pub prometheus_matrix_to_series-columns :
      (n : ℕ) (streams : List (List (Sample F T))) (i : ℕ)
      → AllLong (suc n) streams
      → let series = prometheus_matrix_to_series streams in
        (get_elem? series.values i ≡ sum_of (stream_column i streams))
        × (series.timestamps ≡ first_times streams)
  unfolding prometheus_matrix_to_series merge_streams
  prometheus_matrix_to_series-columns n [] i long = (refl, refl)
  prometheus_matrix_to_series-columns n (stream ∷ streams) i (hs, long) =
      let first = sample_stream_to_series stream in
      let (col, times) = merge_streams-columns n streams first i (length-first stream ∙ hs) long in
      let tail : length stream ≤ i → stream_column i streams ≡ [] =
        λ h. no-stream_column streams (suc n) i long (subst (λ m. m ≤ i) hs h) in
      subst
        (λ m.
          let result = merge_streams m streams in
          (get_elem? result.values i ≡ sum_of (stream_column i (stream ∷ streams)))
          × (result.timestamps ≡ map sample_time stream))
        (sym (merge_series-first first))
        (
          col ∙ (first-sum stream i (stream_column i streams) tail).0,
          times ∙ (first-sum stream i (stream_column i streams) tail).1,
        )
