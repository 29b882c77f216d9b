-- ===== src/Metrics/History/Ring.antt =====
-- The ring of internal/metrics/history.go against the plain list of the latest samples.
use native.Mathlib.Decide.{dec_lt}
use neural_autoscaler.Base.{
  ℕ, zero, suc, ◌+◌, ◌%◌, ◌≤◌, ◌<◌, ◌≡◌, refl, sym, ap, ap₂, ◌∙◌, List, [], ◌∷◌, ◌++◌, arith, eqb,
  length, set, replicate, last_n, last_n_all, length-set, length-append, length-replicate,
  if◌then◌else◌,
}
use neural_autoscaler.Base.Int.{ℤ}
use neural_autoscaler.Metrics.History.{
  Series, empty_series, RingBuffer, new_ring_buffer, append, series, copy_from, or_default,
}
use neural_autoscaler.Metrics.History.Loop.{length-copy_from, copy_from-extend, copy_from-rotate}

-- What every ring satisfies between two calls.
pub record IsValid {V T : Type 0} (b : RingBuffer V T) : Type 0 where
  pub has_room : 0 < b.capacity
  pub count_le : b.count ≤ b.capacity
  pub start_lt : b.start < b.capacity
  pub start_zero : b.count < b.capacity → b.start ≡ 0
  pub values_made : 0 < b.count → length b.values ≡ b.capacity
  pub timestamps_made : 0 < b.count → length b.timestamps ≡ b.capacity

-- The last `n` samples of a series with one more sample.
abbrev pub push_sample : {V T : Type 0} → ℕ → Series V T → V → T → Series V T
push_sample n s v t = record {
  values = last_n n (s.values ++ (v ∷ []));
  timestamps = last_n n (s.timestamps ++ (t ∷ []));
}

module _ {A : Type 0} (d : A) where
  -- The slice that `Append` writes to: it is made at the first sample.
  abbrev made : List A → ℕ → ℕ → List A
  made xs cap count = if eqb count 0 then replicate cap d else xs

  length-made :
      (xs : List A) (cap count : ℕ)
      → (0 < count → length xs ≡ cap)
      → length (made xs cap count) ≡ cap
  length-made xs cap count h = ground (arith, length-replicate cap d)

  copy_from-made :
      (xs : List A) (cap count : ℕ)
      → copy_from (made xs cap count) cap 0 d 0 count ≡ copy_from xs cap 0 d 0 count
  unfolding copy_from
  copy_from-made xs cap zero = refl
  copy_from-made xs cap (suc n) =
      ap (λ ys. copy_from ys cap 0 d 0 (suc n)) {x = made xs cap (suc n)} (ground arith)

  -- One write, in a ring that is not full yet.
  copy_from-write :
      (xs : List A) (cap count start : ℕ) (v : A)
      → start ≡ 0
      → (0 < count → length xs ≡ cap)
      → count < cap
      → copy_from (set (made xs cap count) ((start + count) % cap) v) cap start d 0 (count + 1)
        ≡ last_n cap (copy_from xs cap start d 0 count ++ (v ∷ []))
  copy_from-write xs cap count start v e h room =
      let ys = made xs cap count in
      let old = copy_from xs cap 0 d 0 count in
      ap₂ (λ s k. copy_from (set ys ((s + count) % cap) v) cap s d 0 k) e
        (let one : count + 1 ≡ suc count = omega arith in one)
      ∙ ap (λ j. copy_from (set ys (j % cap) v) cap 0 d 0 (suc count)) {y = count} (omega arith)
      ∙ copy_from-extend d ys cap count v room (length-made xs cap count h)
      ∙ ap (λ l. l ++ (v ∷ [])) (copy_from-made xs cap count)
      ∙ sym (
          last_n_all cap (old ++ (v ∷ []))
            (omega (arith, length-append old (v ∷ []), length-copy_from cap d xs 0 0 count)))
      ∙ ap (λ s. last_n cap (copy_from xs cap s d 0 count ++ (v ∷ []))) (sym e)

  -- One write, in a full ring.
  copy_from-overwrite :
      (xs : List A) (cap count start : ℕ) (v : A)
      → start < cap
      → length xs ≡ cap
      → count ≡ cap
      → copy_from (set xs start v) cap ((start + 1) % cap) d 0 count
        ≡ last_n cap (copy_from xs cap start d 0 count ++ (v ∷ []))
  copy_from-overwrite xs cap count start v h len e =
      ap (copy_from (set xs start v) cap ((start + 1) % cap) d 0) e
      ∙ copy_from-rotate d xs cap start v h len
      ∙ ap (λ n. last_n cap (copy_from xs cap start d 0 n ++ (v ∷ []))) (sym e)

abbrev series_of : {V T : Type 0} → List V → List T → Series V T
series_of vs ts = record { values = vs; timestamps = ts }

series_of-if_zero :
    {V T : Type 0} (no_value : V) (no_time : T) (b : RingBuffer V T) (n : ℕ)
    → let full =
        series_of
          (copy_from b.values b.capacity b.start no_value 0 n)
          (copy_from b.timestamps b.capacity b.start no_time 0 n) in
      (if eqb n 0 then empty_series else full) ≡ full
unfolding copy_from
series_of-if_zero no_value no_time b zero = refl
series_of-if_zero no_value no_time b (suc n) = ground arith

module _ {V T : Type 0} (no_value : V) (no_time : T) where
  pub new_ring_buffer-IsValid : (capacity : ℤ) → IsValid (new_ring_buffer no_value no_time capacity)
  unfolding new_ring_buffer
  new_ring_buffer-IsValid capacity = ground arith

  -- `Append` keeps the ring valid.
  pub append-IsValid :
      (b : RingBuffer V T) (v : V) (t : T) → IsValid b → IsValid (append no_value no_time b v t)
  unfolding append
  append-IsValid b v t h = ground (
    arith,
    length-set b.values b.start v,
    length-set b.timestamps b.start t,
    length-set b.values ((b.start + b.count) % b.capacity) v,
    length-set b.timestamps ((b.start + b.count) % b.capacity) t,
    length-set (replicate b.capacity no_value) ((b.start + b.count) % b.capacity) v,
    length-set (replicate b.capacity no_time) ((b.start + b.count) % b.capacity) t,
    length-replicate b.capacity no_value,
    length-replicate b.capacity no_time,
  )

  series-eq :
      (b : RingBuffer V T)
      → series no_value no_time b
        ≡ series_of
            (copy_from b.values b.capacity b.start no_value 0 b.count)
            (copy_from b.timestamps b.capacity b.start no_time 0 b.count)
  unfolding series
  series-eq b = series_of-if_zero no_value no_time b b.count

  append_full :
      (b : RingBuffer V T) (v : V) (t : T)
      → 0 < b.capacity
      → b.count ≡ b.capacity
      → append no_value no_time b v t ≡ record b {
        values = set b.values b.start v;
        timestamps = set b.timestamps b.start t;
        start = (b.start + 1) % b.capacity;
      }
  unfolding append
  append_full b v t h e = ground arith

  append_room :
      (b : RingBuffer V T) (v : V) (t : T)
      → b.count < b.capacity
      → append no_value no_time b v t ≡ record b {
        values =
            set (made no_value b.values b.capacity b.count) ((b.start + b.count) % b.capacity) v;
        timestamps =
            set (made no_time b.timestamps b.capacity b.count) ((b.start + b.count) % b.capacity) t;
        count = b.count + 1;
      }
  unfolding append
  append_room b v t h = ground arith

  -- `Append` then `Series` is the same series with one more sample, cut to the last `capacity` ones.
  pub series-append :
      (b : RingBuffer V T) (v : V) (t : T)
      → IsValid b
      → series no_value no_time (append no_value no_time b v t)
        ≡ push_sample b.capacity (series no_value no_time b) v t
  series-append b v t h = elim (dec_lt b.count b.capacity) [
    | yes room ↦
        rw (append_room b v t room, series-eq, series-eq)
          (let zero_start = h.start_zero room in
            ap₂ series_of
              (copy_from-write no_value b.values b.capacity b.count b.start v zero_start
                h.values_made room)
              (copy_from-write no_time b.timestamps b.capacity b.count b.start t zero_start
                h.timestamps_made room))
    | no full ↦
        let e : b.count ≡ b.capacity = omega arith in
        let some_count : 0 < b.count = omega arith in
        rw (append_full b v t h.has_room e, series-eq, series-eq)
          (ap₂ series_of
            (copy_from-overwrite no_value b.values b.capacity b.count b.start v h.start_lt
              (h.values_made some_count) e)
            (copy_from-overwrite no_time b.timestamps b.capacity b.count b.start t h.start_lt
              (h.timestamps_made some_count) e))
  ]

  pub capacity-append :
      (b : RingBuffer V T) (v : V) (t : T) → (append no_value no_time b v t).capacity ≡ b.capacity
  unfolding append
  capacity-append b v t = ground arith

  pub length-series :
      (b : RingBuffer V T)
      → (length (series no_value no_time b).values ≡ b.count)
        × (length (series no_value no_time b).timestamps ≡ b.count)
  length-series b = rw series-eq (
    length-copy_from b.capacity no_value b.values b.start 0 b.count,
    length-copy_from b.capacity no_time b.timestamps b.start 0 b.count,
  )

  -- A new ring has no samples, and the capacity that was asked for, or else the default one.
  pub series-new_ring_buffer :
      (capacity : ℤ)
      → (series no_value no_time (new_ring_buffer no_value no_time capacity) ≡ empty_series)
        × ((new_ring_buffer no_value no_time capacity).capacity ≡ or_default capacity)
  unfolding series new_ring_buffer
  series-new_ring_buffer capacity = (refl, refl)
