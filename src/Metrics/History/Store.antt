-- ===== src/Metrics/History/Store.antt =====
-- The store of internal/metrics/history.go against a plain record of what happened to one key. The
-- lock makes each call one step, so an interleaving of goroutines is a list of calls.
use text.Mathlib.Text.{starts_with}
use neural_autoscaler.Base.{
  ℕ, suc, ◌≡◌, refl, sym, ap, ap₂, ◌∙◌, inl, inr, String, Option, none, some, List, [], ◌∷◌, ◌++◌,
  arith, ◌==◌, eq_iff, Bool-cases, Option-cases, ◌-◌, drop, length, last_n, last_n-append,
  if◌then◌else◌,
}
use neural_autoscaler.Base.Int.{ℤ, pos}
use neural_autoscaler.Base.Dict.{Dict, lookup, lookup-insert, lookup-erase}
use neural_autoscaler.Metrics.History.{
  Series, empty_series, RingBuffer, HistoryStore, or_default, new_ring_buffer, append, series,
  new_history_store, buffer_for, store_append, store_get, store_len, delete, erase_prefix,
  delete_by_prefix,
}
use neural_autoscaler.Metrics.History.Ring.{
  IsValid, push_sample, new_ring_buffer-IsValid, append-IsValid, series-append, capacity-append,
  length-series, series-new_ring_buffer,
}

-- The calls that change a store.
pub data Call (V T : Type 0) : Type 0 where
  sample : String → V → T → Call V T
  drop_key : String → Call V T
  drop_prefix : String → Call V T

abbrev pub last_samples : {V T : Type 0} → ℕ → Series V T → Series V T
last_samples n s = record { values = last_n n s.values; timestamps = last_n n s.timestamps }

module _ {V T : Type 0} where
  abbrev add_sample : Series V T → V → T → Series V T
  add_sample s v t = record { values = s.values ++ (v ∷ []); timestamps = s.timestamps ++ (t ∷ []) }

  -- All samples of the key since it was last dropped, oldest first.
  abbrev pub recorded : String → Series V T → List (Call V T) → Series V T
  recorded k s [] = s
  recorded k s (sample j v t ∷ calls) = recorded k (if j == k then add_sample s v t else s) calls
  recorded k s (drop_key j ∷ calls) = recorded k (if j == k then empty_series else s) calls
  recorded k s (drop_prefix p ∷ calls) =
      recorded k (if starts_with k p then empty_series else s) calls

pub lookup-erase_prefix {ℓ} :
    {B : Type ℓ} (p k : String) (m : Dict B)
    → lookup k (erase_prefix p m) ≡ (if starts_with k p then none else lookup k m)
unfolding lookup erase_prefix
lookup-erase_prefix p k [] = ground arith
lookup-erase_prefix p k ((j, b) ∷ m) = elim (Bool-cases (j == k)) [
  | inl e ↦ rw ((eq_iff j k).0 e) (ground (arith, lookup-erase_prefix p k m, eq_iff k k))
  | inr ne ↦ ground (arith, lookup-erase_prefix p k m)
]

module _ {V T : Type 0} (no_value : V) (no_time : T) where
  abbrev pub run : HistoryStore V T → List (Call V T) → HistoryStore V T
  run s [] = s
  run s (sample j v t ∷ calls) = run (store_append no_value no_time s j v t) calls
  run s (drop_key j ∷ calls) = run (delete no_value no_time s j) calls
  run s (drop_prefix p ∷ calls) = run (delete_by_prefix s p) calls

  -- The ring of a key holds the last samples of its record.
  abbrev Tracks : ℕ → Series V T → Option (RingBuffer V T) → Type 0
  Tracks cap s none = s ≡ empty_series
  Tracks cap s (some b) =
      IsValid b × (b.capacity ≡ cap) × (series no_value no_time b ≡ last_samples cap s)

  Tracks-append :
      (cap : ℕ) (s : Series V T) (b : RingBuffer V T) (v : V) (t : T)
      → Tracks (suc cap) s (some b)
      → Tracks (suc cap) (add_sample s v t) (some (append no_value no_time b v t))
  Tracks-append cap s b v t (valid, e, same) = (
    append-IsValid no_value no_time b v t valid,
    capacity-append no_value no_time b v t ∙ e,
    series-append no_value no_time b v t valid
        ∙ ap₂ (λ n old. push_sample n old v t) e same
        ∙ ap₂ (λ vs ts. let r : Series V T = record { values = vs; timestamps = ts } in r)
            (last_n-append cap s.values v) (last_n-append cap s.timestamps t),
  )

  Tracks-new :
      (cap : ℕ) (s : Series V T)
      → s ≡ empty_series
      → Tracks (suc cap) s (some (new_ring_buffer no_value no_time (pos (suc cap))))
  Tracks-new cap s e = (
    new_ring_buffer-IsValid no_value no_time (pos (suc cap)),
    (series-new_ring_buffer no_value no_time (pos (suc cap))).1 ∙ ground arith,
    (series-new_ring_buffer no_value no_time (pos (suc cap))).0
        ∙ ap (λ n. let r : Series V T = record { values = drop n []; timestamps = drop n [] } in r)
            {x = 0} {y = 0 - suc cap} (omega arith)
        ∙ ap (last_samples (suc cap)) (sym e),
  )

  Tracks-sample :
      (store : HistoryStore V T) (cap : ℕ) (s : Series V T) (o : Option (RingBuffer V T)) (v : V)
      (t : T)
      → store.capacity ≡ suc cap
      → Tracks (suc cap) s o
      → Tracks
          (suc cap)
          (add_sample s v t)
          (some (append no_value no_time (buffer_for no_value no_time store o) v t))
  Tracks-sample store cap s none v t c h = rw c (Tracks-append cap s _ v t (Tracks-new cap s h))
  Tracks-sample store cap s (some b) v t c h = Tracks-append cap s b v t h

  -- One call, as the key sees it.
  run-Tracks :
      (k : String) (calls : List (Call V T)) (store : HistoryStore V T) (cap : ℕ) (s : Series V T)
      → store.capacity ≡ suc cap
      → Tracks (suc cap) s (lookup k store.buffers)
      → Tracks (suc cap) (recorded k s calls) (lookup k (run store calls).buffers)
  unfolding store_append delete delete_by_prefix
  run-Tracks k [] store cap s c h = h
  run-Tracks k (sample j v t ∷ calls) store cap s c h =
      run-Tracks k calls (store_append no_value no_time store j v t) cap _ c (
        rw lookup-insert (elim (Bool-cases (j == k)) [
          | inl e ↦ rw (e, (eq_iff j k).0 e) (Tracks-sample store cap s _ v t c h)
          | inr ne ↦ rw ne h
        ]))
  run-Tracks k (drop_key j ∷ calls) store cap s c h =
      run-Tracks k calls (delete no_value no_time store j) cap _ c
        (rw lookup-erase (elim (Bool-cases (j == k)) [ inl e ↦ rw e refl | inr ne ↦ rw ne h ]))
  run-Tracks k (drop_prefix p ∷ calls) store cap s c h =
      run-Tracks k calls (delete_by_prefix store p) cap _ c (
        rw lookup-erase_prefix
          (elim (Bool-cases (starts_with k p)) [ inl e ↦ rw e refl | inr ne ↦ rw ne h ]))

  store_get-Tracks :
      (k : String) (store : HistoryStore V T) (cap : ℕ) (s : Series V T)
      → Tracks (suc cap) s (lookup k store.buffers)
      → (store_get no_value no_time store k ≡ last_samples (suc cap) s)
        × (store_len no_value no_time store k ≡ length (store_get no_value no_time store k).values)
  unfolding store_get store_len
  store_get-Tracks k store cap s h = elim (Option-cases (lookup k store.buffers)) [
    | inl e ↦
        let nothing : s ≡ empty_series = rw e at h in
        rw e (
          ap (λ n. let r : Series V T = record { values = drop n []; timestamps = drop n [] } in r)
                {x = 0} {y = 0 - suc cap} (omega arith)
              ∙ ap (last_samples (suc cap)) (sym nothing),
          refl,
        )
    | inr (b, e) ↦
        let tracked : Tracks (suc cap) s (some b) = rw e at h in
        rw e (tracked.2, sym (length-series no_value no_time b).0)
  ]

  -- After any calls on a new store, in any interleaving of keys, `Get` of a key returns the last
  -- samples that were added to that key since it was last dropped by `Delete` or `DeleteByPrefix`,
  -- oldest first, as many as the capacity lets stand, and `Len` is their number.
  pub store_get-run :
      (capacity : ℤ) (k : String) (calls : List (Call V T))
      → let store = run (new_history_store no_value no_time capacity) calls in
        (store_get no_value no_time store k
          ≡ last_samples (or_default capacity) (recorded k empty_series calls))
        × (store_len no_value no_time store k ≡ length (store_get no_value no_time store k).values)
  unfolding new_history_store lookup
  store_get-run capacity k calls =
      let cap = or_default capacity - 1 in
      let e : or_default capacity ≡ suc cap = ground arith in
      let new = new_history_store no_value no_time capacity in
      let both =
        store_get-Tracks k (run new calls) cap (recorded k empty_series calls)
          (run-Tracks k calls new cap empty_series e refl) in
      (both.0 ∙ ap (λ n. last_samples n (recorded k empty_series calls)) (sym e), both.1)
