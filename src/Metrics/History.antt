-- ===== src/Metrics/History.antt =====
-- internal/metrics/history.go: the ring of samples and the store of rings, over any types of values
-- and times. A capacity is not negative: the fields are private to the package, and both
-- constructors replace a capacity that is not positive. A method under the store's lock is one step.
pub mod Loop
pub mod Ring
pub mod Store
use text.Mathlib.Text.{starts_with}
use neural_autoscaler.Base.{
  ℕ, zero, suc, ◌+◌, ◌%◌, String, Bool, Option, none, some, List, [], ◌∷◌, ltb, eqb, get_or, set,
  replicate, last_or, if◌then◌else◌,
}
use neural_autoscaler.Base.Int.{ℤ, pos, pos_part, leb_ℤ}
use neural_autoscaler.Base.Dict.{Dict, lookup, insert, erase}

abbrev default_history_capacity : ℕ
default_history_capacity = 512

abbrev pub min_forecast_samples : ℕ
min_forecast_samples = 16

pub record Series (V T : Type 0) : Type 0 where
  pub values : List V
  pub timestamps : List T

abbrev pub empty_series : {V T : Type 0} → Series V T
empty_series = record { values = []; timestamps = [] }

pub record RingBuffer (V T : Type 0) : Type 0 where
  pub values : List V
  pub timestamps : List T
  pub capacity : ℕ
  pub start : ℕ
  pub count : ℕ

pub record HistoryStore (V T : Type 0) : Type 0 where
  pub buffers : Dict (RingBuffer V T)
  pub capacity : ℕ

abbrev pub or_default : ℤ → ℕ
or_default capacity = if leb_ℤ capacity (pos 0) then default_history_capacity else pos_part capacity

-- `out[i:]` of the loop of `Series`, with `left` elements to go.
unfoldable pub copy_from {ℓ} : {A : Type ℓ} → List A → ℕ → ℕ → A → ℕ → ℕ → List A
copy_from xs capacity start d i zero = []
copy_from xs capacity start d i (suc left) =
    get_or xs ((start + i) % capacity) d ∷ copy_from xs capacity start d (i + 1) left

-- The zero values of the two types are what `make` fills a slice with.
module _ {V T : Type 0} (no_value : V) (no_time : T) where
  unfoldable pub new_ring_buffer : ℤ → RingBuffer V T
  new_ring_buffer capacity = record {
    values = [];
    timestamps = [];
    capacity = or_default capacity;
    start = 0;
    count = 0;
  }

  unfoldable pub append : RingBuffer V T → V → T → RingBuffer V T
  append b value ts =
      if eqb b.capacity 0
      then b
      else (if ltb b.count b.capacity
          then (let fresh = eqb b.count 0 in
              let idx = (b.start + b.count) % b.capacity in
              record b {
                values = set (if fresh then replicate b.capacity no_value else b.values) idx value;
                timestamps =
                    set (if fresh then replicate b.capacity no_time else b.timestamps) idx ts;
                count = b.count + 1;
              })
          else record b {
            values = set b.values b.start value;
            timestamps = set b.timestamps b.start ts;
            start = (b.start + 1) % b.capacity;
          })

  abbrev pub len : RingBuffer V T → ℕ
  len b = b.count

  unfoldable pub series : RingBuffer V T → Series V T
  unfolding copy_from
  series b = if eqb b.count 0 then empty_series else record {
    values = copy_from b.values b.capacity b.start no_value 0 b.count;
    timestamps = copy_from b.timestamps b.capacity b.start no_time 0 b.count;
  }

  unfoldable pub new_history_store : ℤ → HistoryStore V T
  new_history_store capacity = record { buffers = []; capacity = or_default capacity }

  -- The ring of the key, or the new one that `Append` puts into the map.
  abbrev pub buffer_for : HistoryStore V T → Option (RingBuffer V T) → RingBuffer V T
  buffer_for s (some buf) = buf
  buffer_for s none = new_ring_buffer (pos s.capacity)

  unfoldable pub store_append : HistoryStore V T → String → V → T → HistoryStore V T
  unfolding append new_ring_buffer
  store_append s key value ts = record s {
    buffers = insert key (append (buffer_for s (lookup key s.buffers)) value ts) s.buffers;
  }

  abbrev pub series_or_empty : Option (RingBuffer V T) → Series V T
  series_or_empty none = empty_series
  series_or_empty (some buf) = series buf

  unfoldable pub store_get : HistoryStore V T → String → Series V T
  unfolding series
  store_get s key = series_or_empty (lookup key s.buffers)

  abbrev len_or_zero : Option (RingBuffer V T) → ℕ
  len_or_zero none = 0
  len_or_zero (some buf) = len buf

  unfoldable pub store_len : HistoryStore V T → String → ℕ
  store_len s key = len_or_zero (lookup key s.buffers)

  unfoldable pub delete : HistoryStore V T → String → HistoryStore V T
  delete s key = record s { buffers = erase key s.buffers }

  -- `none` is the panic at `snapshot.Timestamps[-1]`, for values that come with no times.
  unfoldable pub append_latest : HistoryStore V T → String → Series V T → Option (HistoryStore V T)
  unfolding store_append
  append_latest s key snapshot = elim snapshot.values [
    | [] ↦ some s
    | v ∷ vs ↦ elim snapshot.timestamps [
      | [] ↦ none
      | t ∷ ts ↦ some (store_append s key (last_or vs v) (last_or ts t))
    ]
  ]

  -- A store that is `nil` is `none`.
  unfoldable pub recent_peak_samples : Option (HistoryStore V T) → String → Series V T → List V
  unfolding store_get
  recent_peak_samples none key fetched = fetched.values
  recent_peak_samples (some store) key fetched = elim (store_get store key).values [
    | [] ↦ fetched.values
    | v ∷ vs ↦ v ∷ vs
  ]

-- The loop of `DeleteByPrefix` over the map.
unfoldable pub erase_prefix {ℓ} : {B : Type ℓ} → String → Dict B → Dict B
erase_prefix prefix [] = []
erase_prefix prefix ((key, b) ∷ m) =
    let rest = erase_prefix prefix m in if starts_with key prefix then rest else (key, b) ∷ rest

unfoldable pub delete_by_prefix : {V T : Type 0} → HistoryStore V T → String → HistoryStore V T
unfolding erase_prefix
delete_by_prefix s prefix = record s { buffers = erase_prefix prefix s.buffers }
