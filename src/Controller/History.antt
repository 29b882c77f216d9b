-- ===== src/Controller/History.antt =====
-- `accumulateHistory`, `appendHistorySample` and `evictHistory`: what a reconciliation does to the
-- history. A history that is `nil` is `none`, and so is a panic, one level above.
use neural_autoscaler.Base.{String, Option, none, some, List, [], ◌∷◌}
use neural_autoscaler.Metrics.History.{
  Series, HistoryStore, append_latest, store_get, delete_by_prefix,
}
use neural_autoscaler.Metrics.Keys.{history_prefix}

infixl 5 ◌>>=◌
abbrev pub ◌>>=◌ {ℓ κ} : {A : Type ℓ} {B : Type κ} → Option A → (A → Option B) → Option B
none >>= next = none
some a >>= next = next a

module _ {V T : Type 0} (no_value : V) (no_time : T) where
  -- The store after `AppendLatest`, and the series that `Get` returns then.
  abbrev appended_series :
      String → Option (HistoryStore V T) → Option (Option (HistoryStore V T) × Series V T)
  appended_series key none = none
  appended_series key (some store) = some (some store, store_get no_value no_time store key)

  abbrev accumulate_values :
      Option (HistoryStore V T)
      → String
      → Series V T
      → List V
      → Option (Option (HistoryStore V T) × Series V T)
  accumulate_values none key snapshot values = some (none, snapshot)
  accumulate_values (some store) key snapshot [] = some (some store, snapshot)
  accumulate_values (some store) key snapshot (v ∷ values) =
      appended_series key (append_latest no_value no_time store key snapshot)

  unfoldable pub accumulate_history :
      Option (HistoryStore V T)
      → String
      → Series V T
      → Option (Option (HistoryStore V T) × Series V T)
  accumulate_history history key snapshot = accumulate_values history key snapshot snapshot.values

  abbrev still_there : Option (HistoryStore V T) → Option (Option (HistoryStore V T))
  still_there none = none
  still_there (some store) = some (some store)

  unfoldable pub append_history_sample :
      Option (HistoryStore V T) → String → Series V T → Option (Option (HistoryStore V T))
  append_history_sample none key snapshot = some none
  append_history_sample (some store) key snapshot =
      still_there (append_latest no_value no_time store key snapshot)

unfoldable pub evict_history :
    {V T : Type 0}
    → Option (HistoryStore V T)
    → (namespace name : String) → Option (HistoryStore V T)
evict_history none namespace name = none
evict_history (some store) namespace name =
    some (delete_by_prefix store (history_prefix namespace name))
