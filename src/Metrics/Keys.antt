-- ===== src/Metrics/Keys.antt =====
-- `HistoryKey` and `HistoryPrefix` of internal/metrics/metrics_server.go: the keys of one autoscaler in
-- the history.
use Prim.Native.String.{◌++◌ as ◌<>◌}
use text.Mathlib.Text.{starts_with}
use text.Mathlib.TextPositions.{starts_with-append}
use neural_autoscaler.Base.{none, ◌≡◌, refl, ap, ◌∙◌, String, true}
use neural_autoscaler.Api.Types.{ResourceMetric}
use neural_autoscaler.Metrics.History.{
  HistoryStore, empty_series, series_or_empty, store_get, delete_by_prefix,
}
use neural_autoscaler.Metrics.History.Store.{lookup-erase_prefix}

unfoldable pub history_key : (namespace name : String) → ResourceMetric → String
history_key namespace name resource = (((namespace <> "/") <> name) <> "/") <> resource

unfoldable pub history_prefix : (namespace name : String) → String
history_prefix namespace name = ((namespace <> "/") <> name) <> "/"

history_key-starts :
    (namespace name : String) (resource : ResourceMetric)
    → starts_with (history_key namespace name resource) (history_prefix namespace name) ≡ true
unfolding history_key history_prefix
history_key-starts namespace name resource =
    starts_with-append (history_prefix namespace name) resource

module _ {V T : Type 0} (no_value : V) (no_time : T) where
  -- After `DeleteByPrefix` of an autoscaler's prefix, `Get` of each of its keys is empty.
  pub store_get-delete_by_prefix :
      (store : HistoryStore V T) (namespace name : String) (resource : ResourceMetric)
      → store_get no_value no_time
          (delete_by_prefix store (history_prefix namespace name))
          (history_key namespace name resource)
        ≡ empty_series
  unfolding store_get delete_by_prefix
  store_get-delete_by_prefix store namespace name resource =
      let prefix = history_prefix namespace name in
      let key = history_key namespace name resource in
      ap (series_or_empty no_value no_time) {y = none} (
        lookup-erase_prefix prefix key store.buffers
        ∙ rw (history_key-starts namespace name resource) refl)
