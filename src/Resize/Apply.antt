-- ===== src/Resize/Apply.antt =====
-- `Reconciler.Apply`, `listEligiblePods` and `resizePod` of internal/resize/actuator.go. The client of
-- Kubernetes is a parameter, of which nothing is assumed: what a `Get` of a pod answers in a world, and
-- the world and the answer after an update of a pod's `resize` subresource.
pub mod Laws
use neural_autoscaler.Base.{
  String, Bool, true, false, ◌||◌, Option, none, some, List, [], ◌∷◌, map, length, if◌then◌else◌,
}
use neural_autoscaler.Base.Int.{ℤ, pos}
use neural_autoscaler.Base.Dict.{Dict, lookup, insert}
use neural_autoscaler.Base.Float.{Float64}
use neural_autoscaler.Base.Result.{Result, ok, err, ◌>>=◌}
use neural_autoscaler.Api.Types.{ResizeSpec}
use neural_autoscaler.Api.Quantity.{Quantity}
use neural_autoscaler.Api.Resize.{ResizeError, validate_resize}
use neural_autoscaler.Forecast.Types as Forecast
use neural_autoscaler.Forecast.Types.{Response}
use neural_autoscaler.Resize.Peak.{
  QuantileSeries, default_recent_peak_window, recent_peak, effective_peak, forecast_peaks,
}
use neural_autoscaler.Resize.Actuator.{Pod, resize_in_progress, resize_request}

pub data Found (Q E : Type 0) : Type 0 where
  found : Pod Q → Found Q E
  not_found : Found Q E
  get_failed : E → Found Q E

pub record Client (Q W E : Type 0) : Type 0 where
  pub get : W → (namespace name : String) → Found Q E
  pub update_resize : W → Pod Q → W × Option E

pub data ApplyError (E : Type 0) : Type 0 where
  invalid_resize : ResizeError → ApplyError E
  get_pod : String → E → ApplyError E

module _ {Q W E : Type 0} (client : Client Q W E) where
  abbrev pub add_eligible :
      String
      → Found Q E
      → Result (ApplyError E) (List (Pod Q))
      → Result (ApplyError E) (List (Pod Q))
  add_eligible name not_found rest = rest
  add_eligible name (get_failed e) rest = err (get_pod name e)
  add_eligible name (found pod) rest =
      if pod.terminating || resize_in_progress pod then rest else (do pods ← rest; ok (pod ∷ pods))

  unfoldable pub list_eligible_pods :
      W → String → List String → Result (ApplyError E) (List (Pod Q))
  list_eligible_pods w namespace [] = ok []
  list_eligible_pods w namespace (name ∷ names) =
      add_eligible name (client.get w namespace name) (list_eligible_pods w namespace names)

  abbrev submit : W → Option (Pod Q) → W × Option E
  submit w none = (w, none)
  submit w (some pod) = client.update_resize w pod

-- `forecast.QuantileSeries` as `resize.QuantileSeries`.
abbrev pub copy_quantiles : {F : Type 0} → Forecast.QuantileSeries F → QuantileSeries F
copy_quantiles s = record { level = s.level; values = s.values }

module _ {F : Type 0} ⦃f : Float64 F⦄ where
  abbrev pub raised_peak : F → Option (List F) → F
  raised_peak peak none = peak
  raised_peak peak (some history) =
      let observed = recent_peak history default_recent_peak_window in
      let raised = effective_peak peak observed in if f.lt peak raised then raised else peak

  -- The loop over the forecasts.
  unfoldable pub peaks_from : Dict (Response F) → Dict (List F) → Dict F → Dict F
  peaks_from [] recent peaks = peaks
  peaks_from ((resource, resp) ∷ forecasts) recent peaks = peaks_from forecasts recent (
      insert resource
        (raised_peak (forecast_peaks resp.point (map copy_quantiles resp.quantiles))
          (lookup resource recent))
        peaks)

module _ {F Q W E : Type 0} ⦃f : Float64 F⦄ ⦃q : Quantity Q⦄ (client : Client Q W E) where
  -- The world after `resizePod`, and its error.
  unfoldable resize_pod : W → ResizeSpec → Dict F → ℤ → Pod Q → W × Option E
  resize_pod w spec peaks pod_count pod =
      submit client w (resize_request F spec peaks pod_count pod)

  -- The loop of `Apply`: an error is logged, and the next pod follows.
  unfoldable pub resize_pods : W → ResizeSpec → Dict F → ℤ → List (Pod Q) → W
  unfolding resize_pod
  resize_pods w spec peaks pod_count [] = w
  resize_pods w spec peaks pod_count (pod ∷ pods) =
      resize_pods (resize_pod w spec peaks pod_count pod).0 spec peaks pod_count pods

  abbrev pub apply_eligible :
      W → ResizeSpec → Dict F → Result (ApplyError E) (List (Pod Q)) → W × Option (ApplyError E)
  apply_eligible w spec peaks (err e) = (w, some e)
  apply_eligible w spec peaks (ok pods) = (resize_pods w spec peaks (pos (length pods)) pods, none)

  abbrev pub apply_named :
      W
      → ResizeSpec
      → Dict (Response F)
      → Dict (List F)
      → List String
      → String
      → W × Option (ApplyError E)
  apply_named w spec forecasts recent [] namespace = (w, none)
  apply_named w spec forecasts recent (name ∷ names) namespace =
      apply_eligible w spec (peaks_from forecasts recent [])
        (list_eligible_pods client w namespace (name ∷ names))

  abbrev pub apply_checked :
      Result ResizeError (Unit {0})
      → W
      → ResizeSpec
      → Dict (Response F)
      → Dict (List F)
      → List String
      → String
      → W × Option (ApplyError E)
  apply_checked (err e) w spec forecasts recent names namespace = (w, some (invalid_resize e))
  apply_checked (ok _) w spec forecasts recent names namespace =
      apply_named w spec forecasts recent names namespace

  unfoldable pub apply :
      W
      → Option ResizeSpec
      → Dict (Response F)
      → Dict (List F)
      → List String
      → String
      → W × Option (ApplyError E)
  apply w none forecasts recent names namespace = (w, none)
  apply w (some spec) forecasts recent names namespace =
      apply_checked (validate_resize Q (some spec)) w spec forecasts recent names namespace
