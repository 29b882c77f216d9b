-- ===== src/Resize/Apply/Laws.antt =====
-- What `Apply` asks of the cluster, and when it asks for nothing.
use neural_autoscaler.Base.{
  ◌≡◌, refl, ap, ◌∙◌, subst, ◌≢◌, ◌↔◌, inl, inr, String, ◌||◌, ◌==◌, eq_iff, Option, none, some,
  List, [], ◌∷◌, map, arith, Bool-cases, Option-cases, length, if◌then◌else◌,
}
use neural_autoscaler.Base.Int.{ℤ, pos}
use neural_autoscaler.Base.Dict.{Dict, lookup, insert, NodupKeys, lookup-insert}
use neural_autoscaler.Base.Float.{Float64}
use neural_autoscaler.Base.Result.{Result, ok, err, ◌>>=◌}
use neural_autoscaler.Api.Types.{ResizeSpec}
use neural_autoscaler.Api.Quantity.{Quantity}
use neural_autoscaler.Api.Resize.{ResizeError, validate_resize}
use neural_autoscaler.Forecast.Types.{Response}
use neural_autoscaler.Resize.Peak.{
  default_recent_peak_window, recent_peak, effective_peak, forecast_peaks,
}
use neural_autoscaler.Resize.Actuator.{Pod, resize_in_progress, resize_request}
use neural_autoscaler.Resize.Apply.{
  Found, found, not_found, get_failed, Client, ApplyError, add_eligible, list_eligible_pods,
  copy_quantiles, raised_peak, peaks_from, resize_pods, apply_eligible, apply_named, apply_checked,
  apply,
}

module _ {Q W E : Type 0} (client : Client Q W E) where
  -- The pods that are there, are not being deleted and have no resize in progress, in the order of
  -- their names.
  abbrev pub eligible : List (Found Q E) → List (Pod Q)
  eligible [] = []
  eligible (found pod ∷ answers) =
      let rest = eligible answers in
      if pod.terminating || resize_in_progress pod then rest else pod ∷ rest
  eligible (_ ∷ answers) = eligible answers

  -- No `Get` failed but for a pod that is not there.
  abbrev NoFailure : List (Found Q E) → Type 0
  NoFailure [] = Unit
  NoFailure (get_failed e ∷ answers) = ⊥
  NoFailure (_ ∷ answers) = NoFailure answers

  cons_iff :
      (pod : Pod Q) (rest : Result (ApplyError E) (List (Pod Q))) (answers : List (Found Q E))
      → ((pods : List (Pod Q)) → (rest ≡ ok pods) ↔ (NoFailure answers × (eligible answers ≡ pods)))
      → (pods : List (Pod Q))
      → ((do ps ← rest; ok (pod ∷ ps)) ≡ ok pods)
        ↔ (NoFailure answers × (pod ∷ eligible answers ≡ pods))
  cons_iff pod (ok ps) answers ih pods =
      let same = (ih ps).0 refl in
      (λ h. (same.0, ground (arith, same.1)), λ h. ground (arith, same.1, h.1))
  cons_iff pod (err e) answers ih pods =
      (λ h. cc, λ h. let bad = (ih (eligible answers)).1 (h.0, refl) in cc)

  add_eligible_iff :
      (name : String) (a : Found Q E) (rest : Result (ApplyError E) (List (Pod Q)))
      (answers : List (Found Q E))
      → ((pods : List (Pod Q)) → (rest ≡ ok pods) ↔ (NoFailure answers × (eligible answers ≡ pods)))
      → (pods : List (Pod Q))
      → (add_eligible client name a rest ≡ ok pods)
        ↔ (NoFailure (a ∷ answers) × (eligible (a ∷ answers) ≡ pods))
  add_eligible_iff name not_found rest answers ih pods = ih pods
  add_eligible_iff name (get_failed e) rest answers ih pods = (λ h. cc, λ h. absurd h.0)
  add_eligible_iff name (found pod) rest answers ih pods =
      elim (Bool-cases (pod.terminating || resize_in_progress pod)) [
        | inl skip ↦ rw skip (ih pods)
        | inr keep ↦ rw keep (cons_iff pod rest answers ih pods)
      ]

  pub list_eligible_pods_iff :
      (w : W) (namespace : String) (names : List String) (pods : List (Pod Q))
      → let answers = map (client.get w namespace) names in
        (list_eligible_pods client w namespace names ≡ ok pods)
        ↔ (NoFailure answers × (eligible answers ≡ pods))
  unfolding list_eligible_pods
  list_eligible_pods_iff w namespace [] pods = ground arith
  list_eligible_pods_iff w namespace (name ∷ names) pods =
      add_eligible_iff name (client.get w namespace name)
        (list_eligible_pods client w namespace names) (map (client.get w namespace) names)
        (list_eligible_pods_iff w namespace names) pods

  -- The world after the updates, whatever each of them answers.
  abbrev pub after_updates : W → List (Pod Q) → W
  after_updates w [] = w
  after_updates w (pod ∷ pods) = after_updates (client.update_resize w pod).0 pods

abbrev pub present {ℓ} : {A : Type ℓ} → List (Option A) → List A
present [] = []
present (none ∷ os) = present os
present (some a ∷ os) = a ∷ present os

module _ {F Q W E : Type 0} ⦃f : Float64 F⦄ ⦃q : Quantity Q⦄ (client : Client Q W E) where
  resize_pods-eq :
      (w : W) (spec : ResizeSpec) (peaks : Dict F) (n : ℤ) (pods : List (Pod Q))
      → resize_pods client w spec peaks n pods
        ≡ after_updates client w (present (map (resize_request F spec peaks n) pods))
  unfolding resize_pods
  resize_pods-eq w spec peaks n [] = refl
  resize_pods-eq w spec peaks n (pod ∷ pods) =
      elim (Option-cases (resize_request F spec peaks n pod)) [
        | inl e ↦ rw e (resize_pods-eq w spec peaks n pods)
        | inr (new, e) ↦ rw e (resize_pods-eq (client.update_resize w new).0 spec peaks n pods)
      ]

  apply_named-eq :
      (w : W) (spec : ResizeSpec) (forecasts : Dict (Response F)) (recent : Dict (List F))
      (names : List String) (namespace : String)
      → let answers = map (client.get w namespace) names in
        let pods = eligible client answers in
        NoFailure client answers
        → apply_named client w spec forecasts recent names namespace ≡ (
          after_updates client w (
              present (
                map
                  (resize_request F spec (peaks_from forecasts recent []) (pos (length pods)))
                  pods)),
          none,
        )
  apply_named-eq w spec forecasts recent [] namespace answered = refl
  apply_named-eq w spec forecasts recent (name ∷ names) namespace answered =
      let pods = eligible client (map (client.get w namespace) (name ∷ names)) in
      let listed =
        (list_eligible_pods_iff client w namespace (name ∷ names) pods).1 (answered, refl) in
      let peaks = peaks_from forecasts recent [] in
      rw listed (ap (λ v. (v, none)) (resize_pods-eq w spec peaks (pos (length pods)) pods))

  apply_eligible-error :
      (w : W) (spec : ResizeSpec) (peaks : Dict F) (pods : Result (ApplyError E) (List (Pod Q)))
      → let (w', e) = apply_eligible client w spec peaks pods in e ≢ none → w' ≡ w
  apply_eligible-error w spec peaks (ok pods) h = absurd (h refl)
  apply_eligible-error w spec peaks (err e) h = refl

  apply_named-error :
      (w : W) (spec : ResizeSpec) (forecasts : Dict (Response F)) (recent : Dict (List F))
      (names : List String) (namespace : String)
      → let (w', e) = apply_named client w spec forecasts recent names namespace in
        e ≢ none → w' ≡ w
  apply_named-error w spec forecasts recent [] namespace h = refl
  apply_named-error w spec forecasts recent (name ∷ names) namespace h =
      apply_eligible-error w spec (peaks_from forecasts recent [])
        (list_eligible_pods client w namespace (name ∷ names)) h

  apply_checked-error :
      (checked : Result ResizeError (Unit {0})) (w : W) (spec : ResizeSpec)
      (forecasts : Dict (Response F)) (recent : Dict (List F)) (names : List String)
      (namespace : String)
      → let (w', e) = apply_checked client checked w spec forecasts recent names namespace in
        e ≢ none → w' ≡ w
  apply_checked-error (ok _) w spec forecasts recent names namespace h =
      apply_named-error w spec forecasts recent names namespace h
  apply_checked-error (err e) w spec forecasts recent names namespace h = refl

  -- With a valid configuration, and no `Get` failing but for a pod that is not there, `Apply` ends without
  -- an error, in the world after one update for each eligible pod for which there is a request, in order.
  -- The share of each pod is counted over all eligible pods, and no answer of an update stops the others.
  pub apply_updates :
      (w : W) (spec : ResizeSpec) (forecasts : Dict (Response F)) (recent : Dict (List F))
      (names : List String) (namespace : String)
      → let answers = map (client.get w namespace) names in
        let pods = eligible client answers in
        validate_resize Q (some spec) ≡ ok tt
        → NoFailure client answers
        → apply client w (some spec) forecasts recent names namespace ≡ (
          after_updates client w (
              present (
                map
                  (resize_request F spec (peaks_from forecasts recent []) (pos (length pods)))
                  pods)),
          none,
        )
  unfolding apply
  apply_updates w spec forecasts recent names namespace valid answered =
      rw valid (apply_named-eq w spec forecasts recent names namespace answered)

  -- If `Apply` returns an error, the world is as before: no pod was updated.
  pub apply-error :
      (w : W) (resize : Option ResizeSpec) (forecasts : Dict (Response F)) (recent : Dict (List F))
      (names : List String) (namespace : String)
      → let (w', e) = apply client w resize forecasts recent names namespace in e ≢ none → w' ≡ w
  unfolding apply
  apply-error w none forecasts recent names namespace h = refl
  apply-error w (some spec) forecasts recent names namespace h =
      apply_checked-error (validate_resize Q (some spec)) w spec forecasts recent names namespace h

module _ {F : Type 0} ⦃f : Float64 F⦄ where
  -- What `Apply` plans for: the peak of the forecast, or the larger of that and the recent peak of the
  -- samples where there are any.
  abbrev planned_peak : Response F → Option (List F) → F
  planned_peak resp none = forecast_peaks resp.point (map copy_quantiles resp.quantiles)
  planned_peak resp (some history) =
      effective_peak (forecast_peaks resp.point (map copy_quantiles resp.quantiles))
        (recent_peak history default_recent_peak_window)

  abbrev pub planned_peaks : Option (Response F) → Option (List F) → Option F → Option F
  planned_peaks none history before = before
  planned_peaks (some resp) history before = some (planned_peak resp history)

  raised_peak-eq :
      (resp : Response F) (history : Option (List F))
      → raised_peak (forecast_peaks resp.point (map copy_quantiles resp.quantiles)) history
        ≡ planned_peak resp history
  unfolding effective_peak
  raised_peak-eq resp none = refl
  raised_peak-eq resp (some history) = ground arith

  lookup-peaks_from :
      (resource : String) (forecasts : Dict (Response F)) (recent : Dict (List F)) (peaks : Dict F)
      → NodupKeys forecasts
      → lookup resource (peaks_from forecasts recent peaks)
        ≡ planned_peaks (lookup resource forecasts) (lookup resource recent) (lookup resource peaks)
  unfolding peaks_from lookup
  lookup-peaks_from resource [] recent peaks u = refl
  lookup-peaks_from resource ((k, resp) ∷ forecasts) recent peaks (fresh, u) =
      let peak =
        raised_peak (forecast_peaks resp.point (map copy_quantiles resp.quantiles))
          (lookup k recent) in
      let ih = lookup-peaks_from resource forecasts recent (insert k peak peaks) u in
      let same = raised_peak-eq resp (lookup k recent) in
      elim (Bool-cases (k == resource)) [
        | inl e ↦
            let key = (eq_iff k resource).0 e in
            let gone = subst (λ x. lookup x forecasts ≡ none) key fresh in
            rw e (
              ih
              ∙ rw (gone, lookup-insert resource k peak peaks, e)
                  (ap some (same ∙ ap (λ x. planned_peak resp (lookup x recent)) key)))
        | inr e ↦ rw e (ih ∙ rw (lookup-insert resource k peak peaks, e) refl)
      ]

  -- The peak of a resource is planned from its own forecast and its own samples only, whatever the
  -- order of the forecasts, and a resource without a forecast has none.
  pub peaks_from_lem :
      (resource : String) (forecasts : Dict (Response F)) (recent : Dict (List F))
      → NodupKeys forecasts
      → lookup resource (peaks_from forecasts recent [])
        ≡ planned_peaks (lookup resource forecasts) (lookup resource recent) none
  unfolding lookup
  peaks_from_lem resource forecasts recent u = lookup-peaks_from resource forecasts recent [] u
