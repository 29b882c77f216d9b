-- ===== src/Resize/Peak.antt =====
-- internal/resize/peak.go and `ForecastPeaks` of target.go: the largest value of a series.
use neural_autoscaler.Base.{
  ℕ, zero, suc, ◌-◌, ◌<◌, leb, ◌≡◌, refl, sym, ap, subst, ◌∙◌, All, IsIn, All-map, ◌⊎◌, inl, inr,
  true, false, List, [], ◌∷◌, ◌++◌, arith, Bool-cases, last_n, drop-nil, if◌then◌else◌,
}
use neural_autoscaler.Base.Int.{ℤ, pos, negsuc, pos_part, leb_ℤ, ◌≤ℤ◌}
use neural_autoscaler.Base.Float.{Float64, IsStrict}

abbrev pub default_recent_peak_window : ℤ
default_recent_peak_window = pos 9

abbrev window_size : ℤ → ℕ
window_size window = pos_part (if leb_ℤ window (pos 0) then default_recent_peak_window else window)

-- The number of samples in a window.
pub data IsWindowSize : ℤ → ℕ → Type 0 where
  as_given : (n : ℕ) → 0 < n → IsWindowSize (pos n) n
  by_default : (window : ℤ) → window ≤ℤ pos 0 → IsWindowSize window 9

window_size-IsWindowSize : (window : ℤ) → IsWindowSize window (window_size window)
window_size-IsWindowSize (pos zero) = by_default (pos 0) (omega arith)
window_size-IsWindowSize (pos (suc n)) =
    let more : leb (suc n) 0 ≡ false = ground arith in rw more (as_given (suc n) (omega arith))
window_size-IsWindowSize (negsuc n) = by_default (negsuc n) (omega arith)

pub record QuantileSeries (F : Type 0) : Type 0 where
  pub level : F
  pub values : List F

module _ {F : Type 0} ⦃f : Float64 F⦄ where
  -- The constant 0.
  abbrev pub nought : F
  nought = f.decimal 0 0

  -- The loop `if v > peak { peak = v }`.
  unfoldable pub raise_over : F → List F → F
  raise_over peak [] = peak
  raise_over peak (v ∷ vs) = raise_over (if f.lt peak v then v else peak) vs

  -- `start`, cut at 0, is the difference of natural numbers.
  unfoldable pub recent_peak : List F → ℤ → F
  unfolding raise_over
  recent_peak [] window = nought
  recent_peak (v ∷ vs) window = raise_over nought (last_n (window_size window) (v ∷ vs))

  unfoldable pub effective_peak : (forecast observed : F) → F
  effective_peak forecast observed = if f.lt forecast observed then observed else forecast

  -- The outer loop over the quantile series.
  unfoldable pub raise_over_quantiles : F → List (QuantileSeries F) → F
  unfolding raise_over
  raise_over_quantiles peak [] = peak
  raise_over_quantiles peak (s ∷ series) = raise_over_quantiles (raise_over peak s.values) series

  unfoldable pub forecast_peaks : List F → List (QuantileSeries F) → F
  unfolding raise_over raise_over_quantiles
  forecast_peaks points quantiles = raise_over_quantiles (raise_over nought points) quantiles

  -- The values of the points and of all quantile series.
  abbrev all_values : List F → List (QuantileSeries F) → List F
  all_values points [] = points
  all_values points (s ∷ series) = all_values (points ++ s.values) series

  abbrev NotAbove : F → F → Type 0
  NotAbove peak v = f.lt peak v ≡ false

  raise_over-append :
      (peak : F) (xs ys : List F) → raise_over peak (xs ++ ys) ≡ raise_over (raise_over peak xs) ys
  unfolding raise_over
  raise_over-append peak [] ys = refl
  raise_over-append peak (x ∷ xs) ys = raise_over-append (if f.lt peak x then x else peak) xs ys

  raise_over-nil : (peak : F) → raise_over peak [] ≡ peak
  unfolding raise_over
  raise_over-nil peak = refl

  raise_over-up :
      (peak v : F) (vs : List F) → f.lt peak v ≡ true → raise_over peak (v ∷ vs) ≡ raise_over v vs
  unfolding raise_over
  raise_over-up peak v vs h = ap (λ b. raise_over (if b then v else peak) vs) h

  raise_over-same :
      (peak v : F) (vs : List F)
      → f.lt peak v ≡ false
      → raise_over peak (v ∷ vs) ≡ raise_over peak vs
  unfolding raise_over
  raise_over-same peak v vs h = ap (λ b. raise_over (if b then v else peak) vs) h

  recent_peak-eq :
      (history : List F) (window : ℤ)
      → recent_peak history window ≡ raise_over nought (last_n (window_size window) history)
  unfolding recent_peak
  recent_peak-eq [] window = ap (raise_over nought) (sym (drop-nil (0 - window_size window)))
  recent_peak-eq (v ∷ vs) window = refl

  raise_over_quantiles-eq :
      (peak : F) (points : List F) (series : List (QuantileSeries F))
      → raise_over_quantiles (raise_over peak points) series
        ≡ raise_over peak (all_values points series)
  unfolding raise_over_quantiles
  raise_over_quantiles-eq peak points [] = refl
  raise_over_quantiles-eq peak points (s ∷ series) =
      ap (λ p. raise_over_quantiles p series) (sym (raise_over-append peak points s.values))
      ∙ raise_over_quantiles-eq peak (points ++ s.values) series

  forecast_peaks-eq :
      (points : List F) (quantiles : List (QuantileSeries F))
      → forecast_peaks points quantiles ≡ raise_over nought (all_values points quantiles)
  unfolding forecast_peaks
  forecast_peaks-eq points quantiles = raise_over_quantiles-eq nought points quantiles

  -- The start of the loop, or a later value that lies above it.
  abbrev Raised : F → F → List F → Type 0
  Raised start peak xs = (peak ≡ start) ⊎ (IsIn peak xs × (f.lt start peak ≡ true))

  Raised-value :
      (start peak : F) (xs : List F) → Raised start peak xs → (peak ≡ start) ⊎ IsIn peak xs
  Raised-value start peak xs (inl e) = inl e
  Raised-value start peak xs (inr (m, up)) = inr m

  module _ (laws : IsStrict F) where
    open laws use {lt_irrefl, lt_trans, lt_split, le_self_of_lt, le_self_decimal}

    not-above_of_lt : (a b : F) → f.lt a b ≡ true → NotAbove b a
    not-above_of_lt a b h = ground (arith, lt_trans a b a, lt_irrefl a)

    NotAbove-start : (start peak : F) (xs : List F) → Raised start peak xs → NotAbove peak start
    NotAbove-start start peak xs (inl e) = rw e (lt_irrefl start)
    NotAbove-start start peak xs (inr (m, up)) = not-above_of_lt start peak up

    Raised-over :
        (start v peak : F) (vs : List F)
        → f.lt start v ≡ true
        → Raised v peak vs
        → Raised start peak (v ∷ vs)
    Raised-over start v peak vs up (inl e) = inr (inl e, rw e up)
    Raised-over start v peak vs up (inr (m, more)) = inr (inr m, lt_trans start v peak up more)

    Raised-same :
        (start v peak : F) (vs : List F)
        → f.lt start v ≡ false
        → Raised start peak vs
        → Raised start peak (v ∷ vs) × NotAbove peak v
    Raised-same start v peak vs same (inl e) = (inl e, rw e same)
    Raised-same start v peak vs same (inr (m, up)) =
        (inr (inr m, up), ground (arith, lt_trans start peak v))

    raise_over_lem :
        (start : F) (xs : List F)
        → let peak = raise_over start xs in Raised start peak xs × All (NotAbove peak) xs
    raise_over_lem start [] = rw raise_over-nil (inl refl, tt)
    raise_over_lem start (v ∷ vs) = elim (Bool-cases (f.lt start v)) [
      | inl up ↦
          let (raised, rest) = raise_over_lem v vs in
          subst (λ p. Raised start p (v ∷ vs) × All (NotAbove p) (v ∷ vs))
            (sym (raise_over-up start v vs up))
            (
              Raised-over start v _ vs up raised,
              (NotAbove-start v (raise_over v vs) vs raised, rest),
            )
      | inr same ↦
          let (raised, rest) = raise_over_lem start vs in
          let (more, first) = Raised-same start v (raise_over start vs) vs same raised in
          subst (λ p. Raised start p (v ∷ vs) × All (NotAbove p) (v ∷ vs))
            (sym (raise_over-same start v vs same)) (more, (first, rest))
    ]

    -- A value with which a loop from 0 ends is a number.
    Raised-number : (peak : F) (xs : List F) → Raised nought peak xs → f.le peak peak ≡ true
    Raised-number peak xs (inl e) = rw e (le_self_decimal 0 0)
    Raised-number peak xs (inr (m, up)) = (le_self_of_lt nought peak up).1

    -- `RecentPeak` is 0 or a sample of the window, and neither 0 nor a sample of the window is above
    -- it. The window is the last `window` samples, or the last nine if that number is not positive.
    pub recent_peak_lem :
        (history : List F) (window : ℤ)
        → (n : ℕ) × IsWindowSize window n
          × let recent = last_n n history in
            let peak = recent_peak history window in
            ((peak ≡ nought) ⊎ IsIn peak recent)
            × (f.lt peak nought ≡ false)
            × All (λ v. f.lt peak v ≡ false) recent
    recent_peak_lem history window =
        let recent = last_n (window_size window) history in
        let (raised, rest) = raise_over_lem nought recent in
        (
          window_size window,
          window_size-IsWindowSize window,
          rw (recent_peak-eq history window)
              (Raised-value nought _ recent raised, NotAbove-start nought _ recent raised, rest),
        )

    effective_peak-NotAbove :
        (forecast observed : F) (xs ys : List F)
        → All (NotAbove forecast) xs
        → All (NotAbove observed) ys
        → f.le observed observed ≡ true
        → All (NotAbove (effective_peak forecast observed)) xs
          × All (NotAbove (effective_peak forecast observed)) ys
    unfolding effective_peak
    effective_peak-NotAbove fc obs xs ys hx hy number = elim (Bool-cases (f.lt fc obs)) [
      | inl up ↦ rw up (
        All-map (NotAbove fc) (NotAbove obs) xs (λ v h. ground (arith, lt_trans fc obs v)) hx,
        hy,
      )
      | inr down ↦ rw down (
        hx,
        All-map (NotAbove obs) (NotAbove fc) ys (λ v h. ground (arith, lt_split fc obs v)) hy,
      )
    ]

    -- The peak of a resource that `Reconciler.Apply` works with is below no point of the forecast, no
    -- value of a quantile series, and none of the last nine samples.
    pub effective_peak_covers :
        (points : List F) (quantiles : List (QuantileSeries F)) (history : List F)
        → let peak =
            effective_peak
              (forecast_peaks points quantiles)
              (recent_peak history default_recent_peak_window) in
          All (λ v. f.lt peak v ≡ false) (all_values points quantiles)
          × All (λ v. f.lt peak v ≡ false) (last_n 9 history)
    effective_peak_covers points quantiles history =
        let xs = all_values points quantiles in
        let ys = last_n 9 history in
        rw (forecast_peaks-eq points quantiles, recent_peak-eq history default_recent_peak_window)
          (effective_peak-NotAbove (raise_over nought xs) (raise_over nought ys) xs ys
            (raise_over_lem nought xs).1 (raise_over_lem nought ys).1
            (Raised-number _ ys (raise_over_lem nought ys).0))
