-- ===== src/Forecast/Validate.antt =====
-- internal/forecast/validate.go.
use neural_autoscaler.Base.{
  ℕ, ◌≡◌, refl, ◌≢◌, ◌↔◌, ◌⊎◌, inl, inr, true, false, ◌||◌, ◌&&◌, List, [], ◌∷◌, arith, ltb, eqb,
  length, All, ◌==◌, eq_iff, if◌then◌else◌,
}
use neural_autoscaler.Base.Int.{ℤ, pos, leb_ℤ, ◌≤ℤ◌}
use neural_autoscaler.Base.Text.{trim_space}
use neural_autoscaler.Base.Float.{Float64}
use neural_autoscaler.Base.Result.{Result, ok, ◌>>◌, fail_if, >>_iff, fail_if_iff}
use neural_autoscaler.Forecast.Types.{Request}

-- The messages that wrap `ErrInvalidRequest`.
pub data RequestError : Type 0 where
  no_series_id : RequestError
  no_values : RequestError
  horizon_not_positive : RequestError
  timestamps_mismatch : RequestError
  quantile_out_of_range : RequestError

module _ {F : Type 0} ⦃f : Float64 F⦄ where
  unfoldable validate_quantiles : List F → Result RequestError (Unit {0})
  validate_quantiles [] = ok tt
  validate_quantiles (q ∷ quantiles) = do
    fail_if (f.le q (f.decimal 0 0) || f.le (f.decimal 1 0) q) quantile_out_of_range
    validate_quantiles quantiles

module _ {F T : Type 0} ⦃f : Float64 F⦄ where
  unfoldable pub validate_request : Request F T → Result RequestError (Unit {0})
  unfolding validate_quantiles
  validate_request req = do
    fail_if (trim_space req.series_id == "") no_series_id
    fail_if (eqb (length req.values) 0) no_values
    fail_if (leb_ℤ req.horizon (pos 0)) horizon_not_positive
    fail_if
        (ltb 0 (length req.timestamps)
          && (if eqb (length req.timestamps) (length req.values) then false else true))
        timestamps_mismatch
    validate_quantiles req.quantiles

module _ {F : Type 0} ⦃f : Float64 F⦄ where
  -- Neither at most 0 nor at least 1.
  abbrev pub IsLevel : F → Type 0
  IsLevel q = (f.le q (f.decimal 0 0) ≡ false) × (f.le (f.decimal 1 0) q ≡ false)

  validate_quantiles_iff :
      (quantiles : List F) → (validate_quantiles quantiles ≡ ok tt) ↔ All IsLevel quantiles
  unfolding validate_quantiles
  validate_quantiles_iff [] = (λ h. tt, λ h. refl)
  validate_quantiles_iff (q ∷ quantiles) =
      let rest = validate_quantiles_iff quantiles in
      let here : (f.le q (f.decimal 0 0) || f.le (f.decimal 1 0) q) ≡ false ↔ IsLevel q =
        ground arith in
      (
        λ h. let c = (>>_iff _ _).0 h in (here.0 ((fail_if_iff _ _).0 c.0), rest.0 c.1),
        λ v. (>>_iff _ _).1 ((fail_if_iff _ _).1 (here.1 v.0), rest.1 v.1),
      )

values_iff : {F : Type 0} (values : List F) → (eqb (length values) 0 ≡ false) ↔ (values ≢ [])
values_iff [] = (λ h. cc, λ h. absurd (h refl))
values_iff (v ∷ values) = (λ h e. cc, λ h. ground arith)

horizon_iff : (h : ℤ) → (leb_ℤ h (pos 0) ≡ false) ↔ (pos 1 ≤ℤ h)
horizon_iff h = ground arith

timestamps_iff :
    {T : Type 0} (timestamps : List T) (n : ℕ)
    → ((ltb 0 (length timestamps) && (if eqb (length timestamps) n then false else true)) ≡ false)
      ↔ ((timestamps ≡ []) ⊎ (length timestamps ≡ n))
timestamps_iff [] n = (λ h. inl refl, λ h. ground arith)
timestamps_iff (t ∷ timestamps) n =
    (λ h. inr (ground arith), elim [ inl e ↦ absurd (ground arith) | inr e ↦ ground arith ])

module _ {F T : Type 0} ⦃f : Float64 F⦄ where
  -- `ValidateRequest` accepts a request exactly when its name is not blank, it has a value, its horizon
  -- is positive, it has no timestamps or one for each value, and each level is neither at most 0 nor
  -- at least 1.
  pub validate_request_iff :
      (req : Request F T)
      → (validate_request req ≡ ok tt) ↔ (
          (trim_space req.series_id ≢ "")
          × (req.values ≢ [])
          × (pos 1 ≤ℤ req.horizon)
          × ((req.timestamps ≡ []) ⊎ (length req.timestamps ≡ length req.values))
          × All IsLevel req.quantiles)
  unfolding validate_request
  validate_request_iff req =
      let quantiles = validate_quantiles_iff req.quantiles in
      let present = values_iff req.values in
      let horizon : (leb_ℤ req.horizon (pos 0) ≡ false) ↔ (pos 1 ≤ℤ req.horizon) =
        horizon_iff req.horizon in
      let times = timestamps_iff req.timestamps (length req.values) in
      let named : (trim_space req.series_id == "") ≡ false ↔ (trim_space req.series_id ≢ "") =
        ground (arith, eq_iff (trim_space req.series_id) "") in
      (
        λ h.
            let a = (>>_iff _ _).0 h in
            let b = (>>_iff _ _).0 a.1 in
            let c = (>>_iff _ _).0 b.1 in
            let d = (>>_iff _ _).0 c.1 in
            (
              named.0 ((fail_if_iff _ _).0 a.0),
              present.0 ((fail_if_iff _ _).0 b.0),
              horizon.0 ((fail_if_iff _ _).0 c.0),
              times.0 ((fail_if_iff _ _).0 d.0),
              quantiles.0 d.1,
            ),
        λ v. (>>_iff _ _).1 (
          (fail_if_iff _ _).1 (named.1 v.0),
          (>>_iff _ _).1 (
            (fail_if_iff _ _).1 (present.1 v.1),
            (>>_iff _ _).1 (
              (fail_if_iff _ _).1 (horizon.1 v.2),
              (>>_iff _ _).1 ((fail_if_iff _ _).1 (times.1 v.3), quantiles.1 v.4),
            ),
          ),
        ),
      )
