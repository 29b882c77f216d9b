-- ===== src/Onnx/Preprocess/Output.antt =====
-- What is read from an output tensor, and the column of a quantile level.
use neural_autoscaler.Base.{
  ℕ, zero, suc, ◌+◌, ◌-◌, ◌*◌, ◌≤◌, ◌<◌, ◌≡◌, refl, sym, ap, ap₂, ◌∙◌, ◌≢◌, inl, inr, true, Option,
  none, some, List, [], ◌∷◌, arith, ltb, min, get_elem?, replicate, Option-cases, if◌then◌else◌,
}
use native.Mathlib.Nat.{mul-le-mul_right}
use neural_autoscaler.Base.Float.{Float64, Float32, IsStrict}
use neural_autoscaler.Onnx.Preprocess.{read_steps, quantile_index, column, quantile_series}

module _ {S : Type 0} where
  get_elem?-replicate :
      (n j : ℕ) (z : S) → get_elem? (replicate n z) j ≡ (if ltb j n then some z else none)
  get_elem?-replicate zero j z = ground arith
  get_elem?-replicate (suc n) zero z = ground arith
  get_elem?-replicate (suc n) (suc j) z = get_elem?-replicate n j z ∙ ground arith

  beyond_mono : (xs : List S) (i j : ℕ) → i ≤ j → get_elem? xs i ≡ none → get_elem? xs j ≡ none
  beyond_mono [] i j h e = refl
  beyond_mono (x ∷ xs) zero j h e = cc
  beyond_mono (x ∷ xs) (suc i) zero h e = absurd (omega arith)
  beyond_mono (x ∷ xs) (suc i) (suc j) h e = beyond_mono xs i j (omega arith) e

-- The number at an offset, or 0 past the end.
abbrev pub read_at : {S F : Type 0} → F → (S → F) → Option S → F
read_at nought value none = nought
read_at nought value (some v) = value v

module _ {S F : Type 0} (nought : F) (offset : ℕ → ℕ) (value : S → F) where
  get_elem?-entry :
      (numbers : List S) (step k j : ℕ) (v : S) (rest : List F)
      → get_elem? numbers (offset step) ≡ some v
      → ((i : ℕ)
          → get_elem? rest i ≡ (
              if ltb i k
              then some (read_at nought value (get_elem? numbers (offset (step + 1 + i))))
              else none))
      → get_elem? (value v ∷ rest) j ≡ (
          if ltb j (suc k)
          then some (read_at nought value (get_elem? numbers (offset (step + j))))
          else none)
  get_elem?-entry numbers step k zero v rest e ih =
      ap (λ o. some (read_at nought value o)) (sym e)
      ∙ ap (λ i. some (read_at nought value (get_elem? numbers (offset i)))) {x = step}
          {y = step + 0} (omega arith)
      ∙ ap
          (λ b.
            if b then some (read_at nought value (get_elem? numbers (offset (step + 0)))) else none)
          {x = true} {y = ltb 0 (suc k)} (ground arith)
  get_elem?-entry numbers step k (suc j) v rest e ih =
      ih j
      ∙ ap
          (λ i.
            if ltb j k then some (read_at nought value (get_elem? numbers (offset i))) else none)
          {x = step + 1 + j} {y = step + suc j} (omega arith)
      ∙ ap
          (λ b.
            if b
            then some (read_at nought value (get_elem? numbers (offset (step + suc j))))
            else none)
          {x = ltb j k} {y = ltb (suc j) (suc k)} (ground arith)

  -- Breaking off at the end of the numbers is the same as reading 0 past it, if the offsets grow.
  pub get_elem?-read_steps :
      (numbers : List S) (step k j : ℕ)
      → ((a b : ℕ) → a ≤ b → offset a ≤ offset b)
      → get_elem? (read_steps nought offset value numbers step k) j ≡ (
          if ltb j k
          then some (read_at nought value (get_elem? numbers (offset (step + j))))
          else none)
  unfolding read_steps
  get_elem?-read_steps numbers step zero j grows = ground arith
  get_elem?-read_steps numbers step (suc k) j grows =
      elim (Option-cases (get_elem? numbers (offset step))) [
        | inl e ↦ rw e (
            get_elem?-replicate (suc k) j nought
            ∙ ap (λ o. if ltb j (suc k) then some (read_at nought value o) else none)
                (sym (
                  beyond_mono numbers (offset step) (offset (step + j))
                    (grows step (step + j) (omega arith)) e)))
        | inr (v, e) ↦ rw e (
            get_elem?-entry numbers step k j v (read_steps nought offset value numbers (step + 1) k)
              e (λ i. get_elem?-read_steps numbers (step + 1) k i grows))
      ]

module _ {F : Type 0} ⦃f : Float64 F⦄ where
  -- The column is one of the nine after the mean's.
  quantile_index_bounds : (level : F) → (1 ≤ quantile_index level) × (quantile_index level ≤ 9)
  unfolding quantile_index
  quantile_index_bounds level = ground arith

  -- A higher level is never read from a lower column.
  quantile_index_mono :
      (laws : IsStrict F) (a b : F) → f.le a b ≡ true → quantile_index a ≤ quantile_index b
  unfolding quantile_index
  quantile_index_mono laws a b h =
      let trans = laws.le_trans a b in
      ground (
        arith,
        trans (f.decimal 15 2) h,
        trans (f.decimal 25 2) h,
        trans (f.decimal 35 2) h,
        trans (f.decimal 45 2) h,
        trans (f.decimal 55 2) h,
        trans (f.decimal 65 2) h,
        trans (f.decimal 75 2) h,
        trans (f.decimal 85 2) h,
      )

column-eq : (idx n : ℕ) → column idx (suc n) ≡ min idx (suc n - 1)
column-eq idx n = ground arith

offset_mono : (idx n a b : ℕ) → a ≤ b → a * n + idx ≤ b * n + idx
offset_mono idx n a b h = omega (arith, mul-le-mul_right n h)

module _ {F S : Type 0} ⦃f : Float64 F⦄ ⦃s : Float32 F S⦄ where
  -- From a tensor of the shape batch × horizon × quantiles, the series of a level has as many entries
  -- as are asked for and the model gives. Entry `j` is row `j` of the first batch, in the level's
  -- column or the last one, or 0 where the tensor is too short.
  pub quantile_series_lem :
      (full : List S) (batch horizon_len quantile_count : ℕ) (level : F) (horizon j : ℕ)
      → full ≢ []
      → 0 < horizon_len
      → 0 < quantile_count
      → let idx = min (quantile_index level) (quantile_count - 1) in
        get_elem? (quantile_series full (batch ∷ horizon_len ∷ quantile_count ∷ []) level horizon) j
        ≡ (if ltb j (min horizon horizon_len)
            then some (read_at (f.decimal 0 0) s.widen (get_elem? full (j * quantile_count + idx)))
            else none)
  unfolding quantile_series
  quantile_series_lem [] batch n m level horizon j h hn hm = absurd (h refl)
  quantile_series_lem (x ∷ full) batch zero m level horizon j h hn hm = absurd (omega arith)
  quantile_series_lem (x ∷ full) batch (suc n) zero level horizon j h hn hm = absurd (omega arith)
  quantile_series_lem (x ∷ full) batch (suc n) (suc m) level horizon j h hn hm =
      let series : ℕ → Option F = λ i.
        if ltb j (min horizon (suc n))
        then some (read_at (f.decimal 0 0) s.widen (get_elem? (x ∷ full) i))
        else none in
      let idx = column (quantile_index level) (suc m) in
      get_elem?-read_steps (f.decimal 0 0) (λ step. step * suc m + idx) s.widen (x ∷ full) 0
        (min horizon (suc n)) j (offset_mono idx (suc m))
      ∙ ap series {x = (0 + j) * suc m + idx}
          {y = j * suc m + min (quantile_index level) (suc m - 1)}
          (ap₂ (λ k c. k * suc m + c) {x = 0 + j} {y = j} (omega arith)
            (column-eq (quantile_index level) m))
