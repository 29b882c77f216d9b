-- ===== src/Onnx/Chronos/Laws.antt =====
-- What Chronos-2 is given, and which of its rows is read.
use neural_autoscaler.Base.{
  ℕ, suc, ◌+◌, ◌-◌, ◌*◌, ◌≤◌, ◌≡◌, refl, sym, ap, ◌∙◌, ◌⊎◌, inl, inr, true, false, ◌&&◌, none, some,
  List, [], ◌∷◌, ◌++◌, map, append_assoc, arith, ltb, min, length, get_elem?, set, last_n,
  replicate, All, Bool-cases, length-append, length-replicate, length-last_n, if◌then◌else◌,
}
use neural_autoscaler.Base.Int.{pos}
use neural_autoscaler.Base.Float.{Float64, Float32, IsStrict}
use neural_autoscaler.Onnx.Preprocess.Rows.{replicate_add}
use neural_autoscaler.Onnx.Preprocess.Output.{read_at, get_elem?-read_steps}
use neural_autoscaler.Onnx.Chronos.{
  chronos_context_len, chronos_horizon_len, chronos_quantile_count, Hyperbolic, write_from,
  chronos_quantile_levels, median_abs_scale, nonzero_scale, nearest_from, chronos_quantile_index,
  prepare_chronos_inputs, chronos_quantile_horizon,
}

module _ {A : Type 0} where
  set-append :
      (before after : List A) (x v : A)
      → set (before ++ (x ∷ after)) (length before) v ≡ before ++ (v ∷ after)
  set-append [] after x v = refl
  set-append (b ∷ before) after x v = ap (λ l. b ∷ l) (set-append before after x v)

  -- Writing into zeros: what stands before stays, and the values fill the zeros.
  write_from-eq :
      (before : List A) (z : A) (vs : List A) (at : ℕ)
      → at ≡ length before
      → write_from (before ++ replicate (length vs) z) at vs ≡ before ++ vs
  unfolding write_from
  write_from-eq before z [] at e = refl
  write_from-eq before z (v ∷ vs) at e =
      let rest = replicate (length vs) z in
      ap (λ i. write_from (set (before ++ (z ∷ rest)) i v) (at + 1) vs) e
      ∙ ap (λ out. write_from out (at + 1) vs)
          (set-append before rest z v ∙ sym (append_assoc before (v ∷ []) rest))
      ∙ write_from-eq (before ++ (v ∷ [])) z vs (at + 1)
          (omega (arith, e, length-append before (v ∷ [])))
      ∙ append_assoc before (v ∷ []) vs

  padded-eq :
      (n m : ℕ) (z : A) (vs : List A)
      → m ≡ length vs
      → m ≤ n
      → write_from (replicate n z) (n - m) vs ≡ replicate (n - m) z ++ vs
  padded-eq n m z vs e h =
      ap (λ out. write_from out (n - m) vs)
        (ap (λ k. replicate k z) {x = n} {y = (n - m) + length vs} (omega arith)
          ∙ replicate_add (n - m) (length vs) z)
      ∙ write_from-eq (replicate (n - m) z) z vs (n - m) (sym (length-replicate (n - m) z))

  length-padded :
      (n m : ℕ) (z : A) (vs : List A)
      → m ≡ length vs
      → m ≤ n
      → length (replicate (n - m) z ++ vs) ≡ n
  length-padded n m z vs e h =
      omega (arith, length-append (replicate (n - m) z) vs, length-replicate (n - m) z)

  map-const : {B : Type 0} (xs : List B) (a : A) → map (λ x. a) xs ≡ replicate (length xs) a
  map-const [] a = refl
  map-const (x ∷ xs) a = ap (λ l. a ∷ l) (map-const xs a)

  length-map : {B : Type 0} (g : B → A) (xs : List B) → length (map g xs) ≡ length xs
  length-map g [] = refl
  length-map g (x ∷ xs) = ap suc (length-map g xs)

module _ {F S : Type 0} ⦃f : Float64 F⦄ ⦃s : Float32 F S⦄ (math : Hyperbolic F) where
  -- The context is padded with zeros on the left to its fixed length, the scaled samples stand at its
  -- end, and the mask has a one exactly where a sample stands.
  pub prepare_chronos_inputs_lem :
      (values : List F)
      → let tail = last_n chronos_context_len values in
        let inputs = prepare_chronos_inputs {S = S} math values in
        let padding = replicate (chronos_context_len - length tail) s.zero32 in
        (inputs.context ≡ padding ++ map (λ v. s.narrow (math.asinh (f.div v inputs.scale))) tail)
        × (inputs.attention_mask ≡ padding ++ replicate (length tail) s.one32)
        × (length inputs.context ≡ chronos_context_len)
        × (length inputs.attention_mask ≡ chronos_context_len)
  unfolding prepare_chronos_inputs
  prepare_chronos_inputs_lem values =
      let n = chronos_context_len in
      let tail = last_n n values in
      let fits : length tail ≤ n = omega (arith, length-last_n n values) in
      let scale = nonzero_scale (median_abs_scale tail) in
      let scaled = map (λ v. s.narrow (math.asinh (f.div v scale))) tail in
      let context = padded-eq n (length tail) s.zero32 scaled (sym (length-map _ tail)) fits in
      let ones = map (λ v. s.one32) tail in
      let mask = padded-eq n (length tail) s.zero32 ones (sym (length-map _ tail)) fits in
      (
        context,
        mask ∙ ap (λ l. replicate (n - length tail) s.zero32 ++ l) (map-const tail s.one32),
        ap length context
            ∙ length-padded n (length tail) s.zero32 scaled (sym (length-map _ tail)) fits,
        ap length mask ∙ length-padded n (length tail) s.zero32 ones (sym (length-map _ tail)) fits,
      )

  -- A row of the output within its horizon: entry `j` is the number at that place, unscaled, or 0 where
  -- the output is too short. For a quantile that the model does not have, or no horizon, it is empty.
  chronos_quantile_horizon_lem :
      (preds : List S) (idx horizon : ℕ) (scale : F) (j : ℕ)
      → get_elem? (chronos_quantile_horizon math preds (pos idx) scale (pos horizon)) j ≡ (
          if ltb idx chronos_quantile_count && ltb j (min horizon chronos_horizon_len)
          then some (
              read_at
                (f.decimal 0 0)
                (λ v. f.mul (math.sinh (s.widen v)) scale)
                (get_elem? preds (idx * chronos_horizon_len + j)))
          else none)
  unfolding chronos_quantile_horizon
  chronos_quantile_horizon_lem preds idx horizon scale j =
      let value : S → F = λ v. f.mul (math.sinh (s.widen v)) scale in
      let offset : ℕ → ℕ = λ step. idx * chronos_horizon_len + step in
      let k = min horizon chronos_horizon_len in
      let read =
        get_elem?-read_steps (f.decimal 0 0) offset value preds 0 k j (λ a b h. omega (arith, h)) in
      let here : idx * chronos_horizon_len + (0 + j) ≡ idx * chronos_horizon_len + j =
        omega arith in
      let whole =
        read
        ∙ ap
            (λ i.
              if ltb j k then some (read_at (f.decimal 0 0) value (get_elem? preds i)) else none)
            here in
      ground (arith, whole)

module _ {F : Type 0} ⦃f : Float64 F⦄ where
  abbrev pub distance : F → F → F
  distance level q = f.abs (f.sub q level)

  -- How the search ends that starts with a distance: no level is nearer, or level `k` is, and no level
  -- is nearer than that.
  abbrev NearestBelow : F → F → List F → ℕ → F → Type 0
  NearestBelow level bound levels k q =
      (get_elem? levels k ≡ some q)
      × (f.lt (distance level q) bound ≡ true)
      × All (λ p. f.lt (distance level p) (distance level q) ≡ false) levels

  abbrev Searched : F → ℕ → F → ℕ → List F → ℕ → Type 0
  Searched level best_idx bound i levels r =
      ((r ≡ best_idx) × All (λ p. f.lt (distance level p) bound ≡ false) levels)
      ⊎ ((k : ℕ) × (q : F) × (r ≡ i + k) × NearestBelow level bound levels k q)

  module _ (laws : IsStrict F) where
    Searched-nearer :
        (level : F) (best_idx : ℕ) (bound : F) (i : ℕ) (q : F) (levels : List F) (r : ℕ)
        → f.lt (distance level q) bound ≡ true
        → Searched level i (distance level q) (i + 1) levels r
        → Searched level best_idx bound i (q ∷ levels) r
    Searched-nearer level best_idx bound i q levels r e (inl (same, rest)) =
        inr (0, q, omega arith, (refl, e, (laws.lt_irrefl (distance level q), rest)))
    Searched-nearer level best_idx bound i q levels r e (inr (k, p, at, (here, near, rest))) =
        let d = distance level q in
        let c = distance level p in
        inr (
          suc k,
          p,
          omega arith,
          (
            here,
            laws.lt_trans c d bound near e,
            (ground (arith, laws.lt_trans c d c, laws.lt_irrefl c), rest),
          ),
        )

    Searched-same :
        (level : F) (best_idx : ℕ) (bound : F) (i : ℕ) (q : F) (levels : List F) (r : ℕ)
        → f.lt (distance level q) bound ≡ false
        → Searched level best_idx bound (i + 1) levels r
        → Searched level best_idx bound i (q ∷ levels) r
    Searched-same level best_idx bound i q levels r e (inl (same, rest)) = inl (same, (e, rest))
    Searched-same level best_idx bound i q levels r e (inr (k, p, at, (here, near, rest))) =
        let d = distance level q in
        let c = distance level p in
        inr (suc k, p, omega arith, (here, near, (ground (arith, laws.lt_trans d c bound), rest)))

    nearest_from_lem :
        (level : F) (best_idx : ℕ) (bound : F) (i : ℕ) (levels : List F)
        → Searched level best_idx bound i levels (nearest_from level best_idx bound i levels)
    unfolding nearest_from
    nearest_from_lem level best_idx bound i [] = inl (refl, tt)
    nearest_from_lem level best_idx bound i (q ∷ levels) =
        let d = distance level q in
        elim (Bool-cases (f.lt d bound)) [
          | inl e ↦
              Searched-nearer level best_idx bound i q levels _ e
                (rw e (nearest_from_lem level i d (i + 1) levels))
          | inr e ↦
              Searched-same level best_idx bound i q levels _ e
                (rw e (nearest_from_lem level best_idx bound (i + 1) levels))
        ]

    -- The index that is found is that of one of the model's levels, and no level of the model is
    -- nearer, if the first level is nearer than the largest number.
    pub chronos_quantile_index_lem :
        (largest level : F)
        → f.lt (distance level (f.decimal 1 2)) largest ≡ true
        → (q : F) × (get_elem? chronos_quantile_levels (chronos_quantile_index largest level)
            ≡ some q)
          × All (λ p. f.lt (distance level p) (distance level q) ≡ false) chronos_quantile_levels
    unfolding chronos_quantile_index
    chronos_quantile_index_lem largest level h =
        elim (nearest_from_lem level 0 largest 0 chronos_quantile_levels) [
          | inl (same, rest) ↦ absurd (ground (arith, h, rest.0))
          | inr (k, q, at, (here, near, rest)) ↦
              (q, ap (get_elem? chronos_quantile_levels) {y = k} (at ∙ omega arith) ∙ here, rest)
        ]
