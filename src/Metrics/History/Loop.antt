-- ===== src/Metrics/History/Loop.antt =====
-- The copying loop of `RingBuffer.Series`, before and after one write into the ring.
use native.Mathlib.Nat.{mod-add-mod, mod-eq_of_lt, mod-eq-sub-mod}
use native.Mathlib.Decide.{dec_lt}
use neural_autoscaler.Base.{
  ℕ, zero, suc, ◌+◌, ◌-◌, ◌%◌, ◌≤◌, ◌<◌, ◌≡◌, refl, ap, ap₂, ◌∙◌, ◌≢◌, List, [], ◌∷◌, ◌++◌, arith,
  length, get_or, set, get_or-set_self, get_or-set_ne, last_n, drop, length-append,
}
use neural_autoscaler.Metrics.History.{copy_from}

module _ {ℓ} {A : Type ℓ} (cap : ℕ) (d : A) where
  pub length-copy_from : (xs : List A) (s i n : ℕ) → length (copy_from xs cap s d i n) ≡ n
  unfolding copy_from
  length-copy_from xs s i zero = refl
  length-copy_from xs s i (suc n) = ap suc (length-copy_from xs s (i + 1) n)

  -- The last round of the loop.
  copy_from-snoc :
      (xs : List A) (s i n : ℕ)
      → copy_from xs cap s d i (suc n)
        ≡ copy_from xs cap s d i n ++ (get_or xs ((s + (i + n)) % cap) d ∷ [])
  unfolding copy_from
  copy_from-snoc xs s i zero = ap (λ k. get_or xs ((s + k) % cap) d ∷ []) (omega arith)
  copy_from-snoc xs s i (suc n) =
      ap (λ r. get_or xs ((s + i) % cap) d ∷ r)
        (copy_from-snoc xs s (i + 1) n
          ∙ ap (λ k. copy_from xs cap s d (i + 1) n ++ (get_or xs ((s + k) % cap) d ∷ []))
              (omega arith))

  -- Moving the start by one is the same as counting from one more.
  copy_from-shift :
      (xs : List A) (s i n : ℕ)
      → copy_from xs cap ((s + 1) % cap) d i n ≡ copy_from xs cap s d (i + 1) n
  unfolding copy_from
  copy_from-shift xs s i zero = refl
  copy_from-shift xs s i (suc n) =
      ap₂ ◌∷◌
        (ap (λ k. get_or xs k d) (mod-add-mod (s + 1) cap i ∙ ap (λ k. k % cap) (omega arith)))
        (copy_from-shift xs s (i + 1) n)

  -- A write that the loop does not reach is not seen.
  copy_from-set :
      (xs : List A) (s i n j : ℕ) (v : A)
      → ((k : ℕ) → i ≤ k → k < i + n → j ≢ (s + k) % cap)
      → copy_from (set xs j v) cap s d i n ≡ copy_from xs cap s d i n
  unfolding copy_from
  copy_from-set xs s i zero j v far = refl
  copy_from-set xs s i (suc n) j v far =
      ap₂ ◌∷◌ (get_or-set_ne xs j ((s + i) % cap) v d (far i (omega arith) (omega arith)))
        (copy_from-set xs s (i + 1) n j v (λ k lo hi. far k (omega arith) (omega arith)))

-- Fewer than `cap` steps round the ring do not come back to where they began.
step-ne : (cap s k : ℕ) → s < cap → 0 < k → k < cap → s ≢ (s + k) % cap
step-ne cap s k hs h0 hk = elim (dec_lt (s + k) cap) [
  | yes p ↦ omega (arith, mod-eq_of_lt p)
  | no p ↦ omega (
    arith,
    mod-eq-sub-mod {n = s + k} {m = cap} (omega arith),
    mod-eq_of_lt {n = s + k - cap} {m = cap} (omega arith),
  )
]

module _ {ℓ} {A : Type ℓ} (d : A) where
  -- A write behind the last of `n < cap` elements adds it at the end.
  pub copy_from-extend :
      (xs : List A) (cap n : ℕ) (v : A)
      → n < cap
      → length xs ≡ cap
      → copy_from (set xs (n % cap) v) cap 0 d 0 (suc n) ≡ copy_from xs cap 0 d 0 n ++ (v ∷ [])
  copy_from-extend xs cap n v h e =
      copy_from-snoc cap d (set xs (n % cap) v) 0 0 n
      ∙ ap₂ (λ l r. l ++ (r ∷ []))
          (copy_from-set cap d xs 0 0 n (n % cap) v (λ k lo hi. omega (
            arith,
            mod-eq_of_lt {n = k} {m = cap} (omega arith),
            mod-eq_of_lt {n = n} {m = cap} (omega arith),
          )))
          (ap (λ k. get_or (set xs (n % cap) v) (k % cap) d) {x = 0 + (0 + n)} {y = n} (omega arith)
            ∙ get_or-set_self xs (n % cap) v d (omega (arith, mod-eq_of_lt {n = n} {m = cap} h)))

  -- In a full ring a write over the oldest element drops it and adds the new one at the end.
  pub copy_from-rotate :
      (xs : List A) (cap s : ℕ) (v : A)
      → s < cap
      → length xs ≡ cap
      → copy_from (set xs s v) cap ((s + 1) % cap) d 0 cap
        ≡ last_n cap (copy_from xs cap s d 0 cap ++ (v ∷ []))
  unfolding copy_from
  copy_from-rotate xs zero s v h e = absurd (omega arith)
  copy_from-rotate xs (suc c) s v h e =
      let cap = suc c in
      let rest = copy_from xs cap s d 1 c in
      copy_from-shift cap d (set xs s v) s 0 cap
      ∙ copy_from-snoc cap d (set xs s v) s 1 c
      ∙ ap₂ (λ l r. l ++ (r ∷ []))
          (copy_from-set cap d xs s 1 c s v
            (λ k lo hi. step-ne cap s k h (omega arith) (omega arith)))
          (ap (λ k. get_or (set xs s v) k d) {x = (s + (1 + c)) % cap} {y = s}
              (omega (
                arith,
                mod-eq-sub-mod {n = s + (1 + c)} {m = suc c} (omega arith),
                mod-eq_of_lt {n = s + (1 + c) - suc c} {m = suc c} (omega arith),
              ))
            ∙ get_or-set_self xs s v d (omega arith))
      ∙ ap (λ k. drop k (get_or xs ((s + 0) % cap) d ∷ (rest ++ (v ∷ [])))) {x = 1}
          {y = length (get_or xs ((s + 0) % cap) d ∷ (rest ++ (v ∷ []))) - cap}
          (omega (arith, length-append rest (v ∷ []), length-copy_from cap d xs s 1 c))
