-- ===== src/Onnx/Preprocess/Rows.antt =====
-- The tensor of `prepareBatchInput`: the same row again and again.
use neural_autoscaler.Base.{
  ℕ, zero, suc, ◌+◌, ◌*◌, ◌≡◌, refl, sym, ap, ap₂, ◌∙◌, List, [], ◌∷◌, ◌++◌, map, arith, length,
  take, drop, replicate, append_assoc, length-append, length-replicate, max, if◌then◌else◌,
}
use neural_autoscaler.Base.Int.{ℤ, pos, pos_part, ltb_ℤ}
use neural_autoscaler.Base.Float.{Float64, Float32}
use neural_autoscaler.Onnx.Preprocess.{
  context_window, copy_row, copy_rows, prepare_context, prepare_batch_input,
}

module _ {S : Type 0} where
  -- `k` copies of a row, one after the other.
  abbrev pub rows : ℕ → List S → List S
  rows zero row = []
  rows (suc k) row = row ++ rows k row

  take-append_len : (n : ℕ) (xs ys : List S) → n ≡ length xs → take n (xs ++ ys) ≡ xs
  take-append_len zero [] ys e = refl
  take-append_len zero (x ∷ xs) ys e = absurd (omega arith)
  take-append_len (suc n) [] ys e = absurd (omega arith)
  take-append_len (suc n) (x ∷ xs) ys e = ap (λ l. x ∷ l) (take-append_len n xs ys (omega arith))

  drop-append_len :
      (n : ℕ) (xs ys zs : List S) → n ≡ length xs + length ys → drop n (xs ++ (ys ++ zs)) ≡ zs
  drop-append_len zero [] [] zs e = refl
  drop-append_len zero [] (y ∷ ys) zs e = absurd (omega arith)
  drop-append_len zero (x ∷ xs) ys zs e = absurd (omega arith)
  drop-append_len (suc n) [] [] zs e = absurd (omega arith)
  drop-append_len (suc n) [] (y ∷ ys) zs e = drop-append_len n [] ys zs (omega arith)
  drop-append_len (suc n) (x ∷ xs) ys zs e = drop-append_len n xs ys zs (omega arith)

  pub replicate_add : (m n : ℕ) (z : S) → replicate (m + n) z ≡ replicate m z ++ replicate n z
  replicate_add zero n z = ap (λ k. replicate k z) {x = 0 + n} {y = n} (omega arith)
  replicate_add (suc m) n z =
      ap (λ k. replicate k z) {x = suc m + n} {y = suc (m + n)} (omega arith)
      ∙ ap (λ l. z ∷ l) (replicate_add m n z)

  copy_row-eq :
      (at : ℕ) (row before gap rest : List S)
      → at ≡ length before
      → length gap ≡ length row
      → copy_row at row (before ++ (gap ++ rest)) ≡ (before ++ row) ++ rest
  copy_row-eq at row before gap rest e same =
      ap₂ (λ xs ys. xs ++ (row ++ ys)) (take-append_len at before (gap ++ rest) e)
        (drop-append_len (at + length row) before gap rest (omega arith))
      ∙ sym (append_assoc before row rest)

  copy_rows-eq :
      (row : List S) (b k : ℕ) (before : List S) (z : S)
      → length before ≡ b * length row
      → copy_rows row b k (before ++ replicate (k * length row) z) ≡ before ++ rows k row
  unfolding copy_rows
  copy_rows-eq row b zero before z e =
      ap (λ n. before ++ replicate n z) {x = 0 * length row} {y = 0} (omega arith)
  copy_rows-eq row b (suc k) before z e =
      let n = length row in
      let gap = replicate n z in
      let rest = replicate (k * n) z in
      let split : replicate (suc k * n) z ≡ gap ++ rest =
        ap (λ i. replicate i z) {x = suc k * n} {y = n + k * n} (omega arith)
        ∙ replicate_add n (k * n) z in
      let longer : length (before ++ row) ≡ (b + 1) * n =
        length-append before row ∙ omega (arith, e) in
      ap (λ out. copy_rows row (b + 1) k (copy_row (b * n) row (before ++ out))) split
      ∙ ap (copy_rows row (b + 1) k)
          (copy_row-eq (b * n) row before gap rest (sym e) (length-replicate n z))
      ∙ copy_rows-eq row (b + 1) k (before ++ row) z longer
      ∙ append_assoc before row (rows k row)

abbrev row_count : ℤ → ℕ
row_count batch_size = max 1 (pos_part batch_size)

row_count-eq :
    (batch_size : ℤ)
    → (if ltb_ℤ batch_size (pos 1) then 1 else pos_part batch_size) ≡ row_count batch_size
row_count-eq batch_size = ground arith

module _ {F S : Type 0} ⦃f : Float64 F⦄ ⦃s : Float32 F S⦄ where
  -- The tensor is the last samples of the series, as many as the context holds, once for each row of
  -- the batch and at least once, and nothing else is left in it.
  pub prepare_batch_input_lem :
      (values : List F) (max_context batch_size : ℤ)
      → let row = map s.narrow (context_window values max_context) in
        prepare_batch_input values max_context batch_size
        ≡ (rows (row_count batch_size) row, length row)
  unfolding prepare_batch_input prepare_context
  prepare_batch_input_lem values max_context batch_size =
      let row = map s.narrow (context_window values max_context) in
      ap (λ out. (out, length row))
        (ap (λ k. copy_rows row 0 k (replicate (k * length row) s.zero32)) (row_count-eq batch_size)
          ∙ copy_rows-eq row 0 (row_count batch_size) [] s.zero32 (omega arith))
