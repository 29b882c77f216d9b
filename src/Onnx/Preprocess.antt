-- ===== src/Onnx/Preprocess.antt =====
-- internal/forecast/onnx/preprocess.go: the input tensor of TimesFM and what is read from its output.
-- A tensor is the list of its numbers, row by row, and its dimensions are natural numbers. So are the
-- horizons here, which `ValidateRequest` has found to be positive before.
pub mod Rows
pub mod Output
use neural_autoscaler.Base.{
  ℕ, zero, suc, ◌+◌, ◌-◌, ◌*◌, Bool, true, false, Option, none, some, List, [], ◌∷◌, ◌++◌, map,
  length, get_elem?, take, drop, last_n, replicate, leb, ltb, min, if◌then◌else◌,
}
use neural_autoscaler.Base.Int.{ℤ, pos, pos_part, leb_ℤ, ltb_ℤ}
use neural_autoscaler.Base.Float.{Float64, Float32}

-- `values[start:]`
abbrev pub context_window : {F : Type 0} → List F → ℤ → List F
context_window values max_context =
    let n = if leb_ℤ max_context (pos 0) then length values else pos_part max_context in
    last_n n values

-- `copy(out[at:at+len(row)], row)`, where there is room for the row.
abbrev pub copy_row : {S : Type 0} → ℕ → List S → List S → List S
copy_row at row out = take at out ++ (row ++ drop (at + length row) out)

-- The loop from row `b` on, `k` rows in all.
unfoldable pub copy_rows : {S : Type 0} → List S → (b k : ℕ) → List S → List S
copy_rows row b zero out = out
copy_rows row b (suc k) out = copy_rows row (b + 1) k (copy_row (b * length row) row out)

-- One turn of the loop below: `break`, or an entry and then the `rest`.
abbrev pub read_entry : {S F : Type 0} → F → (S → F) → ℕ → Option S → List F → List F
read_entry nought value k none rest = replicate (suc k) nought
read_entry nought value k (some v) rest = value v ∷ rest

-- A loop that fills `k` entries from entry `step` on, each from an offset, and breaks off at the end
-- of the numbers: what it does not reach stays 0.
unfoldable pub read_steps : {S F : Type 0} → F → (ℕ → ℕ) → (S → F) → List S → (step k : ℕ) → List F
read_steps nought offset value numbers step zero = []
read_steps nought offset value numbers step (suc k) =
    read_entry nought value k (get_elem? numbers (offset step))
      (read_steps nought offset value numbers (step + 1) k)

module _ {F S : Type 0} ⦃f : Float64 F⦄ ⦃s : Float32 F S⦄ where
  unfoldable pub prepare_context : List F → ℤ → List S
  prepare_context values max_context = map s.narrow (context_window values max_context)

  unfoldable pub prepare_batch_input : List F → ℤ → ℤ → List S × ℕ
  unfolding prepare_context copy_rows
  prepare_batch_input values max_context batch_size =
      let row = prepare_context values max_context in
      let rows = if ltb_ℤ batch_size (pos 1) then 1 else pos_part batch_size in
      (copy_rows row 0 rows (replicate (rows * length row) s.zero32), length row)

  unfoldable pub slice_horizon : List S → ℤ → List F
  slice_horizon values horizon =
      if leb_ℤ horizon (pos 0)
      then []
      else map s.widen (take (min (pos_part horizon) (length values)) values)

module _ {F : Type 0} ⦃f : Float64 F⦄ where
  unfoldable pub quantile_index : F → ℕ
  quantile_index level =
      if f.le level (f.decimal 15 2)
      then 1
      else (if f.le level (f.decimal 25 2)
          then 2
          else (if f.le level (f.decimal 35 2)
              then 3
              else (if f.le level (f.decimal 45 2)
                  then 4
                  else (if f.le level (f.decimal 55 2)
                      then 5
                      else (if f.le level (f.decimal 65 2)
                          then 6
                          else (if f.le level (f.decimal 75 2)
                              then 7
                              else (if f.le level (f.decimal 85 2) then 8 else 9)))))))

-- The column that is read, the last one if there are fewer.
abbrev pub column : ℕ → ℕ → ℕ
column idx quantile_count = if leb quantile_count idx then quantile_count - 1 else idx

module _ {F S : Type 0} ⦃f : Float64 F⦄ ⦃s : Float32 F S⦄ where
  unfoldable pub quantile_series : List S → List ℕ → F → ℕ → List F
  unfolding read_steps quantile_index
  quantile_series [] shape level horizon = []
  quantile_series (x ∷ full) (batch ∷ zero ∷ quantile_count ∷ []) level horizon = []
  quantile_series (x ∷ full) (batch ∷ suc horizon_len ∷ zero ∷ []) level horizon = []
  quantile_series (x ∷ full) (batch ∷ suc horizon_len ∷ suc quantile_count ∷ []) level horizon =
      let idx = column (quantile_index level) (suc quantile_count) in
      read_steps (f.decimal 0 0) (λ step. step * suc quantile_count + idx) s.widen (x ∷ full) 0
        (min horizon (suc horizon_len))
  quantile_series (x ∷ full) _ level horizon = []
