-- ===== src/Base/Float.antt =====
-- Go's `float64`: what the program does with it, over an unknown type, and the facts of IEEE 754
-- about its order that the proofs rely on. They hold of NaN, which is neither above nor below
-- anything: `x <= x` says that x is not NaN.
use neural_autoscaler.Base.{
  ℕ, ◌+◌, ◌-◌, ◌*◌, ◌/◌, ◌^◌, ◌≡◌, ◌⊎◌, Bool, true, false, arith, ltb, leb,
}
use neural_autoscaler.Base.Int.{ℤ, pos, pos_part}

-- `decimal m k` is the constant m / 10 ^ k, `to_int64` is the conversion `int64(x)`.
pub record Float64 (F : Type 0) : Type 0 where
  pub lt : F → F → Bool
  pub le : F → F → Bool
  pub add : F → F → F
  pub sub : F → F → F
  pub mul : F → F → F
  pub div : F → F → F
  pub abs : F → F
  pub ceil : F → F
  pub decimal : ℕ → ℕ → F
  pub of_int64 : ℤ → F
  pub to_int64 : F → ℤ

pub record IsStrict (F : Type 0) ⦃f : Float64 F⦄ : Type 0 where
  pub lt_irrefl : (a : F) → f.lt a a ≡ false
  pub lt_trans : (a b c : F) → f.lt a b ≡ true → f.lt b c ≡ true → f.lt a c ≡ true
  pub lt_split :
      (a b c : F) → f.lt a c ≡ true → f.le b b ≡ true → (f.lt a b ≡ true) ⊎ (f.lt b c ≡ true)
  pub le_trans : (a b c : F) → f.le a b ≡ true → f.le b c ≡ true → f.le a c ≡ true
  pub le_self_of_lt : (a b : F) → f.lt a b ≡ true → (f.le a a ≡ true) × (f.le b b ≡ true)
  pub le_self_decimal : (m k : ℕ) → f.le (f.decimal m k) (f.decimal m k) ≡ true

-- The facts can be met: thousandths that are not negative.
abbrev pub Fixed : Type 0
Fixed = ℕ

instance abbrev pub fixed_float : Float64 Fixed
fixed_float = record {
  lt = ltb;
  le = leb;
  add = λ a b. a + b;
  sub = λ a b. a - b;
  mul = λ a b. a * b / 1000;
  div = λ a b. a * 1000 / b;
  abs = λ a. a;
  ceil = λ a. (a + 999) / 1000 * 1000;
  decimal = λ m k. m * 1000 / 10 ^ k;
  of_int64 = λ z. pos_part z * 1000;
  to_int64 = λ a. pos (a / 1000);
}

pub Fixed-IsStrict : IsStrict Fixed
Fixed-IsStrict = record {
  lt_irrefl = λ a. ground arith;
  lt_trans = λ a b c. ground arith;
  lt_split = λ a b c. ground arith;
  le_trans = λ a b c. ground arith;
  le_self_of_lt = λ a b. ground arith;
  le_self_decimal = λ m k. ground arith;
}

-- Go's `float32` beside `float64`: `narrow` is the conversion `float32(x)`, `widen` is `float64(x)`,
-- and the two constants are those that the program stores. Nothing is assumed of it.
pub record Float32 (F S : Type 0) : Type 0 where
  pub narrow : F → S
  pub widen : S → F
  pub zero32 : S
  pub one32 : S

instance abbrev pub fixed_single : Float32 Fixed Fixed
fixed_single = record { narrow = λ a. a; widen = λ a. a; zero32 = 0; one32 = 1000 }
