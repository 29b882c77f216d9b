-- ===== src/Api/Quantity.antt =====
-- `resource.Quantity` of Kubernetes, which the program only calls: its operations, over an unknown
-- type, and what the program relies on. `DeepCopy` makes no difference to a value.
use Prim.Native.Nat.{compare, Ordering}
use neural_autoscaler.Base.{
  ℕ, ◌+◌, ◌*◌, ◌/◌, ◌≡◌, ◌≢◌, ◌↔◌, String, Bool, true, false, Option, none, some, arith, eqb, ◌==◌,
  if◌then◌else◌,
}
use neural_autoscaler.Base.Int.{ℤ, pos, pos_part}

-- The format that a quantity prints in.
pub data Format : Type 0 where
  decimal_si binary_si : Format

-- `cmp` is `Cmp`, whose -1, 0 and 1 are the three orderings; `parse` is `ParseQuantity`, with
-- `none` for its errors; `must_parse` is `MustParse`.
pub record Quantity (Q : Type 0) : Type 0 where
  pub cmp : Q → Q → Ordering
  pub is_zero : Q → Bool
  pub sign : Q → Ordering
  pub value : Q → ℤ
  pub milli_value : Q → ℤ
  pub parse : String → Option Q
  pub must_parse : String → Q
  pub new_milli_quantity : ℤ → Format → Q
  pub new_quantity : ℤ → Format → Q

module _ {Q : Type 0} ⦃q : Quantity Q⦄ where
  infix 4 ◌≼◌
  abbrev pub ◌≼◌ : Q → Q → Type 0
  a ≼ b = q.cmp a b ≢ Ordering.gt

  -- `a.Cmp(b) < 0`, `a.Cmp(b) > 0` and `a.Cmp(b) == 0`.
  abbrev pub is_less : Q → Q → Bool
  is_less a b = elim (q.cmp a b) [ Ordering.lt ↦ true | _ ↦ false ]

  abbrev pub is_more : Q → Q → Bool
  is_more a b = elim (q.cmp a b) [ Ordering.gt ↦ true | _ ↦ false ]

  abbrev pub is_same : Q → Q → Bool
  is_same a b = elim (q.cmp a b) [ Ordering.eq ↦ true | _ ↦ false ]

-- `Cmp` compares amounts.
pub record IsOrdered (Q : Type 0) ⦃q : Quantity Q⦄ : Type 0 where
  pub cmp_refl : (a : Q) → q.cmp a a ≡ Ordering.eq
  pub cmp_flip : (a b : Q) → (q.cmp a b ≡ Ordering.lt) ↔ (q.cmp b a ≡ Ordering.gt)
  pub le_trans : (a b c : Q) → a ≼ b → b ≼ c → a ≼ c

-- The laws can be met: amounts in thousandths that are not negative, and a reader of a few texts.
abbrev pub Thousandths : Type 0
Thousandths = ℕ

abbrev read_amount : String → Option Thousandths
read_amount s =
    if s == "100m"
    then some 100
    else (if s == "500m"
        then some 500
        else (if s == "1"
            then some 1000
            else (if s == "2"
                then some 2000
                else (if s == "1Ki"
                    then some 1024000
                    else (if s == "2Ki"
                        then some 2048000
                        else (if s == "4Ki" then some 4096000 else none))))))

abbrev amount_or_zero : Option Thousandths → Thousandths
amount_or_zero none = 0
amount_or_zero (some n) = n

instance abbrev pub thousandths_quantity : Quantity Thousandths
thousandths_quantity = record {
  cmp = compare;
  is_zero = λ n. eqb n 0;
  sign = λ n. compare n 0;
  value = λ n. pos ((n + 999) / 1000);
  milli_value = λ n. pos n;
  parse = read_amount;
  must_parse = λ s. amount_or_zero (read_amount s);
  new_milli_quantity = λ z _. pos_part z;
  new_quantity = λ z _. pos_part z * 1000;
}

pub Thousandths-IsOrdered : IsOrdered Thousandths
Thousandths-IsOrdered = record {
  cmp_refl = λ a. ground arith;
  cmp_flip = λ a b. ground arith;
  le_trans = λ a b c. ground arith;
}
