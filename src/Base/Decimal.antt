-- ===== src/Base/Decimal.antt =====
-- `strconv.FormatInt` and `strconv.Itoa` in base ten.
use Prim.Native.String.{◌++◌ as ◌<>◌}
use neural_autoscaler.Base.{
  ℕ, zero, suc, ◌/◌, ◌%◌, ◌≡◌, refl, String, List, [], ◌∷◌, ltb, get_or, if◌then◌else◌,
}
use neural_autoscaler.Base.Int.{ℤ, pos, negsuc}

abbrev pub digits : List String
digits = "0" ∷ "1" ∷ "2" ∷ "3" ∷ "4" ∷ "5" ∷ "6" ∷ "7" ∷ "8" ∷ "9" ∷ []

-- The fuel is above the number, which falls at each round.
unfoldable pub format_from : ℕ → ℕ → String
format_from zero n = ""
format_from (suc fuel) n =
    let front = format_from fuel (n / 10) in
    if ltb n 10 then get_or digits n "" else front <> get_or digits (n % 10) ""

unfoldable pub format_int : ℤ → String
unfolding format_from
format_int (pos n) = format_from (suc n) n
format_int (negsuc n) = "-" <> format_from (suc (suc n)) (suc n)

format_int_test : (format_int (pos 4096) ≡ "4096") × (format_int (negsuc 11) ≡ "-12")
unfolding format_int
format_int_test = (refl, refl)
