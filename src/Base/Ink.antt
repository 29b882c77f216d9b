-- ===== src/Base/Ink.antt =====
-- Texts that are not blank: those with a character that is no space. A printed number is one.
use Prim.Native.Char.{Char, code}
use Prim.Native.String.{String, ◌++◌ as ◌<>◌}
use Prim.Native.String.append
use Prim.Native.String.compare
use text.Mathlib.Text.{is_eq}
use neural_autoscaler.Base.{
  ℕ, zero, suc, ◌/◌, ◌%◌, ◌<◌, ◌≡◌, refl, ap, ◌∙◌, inl, inr, Bool, true, false, ◌==◌, arith,
  Bool-cases, ltb, get_or, if◌then◌else◌,
}
use neural_autoscaler.Base.Int.{pos}
use neural_autoscaler.Base.Text.{is_space, trim_left, trim_right, trim_space}
use neural_autoscaler.Base.Decimal.{digits, format_from, format_int}

unfoldable has_ink : String → Bool
has_ink String.[] = false
has_ink (String.◌∷◌ c s) = if is_space (code c) then has_ink s else true

has_ink-trim_left : (s : String) → has_ink (trim_left s) ≡ has_ink s
unfolding has_ink trim_left
has_ink-trim_left String.[] = refl
has_ink-trim_left (String.◌∷◌ c s) = elim (Bool-cases (is_space (code c))) [
  | inl e ↦ rw e (has_ink-trim_left s)
  | inr e ↦ rw e (rw e refl)
]

cons_blank : (c : Char) (s : String) → (String.◌∷◌ c s == "") ≡ false
cons_blank c s = ap is_eq (compare.cons-nil c s)

trim_right-ink : (s : String) → has_ink s ≡ true → (trim_right s == "") ≡ false
unfolding has_ink trim_right
trim_right-ink String.[] h = cc
trim_right-ink (String.◌∷◌ c s) h = elim (Bool-cases (is_space (code c))) [
  | inl e ↦ let rest = trim_right-ink s (rw e at h) in rw e (rw rest (cons_blank c (trim_right s)))
  | inr e ↦ rw e (cons_blank c (trim_right s))
]

has_ink-append : (s t : String) → has_ink t ≡ true → has_ink (s <> t) ≡ true
unfolding has_ink
has_ink-append String.[] t h = rw (append.nil t) h
has_ink-append (String.◌∷◌ c s) t h =
    rw (append.cons c s t) (elim (Bool-cases (is_space (code c))) [
      | inl e ↦ rw e (has_ink-append s t h)
      | inr e ↦ rw e refl
    ])

has_ink-digit : (n : ℕ) → n < 10 → has_ink (get_or digits n "") ≡ true
unfolding has_ink is_space
has_ink-digit zero h = refl
has_ink-digit (suc zero) h = refl
has_ink-digit (suc (suc zero)) h = refl
has_ink-digit (suc (suc (suc zero))) h = refl
has_ink-digit (suc (suc (suc (suc zero)))) h = refl
has_ink-digit (suc (suc (suc (suc (suc zero))))) h = refl
has_ink-digit (suc (suc (suc (suc (suc (suc zero)))))) h = refl
has_ink-digit (suc (suc (suc (suc (suc (suc (suc zero))))))) h = refl
has_ink-digit (suc (suc (suc (suc (suc (suc (suc (suc zero)))))))) h = refl
has_ink-digit (suc (suc (suc (suc (suc (suc (suc (suc (suc zero))))))))) h = refl
has_ink-digit (suc (suc (suc (suc (suc (suc (suc (suc (suc (suc n)))))))))) h =
    absurd (omega (arith, h))

has_ink-format_from : (fuel n : ℕ) → has_ink (format_from (suc fuel) n) ≡ true
unfolding format_from
has_ink-format_from fuel n = elim (Bool-cases (ltb n 10)) [
  | inl e ↦ rw e (has_ink-digit n (ground (arith, e)))
  | inr e ↦
      rw e (has_ink-append (format_from fuel (n / 10)) _ (has_ink-digit (n % 10) (omega arith)))
]

-- A number that is printed is not blank.
pub format_int-ink : (n : ℕ) → (trim_space (format_int (pos n)) == "") ≡ false
unfolding trim_space format_int
format_int-ink n =
    trim_right-ink (trim_left (format_from (suc n) n))
      (has_ink-trim_left (format_from (suc n) n) ∙ has_ink-format_from n n)
