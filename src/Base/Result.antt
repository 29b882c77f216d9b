-- ===== src/Base/Result.antt =====
-- Go's pair of a value and an error, read as one or the other.
use neural_autoscaler.Base.{◌≡◌, ◌↔◌, ◌⊎◌, inl, inr, refl, subst, Bool, true, false, arith}

pub data Result {ℓ} (E : Type 0) (A : Type ℓ) : Type ℓ where
  ok : A → Result E A
  err : E → Result E A

infixl 5 ◌>>=◌ ◌>>◌
abbrev pub ◌>>=◌ {ℓ κ} :
    {E : Type 0} {A : Type ℓ} {B : Type κ} → Result E A → (A → Result E B) → Result E B
err e >>= next = err e
ok a >>= next = next a

abbrev pub ◌>>◌ {ℓ} : {E : Type 0} {B : Type ℓ} → Result E (Unit {0}) → Result E B → Result E B
first >> second = first >>= λ done. second

-- `if b { return e }`
abbrev pub fail_if : {E : Type 0} → Bool → E → Result E (Unit {0})
fail_if true e = err e
fail_if false e = ok tt

-- `fmt.Errorf("...: %w", err)`
abbrev pub wrap_err {ℓ} : {E F : Type 0} {A : Type ℓ} → (E → F) → Result E A → Result F A
wrap_err f (ok a) = ok a
wrap_err f (err e) = err (f e)

pub Result-cases {ℓ} :
    {E : Type 0} {A : Type ℓ} (r : Result E A) → ((e : E) × (r ≡ err e)) ⊎ ((a : A) × (r ≡ ok a))
Result-cases (err e) = inl (e, refl)
Result-cases (ok a) = inr (a, refl)

-- A chain of checks passes exactly when each of them does.
pub >>_iff :
    {E : Type 0} (m k : Result E (Unit {0})) → ((m >> k) ≡ ok tt) ↔ ((m ≡ ok tt) × (k ≡ ok tt))
>>_iff (ok a) k = (λ h. (refl, h), λ h. h.1)
>>_iff (err e) k = ground arith

pub fail_if_iff : {E : Type 0} (b : Bool) (e : E) → (fail_if b e ≡ ok tt) ↔ (b ≡ false)
fail_if_iff true e = ground arith
fail_if_iff false e = ground arith

pub wrap_err_iff :
    {E F : Type 0} (f : E → F) (r : Result E (Unit {0})) → (wrap_err f r ≡ ok tt) ↔ (r ≡ ok tt)
wrap_err_iff f (ok a) = ground arith
wrap_err_iff f (err e) = ground arith

-- A property of the value of a result, which an error has.
abbrev pub Holds {ℓ κ} : {E : Type 0} {A : Type ℓ} → (A → Type κ) → Result E A → Type κ
Holds P (err e) = Unit
Holds P (ok a) = P a

pub Holds-bind {ℓ κ} :
    {E : Type 0} {A : Type ℓ} {B : Type κ} (P : A → Type ℓ) (Q : B → Type κ) (m : Result E A)
    (next : A → Result E B)
    → Holds P m
    → ((a : A) → P a → Holds Q (next a))
    → Holds Q (m >>= next)
Holds-bind P Q (err e) next h rest = tt
Holds-bind P Q (ok a) next h rest = rest a h

pub Holds-last {ℓ κ} :
    {E : Type 0} {A : Type ℓ} {B : Type κ} (Q : B → Type κ) (m : Result E A) (next : A → Result E B)
    → ((a : A) → Holds Q (next a))
    → Holds Q (m >>= next)
Holds-last Q (err e) next rest = tt
Holds-last Q (ok a) next rest = rest a

pub Holds-wrap_err {ℓ} :
    {E G : Type 0} {A : Type ℓ} (P : A → Type ℓ) (g : E → G) (m : Result E A)
    → Holds P m
    → Holds P (wrap_err g m)
Holds-wrap_err P g (err e) h = tt
Holds-wrap_err P g (ok a) h = h

pub Holds-ok {ℓ} :
    {E : Type 0} {A : Type ℓ} (P : A → Type ℓ) (m : Result E A) (a : A) → m ≡ ok a → Holds P m → P a
Holds-ok P m a e h = subst (Holds P) e h
