-- ===== src/Common/Results.antt =====
-- Rust's `Result`: a value or an error, and the `?` operator as the bind of a `do` block.
use mathlib.Core.Path.{◌≡◌, refl}
use mathlib.Core.Option.{Option, none, some}
use mathlib.Core.Logic.{◌⊎◌, inl, inr}
use mathlib.Core.Bool.{Bool, true, false}

-- `Err(error)` and `Ok(value)`
pub data Result {ε α} (Failure : Type ε) (Value : Type α) : Type (ε ⊔ α) where
  err : Failure → Result Failure Value
  ok : Value → Result Failure Value

-- `if bad { return Err(e) }`
abbrev pub refuse_if {ℓ} : {E : Type ℓ} → Bool → E → Result E (Unit {0})
refuse_if true e = err e
refuse_if false e = ok tt

-- `ok_or`
abbrev pub ok_or {ℓ κ} : {E : Type ℓ} {A : Type κ} → Option A → E → Result E A
ok_or none e = err e
ok_or (some a) e = ok a

-- `map_err`
abbrev pub map_err {ℓ κ μ} :
    {E : Type ℓ} {F : Type κ} {A : Type μ} → (E → F) → Result E A → Result F A
map_err f (ok a) = ok a
map_err f (err e) = err (f e)

-- `first?` and what follows it
infixl 5 ◌>>=◌
abbrev pub ◌>>=◌ {ε α β} :
    {Failure : Type ε} {Value : Type α} {Answer : Type β}
    → Result Failure Value
    → (Value → Result Failure Answer)
    → Result Failure Answer
err failure >>= next = err failure
ok value >>= next = next value

-- `first?;`
infixl 5 ◌>>◌
abbrev pub ◌>>◌ {ε β} :
    {Failure : Type ε} {Answer : Type β}
    → Result Failure (Unit {0})
    → Result Failure Answer
    → Result Failure Answer
first >> next = first >>= (λ nothing. next)

-- What ran to its end has run its first part to its end.
pub >>=-eq-ok {ε α β} :
    {Failure : Type ε} {Value : Type α} {Answer : Type β} (first : Result Failure Value)
    (next : Value → Result Failure Answer) {answer : Answer}
    → (first >>= next) ≡ ok answer
    → (value : Value) × (first ≡ ok value) × (next value ≡ ok answer)
>>=-eq-ok (err failure) next ran = cc
>>=-eq-ok (ok value) next ran = (value, refl, ran)

pub ok_or-eq-ok {ℓ κ} :
    {E : Type ℓ} {A : Type κ} (o : Option A) (e : E) {a : A} → ok_or o e ≡ ok a → o ≡ some a
ok_or-eq-ok none e h = cc
ok_or-eq-ok (some a) e h = cc

-- A check that let the caller through.
pub refuse_if-eq-ok {ℓ κ} :
    {E : Type ℓ} {B : Type κ} (t : Bool) (e : E) (k : Result E B) {b : B}
    → (refuse_if t e >> k) ≡ ok b
    → (t ≡ false) × (k ≡ ok b)
refuse_if-eq-ok true e k h = cc
refuse_if-eq-ok false e k h = (refl, h)

-- To split on a computed result and keep the equation.
pub Result-cases {ℓ κ} :
    {E : Type ℓ} {A : Type κ} (r : Result E A) → ((e : E) × (r ≡ err e)) ⊎ ((a : A) × (r ≡ ok a))
Result-cases (ok a) = inr (a, refl)
Result-cases (err e) = inl (e, refl)
