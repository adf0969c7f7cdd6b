-- ===== src/Table/Op.antt =====
-- An operation of the store: it changes the disk and the audit log, and answers or fails. What was changed
-- before a failure stays changed.
use Prim.Native.String.{String}
use eule_db.Common.{◌≡◌, ◌∙◌, refl, ap, subst, ℕ, Result, ok, err, Option, some, none}
use eule_db.Common.Text.{Text}
use eule_db.Table.Error.{Error, StorageError, storage, backend, below, said}

abbrev pub Op {ℓ κ} : Type ℓ → Type κ → Type (ℓ ⊔ κ)
Op S A = S → Result Error A × S

-- The rest of an operation, after a part of it.
abbrev pub after {ℓ κ μ} :
    {S : Type ℓ} {A : Type κ} {B : Type μ} → (A → Op S B) → Result Error A × S → Result Error B × S
after next (ok a, s) = next a s
after next (err e, s) = (err e, s)

infixl 5 ◌>>=◌
abbrev pub ◌>>=◌ {ℓ κ μ} : {S : Type ℓ} {A : Type κ} {B : Type μ} → Op S A → (A → Op S B) → Op S B
m >>= next = λ s. after next (m s)

infixl 5 ◌>>◌
abbrev pub ◌>>◌ {ℓ μ} : {S : Type ℓ} {B : Type μ} → Op S (Unit {0}) → Op S B → Op S B
m >> next = λ s. after (λ u. next) (m s)

abbrev pub done {ℓ κ} : {S : Type ℓ} {A : Type κ} → A → Op S A
done a s = (ok a, s)

abbrev pub fail {ℓ κ} : {S : Type ℓ} {A : Type κ} → StorageError → Op S A
fail e s = (err (storage e), s)

-- `map_err(|cause| StorageError::backend(operation, table, cause))?`
abbrev pub or_backend {ℓ κ} : {S : Type ℓ} {A : Type κ} → String → Text → Result ℕ A → Op S A
or_backend operation table (ok a) s = (ok a, s)
or_backend operation table (err cause) s =
    (err (storage (backend operation table (below cause))), s)

-- `ok_or_else(|| StorageError::backend(operation, table, reason))?`
abbrev pub or_said {ℓ κ} : {S : Type ℓ} {A : Type κ} → String → Text → String → Option A → Op S A
or_said operation table reason (some a) s = (ok a, s)
or_said operation table reason none s = (err (storage (backend operation table (said reason))), s)

-- What answers in the end has answered in its first part.
pub after-answers :
    {S A B : Type 0} (next : A → Op S B) (r : Result Error A × S) (b : B) (t : S)
    → after next r ≡ (ok b, t)
    → (a : A) × ((u : S) × ((r ≡ (ok a, u)) × (next a u ≡ (ok b, t))))
after-answers next (ok a, u) b t h = (a, (u, (refl, h)))
after-answers next (err e, u) b t h = cc

pub answer-eq :
    {S A : Type 0} {a b : A} (s t : S) → ◌≡◌ {A = Result Error A × S} (ok a, s) (ok b, t) → a ≡ b
answer-eq {a = a} {b = b} s t h =
    let same : ◌≡◌ {A = Result Error _} (ok a) (ok b) = ap (λ z. z.0) h in cc

-- Whatever the operation answers has the property.
abbrev pub Answers : {S A : Type 0} → (A → Type 0) → Op S A → Type 0
Answers {S = S} {A = A} P m = (s : S) (a : A) (t : S) → m s ≡ (ok a, t) → P a

pub done-Answers : {S A : Type 0} (P : A → Type 0) (a : A) → P a → Answers {S = S} P (done a)
done-Answers P a holds s b t h = subst P (answer-eq s t h) holds

pub bind-Answers :
    {S A B : Type 0} (P : B → Type 0) (m : Op S A) (next : A → Op S B)
    → ((a : A) → Answers P (next a))
    → Answers P (m >>= next)
bind-Answers {S = S} {A = A} {B = B} P m next holds s b t h = go (m s) h
  where
    go : (r : Result Error A × S) → after next r ≡ (ok b, t) → P b
    go (ok a, u) e = holds a u b t e
    go (err c, u) e = cc

-- An operation whose first part answers goes on with what follows.
pub bind-answers :
    {S A B : Type 0} (m : Op S A) (next : A → Op S B) (s : S) (a : A) (u : S)
    {r : Result Error B × S}
    → m s ≡ (ok a, u)
    → next a u ≡ r
    → (m >>= next) s ≡ r
bind-answers m next s a u first rest = ap (after next) first ∙ rest

pub or_backend-ok :
    {S A : Type 0} (operation : String) (table : Text) (r : Result ℕ A) (s : S) {a : A}
    → r ≡ ok a
    → or_backend operation table r s ≡ (ok a, s)
or_backend-ok operation table r s e = rw e refl

pub or_said-ok :
    {S A : Type 0} (operation : String) (table : Text) (reason : String) (o : Option A) (s : S)
    {a : A}
    → o ≡ some a
    → or_said operation table reason o s ≡ (ok a, s)
or_said-ok operation table reason o s e = rw e refl

pub or_backend-answers :
    {S A : Type 0} (operation : String) (table : Text) (r : Result ℕ A) (s : S) (a : A) (u : S)
    → or_backend operation table r s ≡ (ok a, u)
    → (r ≡ ok a) × (s ≡ u)
or_backend-answers operation table (ok b) s a u h = (ap ok (answer-eq s u h), ap (λ z. z.1) h)
or_backend-answers operation table (err c) s a u h = cc
