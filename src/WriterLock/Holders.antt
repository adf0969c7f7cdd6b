-- ===== src/WriterLock/Holders.antt =====
-- The processes that open a database for writing, and the lock between them:
-- crates/euledb-storage/src/writer_lock.rs and store.rs.
use eule_db.Common.{
  ℕ, suc, List, [], ◌∷◌, length, Bool, true, false, not, ◌==◌, Bool-cases, ok, err, Result, ◌≡◌,
  refl, sym, arith, inl, inr, ap, if◌then◌else◌,
}
use eule_db.Common.Text.{Text}
use eule_db.WriterLock.{LockIo, LockError, busy, unavailable, acquire}

-- The processes whose handle holds the write role, and whether the file is locked.
pub record Processes : Type 0 where
  pub writers : List ℕ
  pub locked : Bool

abbrev pub without : ℕ → List ℕ → List ℕ
without q [] = []
without q (x ∷ xs) = let rest = without q xs in if x == q then rest else x ∷ rest

abbrev pub holds : ℕ → List ℕ → Bool
holds q [] = false
holds q (x ∷ xs) = if x == q then true else holds q xs

-- A process opens a database for writing, or reads; a handle is dropped, or its process dies, and the
-- operating system then takes the lock back.
pub data Steps (root : Text) : Processes → Processes → Type 0 where
  opens :
      (q : ℕ) (io : LockIo) (w : List ℕ) (b c : Bool)
      → acquire root io b ≡ (ok tt, c)
      → Steps root (record { writers = w; locked = b }) (record { writers = q ∷ w; locked = c })
  is_refused :
      (q : ℕ) (io : LockIo) (e : LockError) (w : List ℕ) (b c : Bool)
      → acquire root io b ≡ (err e, c)
      → Steps root (record { writers = w; locked = b }) (record { writers = w; locked = c })
  leaves :
      (q : ℕ) (w : List ℕ) (b : Bool)
      → holds q w ≡ true
      → Steps root
          (record { writers = w; locked = b })
          (record { writers = without q w; locked = false })

pub data Reaches (root : Text) : Processes → Type 0 where
  starts : Reaches root (record { writers = []; locked = false })
  goes : (s t : Processes) → Reaches root s → Steps root s t → Reaches root t

-- One process writes when the file is locked, and none otherwise.
abbrev pub IsExclusive : Processes → Type 0
IsExclusive s = length s.writers ≡ (if s.locked then 1 else 0)

-- The lock is given out only when nobody has it, and then it is held; otherwise it is as it was.
acquire-ok :
    (root : Text) (io : LockIo) (b c : Bool)
    → acquire root io b ≡ (ok tt, c)
    → (b ≡ false) × (c ≡ true)
unfolding acquire
acquire-ok root io b c h = go io.creates io.opens_file io.asks b h
  where
    go :
        (x y z b : Bool)
        → ◌≡◌ {A = Result LockError (Unit {0}) × Bool}
            (if not x
              then (err (unavailable root), b)
              else if not y
              then (err (unavailable root), b)
              else if not z
              then (err (unavailable root), b)
              else if b
              then (err (busy root), true)
              else (ok tt, true))
            (ok tt, c)
        → (b ≡ false) × (c ≡ true)
    go false y z b h = cc
    go true false z b h = cc
    go true true false b h = cc
    go true true true true h = cc
    go true true true false h = (refl, sym (ap (λ r. r.1) h))

acquire-err :
    (root : Text) (io : LockIo) (e : LockError) (b c : Bool)
    → acquire root io b ≡ (err e, c)
    → c ≡ b
unfolding acquire
acquire-err root io e b c h = go io.creates io.opens_file io.asks b h
  where
    go :
        (x y z b : Bool)
        → ◌≡◌ {A = Result LockError (Unit {0}) × Bool}
            (if not x
              then (err (unavailable root), b)
              else if not y
              then (err (unavailable root), b)
              else if not z
              then (err (unavailable root), b)
              else if b
              then (err (busy root), true)
              else (ok tt, true))
            (err e, c)
        → c ≡ b
    go false y z b h = sym (ap (λ r. r.1) h)
    go true false z b h = sym (ap (λ r. r.1) h)
    go true true false b h = sym (ap (λ r. r.1) h)
    go true true true true h = sym (ap (λ r. r.1) h)
    go true true true false h = cc

without_only :
    (q : ℕ) (w : List ℕ) (b : Bool)
    → length w ≡ (if b then 1 else 0)
    → holds q w ≡ true
    → length (without q w) ≡ 0
without_only q [] b n h = cc
without_only q (x ∷ []) b n h = elim (Bool-cases (x == q)) [
  | inl e ↦ rw e refl
  | inr e ↦ cc (rw e at h)
]
without_only q (x ∷ y ∷ w) true n h = omega arith
without_only q (x ∷ y ∷ w) false n h = omega arith

step-IsExclusive : {root : Text} (s t : Processes) → IsExclusive s → Steps root s t → IsExclusive t
step-IsExclusive {root = root} s t h (opens q io w b c a) =
    let (free, taken) = acquire-ok root io b c a in rw taken (ap suc (rw free at h))
step-IsExclusive {root = root} s t h (is_refused q io e w b c a) =
    rw (acquire-err root io e b c a) h
step-IsExclusive s t h (leaves q w b k) = without_only q w b h k

-- Whatever processes open the database, are refused, drop their handle or die, in whatever order, one process
-- holds the write role when the file is locked and none does when it is not.
pub reached-IsExclusive : (root : Text) (s : Processes) → Reaches root s → IsExclusive s
reached-IsExclusive root s starts = refl
reached-IsExclusive root _ (goes s t r step) =
    step-IsExclusive s t (reached-IsExclusive root s r) step

-- The operating system answers without an error.
abbrev pub faultless : LockIo
faultless = record { creates = true; opens_file = true; asks = true }

-- What a process that opens the database for writing is to be told, beside those that write, and whether
-- the file is locked then.
abbrev pub told : Text → List ℕ → Result LockError (Unit {0}) × Bool
told root [] = (ok tt, true)
told root (q ∷ w) = (err (busy root), true)

acquire-told :
    (root : Text) (w : List ℕ) (b : Bool)
    → length w ≡ (if b then 1 else 0)
    → acquire root faultless b ≡ told root w
unfolding acquire
acquire-told root [] true h = absurd (omega arith)
acquire-told root [] false h = refl
acquire-told root (q ∷ w) true h = refl
acquire-told root (q ∷ w) false h = absurd (omega arith)

-- Whatever has happened before, if the operating system answers without an error, a process that opens the
-- database for writing gets the write role and locks the file when no process has the role, and is told
-- that the database is busy when one has it.
pub acquire-reached :
    (root : Text) (s : Processes)
    → Reaches root s
    → acquire root faultless s.locked ≡ told root s.writers
acquire-reached root s reached =
    acquire-told root s.writers s.locked (reached-IsExclusive root s reached)
