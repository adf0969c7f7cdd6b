-- ===== src/Audit/Line/Decimal.antt =====
-- A number in decimal, and read back: crates/euledb-storage/src/audit.rs.
use eule_db.Common.{
  ℕ, zero, suc, ◌+◌, ◌-◌, ◌*◌, ◌/◌, ◌%◌, ◌^◌, ◌<◌, ◌≡◌, ap, ◌∙◌, arith, [], ◌∷◌, ◌++◌, length,
  length-append,
}
use eule_db.Common.{true, false, ◌&&◌, some, ◌==◌, ltb, leb, ltb→lt, lt→ltb, Bool-cases, inl, inr}
use eule_db.Common.Text.{Text}
use eule_db.Audit.Line.{decimal, decimal_loop, parse_digits, parse_u64}

-- What reading one more digit says.
parse_digits-cons :
    (acc c : ℕ) (cs : Text) {v : ℕ}
    → parse_digits acc (c ∷ cs) ≡ some v
    → ((leb 48 c && leb c 57) ≡ true)
      × (ltb (acc * 10 + (c - 48)) (2 ^ 64) ≡ true)
      × (parse_digits (acc * 10 + (c - 48)) cs ≡ some v)
unfolding parse_digits
parse_digits-cons acc c cs h = elim (Bool-cases (leb 48 c && leb c 57)) [
  | inl e ↦ elim (Bool-cases (ltb (acc * 10 + (c - 48)) (2 ^ 64))) [
    | inl f ↦ (e, f, rw (e, f) at h)
    | inr f ↦ cc (rw (e, f) at h)
  ]
  | inr e ↦ cc (rw e at h)
]

parse_digits_step :
    (acc c : ℕ) (cs : Text) {v : ℕ}
    → (leb 48 c && leb c 57) ≡ true
    → ltb (acc * 10 + (c - 48)) (2 ^ 64) ≡ true
    → parse_digits (acc * 10 + (c - 48)) cs ≡ some v
    → parse_digits acc (c ∷ cs) ≡ some v
unfolding parse_digits
parse_digits_step acc c cs e f h = rw (e, f) h

digit_test : (d : ℕ) → d < 10 → (leb 48 (48 + d) && leb (48 + d) 57) ≡ true
digit_test d h = ground arith

-- A digit behind those that were read.
parse_digits-append :
    (acc d : ℕ) (cs : Text) {v : ℕ}
    → parse_digits acc cs ≡ some v
    → d < 10
    → v * 10 + d < 2 ^ 64
    → parse_digits acc (cs ++ ((48 + d) ∷ [])) ≡ some (v * 10 + d)
parse_digits-append acc d [] {v} h hd small =
    let same : acc ≡ v = unfold parse_digits in cc h in
    parse_digits_step acc (48 + d) [] (digit_test d hd)
      (lt→ltb (acc * 10 + (48 + d - 48)) (2 ^ 64) (omega arith))
      (unfold parse_digits in ap some (omega arith))
parse_digits-append acc d (c ∷ cs) h hd small =
    let (e, f, t) = parse_digits-cons acc c cs h in
    parse_digits_step acc c (cs ++ ((48 + d) ∷ [])) e f
      (parse_digits-append (acc * 10 + (c - 48)) d cs t hd small)

-- Ten to the power of the fuel.
abbrev ten_to : ℕ → ℕ
ten_to zero = 1
ten_to (suc k) = 10 * ten_to k

parse_digits-decimal_loop :
    (fuel n : ℕ) → n < ten_to fuel → n < 2 ^ 64 → parse_digits 0 (decimal_loop fuel n) ≡ some n
unfolding decimal_loop
parse_digits-decimal_loop zero n h small = unfold parse_digits in ap some (omega arith)
parse_digits-decimal_loop (suc fuel) n h small = elim (Bool-cases (ltb n 10)) [
  | inl e ↦ rw e (
      parse_digits_step 0 (48 + n) [] (digit_test n (ltb→lt n 10 e))
        (lt→ltb (0 * 10 + (48 + n - 48)) (2 ^ 64) (omega arith))
        (unfold parse_digits in ap some (omega arith)))
  | inr e ↦
      let ih = parse_digits-decimal_loop fuel (n / 10) (omega arith) (omega arith) in
      rw e (
        parse_digits-append 0 (n % 10) (decimal_loop fuel (n / 10)) ih (omega arith) (omega arith)
        ∙ ap some (omega arith))
]

length-decimal_loop : (fuel n : ℕ) → 0 < length (decimal_loop (suc fuel) n)
unfolding decimal_loop
length-decimal_loop fuel n = elim (Bool-cases (ltb n 10)) [
  | inl e ↦ rw e (omega arith)
  | inr e ↦ rw e (omega (arith, length-append (decimal_loop fuel (n / 10)) ((48 + n % 10) ∷ [])))
]

-- A text that starts with a digit has no sign.
parse_u64-digits :
    (text : Text) {v : ℕ} → 0 < length text → parse_digits 0 text ≡ some v → parse_u64 text ≡ some v
unfolding parse_u64
parse_u64-digits [] pos h = absurd (omega arith)
parse_u64-digits (c ∷ []) pos h = h
parse_u64-digits (c ∷ d ∷ cs) pos h =
    let (e, f, t) = parse_digits-cons 0 c (d ∷ cs) h in rw (no_sign c e) h
  where
    no_sign : (c : ℕ) → (leb 48 c && leb c 57) ≡ true → (c == 43) ≡ false
    no_sign c e = ground arith

-- Every 64-bit number that is written in decimal is read back.
pub parse_u64-decimal : (n : ℕ) → n < 2 ^ 64 → parse_u64 (decimal n) ≡ some n
unfolding decimal
parse_u64-decimal n h =
    parse_u64-digits (decimal_loop 20 n) (length-decimal_loop 19 n)
      (parse_digits-decimal_loop 20 n (omega arith) h)
