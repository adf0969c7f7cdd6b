-- ===== src/Audit/Line/Hex.antt =====
-- A hash in hexadecimal, and read back: crates/euledb-storage/src/audit.rs.
use eule_db.Common.{
  ℕ, ◌*◌, ◌/◌, ◌%◌, ◌<◌, ◌≡◌, refl, ap, arith, [], ◌∷◌, length, Bytes, All, true, false, some, ◌==◌,
  ltb,
}
use eule_db.Common.Text.{Text, utf8, utf8_char}
use eule_db.Audit.Line.{hex, hex_digit, digit_value, pair_value, unhex_pairs, unhex}

digit_value-hex_digit : (d : ℕ) → d < 16 → digit_value (hex_digit d) ≡ some d
unfolding digit_value hex_digit
digit_value-hex_digit d h = ground arith

hex_digit-plain : (d : ℕ) → d < 16 → ((hex_digit d == 43) ≡ false) × (ltb (hex_digit d) 128 ≡ true)
unfolding hex_digit
hex_digit-plain d h = (ground arith, ground arith)

pair_value-hex : (b : ℕ) → b < 256 → pair_value (hex_digit (b / 16)) (hex_digit (b % 16)) ≡ some b
unfolding pair_value
pair_value-hex b h =
    rw
      (
        (hex_digit-plain (b / 16) (omega arith)).0,
        digit_value-hex_digit (b / 16) (omega arith),
        digit_value-hex_digit (b % 16) (omega arith),
      )
      (ap some (omega arith))

unhex_pairs_step :
    (a b x : ℕ) (rest : Text) (xs : Bytes)
    → pair_value a b ≡ some x
    → unhex_pairs rest ≡ some xs
    → unhex_pairs (a ∷ b ∷ rest) ≡ some (x ∷ xs)
unfolding unhex_pairs
unhex_pairs_step a b x rest xs h t = rw (h, t, unhex_pairs) refl

unhex_pairs-hex :
    (bytes : Bytes) → All (λ (b : ℕ). b < 256) bytes → unhex_pairs (hex bytes) ≡ some bytes
unfolding unhex_pairs hex
unhex_pairs-hex [] h = refl
unhex_pairs-hex (b ∷ bytes) (hb, h) =
    unhex_pairs_step (hex_digit (b / 16)) (hex_digit (b % 16)) b (hex bytes) bytes
      (pair_value-hex b hb) (unhex_pairs-hex bytes h)

length-utf8-hex :
    (bytes : Bytes) → All (λ (b : ℕ). b < 256) bytes → length (utf8 (hex bytes)) ≡ length bytes * 2
unfolding utf8 utf8_char hex
length-utf8-hex [] h = refl
length-utf8-hex (b ∷ bytes) (hb, h) =
    rw ((hex_digit-plain (b / 16) (omega arith)).1, (hex_digit-plain (b % 16) (omega arith)).1)
      (omega (arith, length-utf8-hex bytes h))

-- A hash of 32 bytes that is written in hexadecimal is read back.
pub unhex-hex :
    (bytes : Bytes)
    → All (λ (b : ℕ). b < 256) bytes
    → length bytes ≡ 32
    → unhex (hex bytes) ≡ some bytes
unfolding unhex
unhex-hex bytes h size = rw (length-utf8-hex bytes h, size, unhex_pairs-hex bytes h) refl
