-- ===== src/Audit/Line/Fields.antt =====
-- A record's line, split at its tabs again: crates/euledb-storage/src/audit.rs.
use eule_db.Common.{
  ℕ, zero, suc, ◌+◌, ◌/◌, ◌%◌, ◌^◌, ◌<◌, ◌≡◌, refl, arith, [], ◌∷◌, ◌++◌, length, Bytes, All,
}
use eule_db.Common.{false, ok, ◌==◌, ltb, Bool-cases, inl, inr}
use mathlib.Core.List.{append_assoc}
use eule_db.Common.Text.{Text}
use eule_db.Audit.Line.{
  AuditRecord, to_line, from_line, split_tabs, next_field, decimal, decimal_loop, hex, hex_digit,
  escape, escape_char, tab, newline, backslash,
}
use eule_db.Audit.Line.Hex.{unhex-hex}
use eule_db.Audit.Line.Decimal.{parse_u64-decimal}
use eule_db.Audit.Line.Escape.{unescape-escape}

-- A text without tabs.
abbrev pub NoTab : Text → Type 0
NoTab text = All (λ (c : ℕ). (c == tab) ≡ false) text

All-append : (xs ys : Text) → NoTab xs → NoTab ys → NoTab (xs ++ ys)
All-append [] ys h k = k
All-append (x ∷ xs) ys (hx, h) k = (hx, All-append xs ys h k)

NoTab-decimal_loop : (fuel n : ℕ) → NoTab (decimal_loop fuel n)
unfolding decimal_loop
NoTab-decimal_loop zero n = tt
NoTab-decimal_loop (suc fuel) n = elim (Bool-cases (ltb n 10)) [
  | inl e ↦ rw e (ground arith, tt)
  | inr e ↦ rw e (
      All-append (decimal_loop fuel (n / 10)) ((48 + n % 10) ∷ [])
        (NoTab-decimal_loop fuel (n / 10)) (ground arith, tt))
]

NoTab-decimal : (n : ℕ) → NoTab (decimal n)
unfolding decimal
NoTab-decimal n = NoTab-decimal_loop 20 n

hex_digit-no_tab : (d : ℕ) → (hex_digit d == tab) ≡ false
unfolding hex_digit
hex_digit-no_tab d = ground arith

NoTab-hex : (bytes : Bytes) → NoTab (hex bytes)
unfolding hex
NoTab-hex [] = tt
NoTab-hex (b ∷ bytes) = (hex_digit-no_tab (b / 16), (hex_digit-no_tab (b % 16), NoTab-hex bytes))

NoTab-escape_char : (c : ℕ) → NoTab (escape_char c)
unfolding escape_char
NoTab-escape_char c = elim (Bool-cases (c == backslash)) [
  | inl e ↦ rw e (refl, (refl, tt))
  | inr e ↦ elim (Bool-cases (c == tab)) [
    | inl f ↦ rw (e, f) (refl, (refl, tt))
    | inr f ↦ elim (Bool-cases (c == newline)) [
      | inl g ↦ rw (e, f, g) (refl, (refl, tt))
      | inr g ↦ rw (e, f, g) (f, tt)
    ]
  ]
]

NoTab-escape : (text : Text) → NoTab (escape text)
unfolding escape
NoTab-escape [] = tt
NoTab-escape (c ∷ cs) =
    All-append (escape_char c) (escape cs) (NoTab-escape_char c) (NoTab-escape cs)

split_tabs_last : (text : Text) → NoTab text → split_tabs text ≡ text ∷ []
unfolding split_tabs
split_tabs_last [] h = refl
split_tabs_last (c ∷ cs) (hc, h) = rw (hc, split_tabs_last cs h, split_tabs) refl

split_tabs_field :
    (text rest : Text) → NoTab text → split_tabs (text ++ (tab ∷ rest)) ≡ text ∷ split_tabs rest
unfolding split_tabs
split_tabs_field [] rest h = refl
split_tabs_field (c ∷ cs) rest (hc, h) = rw (hc, split_tabs_field cs rest h, split_tabs) refl

-- A record's line without its newline.
abbrev pub fields_of : AuditRecord → Text
fields_of r =
    decimal r.sequence
    ++ (tab
        ∷ (hex r.previous
            ++ (tab
                ∷ (hex r.hash
                    ++ (tab
                        ∷ (decimal r.rows ++ (tab ∷ (escape r.query ++ (tab ∷ escape r.plan)))))))))

-- The numbers of a record have 64 bits, and its hashes 32 bytes.
pub record IsRecord (r : AuditRecord) : Type 0 where
  pub sequence_small : r.sequence < 2 ^ 64
  pub rows_small : r.rows < 2 ^ 64
  pub previous_bytes : All (λ (b : ℕ). b < 256) r.previous
  pub previous_length : length r.previous ≡ 32
  pub hash_bytes : All (λ (b : ℕ). b < 256) r.hash
  pub hash_length : length r.hash ≡ 32

split_tabs-fields_of :
    (r : AuditRecord)
    → split_tabs (fields_of r)
      ≡ decimal r.sequence
        ∷ hex r.previous
        ∷ hex r.hash
        ∷ decimal r.rows
        ∷ escape r.query
        ∷ escape r.plan
        ∷ []
split_tabs-fields_of r =
    rw
      (
        split_tabs_field (decimal r.sequence)
            (hex r.previous
              ++ (tab
                  ∷ (hex r.hash
                      ++ (tab
                          ∷ (decimal r.rows
                              ++ (tab ∷ (escape r.query ++ (tab ∷ escape r.plan))))))))
            (NoTab-decimal r.sequence),
        split_tabs_field (hex r.previous)
            (hex r.hash
              ++ (tab ∷ (decimal r.rows ++ (tab ∷ (escape r.query ++ (tab ∷ escape r.plan))))))
            (NoTab-hex r.previous),
        split_tabs_field (hex r.hash)
            (decimal r.rows ++ (tab ∷ (escape r.query ++ (tab ∷ escape r.plan))))
            (NoTab-hex r.hash),
        split_tabs_field (decimal r.rows) (escape r.query ++ (tab ∷ escape r.plan))
            (NoTab-decimal r.rows),
        split_tabs_field (escape r.query) (escape r.plan) (NoTab-escape r.query),
        split_tabs_last (escape r.plan) (NoTab-escape r.plan),
      )
      refl

to_line-fields_of : (r : AuditRecord) → to_line r ≡ fields_of r ++ (newline ∷ [])
unfolding to_line
to_line-fields_of r = simp append_assoc

-- Every record is read back from its line, whatever its texts hold, if its numbers have 64 bits and its
-- hashes 32 bytes. The line is what `to_line` writes, without the newline at its end.
pub from_line-to_line :
    (r : AuditRecord)
    → IsRecord r
    → (to_line r ≡ fields_of r ++ (newline ∷ [])) × (from_line (fields_of r) ≡ ok r)
unfolding from_line next_field
from_line-to_line r h = (
  to_line-fields_of r,
  rw
      (
        split_tabs-fields_of r,
        parse_u64-decimal r.sequence h.sequence_small,
        unhex-hex r.previous h.previous_bytes h.previous_length,
        unhex-hex r.hash h.hash_bytes h.hash_length,
        parse_u64-decimal r.rows h.rows_small,
        unescape-escape r.query,
        unescape-escape r.plan,
      )
      refl,
)
