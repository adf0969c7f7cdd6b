-- ===== src/Audit/Line/Escape.antt =====
-- The two texts of a record, escaped and read back: crates/euledb-storage/src/audit.rs.
use eule_db.Common.{
  ℕ, [], ◌∷◌, ◌++◌, ◌≡◌, refl, ap, ap₂, sym, ◌∙◌, false, Bool-cases, inl, inr, ◌==◌, ==_iff,
}
use eule_db.Common.Text.{Text}
use eule_db.Audit.Line.{escape, escape_char, unescape, unescape_pair, backslash, tab, newline}

-- A character that is no backslash stands for itself.
unescape_plain :
    (c : ℕ) (rest : Text) → (c == backslash) ≡ false → unescape (c ∷ rest) ≡ c ∷ unescape rest
unfolding unescape
unescape_plain c [] h = rw h refl
unescape_plain c (d ∷ rest) h = rw (h, unescape) refl

-- A backslash stands for a pair with the character behind it.
unescape_escaped :
    (d : ℕ) (rest : Text) → unescape (backslash ∷ d ∷ rest) ≡ unescape_pair d ++ unescape rest
unfolding unescape
unescape_escaped d rest = refl

-- What was escaped is read back as it was, whatever the text.
pub unescape-escape : (text : Text) → unescape (escape text) ≡ text
unfolding escape escape_char unescape_pair
unescape-escape [] = unfold unescape in refl
unescape-escape (c ∷ cs) =
    let ih = unescape-escape cs in
    elim (Bool-cases (c == backslash)) [
      | inl e ↦ rw e (
          unescape_escaped backslash (escape cs)
          ∙ ap₂ (λ x y. x ∷ y) (sym ((==_iff c backslash).0 e)) ih)
      | inr e ↦ elim (Bool-cases (c == tab)) [
        | inl f ↦
            rw (e, f)
              (unescape_escaped b't' (escape cs) ∙ ap₂ (λ x y. x ∷ y) (sym ((==_iff c tab).0 f)) ih)
        | inr f ↦ elim (Bool-cases (c == newline)) [
          | inl g ↦
              rw (e, f, g)
                (unescape_escaped b'n' (escape cs)
                  ∙ ap₂ (λ x y. x ∷ y) (sym ((==_iff c newline).0 g)) ih)
          | inr g ↦ rw (e, f, g) (unescape_plain c (escape cs) e ∙ ap (λ t. c ∷ t) ih)
        ]
      ]
    ]
