-- ===== src/Corpus/RoundTrip.antt =====
-- A document written as a line is read back: crates/euledb-corpus/src/lib.rs.
use eule_db.Common.{
  ℕ, [], ◌∷◌, ◌++◌, All, false, ◌==◌, Bool-cases, if◌then◌else◌, some, ◌≡◌, refl, ap, ap₂, ◌∙◌,
  arith, inl, inr,
}
use eule_db.Common.Text.{Text}
use eule_db.Corpus.{
  Document, unescaped, unescape_field, onto_first, split_at_tabs, document_of, read_document,
}

-- A character as the corpus has it: the escape of a backslash, a tab and the ends of a line.
abbrev pub escape_char : ℕ → Text
escape_char c =
    if c == 92
    then 92 ∷ 92 ∷ []
    else if c == 9
    then 92 ∷ b't' ∷ []
    else if c == 10
    then 92 ∷ b'n' ∷ []
    else if c == 13
    then 92 ∷ b'r' ∷ []
    else c ∷ []

abbrev pub escape_field : Text → Text
escape_field [] = []
escape_field (c ∷ cs) = escape_char c ++ escape_field cs

-- The four fields, of which the last two are escaped.
abbrev pub line_of : Document → Text
line_of d =
    d.id ++ (9 ∷ (d.written_in ++ (9 ∷ (escape_field d.title ++ (9 ∷ escape_field d.body)))))

abbrev pub HasNoTab : Text → Type 0
HasNoTab = All (λ c. (c == 9) ≡ false)

unescape_plain :
    (c : ℕ) (cs : Text) → (c == 92) ≡ false → unescape_field (c ∷ cs) ≡ c ∷ unescape_field cs
unfolding unescape_field
unescape_plain c [] h = rw h refl
unescape_plain c (d ∷ cs) h = rw h refl

unescape_pair :
    (d : ℕ) (cs : Text) → unescape_field (92 ∷ d ∷ cs) ≡ unescaped d ++ unescape_field cs
unfolding unescape_field
unescape_pair d cs = refl

unescape-escape_char :
    (c : ℕ) (cs : Text) → unescape_field (escape_char c ++ cs) ≡ c ∷ unescape_field cs
unescape-escape_char c cs = elim (Bool-cases (c == 92)) [
  | inl e ↦
      let same : 92 ≡ c = ground arith in
      rw e (unescape_pair 92 cs ∙ ap (λ z. z ∷ unescape_field cs) same)
  | inr e ↦ elim (Bool-cases (c == 9)) [
    | inl f ↦
        let same : 9 ≡ c = ground arith in
        rw (e, f) (unescape_pair b't' cs ∙ ap (λ z. z ∷ unescape_field cs) same)
    | inr f ↦ elim (Bool-cases (c == 10)) [
      | inl g ↦
          let same : 10 ≡ c = ground arith in
          rw (e, f, g) (unescape_pair b'n' cs ∙ ap (λ z. z ∷ unescape_field cs) same)
      | inr g ↦ elim (Bool-cases (c == 13)) [
        | inl k ↦
            let same : 13 ≡ c = ground arith in
            rw (e, f, g, k) (unescape_pair b'r' cs ∙ ap (λ z. z ∷ unescape_field cs) same)
        | inr k ↦ rw (e, f, g, k) (unescape_plain c cs e)
      ]
    ]
  ]
]

unescape_nil : unescape_field [] ≡ []
unfolding unescape_field
unescape_nil = refl

unescape_field-escape_field : (t : Text) → unescape_field (escape_field t) ≡ t
unescape_field-escape_field [] = unescape_nil
unescape_field-escape_field (c ∷ cs) =
    unescape-escape_char c (escape_field cs) ∙ ap (λ z. c ∷ z) (unescape_field-escape_field cs)

escape_char-HasNoTab : (c : ℕ) (cs : Text) → HasNoTab cs → HasNoTab (escape_char c ++ cs)
escape_char-HasNoTab c cs h = elim (Bool-cases (c == 92)) [
  | inl e ↦ rw e (refl, (refl, h))
  | inr e ↦ elim (Bool-cases (c == 9)) [
    | inl f ↦ rw (e, f) (refl, (refl, h))
    | inr f ↦ elim (Bool-cases (c == 10)) [
      | inl g ↦ rw (e, f, g) (refl, (refl, h))
      | inr g ↦ elim (Bool-cases (c == 13)) [
        | inl k ↦ rw (e, f, g, k) (refl, (refl, h))
        | inr k ↦ rw (e, f, g, k) (f, h)
      ]
    ]
  ]
]

escape_field-HasNoTab : (t : Text) → HasNoTab (escape_field t)
escape_field-HasNoTab [] = tt
escape_field-HasNoTab (c ∷ cs) = escape_char-HasNoTab c (escape_field cs) (escape_field-HasNoTab cs)

split_at_tabs-plain :
    (c : ℕ) (cs : Text)
    → (c == 9) ≡ false
    → split_at_tabs (c ∷ cs) ≡ onto_first c (split_at_tabs cs)
unfolding split_at_tabs
split_at_tabs-plain c cs h = rw h refl

split_tab : (rest : Text) → split_at_tabs (9 ∷ rest) ≡ [] ∷ split_at_tabs rest
unfolding split_at_tabs
split_tab rest = refl

split_nil : split_at_tabs [] ≡ [] ∷ []
unfolding split_at_tabs
split_nil = refl

split_at_tabs-append :
    (field rest : Text)
    → HasNoTab field
    → split_at_tabs (field ++ (9 ∷ rest)) ≡ field ∷ split_at_tabs rest
split_at_tabs-append [] rest h = split_tab rest
split_at_tabs-append (c ∷ cs) rest (h, hs) =
    split_at_tabs-plain c (cs ++ (9 ∷ rest)) h ∙ ap (onto_first c) (split_at_tabs-append cs rest hs)

split_at_tabs_last : (field : Text) → HasNoTab field → split_at_tabs field ≡ field ∷ []
split_at_tabs_last [] h = split_nil
split_at_tabs_last (c ∷ cs) (h, hs) =
    split_at_tabs-plain c cs h ∙ ap (onto_first c) (split_at_tabs_last cs hs)

-- A document whose id and language have no tab, written as a line with its title and its text escaped, is
-- read back from the line as it was, whatever its title and its text are.
pub read_document-line_of :
    (d : Document) → HasNoTab d.id → HasNoTab d.written_in → read_document (line_of d) ≡ some d
unfolding read_document
read_document-line_of d h k =
    let fields : split_at_tabs (line_of d)
        ≡ d.id ∷ d.written_in ∷ escape_field d.title ∷ escape_field d.body ∷ [] =
      split_at_tabs-append d.id _ h
      ∙ ap (λ z. d.id ∷ z)
          (split_at_tabs-append d.written_in _ k
            ∙ ap (λ z. d.written_in ∷ z)
                (split_at_tabs-append (escape_field d.title) _ (escape_field-HasNoTab d.title)
                  ∙ ap (λ z. escape_field d.title ∷ z)
                      (split_at_tabs_last _ (escape_field-HasNoTab d.body)))) in
    ap document_of fields
    ∙ ap₂ (λ x y. some (record { id = d.id; written_in = d.written_in; title = x; body = y }))
        (unescape_field-escape_field d.title) (unescape_field-escape_field d.body)
