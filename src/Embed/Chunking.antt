-- ===== src/Embed/Chunking.antt =====
-- How a text is cut into chunks: crates/euledb-embed/src/lib.rs.
use eule_db.Common.{
  ℕ, zero, suc, ◌+◌, max, ◌<◌, List, [], ◌∷◌, map, take, drop, leb, true, false, le→leb, subst, ◌≡◌,
  refl, sym, ap, ◌∙◌, arith, Bool, not, ◌||◌, Option, some, none, if◌then◌else◌, Bool-cases, inl,
  inr,
}
use eule_db.Common.Chunks.{chunks, chunks_nil, chunks_step}
use eule_db.Common.Text.{Text}
use eule_db.Embed.Chunks.{chunk_loop, push_piece, get_range, is_blank, is_whitespace}

-- Where the last token of a group ends.
abbrev pub last_end : List (ℕ × ℕ) → ℕ
last_end [] = 0
last_end (o ∷ []) = o.1
last_end (o ∷ next ∷ rest) = last_end (next ∷ rest)

-- The pieces of a text between one cut and the next, as the loop pushes them.
abbrev pieces : Text → ℕ → List ℕ → List Text
pieces text start [] = []
pieces text start (cut ∷ cuts) = push_piece (get_range text start cut) (pieces text cut cuts)

-- The cuts after every so many tokens.
abbrev pub cuts_of : ℕ → List (ℕ × ℕ) → List ℕ
cuts_of size offsets = map last_end (chunks size offsets)

chunk_loop_cut :
    (text : Text) (budget : ℕ) (o next : ℕ × ℕ) (rest : List (ℕ × ℕ)) (start taken : ℕ)
    → leb budget (suc taken) ≡ true
    → chunk_loop text budget (o ∷ next ∷ rest) start taken
      ≡ push_piece (get_range text start o.1) (chunk_loop text budget (next ∷ rest) o.1 0)
unfolding chunk_loop
chunk_loop_cut text budget o next rest start taken h = rw h refl

chunk_loop_keep :
    (text : Text) (budget : ℕ) (o next : ℕ × ℕ) (rest : List (ℕ × ℕ)) (start taken : ℕ)
    → leb budget (suc taken) ≡ false
    → chunk_loop text budget (o ∷ next ∷ rest) start taken
      ≡ chunk_loop text budget (next ∷ rest) start (suc taken)
unfolding chunk_loop
chunk_loop_keep text budget o next rest start taken h = rw h refl

room_left : (a b : ℕ) → b < a → leb a b ≡ false
room_left a b h = ground arith

-- The loop, with room for so many tokens more.
chunk_loop-room :
    (text : Text) (budget b k : ℕ) (o : ℕ × ℕ) (rest : List (ℕ × ℕ)) (start taken : ℕ)
    → b ≡ max budget 1
    → taken + suc k ≡ b
    → chunk_loop text budget (o ∷ rest) start taken
      ≡ push_piece
          (get_range text start (last_end (take (suc k) (o ∷ rest))))
          (pieces text (last_end (take (suc k) (o ∷ rest))) (cuts_of b (drop (suc k) (o ∷ rest))))
unfolding chunk_loop
chunk_loop-room text budget b zero o [] start taken hb h = rw (chunks_nil b) refl
chunk_loop-room text budget b (suc k) o [] start taken hb h = rw (chunks_nil b) refl
chunk_loop-room text budget b zero o (next ∷ rest) start taken hb h =
    chunk_loop_cut text budget o next rest start taken (le→leb _ _ (omega arith))
    ∙ ap (push_piece (get_range text start o.1)) (
        subst
          (λ z.
            chunk_loop text budget (next ∷ rest) o.1 0
            ≡ push_piece (get_range text o.1 (last_end (take z (next ∷ rest))))
                (pieces text (last_end (take z (next ∷ rest))) (cuts_of b (drop z (next ∷ rest)))))
          (let full : suc taken ≡ b = omega arith in full)
          (chunk_loop-room text budget b taken next rest o.1 0 hb (omega arith))
        ∙ ap (λ groups. pieces text o.1 (map last_end groups))
            (sym (chunks_step b (next ∷ rest) (omega arith) (omega arith))))
chunk_loop-room text budget b (suc k) o (next ∷ rest) start taken hb h =
    chunk_loop_keep text budget o next rest start taken (room_left budget (suc taken) (omega arith))
    ∙ chunk_loop-room text budget b k next rest start (suc taken) hb (omega arith)

-- The loop pushes the pieces between the cuts after every so many tokens as the budget has.
chunk_loop-pushed :
    (text : Text) (budget : ℕ) (offsets : List (ℕ × ℕ))
    → chunk_loop text budget offsets 0 0 ≡ pieces text 0 (cuts_of (max budget 1) offsets)
unfolding chunk_loop
chunk_loop-pushed text budget [] = rw (chunks_nil (max budget 1)) refl
chunk_loop-pushed text budget (o ∷ rest) = go (max budget 1) refl
  where
    go :
        (b : ℕ)
        → b ≡ max budget 1
        → chunk_loop text budget (o ∷ rest) 0 0 ≡ pieces text 0 (cuts_of b (o ∷ rest))
    go zero e = absurd (omega arith)
    go (suc k) e =
        chunk_loop-room text budget (suc k) k o rest 0 0 e (omega arith)
        ∙ ap (λ groups. pieces text 0 (map last_end groups))
            (sym (chunks_step (suc k) (o ∷ rest) (omega arith) (omega arith)))

-- A character of the text is no white space.
abbrev pub has_ink : Text → Bool
has_ink [] = false
has_ink (c ∷ cs) = not (is_whitespace c) || has_ink cs

-- What a text has between one cut and the next.
abbrev pub slices : Text → ℕ → List ℕ → List (Option Text)
slices text start [] = []
slices text start (cut ∷ cuts) = get_range text start cut ∷ slices text cut cuts

-- Those that are there, and hold more than white space.
abbrev pub inked : List (Option Text) → List Text
inked [] = []
inked (none ∷ rest) = inked rest
inked (some piece ∷ rest) = if has_ink piece then piece ∷ inked rest else inked rest

is_blank-has_ink : (t : Text) → is_blank t ≡ not (has_ink t)
unfolding is_blank
is_blank-has_ink [] = refl
is_blank-has_ink (c ∷ cs) = elim (Bool-cases (is_whitespace c)) [
  | inl e ↦ rw e (is_blank-has_ink cs)
  | inr e ↦ rw e refl
]

push_piece-inked :
    (o : Option Text) (rest : List (Option Text)) → push_piece o (inked rest) ≡ inked (o ∷ rest)
push_piece-inked none rest = refl
push_piece-inked (some piece) rest = elim (Bool-cases (has_ink piece)) [
  | inl e ↦ rw (is_blank-has_ink piece, e) refl
  | inr e ↦ rw (is_blank-has_ink piece, e) refl
]

pieces-inked :
    (text : Text) (start : ℕ) (cuts : List ℕ)
    → pieces text start cuts ≡ inked (slices text start cuts)
pieces-inked text start [] = refl
pieces-inked text start (cut ∷ cuts) =
    ap (push_piece (get_range text start cut)) (pieces-inked text cut cuts)
    ∙ push_piece-inked (get_range text start cut) (slices text cut cuts)

-- Cutting a text is cutting it after every so many tokens as the budget has, one at least, with a shorter
-- piece at the end, and leaving out the pieces that are all white space or that do not stand between
-- characters.
pub chunk_loop-slices :
    (text : Text) (budget : ℕ) (offsets : List (ℕ × ℕ))
    → chunk_loop text budget offsets 0 0 ≡ inked (slices text 0 (cuts_of (max budget 1) offsets))
chunk_loop-slices text budget offsets =
    chunk_loop-pushed text budget offsets ∙ pieces-inked text 0 (cuts_of (max budget 1) offsets)
