-- ===== src/Embed/Chunks.antt =====
-- How a text is cut into chunks of tokens: crates/euledb-embed/src/lib.rs.
use eule_db.Common.{ℕ, zero, suc, ◌+◌, ◌-◌, List, [], ◌∷◌, length, Bool, true, false, ◌||◌, ◌&&◌}
use eule_db.Common.{ltb, leb, ◌==◌, if◌then◌else◌, Option, some, none, Result, ok, ◌>>=◌}
use eule_db.Common.Text.{Text, utf8_char}
use eule_db.Embed.{token_limit, passage_prefix, Encoding, Model, EmbedError, or_tokenizer_failed}

-- `char::is_whitespace`
unfoldable pub is_whitespace : ℕ → Bool
is_whitespace c =
    leb 9 c && leb c 13
    || (c == 0x20
        || (c == 0x85
            || (c == 0xa0
                || (c == 0x1680
                    || (leb 0x2000 c && leb c 0x200a
                        || (c == 0x2028
                            || (c == 0x2029 || (c == 0x202f || (c == 0x205f || c == 0x3000)))))))))

-- `text.trim().is_empty()`
unfoldable pub is_blank : Text → Bool
unfolding is_whitespace
is_blank [] = true
is_blank (c ∷ cs) = is_whitespace c && is_blank cs

-- The text before a byte and from it on, where a character begins there.
abbrev pub before_rest : ℕ → Option (Text × Text) → Option (Text × Text)
before_rest c none = none
before_rest c (some (front, back)) = some (c ∷ front, back)

unfoldable pub split_at_byte : ℕ → Text → Option (Text × Text)
unfolding utf8_char
split_at_byte zero cs = some ([], cs)
split_at_byte (suc n) [] = none
split_at_byte (suc n) (c ∷ cs) =
    let rest = split_at_byte (suc n - length (utf8_char c)) cs in
    if leb (length (utf8_char c)) (suc n) then before_rest c rest else none

abbrev pub piece_of : ℕ → Option (Text × Text) → Option Text
piece_of size none = none
piece_of size (some (front, back)) = front_of (split_at_byte size back)
  where
    front_of : Option (Text × Text) → Option Text
    front_of none = none
    front_of (some (piece, rest)) = some piece

-- `str::get` of a range of bytes
unfoldable pub get_range : Text → ℕ → ℕ → Option Text
unfolding split_at_byte
get_range text start end =
    let piece = piece_of (end - start) (split_at_byte start text) in
    if ltb end start then none else piece

-- A piece that is not blank is a chunk.
abbrev pub push_piece : Option Text → List Text → List Text
push_piece none rest = rest
push_piece (some piece) rest = if is_blank piece then rest else piece ∷ rest

-- The loop of `chunks`, from the start of a piece and the tokens that it has.
unfoldable pub chunk_loop : Text → ℕ → List (ℕ × ℕ) → ℕ → ℕ → List Text
unfolding get_range is_blank
chunk_loop text budget [] start taken = []
chunk_loop text budget ((begin, end) ∷ []) start taken = push_piece (get_range text start end) []
chunk_loop text budget ((begin, end) ∷ next ∷ rest) start taken =
    let cut = chunk_loop text budget (next ∷ rest) end 0 in
    let kept = chunk_loop text budget (next ∷ rest) start (suc taken) in
    if leb budget (suc taken) then push_piece (get_range text start end) cut else kept

module _ (m : Model) where
  abbrev pub encode_plain : Text → Result EmbedError Encoding
  encode_plain text = or_tokenizer_failed (m.encode text false)

  unfoldable pub token_count : Text → Result EmbedError ℕ
  token_count text = do encoded ← encode_plain text; ok (length encoded.ids)

  unfoldable pub chunks_of : Text → Result EmbedError (List Text)
  unfolding token_count chunk_loop
  chunks_of text = do
    prefixed ← token_count passage_prefix
    encoded ← encode_plain text
    let budget = token_limit - (prefixed + 2) in
        if leb (length encoded.ids) budget
        then ok (text ∷ [])
        else ok (chunk_loop text budget encoded.offsets 0 0)
