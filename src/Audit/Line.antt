-- ===== src/Audit/Line.antt =====
-- crates/euledb-storage/src/audit.rs: a record, and the line that it is written as.
pub mod Escape
pub mod Hex
pub mod Decimal
pub mod Fields
use Prim.Native.String.{String}
use eule_db.Common.{ℕ, zero, suc, ◌+◌, ◌-◌, ◌*◌, ◌/◌, ◌%◌, ◌^◌, List, [], ◌∷◌, ◌++◌, length, Bytes}
use eule_db.Common.{true, false, ◌&&◌, Option, none, some, Result, ok, err, ok_or, ◌>>=◌}
use eule_db.Common.{ltb, leb, ◌==◌, if◌then◌else◌}
use eule_db.Common.Text.{Text, utf8}

pub record AuditRecord : Type 0 where
  pub sequence : ℕ
  pub previous : Bytes
  pub query : Text
  pub plan : Text
  pub rows : ℕ
  pub hash : Bytes

-- `unavailable` is a failure of the file system, which the model does not interpret.
pub data AuditError : Type 0 where
  unavailable : AuditError
  broken_chain : ℕ → AuditError
  nothing_to_reanchor : AuditError
  malformed : String → AuditError

abbrev pub hash_len : ℕ
hash_len = 32

abbrev pub tab : ℕ
tab = 9

abbrev pub newline : ℕ
newline = 10

abbrev pub backslash : ℕ
backslash = 92

-- A number in decimal, as `format!("{}")` writes it; a `u64` has at most 20 digits.
unfoldable pub decimal_loop : ℕ → ℕ → Text
decimal_loop zero n = []
decimal_loop (suc fuel) n =
    let front = decimal_loop fuel (n / 10) in
    if ltb n 10 then (48 + n) ∷ [] else front ++ ((48 + n % 10) ∷ [])

unfoldable pub decimal : ℕ → Text
decimal n = decimal_loop 20 n

-- `str::parse::<u64>`: an optional plus sign and at least one digit, with no overflow.
unfoldable pub parse_digits : ℕ → Text → Option ℕ
parse_digits acc [] = some acc
parse_digits acc (c ∷ cs) =
    let value = acc * 10 + (c - 48) in
    let rest = parse_digits value cs in
    if leb 48 c && leb c 57 then if ltb value (2 ^ 64) then rest else none else none

unfoldable pub parse_u64 : Text → Option ℕ
unfolding parse_digits
parse_u64 [] = none
parse_u64 (c ∷ []) = parse_digits 0 (c ∷ [])
parse_u64 (c ∷ d ∷ cs) = if c == 43 then parse_digits 0 (d ∷ cs) else parse_digits 0 (c ∷ d ∷ cs)

-- The characters of `{byte:02x}`.
unfoldable pub hex_digit : ℕ → ℕ
hex_digit d = if ltb d 10 then 48 + d else 87 + d

unfoldable pub hex : Bytes → Text
hex [] = []
hex (b ∷ bs) = hex_digit (b / 16) ∷ hex_digit (b % 16) ∷ hex bs

unfoldable pub digit_value : ℕ → Option ℕ
digit_value c =
    if leb 48 c && leb c 57
    then some (c - 48)
    else if leb 97 c && leb c 102
    then some (c - 87)
    else if leb 65 c && leb c 70
    then some (c - 55)
    else none

-- `u8::from_str_radix` of two characters, which takes a plus sign too.
unfoldable pub pair_value : ℕ → ℕ → Option ℕ
unfolding digit_value
pair_value a b = if a == 43 then digit_value b else elim (digit_value a) [
  | none ↦ none
  | some x ↦ elim (digit_value b) [ none ↦ none | some y ↦ some (x * 16 + y) ]
]

unfoldable pub unhex_pairs : Text → Option Bytes
unhex_pairs [] = some []
unhex_pairs (a ∷ []) = none
unhex_pairs (a ∷ b ∷ rest) = elim (pair_value a b) [
  | none ↦ none
  | some x ↦ elim (unhex_pairs rest) [ none ↦ none | some xs ↦ some (x ∷ xs) ]
]

unfoldable pub unhex : Text → Option Bytes
unhex text = if length (utf8 text) == hash_len * 2 then unhex_pairs text else none

unfoldable pub escape_char : ℕ → Text
escape_char c =
    if c == backslash
    then backslash ∷ backslash ∷ []
    else if c == tab
    then backslash ∷ b't' ∷ []
    else if c == newline
    then backslash ∷ b'n' ∷ []
    else c ∷ []

unfoldable pub escape : Text → Text
escape [] = []
escape (c ∷ cs) = escape_char c ++ escape cs

-- What a backslash and the character behind it stand for.
unfoldable pub unescape_pair : ℕ → Text
unescape_pair c =
    if c == backslash
    then backslash ∷ []
    else if c == b't'
    then tab ∷ []
    else if c == b'n'
    then newline ∷ []
    else backslash ∷ c ∷ []

unfoldable pub unescape : Text → Text
unescape [] = []
unescape (c ∷ []) = if c == backslash then [] else c ∷ []
unescape (c ∷ d ∷ cs) = elim (c == backslash) [
  | true ↦ unescape_pair d ++ unescape cs
  | false ↦ c ∷ unescape (d ∷ cs)
]

-- `str::split('\t')`
unfoldable pub split_tabs : Text → List Text
split_tabs [] = [] ∷ []
split_tabs (c ∷ cs) = elim (c == tab) [
  | true ↦ [] ∷ split_tabs cs
  | false ↦ elim (split_tabs cs) [ [] ↦ (c ∷ []) ∷ [] | field ∷ rest ↦ (c ∷ field) ∷ rest ]
]

-- The next field of a line, and those behind it.
unfoldable pub next_field : String → List Text → Result AuditError (Text × List Text)
next_field reason [] = err (malformed reason)
next_field reason (field ∷ rest) = ok (field, rest)

unfoldable pub to_line : AuditRecord → Text
to_line r =
    decimal r.sequence
    ++ (tab
        ∷ (hex r.previous
            ++ (tab
                ∷ (hex r.hash
                    ++ (tab
                        ∷ (decimal r.rows
                            ++ (tab
                                ∷ (escape r.query
                                    ++ (tab ∷ (escape r.plan ++ (newline ∷ [])))))))))))

unfoldable pub from_line : Text → Result AuditError AuditRecord
unfolding next_field
from_line line = do
  (f₁, r₁) ← next_field "no sequence" (split_tabs line)
  sequence ← ok_or (parse_u64 f₁) (malformed "the sequence is not a number")
  (f₂, r₂) ← next_field "no previous hash" r₁
  previous ← ok_or (unhex f₂) (malformed "bad previous hash")
  (f₃, r₃) ← next_field "no hash" r₂
  hash ← ok_or (unhex f₃) (malformed "bad hash")
  (f₄, r₄) ← next_field "no row count" r₃
  rows ← ok_or (parse_u64 f₄) (malformed "the row count is not a number")
  (f₅, r₅) ← next_field "no query" r₄
  (f₆, r₆) ← next_field "no plan" r₅
  ok (record {
    sequence = sequence;
    previous = previous;
    query = unescape f₅;
    plan = unescape f₆;
    rows = rows;
    hash = hash;
  })

-- `str::lines`: a carriage return right before the newline goes with it.
unfoldable pub strip_cr : Text → Text
strip_cr [] = []
strip_cr (c ∷ []) = if c == 13 then [] else c ∷ []
strip_cr (c ∷ d ∷ cs) = c ∷ strip_cr (d ∷ cs)

-- The lines of a text, the characters `line` being read of the first.
unfoldable pub lines_loop : Text → Text → List Text
lines_loop [] [] = []
lines_loop (c ∷ line) [] = (c ∷ line) ∷ []
lines_loop line (c ∷ rest) = elim (c == newline) [
  | true ↦ strip_cr line ∷ lines_loop [] rest
  | false ↦ lines_loop (line ++ (c ∷ [])) rest
]

unfoldable pub parse_lines : List Text → Result AuditError (List AuditRecord)
parse_lines [] = ok []
parse_lines ([] ∷ rest) = parse_lines rest
parse_lines ((c ∷ line) ∷ rest) = do r ← from_line (c ∷ line); rs ← parse_lines rest; ok (r ∷ rs)

unfoldable pub parse : Text → Result AuditError (List AuditRecord)
unfolding parse_lines lines_loop strip_cr
parse raw = parse_lines (lines_loop [] raw)
