-- ===== src/Corpus.antt =====
-- crates/euledb-corpus/src/lib.rs: the reader of the corpora. A file is its text or cannot be read.
pub mod RoundTrip
use eule_db.Common.{
  ℕ, List, [], ◌∷◌, ◌++◌, Bool, true, false, ◌==◌, if◌then◌else◌, eq_bytes, Option, some, none,
  Result, ok, err,
}
use eule_db.Common.Text.{Text, codes, utf8}
use eule_db.Crypto.Platform.{Platform}
use eule_db.Audit.Line.{hex}
use eule_db.Table.Handle.{join}

abbrev pub reference_file : Text
reference_file = codes "corpus/reference.tsv"

abbrev pub reference_digest : Text
reference_digest = codes "f85e3748907f2a7b9873e317d3d325d1ab8757e521d473f41c3cc618ce14b196"

pub record Document : Type 0 where
  pub id : Text
  pub written_in : Text
  pub title : Text
  pub body : Text

-- What a backslash before a character stands for.
abbrev pub unescaped : ℕ → Text
unescaped c =
    if c == 92
    then 92 ∷ []
    else if c == b't'
    then 9 ∷ []
    else if c == b'n'
    then 10 ∷ []
    else if c == b'r'
    then 13 ∷ []
    else 92 ∷ c ∷ []

unfoldable pub unescape_field : Text → Text
unescape_field [] = []
unescape_field (c ∷ []) = if c == 92 then [] else c ∷ []
unescape_field (c ∷ d ∷ cs) =
    let behind = unescape_field cs in
    let next = unescape_field (d ∷ cs) in if c == 92 then unescaped d ++ behind else c ∷ next

-- `str::split` at tabs; a field is never missing.
abbrev pub onto_first : ℕ → List Text → List Text
onto_first c [] = (c ∷ []) ∷ []
onto_first c (field ∷ rest) = (c ∷ field) ∷ rest

unfoldable pub split_at_tabs : Text → List Text
split_at_tabs [] = [] ∷ []
split_at_tabs (c ∷ cs) =
    let rest = split_at_tabs cs in if c == 9 then [] ∷ rest else onto_first c rest

abbrev pub document_of : List Text → Option Document
document_of (id ∷ tongue ∷ title ∷ body ∷ []) = some (record {
  id = id;
  written_in = tongue;
  title = unescape_field title;
  body = unescape_field body;
})
document_of _ = none

unfoldable pub read_document : Text → Option Document
unfolding split_at_tabs unescape_field
read_document line = document_of (split_at_tabs line)

-- `str::lines`: without the ends of lines, and without an empty line at the end.
unfoldable pub strip_return : Text → Text
strip_return [] = []
strip_return (c ∷ []) = if c == 13 then [] else c ∷ []
strip_return (c ∷ d ∷ cs) = c ∷ strip_return (d ∷ cs)

unfoldable pub lines_loop : Text → Text → List Text
unfolding strip_return
lines_loop [] [] = []
lines_loop (c ∷ line) [] = (c ∷ line) ∷ []
lines_loop line (c ∷ cs) =
    let cut = lines_loop [] cs in
    let kept = lines_loop (line ++ (c ∷ [])) cs in if c == 10 then strip_return line ∷ cut else kept

abbrev pub and_documents : Option Document → List Document → List Document
and_documents none rest = rest
and_documents (some document) rest = document ∷ rest

unfoldable pub documents_of : List Text → List Document
unfolding read_document
documents_of [] = []
documents_of ([] ∷ lines) = documents_of lines
documents_of ((c ∷ line) ∷ lines) = and_documents (read_document (c ∷ line)) (documents_of lines)

unfoldable pub parse_corpus : Text → List Document
unfolding lines_loop documents_of
parse_corpus raw = documents_of (lines_loop [] raw)

pub data CorpusError : Type 0 where
  missing_corpus : Text → CorpusError
  changed_corpus : Text → Text → CorpusError

module _ (p : Platform) where
  abbrev pub checked : Text → Option Text → Result CorpusError (List Document)
  checked path none = err (missing_corpus path)
  checked path (some raw) =
      let found = hex (p.sha256 (utf8 raw)) in
      if eq_bytes found reference_digest
      then ok (parse_corpus raw)
      else err (changed_corpus path found)

  -- The files are given by their paths.
  unfoldable pub reference : (Text → Option Text) → Text → Result CorpusError (List Document)
  unfolding join parse_corpus
  reference files root = checked (join root reference_file) (files (join root reference_file))
