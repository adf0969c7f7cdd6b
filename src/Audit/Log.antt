-- ===== src/Audit/Log.antt =====
-- crates/euledb-storage/src/audit.rs: `AuditLog` over its file. The file is its text, `none` if it is
-- not there; what the operating system answers to one call is the parameter `io`.
pub mod Anchors
pub mod Links
pub mod Writes
use eule_db.Common.{ℕ, ◌+◌, u64, List, [], ◌∷◌, ◌++◌, take, Bytes, Bool, not}
use eule_db.Common.{Option, none, some, Result, ok, err, if◌then◌else◌, ◌>>=◌}
use eule_db.Common.Text.{Text}
use eule_db.Crypto.Platform.{Platform}
use eule_db.Audit.Line.{
  AuditRecord, AuditError, unavailable, broken_chain, nothing_to_reanchor, to_line, parse, decimal,
}
use eule_db.Audit.Chain.{anchor, reanchor_prefix, sealed, first_break}

-- Whether the file opens, locks, reads and flushes; how many characters are written before a failure.
pub record Io : Type 0 where
  pub opens : Bool
  pub locks : Bool
  pub reads : Bool
  pub write_fails_after : Option ℕ
  pub flushes : Bool

abbrev pub File : Type 0
File = Option Text

-- The text of a file that `open` has created if it was not there.
abbrev pub text_of : File → Text
text_of none = []
text_of (some text) = text

-- `write_all` in append mode, and `flush`.
unfoldable pub write_line : Io → Text → Text → Result AuditError (Unit {0}) × File
write_line io text line = elim io.write_fails_after [
  | some n ↦ (err unavailable, some (text ++ take n line))
  | none ↦ (if io.flushes then ok tt else err unavailable, some (text ++ line))
]

unfoldable pub last_record : List AuditRecord → Option AuditRecord
last_record [] = none
last_record (r ∷ []) = some r
last_record (r ∷ s ∷ rs) = last_record (s ∷ rs)

unfoldable pub next_sequence : List AuditRecord → ℕ
unfolding last_record
next_sequence rs = elim (last_record rs) [ none ↦ 0 | some r ↦ u64 (r.sequence + 1) ]

unfoldable pub last_hash : List AuditRecord → Bytes
unfolding last_record
last_hash rs = elim (last_record rs) [ none ↦ anchor | some r ↦ r.hash ]

unfoldable pub records : Io → File → Result AuditError (List AuditRecord)
records io none = ok []
records io (some text) = if io.reads then parse text else err unavailable

module _ (p : Platform) where
  -- The answer of `append` once the log has been read.
  unfoldable pub append_to :
      Io → Text → List AuditRecord → Text → Text → ℕ → Result AuditError (Unit {0}) × File
  unfolding write_line next_sequence last_hash
  append_to io text existing query plan rows = elim (first_break p existing) [
    | some at ↦ (err (broken_chain at), some text)
    | none ↦
        write_line io text
          (to_line (sealed p (next_sequence existing) (last_hash existing) query plan rows))
  ]

  unfoldable pub append : Io → File → Text → Text → ℕ → Result AuditError (Unit {0}) × File
  unfolding append_to
  append io file query plan rows =
      if not io.opens
      then (err unavailable, file)
      else if not io.locks
      then (err unavailable, some (text_of file))
      else if not io.reads
      then (err unavailable, some (text_of file))
      else elim (parse (text_of file)) [
        | err e ↦ (err e, some (text_of file))
        | ok existing ↦ append_to io (text_of file) existing query plan rows
      ]

  -- `AuditLog::write`, which reads nothing.
  unfoldable pub write : Io → File → AuditRecord → Result AuditError (Unit {0}) × File
  unfolding write_line
  write io file r =
      if not io.opens
      then (err unavailable, file)
      else if not io.locks
      then (err unavailable, some (text_of file))
      else write_line io (text_of file) (to_line r)

  unfoldable pub verify : Io → File → Result AuditError (Unit {0})
  unfolding records
  verify io file = do
    rs ← records io file
    elim (first_break p rs) [ none ↦ ok tt | some at ↦ err (broken_chain at) ]

  unfoldable pub reanchor : Io → File → Result AuditError (Unit {0}) × File
  unfolding records write next_sequence
  reanchor io file = elim (records io file) [
    | err e ↦ (err e, file)
    | ok rs ↦ elim (first_break p rs) [
      | none ↦ (err nothing_to_reanchor, file)
      | some at ↦
          write io file (sealed p (next_sequence rs) anchor (reanchor_prefix ++ decimal at) [] 0)
    ]
  ]
