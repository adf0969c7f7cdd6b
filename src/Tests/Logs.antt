-- ===== src/Tests/Logs.antt =====
-- The audit log at concrete inputs.
use eule_db.Common.{◌≡◌, refl, List, [], ◌∷◌, ◌++◌, true, false, some, none}
use eule_db.Common.Text.{Text, codes, starts_with, utf8, utf8_char}
use eule_db.Audit.Line.{AuditRecord, decimal}
use eule_db.Common.{ℕ, zero, suc, ◌<◌, All, arith}
use eule_db.Common.{ok}
use eule_db.Audit.Line.{
  decimal_loop, parse_digits, parse_u64, hex_digit, hex, digit_value, pair_value, unhex_pairs,
  unhex, escape_char, escape, unescape_pair, unescape, split_tabs, next_field, to_line, from_line,
  strip_cr, lines_loop, parse_lines, parse, newline,
}
use eule_db.Audit.Line.Fields.{fields_of, from_line-to_line}
use eule_db.Audit.Chain.{
  anchor, reanchor_prefix, sealed, first_break, break_loop, current_chain, last_anchor, recompute,
  message,
}
use eule_db.Audit.Log.{next_sequence, last_hash, last_record}
use eule_db.Audit.Log.{Io, File, append, append_to, write, reanchor, records, write_line}
use eule_db.Audit.Log.Writes.{
  IsNext, append-first_break, append-first_break_marked, reanchor-first_break,
}
use eule_db.Tests.Toy.{toy, zeros}

abbrev lines : Text
lines = codes "a\tb\\c\nd"

abbrev one_record : List AuditRecord
one_record = sealed toy 0 anchor (codes "scan t") [] 3 ∷ []

one_record_holds : first_break toy one_record ≡ none
unfolding first_break break_loop current_chain last_anchor sealed recompute message starts_with
one_record_holds = refl

insert_ordinary : starts_with (codes "insert t") reanchor_prefix ≡ false
unfolding starts_with
insert_ordinary = refl

abbrev steady_io : Io
steady_io = record {
  opens = true;
  locks = true;
  reads = true;
  write_fails_after = none;
  flushes = true;
}

-- The file after one scan, and after an insertion behind it.
unfoldable scanned : Text
scanned = to_line (sealed toy 0 anchor (codes "scan t") [] 3)

scanned_parses : parse scanned ≡ ok one_record
unfolding utf8 utf8_char decimal_loop decimal parse_digits parse_u64 hex_digit hex digit_value
    pair_value unhex_pairs unhex escape_char escape unescape_pair unescape split_tabs next_field
    to_line from_line strip_cr lines_loop parse_lines parse append append_to write reanchor records
    write_line first_break break_loop current_chain last_anchor starts_with sealed recompute message
    last_record last_hash next_sequence scanned
scanned_parses = refl

unfoldable inserted : File
inserted = (append toy steady_io (some scanned) (codes "insert t") (codes "p") 2).1

appended : append toy steady_io (some scanned) (codes "insert t") (codes "p") 2 ≡ (ok tt, inserted)
unfolding utf8 utf8_char decimal_loop decimal parse_digits parse_u64 hex_digit hex digit_value
    pair_value unhex_pairs unhex escape_char escape unescape_pair unescape split_tabs next_field
    to_line from_line strip_cr lines_loop parse_lines parse append append_to write reanchor records
    write_line first_break break_loop current_chain last_anchor starts_with sealed recompute message
    last_record last_hash next_sequence scanned inserted
appended = refl

append-first_break_example :
    (r : AuditRecord) × ((inserted ≡ some (scanned ++ to_line r))
      × (IsNext one_record (codes "insert t") (codes "p") 2 r
          × (first_break toy (one_record ++ (r ∷ [])) ≡ none)))
append-first_break_example =
    append-first_break toy steady_io (some scanned) (codes "insert t") (codes "p") 2 inserted
      one_record scanned_parses insert_ordinary appended

-- The same record with another hash before it, so that the chain does not start.
abbrev altered : List AuditRecord
altered = record (sealed toy 0 anchor (codes "scan t") [] 3) { previous = zeros 32 1 } ∷ []

unfoldable tampered : Text
tampered = to_line (record (sealed toy 0 anchor (codes "scan t") [] 3) { previous = zeros 32 1 })

tampered_parses : parse tampered ≡ ok altered
unfolding utf8 utf8_char decimal_loop decimal parse_digits parse_u64 hex_digit hex digit_value
    pair_value unhex_pairs unhex escape_char escape unescape_pair unescape split_tabs next_field
    to_line from_line strip_cr lines_loop parse_lines parse append append_to write reanchor records
    write_line first_break break_loop current_chain last_anchor starts_with sealed recompute message
    last_record last_hash next_sequence tampered
tampered_parses = refl

unfoldable mended : File
mended = (reanchor toy steady_io (some tampered)).1

mended_log : reanchor toy steady_io (some tampered) ≡ (ok tt, mended)
unfolding utf8 utf8_char decimal_loop decimal parse_digits parse_u64 hex_digit hex digit_value
    pair_value unhex_pairs unhex escape_char escape unescape_pair unescape split_tabs next_field
    to_line from_line strip_cr lines_loop parse_lines parse append append_to write reanchor records
    write_line first_break break_loop current_chain last_anchor starts_with sealed recompute message
    last_record last_hash next_sequence tampered mended
mended_log = refl

reanchor-first_break_example :
    (at : ℕ) × ((first_break toy altered ≡ some at)
      × ((r : AuditRecord) × ((mended ≡ some (tampered ++ to_line r))
            × (IsNext altered (reanchor_prefix ++ decimal at) [] 0 r
                × (first_break toy (altered ++ (r ∷ [])) ≡ none)))))
reanchor-first_break_example =
    reanchor-first_break toy steady_io (some tampered) mended altered tampered_parses mended_log

abbrev marked : Text
marked = reanchor_prefix ++ codes "7"

marked_starts : starts_with marked reanchor_prefix ≡ true
unfolding starts_with
marked_starts = refl

abbrev scan_record : AuditRecord
scan_record = sealed toy 0 anchor (codes "scan t") [] 3

scan_last : last_record one_record ≡ some scan_record
unfolding last_record
scan_last = refl

-- The toy platform's hash of the first record.
other_hash : ¬ (scan_record.hash ≡ anchor)
unfolding sealed recompute message
other_hash h = cc

unfoldable broken : File
broken = (append toy steady_io (some scanned) marked [] 0).1

appended_marked : append toy steady_io (some scanned) marked [] 0 ≡ (ok tt, broken)
unfolding utf8 utf8_char decimal_loop decimal parse_digits parse_u64 hex_digit hex digit_value
    pair_value unhex_pairs unhex escape_char escape unescape_pair unescape split_tabs next_field
    to_line from_line strip_cr lines_loop parse_lines parse append append_to write reanchor records
    write_line first_break break_loop current_chain last_anchor starts_with sealed recompute message
    last_record last_hash next_sequence scanned broken
appended_marked = refl

append-first_break_marked_example :
    (r : AuditRecord) × ((broken ≡ some (scanned ++ to_line r))
      × (IsNext one_record marked [] 0 r
          × (first_break toy (one_record ++ (r ∷ [])) ≡ some r.sequence)))
append-first_break_marked_example =
    append-first_break_marked toy steady_io (some scanned) marked [] 0 broken one_record scan_record
      scanned_parses scan_last other_hash marked_starts appended_marked

hash_bytes : All (λ (b : ℕ). b < 256) (zeros 32 171)
hash_bytes = tests 32
  where
    tests : (n : ℕ) → All (λ (b : ℕ). b < 256) (zeros n 171)
    tests zero = tt
    tests (suc n) = (omega arith, tests n)

abbrev sample : AuditRecord
sample = record {
  sequence = 41;
  previous = zeros 32 171;
  query = codes "a\tb";
  plan = codes "c\\d\n";
  rows = 7;
  hash = zeros 32 171;
}

from_line-to_line_example :
    (to_line sample ≡ fields_of sample ++ (newline ∷ []))
    × (from_line (fields_of sample) ≡ ok sample)
from_line-to_line_example = from_line-to_line sample (record {
  sequence_small = omega arith;
  rows_small = omega arith;
  previous_bytes = hash_bytes;
  previous_length = refl;
  hash_bytes = hash_bytes;
  hash_length = refl;
})
