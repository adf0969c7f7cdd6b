-- ===== src/Tests/Calls.antt =====
-- Calls of a handle at concrete inputs.
use Prim.Native.Nat.{compare}
use eule_db.Common.{ℕ, ◌+◌, ◌*◌, ◌/◌, [], ◌∷◌, true, false, some, none, ok, err, ◌≡◌, refl}
use eule_db.Common.Text.{Text, codes, utf8, utf8_char, starts_with}
use eule_db.Crypto.Capability.{
  Scope, Gate, grant, tag_for, new_gate, permits, any_permits, verifies, tag_message,
}
use eule_db.Crypto.Keyring.{Keyring, token_key}
use eule_db.Audit.Line.{parse}
use eule_db.Audit.Chain.{first_break, break_loop, current_chain, last_anchor}
use eule_db.Audit.Log.{Io, append, append_to, write_line}
use eule_db.Fusion.{Float32}
use eule_db.Measurement.{Float64}
use eule_db.Table.Error.{storage, not_permitted, read_only}
use eule_db.Table.Handle.{
  World, LanceStore, open_table, uri, dataset_path, join, ends_with_slash, require_scope,
  record_call,
}
use eule_db.Table.Reads.{scan, collect, stream_of, strip_batches, sum_rows}
use eule_db.Table.Calls.{Call, perform, to_append, to_scan}
use eule_db.Table.Guards.{perform-refuses_scope, perform-refuses_reader}
use eule_db.Table.Footprint.Calls.{perform-keeps_disk}
use eule_db.Table.Records.Calls.{perform-records}
use eule_db.Tests.Toy.{toy}
use eule_db.Tests.Lances.{shelves, two_titles, one_title, birds_disk}

-- Floats that are parts of a million.
abbrev pub millionths : Float32
millionths = record {
  F32 = ℕ;
  reciprocal = λ k rank. 1000000 / (k + rank);
  plus = λ a b. a + b;
  partial_cmp = λ a b. some (compare a b);
}

abbrev whole_numbers : Float64
whole_numbers = record {
  F64 = ℕ;
  parse_f64 = λ text. none;
  at_least_zero = λ v. true;
  times = λ v n. v * n;
  to_u64 = λ v. v;
}

abbrev pub steady : Io
steady = record {
  opens = true;
  locks = true;
  reads = true;
  write_fails_after = none;
  flushes = true;
}

abbrev birds : Text
birds = codes "birds"

abbrev issuer : Keyring
issuer = record { keys = []; current = 1; kek = 7 ∷ 8 ∷ []; salt = []; nonce = []; sealed = [] }

abbrev read_gate : Gate
read_gate = new_gate toy issuer (grant toy issuer (98 ∷ 105 ∷ 114 ∷ 100 ∷ 115 ∷ []) Scope.read ∷ [])

abbrev pub plain_reader : LanceStore shelves
plain_reader = record {
  root = codes "/db";
  write_lock = false;
  session = none;
  embedder = none;
  auditing = true;
  gate = none;
}

abbrev gated_reader : LanceStore shelves
gated_reader = record plain_reader { gate = some read_gate }

abbrev pub birds_world : World shelves
birds_world = record { disk = birds_disk; log = none }

abbrev to_append_birds : Call shelves millionths whole_numbers
to_append_birds = to_append birds two_titles

abbrev to_scan_birds : Call shelves millionths whole_numbers
to_scan_birds = to_scan birds

no_write : permits toy read_gate (utf8 birds) Scope.write ≡ false
unfolding permits any_permits verifies tag_message utf8 utf8_char grant tag_for new_gate token_key
no_write = refl

perform-refuses_scope_example :
    perform toy steady gated_reader to_append_birds birds_world
    ≡ (err (storage (not_permitted Scope.write birds)), birds_world)
perform-refuses_scope_example =
    perform-refuses_scope toy steady millionths whole_numbers gated_reader to_append_birds
      birds_world refl no_write

perform-refuses_reader_example :
    perform toy steady plain_reader to_append_birds birds_world
    ≡ (err (storage (read_only "append to" birds)), birds_world)
perform-refuses_reader_example =
    perform-refuses_reader toy steady millionths whole_numbers plain_reader to_append_birds
      birds_world refl refl refl

perform-keeps_disk_example :
    (perform toy steady plain_reader to_scan_birds birds_world).1.disk ≡ birds_disk
perform-keeps_disk_example =
    perform-keeps_disk toy steady plain_reader to_scan_birds birds_world refl

scanned : perform toy steady plain_reader to_scan_birds birds_world ≡ (
  ok (two_titles ∷ one_title ∷ []),
  (perform toy steady plain_reader to_scan_birds birds_world).1,
)
unfolding perform scan require_scope open_table uri dataset_path join ends_with_slash starts_with
    collect stream_of strip_batches record_call append append_to first_break break_loop
    current_chain last_anchor parse sum_rows write_line
scanned = refl

perform-records_example :
    (plan : Text) × ((rows : ℕ) × (append toy steady none (codes "scan `birds`") plan rows
        ≡ (ok tt, (perform toy steady plain_reader to_scan_birds birds_world).1.log)))
perform-records_example =
    perform-records toy steady plain_reader to_scan_birds birds_world (two_titles ∷ one_title ∷ [])
      (perform toy steady plain_reader to_scan_birds birds_world).1 refl refl scanned
