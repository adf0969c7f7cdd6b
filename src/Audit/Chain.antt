-- ===== src/Audit/Chain.antt =====
-- crates/euledb-storage/src/audit.rs: the links between records.
use eule_db.Common.{ℕ, ◌+◌, List, [], ◌∷◌, ◌++◌, length, drop, Bytes, eq_bytes}
use eule_db.Common.{not, ◌||◌, Option, none, some, ◌==◌, if◌then◌else◌}
use eule_db.Common.{u64_be}
use eule_db.Common.Text.{Text, codes, utf8, starts_with}
use eule_db.Crypto.Platform.{Platform}
use eule_db.Audit.Line.{AuditRecord}

abbrev pub anchor : Bytes
anchor =
    0 ∷ 0 ∷ 0 ∷ 0 ∷ 0 ∷ 0 ∷ 0 ∷ 0 ∷ 0 ∷ 0 ∷ 0 ∷ 0 ∷ 0 ∷ 0 ∷ 0 ∷ 0 ∷ 0 ∷ 0 ∷ 0 ∷ 0 ∷ 0 ∷ 0 ∷ 0 ∷ 0
    ∷ 0 ∷ 0 ∷ 0 ∷ 0 ∷ 0 ∷ 0 ∷ 0 ∷ 0 ∷ []

abbrev pub reanchor_prefix : Text
reanchor_prefix = codes "re-anchor after broken link "

-- What is hashed of a record: every field but the hash, the texts behind their lengths.
unfoldable pub message : AuditRecord → Bytes
message r =
    r.previous
    ++ (u64_be r.sequence
        ++ (u64_be (length (utf8 r.query))
            ++ (utf8 r.query ++ (u64_be (length (utf8 r.plan)) ++ (utf8 r.plan ++ u64_be r.rows)))))

-- `Iterator::rposition` over the records whose query starts with the marker.
unfoldable pub last_anchor : List AuditRecord → Option ℕ
last_anchor [] = none
last_anchor (r ∷ rs) = elim (last_anchor rs) [
  | some i ↦ some (i + 1)
  | none ↦ if starts_with r.query reanchor_prefix then some 0 else none
]

unfoldable pub current_chain : List AuditRecord → List AuditRecord
unfolding last_anchor
current_chain records = elim (last_anchor records) [ none ↦ records | some i ↦ drop i records ]

module _ (p : Platform) where
  unfoldable pub recompute : AuditRecord → Bytes
  recompute r = p.sha256 (message r)

  unfoldable pub sealed : ℕ → Bytes → Text → Text → ℕ → AuditRecord
  unfolding recompute
  sealed sequence previous query plan rows =
      let draft : AuditRecord = record {
        sequence = sequence;
        previous = previous;
        query = query;
        plan = plan;
        rows = rows;
        hash = anchor;
      } in
      record draft { hash = recompute draft }

  -- The loop of `first_break`, from the record at `position` on.
  unfoldable pub break_loop : ℕ → Bytes → List AuditRecord → Option ℕ
  break_loop position expected [] = none
  break_loop position expected (r ∷ rs) =
      let placed_wrong =
        if position == 0
        then not (eq_bytes r.previous anchor)
        else not (eq_bytes r.previous expected) in
      let rest = break_loop (position + 1) r.hash rs in
      if placed_wrong || not (eq_bytes r.hash (recompute r)) then some r.sequence else rest

  unfoldable pub first_break : List AuditRecord → Option ℕ
  unfolding break_loop current_chain
  first_break records = break_loop 0 anchor (current_chain records)
