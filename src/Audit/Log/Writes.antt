-- ===== src/Audit/Log/Writes.antt =====
-- What `append` and `reanchor` leave in the file: crates/euledb-storage/src/audit.rs.
use eule_db.Common.{
  ℕ, ◌+◌, u64, List, [], ◌∷◌, ◌++◌, Bytes, true, false, Bool-cases, none, some, Option-cases, ok,
  inl, inr, ◌≡◌, refl, sym, ap, ◌∙◌,
}
use eule_db.Common.Text.{Text, starts_with}
use eule_db.Crypto.Platform.{Platform}
use eule_db.Audit.Line.{AuditRecord, to_line, parse, decimal}
use eule_db.Audit.Chain.{
  break_loop, current_chain, last_anchor, anchor, reanchor_prefix, sealed, first_break,
}
use eule_db.Audit.Log.{
  Io, File, text_of, write_line, last_record, last_hash, next_sequence, append_to, append, write,
  records, reanchor,
}
use eule_db.Audit.Log.Links.{first_break-append, first_break-reanchor, first_break-append_marked}

-- A line that is written stands behind the text.
write_line-ok :
    (io : Io) (text line : Text) (later : File)
    → write_line io text line ≡ (ok tt, later)
    → later ≡ some (text ++ line)
unfolding write_line
write_line-ok io text line later h = elim (Option-cases io.write_fails_after) [
  | inr (n, e) ↦ cc (rw e at h)
  | inl e ↦ elim (Bool-cases io.flushes) [
    | inl f ↦ sym (ap (λ z. z.1) (rw f at (rw e at h)))
    | inr f ↦ cc (rw f at (rw e at h))
  ]
]

last_hash-some :
    (rs : List AuditRecord) (r : AuditRecord) → last_record rs ≡ some r → last_hash rs ≡ r.hash
unfolding last_hash
last_hash-some rs r e = rw (e, last_hash) refl

-- What a record says: the number behind the last one's, and what was asked.
abbrev pub IsNext : List AuditRecord → Text → Text → ℕ → AuditRecord → Type 0
IsNext existing query plan rows r =
    (r.sequence ≡ (elim (last_record existing) [ none ↦ 0 | some s ↦ u64 (s.sequence + 1) ]))
    × ((r.query ≡ query) × ((r.plan ≡ plan) × (r.rows ≡ rows)))

module _ (p : Platform) where
  append_to-ok :
      (io : Io) (text : Text) (existing : List AuditRecord) (query plan : Text) (rows : ℕ)
      (later : File)
      → append_to p io text existing query plan rows ≡ (ok tt, later)
      → (first_break p existing ≡ none)
        × (later
            ≡ some (
                text
                ++ to_line
                    (sealed p (next_sequence existing) (last_hash existing) query plan rows)))
  unfolding append_to
  append_to-ok io text existing query plan rows later h =
      elim (Option-cases (first_break p existing)) [
        | inr (at, e) ↦ cc (rw (e, append_to) at h)
        | inl e ↦ (e, write_line-ok io text _ later (rw (e, append_to) at h))
      ]

  append-ok :
      (io : Io) (file : File) (query plan : Text) (rows : ℕ) (later : File)
      (existing : List AuditRecord)
      → parse (text_of file) ≡ ok existing
      → append p io file query plan rows ≡ (ok tt, later)
      → append_to p io (text_of file) existing query plan rows ≡ (ok tt, later)
  unfolding append
  append-ok io file query plan rows later existing parsed h = elim (Bool-cases io.opens) [
    | inr x ↦ cc (rw x at h)
    | inl x ↦ elim (Bool-cases io.locks) [
      | inr y ↦ cc (rw y at (rw x at h))
      | inl y ↦ elim (Bool-cases io.reads) [
        | inr z ↦ cc (rw z at (rw y at (rw x at h)))
        | inl z ↦ rw parsed at (rw z at (rw y at (rw x at h)))
      ]
    ]
  ]

  write-ok :
      (io : Io) (file : File) (r : AuditRecord) (later : File)
      → write p io file r ≡ (ok tt, later)
      → later ≡ some (text_of file ++ to_line r)
  unfolding write
  write-ok io file r later h = elim (Bool-cases io.opens) [
    | inr x ↦ cc (rw x at h)
    | inl x ↦ elim (Bool-cases io.locks) [
      | inr y ↦ cc (rw y at (rw x at h))
      | inl y ↦ write_line-ok io (text_of file) (to_line r) later (rw y at (rw x at h))
    ]
  ]

  reanchor-none : (io : Io) (later : File) → ¬ (reanchor p io none ≡ (ok tt, later))
  unfolding reanchor records first_break break_loop current_chain last_anchor
  reanchor-none io later h = cc h

  reanchor-ok :
      (io : Io) (file later : File) (existing : List AuditRecord)
      → parse (text_of file) ≡ ok existing
      → reanchor p io file ≡ (ok tt, later)
      → (at : ℕ) × ((first_break p existing ≡ some at)
          × (later
              ≡ some (
                  text_of file
                  ++ to_line (
                      sealed p
                        (next_sequence existing)
                        anchor
                        (reanchor_prefix ++ decimal at)
                        []
                        0))))
  unfolding reanchor records
  reanchor-ok io none later existing parsed h = absurd (reanchor-none io later h)
  reanchor-ok io (some text) later existing parsed h = elim (Bool-cases io.reads) [
    | inr x ↦ cc (rw (x, reanchor) at h)
    | inl x ↦ elim (Option-cases (first_break p existing)) [
      | inl e ↦ cc (rw (x, parsed, e, reanchor) at h)
      | inr (at, e) ↦ (at, (e, write-ok io (some text) _ later (rw (x, parsed, e, reanchor) at h)))
    ]
  ]

  sealed-IsNext :
      (existing : List AuditRecord) (previous : Bytes) (query plan : Text) (rows : ℕ)
      → IsNext existing query plan rows (sealed p (next_sequence existing) previous query plan rows)
  unfolding sealed next_sequence
  sealed-IsNext existing previous query plan rows = (refl, (refl, (refl, refl)))

  -- When `append` succeeds on a file that holds the records `existing`, for a query that does not start with
  -- the marker of a re-anchor, the file has become longer by the line of one record, which has the next number
  -- and says what was asked, and the records with this one behind them verify.
  pub append-first_break :
      (io : Io) (file : File) (query plan : Text) (rows : ℕ) (later : File)
      (existing : List AuditRecord)
      → parse (text_of file) ≡ ok existing
      → starts_with query reanchor_prefix ≡ false
      → append p io file query plan rows ≡ (ok tt, later)
      → (r : AuditRecord) × ((later ≡ some (text_of file ++ to_line r))
          × (IsNext existing query plan rows r × (first_break p (existing ++ (r ∷ [])) ≡ none)))
  append-first_break io file query plan rows later existing parsed ordinary h =
      let (holds, grown) =
        append_to-ok io (text_of file) existing query plan rows later
          (append-ok io file query plan rows later existing parsed h) in
      (
        sealed p (next_sequence existing) (last_hash existing) query plan rows,
        (
          grown,
          (
            sealed-IsNext existing (last_hash existing) query plan rows,
            first_break-append p existing query plan rows holds ordinary,
          ),
        ),
      )

  -- When `append` succeeds on a file that holds the records `existing`, the last with a hash that is not the
  -- anchor value, for a query that starts with the marker of a re-anchor, the file has become longer by the
  -- line of one record, which has the next number and says what was asked, and the records with this one
  -- behind them do not verify: it is the one where the chain breaks.
  pub append-first_break_marked :
      (io : Io) (file : File) (query plan : Text) (rows : ℕ) (later : File)
      (existing : List AuditRecord) (last : AuditRecord)
      → parse (text_of file) ≡ ok existing
      → last_record existing ≡ some last
      → ¬ (last.hash ≡ anchor)
      → starts_with query reanchor_prefix ≡ true
      → append p io file query plan rows ≡ (ok tt, later)
      → (r : AuditRecord) × ((later ≡ some (text_of file ++ to_line r))
          × (IsNext existing query plan rows r
              × (first_break p (existing ++ (r ∷ [])) ≡ some r.sequence)))
  unfolding last_hash
  append-first_break_marked io file query plan rows later existing last parsed ends other marked h =
      let (holds, grown) =
        append_to-ok io (text_of file) existing query plan rows later
          (append-ok io file query plan rows later existing parsed h) in
      (
        sealed p (next_sequence existing) (last_hash existing) query plan rows,
        (
          grown,
          (
            sealed-IsNext existing (last_hash existing) query plan rows,
            first_break-append_marked p existing query plan rows marked (named other)
                ∙ ap some (numbered (next_sequence existing) (last_hash existing)),
          ),
        ),
      )
    where
      named : ¬ (last.hash ≡ anchor) → ¬ (last_hash existing ≡ anchor)
      named other e = other (sym (last_hash-some existing last ends) ∙ e)

      numbered : (n : ℕ) (previous : Bytes) → n ≡ (sealed p n previous query plan rows).sequence
      numbered n previous = unfold sealed in refl

  -- When `reanchor` succeeds on a file that holds the records `existing`, their chain was broken, the file has
  -- become longer by the line of one record, which has the next number and names the break behind the marker
  -- of a re-anchor, and the records with this one behind them verify, whatever they are.
  pub reanchor-first_break :
      (io : Io) (file later : File) (existing : List AuditRecord)
      → parse (text_of file) ≡ ok existing
      → reanchor p io file ≡ (ok tt, later)
      → (at : ℕ) × ((first_break p existing ≡ some at)
          × ((r : AuditRecord) × ((later ≡ some (text_of file ++ to_line r))
                × (IsNext existing (reanchor_prefix ++ decimal at) [] 0 r
                    × (first_break p (existing ++ (r ∷ [])) ≡ none)))))
  reanchor-first_break io file later existing parsed h =
      let (at, (broken, grown)) = reanchor-ok io file later existing parsed h in
      (
        at,
        (
          broken,
          (
            sealed p (next_sequence existing) anchor (reanchor_prefix ++ decimal at) [] 0,
            (
              grown,
              (
                sealed-IsNext existing anchor (reanchor_prefix ++ decimal at) [] 0,
                first_break-reanchor p existing at (next_sequence existing),
              ),
            ),
          ),
        ),
      )
