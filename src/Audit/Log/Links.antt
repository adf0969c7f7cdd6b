-- ===== src/Audit/Log/Links.antt =====
-- What an append and a re-anchor leave of the chain: crates/euledb-storage/src/audit.rs.
use eule_db.Common.{ℕ, ◌+◌, ◌≡◌, refl, ap, sym, ◌∙◌, arith, List, [], ◌∷◌, ◌++◌}
use eule_db.Common.{
  Bytes, true, false, not, ◌||◌, some, none, eq_bytes, eq_bytes_refl, eq_of_eq_bytes, ◌==◌, ==_iff,
  if◌then◌else◌, Bool-cases, inl, inr,
}
use eule_db.Common.Text.{Text, starts_with}
use eule_db.Crypto.Platform.{Platform}
use eule_db.Audit.Line.{AuditRecord, decimal}
use eule_db.Audit.Chain.{
  anchor, reanchor_prefix, message, current_chain, recompute, sealed, break_loop, first_break,
}
use eule_db.Audit.Log.{last_record, last_hash, next_sequence}
use eule_db.Audit.Log.Anchors.{
  last_anchor-append_anchor, current_chain-append, drop_whole, hash_or, hash_or-cons,
  last_hash-hash_or, starts_with-append,
}

module _ (p : Platform) where
  sealed-recompute :
      (sequence : ℕ) (previous : Bytes) (query plan : Text) (rows : ℕ)
      → (sealed p sequence previous query plan rows).hash
        ≡ recompute p (sealed p sequence previous query plan rows)
  unfolding sealed recompute message
  sealed-recompute sequence previous query plan rows = refl

  -- The record behind those of a chain that holds: it names the last one's hash, or `expected` if there
  -- is none, and its own hash fits.
  break_loop-append :
      (position : ℕ) (expected : Bytes) (rs : List AuditRecord) (r : AuditRecord)
      → break_loop p position expected rs ≡ none
      → (position ≡ 0 → expected ≡ anchor)
      → r.previous ≡ hash_or expected (last_record rs)
      → r.hash ≡ recompute p r
      → break_loop p position expected (rs ++ (r ∷ [])) ≡ none
  unfolding break_loop last_record
  break_loop-append position expected [] r h start link fits =
      let own : eq_bytes r.hash (recompute p r) ≡ true =
        ap (λ t. eq_bytes t (recompute p r)) fits ∙ eq_bytes_refl (recompute p r) in
      elim (Bool-cases (position == 0)) [
        | inl e ↦
            let placed : eq_bytes r.previous anchor ≡ true =
              ap (λ t. eq_bytes t anchor) (link ∙ start ((==_iff position 0).0 e))
              ∙ eq_bytes_refl anchor in
            rw (e, placed, own) refl
        | inr e ↦
            let placed : eq_bytes r.previous expected ≡ true =
              ap (λ t. eq_bytes t expected) link ∙ eq_bytes_refl expected in
            rw (e, placed, own) refl
      ]
  break_loop-append position expected (s ∷ rs) r h start link fits =
      let test =
        (if position == 0
          then not (eq_bytes s.previous anchor)
          else not (eq_bytes s.previous expected))
        || not (eq_bytes s.hash (recompute p s)) in
      elim (Bool-cases test) [
        | inl e ↦ cc (rw e at h)
        | inr e ↦ rw e (
            break_loop-append (position + 1) s.hash rs r (rw e at h)
              (λ zero_eq. absurd (omega arith)) (link ∙ hash_or-cons expected s rs) fits)
      ]

  -- The record of a query without the marker of a re-anchor, that names the last hash.
  pub first_break-append :
      (rs : List AuditRecord) (query plan : Text) (rows : ℕ)
      → first_break p rs ≡ none
      → starts_with query reanchor_prefix ≡ false
      → first_break p (rs ++ (sealed p (next_sequence rs) (last_hash rs) query plan rows ∷ []))
        ≡ none
  unfolding first_break
  first_break-append rs query plan rows h ordinary =
      let r = sealed p (next_sequence rs) (last_hash rs) query plan rows in
      let (chain, last) =
        current_chain-append rs r
          (other (next_sequence rs) (last_hash rs) query plan rows ordinary) in
      rw chain (
        break_loop-append 0 anchor (current_chain rs) r h (λ z. refl)
          (names (next_sequence rs) (last_hash rs) query plan rows
            ∙ last_hash-hash_or rs
            ∙ ap (hash_or anchor) (sym last))
          (sealed-recompute (next_sequence rs) (last_hash rs) query plan rows))
    where
      other :
          (sequence : ℕ) (previous : Bytes) (query plan : Text) (rows : ℕ)
          → starts_with query reanchor_prefix ≡ false
          → starts_with (sealed p sequence previous query plan rows).query reanchor_prefix ≡ false
      other sequence previous query plan rows h = unfold sealed in h

      names :
          (sequence : ℕ) (previous : Bytes) (query plan : Text) (rows : ℕ)
          → (sealed p sequence previous query plan rows).previous ≡ previous
      names sequence previous query plan rows = unfold sealed in refl

  -- The record of a re-anchor, behind any others.
  pub first_break-reanchor :
      (rs : List AuditRecord) (at sequence : ℕ)
      → first_break p (rs ++ (sealed p sequence anchor (reanchor_prefix ++ decimal at) [] 0 ∷ []))
        ≡ none
  unfolding first_break last_record
  first_break-reanchor rs at sequence =
      let r = sealed p sequence anchor (reanchor_prefix ++ decimal at) [] 0 in
      let marked : starts_with r.query reanchor_prefix ≡ true =
        ap (λ t. starts_with t reanchor_prefix) (asks sequence at)
        ∙ starts_with-append reanchor_prefix (decimal at) in
      rw (last_anchor-append_anchor rs r marked, current_chain, drop_whole rs r)
        (break_loop-append 0 anchor [] r (unfold break_loop in refl) (λ z. refl) (names sequence at)
          (sealed-recompute sequence anchor (reanchor_prefix ++ decimal at) [] 0))
    where
      asks :
          (sequence at : ℕ)
          → (sealed p sequence anchor (reanchor_prefix ++ decimal at) [] 0).query
            ≡ reanchor_prefix ++ decimal at
      asks sequence at = unfold sealed in refl

      names :
          (sequence at : ℕ)
          → (sealed p sequence anchor (reanchor_prefix ++ decimal at) [] 0).previous ≡ anchor
      names sequence at = unfold sealed in refl

  -- The record of a query with the marker of a re-anchor, that does not name the anchor value.
  pub first_break-append_marked :
      (rs : List AuditRecord) (query plan : Text) (rows : ℕ)
      → starts_with query reanchor_prefix ≡ true
      → ¬ (last_hash rs ≡ anchor)
      → first_break p (rs ++ (sealed p (next_sequence rs) (last_hash rs) query plan rows ∷ []))
        ≡ some (next_sequence rs)
  unfolding first_break
  first_break-append_marked rs query plan rows marked other =
      refused (next_sequence rs) (last_hash rs) other
    where
      refused :
          (sequence : ℕ) (previous : Bytes)
          → ¬ (previous ≡ anchor)
          → break_loop p 0 anchor
              (current_chain (rs ++ (sealed p sequence previous query plan rows ∷ [])))
            ≡ some sequence
      refused sequence previous other =
          let r = sealed p sequence previous query plan rows in
          let placed : eq_bytes previous anchor ≡ false =
            elim (Bool-cases (eq_bytes previous anchor)) [
              | inl e ↦ absurd (other (eq_of_eq_bytes previous anchor e))
              | inr e ↦ e
            ] in
          rw
            (
              last_anchor-append_anchor rs r (unfold sealed in marked),
              current_chain,
              drop_whole rs r,
            )
            (unfold sealed break_loop in rw placed refl)
