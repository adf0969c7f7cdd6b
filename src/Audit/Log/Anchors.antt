-- ===== src/Audit/Log/Anchors.antt =====
-- Where the current chain of a log starts: crates/euledb-storage/src/audit.rs.
use eule_db.Common.{
  ℕ, suc, zero, ◌+◌, ◌<◌, ◌≡◌, refl, ap, sym, ◌∙◌, arith, List, [], ◌∷◌, ◌++◌, length, drop,
}
use eule_db.Common.{
  Bytes, true, false, Option, some, none, ==_refl, Bool-cases, Option-cases, inl, inr,
}
use eule_db.Common.Text.{Text, starts_with}
use eule_db.Audit.Line.{AuditRecord}
use eule_db.Audit.Chain.{anchor, reanchor_prefix, last_anchor, current_chain}
use eule_db.Audit.Log.{last_record, last_hash}

pub last_anchor-append_anchor :
    (rs : List AuditRecord) (r : AuditRecord)
    → starts_with r.query reanchor_prefix ≡ true
    → last_anchor (rs ++ (r ∷ [])) ≡ some (length rs)
unfolding last_anchor
last_anchor-append_anchor [] r h = rw h refl
last_anchor-append_anchor (s ∷ rs) r h =
    rw (last_anchor-append_anchor rs r h) (ap some (omega arith))

last_anchor-append_other :
    (rs : List AuditRecord) (r : AuditRecord)
    → starts_with r.query reanchor_prefix ≡ false
    → last_anchor (rs ++ (r ∷ [])) ≡ last_anchor rs
unfolding last_anchor
last_anchor-append_other [] r h = rw h refl
last_anchor-append_other (s ∷ rs) r h = rw (last_anchor-append_other rs r h) refl

last_anchor-lt : (rs : List AuditRecord) (i : ℕ) → last_anchor rs ≡ some i → i < length rs
unfolding last_anchor
last_anchor-lt [] i h = cc
last_anchor-lt (s ∷ rs) i h = elim (Option-cases (last_anchor rs)) [
  | inl e ↦ elim (Bool-cases (starts_with s.query reanchor_prefix)) [
    | inl t ↦ first_place i (rw (e, t) at h)
    | inr t ↦ cc (rw (e, t) at h)
  ]
  | inr (j, e) ↦ later_place i j (last_anchor-lt rs j e) (rw e at h)
]
  where
    first_place : (i : ℕ) → Path (Option ℕ) (some 0) (some i) → i < suc (length rs)
    first_place i h = grind arith

    later_place :
        (i j : ℕ) → j < length rs → Path (Option ℕ) (some (j + 1)) (some i) → i < suc (length rs)
    later_place i j h e = grind arith

pub drop_whole :
    (rs : List AuditRecord) (r : AuditRecord) → drop (length rs) (rs ++ (r ∷ [])) ≡ r ∷ []
drop_whole [] r = refl
drop_whole (s ∷ rs) r = drop_whole rs r

drop_part :
    (i : ℕ) (rs : List AuditRecord) (r : AuditRecord)
    → i < length rs
    → (drop i (rs ++ (r ∷ [])) ≡ drop i rs ++ (r ∷ [])) × (last_record (drop i rs) ≡ last_record rs)
unfolding last_record
drop_part i [] r h = absurd (omega arith)
drop_part zero (s ∷ rs) r h = (refl, refl)
drop_part (suc i) (s ∷ []) r h = absurd (omega arith)
drop_part (suc i) (s ∷ t ∷ rs) r h = drop_part i (t ∷ rs) r (omega arith)

-- The chain of a log that a record which is no anchor is appended to.
pub current_chain-append :
    (rs : List AuditRecord) (r : AuditRecord)
    → starts_with r.query reanchor_prefix ≡ false
    → (current_chain (rs ++ (r ∷ [])) ≡ current_chain rs ++ (r ∷ []))
      × (last_record (current_chain rs) ≡ last_record rs)
unfolding current_chain
current_chain-append rs r h = elim (Option-cases (last_anchor rs)) [
  | inl e ↦ rw (last_anchor-append_other rs r h, e, current_chain) (refl, refl)
  | inr (i, e) ↦
      rw (last_anchor-append_other rs r h, e, current_chain)
        (drop_part i rs r (last_anchor-lt rs i e))
]

-- The hash of a record, if there is one.
abbrev pub hash_or : Bytes → Option AuditRecord → Bytes
hash_or expected none = expected
hash_or expected (some r) = r.hash

-- Of two records the later one's hash counts.
pub hash_or-cons :
    (expected : Bytes) (s : AuditRecord) (rs : List AuditRecord)
    → hash_or expected (last_record (s ∷ rs)) ≡ hash_or s.hash (last_record rs)
unfolding last_record
hash_or-cons expected s [] = refl
hash_or-cons expected s (t ∷ rs) = hash_or-cons expected t rs ∙ sym (hash_or-cons s.hash t rs)

pub last_hash-hash_or : (rs : List AuditRecord) → last_hash rs ≡ hash_or anchor (last_record rs)
unfolding last_hash
last_hash-hash_or rs = elim (Option-cases (last_record rs)) [
  | inl e ↦ rw (e, last_hash) refl
  | inr (l, e) ↦ rw (e, last_hash) refl
]

pub starts_with-append : (xs ys : Text) → starts_with (xs ++ ys) xs ≡ true
unfolding starts_with
starts_with-append [] ys = refl
starts_with-append (x ∷ xs) ys = rw (==_refl x) (starts_with-append xs ys)
