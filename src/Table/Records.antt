-- ===== src/Table/Records.antt =====
-- What a handle with an audit log has recorded when a call answers: crates/euledb-storage/src/store.rs.
pub mod Writing
pub mod Operations
pub mod Calls
use Prim.Native.String.{String}
use eule_db.Common.{
  ℕ, List, [], ◌∷◌, ◌++◌, Bool, true, false, Option, some, none, Result, ok, err, ◌≡◌, refl, sym,
  ap, ◌∙◌, subst,
}
use eule_db.Common.Text.{Text, codes}
use eule_db.Crypto.Platform.{Platform}
use eule_db.Audit.Line.{AuditError}
use eule_db.Audit.Log.{Io, File, append}
use eule_db.Table.Lance.{Lance}
use eule_db.Table.Error.{Error}
use eule_db.Table.Op.{Op, after, ◌>>=◌, ◌>>◌}
use eule_db.Table.Handle.{World, LanceStore, record_call, logged}
use eule_db.Table.Footprint.{Keeps, log_of}

module _ (p : Platform) (io : Io) where
  -- The log with one record more of the query.
  abbrev pub HasRecord : Text → File → File → Type 0
  HasRecord query before later =
      (plan : Text) × ((rows : ℕ) × (append p io before query plan rows ≡ (ok tt, later)))

module _ (p : Platform) (io : Io) {l : Lance} where
  -- Where the operation answers, it has recorded the query, and nothing else.
  abbrev pub Records : {A : Type 0} → Text → Op (World l) A → Type 0
  Records {A = A} query m =
      (s : World l) (a : A) (t : World l) → m s ≡ (ok a, t) → HasRecord p io query s.log t.log

  module _ {A B : Type 0} (query : Text) (next : A → Op (World l) B) where
    after-HasRecord :
        ((a : A) → Records query (next a))
        → (s : World l) (r : Result Error A × World l) → r.1.log ≡ s.log
        → (b : B) (t : World l) → after next r ≡ (ok b, t)
        → HasRecord p io query s.log t.log
    after-HasRecord records s (ok a, u) same b t h =
        subst (λ f. HasRecord p io query f t.log) same (records a u b t h)
    after-HasRecord records s (err e, u) same b t h = cc

    -- What records after a part that does not touch the log.
    pub later-Records :
        (m : Op (World l) A)
        → Keeps log_of m
        → ((a : A) → Records query (next a))
        → Records query (m >>= next)
    later-Records m keeps records s = after-HasRecord records s (m s) (keeps s)

    after_keeping-HasRecord :
        ((a : A) → Keeps log_of (next a))
        → (s : World l) (r : Result Error A × World l)
        → ((a : A) (t : World l) → r ≡ (ok a, t) → HasRecord p io query s.log t.log)
        → (b : B) (t : World l) → after next r ≡ (ok b, t)
        → HasRecord p io query s.log t.log
    after_keeping-HasRecord keeps s (ok a, u) records b t h =
        subst (λ f. HasRecord p io query s.log f) (sym (keeps a u) ∙ ap (λ z. z.1.log) h)
          (records a u refl)
    after_keeping-HasRecord keeps s (err e, u) records b t h = cc

    -- What records before a part that does not touch the log.
    pub first-Records :
        (m : Op (World l) A)
        → Records query m
        → ((a : A) → Keeps log_of (next a))
        → Records query (m >>= next)
    first-Records m records keeps s = after_keeping-HasRecord keeps s (m s) (records s)

  pub record_call-Records :
      (h : LanceStore l) (query plan : Text) (rows : ℕ)
      → h.auditing ≡ true
      → Records query (record_call p io h query plan rows)
  unfolding record_call
  record_call-Records h query plan rows audits s a t e =
      (plan, (rows, go (append p io s.log query plan rows) (rw audits at e)))
    where
      go :
          (r : Result AuditError (Unit {0}) × File)
          → logged {l = l} s.disk r ≡ (ok a, t)
          → r ≡ (ok tt, t.log)
      go (ok u, f) e = ap (λ z. (ok tt, z.1.log)) e
      go (err c, f) e = cc
