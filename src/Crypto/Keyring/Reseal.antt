-- ===== src/Crypto/Keyring/Reseal.antt =====
-- What wrapping a key set anew leaves: crates/euledb-storage/src/crypto/keyring.rs.
use eule_db.Common.{◌≡◌, ap, sym, subst, inl, inr, Option-cases}
use eule_db.Common.{length, Bytes, some, Result, ok, err}
use eule_db.Crypto.Platform.{Platform, IsSound}
use eule_db.Crypto.Keyring.{Keyring, KeyringError, encode_key_set, reseal, context, after_reseal}
use eule_db.Crypto.Keyring.KeySet.{IsKeySet}
use eule_db.Crypto.Keyring.Keyfile.{IsKeyring}

module _ (p : Platform) where
  pub after_reseal-eq-ok :
      {A : Type 0} (a : A) (r : Result KeyringError (Unit {0}) × Keyring × p.Entropy) {b : A}
      {k' : Keyring} {e' : p.Entropy}
      → after_reseal p a r ≡ (ok b, k', e')
      → (r ≡ (ok tt, k', e')) × (a ≡ b)
  after_reseal-eq-ok a (ok _, k, e) h = (cc, cc)
  after_reseal-eq-ok a (err x, k, e) h = cc

  -- What a `reseal` that succeeds has done.
  record Resealed (k : Keyring) (e : p.Entropy) (k' : Keyring) (e' : p.Entropy) : Type 0 where
    fresh : Bytes
    wrapping_cipher : p.Cipher
    text : Bytes
    filled : p.fill e 12 ≡ some (fresh, e')
    made : p.new_cipher k.kek ≡ some wrapping_cipher
    wrapped : p.encrypt wrapping_cipher fresh context (encode_key_set k.current k.keys) ≡ some text
    result : k' ≡ record k { nonce = fresh; sealed = text }

  reseal-Resealed :
      (k : Keyring) (e : p.Entropy) {k' : Keyring} {e' : p.Entropy}
      → reseal p k e ≡ (ok tt, k', e')
      → Resealed k e k' e'
  unfolding reseal
  reseal-Resealed k e {k'} {e'} h = elim (Option-cases (p.fill e 12)) [
    | inl x ↦ cc (rw (x, reseal) at h)
    | inr ((nonce, e₁), x) ↦ elim (Option-cases (p.new_cipher k.kek)) [
      | inl y ↦ cc (rw (x, y, reseal) at h)
      | inr (c, y) ↦
          elim (Option-cases (p.encrypt c nonce context (encode_key_set k.current k.keys))) [
            | inl z ↦ cc (rw (x, y, z, reseal) at h)
            | inr (text, z) ↦
                let done : Path (Result KeyringError (Unit {0}) × Keyring × p.Entropy)
                    (ok tt, record k { nonce = nonce; sealed = text }, e₁) (ok tt, k', e') =
                  rw (x, y, z, reseal) at h in
                record {
                  fresh = nonce;
                  wrapping_cipher = c;
                  text = text;
                  filled = cc (x, done);
                  made = y;
                  wrapped = z;
                  result = cc done;
                }
          ]
    ]
  ]

  pub reseal-IsKeyring :
      (passphrase : Bytes) (k : Keyring) (e : p.Entropy) {k' : Keyring} {e' : p.Entropy}
      → IsSound p
      → IsKeySet k.current k.keys
      → p.derive passphrase k.salt ≡ some k.kek
      → length k.salt ≡ 16
      → reseal p k e ≡ (ok tt, k', e')
      → IsKeyring p passphrase k' × (k'.keys ≡ k.keys) × (k'.current ≡ k.current)
  reseal-IsKeyring passphrase k e {k'} {e'} sound set derived salted h =
      let r = reseal-Resealed k e h in
      (
        subst (IsKeyring p passphrase) (sym r.result) (record {
          set = set;
          derived = derived;
          salt_length = salted;
          nonce_length = sound.length-fill e 12 r.fresh e' r.filled;
          cipher = r.wrapping_cipher;
          made = r.made;
          wrapped = r.wrapped;
        }),
        ap (λ (t : Keyring). t.keys) r.result,
        ap (λ (t : Keyring). t.current) r.result,
      )
