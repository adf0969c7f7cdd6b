-- ===== src/Crypto/Keyring/Passphrase.antt =====
-- What creating a keyring and changing its passphrase leave: crates/euledb-storage/src/crypto/keyring.rs.
use eule_db.Common.{◌≡◌, refl, ap, arith, inl, inr, Option-cases}
use eule_db.Common.{[], ◌∷◌, length, Bytes, true, Result, ok, err, ok_or, ok_or-eq-ok, >>=-eq-ok}
use eule_db.Common.OrdMap.{contains_key, insert}
use eule_db.Crypto.Platform.{Platform, IsSound}
use eule_db.Crypto.Keyring.{
  no_nonce, Keyring, KeyringError, random, derivation, derive_key_encryption_key, reseal, create,
  change_passphrase, created,
}
use eule_db.Crypto.Keyring.Keyfile.{IsKeyring}
use eule_db.Crypto.Keyring.Reseal.{after_reseal-eq-ok, reseal-IsKeyring}

module _ (p : Platform) where
  created-eq-ok :
      (r : Result KeyringError (Unit {0}) × Keyring × p.Entropy) {k' : Keyring} {e' : p.Entropy}
      → created p r ≡ ok (k', e')
      → r ≡ (ok tt, k', e')
  created-eq-ok (ok _, k, e) h = cc
  created-eq-ok (err x, k, e) h = cc

  -- Over a sound platform, a keyring whose creation succeeds holds one key, under the id 1, which it
  -- seals with, and is valid for its passphrase.
  pub create-IsKeyring :
      (passphrase : Bytes) (e : p.Entropy) {k : Keyring} {e' : p.Entropy}
      → IsSound p
      → create p passphrase e ≡ ok (k, e')
      → IsKeyring p passphrase k × (k.current ≡ 1) × (length k.keys ≡ 1)
  unfolding create derive_key_encryption_key
  create-IsKeyring passphrase e sound h =
      let ((key, e₁), x, h₁) = >>=-eq-ok (ok_or (p.fill e 32) random) _ h in
      let ((salt, e₂), y, h₂) = >>=-eq-ok (ok_or (p.fill e₁ 16) random) _ h₁ in
      let (kek, z, h₃) = >>=-eq-ok (ok_or (p.derive passphrase salt) derivation) _ h₂ in
      let (valid, held, now) =
        reseal-IsKeyring p passphrase
          (record {
            keys = (1, key) ∷ [];
            current = 1;
            kek = kek;
            salt = salt;
            nonce = no_nonce;
            sealed = [];
          })
          e₂ sound
          (record {
            entries = ((omega arith, sound.length-fill e 32 key e₁ (ok_or-eq-ok _ _ x)), tt);
            ascending = tt;
            held = only key;
            current_small = omega arith;
          })
          (ok_or-eq-ok _ _ z) (sound.length-fill e₁ 16 salt e₂ (ok_or-eq-ok _ _ y))
          (created-eq-ok _ (one_key key kek salt e₂ h₃)) in
      (valid, now, ap length held)
    where
      only : (key : Bytes) → contains_key 1 ((1, key) ∷ []) ≡ true
      only key = unfold contains_key in refl

      one_key :
          (key kek salt : Bytes) (e₂ : p.Entropy) {r : Result KeyringError (Keyring × p.Entropy)}
          → created p (
              reseal p
                (record {
                  keys = insert 1 key [];
                  current = 1;
                  kek = kek;
                  salt = salt;
                  nonce = no_nonce;
                  sealed = [];
                })
                e₂)
            ≡ r
          → created p (
              reseal p
                (record {
                  keys = (1, key) ∷ [];
                  current = 1;
                  kek = kek;
                  salt = salt;
                  nonce = no_nonce;
                  sealed = [];
                })
                e₂)
            ≡ r
      one_key key kek salt e₂ h = unfold insert in h

  -- Over a sound platform, a change of the passphrase of a valid keyring that succeeds leaves every
  -- data key and the current id, and a keyring that is valid for the new passphrase.
  pub change_passphrase-IsKeyring :
      (old new : Bytes) (k : Keyring) (e : p.Entropy) {k' : Keyring} {e' : p.Entropy}
      → IsSound p
      → IsKeyring p old k
      → change_passphrase p k new e ≡ (ok tt, k', e')
      → IsKeyring p new k' × (k'.keys ≡ k.keys) × (k'.current ≡ k.current)
  unfolding change_passphrase derive_key_encryption_key
  change_passphrase-IsKeyring old new k e sound v h = elim (Option-cases (p.fill e 16)) [
    | inl x ↦ cc (rw (x, change_passphrase) at h)
    | inr ((salt, e₁), x) ↦ elim (Option-cases (p.derive new salt)) [
      | inl y ↦ cc (rw (x, y, change_passphrase) at h)
      | inr (kek, y) ↦
          let k₁ : Keyring = record k { salt = salt; kek = kek } in
          let (resealed, _) =
            after_reseal-eq-ok p tt (reseal p k₁ e₁) (rw (x, y, change_passphrase) at h) in
          reseal-IsKeyring p new k₁ e₁ sound v.set y (sound.length-fill e 16 salt e₁ x) resealed
    ]
  ]
