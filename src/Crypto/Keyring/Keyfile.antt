-- ===== src/Crypto/Keyring/Keyfile.antt =====
-- Writing a keyring and opening it again: crates/euledb-storage/src/crypto/keyring.rs.
use native.Mathlib.Nat.{mul-mod_left}
use mathlib.Core.List.{append_assoc}
use eule_db.Common.{suc, ◌-◌, ◌*◌, ◌≤◌, ◌≡◌, ap, ◌∙◌, sym, arith}
use eule_db.Common.{
  ◌++◌, length, take, drop, length-append, Bytes, some, ok, err, not_lt→ltb, ◌>>=◌, ◌<◌, refl,
}
use eule_db.Common.Slices.{take-append_left, drop-append_left}
use eule_db.Crypto.Platform.{Platform, IsSound}
use eule_db.Crypto.Keyring.{
  Keyring, encode_key_set, decode_key_set, malformed_keyfile, to_keyfile, open_keyfile,
  derive_key_encryption_key, context,
}
use eule_db.Crypto.Keyring.KeySet.{
  IsKeySet, IsKeySet-pos, decode-encode_key_set, decode-encode_key_set_overflow,
  length-encode_key_set,
}

module _ (p : Platform) where
  -- The keyring's wrapped form is the one of its key set, under the key of the passphrase.
  pub record IsKeyring (passphrase : Bytes) (k : Keyring) : Type 0 where
    pub set : IsKeySet k.current k.keys
    pub derived : p.derive passphrase k.salt ≡ some k.kek
    pub salt_length : length k.salt ≡ 16
    pub nonce_length : length k.nonce ≡ 12
    pub cipher : p.Cipher
    pub made : p.new_cipher k.kek ≡ some cipher
    pub wrapped : p.encrypt cipher k.nonce context (encode_key_set k.current k.keys) ≡ some k.sealed

  -- The keyfile of a valid keyring opens with its passphrase if the key set in it decodes.
  open_keyfile-decoded :
      (passphrase : Bytes) (k : Keyring)
      → IsSound p
      → IsKeyring passphrase k
      → open_keyfile p (to_keyfile k) passphrase ≡ (
          decode_key_set (encode_key_set k.current k.keys)
          >>= (λ (current, keys). ok (record k { keys = keys; current = current })))
  unfolding open_keyfile to_keyfile derive_key_encryption_key
  open_keyfile-decoded passphrase k sound v =
      let size =
        sound.length-encrypt v.cipher k.nonce context (encode_key_set k.current k.keys) k.sealed
          v.wrapped in
      let set_size = length-encode_key_set k.current k.keys v.set in
      let behind_nonce = length-append k.nonce k.sealed in
      let salt : take 16 (k.salt ++ (k.nonce ++ k.sealed)) ≡ k.salt =
        take-append_left 16 k.salt (k.nonce ++ k.sealed) v.salt_length in
      let nonce : drop 16 (k.salt ++ (k.nonce ++ k.sealed)) ≡ k.nonce ++ k.sealed =
        drop-append_left 16 k.salt (k.nonce ++ k.sealed) v.salt_length in
      let nonce_first : take 12 (k.nonce ++ k.sealed) ≡ k.nonce =
        take-append_left 12 k.nonce k.sealed v.nonce_length in
      let behind : drop 28 (k.salt ++ (k.nonce ++ k.sealed)) ≡ k.sealed =
        ap (drop 28) (sym (append_assoc k.salt k.nonce k.sealed))
        ∙ drop-append_left 28 (k.salt ++ k.nonce) k.sealed
            (omega (arith, length-append k.salt k.nonce)) in
      let count : length k.sealed - 16 - 6 ≡ length k.keys * 36 = omega arith in
      let some_key = IsKeySet-pos k.current k.keys v.set in
      rw
        (not_lt→ltb (suc (length (k.salt ++ (k.nonce ++ k.sealed)))) 29
          (omega (arith, length-append k.salt (k.nonce ++ k.sealed))))
        (rw (behind, salt, nonce, nonce_first)
          (rw
            (not_lt→ltb (length k.sealed) 58 (omega arith), count, mul-mod_left (length k.keys) 36)
            (rw (v.derived, v.made)
              (rw
                (sound.decrypt-encrypt v.cipher k.nonce context (encode_key_set k.current k.keys)
                  k.sealed v.wrapped)
                refl))))

  -- Over a sound platform, a valid keyring of at most 65,535 keys opens from its own keyfile with
  -- its passphrase, unchanged.
  pub open_keyfile-to_keyfile :
      (passphrase : Bytes) (k : Keyring)
      → IsSound p
      → IsKeyring passphrase k
      → length k.keys ≤ 65535
      → open_keyfile p (to_keyfile k) passphrase ≡ ok k
  open_keyfile-to_keyfile passphrase k sound v few =
      open_keyfile-decoded passphrase k sound v
      ∙ rw (decode-encode_key_set k.current k.keys v.set few) refl

  -- Over a sound platform, a valid keyring of more than 65,535 keys writes a keyfile that its own
  -- passphrase does not open: the number of keys that it declares is not the number that it holds.
  pub open_keyfile-to_keyfile_overflow :
      (passphrase : Bytes) (k : Keyring)
      → IsSound p
      → IsKeyring passphrase k
      → 65535 < length k.keys
      → open_keyfile p (to_keyfile k) passphrase
        ≡ err (malformed_keyfile "key set does not hold the number of keys it declares")
  open_keyfile-to_keyfile_overflow passphrase k sound v many =
      open_keyfile-decoded passphrase k sound v
      ∙ rw (decode-encode_key_set_overflow k.current k.keys v.set many) refl
