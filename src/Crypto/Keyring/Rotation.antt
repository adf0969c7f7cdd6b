-- ===== src/Crypto/Keyring/Rotation.antt =====
-- What a rotation of the data key leaves: crates/euledb-storage/src/crypto/keyring.rs.
use eule_db.Common.{
  ℕ, suc, ◌+◌, ◌^◌, ◌<◌, ◌≡◌, ap, ◌∙◌, sym, arith, inl, inr, ltb, Bool-cases, Option-cases, ==_iff,
}
use eule_db.Common.{length, Bytes, some, none, ok, if◌then◌else◌, ◌==◌}
use eule_db.Common.OrdMap.{
  OrdMap, Sorted, get, insert, last_key, get-insert, contains_key-insert_self, Sorted-insert,
}
use eule_db.Common.OrdMap.Fresh.{last_key-ne-none, get-above, length-insert, All-insert}
use eule_db.Crypto.Platform.{Platform, IsSound}
use eule_db.Crypto.Keyring.{Keyring, reseal, rotate_data_key, fresh_id, next_id, data_key}
use eule_db.Crypto.Keyring.KeySet.{IsKeySet, IsKeySet-pos}
use eule_db.Crypto.Keyring.Keyfile.{IsKeyring}
use eule_db.Crypto.Keyring.Reseal.{after_reseal-eq-ok, reseal-IsKeyring}

fresh_id-next :
    (keys : OrdMap Bytes) (id : ℕ)
    → Sorted keys
    → 0 < length keys
    → fresh_id keys ≡ some id
    → (get id keys ≡ none) × (id < 2 ^ 32)
unfolding fresh_id next_id
fresh_id-next keys id s pos h = elim (Option-cases (last_key keys)) [
  | inl x ↦ absurd (last_key-ne-none keys pos x)
  | inr (l, x) ↦
      let h' : (if ltb (l + 1) (2 ^ 32) then some (l + 1) else none) ≡ some id =
        rw (x, fresh_id) at h in
      (get-above id l keys s x (ground arith), ground arith)
]

IsKeySet-insert :
    (current id : ℕ) (key : Bytes) (keys : OrdMap Bytes)
    → IsKeySet current keys
    → id < 2 ^ 32
    → length key ≡ 32
    → IsKeySet id (insert id key keys)
IsKeySet-insert current id key keys k small size = record {
  entries =
      All-insert (λ (e : ℕ × Bytes). (e.0 < 2 ^ 32) × (length e.1 ≡ 32)) id key keys (small, size)
        k.entries;
  ascending = Sorted-insert id key keys k.ascending;
  held = contains_key-insert_self id key keys;
  current_small = small;
}

-- An insertion under an id that is not held takes no key away.
get-insert_fresh :
    (id j : ℕ) (key found : Bytes) (keys : OrdMap Bytes)
    → get id keys ≡ none
    → get j keys ≡ some found
    → get j (insert id key keys) ≡ some found
get-insert_fresh id j key found keys fresh h = elim (Bool-cases (id == j)) [
  | inl e ↦ cc (fresh, h, (==_iff id j).0 e)
  | inr e ↦ get-insert id j key keys ∙ rw e h
]

module _ (p : Platform) where
  rotated :
      (passphrase : Bytes) (k : Keyring) (e : p.Entropy) {id : ℕ} {k' : Keyring} {e' : p.Entropy}
      → IsSound p
      → IsKeyring p passphrase k
      → rotate_data_key p k e ≡ (ok id, k', e')
      → IsKeyring p passphrase k'
        × (k'.current ≡ id)
        × (data_key k id ≡ none)
        × ((j : ℕ) (key : Bytes) → data_key k j ≡ some key → data_key k' j ≡ some key)
        × (length k'.keys ≡ suc (length k.keys))
  unfolding rotate_data_key data_key
  rotated passphrase k e {id} {k'} {e'} sound v h = elim (Option-cases (fresh_id k.keys)) [
    | inl x ↦ cc (rw (x, rotate_data_key) at h)
    | inr (next, x) ↦ elim (Option-cases (p.fill e 32)) [
      | inl y ↦ cc (rw (x, y, rotate_data_key) at h)
      | inr ((key, e₁), y) ↦
          let (fresh, small) =
            fresh_id-next k.keys next v.set.ascending (IsKeySet-pos k.current k.keys v.set) x in
          let keys = insert next key k.keys in
          let (resealed, same) =
            after_reseal-eq-ok p next (reseal p (record k { keys = keys; current = next }) e₁)
              (rw (x, y, rotate_data_key) at h) in
          let (valid, held, now) =
            reseal-IsKeyring p passphrase (record k { keys = keys; current = next }) e₁ sound
              (IsKeySet-insert k.current next key k.keys v.set small
                (sound.length-fill e 32 key e₁ y))
              v.derived v.salt_length resealed in
          (
            valid,
            now ∙ same,
            ap (λ t. get t k.keys) (sym same) ∙ fresh,
            λ j found was. ap (get j) held ∙ get-insert_fresh next j key found k.keys fresh was,
            ap length held ∙ length-insert next key k.keys fresh,
          )
    ]
  ]

  -- Over a sound platform, a rotation of a valid keyring that succeeds adds one key under an id that
  -- was not held, seals with it from then on, and leaves a keyring that is valid for the same
  -- passphrase.
  pub rotate_data_key-IsKeyring :
      (passphrase : Bytes) (k : Keyring) (e : p.Entropy) {id : ℕ} {k' : Keyring} {e' : p.Entropy}
      → IsSound p
      → IsKeyring p passphrase k
      → rotate_data_key p k e ≡ (ok id, k', e')
      → IsKeyring p passphrase k'
        × (k'.current ≡ id)
        × (data_key k id ≡ none)
        × (length k'.keys ≡ suc (length k.keys))
  rotate_data_key-IsKeyring passphrase k e sound v h =
      let (valid, now, fresh, kept, size) = rotated passphrase k e sound v h in
      (valid, now, fresh, size)

  -- Over a sound platform, a rotation of a valid keyring that succeeds keeps every data key that was
  -- held under its id.
  pub data_key-rotate_data_key :
      (passphrase : Bytes) (k : Keyring) (e : p.Entropy) (j : ℕ) (key : Bytes) {id : ℕ}
      {k' : Keyring} {e' : p.Entropy}
      → IsSound p
      → IsKeyring p passphrase k
      → rotate_data_key p k e ≡ (ok id, k', e')
      → data_key k j ≡ some key
      → data_key k' j ≡ some key
  data_key-rotate_data_key passphrase k e j key sound v h was =
      let (valid, now, fresh, kept, size) = rotated passphrase k e sound v h in kept j key was
