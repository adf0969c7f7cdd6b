-- ===== src/Crypto/Keyring/KeySet.antt =====
-- The key set as it is sealed: crates/euledb-storage/src/crypto/keyring.rs.
use native.Mathlib.Nat.{mul-mod_left}
use mathlib.Core.List.{append-nil, append_assoc}
use eule_db.Common.{ℕ, ◌+◌, ◌*◌, ◌^◌, ◌<◌, ◌≤◌, ◌≡◌, refl, ap, ◌∙◌, sym, subst, arith, min}
use eule_db.Common.{
  [], ◌∷◌, ◌++◌, length, All, length-append, Bytes, true, ok, err, ==_of_eq, ==_of_ne, not_lt→ltb,
}
use eule_db.Common.{u32_le, u32_from_le-u32_le, u16_from_le-u16_le}
use eule_db.Common.Chunks.{chunks, chunks_nil, chunks-append}
use eule_db.Common.OrdMap.{OrdMap, Sorted, insert_last, contains_key}
use eule_db.Crypto.Keyring.{
  malformed_keyfile, encode_entries, encode_key_set, decode_entries, decode_key_set,
}

-- What a keyring holds: ids of 32 bits, keys of 32 bytes, the ids ascending, the current key among them.
pub record IsKeySet (current : ℕ) (keys : OrdMap Bytes) : Type 0 where
  pub entries : All (λ (e : ℕ × Bytes). (e.0 < 2 ^ 32) × (length e.1 ≡ 32)) keys
  pub ascending : Sorted keys
  pub held : contains_key current keys ≡ true
  pub current_small : current < 2 ^ 32

pub length-encode_entries :
    (keys : OrdMap Bytes)
    → All (λ (e : ℕ × Bytes). (e.0 < 2 ^ 32) × (length e.1 ≡ 32)) keys
    → length (encode_entries keys) ≡ length keys * 36
unfolding encode_entries
length-encode_entries [] h = omega arith
length-encode_entries ((id, key) ∷ rest) ((hi, hk), h) =
    omega (arith, length-append key (encode_entries rest), length-encode_entries rest h)

-- The current key is one of them, so there is one.
pub IsKeySet-pos : (current : ℕ) (keys : OrdMap Bytes) → IsKeySet current keys → 0 < length keys
unfolding contains_key
IsKeySet-pos current [] k = cc (k.held)
IsKeySet-pos current (e ∷ keys) k = omega arith

pub length-encode_key_set :
    (current : ℕ) (keys : OrdMap Bytes)
    → IsKeySet current keys
    → length (encode_key_set current keys) ≡ 6 + length keys * 36
unfolding encode_key_set
length-encode_key_set current keys k = omega (arith, length-encode_entries keys k.entries)

-- The entries are read back behind those that were read before.
decode-encode_entries :
    (keys acc : OrdMap Bytes)
    → All (λ (e : ℕ × Bytes). (e.0 < 2 ^ 32) × (length e.1 ≡ 32)) keys
    → Sorted (acc ++ keys)
    → decode_entries (chunks 36 (encode_entries keys)) acc ≡ ok (acc ++ keys)
unfolding decode_entries encode_entries
decode-encode_entries [] acc h s = rw (chunks_nil 36) (ap ok (sym (append-nil acc)))
decode-encode_entries ((id, key) ∷ rest) acc ((hi, hk), h) s =
    rw (← append_assoc (u32_le id) key (encode_entries rest)) (
      rw (chunks-append 36 (u32_le id ++ key) (encode_entries rest) (omega arith) (omega arith)) (
        rw (==_of_eq (length key) 32 hk) (
          rw (u32_from_le-u32_le id hi) (
            rw (insert_last id key acc rest s) (
              decode-encode_entries rest (acc ++ (id, key) ∷ []) h
                (subst Sorted (sym (append_assoc acc ((id, key) ∷ []) rest)) s)
              ∙ ap ok (append_assoc acc ((id, key) ∷ []) rest))))))

-- A key set of at most 65,535 keys is read back as it was.
pub decode-encode_key_set :
    (current : ℕ) (keys : OrdMap Bytes)
    → IsKeySet current keys
    → length keys ≤ 65535
    → decode_key_set (encode_key_set current keys) ≡ ok (current, keys)
unfolding decode_key_set encode_key_set
decode-encode_key_set current keys k few =
    let size = length-encode_entries keys k.entries in
    let count : min (length keys) 65535 ≡ length keys = omega arith in
    rw (not_lt→ltb (length (encode_key_set current keys)) 6 (omega arith)) (
      rw (count, u16_from_le-u16_le (length keys) (omega arith))
        (rw (size, ==_of_eq (length keys * 36) (length keys * 36) refl)
          (rw (mul-mod_left (length keys) 36) (
            rw (decode-encode_entries keys [] k.entries k.ascending)
              (rw (u32_from_le-u32_le current k.current_small) (rw k.held))))))

-- With more keys the count is cut to 65,535, and the bytes are refused.
pub decode-encode_key_set_overflow :
    (current : ℕ) (keys : OrdMap Bytes)
    → IsKeySet current keys
    → 65535 < length keys
    → decode_key_set (encode_key_set current keys)
      ≡ err (malformed_keyfile "key set does not hold the number of keys it declares")
unfolding decode_key_set encode_key_set
decode-encode_key_set_overflow current keys k many =
    let size = length-encode_entries keys k.entries in
    let count : min (length keys) 65535 ≡ 65535 = omega arith in
    rw (not_lt→ltb (length (encode_key_set current keys)) 6 (omega arith))
      (rw count (rw (size, ==_of_ne (length keys * 36) (65535 * 36) (omega arith))))
