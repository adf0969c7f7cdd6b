-- ===== src/Crypto/Keyring.antt =====
-- crates/euledb-storage/src/crypto/keyring.rs: the keyring, and the keyfile it is persisted as.
-- Text is its UTF-8 bytes. A method that changes the keyring returns it beside its answer, since a
-- failure half way leaves what was written before it.
pub mod KeySet
pub mod Keyfile
pub mod Reseal
pub mod Rotation
pub mod Passphrase
use eule_db.Common.{ℕ, ◌+◌, ◌-◌, ◌*◌, ◌%◌, ◌^◌, min, List, [], ◌∷◌, ◌++◌, length, take, drop, Bytes}
use eule_db.Common.{
  Bool, not, Option, none, some, Result, ok, err, ok_or, refuse_if, ◌>>=◌, ◌>>◌, map_err,
}
use eule_db.Common.{ltb, ◌==◌, if◌then◌else◌, u16_le, u32_le, u16_from_le, u32_from_le}
use eule_db.Common.Chunks.{chunks}
use eule_db.Common.OrdMap.{OrdMap, get, contains_key, insert, last_key}
use Prim.Native.String.{String}
use eule_db.Crypto.Platform.{Platform}
use eule_db.Crypto.Frame.{BlockFrame, byte_at}

abbrev pub version : ℕ
version = 2

abbrev pub salt_len : ℕ
salt_len = 16

abbrev pub nonce_len : ℕ
nonce_len = 12

abbrev pub tag_len : ℕ
tag_len = 16

abbrev pub key_len : ℕ
key_len = 32

abbrev pub prefix_len : ℕ
prefix_len = 29

abbrev pub entry_len : ℕ
entry_len = 36

abbrev pub set_header_len : ℕ
set_header_len = 6

-- The nonce of a keyring that is not sealed yet.
abbrev pub no_nonce : Bytes
no_nonce = 0 ∷ 0 ∷ 0 ∷ 0 ∷ 0 ∷ 0 ∷ 0 ∷ 0 ∷ 0 ∷ 0 ∷ 0 ∷ 0 ∷ []

-- "euledb-keyfile-v2"
abbrev pub context : Bytes
context =
    101 ∷ 117 ∷ 108 ∷ 101 ∷ 100 ∷ 98 ∷ 45 ∷ 107 ∷ 101 ∷ 121 ∷ 102 ∷ 105 ∷ 108 ∷ 101 ∷ 45 ∷ 118 ∷ 50
    ∷ []

-- "euledb/token-key/v1"
abbrev token_context : Bytes
token_context =
    101 ∷ 117 ∷ 108 ∷ 101 ∷ 100 ∷ 98 ∷ 47 ∷ 116 ∷ 111 ∷ 107 ∷ 101 ∷ 110 ∷ 45 ∷ 107 ∷ 101 ∷ 121 ∷ 47
    ∷ 118 ∷ 49 ∷ []

pub data KeyringError : Type 0 where
  wrong_passphrase : KeyringError
  malformed_keyfile : String → KeyringError
  unsupported_version : ℕ → KeyringError
  key_space_exhausted random derivation wrapping : KeyringError

-- `DataKeyId::FIRST` and `DataKeyId::next`; the id is a `u32`.
abbrev pub first_id : ℕ
first_id = 1

unfoldable pub next_id : ℕ → Option ℕ
next_id id = if ltb (id + 1) (2 ^ 32) then some (id + 1) else none

pub record Keyring : Type 0 where
  pub keys : OrdMap Bytes
  pub current : ℕ
  pub kek : Bytes
  pub salt : Bytes
  pub nonce : Bytes
  pub sealed : Bytes

-- The entries of a key set, each an id and a key.
unfoldable pub encode_entries : OrdMap Bytes → Bytes
encode_entries [] = []
encode_entries ((id, key) ∷ rest) = u32_le id ++ (key ++ encode_entries rest)

abbrev key_count : OrdMap Bytes → ℕ
key_count keys = length keys

-- A count that does not fit a `u16` is written as the greatest one.
unfoldable pub encode_key_set : ℕ → OrdMap Bytes → Bytes
unfolding encode_entries
encode_key_set current keys =
    u32_le current ++ (u16_le (min (key_count keys) 65535) ++ encode_entries keys)

-- The loop over the entries, inserting each.
unfoldable pub decode_entries : List Bytes → OrdMap Bytes → Result KeyringError (OrdMap Bytes)
decode_entries [] keys = ok keys
decode_entries (entry ∷ rest) keys = do
  let id = u32_from_le (byte_at 0 entry) (byte_at 1 entry) (byte_at 2 entry) (byte_at 3 entry)
  let key = drop 4 entry
  refuse_if (not (length key == key_len)) (malformed_keyfile "a key is not the expected length")
  decode_entries rest (insert id key keys)

unfoldable pub decode_key_set : Bytes → Result KeyringError (ℕ × OrdMap Bytes)
decode_key_set bytes = do
  refuse_if (ltb (length bytes) set_header_len)
      (malformed_keyfile "key set is shorter than its own header")
  let current = u32_from_le (byte_at 0 bytes) (byte_at 1 bytes) (byte_at 2 bytes) (byte_at 3 bytes)
  let count = u16_from_le (byte_at 4 bytes) (byte_at 5 bytes)
  let entries = drop set_header_len bytes
  refuse_if (not (length entries == count * entry_len))
      (malformed_keyfile "key set does not hold the number of keys it declares")
  refuse_if (not (length entries % entry_len == 0)) (malformed_keyfile "key set ends mid-entry")
  keys ← decode_entries (chunks entry_len entries) []
  refuse_if (not (contains_key current keys))
      (malformed_keyfile "the current key is not in the key set")
  ok (current, keys)

unfoldable pub to_keyfile : Keyring → Bytes
to_keyfile k = version ∷ (k.salt ++ (k.nonce ++ k.sealed))

unfoldable pub data_key : Keyring → ℕ → Option Bytes
data_key k id = get id k.keys

unfoldable pub frame : Keyring → ℕ → BlockFrame
frame k block_size = record { keys = k.keys; current = k.current; block_size = block_size }

-- The id after the greatest one held.
unfoldable pub fresh_id : OrdMap Bytes → Option ℕ
unfolding next_id
fresh_id keys = elim (last_key keys) [ none ↦ next_id first_id | some id ↦ next_id id ]

module _ (p : Platform) where
  unfoldable pub derive_key_encryption_key : Bytes → Bytes → Result KeyringError Bytes
  derive_key_encryption_key passphrase salt = ok_or (p.derive passphrase salt) derivation

  -- What a keyring is left as when a step of `reseal` gives no answer, and when all do.
  unfoldable pub reseal : Keyring → p.Entropy → Result KeyringError (Unit {0}) × Keyring × p.Entropy
  reseal k e = elim (p.fill e nonce_len) [
    | none ↦ (err random, k, e)
    | some (nonce, e') ↦
        let k' : Keyring = record k { nonce = nonce } in
        let plaintext = encode_key_set k.current k.keys in
        elim (p.new_cipher k.kek) [
          | none ↦ (err wrapping, k', e')
          | some c ↦ elim (p.encrypt c nonce context plaintext) [
            | none ↦ (err wrapping, k', e')
            | some sealed ↦ (ok tt, record k' { sealed = sealed }, e')
          ]
        ]
  ]

  -- The answer of an operation that ends with `reseal`.
  abbrev pub after_reseal {ℓ} :
      {A : Type ℓ}
      → A
      → Result KeyringError (Unit {0}) × Keyring × p.Entropy
      → Result KeyringError A × Keyring × p.Entropy
  after_reseal a (ok _, k, e) = (ok a, k, e)
  after_reseal a (err x, k, e) = (err x, k, e)

  -- A new keyring is dropped with its entropy when a step fails.
  abbrev pub created :
      Result KeyringError (Unit {0}) × Keyring × p.Entropy
      → Result KeyringError (Keyring × p.Entropy)
  created (ok _, k, e) = ok (k, e)
  created (err x, k, e) = err x

  unfoldable pub create : Bytes → p.Entropy → Result KeyringError (Keyring × p.Entropy)
  unfolding reseal derive_key_encryption_key
  create passphrase e = do
    (key, e₁) ← ok_or (p.fill e key_len) random
    (salt, e₂) ← ok_or (p.fill e₁ salt_len) random
    kek ← derive_key_encryption_key passphrase salt
    created (
        reseal
          (record {
            keys = insert first_id key [];
            current = first_id;
            kek = kek;
            salt = salt;
            nonce = no_nonce;
            sealed = [];
          })
          e₂)

  unfoldable pub open_keyfile : Bytes → Bytes → Result KeyringError Keyring
  unfolding derive_key_encryption_key
  open_keyfile keyfile passphrase = do
    refuse_if (ltb (length keyfile) prefix_len) (malformed_keyfile "shorter than a keyfile header")
    refuse_if (not (byte_at 0 keyfile == version)) (unsupported_version (byte_at 0 keyfile))
    let salt = take salt_len (drop 1 keyfile)
    let nonce = take nonce_len (drop 17 keyfile)
    let sealed = drop prefix_len keyfile
    refuse_if (ltb (length sealed) (set_header_len + entry_len + tag_len))
        (malformed_keyfile "too short to hold even one key")
    refuse_if (not ((length sealed - tag_len - set_header_len) % entry_len == 0))
        (malformed_keyfile "length is not a whole number of keys")
    kek ← derive_key_encryption_key passphrase salt
    c ← ok_or (p.new_cipher kek) wrapping
    opened ← ok_or (p.decrypt c nonce context sealed) wrong_passphrase
    (current, keys) ← decode_key_set opened
    ok (record {
      keys = keys;
      current = current;
      kek = kek;
      salt = salt;
      nonce = nonce;
      sealed = sealed;
    })

  unfoldable pub rotate_data_key : Keyring → p.Entropy → Result KeyringError ℕ × Keyring × p.Entropy
  unfolding reseal fresh_id
  rotate_data_key k e = elim (fresh_id k.keys) [
    | none ↦ (err key_space_exhausted, k, e)
    | some next ↦ elim (p.fill e key_len) [
      | none ↦ (err random, k, e)
      | some (key, e') ↦
          after_reseal next (reseal (record k { keys = insert next key k.keys; current = next }) e')
    ]
  ]

  unfoldable pub change_passphrase :
      Keyring → Bytes → p.Entropy → Result KeyringError (Unit {0}) × Keyring × p.Entropy
  unfolding reseal derive_key_encryption_key
  change_passphrase k passphrase e = elim (p.fill e salt_len) [
    | none ↦ (err random, k, e)
    | some (salt, e') ↦ elim (derive_key_encryption_key passphrase salt) [
      | err x ↦ (err x, record k { salt = salt }, e')
      | ok kek ↦ after_reseal tt (reseal (record k { salt = salt; kek = kek }) e')
    ]
  ]

  unfoldable pub token_key : Keyring → Bytes
  token_key k = p.hmac k.kek token_context
