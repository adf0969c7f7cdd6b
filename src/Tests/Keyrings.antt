-- ===== src/Tests/Keyrings.antt =====
-- Keyrings that are created, rotated, written and opened again.
use eule_db.Common.{
  ℕ, zero, suc, ◌+◌, ◌^◌, ◌<◌, ◌≡◌, refl, arith, [], ◌∷◌, length, Bytes, ◌++◌, take,
}
use eule_db.Common.{some, none, ok, err, Result, All}
use eule_db.Common.OrdMap.{OrdMap, Above, contains_key, get, insert, last_key}
use eule_db.Crypto.Keyring.{
  context, Keyring, KeyringError, malformed_keyfile, encode_key_set, encode_entries, decode_key_set,
  to_keyfile, open_keyfile, data_key, create, rotate_data_key, change_passphrase, reseal, fresh_id,
  next_id, derive_key_encryption_key,
}
use eule_db.Crypto.Keyring.KeySet.{IsKeySet, decode-encode_key_set}
use eule_db.Crypto.Keyring.Keyfile.{
  IsKeyring, open_keyfile-to_keyfile, open_keyfile-to_keyfile_overflow,
}
use eule_db.Crypto.Keyring.Rotation.{rotate_data_key-IsKeyring, data_key-rotate_data_key}
use eule_db.Crypto.Keyring.Passphrase.{create-IsKeyring, change_passphrase-IsKeyring}
use eule_db.Tests.Toy.{toy, toy-IsSound, zeros, tag}

-- The passphrases "pw" and "new".
abbrev pw : Bytes
pw = b'p' ∷ b'w' ∷ []

abbrev new_pw : Bytes
new_pw = b'n' ∷ b'e' ∷ b'w' ∷ []

abbrev derived_key : Bytes
derived_key = take 32 (pw ++ (zeros 16 3 ++ zeros 32 7))

abbrev no_keyring : Keyring
no_keyring = record { keys = []; current = 0; kek = []; salt = []; nonce = []; sealed = [] }

abbrev keyring_of : Result KeyringError (Keyring × ℕ) → Keyring
keyring_of (ok (k, e)) = k
keyring_of (err x) = no_keyring

unfoldable fresh : Keyring
fresh = keyring_of (create toy pw 40)

fresh_created : create toy pw 40 ≡ ok (fresh, 43)
unfolding fresh create reseal derive_key_encryption_key encode_key_set encode_entries insert
fresh_created = refl

create-IsKeyring_example : IsKeyring toy pw fresh × (fresh.current ≡ 1) × (length fresh.keys ≡ 1)
create-IsKeyring_example = create-IsKeyring toy pw 40 toy-IsSound fresh_created

unfoldable rotated : Keyring
rotated = (rotate_data_key toy fresh 50).1

fresh_rotated : rotate_data_key toy fresh 50 ≡ (ok 2, rotated, 52)
unfolding rotated fresh create reseal derive_key_encryption_key encode_key_set encode_entries insert
    rotate_data_key fresh_id next_id last_key
fresh_rotated = refl

rotate_data_key-IsKeyring_example :
    IsKeyring toy pw rotated
    × (rotated.current ≡ 2)
    × (data_key fresh 2 ≡ none)
    × (length rotated.keys ≡ suc (length fresh.keys))
rotate_data_key-IsKeyring_example =
    rotate_data_key-IsKeyring toy pw fresh 50 toy-IsSound (create-IsKeyring_example.0) fresh_rotated

first_key : data_key fresh 1 ≡ some (zeros 32 40)
unfolding data_key get fresh create reseal derive_key_encryption_key encode_key_set encode_entries
    insert
first_key = refl

data_key-rotate_data_key_example : data_key rotated 1 ≡ some (zeros 32 40)
data_key-rotate_data_key_example =
    data_key-rotate_data_key toy pw fresh 50 1 (zeros 32 40) toy-IsSound
      (create-IsKeyring_example.0) fresh_rotated first_key

open_keyfile-to_keyfile_example : open_keyfile toy (to_keyfile fresh) pw ≡ ok fresh
open_keyfile-to_keyfile_example =
    open_keyfile-to_keyfile toy pw fresh toy-IsSound (create-IsKeyring_example.0)
      (omega (arith, create-IsKeyring_example.2))

unfoldable changed : Keyring
changed = (change_passphrase toy fresh new_pw 60).1

fresh_changed : change_passphrase toy fresh new_pw 60 ≡ (ok tt, changed, 62)
unfolding changed fresh create reseal derive_key_encryption_key encode_key_set encode_entries insert
    change_passphrase
fresh_changed = refl

change_passphrase-IsKeyring_example :
    IsKeyring toy new_pw changed × (changed.keys ≡ fresh.keys) × (changed.current ≡ fresh.current)
change_passphrase-IsKeyring_example =
    change_passphrase-IsKeyring toy pw new_pw fresh 60 toy-IsSound (create-IsKeyring_example.0)
      fresh_changed

-- The ids from `start` on, each with the same key.
abbrev numbered : ℕ → ℕ → OrdMap Bytes
numbered zero start = []
numbered (suc n) start = (start, zeros 32 6) ∷ numbered n (suc start)

numbered-All :
    (n start : ℕ)
    → start + n < 2 ^ 32
    → All (λ (e : ℕ × Bytes). (e.0 < 2 ^ 32) × (length e.1 ≡ 32)) (numbered n start)
numbered-All zero start h = tt
numbered-All (suc n) start h = ((omega arith, refl), numbered-All n (suc start) (omega arith))

numbered-Above : (n lo : ℕ) → Above lo (numbered n (suc lo))
numbered-Above zero lo = tt
numbered-Above (suc n) lo = (omega arith, numbered-Above n (suc lo))

length-numbered : (n start : ℕ) → length (numbered n start) ≡ n
length-numbered zero start = refl
length-numbered (suc n) start = omega (arith, length-numbered n (suc start))

numbered-IsKeySet : (n : ℕ) → n < 4294967290 → IsKeySet 1 (numbered (suc n) 1)
unfolding contains_key
numbered-IsKeySet n h = record {
  entries = numbered-All (suc n) 1 (omega arith);
  ascending = numbered-Above n 1;
  held = refl;
  current_small = omega arith;
}

decode-encode_key_set_example :
    decode_key_set (encode_key_set 1 (numbered 3 1)) ≡ ok (1, numbered 3 1)
decode-encode_key_set_example =
    decode-encode_key_set 1 (numbered 3 1) (numbered-IsKeySet 2 (omega arith)) (omega arith)

-- A keyring of 65,536 keys, wrapped under the key of its passphrase.
abbrev crowded : Keyring
crowded = record {
  keys = numbered 65536 1;
  current = 1;
  kek = derived_key;
  salt = zeros 16 3;
  nonce = zeros 12 9;
  sealed = encode_key_set 1 (numbered 65536 1) ++ tag derived_key (zeros 12 9) context;
}

crowded-IsKeyring : IsKeyring toy pw crowded
crowded-IsKeyring = record {
  set = numbered-IsKeySet 65535 (omega arith);
  derived = refl;
  salt_length = refl;
  nonce_length = refl;
  cipher = derived_key;
  made = refl;
  wrapped = refl;
}

open_keyfile-to_keyfile_overflow_example :
    open_keyfile toy (to_keyfile crowded) pw
    ≡ err (malformed_keyfile "key set does not hold the number of keys it declares")
open_keyfile-to_keyfile_overflow_example =
    open_keyfile-to_keyfile_overflow toy pw crowded toy-IsSound crowded-IsKeyring
      (omega (arith, length-numbered 65536 1))
