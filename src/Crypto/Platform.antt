-- ===== src/Crypto/Platform.antt =====
-- What the sealing layer takes from elsewhere: the crates `aes-gcm`, `argon2`, `hmac` and `sha2`, and
-- the operating system's random source. The operations are parameters of the model; `IsSound` states
-- the documented behaviour that the layer relies on.
use eule_db.Common.{ℕ, ◌+◌, ◌≡◌, Option, some, Bytes, length}

pub record Platform : Type 1 where
  -- `Aes256Gcm`, built from a key
  pub Cipher : Type 0
  pub new_cipher : Bytes → Option Cipher
  -- The nonce, the associated data, the message
  pub encrypt : Cipher → Bytes → Bytes → Bytes → Option Bytes
  pub decrypt : Cipher → Bytes → Bytes → Bytes → Option Bytes
  -- `getrandom::fill`: what the source still holds is passed along
  pub Entropy : Type 0
  pub fill : Entropy → ℕ → Option (Bytes × Entropy)
  -- Argon2id over a passphrase and a salt
  pub derive : Bytes → Bytes → Option Bytes
  -- HMAC-SHA256 over a key and a message, and SHA-256
  pub hmac : Bytes → Bytes → Bytes
  pub sha256 : Bytes → Bytes

pub record IsSound (p : Platform) : Type 0 where
  -- A buffer of `n` bytes is filled with `n` bytes.
  pub length-fill :
      (e : p.Entropy) (n : ℕ) (bytes : Bytes) (e' : p.Entropy)
      → p.fill e n ≡ some (bytes, e')
      → length bytes ≡ n
  -- The ciphertext is the message's length and a tag of 16 bytes.
  pub length-encrypt :
      (c : p.Cipher) (nonce aad msg sealed : Bytes)
      → p.encrypt c nonce aad msg ≡ some sealed
      → length sealed ≡ length msg + 16
  -- What was encrypted decrypts under the same nonce and associated data.
  pub decrypt-encrypt :
      (c : p.Cipher) (nonce aad msg sealed : Bytes)
      → p.encrypt c nonce aad msg ≡ some sealed
      → p.decrypt c nonce aad sealed ≡ some msg

-- No operation refuses: the random source and the cipher answer every request.
pub record Answers (p : Platform) : Type 0 where
  pub new_cipher_answers : (key : Bytes) → (c : p.Cipher) × (p.new_cipher key ≡ some c)
  pub fill_answers : (e : p.Entropy) (n : ℕ) → (r : Bytes × p.Entropy) × (p.fill e n ≡ some r)
  pub encrypt_answers :
      (c : p.Cipher) (nonce aad msg : Bytes)
      → (sealed : Bytes) × (p.encrypt c nonce aad msg ≡ some sealed)
