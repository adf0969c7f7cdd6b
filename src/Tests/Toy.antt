-- ===== src/Tests/Toy.antt =====
-- A platform that computes: a tag of 16 bytes names the key and the associated data. It hides nothing;
-- it shows that the hypotheses on a platform can hold.
use eule_db.Common.{
  ℕ, zero, suc, ◌+◌, ◌-◌, ◌%◌, ◌≡◌, refl, ap, sym, subst, ◌∙◌, arith, [], ◌∷◌, ◌++◌, length, take,
  drop,
}
use eule_db.Common.{Bytes, Option, none, some, ◌==◌, eq_bytes, eq_bytes_refl, if◌then◌else◌}
use eule_db.Common.{length-append, length-take}
use eule_db.Common.Slices.{take-append_left, drop-append_left}
use eule_db.Crypto.Platform.{Platform, IsSound}

abbrev pub zeros : ℕ → ℕ → Bytes
zeros zero b = []
zeros (suc n) b = b ∷ zeros n b

length-zeros : (n b : ℕ) → length (zeros n b) ≡ n
length-zeros zero b = refl
length-zeros (suc n) b = ap suc (length-zeros n b)

abbrev pub tag : Bytes → Bytes → Bytes → Bytes
tag key nonce aad = take 16 (take 2 key ++ (take 1 nonce ++ (aad ++ zeros 16 0)))

length-tag : (key nonce aad : Bytes) → length (tag key nonce aad) ≡ 16
length-tag key nonce aad = omega (
  arith,
  length-take 16 (take 2 key ++ (take 1 nonce ++ (aad ++ zeros 16 0))),
  length-append (take 2 key) (take 1 nonce ++ (aad ++ zeros 16 0)),
  length-append (take 1 nonce) (aad ++ zeros 16 0),
  length-append aad (zeros 16 0),
  length-zeros 16 0,
)

abbrev pub make_cipher : Bytes → Option Bytes
make_cipher key = if length key == 32 then some key else none

abbrev pub seal_bytes : Bytes → Bytes → Bytes → Bytes → Option Bytes
seal_bytes key nonce aad msg = some (msg ++ tag key nonce aad)

abbrev pub open_bytes : Bytes → Bytes → Bytes → Bytes → Option Bytes
open_bytes key nonce aad sealed =
    let n = length sealed - 16 in
    if eq_bytes (drop n sealed) (tag key nonce aad) then some (take n sealed) else none

abbrev pub fill_bytes : ℕ → ℕ → Option (Bytes × ℕ)
fill_bytes e n = some (zeros n (e % 256), e + 1)

abbrev pub derive_key : Bytes → Bytes → Option Bytes
derive_key passphrase salt = some (take 32 (passphrase ++ (salt ++ zeros 32 7)))

abbrev pub digest : Bytes → Bytes
digest message = take 32 (5 ∷ (message ++ zeros 32 1))

abbrev pub toy : Platform
toy = record {
  Cipher = Bytes;
  new_cipher = make_cipher;
  encrypt = seal_bytes;
  decrypt = open_bytes;
  Entropy = ℕ;
  fill = fill_bytes;
  derive = derive_key;
  hmac = λ key message. digest (key ++ message);
  sha256 = digest;
}

open-seal_bytes :
    (key nonce aad msg : Bytes) → open_bytes key nonce aad (msg ++ tag key nonce aad) ≡ some msg
open-seal_bytes key nonce aad msg =
    let size = length-append msg (tag key nonce aad) in
    let n : length (msg ++ tag key nonce aad) - 16 ≡ length msg =
      omega (arith, length-tag key nonce aad) in
    rw n (
      rw
        (
          drop-append_left (length msg) msg (tag key nonce aad) refl,
          take-append_left (length msg) msg (tag key nonce aad) refl,
          eq_bytes_refl (tag key nonce aad),
        )
        refl)

pub toy-IsSound : IsSound toy
toy-IsSound = record {
  length-fill = λ e n bytes e' h.
      let eq : zeros n (e % 256) ≡ bytes = cc in ap length (sym eq) ∙ length-zeros n (e % 256);
  length-encrypt = λ c nonce aad msg sealed h.
      let eq : msg ++ tag c nonce aad ≡ sealed = cc in
      omega (arith, ap length eq, length-append msg (tag c nonce aad), length-tag c nonce aad);
  decrypt-encrypt = λ c nonce aad msg sealed h.
      let eq : msg ++ tag c nonce aad ≡ sealed = cc in
      subst (λ t. open_bytes c nonce aad t ≡ some msg) eq (open-seal_bytes c nonce aad msg);
}
