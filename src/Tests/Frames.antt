-- ===== src/Tests/Frames.antt =====
-- Sealing and reading an object of two blocks, and uploading it in parts.
use eule_db.Common.{
  ℕ, ◌≡◌, refl, arith, List, [], ◌∷◌, length, Bytes, true, ok, err, Result, flatten,
}
use eule_db.Common.OrdMap.{contains_key, get}
use eule_db.Common.Chunks.{chunks}
use eule_db.Common.Slices.{slice}
use eule_db.Crypto.FrameError.{FrameError}
use eule_db.Crypto.BlockSize
use eule_db.Crypto.Frame.{
  BlockFrame, Range, seal, seal_loop, seal_pieces, associated_data, cipher, header, ciphertext_len,
  plaintext_len, ciphertext_span, open_span, open_object,
}
use eule_db.Crypto.Frame.Lengths.{plaintext_len-ciphertext_len, ciphertext_len-plaintext_len}
use eule_db.Crypto.Frame.RoundTrip.{IsFrame, length-seal, open_span-seal, open_object-seal}
use eule_db.Common.{◌<◌}
use eule_db.Crypto.StoreError.{StoreError}
use eule_db.Crypto.Frame.{seal_block}
use eule_db.Crypto.Upload.Drains.{drain_full_blocks-drains}
use eule_db.Crypto.Upload.{
  UploadState, drain_loop, drain_full_blocks, InnerUpload, upload, new_upload,
}
use eule_db.Crypto.Upload.Equals.{Accepts, upload-seal}
use eule_db.Tests.Toy.{toy, toy-IsSound, zeros}

abbrev key_one : Bytes
key_one = zeros 32 11

abbrev pub writer : BlockFrame
writer = record { keys = (1, zeros 32 11) ∷ []; current = 1; block_size = 64 }

-- The same key, and another that it seals with.
abbrev pub reader : BlockFrame
reader = record { keys = (1, zeros 32 11) ∷ (2, zeros 32 12) ∷ []; current = 2; block_size = 64 }

abbrev pub text : Bytes
text = zeros 70 5

-- The object that a seal answers.
abbrev bytes_of : Result FrameError (Bytes × ℕ) → Bytes
bytes_of (err e) = []
bytes_of (ok (bytes, e)) = bytes

unfoldable pub object : Bytes
object = bytes_of (seal toy writer text 9)

pub object_sealed : seal toy writer text 9 ≡ ok (object, 11)
unfolding object seal seal_loop seal_pieces cipher header associated_data get chunks
object_sealed = refl

pub writer-IsFrame : IsFrame writer
unfolding BlockSize.new contains_key
writer-IsFrame = record {
  size_accepted = refl;
  size_pos = omega arith;
  size_small = omega arith;
  key_small = omega arith;
  key_held = refl;
}

pub same_cipher : cipher toy reader 1 ≡ cipher toy writer 1
unfolding cipher get
same_cipher = refl

pub reader_holds : contains_key 1 reader.keys ≡ true
unfolding contains_key
reader_holds = refl

pub text-length : length text ≡ 70
text-length = refl

plaintext_len-ciphertext_len_example : plaintext_len writer (ciphertext_len writer 70) ≡ ok 70
plaintext_len-ciphertext_len_example =
    plaintext_len-ciphertext_len writer 70 (omega arith) (omega arith)

sealed_139 : plaintext_len writer 139 ≡ ok 70
unfolding plaintext_len
sealed_139 = refl

ciphertext_len-plaintext_len_example : ciphertext_len writer 70 ≡ 139
ciphertext_len-plaintext_len_example =
    ciphertext_len-plaintext_len writer 139 70 (omega arith) (omega arith) sealed_139

length-seal_example : length object ≡ ciphertext_len writer (length text)
length-seal_example =
    length-seal toy toy-IsSound writer text 9 (omega arith) (omega (arith, text-length))
      object_sealed

abbrev wanted : Range
wanted = record { start = 60; stop = 67 }

open_span-seal_example :
    open_span toy reader
      (slice
        (ciphertext_span reader wanted (length text)).start
        (ciphertext_span reader wanted (length text)).stop
        object)
      (ciphertext_span reader wanted (length text))
      wanted
      (record { block_size = 64; key = 1 })
    ≡ ok (slice 60 67 text)
open_span-seal_example =
    open_span-seal toy toy-IsSound writer reader text wanted 9 (omega arith)
      (omega (arith, text-length)) refl same_cipher (omega arith) (omega (arith, text-length))
      object_sealed

open_object-seal_example : open_object toy reader object ≡ ok text
open_object-seal_example =
    open_object-seal toy toy-IsSound writer reader text 9 writer-IsFrame
      (omega (arith, text-length)) refl reader_holds same_cipher object_sealed

-- A wrapped upload that takes every part.
abbrev taking : InnerUpload
taking = record { put_part = λ parts. ok tt; complete = λ parts. ok tt }

taking-Accepts : Accepts taking
taking-Accepts = record { takes = λ parts. refl; completes = λ parts. refl }

-- The text in three parts that are no multiples of the block size.
abbrev pieces : List Bytes
pieces = zeros 10 5 ∷ zeros 57 5 ∷ zeros 3 5 ∷ []

pieces_sealed : seal toy writer (flatten pieces) 9 ≡ ok (object, 11)
unfolding object seal seal_loop seal_pieces cipher header associated_data get chunks
pieces_sealed = refl

upload-seal_example :
    ((upload toy writer [] taking pieces (new_upload toy writer [] 9)).0 ≡ ok tt)
    × (flatten (upload toy writer [] taking pieces (new_upload toy writer [] 9)).1.parts ≡ object)
    × ((upload toy writer [] taking pieces (new_upload toy writer [] 9)).1.entropy ≡ 11)
upload-seal_example =
    upload-seal toy writer [] (omega arith) taking taking-Accepts pieces 9 (omega arith)
      pieces_sealed

-- Five bytes are pending for blocks of two.
abbrev small_writer : BlockFrame
small_writer = record writer { block_size = 2 }

abbrev five_pending : UploadState ℕ
five_pending = record {
  pending = 1 ∷ 2 ∷ 3 ∷ 4 ∷ 5 ∷ [];
  next_index = 0;
  header_sent = true;
  parts = [];
  entropy = 9;
}

abbrev drained_bytes : Result StoreError Bytes → Bytes
drained_bytes (ok sealed) = sealed
drained_bytes (err e) = []

five_drained : drain_full_blocks toy small_writer [] five_pending ≡ (
  ok (drained_bytes (drain_full_blocks toy small_writer [] five_pending).0),
  (drain_full_blocks toy small_writer [] five_pending).1,
)
unfolding drain_full_blocks drain_loop seal_block cipher associated_data get
five_drained = refl

drain_full_blocks-drains_example :
    length (drain_full_blocks toy small_writer [] five_pending).1.pending < 2
drain_full_blocks-drains_example =
    drain_full_blocks-drains toy small_writer [] (omega arith) five_pending
      (drained_bytes (drain_full_blocks toy small_writer [] five_pending).0)
      (drain_full_blocks toy small_writer [] five_pending).1 five_drained
