-- ===== src/Crypto/Store.antt =====
-- crates/euledb-storage/src/crypto/store.rs: `EncryptingObjectStore`, which seals what passes through it.
-- The wrapped store is another crate's: its operations over its own state are the parameter `inner`. A
-- stream is the list of what it yields; what the layer only hands on (the options of a put, the
-- preconditions of a get, an object's attributes, its version and time) is a number.
pub mod Reads
use eule_db.Common.{
  ℕ, ◌-◌, min, List, [], ◌∷◌, Bytes, Bool, true, false, Option, some, none, map, leb,
}
use eule_db.Common.{Result, ok, err, map_err, ◌>>=◌, if◌then◌else◌}
use eule_db.Crypto.Platform.{Platform}
use eule_db.Crypto.StoreError.{ObjectPath, StoreError, crypto_error}
use eule_db.Crypto.Frame.{
  BlockFrame, Range, seal, plaintext_len, ciphertext_span, header_len, read_header, open_span,
}

pub record ObjectMeta : Type 0 where
  pub location : ObjectPath
  pub size : ℕ
  pub version : ℕ

pub data GetRange : Type 0 where
  bounded : ℕ → ℕ → GetRange
  offset suffix : ℕ → GetRange

pub record GetOptions : Type 0 where
  pub range : Option GetRange
  pub head : Bool
  pub preconditions : ℕ

pub record GetResult : Type 0 where
  pub payload : Bytes
  pub range : Range
  pub attributes : ℕ
  pub meta : ObjectMeta

pub record ListResult : Type 0 where
  pub common_prefixes : List ObjectPath
  pub objects : List ObjectMeta

pub record InnerStore : Type 1 where
  pub State : Type 0
  pub put_opts : ObjectPath → Bytes → ℕ → State → Result StoreError ℕ × State
  pub get_opts : ObjectPath → GetOptions → State → Result StoreError GetResult
  pub get_ranges : ObjectPath → List Range → State → Result StoreError (List Bytes)
  pub list : Option ObjectPath → State → List (Result StoreError ObjectMeta)
  pub list_with_delimiter : Option ObjectPath → State → Result StoreError ListResult
  pub copy_opts : ObjectPath → ObjectPath → ℕ → State → Result StoreError (Unit {0}) × State

unfoldable pub wanted_range : Option GetRange → ℕ → Range
wanted_range none n = record { start = 0; stop = n }
wanted_range (some (bounded from to)) n = record { start = min from n; stop = min to n }
wanted_range (some (offset from)) n = record { start = min from n; stop = n }
wanted_range (some (suffix len)) n = record { start = n - len; stop = n }

-- What is fetched of an object, the header first; a part that did not come is empty.
abbrev pub part_at_0 : List Bytes → Bytes
part_at_0 [] = []
part_at_0 (x ∷ xs) = x

abbrev pub part_at_1 : List Bytes → Bytes
part_at_1 [] = []
part_at_1 (x ∷ xs) = part_at_0 xs

unfoldable pub as_plaintext : BlockFrame → ObjectMeta → Result StoreError ObjectMeta
unfolding crypto_error
as_plaintext f meta = do
  size ← map_err (crypto_error meta.location) (plaintext_len f meta.size)
  ok (record meta { size = size })

-- Every entry translated; the first failure is the answer.
unfoldable pub all_as_plaintext : BlockFrame → List ObjectMeta → Result StoreError (List ObjectMeta)
unfolding as_plaintext
all_as_plaintext f [] = ok []
all_as_plaintext f (meta ∷ rest) = do
  plain ← as_plaintext f meta
  others ← all_as_plaintext f rest
  ok (plain ∷ others)

abbrev pub header_span : Range
header_span = record { start = 0; stop = header_len }

module _ (p : Platform) (f : BlockFrame) (inner : InnerStore) where
  unfoldable pub put_opts :
      ObjectPath
      → Bytes
      → ℕ
      → p.Entropy
      → inner.State
      → Result StoreError (ℕ × p.Entropy) × inner.State
  unfolding crypto_error
  put_opts location payload opts e s = elim (seal p f payload e) [
    | err x ↦ (err (crypto_error location x), s)
    | ok (sealed, e') ↦
        let (answer, s') = inner.put_opts location sealed opts s in
        (answer >>= λ result. ok (result, e'), s')
  ]

  -- The part of `get_opts` behind the check that something is wanted.
  unfoldable pub fetch :
      ObjectPath → Range → ObjectMeta → ℕ → inner.State → Result StoreError GetResult
  unfolding crypto_error
  fetch location wanted meta attributes s = do
    let span = ciphertext_span f wanted meta.size
    fetched ← inner.get_ranges location (header_span ∷ span ∷ []) s
    framing ← map_err (crypto_error location) (read_header f (part_at_0 fetched))
    plaintext ←
        map_err (crypto_error location) (open_span p f (part_at_1 fetched) span wanted framing)
    ok (record { payload = plaintext; range = wanted; attributes = attributes; meta = meta })

  unfoldable pub get_opts : ObjectPath → GetOptions → inner.State → Result StoreError GetResult
  unfolding fetch as_plaintext wanted_range
  get_opts location options s = do
    head ← inner.get_opts location (record options { range = none; head = true }) s
    meta ← as_plaintext f head.meta
    let wanted = wanted_range options.range meta.size
    let none_wanted : Range = record { start = 0; stop = 0 }
    if options.head
        then ok (record {
          payload = [];
          range = none_wanted;
          attributes = head.attributes;
          meta = meta;
        })
        else if leb wanted.stop wanted.start
        then ok (record { payload = []; range = wanted; attributes = head.attributes; meta = meta })
        else fetch location wanted meta head.attributes s

  unfoldable pub list : Option ObjectPath → inner.State → List (Result StoreError ObjectMeta)
  unfolding as_plaintext
  list prefix s = map (λ entry. entry >>= as_plaintext f) (inner.list prefix s)

  unfoldable pub list_with_delimiter :
      Option ObjectPath → inner.State → Result StoreError ListResult
  unfolding all_as_plaintext
  list_with_delimiter prefix s = do
    listing ← inner.list_with_delimiter prefix s
    objects ← all_as_plaintext f listing.objects
    ok (record listing { objects = objects })

  unfoldable pub copy_opts :
      ObjectPath → ObjectPath → ℕ → inner.State → Result StoreError (Unit {0}) × inner.State
  copy_opts from to options s = inner.copy_opts from to options s
