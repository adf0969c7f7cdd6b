-- ===== src/Crypto/Store/Reads.antt =====
-- What is read of an object that was put: crates/euledb-storage/src/crypto/store.rs.
use eule_db.Common.{ℕ, ◌<◌, ◌≤◌, ◌≡◌, refl, ap, sym, ◌∙◌, subst, arith}
use eule_db.Common.{List, [], ◌∷◌, ◌++◌, length, Bytes, true, false, Option, some, none, map, leb}
use eule_db.Common.{
  Result, ok, err, ◌>>=◌, inl, inr, Bool-cases, leb→le, leb_false→lt, Result-cases,
}
use eule_db.Common.OrdMap.{contains_key}
use eule_db.Common.Slices.{slice, take-append_left, slice_none}
use mathlib.Core.List.{append-nil}
use eule_db.Crypto.Platform.{Platform, IsSound}
use eule_db.Crypto.StoreError.{ObjectPath, StoreError}
use eule_db.Crypto.Frame.{
  BlockFrame, Range, seal, ciphertext_len, ciphertext_span, header, read_header, cipher,
}
use eule_db.Crypto.Frame.Spans.{Fits, sealed_size-lt}
use eule_db.Crypto.Frame.Lengths.{plaintext_len-ciphertext_len}
use eule_db.Crypto.Frame.Header.{read_header-header}
use eule_db.Crypto.Frame.Sealed.{seal-SealedBody}
use eule_db.Crypto.Frame.Fetched.{length-header}
use eule_db.Crypto.Frame.RoundTrip.{IsFrame, length-seal, open_span-seal}
use eule_db.Crypto.Store.{
  InnerStore, ObjectMeta, GetOptions, GetResult, GetRange, bounded, offset, suffix, wanted_range,
  part_at_0, part_at_1, as_plaintext, header_span, put_opts, fetch, get_opts,
}

-- A wrapped store that holds an object reports its length, and hands out the ranges asked for. It may
-- fail instead.
pub record Holds (inner : InnerStore) (location : ObjectPath) (object : Bytes) (s : inner.State)
    : Type 0 where
  pub sized :
      (options : GetOptions) (r : GetResult)
      → inner.get_opts location options s ≡ ok r
      → r.meta.size ≡ length object
  pub ranged :
      (ranges : List Range) (parts : List Bytes)
      → inner.get_ranges location ranges s ≡ ok parts
      → parts ≡ map (λ (r : Range). slice r.start r.stop object) ranges

-- A wrapped store holds what was put.
pub record Keeps (inner : InnerStore) : Type 0 where
  pub kept :
      (location : ObjectPath) (object : Bytes) (opts r : ℕ) (s s' : inner.State)
      → inner.put_opts location object opts s ≡ (ok r, s')
      → Holds inner location object s'

-- A wanted range lies in the object.
wanted_range-stop : (r : Option GetRange) (n : ℕ) → (wanted_range r n).stop ≤ n
unfolding wanted_range
wanted_range-stop none n = omega arith
wanted_range-stop (some (bounded from to)) n = omega arith
wanted_range-stop (some (offset from)) n = omega arith
wanted_range-stop (some (suffix len)) n = omega arith

module _ (p : Platform) (sound : IsSound p) (f g : BlockFrame) (inner : InnerStore)
    (valid : IsFrame f) (same : g.block_size ≡ f.block_size)
    (known : contains_key f.current g.keys ≡ true)
    (held : cipher p g f.current ≡ cipher p f f.current) where
  -- Something that is wanted is fetched and opened.
  fetch-seal :
      (location : ObjectPath) (plaintext : Bytes) (w : Range) (meta : ObjectMeta) (attributes : ℕ)
      (e : p.Entropy) {object : Bytes} {e' : p.Entropy} (s : inner.State) (parts : List Bytes)
      → Fits f.block_size (length plaintext)
      → seal p f plaintext e ≡ ok (object, e')
      → Holds inner location object s
      → meta.size ≡ length plaintext
      → w.start < w.stop
      → w.stop ≤ length plaintext
      → inner.get_ranges location (header_span ∷ ciphertext_span g w (length plaintext) ∷ []) s
        ≡ ok parts
      → fetch p g inner location w meta attributes s
        ≡ ok (record {
          payload = slice w.start w.stop plaintext;
          range = w;
          attributes = attributes;
          meta = meta;
        })
  unfolding fetch
  fetch-seal location plaintext w meta attributes e {object} s parts fits h holds size hw hn
        answered =
      let (c, body, made, eq, sb) = seal-SealedBody p sound f plaintext e valid.size_pos h in
      let whole = holds.ranged _ parts answered in
      let head : part_at_0 parts ≡ header f ++ [] =
        ap part_at_0 whole
        ∙ ap (slice 0 13) eq
        ∙ take-append_left 13 (header f) body (length-header f)
        ∙ sym (append-nil (header f)) in
      let read : read_header g (part_at_0 parts)
          ≡ ok (record { block_size = g.block_size; key = f.current }) =
        ap (read_header g) head
        ∙ read_header-header f g [] valid.key_small same valid.size_accepted valid.size_small known
        ∙ ap (λ b. ok (record { block_size = b; key = f.current })) (sym same) in
      let opened = open_span-seal p sound f g plaintext w e valid.size_pos fits same held hw hn h in
      rw (size, answered, read, ap part_at_1 whole, opened) refl

  -- A put that succeeds has sealed, and handed the sealed object to the wrapped store.
  put_opts-eq-ok :
      (location : ObjectPath) (plaintext : Bytes) (opts r : ℕ) (e : p.Entropy) (s : inner.State)
      {e' : p.Entropy} {s' : inner.State}
      → put_opts p f inner location plaintext opts e s ≡ (ok (r, e'), s')
      → (object : Bytes) × (seal p f plaintext e ≡ ok (object, e'))
        × (inner.put_opts location object opts s ≡ (ok r, s'))
  unfolding put_opts
  put_opts-eq-ok location plaintext opts r e s h = elim (Result-cases (seal p f plaintext e)) [
    | inl (x, err_eq) ↦ cc (rw (err_eq, put_opts) at h)
    | inr ((object, e₁), sealed) ↦
        let (answered, now) =
          answer_ok (inner.put_opts location object opts s) e₁ (rw (sealed, put_opts) at h) in
        (object, sealed ∙ ap (λ t. ok (object, t)) now, answered)
  ]
    where
      answer_ok :
          (a : Result StoreError ℕ × inner.State) (e₁ : p.Entropy) {r : ℕ} {e' : p.Entropy}
          {s' : inner.State}
          → (Path
              (Result StoreError (ℕ × p.Entropy) × inner.State)
              (a.0 >>= λ result. ok (result, e₁), a.1)
              (ok (r, e'), s'))
          → (a ≡ (ok r, s')) × (e₁ ≡ e')
      answer_ok (ok r, s) e₁ h = (cc, cc)
      answer_ok (err x, s) e₁ h = cc

  -- The size of a sealed object is reported as its plain length.
  as_plaintext-seal :
      (plaintext : Bytes) (e : p.Entropy) (meta : ObjectMeta) {object : Bytes} {e' : p.Entropy}
      → Fits f.block_size (length plaintext)
      → seal p f plaintext e ≡ ok (object, e')
      → meta.size ≡ length object
      → as_plaintext g meta ≡ ok (record meta { size = length plaintext })
  unfolding as_plaintext
  as_plaintext-seal plaintext e meta {object} fits sealed sized =
      let n = length plaintext in
      let fits' : Fits g.block_size n = subst (λ t. Fits t n) (sym same) fits in
      let pos : 0 < g.block_size = omega (arith, valid.size_pos) in
      let size : meta.size ≡ ciphertext_len g n =
        sized
        ∙ length-seal p sound f plaintext e valid.size_pos
            (sealed_size-lt f.block_size n valid.size_pos fits) sealed
        ∙ same_size n in
      rw (size, plaintext_len-ciphertext_len g n pos (sealed_size-lt g.block_size n pos fits')) refl
    where
      same_size : (n : ℕ) → ciphertext_len f n ≡ ciphertext_len g n
      same_size n = unfold ciphertext_len in rw same refl

  -- What `get_opts` answers for an object that was put, if the request is not for the head alone:
  -- the wanted part of what was put, at its plain length, by any frame of the same block size with
  -- the same cipher for the key that sealed it. The platform is sound, the wrapped store keeps what
  -- is put and answers both requests, and the object, rounded up to whole blocks, seals to fewer
  -- than 2 ^ 64 bytes.
  pub get_opts-put_opts :
      (location : ObjectPath) (plaintext : Bytes) (opts r : ℕ) (e : p.Entropy) (s : inner.State)
      {e' : p.Entropy} {s' : inner.State} (options : GetOptions) (head : GetResult)
      (parts : List Bytes)
      → Keeps inner
      → Fits f.block_size (length plaintext)
      → put_opts p f inner location plaintext opts e s ≡ (ok (r, e'), s')
      → options.head ≡ false
      → inner.get_opts location (record options { range = none; head = true }) s' ≡ ok head
      → inner.get_ranges location
          (header_span
            ∷ ciphertext_span g (wanted_range options.range (length plaintext)) (length plaintext)
            ∷ [])
          s'
        ≡ ok parts
      → get_opts p g inner location options s'
        ≡ ok (record {
          payload =
              slice
                (wanted_range options.range (length plaintext)).start
                (wanted_range options.range (length plaintext)).stop
                plaintext;
          range = wanted_range options.range (length plaintext);
          attributes = head.attributes;
          meta = record head.meta { size = length plaintext };
        })
  unfolding get_opts
  get_opts-put_opts location plaintext opts r e s {e'} {s'} options head parts keeps fits put
        whole_wanted asked answered =
      let n = length plaintext in
      let w = wanted_range options.range n in
      let (object, sealed, stored) = put_opts-eq-ok location plaintext opts r e s put in
      let holds = keeps.kept location object opts r s s' stored in
      let translated =
        as_plaintext-seal plaintext e head.meta fits sealed (holds.sized _ head asked) in
      rw (asked, translated, whole_wanted)
        (elim (Bool-cases (leb w.stop w.start)) [
          | inl nothing ↦
              rw (nothing, slice_none w.start w.stop plaintext (leb→le w.stop w.start nothing)) refl
          | inr something ↦ rw something (
              fetch-seal location plaintext w (record head.meta { size = n }) head.attributes e s'
                parts fits sealed holds refl (leb_false→lt w.stop w.start something)
                (wanted_range-stop options.range n) answered)
        ])
