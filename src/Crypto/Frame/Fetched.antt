-- ===== src/Crypto/Frame/Fetched.antt =====
-- The bytes behind the header that a covered span selects: crates/euledb-storage/src/crypto/frame.rs.
use eule_db.Common.{ℕ, ◌+◌, ◌-◌, ◌*◌, ◌≤◌, ◌≡◌, refl, ap, ap₂, ◌∙◌, sym, arith}
use eule_db.Common.{◌++◌, length, take, drop, Bytes, min}
use eule_db.Common.Slices.{
  slice, slice-append, slice_past, slice_clip, drop_zero, take_all, drop-append_left,
}
use eule_db.Crypto.Frame.{BlockFrame, Range, ciphertext_span, header}
use eule_db.Crypto.Frame.Lengths.{sealed_size}
use eule_db.Crypto.Frame.Spans.{Covers}

pub length-header : (f : BlockFrame) → length (header f) ≡ 13
unfolding header
length-header f = refl

-- The bytes behind the header that a covered span selects.
slice_behind :
    (head body : Bytes) (lo hi : ℕ)
    → length head ≡ 13
    → slice (13 + lo) (min (13 + hi) (13 + length body)) (head ++ body) ≡ slice lo hi body
slice_behind head body lo hi h =
    let stop : min (13 + hi) (13 + length body) - length head ≡ min hi (length body) =
      omega arith in
    let start : 13 + lo - length head ≡ lo = omega arith in
    slice-append (13 + lo) (min (13 + hi) (13 + length body)) head body
    ∙ ap
        (λ t.
          t ++ slice (13 + lo - length head) (min (13 + hi) (13 + length body) - length head) body)
        (slice_past (13 + lo) _ head (omega arith))
    ∙ ap₂ (λ x y. slice x y body) start stop
    ∙ slice_clip lo hi body

-- Cut off the header, and keep all that follows.
pub behind_header :
    (head body object : Bytes) (m k : ℕ)
    → length head ≡ 13
    → object ≡ head ++ body
    → length body ≤ m
    → k ≡ 0
    → drop 13 object ≡ take m (drop k body)
behind_header head body object m k h eq hm hk =
    ap (drop 13) eq
    ∙ drop-append_left 13 head body h
    ∙ sym (take_all m body hm)
    ∙ ap (take m) (sym (drop_zero k body hk))

sub_mul : (x y s : ℕ) → x ≤ y → y * s - x * s ≡ (y - x) * s
sub_mul x y s h =
    let split : y ≡ x + (y - x) = omega arith in omega (arith, ap (λ (t : ℕ). t * s) split)

-- What a reader fetches of an object: the blocks that the span covers.
pub fetched_blocks :
    (g : BlockFrame) (w : Range) (n : ℕ) (head body object : Bytes) (first last : ℕ)
    → length head ≡ 13
    → object ≡ head ++ body
    → 13 + length body ≡ sealed_size g.block_size n
    → Covers g w n first last
    → slice (ciphertext_span g w n).start (ciphertext_span g w n).stop object
      ≡ take ((last - first) * (g.block_size + 28)) (drop (first * (g.block_size + 28)) body)
fetched_blocks g w n head body object first last hh eq size cover =
    let stride = g.block_size + 28 in
    ap₂ (λ x y. slice x y object) cover.start_at
      (cover.stop_at ∙ ap (λ t. min (13 + last * stride) t) (sym size))
    ∙ ap (slice (13 + first * stride) (min (13 + last * stride) (13 + length body))) eq
    ∙ slice_behind head body (first * stride) (last * stride) hh
    ∙ ap (λ t. take t (drop (first * stride) body))
        (sub_mul first last stride (omega (arith, cover.nonempty)))
