-- ===== src/Net/Buffer/Refine.antt =====
-- Each operation of net/Buffer.h against the sequence of bytes that it holds.
use slack.Base.{
  ◌%◌, take_all, lt→ltb, add_size, ℕ, ◌+◌, ◌-◌, ◌^◌, ◌≤◌, ◌<◌, ◌≡◌, refl, ◌∙◌, some, List, [], ◌++◌,
  length, take, drop, overwrite, length-replicate, length-overwrite, arith, Returns, Returns->>=,
  Returns-mono, ap, length-replicate,
}
use slack.Net.Buffer.{
  Buffer, readable_bytes, writable_bytes, prependable_bytes, initial_size, resize, compact, make,
  make_space, ensure_writable_bytes, append, append_piece, prepend, shrink, to_string_piece,
}
use slack.Net.Buffer.Valid.{
  IsValid, Holds, contents, length-resize, length-contents, readable-Holds, writer-Holds,
}
use slack.Net.Buffer.Contents.{
  slice-resize, slice-overwrite_end, slice-overwrite_start, slice-overwrite_self,
}

pub make_lem :
    (n : ℕ)
    → n + 8 < 2 ^ 63
    → Returns (make n) (λ b.
      Holds b [] × (writable_bytes b ≡ n) × (prependable_bytes b ≡ 8) × (length b.buffer ≡ n + 8))
unfolding make
make_lem n h = ground (arith, length-replicate {A = ℕ} (8 + n) 0)

module _ {b : Buffer} {bytes : List ℕ} (h : Holds b bytes) where
  resized-Holds :
      (len : ℕ)
      → length b.buffer ≤ b.writer_index + len
      → b.writer_index + len < 2 ^ 63
      → Holds (record b { buffer = resize b.buffer (b.writer_index + len) }) bytes
  resized-Holds len g s = record {
    valid = omega (arith, v, length-resize b.buffer (b.writer_index + len));
    bytes_eq =
        slice-resize b.buffer b.reader_index b.writer_index (b.writer_index + len) v.ordered
          v.inside (omega arith)
        ∙ h.bytes_eq;
  }
    where
      v : IsValid b
      v = h.valid

  compact-Holds : 8 < b.reader_index → Holds (compact b) bytes
  compact-Holds s = record {
    valid = omega (arith, v, length-overwrite b.buffer 8 (contents b));
    bytes_eq =
        slice-overwrite_self b.buffer (contents b) 8 (compact b).writer_index
          (omega (arith, v, length-contents v)) (omega (arith, v, length-contents v))
        ∙ h.bytes_eq;
  }
    where
      v : IsValid b
      v = h.valid

  -- `makeSpace` is only called where the room falls short; its assertions then hold.
  make_space_lem :
      (len : ℕ)
      → length b.buffer + len + 8 < 2 ^ 63
      → writable_bytes b < len
      → Returns (make_space b len) (λ b'.
        Holds b' bytes × (len ≤ writable_bytes b') × (length b'.buffer ≤ length b.buffer + len))
  unfolding make_space
  make_space_lem len s short = ground (
    arith,
    resized-Holds len,
    compact-Holds,
    length-resize b.buffer (b.writer_index + len),
    length-overwrite b.buffer 8 (contents b),
  )

  pub ensure_lem :
      (len : ℕ)
      → length b.buffer + len + 8 < 2 ^ 63
      → Returns (ensure_writable_bytes b len) (λ b'.
        Holds b' bytes × (len ≤ writable_bytes b') × (length b'.buffer ≤ length b.buffer + len))
  unfolding ensure_writable_bytes
  ensure_lem len s = ground (arith, make_space_lem len)

  -- A write at `beginWrite()` of bytes for which there is room.
  pub written-Holds :
      (ys : List ℕ)
      → length ys ≤ writable_bytes b
      → Holds
          (record b {
            buffer = overwrite b.buffer b.writer_index ys;
            writer_index = b.writer_index + length ys;
          })
          (bytes ++ ys)
  written-Holds ys s = record {
    valid = omega (arith, v, length-overwrite b.buffer b.writer_index ys);
    bytes_eq =
        slice-overwrite_end b.buffer b.reader_index b.writer_index ys (b.writer_index + length ys)
          v.ordered (omega (arith, v)) refl
        ∙ ap (λ l. l ++ ys) h.bytes_eq;
  }
    where
      v : IsValid b
      v = h.valid

module _ {b : Buffer} {bytes : List ℕ} (h : Holds b bytes) where
  -- `append` puts the bytes behind the readable ones, whether it finds room, moves the readable bytes to
  -- the front or makes the vector larger, and makes it no more than that much larger. Vector and bytes
  -- together stay below 2^63.
  pub append_lem :
      (ys : List ℕ)
      → length b.buffer + length ys + 8 < 2 ^ 63
      → Returns
          (append b ys)
          (λ b'. Holds b' (bytes ++ ys) × (length b'.buffer ≤ length b.buffer + length ys))
  unfolding append
  append_lem ys s =
      Returns->>= (ensure_writable_bytes b (length ys)) _ _ _ (ensure_lem h (length ys) s) λ b' p.
        ground (arith, written-Holds p.0 ys p.1, length-overwrite b'.buffer b'.writer_index ys)

  prepended-Holds :
      (ys : List ℕ)
      → length ys ≤ b.reader_index
      → Holds
          (record b {
            buffer = overwrite b.buffer (b.reader_index - length ys) ys;
            reader_index = b.reader_index - length ys;
          })
          (ys ++ bytes)
  prepended-Holds ys s = record {
    valid = omega (arith, v, length-overwrite b.buffer (b.reader_index - length ys) ys);
    bytes_eq =
        slice-overwrite_start b.buffer b.reader_index b.writer_index ys (b.reader_index - length ys)
          v.ordered v.inside (omega arith)
        ∙ ap (λ l. ys ++ l) h.bytes_eq;
  }
    where
      v : IsValid b
      v = h.valid

  -- `prepend` puts bytes for which there is room before the readable ones, in the same vector.
  pub prepend_lem :
      (ys : List ℕ)
      → length ys ≤ prependable_bytes b
      → Returns (prepend b ys) (λ b'. Holds b' (ys ++ bytes) × (length b'.buffer ≡ length b.buffer))
  unfolding prepend
  prepend_lem ys s = ground (
    arith,
    prepended-Holds ys,
    length-overwrite b.buffer (b.reader_index - length ys) ys,
    h.valid,
  )

  pub to_string_piece_lem : length bytes < 2 ^ 31 → to_string_piece b ≡ some bytes
  unfolding to_string_piece
  to_string_piece_lem s =
      let e = readable-Holds h in
      let w = writer-Holds h in
      let r : take (b.reader_index + length bytes - b.reader_index) (drop b.reader_index b.buffer)
          ≡ bytes =
        ap (λ k. take k (drop b.reader_index b.buffer)) (omega (arith, w)) ∙ h.bytes_eq in
      ground (arith, e, r)

  pub append_piece_lem :
      (ys : List ℕ)
      → length ys < 2 ^ 31
      → length b.buffer + length ys + 8 < 2 ^ 63
      → Returns
          (append_piece b ys)
          (λ b'. Holds b' (bytes ++ ys) × (length b'.buffer ≤ length b.buffer + length ys))
  unfolding append_piece
  append_piece_lem ys t s =
      let e : length ys % 2 ^ 32 ≡ length ys = omega arith in
      rw (e, lt→ltb (length ys) (2 ^ 31) t, take_all (length ys) ys (omega arith)) (append_lem ys s)

-- `shrink` returns and leaves the readable bytes as they are. There are fewer of them than an `int`
-- counts, and the reserve is below 2^62.
pub shrink_lem :
    {b : Buffer} {bytes : List ℕ} (reserve : ℕ)
    → Holds b bytes
    → length bytes < 2 ^ 31
    → reserve < 2 ^ 62
    → Returns (shrink b reserve) (λ b'. Holds b' bytes)
unfolding shrink
shrink_lem {b} {bytes} reserve h s t =
    let size = add_size (readable_bytes b) reserve in
    Returns->>= (make initial_size) _ _ _ (make_lem initial_size (omega arith)) λ other o.
      Returns->>= (ensure_writable_bytes other size) _ _ _
        (ensure_lem o.0 size (omega (arith, readable-Holds h, o.3)))
        λ roomy r. rw (to_string_piece_lem h s) (
          Returns-mono (append roomy bytes) _ _
            (append_lem r.0 bytes (omega (arith, readable-Holds h, o.3, r.2))) λ b' p. p.0)
