-- ===== src/Net/Buffer/Retrieve.antt =====
-- Taking bytes out of a buffer, against the sequence of bytes that it holds.
use slack.Base.{
  ℕ, ◌+◌, ◌-◌, ◌≤◌, ◌<◌, ◌≡◌, refl, ◌∙◌, none, List, [], length, take, drop, arith, Returns, ap,
  sym, drop_all, take-take,
}
use slack.Net.Buffer.{
  Buffer, slice, retrieve, retrieve_all, unwrite, retrieve_as_string, retrieve_until,
}
use slack.Net.Buffer.Valid.{Holds, readable-Holds, writer-Holds}
use slack.Net.Buffer.Contents.{slice_later, slice_sooner}

module _ {b : Buffer} {bytes : List ℕ} (h : Holds b bytes) where
  dropped-Holds :
      (len : ℕ)
      → len ≤ length bytes
      → Holds (record b { reader_index = b.reader_index + len }) (drop len bytes)
  dropped-Holds len s = record {
    valid = omega (arith, h.valid, writer-Holds h);
    bytes_eq =
        slice_later b.buffer b.reader_index b.writer_index len _ refl ∙ ap (drop len) h.bytes_eq;
  }

  pub retrieve_all-Holds : Holds (retrieve_all b) []
  unfolding retrieve_all
  retrieve_all-Holds = record { valid = omega (arith, h.valid); bytes_eq = refl }

  pub prefix-contents :
      (len : ℕ)
      → len ≤ length bytes
      → slice b.buffer b.reader_index (b.reader_index + len) ≡ take len bytes
  prefix-contents len s =
      let e : b.reader_index + len - b.reader_index ≡ len = omega arith in
      ap (λ k. take k (drop b.reader_index b.buffer)) e
      ∙ sym (
          take-take len (b.writer_index - b.reader_index) (drop b.reader_index b.buffer)
            (omega (arith, writer-Holds h)))
      ∙ ap (take len) h.bytes_eq

  shortened-Holds :
      (len : ℕ)
      → len ≤ length bytes
      → Holds (record b { writer_index = b.writer_index - len }) (take (length bytes - len) bytes)
  shortened-Holds len s = record {
    valid = omega (arith, h.valid, writer-Holds h);
    bytes_eq =
        let w = writer-Holds h in
        let e : b.writer_index - b.reader_index - len ≡ length bytes - len = omega arith in
        slice_sooner b.buffer b.reader_index b.writer_index len _ (omega arith)
        ∙ ap (take (b.writer_index - b.reader_index - len)) h.bytes_eq
        ∙ ap (λ k. take k bytes) e;
  }

  pub retrieve_lem :
      (len : ℕ)
      → len ≤ length bytes
      → Returns (retrieve b len) (λ b'. Holds b' (drop len bytes) × (b'.buffer ≡ b.buffer))
  unfolding retrieve retrieve_all
  retrieve_lem len s = ground (
    arith,
    dropped-Holds len,
    retrieve_all-Holds,
    readable-Holds h,
    h.valid,
    writer-Holds h,
    drop_all len bytes,
  )

  pub retrieve_too_long : (len : ℕ) → length bytes < len → retrieve b len ≡ none
  unfolding retrieve
  retrieve_too_long len s = ground (arith, readable-Holds h)

  pub retrieve_as_string_lem :
      (len : ℕ)
      → len ≤ length bytes
      → Returns (retrieve_as_string b len) (λ (p : List ℕ × Buffer).
        (p.0 ≡ take len bytes) × Holds p.1 (drop len bytes) × (p.1.buffer ≡ b.buffer))
  unfolding retrieve_as_string
  retrieve_as_string_lem len s =
      ground (arith, prefix-contents len, retrieve_lem len, readable-Holds h)

  pub retrieve_until_lem :
      (end : ℕ)
      → b.reader_index ≤ end
      → end ≤ b.writer_index
      → Returns
          (retrieve_until b end)
          (λ b'. Holds b' (drop (end - b.reader_index) bytes) × (b'.buffer ≡ b.buffer))
  unfolding retrieve_until
  retrieve_until_lem end s t =
      ground (arith, retrieve_lem (end - b.reader_index), writer-Holds h, h.valid)

  pub unwrite_lem :
      (len : ℕ)
      → len ≤ length bytes
      → Returns (unwrite b len) (λ b'. Holds b' (take (length bytes - len) bytes))
  unfolding unwrite
  unwrite_lem len s = ground (arith, shortened-Holds len, readable-Holds h, writer-Holds h, h.valid)

  pub retrieve_as_string_too_long : (len : ℕ) → length bytes < len → retrieve_as_string b len ≡ none
  unfolding retrieve_as_string
  retrieve_as_string_too_long len s = ground (arith, readable-Holds h)
