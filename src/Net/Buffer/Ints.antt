-- ===== src/Net/Buffer/Ints.antt =====
-- The integers of net/Buffer.h, in network byte order. `k` is the size in bytes: the functions for 16,
-- 32 and 64 bits differ in nothing else.
use mathlib.Core.Path.{ap₂}
use slack.Base.{
  ℕ, ◌+◌, ◌≤◌, ◌<◌, ◌^◌, ◌≡◌, ◌∙◌, Option, some, List, [], sym, append-nil, ◌++◌, leb, length,
  arith, Returns, Returns->>=, assert, ◌>>=◌, ◌>>◌, length-append, take-append_length,
  drop-append_length, subst,
}
use slack.Net.Endian.{
  le_bytes, from_le, swap_bytes, network_bytes, length-network_bytes, le_bytes-swap_bytes,
  swap_bytes-network_bytes,
}
use slack.Net.Buffer.{
  Buffer, append, prepend, retrieve, peek, slice, readable_bytes, prependable_bytes,
}
use slack.Net.Buffer.Valid.{Holds, readable-Holds}
use slack.Net.Buffer.Refine.{append_lem, prepend_lem}
use slack.Net.Buffer.Retrieve.{retrieve_lem, prefix-contents}

-- `appendInt16`, `appendInt32`, `appendInt64`.
unfoldable pub append_int : ℕ → Buffer → ℕ → Option Buffer
append_int k b x = append b (le_bytes k (swap_bytes k x))

unfoldable pub append_int8 : Buffer → ℕ → Option Buffer
append_int8 b x = append b (le_bytes 1 x)

unfoldable pub peek_int : ℕ → Buffer → Option ℕ
peek_int k b = do
  assert (leb k (readable_bytes b))
  some (swap_bytes k (from_le (slice b.buffer (peek b) (peek b + k))))

unfoldable pub peek_int8 : Buffer → Option ℕ
peek_int8 b = do
  assert (leb 1 (readable_bytes b))
  some (from_le (slice b.buffer (peek b) (peek b + 1)))

unfoldable pub read_int : ℕ → Buffer → Option (ℕ × Buffer)
unfolding peek_int
read_int k b = do result ← peek_int k b; b' ← retrieve b k; some (result, b')

unfoldable pub read_int8 : Buffer → Option (ℕ × Buffer)
unfolding peek_int8
read_int8 b = do result ← peek_int8 b; b' ← retrieve b 1; some (result, b')

unfoldable pub prepend_int : ℕ → Buffer → ℕ → Option Buffer
prepend_int k b x = prepend b (le_bytes k (swap_bytes k x))

unfoldable pub prepend_int8 : Buffer → ℕ → Option Buffer
prepend_int8 b x = prepend b (le_bytes 1 x)

module _ {b : Buffer} (k x : ℕ) (q : List ℕ) where
  -- An appended integer stands behind the readable bytes, highest byte first.
  pub append_int_lem :
      Holds b q
      → length b.buffer + k + 8 < 2 ^ 63
      → Returns
          (append_int k b x)
          (λ b'. Holds b' (q ++ network_bytes k x) × (length b'.buffer ≤ length b.buffer + k))
  unfolding append_int
  append_int_lem h s = rw (le_bytes-swap_bytes k x) (
      subst
        (λ n.
          Returns (append b (network_bytes k x))
            (λ b'. Holds b' (q ++ network_bytes k x) × (length b'.buffer ≤ length b.buffer + n)))
        (length-network_bytes k x)
        (append_lem h (network_bytes k x) (omega (arith, length-network_bytes k x))))

  pub prepend_int_lem :
      Holds b q
      → k ≤ prependable_bytes b
      → Returns
          (prepend_int k b x)
          (λ b'. Holds b' (network_bytes k x ++ q) × (length b'.buffer ≡ length b.buffer))
  unfolding prepend_int
  prepend_int_lem h s =
      rw (le_bytes-swap_bytes k x)
        (prepend_lem h (network_bytes k x) (omega (arith, length-network_bytes k x)))

  pub read_int_lem :
      Holds b (network_bytes k x ++ q)
      → x < 256 ^ k
      → Returns (read_int k b) (λ r. (r.0 ≡ x) × Holds r.1 q)
  unfolding read_int
  read_int_lem h s =
      let n = length-network_bytes k x in
      let first : slice b.buffer b.reader_index (b.reader_index + k) ≡ network_bytes k x =
        prefix-contents h k (omega (arith, length-append (network_bytes k x) q))
        ∙ take-append_length k (network_bytes k x) q (omega arith) in
      ground (
        arith,
        first,
        readable-Holds h,
        length-append (network_bytes k x) q,
        swap_bytes-network_bytes k x,
        retrieve_lem h k,
        drop-append_length k (network_bytes k x) q,
      )

-- An integer of `k` bytes that is prepended, where there is room for it, is read back, and the readable
-- bytes are then as they were.
pub read_int-prepend_int :
    {b : Buffer} (k x : ℕ) (q : List ℕ)
    → Holds b q
    → k ≤ prependable_bytes b
    → x < 256 ^ k
    → Returns (prepend_int k b x >>= λ b'. read_int k b') (λ r. (r.0 ≡ x) × Holds r.1 q)
read_int-prepend_int {b} k x q h room s =
    Returns->>= (prepend_int k b x) _ _ _ (prepend_int_lem k x q h room)
      λ b' p. read_int_lem k x q p.0 s

-- Integers of `k` and `j` bytes that are appended one after the other to an empty buffer are read back
-- in that order, and the buffer is empty then. The vector stays below 2^63.
pub read_int-append_int :
    {b : Buffer} (k x j y : ℕ)
    → Holds b []
    → length b.buffer + k + j + 8 < 2 ^ 63
    → x < 256 ^ k
    → y < 256 ^ j
    → Returns {A = (ℕ × ℕ) × Buffer}
        (do
          one ← append_int k b x
          both ← append_int j one y
          (x', rest) ← read_int k both
          (y', last) ← read_int j rest
          some ((x', y'), last))
        (λ r. (r.0 ≡ (x, y)) × Holds r.1 [])
read_int-append_int {b} k x j y h s p q =
    Returns->>= (append_int k b x) _ _ _ (append_int_lem k x [] h (omega arith)) λ one p1.
      Returns->>= (append_int j one y) _ _ _
        (append_int_lem j y (network_bytes k x) p1.0 (omega (arith, p1.1)))
        λ both p2.
          Returns->>= (read_int k both) _ _ _ (read_int_lem k x (network_bytes j y) p2.0 p) λ r p3.
            Returns->>= (read_int j r.1) _ _ _
              (read_int_lem j y [] (subst (Holds r.1) (sym (append-nil (network_bytes j y))) p3.1)
                q)
              λ r' p4. (ap₂ (λ a c. (a, c)) p3.0 p4.0, p4.1)
