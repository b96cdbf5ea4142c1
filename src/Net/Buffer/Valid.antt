-- ===== src/Net/Buffer/Valid.antt =====
-- The invariant of net/Buffer.h: reader and writer index in order and within the vector.
use slack.Base.{
  ℕ, ◌+◌, ◌-◌, ◌^◌, ◌≤◌, ◌<◌, ◌≡◌, ◌∙◌, List, ◌++◌, length, drop, replicate, length-append,
  length-take, length-drop, length-replicate, arith, ap,
}
use slack.Net.Buffer.{Buffer, cheap_prepend, readable_bytes, slice, resize}

pub record IsValid (b : Buffer) : Type 0 where
  pub room : cheap_prepend ≤ length b.buffer
  pub ordered : b.reader_index ≤ b.writer_index
  pub inside : b.writer_index ≤ length b.buffer
  pub small : length b.buffer < 2 ^ 63

abbrev pub contents : Buffer → List ℕ
contents b = slice b.buffer b.reader_index b.writer_index

pub length-slice : (xs : List ℕ) (i j : ℕ) → j ≤ length xs → length (slice xs i j) ≡ j - i
length-slice xs i j h = omega (arith, length-take (j - i) (drop i xs), length-drop i xs)

pub length-contents :
    {b : Buffer} → IsValid b → length (contents b) ≡ b.writer_index - b.reader_index
length-contents {b} v = length-slice b.buffer b.reader_index b.writer_index v.inside

pub readable-eq-length : {b : Buffer} → IsValid b → readable_bytes b ≡ length (contents b)
readable-eq-length {b} v = omega (arith, length-contents v)

pub length-resize : (xs : List ℕ) (n : ℕ) → length (resize xs n) ≡ n
length-resize xs n = omega (
  arith,
  length-take n (xs ++ replicate (n - length xs) 0),
  length-append xs (replicate (n - length xs) 0),
  length-replicate {A = ℕ} (n - length xs) 0,
)

-- The buffer is valid and its readable bytes are `bytes`.
pub record Holds (b : Buffer) (bytes : List ℕ) : Type 0 where
  pub valid : IsValid b
  pub bytes_eq : contents b ≡ bytes

pub readable-Holds : {b : Buffer} {bytes : List ℕ} → Holds b bytes → readable_bytes b ≡ length bytes
readable-Holds h = readable-eq-length h.valid ∙ ap length h.bytes_eq

pub writer-Holds :
    {b : Buffer} {bytes : List ℕ} → Holds b bytes → b.writer_index ≡ b.reader_index + length bytes
writer-Holds h = omega (arith, readable-Holds h, h.valid.ordered, h.valid.inside, h.valid.small)
