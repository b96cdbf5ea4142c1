-- ===== src/Net/Buffer.antt =====
-- net/Buffer.h and net/Buffer.cc. A pointer into the vector is its offset from `begin()`, a byte is
-- a number, and `none` is a failing `assert` (the build's default type is Debug).
pub mod Ints
pub mod Valid
pub mod Contents
pub mod Refine
pub mod Retrieve
pub mod Queue
pub mod ReadFd
use slack.Base.{
  ℕ, ◌+◌, ◌-◌, ◌^◌, ◌%◌, Bool, Option, some, none, List, [], ◌∷◌, ◌++◌, ltb, leb, ◌==◌,
  if◌then◌else◌, add_size, sub_size, length, take, drop, replicate, overwrite, assert, ◌>>=◌, ◌>>◌,
}
use slack.Std.Scan.{search, find_byte, crlf}

pub record Buffer : Type 0 where
  pub buffer : List ℕ
  pub reader_index : ℕ
  pub writer_index : ℕ

abbrev pub cheap_prepend : ℕ
cheap_prepend = 8

abbrev pub initial_size : ℕ
initial_size = 1024

abbrev pub readable_bytes : Buffer → ℕ
readable_bytes b = sub_size b.writer_index b.reader_index

abbrev pub writable_bytes : Buffer → ℕ
writable_bytes b = sub_size (length b.buffer) b.writer_index

abbrev pub prependable_bytes : Buffer → ℕ
prependable_bytes b = b.reader_index

abbrev pub peek : Buffer → ℕ
peek b = b.reader_index

abbrev pub begin_write : Buffer → ℕ
begin_write b = b.writer_index

-- The bytes in the range [i, j) of offsets.
abbrev pub slice : List ℕ → ℕ → ℕ → List ℕ
slice xs i j = take (j - i) (drop i xs)

abbrev pub fresh : ℕ → Buffer
fresh initial = record {
  buffer = replicate (add_size cheap_prepend initial) 0;
  reader_index = cheap_prepend;
  writer_index = cheap_prepend;
}

-- The constructor, with its assertions.
unfoldable pub make : ℕ → Option Buffer
make initial = do
  let b = fresh initial
  assert (readable_bytes b == 0)
  assert (writable_bytes b == initial)
  assert (prependable_bytes b == cheap_prepend)
  some b

-- `std::search` ends at `beginWrite()` where there is no match, which becomes a null pointer.
abbrev null_at_end : Buffer → ℕ → Option ℕ
null_at_end b p = if p == begin_write b then none else some p

unfoldable pub find_crlf : Buffer → Option ℕ
find_crlf b =
    null_at_end b (add_size (peek b) (search (slice b.buffer (peek b) (begin_write b)) crlf))

unfoldable pub find_crlf_from : Buffer → ℕ → Option (Option ℕ)
find_crlf_from b start = do
  assert (leb (peek b) start)
  assert (leb start (begin_write b))
  some (null_at_end b (add_size start (search (slice b.buffer start (begin_write b)) crlf)))

-- `memchr` returns a null pointer itself.
unfoldable pub find_eol : Buffer → Option ℕ
find_eol b =
    null_at_end b (add_size (peek b) (find_byte (slice b.buffer (peek b) (begin_write b)) 10))

unfoldable pub find_eol_from : Buffer → ℕ → Option (Option ℕ)
find_eol_from b start = do
  assert (leb (peek b) start)
  assert (leb start (begin_write b))
  some (null_at_end b (add_size start (find_byte (slice b.buffer start (begin_write b)) 10)))

unfoldable pub retrieve_all : Buffer → Buffer
retrieve_all b = record b { reader_index = cheap_prepend; writer_index = cheap_prepend }

unfoldable pub retrieve : Buffer → ℕ → Option Buffer
unfolding retrieve_all
retrieve b len = do
  assert (leb len (readable_bytes b))
  some (
      if ltb len (readable_bytes b)
      then record b { reader_index = add_size b.reader_index len }
      else retrieve_all b)

unfoldable pub retrieve_until : Buffer → ℕ → Option Buffer
retrieve_until b end = do
  assert (leb (peek b) end)
  assert (leb end (begin_write b))
  retrieve b (sub_size end (peek b))

unfoldable pub retrieve_as_string : Buffer → ℕ → Option (List ℕ × Buffer)
retrieve_as_string b len = do
  assert (leb len (readable_bytes b))
  let result = slice b.buffer (peek b) (peek b + len)
  b' ← retrieve b len
  some (result, b')

unfoldable pub retrieve_all_as_string : Buffer → Option (List ℕ × Buffer)
unfolding retrieve_as_string
retrieve_all_as_string b = retrieve_as_string b (readable_bytes b)

-- The size of a `StringPiece` is an `int`; `none` where the conversion makes it negative.
unfoldable pub to_string_piece : Buffer → Option (List ℕ)
to_string_piece b =
    let size = readable_bytes b % 2 ^ 32 in
    if ltb size (2 ^ 31) then some (slice b.buffer (peek b) (peek b + size)) else none

-- `std::vector::resize`, which fills with zeros.
abbrev pub resize : List ℕ → ℕ → List ℕ
resize xs n = take n (xs ++ replicate (n - length xs) 0)

-- The readable bytes moved down to `kCheapPrepend`.
abbrev compact : Buffer → Buffer
compact b = record {
  buffer = overwrite b.buffer cheap_prepend (slice b.buffer b.reader_index b.writer_index);
  reader_index = cheap_prepend;
  writer_index = add_size cheap_prepend (readable_bytes b);
}

unfoldable pub make_space : Buffer → ℕ → Option Buffer
make_space b len =
    if ltb (add_size (writable_bytes b) (prependable_bytes b)) (add_size len cheap_prepend)
    then some (record b { buffer = resize b.buffer (add_size b.writer_index len) })
    else do
      assert (ltb cheap_prepend b.reader_index)
      assert (readable_bytes b == readable_bytes (compact b))
      some (compact b)

unfoldable pub ensure_writable_bytes : Buffer → ℕ → Option Buffer
ensure_writable_bytes b len = do
  b' ← if ltb (writable_bytes b) len then make_space b len else some b
  assert (leb len (writable_bytes b'))
  some b'

unfoldable pub has_written : Buffer → ℕ → Buffer
has_written b len = record b { writer_index = add_size b.writer_index len }

unfoldable pub append : Buffer → List ℕ → Option Buffer
unfolding has_written
append b bytes = do
  b' ← ensure_writable_bytes b (length bytes)
  let filled = record b' { buffer = overwrite b'.buffer (begin_write b') bytes }
  some (has_written filled (length bytes))

-- `append(const StringPiece &)`, whose size is an `int`.
unfoldable pub append_piece : Buffer → List ℕ → Option Buffer
append_piece b bytes =
    let size = length bytes % 2 ^ 32 in
    if ltb size (2 ^ 31) then append b (take size bytes) else none

unfoldable pub unwrite : Buffer → ℕ → Option Buffer
unwrite b len = do
  assert (leb len (readable_bytes b))
  some (record b { writer_index = sub_size b.writer_index len })

unfoldable pub prepend : Buffer → List ℕ → Option Buffer
prepend b bytes = do
  assert (leb (length bytes) (prependable_bytes b))
  let reader = sub_size b.reader_index (length bytes)
  some (record b { buffer = overwrite b.buffer reader bytes; reader_index = reader })

-- The buffer that `shrink` swaps in.
unfoldable pub shrink : Buffer → ℕ → Option Buffer
shrink b reserve = do
  other ← make initial_size
  roomy ← ensure_writable_bytes other (add_size (readable_bytes b) reserve)
  piece ← to_string_piece b
  append roomy piece
