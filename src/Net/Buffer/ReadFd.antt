-- ===== src/Net/Buffer/ReadFd.antt =====
-- `Buffer::readFd` of net/Buffer.cc: a scattered read into the free space and 65535 bytes of stack.
use slack.Base.{
  ℕ, ◌+◌, ◌^◌, ◌≤◌, ◌<◌, ◌≡◌, Option, some, List, ◌++◌, ltb, leb, if◌then◌else◌, length, take, drop,
  overwrite, arith, refl, subst, leb→le, add_size, Returns, Returns->>=, inl, inr, Bool-cases,
  length-take, length-drop, length-overwrite, take_all, take-append-drop, append_assoc, ap, ◌∙◌,
  ◌>>=◌,
}
use slack.Net.Buffer.{Buffer, writable_bytes, append}
use slack.Net.Buffer.Valid.{Holds}
use slack.Net.Buffer.Refine.{append_lem, written-Holds}

-- What `sockets::readv` answers: an `errno`, or the bytes it has stored in the two blocks in turn.
pub data Readv : Type 0 where
  failed : ℕ → Readv
  got : List ℕ → Readv

abbrev pub extra_size : ℕ
extra_size = 65535

-- How many bytes the blocks passed to `readv` hold: the second is only offered below 64 KiB.
abbrev pub offered : Buffer → ℕ
offered b =
    if ltb (writable_bytes b) extra_size then writable_bytes b + extra_size else writable_bytes b

-- The buffer afterwards, with the return value and what is stored in `*saveErrno`.
pub data ReadFd : Type 0 where
  error : ℕ → ReadFd
  count : ℕ → ReadFd

unfoldable pub read_fd : Buffer → Readv → Option (ReadFd × Buffer)
read_fd b (failed err) = some (error err, b)
read_fd b (got bytes) =
    let writable = writable_bytes b in
    let filled = overwrite b.buffer b.writer_index (take writable bytes) in
    if leb (length bytes) writable
    then some (
      count (length bytes),
      record b { buffer = filled; writer_index = add_size b.writer_index (length bytes) },
    )
    else do
      b' ← append (record b { buffer = filled; writer_index = length filled }) (drop writable bytes)
      some (count (length bytes), b')

module _ {b : Buffer} {q : List ℕ} (bytes : List ℕ) (h : Holds b q) where
  first : List ℕ
  first = take (writable_bytes b) bytes

  -- The free space full to the end of the vector.
  filled-Holds :
      writable_bytes b < length bytes
      → let filled = overwrite b.buffer b.writer_index first in
        Holds (record b { buffer = filled; writer_index = length filled }) (q ++ first)
  unfolding first
  filled-Holds more =
      let n = length-take (writable_bytes b) bytes in
      let e : b.writer_index + length first ≡ length (overwrite b.buffer b.writer_index first) =
        omega (arith, n, h.valid, length-overwrite b.buffer b.writer_index first) in
      subst
        (λ w.
          Holds (record b { buffer = overwrite b.buffer b.writer_index first; writer_index = w })
            (q ++ first))
        e (written-Holds h first (omega (arith, n)))

  joined : (q ++ first) ++ drop (writable_bytes b) bytes ≡ q ++ bytes
  unfolding first
  joined =
      append_assoc q first (drop (writable_bytes b) bytes)
      ∙ ap (λ l. q ++ l) (take-append-drop (writable_bytes b) bytes)

-- The buffer gains exactly the bytes that `readv` delivered, in order, whether or not they fit into
-- its free space, and the count is returned. `readv` delivers no more than it is offered, and the
-- vector stays below 2^63 with the extra space.
pub read_fd_lem :
    {b : Buffer} {q : List ℕ} (bytes : List ℕ)
    → Holds b q
    → length bytes ≤ offered b
    → length b.buffer + extra_size + 8 < 2 ^ 63
    → Returns (read_fd b (got bytes)) (λ r. (r.0 ≡ count (length bytes)) × Holds r.1 (q ++ bytes))
unfolding read_fd first
read_fd_lem {b} {q} bytes h room s = elim (Bool-cases (leb (length bytes) (writable_bytes b))) [
  | inl fits ↦
      rw (fits, take_all (writable_bytes b) bytes (ground arith))
        (
          refl,
          subst
              (λ w.
                Holds
                  (record b { buffer = overwrite b.buffer b.writer_index bytes; writer_index = w })
                  (q ++ bytes))
              (omega (arith, h.valid, leb→le _ _ fits)) (written-Holds h bytes (ground arith)),
        )
  | inr more ↦ rw more (
      Returns->>= (append _ (drop (writable_bytes b) bytes)) _ _ _
        (append_lem (filled-Holds bytes h (ground arith)) (drop (writable_bytes b) bytes) (
          ground (
            arith,
            h.valid,
            length-drop (writable_bytes b) bytes,
            length-overwrite b.buffer b.writer_index (take (writable_bytes b) bytes),
          )))
        λ b' p. (refl, subst (λ l. Holds b' l) (joined bytes h) p.0))
]

pub read_fd_failed : (b : Buffer) (err : ℕ) → read_fd b (failed err) ≡ some (error err, b)
unfolding read_fd
read_fd_failed b err = refl
