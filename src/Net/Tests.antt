-- ===== src/Net/Tests.antt =====
-- The theorems of net/Buffer.h and Buffer.cc at concrete inputs, and buffers for the other tests.
mod Http
mod TcpConnection
mod Loop
mod Timers
mod EventLoop
mod Server
mod LoopThread
mod Client
use slack.Base.{
  ℕ, ◌+◌, ◌-◌, ◌^◌, ◌≤◌, ◌<◌, ◌≡◌, ◌≢◌, List, [], ◌∷◌, ◌++◌, Bool, true, false, not, ◌&&◌, Option,
  some, none, ◌==◌, arith, refl, inl, inr, length, replicate, take, drop, take_all, length-append,
  ap, ◌∙◌, Returns, ◌>>=◌, subst,
}
use slack.Std.Text.{codes}
use slack.Std.Scan.{Lacks, crlf}
use slack.Net.Buffer.{Buffer, append, prepend, shrink, prependable_bytes}
use slack.Net.Buffer.Valid.{IsValid, Holds, contents}
use slack.Net.Buffer.Refine.{append_lem, prepend_lem, shrink_lem}
use slack.Net.Buffer.Queue.{Op, put, get, skip, run, model, run_refines}
use slack.Net.Buffer.Ints.{
  append_int, read_int, prepend_int, read_int-append_int, read_int-prepend_int,
}
use slack.Net.Buffer.ReadFd.{Readv, got, ReadFd, count, read_fd, read_fd_lem}

-- A buffer of the initial layout with some bytes in it.
abbrev pub buffer_of : List ℕ → Buffer
buffer_of bytes = record {
  buffer = replicate 8 0 ++ bytes;
  reader_index = 8;
  writer_index = 8 + length bytes;
}

pub buffer_of-Holds : (bytes : List ℕ) → length bytes < 2 ^ 62 → Holds (buffer_of bytes) bytes
buffer_of-Holds bytes h = record {
  valid = record {
    room = omega arith;
    ordered = omega arith;
    inside = omega arith;
    small = omega arith;
  };
  bytes_eq = take_all (8 + length bytes - 8) bytes (omega arith);
}

abbrev hello : List ℕ
hello = codes "hello"

hello-Holds : Holds (buffer_of hello) hello
hello-Holds = buffer_of-Holds hello (omega arith)

empty-Holds : Holds (buffer_of []) []
empty-Holds = buffer_of-Holds [] (omega arith)

abbrev ops : List Op
ops = put (codes "abc") ∷ get 2 ∷ skip 1 ∷ get 6 ∷ []

run_refines_example : run (buffer_of hello) ops ≡ model hello ops
run_refines_example = run_refines ops hello-Holds (omega arith)

read_fd_lem_example :
    Returns
      (read_fd (buffer_of hello) (got (codes "abc")))
      (λ r. (r.0 ≡ count (length (codes "abc"))) × Holds r.1 (hello ++ codes "abc"))
read_fd_lem_example = read_fd_lem (codes "abc") hello-Holds (omega arith) (omega arith)
