-- ===== src/Net/Http/Context/RequestLine.antt =====
-- What net/http/HttpContext.cc makes of a well-formed request line.
use slack.Base.{
  ℕ, ◌+◌, ◌≡◌, ◌≢◌, List, [], ◌∷◌, ◌++◌, true, Option, some, none, length, arith, refl, append-nil,
  if◌then◌else◌, ◌⊎◌, length-append, take-append_length, drop-append_length, drop-append_add, ◌==◌,
  inl, inr,
}
use slack.Std.Scan.{find_byte-append, find_byte_none, Lacks, Lacks-append, same}
use slack.Std.Text.{codes}
use slack.Net.Http.Request.{
  HttpRequest, invalid, Version, http10, http11, method_of, is_invalid, set_method,
}
use slack.Net.Http.Context.{
  set_version, parse_version, set_target, parse_target, process_request_line,
}

-- A request line: a method's word, a path, perhaps a query, and the version's last digit.
pub record RequestLine : Type 0 where
  pub word : List ℕ
  pub path : List ℕ
  pub query : Option (List ℕ)
  pub digit : ℕ

abbrev pub query_bytes : Option (List ℕ) → List ℕ
query_bytes none = []
query_bytes (some q) = b'?' ∷ q

abbrev pub target : RequestLine → List ℕ
target l = l.path ++ query_bytes l.query

abbrev pub version_bytes : ℕ → List ℕ
version_bytes d = codes "HTTP/1." ++ (d ∷ [])

abbrev pub render_line : RequestLine → List ℕ
render_line l = l.word ++ b' ' ∷ (target l ++ b' ' ∷ version_bytes l.digit)

abbrev pub QueryLacks : ℕ → Option (List ℕ) → Type 0
QueryLacks c none = Unit {0}
QueryLacks c (some q) = Lacks c q

-- The words are apart: no space within them, no question mark in the path, and no line end.
pub record IsWellFormed (l : RequestLine) : Type 0 where
  pub known : method_of l.word ≢ invalid
  pub word_space : Lacks b' ' l.word
  pub word_return : Lacks 13 l.word
  pub path_space : Lacks b' ' l.path
  pub path_question : Lacks b'?' l.path
  pub path_return : Lacks 13 l.path
  pub query_space : QueryLacks b' ' l.query
  pub query_return : QueryLacks 13 l.query
  pub version : (l.digit ≡ b'0') ⊎ (l.digit ≡ b'1')

abbrev pub version_of : ℕ → Version
version_of d = if d == b'1' then http11 else http10

-- The request that the line stands for.
abbrev pub with_query : HttpRequest → Option (List ℕ) → HttpRequest
with_query r none = r
with_query r (some q) = record r { query = b'?' ∷ q }

abbrev pub with_line : HttpRequest → RequestLine → HttpRequest
with_line r l =
    record (with_query (record r { method = method_of l.word; path = l.path }) l.query) {
      version = version_of l.digit;
    }

set_target_lem :
    (r : HttpRequest) (path : List ℕ) (query : Option (List ℕ))
    → Lacks b'?' path
    → set_target r (path ++ query_bytes query) ≡ with_query (record r { path = path }) query
unfolding set_target
set_target_lem r path none h = ground (arith, append-nil path, find_byte_none path b'?' h)
set_target_lem r path (some q) h = ground (
  arith,
  find_byte-append path q b'?' h,
  length-append path (b'?' ∷ q),
  take-append_length (length path) path (b'?' ∷ q) refl,
  drop-append_length (length path) path (b'?' ∷ q) refl,
)

parse_version_lem :
    (r : HttpRequest) (d : ℕ)
    → (d ≡ b'0') ⊎ (d ≡ b'1')
    → parse_version r (version_bytes d) ≡ (true, record r { version = version_of d })
unfolding parse_version set_version same
parse_version_lem r d (inl e) = rw e
parse_version_lem r d (inr e) = rw e

target-Lacks :
    (path : List ℕ) (query : Option (List ℕ))
    → Lacks b' ' path
    → QueryLacks b' ' query
    → Lacks b' ' (path ++ query_bytes query)
target-Lacks path none h k = rw (append-nil path) h
target-Lacks path (some q) h k = Lacks-append b' ' path (b'?' ∷ q) h (omega arith, k)

parse_target_lem :
    (r : HttpRequest) (l : RequestLine)
    → IsWellFormed l
    → parse_target r (target l ++ b' ' ∷ version_bytes l.digit) ≡ (
      true,
      record (with_query (record r { path = l.path }) l.query) { version = version_of l.digit },
    )
unfolding parse_target
parse_target_lem r l w =
    let v = version_bytes l.digit in
    let n = length (target l) in
    rw
      (
        find_byte-append (target l) v b' ' (target-Lacks l.path l.query w.path_space w.query_space),
        take-append_length n (target l) (b' ' ∷ v) refl,
        drop-append_add (n + 1) 1 (target l) (b' ' ∷ v) refl,
        set_target_lem r l.path l.query w.path_question,
        parse_version_lem (with_query (record r { path = l.path }) l.query) l.digit w.version,
      )
      (ground (arith, length-append (target l) (b' ' ∷ v)))

pub process_request_line_lem :
    (r : HttpRequest) (l : RequestLine)
    → r.method ≡ invalid
    → IsWellFormed l
    → process_request_line r (render_line l) ≡ some (true, with_line r l)
unfolding process_request_line set_method is_invalid
process_request_line_lem r l i w =
    let t = target l ++ b' ' ∷ version_bytes l.digit in
    let n = length l.word in
    rw
      (
        find_byte-append l.word t b' ' w.word_space,
        take-append_length n l.word (b' ' ∷ t) refl,
        drop-append_add (n + 1) 1 l.word (b' ' ∷ t) refl,
      )
      (ground (
        arith,
        length-append l.word (b' ' ∷ t),
        parse_target_lem (record r { method = method_of l.word }) l w,
        w.known,
      ))

return_query : (query : Option (List ℕ)) → QueryLacks 13 query → Lacks 13 (query_bytes query)
return_query none h = tt
return_query (some q) h = (omega arith, h)

-- So the line ends where it should.
pub render_line-Lacks : (l : RequestLine) → IsWellFormed l → Lacks 13 (render_line l)
render_line-Lacks l w =
    Lacks-append 13 l.word (b' ' ∷ (target l ++ b' ' ∷ version_bytes l.digit)) w.word_return (
      omega arith,
      Lacks-append 13 (target l) (b' ' ∷ version_bytes l.digit)
          (Lacks-append 13 l.path (query_bytes l.query) w.path_return
            (return_query l.query w.query_return))
          (ground (arith, w.version)),
    )
