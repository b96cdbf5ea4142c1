-- ===== src/Net/Http/Response.antt =====
-- net/http/HttpResponse.h and HttpResponse.cc.
use slack.Base.{
  ℕ, ◌+◌, ◌^◌, ◌<◌, ◌≡◌, List, [], ◌∷◌, ◌++◌, Bool, Option, some, ◌>>=◌, take, if◌then◌else◌,
  length, length-append, arith, refl, ap, ◌∙◌, sym, Returns, Returns->>=, Returns-mono,
  append_assoc, append-nil, subst, take_all, Bool-cases, inl, inr,
}
use slack.Std.Scan.{crlf}
use slack.Std.Text.{codes, decimal, length-decimal}
use slack.Std.StringMap.{StringMap, insert}
use slack.Net.Buffer.{Buffer, append_piece}
use slack.Net.Buffer.Valid.{Holds}
use slack.Net.Buffer.Refine.{append_piece_lem}

pub data StatusCode : Type 0 where
  unknown ok200 moved_permanently301 bad_request400 not_found404 : StatusCode

-- The enumerators' values.
unfoldable pub code_number : StatusCode → ℕ
code_number unknown = 0
code_number ok200 = 200
code_number moved_permanently301 = 301
code_number bad_request400 = 400
code_number not_found404 = 404

pub record HttpResponse : Type 0 where
  pub headers : StringMap
  pub status_code : StatusCode
  pub status_message : List ℕ
  pub close_connection : Bool
  pub body : List ℕ

unfoldable pub make : Bool → HttpResponse
make close = record {
  headers = [];
  status_code = unknown;
  status_message = [];
  close_connection = close;
  body = [];
}

unfoldable pub add_header : HttpResponse → List ℕ → List ℕ → HttpResponse
add_header r key value = record r { headers = insert key value r.headers }

unfoldable pub set_content_type : HttpResponse → List ℕ → HttpResponse
unfolding add_header
set_content_type r content_type = add_header r (codes "Content-Type") content_type

-- `snprintf` into 32 bytes, of which the last is the terminator.
unfoldable pub printed : List ℕ → List ℕ
printed text = take 31 text

abbrev header_pieces : StringMap → List (List ℕ)
header_pieces [] = []
header_pieces ((key, value) ∷ m) = key ∷ codes ": " ∷ value ∷ crlf ∷ header_pieces m

abbrev connection_pieces : HttpResponse → List (List ℕ)
connection_pieces r =
    if r.close_connection
    then (codes "Connection: close" ++ crlf) ∷ []
    else printed (codes "Content-Length: " ++ decimal (length r.body) ++ crlf)
      ∷ (codes "Connection: Keep-Alive" ++ crlf)
      ∷ []

-- What `appendToBuffer` appends, call by call.
unfoldable pub pieces : HttpResponse → List (List ℕ)
pieces r =
    printed (codes "HTTP/1.1 " ++ decimal (code_number r.status_code) ++ codes " ")
    ∷ r.status_message
    ∷ crlf
    ∷ (connection_pieces r ++ (header_pieces r.headers ++ (crlf ∷ r.body ∷ [])))

unfoldable pub append_all : Buffer → List (List ℕ) → Option Buffer
append_all b [] = some b
append_all b (p ∷ ps) = do b' ← append_piece b p; append_all b' ps

unfoldable pub append_to_buffer : HttpResponse → Buffer → Option Buffer
append_to_buffer r output = append_all output (pieces r)

abbrev pub joined : List (List ℕ) → List ℕ
joined [] = []
joined (p ∷ ps) = p ++ joined ps

-- Every piece fits an `int`.
abbrev pub AreShort : List (List ℕ) → Type 0
AreShort [] = Unit {0}
AreShort (p ∷ ps) = (length p < 2 ^ 31) × AreShort ps

append_all_lem :
    (ps : List (List ℕ)) {b : Buffer} {q : List ℕ}
    → Holds b q
    → AreShort ps
    → length b.buffer + length (joined ps) + 8 < 2 ^ 63
    → Returns (append_all b ps) (λ b'. Holds b' (q ++ joined ps))
unfolding append_all
append_all_lem [] {b} {q} h s k = subst (Holds b) (sym (append-nil q)) h
append_all_lem (p ∷ ps) {b} {q} h s k =
    let n = length-append p (joined ps) in
    Returns->>= (append_piece b p) _ _ _ (append_piece_lem h p s.0 (omega arith)) λ b' r.
      Returns-mono (append_all b' ps) _ _ (append_all_lem ps r.0 s.1 (omega (arith, r.1)))
        λ b'' t. subst (Holds b'') (append_assoc q p (joined ps)) t

-- The text of a response, as HTTP/1.1 lays it out.
abbrev pub header_text : StringMap → List ℕ
header_text [] = []
header_text ((key, value) ∷ m) = key ++ (codes ": " ++ (value ++ (crlf ++ header_text m)))

abbrev pub connection_text : HttpResponse → List ℕ
connection_text r =
    if r.close_connection
    then codes "Connection: close" ++ crlf
    else (codes "Content-Length: " ++ decimal (length r.body) ++ crlf)
      ++ (codes "Connection: Keep-Alive" ++ crlf)

abbrev pub response_text : HttpResponse → List ℕ
response_text r =
    (codes "HTTP/1.1 " ++ decimal (code_number r.status_code) ++ codes " ")
    ++ (r.status_message
        ++ (crlf ++ (connection_text r ++ (header_text r.headers ++ (crlf ++ r.body)))))

joined-append : (ps qs : List (List ℕ)) → joined (ps ++ qs) ≡ joined ps ++ joined qs
joined-append [] qs = refl
joined-append (p ∷ ps) qs =
    ap (λ l. p ++ l) (joined-append ps qs) ∙ sym (append_assoc p (joined ps) (joined qs))

joined-header_pieces : (m : StringMap) → joined (header_pieces m) ≡ header_text m
joined-header_pieces [] = refl
joined-header_pieces ((key, value) ∷ m) =
    ap (λ l. key ++ (codes ": " ++ (value ++ (crlf ++ l)))) (joined-header_pieces m)

code_number_small : (c : StatusCode) → code_number c < 10 ^ 3
unfolding code_number
code_number_small c = ground arith

-- The 32 bytes for `snprintf` hold the status line and a length of up to thirteen digits.
printed_status :
    (c : StatusCode)
    → printed (codes "HTTP/1.1 " ++ decimal (code_number c) ++ codes " ")
      ≡ codes "HTTP/1.1 " ++ decimal (code_number c) ++ codes " "
unfolding printed
printed_status c =
    let d = decimal (code_number c) in
    take_all 31 _ (
      omega (
        arith,
        length-append (codes "HTTP/1.1 " ++ d) (codes " "),
        length-append (codes "HTTP/1.1 ") d,
        length-decimal (code_number c) 2 (code_number_small c),
      ))

printed_length :
    (n : ℕ)
    → n < 10 ^ 13
    → printed (codes "Content-Length: " ++ decimal n ++ crlf)
      ≡ codes "Content-Length: " ++ decimal n ++ crlf
unfolding printed
printed_length n h = take_all 31 _ (
    omega (
      arith,
      length-append (codes "Content-Length: " ++ decimal n) crlf,
      length-append (codes "Content-Length: ") (decimal n),
      length-decimal n 12 h,
    ))

joined-connection_pieces :
    (r : HttpResponse) → length r.body < 10 ^ 13 → joined (connection_pieces r) ≡ connection_text r
joined-connection_pieces r h = elim (Bool-cases r.close_connection) [
  | inl close ↦ rw close
  | inr keep ↦ rw (keep, printed_length (length r.body) h)
]

short_tail : (ps qs : List (List ℕ)) → AreShort (ps ++ qs) → AreShort qs
short_tail [] qs h = h
short_tail (p ∷ ps) qs h = short_tail ps qs h.1

short_body : (r : HttpResponse) → AreShort (pieces r) → length r.body < 10 ^ 13
unfolding pieces
short_body r h =
    let tail = crlf ∷ r.body ∷ [] in
    omega (
      arith,
      short_tail (header_pieces r.headers) tail
          (short_tail (connection_pieces r) (header_pieces r.headers ++ tail) h.1.1.1),
    )

joined-pieces : (r : HttpResponse) → length r.body < 10 ^ 13 → joined (pieces r) ≡ response_text r
unfolding pieces
joined-pieces r h =
    let tail = crlf ∷ r.body ∷ [] in
    rw (
      joined-append (connection_pieces r) (header_pieces r.headers ++ tail),
      joined-append (header_pieces r.headers) tail,
      joined-header_pieces r.headers,
      joined-connection_pieces r h,
      printed_status r.status_code,
      append-nil r.body,
    )

-- `appendToBuffer` keeps what the buffer holds and puts the response's text behind it: the status line,
-- the connection header (with the length of the body where the connection stays open), the other
-- headers in the order of their keys, an empty line and the body. No string is longer than an `int`
-- counts.
pub append_to_buffer_lem :
    {b : Buffer} {q : List ℕ} (r : HttpResponse)
    → Holds b q
    → AreShort (pieces r)
    → length b.buffer + length (response_text r) + 8 < 2 ^ 63
    → Returns (append_to_buffer r b) (λ b'. Holds b' (q ++ response_text r))
unfolding append_to_buffer
append_to_buffer_lem {b} {q} r h s k =
    let e = joined-pieces r (short_body r s) in
    rw (← e) (append_all_lem (pieces r) h s (omega (arith, ap length e)))
