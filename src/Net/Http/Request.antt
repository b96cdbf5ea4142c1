-- ===== src/Net/Http/Request.antt =====
-- net/http/HttpRequest.h. Strings are their bytes.
use slack.Base.{
  ℕ, ◌+◌, List, [], Bool, true, false, Option, some, none, ◌>>◌, assert, take, drop, if◌then◌else◌,
  not,
}
use slack.Std.Scan.{same}
use slack.Std.Text.{codes, skip_spaces, trim_end}
use slack.Std.StringMap.{StringMap, lookup, insert}

pub data Method : Type 0 where
  invalid get post head put delete : Method

pub data Version : Type 0 where
  unknown http10 http11 : Version

pub record HttpRequest : Type 0 where
  pub method : Method
  pub version : Version
  pub path : List ℕ
  pub query : List ℕ
  pub receive_time : ℕ
  pub headers : StringMap

-- The default constructor.
abbrev pub empty_request : HttpRequest
empty_request = record {
  method = invalid;
  version = unknown;
  path = [];
  query = [];
  receive_time = 0;
  headers = [];
}

unfoldable pub is_invalid : Method → Bool
is_invalid invalid = true
is_invalid m = false

-- The method that a word names.
unfoldable pub method_of : List ℕ → Method
method_of m =
    if same m (codes "GET")
    then get
    else if same m (codes "POST")
    then post
    else if same m (codes "HEAD")
    then head
    else if same m (codes "PUT")
    then put
    else if same m (codes "DELETE")
    then delete
    else invalid

unfoldable pub set_method : HttpRequest → List ℕ → Option (Bool × HttpRequest)
unfolding is_invalid
set_method r m = do
  assert (is_invalid r.method)
  some (not (is_invalid (method_of m)), record r { method = method_of m })

unfoldable pub method_string : HttpRequest → List ℕ
method_string r = elim r.method [
  | get ↦ codes "GET"
  | post ↦ codes "POST"
  | head ↦ codes "HEAD"
  | put ↦ codes "PUT"
  | delete ↦ codes "DELETE"
  | _ ↦ codes "UNKNOWN"
]

-- `line` is the range [start, end), and `colon` the offset of the colon in it.
unfoldable pub add_header : HttpRequest → List ℕ → ℕ → HttpRequest
add_header r line colon =
    let field = take colon line in
    let value = trim_end (skip_spaces (drop (colon + 1) line)) in
    record r { headers = insert field value r.headers }

-- The empty string where there is no such field.
unfoldable pub get_header : HttpRequest → List ℕ → List ℕ
get_header r field = elim (lookup field r.headers) [ none ↦ [] | some value ↦ value ]
