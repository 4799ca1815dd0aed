-- ===== src/Http/Parser.antt =====
-- `Parser` of include/server/http/http_parser.hpp and src/server/http/http_parser.cpp. A map of headers
-- is a list in the order of its keys; a `Content-Length` that is no number throws, which is `none`.

pub mod Loop
pub mod Chunks
use camera_player.Prelude.{
  ℕ, zero, suc, ◌+◌, ◌-◌, Bool, true, false, not, ◌&&◌, ◌||◌, ltb, if◌then◌else◌, Option, none,
  some, List, [], ◌∷◌, ◌++◌, map, length, take, drop, Bytes, codes,
}
use camera_player.Prelude.Text.{
  same, lookup, insert, is_space, to_lower, words, split_at, pop_cr, skip,
}
use camera_player.Prelude.Numbers.{stoul}

-- `enum class Method`.
pub data Method : Type 0 where
  get post put del head options patch unknown : Method

pub record Request : Type 0 where
  pub method : Method
  pub uri : Bytes
  pub http_version : Bytes
  pub headers : List (Bytes × Bytes)
  pub body : Bytes

abbrev pub new_request : Request
new_request = record { method = unknown; uri = []; http_version = []; headers = []; body = [] }

-- `path` and `query_string`.
abbrev pub path_of : Request → Bytes
path_of r = elim (split_at 0x3F r.uri) [ none ↦ r.uri | some (a, b) ↦ a ]

abbrev pub query_string : Request → Bytes
query_string r = elim (split_at 0x3F r.uri) [ none ↦ [] | some (a, b) ↦ b ]

-- `enum class ParseState`; `METHOD`, `URI` and `VERSION` are treated alike, as are the two of headers.
pub data ParseState : Type 0 where
  at_method at_uri at_version at_header_key at_header_value at_body at_done at_error : ParseState

pub record Parser : Type 0 where
  pub state : ParseState
  pub req : Request
  pub buffer : Bytes

-- The member initialisers, and `reset`.
abbrev pub new_parser : Parser
new_parser = record { state = at_method; req = new_request; buffer = [] }

abbrev pub reset : Parser → Parser
reset p = record p { state = at_method; req = new_request; buffer = [] }

-- `completed` and `has_error`.
abbrev pub completed : Parser → Bool
completed p = elim p.state [ at_done ↦ true | _ ↦ false ]

abbrev pub has_error : Parser → Bool
has_error p = elim p.state [ at_error ↦ true | _ ↦ false ]

-- `try_consume_line`: the line, and the input behind it.
abbrev pub try_consume_line : Bytes → Option (Bytes × Bytes)
try_consume_line input = elim (split_at 10 input) [
  | none ↦ none
  | some (line, rest) ↦ some (pop_cr line, rest)
]

abbrev pub method_of : Bytes → Method
method_of m =
    if same m (codes "GET")
    then get
    else if same m (codes "POST")
    then post
    else if same m (codes "PUT")
    then put
    else if same m (codes "DELETE")
    then del
    else if same m (codes "HEAD")
    then head
    else if same m (codes "OPTIONS")
    then options
    else if same m (codes "PATCH")
    then patch
    else unknown

-- How the loop over the header lines ends: a line is not there yet, a line has no colon, or a line is
-- empty; with the input that is left, and the headers.
pub data Headers : Type 0 where
  unfinished malformed ended : Bytes → List (Bytes × Bytes) → Headers

-- What a header line does.
abbrev pub header_line :
    Bytes → Bytes → List (Bytes × Bytes) → (List (Bytes × Bytes) → Option Headers) → Option Headers
header_line [] rest headers next = some (ended rest headers)
header_line (c ∷ cs) rest headers next = elim (split_at 0x3A (c ∷ cs)) [
  | none ↦ some (malformed rest headers)
  | some (key, value) ↦ next (insert (map to_lower key) (skip is_space value) headers)
]

-- The loop. It takes fuel: `none` would mean that it ran out.
unfoldable pub headers_loop : ℕ → Bytes → List (Bytes × Bytes) → Option Headers
headers_loop zero view headers = elim (try_consume_line view) [
  | none ↦ some (unfinished view headers)
  | some (line, rest) ↦ none
]
headers_loop (suc fuel) view headers = elim (try_consume_line view) [
  | none ↦ some (unfinished view headers)
  | some (line, rest) ↦ header_line line rest headers (λ hs. headers_loop fuel rest hs)
]

abbrev pub set_headers : List (Bytes × Bytes) → Parser → Parser
set_headers headers p = record p { req = record p.req { headers = headers } }

-- The body, once the headers are read: `view` is the input that is left. The result has the number of
-- bytes consumed.
abbrev pub consumed : Bytes → Parser → ℕ
consumed view p = length p.buffer - length view

abbrev pub take_body : ℕ → Bytes → Parser → ℕ × Parser
take_body content_length view p =
    if ltb (length view) content_length
    then (consumed view p, record p { state = at_body; buffer = view })
    else (
      consumed view p + content_length,
      record p {
        state = at_done;
        req = record p.req { body = take content_length view };
        buffer = drop content_length view;
      },
    )

abbrev pub run_body : Bytes → Parser → Option (ℕ × Parser)
run_body view p = elim (lookup (codes "content-length") p.req.headers) [
  | none ↦ some (consumed view p, record p { state = at_done; buffer = view })
  | some value ↦ elim (stoul value) [ none ↦ none | some n ↦ some (take_body n view p) ]
]

-- The headers and what follows them. A line that is malformed leaves the buffer as it is.
abbrev pub after_headers : Option Headers → Parser → Option (ℕ × Parser)
after_headers none p = none
after_headers (some (unfinished view headers)) p =
    some (consumed view p, record (set_headers headers p) { buffer = view })
after_headers (some (malformed view headers)) p =
    some (consumed view p, record (set_headers headers p) { state = at_error })
after_headers (some (ended view headers)) p = run_body view (set_headers headers p)

-- Each line takes a byte or more, so the bytes left are fuel enough.
unfoldable pub run_headers : Bytes → Parser → Option (ℕ × Parser)
unfolding headers_loop
run_headers view p = after_headers (headers_loop (length view) view p.req.headers) p

-- The words of the request line.
abbrev pub set_line : Bytes → Bytes → Bytes → Parser → Parser
set_line m uri version p = record p {
  req = record p.req { method = method_of m; uri = uri; http_version = version };
}

abbrev pub run_words : List Bytes → Bytes → Parser → Option (ℕ × Parser)
run_words (m ∷ u ∷ v ∷ more) view p =
    let headers = run_headers view (record (set_line m u v p) { state = at_header_key }) in
    if not (same v (codes "HTTP/1.0")) && not (same v (codes "HTTP/1.1"))
    then some (consumed view p, record (set_line m u v p) { state = at_error })
    else headers
run_words _ view p = some (consumed view p, record p { state = at_error })

abbrev pub run_line : Parser → Option (ℕ × Parser)
run_line p = elim (try_consume_line p.buffer) [
  | none ↦ some (0, p)
  | some (line, view) ↦ run_words (words line) view p
]

-- `feed`, once the data is in the buffer.
unfoldable pub run : ParseState → Parser → Option (ℕ × Parser)
unfolding run_headers
run at_done p = some (0, p)
run at_error p = some (0, p)
run at_body p = run_body p.buffer p
run at_header_key p = run_headers p.buffer p
run at_header_value p = run_headers p.buffer p
run _ p = run_line p

-- `feed`.
abbrev pub is_over : ParseState → Bool
is_over at_done = true
is_over at_error = true
is_over _ = false

unfoldable pub feed : Bytes → Parser → Option (ℕ × Parser)
unfolding run
feed bytes p =
    let fed = run p.state (record p { buffer = p.buffer ++ bytes }) in
    if is_over p.state then some (0, p) else fed
