-- ===== src/Ws/Handshake.antt =====
-- The opening handshake: namespace `ws::handshake` of include/server/ws/ws_handshake.hpp. Strings are
-- bytes; a map of headers is a list in the order of its keys.
pub mod Negotiate
pub mod Request
mod Examples
use camera_player.Prelude.{
  ℕ, zero, suc, ◌+◌, Bool, true, false, not, ◌&&◌, ◌||◌, ◌==◌, if◌then◌else◌, Option, none, some,
  List, [], ◌∷◌, ◌++◌, map, length, Bytes, codes,
}
use camera_player.Prelude.Text.{
  same, lookup, insert, is_space, to_lower, lines, words, split_at, pop_cr, starts_with, contains,
  skip, skip_end, split_all, is_empty_text, lookup_or_empty, member,
}
use camera_player.Ws.Sha1.{hash}
use camera_player.Ws.Base64.{base64_encode}

abbrev pub magic_guid : Bytes
magic_guid = codes "258EAFA5-E914-47DA-95CA-C5AB0DC85B11"

pub record HttpRequest : Type 0 where
  pub method : Bytes
  pub path : Bytes
  pub version : Bytes
  pub headers : List (Bytes × Bytes)

-- What `ParseHttpRequest` returns: 0, -1, or the bytes consumed, with the request.
pub data ParseResult : Type 0 where
  incomplete failed : ParseResult
  parsed : ℕ → HttpRequest → ParseResult

-- The bytes before the first `\r\n\r\n`.
abbrev pub head_end : Bytes
head_end = 13 ∷ 10 ∷ 13 ∷ 10 ∷ []

unfoldable pub find_head : Bytes → Option Bytes
find_head [] = none
find_head (c ∷ cs) =
    let rest = find_head cs in
    if starts_with head_end (c ∷ cs)
    then some []
    else elim rest [ none ↦ none | some text ↦ some (c ∷ text) ]

abbrev pub is_blank : ℕ → Bool
is_blank c = c == 32 || c == 9

-- The value without its leading blanks; one of blanks only is kept.
abbrev pub strip_front : Bytes → Bytes
strip_front val = elim (skip is_blank val) [ [] ↦ val | c ∷ cs ↦ c ∷ cs ]

-- The loop over the header lines.
unfoldable pub parse_header_lines : List Bytes → List (Bytes × Bytes) → List (Bytes × Bytes)
parse_header_lines [] headers = headers
parse_header_lines (line ∷ rest) headers = elim (pop_cr line) [
  | [] ↦ headers
  | c ∷ cs ↦ elim (split_at 0x3A (c ∷ cs)) [
    | none ↦ parse_header_lines rest headers
    | some (key, val) ↦
        parse_header_lines rest (insert (map to_lower key) (strip_front val) headers)
  ]
]

-- The request line and the header lines of a head.
abbrev pub parse_lines : ℕ → List Bytes → ParseResult
parse_lines consumed [] = failed
parse_lines consumed (line ∷ rest) = elim (words (pop_cr line)) [
  | m ∷ p ∷ v ∷ more ↦
      parsed consumed
        (record { method = m; path = p; version = v; headers = parse_header_lines rest [] })
  | _ ↦ failed
]

-- `ParseHttpRequest`.
unfoldable pub parse_http_request : Bytes → ParseResult
unfolding find_head parse_header_lines
parse_http_request bytes = elim (find_head bytes) [
  | none ↦ incomplete
  | some text ↦ parse_lines (length text + 4) (lines text)
]

-- `IsWebSocketUpgrade`.
unfoldable pub is_web_socket_upgrade : HttpRequest → Bool
is_web_socket_upgrade req =
    let find_ci = λ (key : Bytes). lookup_or_empty key req.headers in
    let ver = find_ci (codes "sec-websocket-version") in
    same req.method (codes "GET")
    && contains (codes "websocket") (map to_lower (find_ci (codes "upgrade")))
    && contains (codes "upgrade") (map to_lower (find_ci (codes "connection")))
    && not (is_empty_text (find_ci (codes "sec-websocket-key")))
    && (is_empty_text ver || same ver (codes "13") || same ver (codes "8") || same ver (codes "7"))

-- `Trim`.
abbrev pub trim : Bytes → Bytes
trim value = skip_end is_space (skip is_space value)

-- The tokens among the parts, trimmed, but the empty ones.
abbrev pub keep_token : Bytes → List Bytes → List Bytes
keep_token [] tokens = tokens
keep_token (c ∷ cs) tokens = (c ∷ cs) ∷ tokens

abbrev pub keep_tokens : List Bytes → List Bytes
keep_tokens [] = []
keep_tokens (part ∷ parts) = keep_token (trim part) (keep_tokens parts)

-- `SplitHeaderTokens`.
unfoldable pub split_header_tokens : Bytes → List Bytes
split_header_tokens value = keep_tokens (split_all 0x2C value)

-- `ParseSubProtocols`.
unfoldable pub parse_sub_protocols : HttpRequest → List Bytes
unfolding split_header_tokens
parse_sub_protocols req = elim (lookup (codes "sec-websocket-protocol") req.headers) [
  | none ↦ []
  | some value ↦ split_header_tokens value
]

-- The two loops of `NegotiateSubProtocol`, the inner one as a test.
unfoldable pub first_requested : List Bytes → List Bytes → Bytes
first_requested [] requested = []
first_requested (supported ∷ rest) requested =
    if member supported requested then supported else first_requested rest requested

-- `NegotiateSubProtocol`.
unfoldable pub negotiate_sub_protocol : HttpRequest → List Bytes → Bytes
unfolding parse_sub_protocols first_requested
negotiate_sub_protocol req supported_protocols =
    first_requested supported_protocols (parse_sub_protocols req)

-- `ComputeAcceptKey`.
unfoldable pub compute_accept_key : Bytes → Bytes
compute_accept_key key = base64_encode (hash (key ++ magic_guid))

abbrev pub crlf : Bytes
crlf = 13 ∷ 10 ∷ []

abbrev pub protocol_line : Bytes → Bytes
protocol_line [] = []
protocol_line (c ∷ cs) = codes "Sec-WebSocket-Protocol: " ++ ((c ∷ cs) ++ crlf)

-- `BuildHandshakeResponse`.
unfoldable pub build_handshake_response : Bytes → Bytes → Bytes
unfolding compute_accept_key
build_handshake_response key subprotocol =
    codes "HTTP/1.1 101 Switching Protocols"
    ++ (crlf
        ++ (codes "Upgrade: websocket"
            ++ (crlf
                ++ (codes "Connection: Upgrade"
                    ++ (crlf
                        ++ (codes "Sec-WebSocket-Accept: "
                            ++ (compute_accept_key key
                                ++ (crlf ++ (protocol_line subprotocol ++ crlf)))))))))
