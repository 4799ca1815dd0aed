-- ===== src/Ws/Handshake/Examples.antt =====
-- The handshake at concrete requests.
use camera_player.Prelude.{true, ◌≡◌, refl, arith, List, [], ◌∷◌, ◌++◌, All, Bytes, codes}
use camera_player.Prelude.Text.{behind, insert, lookup, split_all}
use camera_player.Ws.Sha1.{hash, process_block}
use camera_player.Ws.Base64.{base64_encode}
use camera_player.Ws.Handshake.{
  HttpRequest, parsed, parse_http_request, is_web_socket_upgrade, negotiate_sub_protocol,
  split_header_tokens, compute_accept_key, head_end,
}
use camera_player.Ws.Handshake.Request.{
  IsHeader, print_request, store_headers, parse_http_request-print_request,
}

abbrev sent : List (Bytes × Bytes)
sent =
    (codes "Upgrade", codes "websocket")
    ∷ (codes "Connection", codes "keep-alive, Upgrade")
    ∷ (codes "Sec-WebSocket-Key", codes "dGhlIHNhbXBsZSBub25jZQ==")
    ∷ (codes "Sec-WebSocket-Protocol", codes "chat, h264")
    ∷ []

abbrev request : HttpRequest
request = record {
  method = codes "GET";
  path = codes "/live";
  version = codes "HTTP/1.1";
  headers = store_headers sent [];
}

-- The key of RFC 6455.
accept_key_of_the_rfc :
    compute_accept_key (codes "dGhlIHNhbXBsZSBub25jZQ==") ≡ codes "s3pPLMBiTxaQ9kYGzzhZRbK+xOo="
unfolding compute_accept_key base64_encode hash process_block
accept_key_of_the_rfc = refl

tokens_are_trimmed : split_header_tokens (codes " chat ,, h264") ≡ codes "chat" ∷ codes "h264" ∷ []
unfolding split_header_tokens split_all
tokens_are_trimmed = refl

request_upgrades : is_web_socket_upgrade request ≡ true
unfolding is_web_socket_upgrade behind lookup insert
request_upgrades = refl

h264_is_taken :
    negotiate_sub_protocol request (codes "raw" ∷ codes "h264" ∷ codes "chat" ∷ []) ≡ codes "h264"
unfolding negotiate_sub_protocol split_all lookup insert
h264_is_taken = refl

host-IsHeader : All IsHeader ((codes "Host", codes "cam") ∷ [])
host-IsHeader = ground arith

parse_http_request-print_request_example :
    parse_http_request (
      print_request (codes "GET") (codes "/") (codes "HTTP/1.1") ((codes "Host", codes "cam") ∷ [])
      ++ (head_end ++ 0x81 ∷ []))
    ≡ parsed 29 (record {
      method = codes "GET";
      path = codes "/";
      version = codes "HTTP/1.1";
      headers = store_headers ((codes "Host", codes "cam") ∷ []) [];
    })
parse_http_request-print_request_example =
    parse_http_request-print_request (codes "GET") (codes "/") (codes "HTTP/1.1")
      ((codes "Host", codes "cam") ∷ []) (0x81 ∷ []) (ground arith) (ground arith) host-IsHeader
