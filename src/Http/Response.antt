-- ===== src/Http/Response.antt =====
-- `Response` of include/server/http/http_response.hpp and src/server/http/http_response.cpp.
use camera_player.Prelude.{ℕ, List, [], ◌∷◌, ◌++◌, length, Bytes, codes}
use camera_player.Prelude.Text.{insert}
use camera_player.Prelude.Numbers.{to_decimal}

-- `enum class StatusCode`.
pub data StatusCode : Type 0 where
  ok created no_content moved_permanently found bad_request not_found method_not_allowed
        internal_server_error :
      StatusCode

-- The number of a status.
abbrev pub code_of : StatusCode → ℕ
code_of ok = 200
code_of created = 201
code_of no_content = 204
code_of moved_permanently = 301
code_of found = 302
code_of bad_request = 400
code_of not_found = 404
code_of method_not_allowed = 405
code_of internal_server_error = 500

-- `reason_phrase`.
abbrev pub reason_phrase : StatusCode → Bytes
reason_phrase ok = codes "OK"
reason_phrase created = codes "Created"
reason_phrase no_content = codes "No Content"
reason_phrase moved_permanently = codes "Moved Permanently"
reason_phrase found = codes "Found"
reason_phrase bad_request = codes "Bad Request"
reason_phrase not_found = codes "Not Found"
reason_phrase method_not_allowed = codes "Method Not Allowed"
reason_phrase internal_server_error = codes "Internal Server Error"

pub record Response : Type 0 where
  pub code : StatusCode
  pub headers : List (Bytes × Bytes)
  pub body : Bytes

abbrev pub new_response : Response
new_response = record { code = ok; headers = []; body = [] }

-- The builders `status`, `header`, `body` and `content_type`.
abbrev pub set_status : StatusCode → Response → Response
set_status code r = record r { code = code }

abbrev pub set_header : Bytes → Bytes → Response → Response
set_header key value r = record r { headers = insert key value r.headers }

abbrev pub set_body : Bytes → Response → Response
set_body body r = record r { body = body }

abbrev pub set_content_type : Bytes → Response → Response
set_content_type kind r = record r { headers = insert (codes "Content-Type") kind r.headers }

-- The loop over the headers in `to_string`.
abbrev pub crlf : Bytes
crlf = 13 ∷ 10 ∷ []

unfoldable pub header_lines : List (Bytes × Bytes) → Bytes
header_lines [] = []
header_lines ((k, v) ∷ headers) = k ++ (codes ": " ++ (v ++ (crlf ++ header_lines headers)))

-- `to_string`.
unfoldable pub response_text : Response → Bytes
unfolding header_lines
response_text r =
    codes "HTTP/1.1 "
    ++ (to_decimal (code_of r.code)
        ++ (32
            ∷ (reason_phrase r.code
                ++ (crlf
                    ++ (header_lines r.headers
                        ++ (codes "Content-Length: "
                            ++ (to_decimal (length r.body)
                                ++ (crlf
                                    ++ (codes "Connection: keep-alive"
                                        ++ (crlf ++ (crlf ++ r.body)))))))))))

-- `ok`, `not_found`, `bad_request` and `internal_error`.
abbrev pub text_response : StatusCode → Bytes → Bytes → Response
text_response code kind body = set_body body (set_content_type kind (set_status code new_response))

abbrev pub ok_response : Bytes → Bytes → Response
ok_response body kind = text_response ok kind body

abbrev pub not_found_response : Bytes → Response
not_found_response msg = text_response not_found (codes "text/plain") msg

abbrev pub bad_request_response : Bytes → Response
bad_request_response msg = text_response bad_request (codes "text/plain") msg

abbrev pub internal_error : Bytes → Response
internal_error msg = text_response internal_server_error (codes "text/plain") msg
