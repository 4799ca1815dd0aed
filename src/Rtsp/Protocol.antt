-- ===== src/Rtsp/Protocol.antt =====
-- `RtspProtocol` of include/ai-camera/rtsp/rtsp.h and src/rtsp/rtsp.cpp. Strings are bytes, a map is
-- a list in the order of its keys, and what a source of media says of itself is data.
use camera_player.Prelude.{
  ℕ, ◌+◌, Bool, ◌==◌, if◌then◌else◌, Option, none, some, List, [], ◌∷◌, ◌++◌, map, length, take,
  Bytes, codes,
}
use camera_player.Prelude.Text.{
  same, lookup, insert, to_upper, lines, words, split_at, pop_cr, skip, skip_end, is_empty_text,
}
use camera_player.Prelude.Numbers.{stoul, to_decimal}

-- `enum class RtspMethod`; `record` is reserved in the model's language.
pub data RtspMethod : Type 0 where
  options describe setup play pause teardown get_parameter set_parameter recording unknown :
      RtspMethod

pub record RtspRequest : Type 0 where
  pub method : RtspMethod
  pub url : Bytes
  pub version : Bytes
  pub headers : List (Bytes × Bytes)
  pub body : Bytes

pub record RtspResponse : Type 0 where
  pub status_code : ℕ
  pub status_reason : Bytes
  pub headers : List (Bytes × Bytes)
  pub body : Bytes
  pub content_type : Bytes

abbrev pub crlf : Bytes
crlf = 13 ∷ 10 ∷ []

-- A line `key: value`.
abbrev pub header_line : Bytes → Bytes → Bytes
header_line k v = k ++ (codes ": " ++ (v ++ crlf))

abbrev pub header_lines : List (Bytes × Bytes) → Bytes
header_lines [] = []
header_lines ((k, v) ∷ headers) = header_line k v ++ header_lines headers

abbrev pub body_part : RtspResponse → Bytes
body_part r =
    if is_empty_text r.body
    then crlf
    else header_line (codes "Content-Length") (to_decimal (length r.body))
      ++ (header_line (codes "Content-Type") r.content_type ++ (crlf ++ r.body))

-- `BuildResponse`.
unfoldable pub build_response : RtspResponse → Bytes → Bytes
build_response r cseq =
    codes "RTSP/1.0 "
    ++ (to_decimal r.status_code
        ++ (32
            ∷ (r.status_reason
                ++ (crlf
                    ++ (header_line (codes "CSeq") cseq
                        ++ (header_line (codes "Server") (codes "RTSPServer/1.0")
                            ++ (header_lines r.headers ++ body_part r)))))))

-- The method of a name in capitals.
abbrev pub method_of : Bytes → RtspMethod
method_of m =
    if same m (codes "OPTIONS")
    then options
    else if same m (codes "DESCRIBE")
    then describe
    else if same m (codes "SETUP")
    then setup
    else if same m (codes "PLAY")
    then play
    else if same m (codes "PAUSE")
    then pause
    else if same m (codes "TEARDOWN")
    then teardown
    else if same m (codes "GET_PARAMETER")
    then get_parameter
    else if same m (codes "SET_PARAMETER")
    then set_parameter
    else if same m (codes "RECORD")
    then recording
    else unknown

-- The line's method, URL and version, if it has three words, the right version and a known method.
abbrev pub known_line : RtspMethod → Bytes → Bytes → Option (RtspMethod × Bytes × Bytes)
known_line unknown url version = none
known_line method url version = some (method, url, version)

-- `ParseRtspRequestLine`.
unfoldable pub parse_rtsp_request_line : Bytes → Option (RtspMethod × Bytes × Bytes)
parse_rtsp_request_line line = elim (words line) [
  | m ∷ u ∷ v ∷ more ↦
      if same v (codes "RTSP/1.0") then known_line (method_of (map to_upper m)) u v else none
  | _ ↦ none
]

abbrev pub is_blank : ℕ → Bool
is_blank c = c == 32

-- A string without the blanks at its ends.
abbrev pub strip : Bytes → Bytes
strip s = skip_end is_blank (skip is_blank s)

-- The loop of `ParseHeaders`: only a line without even `\r` ends it.
unfoldable pub parse_header_lines : List Bytes → List (Bytes × Bytes) → List (Bytes × Bytes)
parse_header_lines [] headers = headers
parse_header_lines ([] ∷ rest) headers = headers
parse_header_lines ((c ∷ cs) ∷ rest) headers = elim (split_at 0x3A (pop_cr (c ∷ cs))) [
  | none ↦ parse_header_lines rest headers
  | some (key, value) ↦ parse_header_lines rest (insert (strip key) (strip value) headers)
]

-- The lines but the first.
abbrev pub rest_lines : List Bytes → List Bytes
rest_lines [] = []
rest_lines (line ∷ rest) = rest

abbrev pub first_line : List Bytes → Bytes
first_line [] = []
first_line (line ∷ rest) = line

-- `ParseHeaders`.
unfoldable pub parse_headers : Bytes → List (Bytes × Bytes)
unfolding parse_header_lines
parse_headers request = parse_header_lines (rest_lines (lines request)) []

-- The lines put together without their ends.
abbrev pub join : List Bytes → Bytes
join [] = []
join (line ∷ rest) = line ++ join rest

-- The body of a request, which is only read if a length is given; `none` if that is no number.
abbrev pub parse_body : Bytes → List (Bytes × Bytes) → Option Bytes
parse_body request headers = elim (lookup (codes "Content-Length") headers) [
  | none ↦ some []
  | some value ↦ elim (stoul value) [
    | none ↦ none
    | some body_size ↦ some (take body_size (join (rest_lines (lines request))))
  ]
]

-- `ParseRequest`, of which the first result tells whether it throws.
abbrev pub with_body :
    RtspMethod → Bytes → Bytes → List (Bytes × Bytes) → Option Bytes → Option (Option RtspRequest)
with_body m u v headers none = none
with_body m u v headers (some body) =
    some (some (record { method = m; url = u; version = v; headers = headers; body = body }))

unfoldable pub parse_request : Bytes → Option (Option RtspRequest)
unfolding parse_headers parse_rtsp_request_line
parse_request request = elim (parse_rtsp_request_line (pop_cr (first_line (lines request)))) [
  | none ↦ some none
  | some (m, u, v) ↦
      with_body m u v (parse_headers request) (parse_body request (parse_headers request))
]

-- What a source of media says of itself: `GetMediaDescription(0)` and `GetAttribute()`.
pub record RtpSource : Type 0 where
  pub media_description : Bytes
  pub attribute : Bytes

-- The loop of `GenerateSdp`, from source `i` on; a source may be null.
unfoldable pub source_lines : ℕ → List (Option RtpSource) → Bytes
source_lines i [] = []
source_lines i (none ∷ sources) = source_lines (i + 1) sources
source_lines i (some s ∷ sources) =
    s.media_description
    ++ (crlf
        ++ (s.attribute
            ++ (crlf
                ++ (codes "a=control:track"
                    ++ (to_decimal i ++ (crlf ++ source_lines (i + 1) sources))))))

-- `GenerateSdp`.
unfoldable pub generate_sdp : Bytes → Bytes → List (Option RtpSource) → Bytes
unfolding source_lines
generate_sdp ip session_id sources =
    codes "v=0"
    ++ (crlf
        ++ (codes "o=- "
            ++ (session_id
                ++ (codes " 1234 IN IP4 "
                    ++ (ip
                        ++ (crlf
                            ++ (codes "s=RTSP Server"
                                ++ (crlf
                                    ++ (codes "c=IN IP4 0.0.0.0"
                                        ++ (crlf
                                            ++ (codes "t=0 0"
                                                ++ (crlf ++ source_lines 0 sources))))))))))))
