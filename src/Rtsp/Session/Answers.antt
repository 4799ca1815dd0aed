-- ===== src/Rtsp/Session/Answers.antt =====
-- Each request is answered once, under its number.
use camera_player.Prelude.{
  ℕ, Option, none, some, ◌≡◌, sym, ap, append_assoc, arith, [], ◌∷◌, ◌++◌, Bytes, codes,
}
use mathlib.Core.Path.{subst}
use camera_player.Prelude.Text.{lookup, lines}
use camera_player.Prelude.Numbers.{to_decimal}
use camera_player.Rtsp.Protocol.{
  RtspMethod, RtspResponse, build_response, header_line, header_lines, body_part,
  parse_rtsp_request_line, parse_headers, first_line,
}
use camera_player.Rtsp.Session.{RtspSession, Environment}
use camera_player.Rtsp.Session.Requests.{dispatch, respond, handle_rtsp_request, note_request}
use camera_player.Rtsp.Session.Transitions.{Allowed, dispatch-Allowed}

-- The text of a response: its status line, then the number, then the rest.
abbrev pub response_text : ℕ → Bytes → Bytes → Bytes → Bytes
response_text status reason cseq rest =
    codes "RTSP/1.0 "
    ++ (to_decimal status
        ++ (32 ∷ (reason ++ (13 ∷ 10 ∷ (codes "CSeq: " ++ (cseq ++ (13 ∷ 10 ∷ rest)))))))

-- What a request is answered with: one response, which carries the number.
abbrev pub IsAnswered : Bytes → RtspSession → Option RtspSession → Type 0
IsAnswered cseq s none = Unit {0}
IsAnswered cseq s (some t) =
    (r : RtspResponse) × (rest : Bytes) × (t.sent
      ≡ s.sent ++ response_text r.status_code r.status_reason cseq rest ∷ [])

build_response-text :
    (r : RtspResponse) (cseq : Bytes)
    → (rest : Bytes) × (build_response r cseq
        ≡ response_text r.status_code r.status_reason cseq rest)
unfolding build_response
build_response-text r cseq =
    let rest =
      header_line (codes "Server") (codes "RTSPServer/1.0")
      ++ (header_lines r.headers ++ body_part r) in
    (
      rest,
      ap
          (λ l.
            codes "RTSP/1.0 "
            ++ (to_decimal r.status_code
                ++ (32 ∷ (r.status_reason ++ (13 ∷ 10 ∷ (codes "CSeq: " ++ l))))))
          (append_assoc cseq (13 ∷ 10 ∷ []) rest),
    )

respond-IsAnswered :
    (m : RtspMethod) (s : RtspSession) (o : Option (RtspResponse × RtspSession))
    → Allowed m s o
    → IsAnswered s.context.cseq s (respond o)
respond-IsAnswered m s none k = _
respond-IsAnswered m s (some (r, t)) k =
    let (rest, text) = build_response-text r s.context.cseq in
    (r, rest, rw (k.same_sent, k.same_cseq) (ap (λ b. s.sent ++ b ∷ []) text))

-- A request with a line that can be read and a `CSeq` header is answered with one response, which
-- is a status line and behind it a `CSeq` line with the header's number, unless handling it throws.
pub handle_rtsp_request-IsAnswered :
    (env : Environment) (request : Bytes) (s : RtspSession) (m : RtspMethod)
    (url version cseq : Bytes)
    → parse_rtsp_request_line (first_line (lines request)) ≡ some (m, url, version)
    → lookup (codes "CSeq") (parse_headers request) ≡ some cseq
    → IsAnswered cseq s (handle_rtsp_request env request s)
unfolding handle_rtsp_request
handle_rtsp_request-IsAnswered env request s m url version cseq e f =
    let noted = note_request url (parse_headers request) s in
    let same : handle_rtsp_request env request s
        ≡ respond (dispatch env m (parse_headers request) noted) =
      ground arith in
    let number : noted.context.cseq ≡ cseq = ground arith in
    subst (IsAnswered cseq s) (sym same) (
      subst (λ n. IsAnswered n s (respond (dispatch env m (parse_headers request) noted))) number
        (respond-IsAnswered m noted (dispatch env m (parse_headers request) noted)
          (dispatch-Allowed env m (parse_headers request) noted)))
