-- ===== src/Rtsp/Session/Reachable.antt =====
-- A session as a step relation: its connection hands it bytes, and each time asio, the clock and
-- `std::rand` answer as they like.
use mathlib.Core.Path.{subst}
use camera_player.Prelude.{
  ◌||◌, Option, none, some, ◌≡◌, refl, sym, arith, if_cases, List, [], ◌∷◌, ◌++◌, Bytes, codes,
}
use camera_player.Prelude.Text.{lines}
use camera_player.Rtsp.Protocol.{
  parse_rtsp_request_line, parse_headers, first_line, RtspMethod, RtspResponse,
}
use camera_player.Rtsp.Interleaved.{
  Received, rtcp_data, rtp_data, rtsp_request, process_interleaved_data,
}
use camera_player.Rtsp.Session.{RtspSession, Environment, bad_request, is_ready, is_playing}
use camera_player.Rtsp.Session.Requests.{
  on_interleaved, on_request, channel_number, dispatch, note_request, respond, send_response,
  handle_rtsp_request, handle_received, on_bytes,
}
use camera_player.Rtsp.Session.Consistent.{Afterwards, IsConsistent}
use camera_player.Rtsp.Session.Keeping.{dispatch-IsConsistent}

pub data Step (own : Bytes) : RtspSession → RtspSession → Type 0 where
  bytes_come :
      {s t : RtspSession} (env : Environment) (bytes : Bytes)
      → env.own_session_id ≡ own
      → on_bytes env bytes s ≡ some t
      → Step own s t

pub data Reach (own : Bytes) (s : RtspSession) : RtspSession → Type 0 where
  here : Reach own s s
  next : {t u : RtspSession} → Reach own s t → Step own t u → Reach own s u

-- What holds of a session if there is one.
abbrev Then : (RtspSession → Type 0) → Option RtspSession → Type 0
Then P none = Unit {0}
Then P (some t) = P t

module _ (env : Environment) where
  IsConsistent-same :
      (s t : RtspSession)
      → t.context.state ≡ s.context.state
      → t.context.session_id ≡ s.context.session_id
      → t.rtp_transport ≡ s.rtp_transport
      → IsConsistent env.own_session_id s
      → IsConsistent env.own_session_id t
  IsConsistent-same s t e f g c = record {
    silent = rw (e, g) c.silent;
    heard = rw (e, g) c.heard;
    identified = rw (e, f) c.identified;
  }

  respond-IsConsistent :
      (o : Option (RtspResponse × RtspSession))
      → Afterwards (IsConsistent env.own_session_id) o
      → Then (IsConsistent env.own_session_id) (respond o)
  respond-IsConsistent none c = _
  respond-IsConsistent (some (r, s)) c =
      IsConsistent-same s (send_response r s.context.cseq s) refl refl refl c

  -- A request line that is read, or is not.
  on_line : Bytes → RtspSession → Option (RtspMethod × Bytes × Bytes) → Option RtspSession
  on_line request s none = some (send_response bad_request (codes "-1") s)
  on_line request s (some (m, u, v)) =
      respond (dispatch env m (parse_headers request) (note_request u (parse_headers request) s))

  handle_rtsp_request-on_line :
      (request : Bytes) (s : RtspSession)
      → handle_rtsp_request env request s
        ≡ on_line request s (parse_rtsp_request_line (first_line (lines request)))
  unfolding handle_rtsp_request on_line
  handle_rtsp_request-on_line request s = ground arith

  on_line-IsConsistent :
      (request : Bytes) (s : RtspSession) (o : Option (RtspMethod × Bytes × Bytes))
      → IsConsistent env.own_session_id s
      → Then (IsConsistent env.own_session_id) (on_line request s o)
  unfolding on_line
  on_line-IsConsistent request s none c =
      IsConsistent-same s (send_response bad_request (codes "-1") s) refl refl refl c
  on_line-IsConsistent request s (some (m, u, v)) c =
      let noted = note_request u (parse_headers request) s in
      respond-IsConsistent (dispatch env m (parse_headers request) noted) (
        dispatch-IsConsistent env m (parse_headers request) noted
          (IsConsistent-same s noted refl refl refl c))

  handle_rtsp_request-IsConsistent :
      (request : Bytes) (s : RtspSession)
      → IsConsistent env.own_session_id s
      → Then (IsConsistent env.own_session_id) (handle_rtsp_request env request s)
  handle_rtsp_request-IsConsistent request s c =
      subst (Then (IsConsistent env.own_session_id)) (sym (handle_rtsp_request-on_line request s))
        (on_line-IsConsistent request s (parse_rtsp_request_line (first_line (lines request))) c)

  -- A further step is taken from a session that is there.
  and_then : Option RtspSession → (RtspSession → Option RtspSession) → Option RtspSession
  and_then none f = none
  and_then (some t) f = f t

  and_then-IsConsistent :
      (o : Option RtspSession) (f : RtspSession → Option RtspSession)
      → Then (IsConsistent env.own_session_id) o
      → ((t : RtspSession)
          → IsConsistent env.own_session_id t
          → Then (IsConsistent env.own_session_id) (f t))
      → Then (IsConsistent env.own_session_id) (and_then o f)
  unfolding and_then
  and_then-IsConsistent none f c k = _
  and_then-IsConsistent (some t) f c k = k t c

  handle_received-IsConsistent :
      (received : List Received) (s : RtspSession)
      → IsConsistent env.own_session_id s
      → Then (IsConsistent env.own_session_id) (handle_received env received s)
  unfolding handle_received and_then
  handle_received-IsConsistent [] s c = c
  handle_received-IsConsistent (rtsp_request r ∷ rest) s c =
      let same : handle_received env (rtsp_request r ∷ rest) s
          ≡ and_then (handle_rtsp_request env r s) (λ t. handle_received env rest t) =
        ground arith in
      subst (Then (IsConsistent env.own_session_id)) (sym same) (
        and_then-IsConsistent (handle_rtsp_request env r s) (λ t. handle_received env rest t)
          (handle_rtsp_request-IsConsistent r s c) (λ t k. handle_received-IsConsistent rest t k))
  handle_received-IsConsistent (rtcp_data b ∷ rest) s c = handle_received-IsConsistent rest s c
  handle_received-IsConsistent (rtp_data b ∷ rest) s c = handle_received-IsConsistent rest s c

  with_buffer : Bytes → RtspSession → Option RtspSession
  with_buffer rest t = some (record t { read_buffer = rest })

  after_frames : RtspSession → Option (Bytes × List Received) → Option RtspSession
  after_frames s none = none
  after_frames s (some (rest, received)) =
      and_then (handle_received env received s) (with_buffer rest)

  after_frames-IsConsistent :
      (s : RtspSession) (o : Option (Bytes × List Received))
      → IsConsistent env.own_session_id s
      → Then (IsConsistent env.own_session_id) (after_frames s o)
  unfolding after_frames with_buffer
  after_frames-IsConsistent s none c = _
  after_frames-IsConsistent s (some (rest, received)) c =
      and_then-IsConsistent (handle_received env received s) (with_buffer rest)
        (handle_received-IsConsistent received s c)
        (λ t k. IsConsistent-same t (record t { read_buffer = rest }) refl refl refl k)

  on_interleaved-IsConsistent :
      (s : RtspSession)
      → IsConsistent env.own_session_id s
      → Then (IsConsistent env.own_session_id) (on_interleaved env s)
  unfolding after_frames and_then with_buffer
  on_interleaved-IsConsistent s c =
      let o =
        process_interleaved_data (channel_number s.context.rtp_channel)
          (channel_number s.context.rtcp_channel) s.read_buffer in
      let same : on_interleaved env s ≡ after_frames s o = ground arith in
      subst (Then (IsConsistent env.own_session_id)) (sym same) (after_frames-IsConsistent s o c)

  on_request-IsConsistent :
      (s : RtspSession)
      → IsConsistent env.own_session_id s
      → Then (IsConsistent env.own_session_id) (on_request env s)
  unfolding and_then with_buffer
  on_request-IsConsistent s c =
      let same : on_request env s
          ≡ and_then (handle_rtsp_request env s.read_buffer s) (with_buffer []) =
        ground arith in
      subst (Then (IsConsistent env.own_session_id)) (sym same) (
        and_then-IsConsistent (handle_rtsp_request env s.read_buffer s) (with_buffer [])
          (handle_rtsp_request-IsConsistent s.read_buffer s c)
          (λ t k. IsConsistent-same t (record t { read_buffer = [] }) refl refl refl k))

  on_bytes-IsConsistent :
      (bytes : Bytes) (s : RtspSession)
      → IsConsistent env.own_session_id s
      → Then (IsConsistent env.own_session_id) (on_bytes env bytes s)
  unfolding on_bytes
  on_bytes-IsConsistent bytes s c =
      let s' = record s { read_buffer = s.read_buffer ++ bytes } in
      let k : IsConsistent env.own_session_id s' = IsConsistent-same s s' refl refl refl c in
      if_cases (Then (IsConsistent env.own_session_id))
        (is_playing s.context.state || is_ready s.context.state)
        (λ g. on_interleaved-IsConsistent s' k) (λ g. on_request-IsConsistent s' k)

Step-IsConsistent :
    {own : Bytes} {s t : RtspSession} → Step own s t → IsConsistent own s → IsConsistent own t
Step-IsConsistent {own} {s} {t} (bytes_come env bytes e f) c =
    let k = on_bytes-IsConsistent env bytes s (subst (λ o. IsConsistent o s) (sym e) c) in
    subst (λ o. IsConsistent o t) e (subst (Then (IsConsistent env.own_session_id)) f k)

-- From a session that is consistent, as a new one is, whatever bytes a client sends, however they are
-- cut, as long as handling them does not throw, the session stays so: before it is set up, while it is
-- paused and once it is torn down no transport plays; while it plays its transport does, if it has one;
-- and a session that is set up has the connection's id.
pub Reach-IsConsistent :
    {own : Bytes} {s t : RtspSession} → IsConsistent own s → Reach own s t → IsConsistent own t
Reach-IsConsistent c here = c
Reach-IsConsistent c (next r st) = Step-IsConsistent st (Reach-IsConsistent c r)
