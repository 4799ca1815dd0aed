-- ===== src/Rtsp/Session/Channels.antt =====
-- The channels of RTP over TCP, from the request of a client to the response.
use camera_player.Prelude.{
  ℕ, ◌<◌, ◌%◌, ◌^◌, true, false, none, some, ◌≡◌, refl, ap, ◌∙◌, arith, List, [], ◌∷◌, ◌++◌, Bytes,
  codes,
}
use camera_player.Prelude.Text.{lookup, split_at, behind, contains, lookup-insert_self}
use camera_player.Prelude.Lines.{Lacks, split_at-append}
use camera_player.Prelude.Numbers.{
  pos, stoi, to_decimal, is_digit, IsDigits, to_decimal-IsDigits, stoi-to_decimal,
}
use camera_player.Rtsp.Protocol.{RtspResponse}
use camera_player.Rtsp.Session.{
  RtspContext, RtspSession, Environment, ready, rtp_over_tcp, ensure_session_id, set_state,
}
use camera_player.Rtsp.Session.Setup.{
  up_to, second_part, first_channel, set_channels, read_interleaved, setup_tcp, choose_transport,
  accepted, new_transport, open_transport, handle_setup,
}
use camera_player.Rtsp.Session.Keeping.{after_choice, handle_setup-choice}

-- The value of the parameter, and the header that a client sends.
abbrev pub channel_range : ℕ → ℕ → Bytes
channel_range a b = to_decimal a ++ 0x2D ∷ to_decimal b

abbrev pub tcp_header : ℕ → ℕ → Bytes
tcp_header a b = codes "RTP/AVP/TCP;unicast;interleaved=" ++ channel_range a b

IsDigits-Lacks : (d : ℕ) (s : Bytes) → is_digit d ≡ false → IsDigits s → Lacks d s
IsDigits-Lacks d [] h k = _
IsDigits-Lacks d (c ∷ cs) h (e, k) = (ground arith, IsDigits-Lacks d cs h k)

split_at-Lacks : (d : ℕ) (s : Bytes) → Lacks d s → split_at d s ≡ none
unfolding split_at
split_at-Lacks d [] h = refl
split_at-Lacks d (c ∷ cs) (e, h) = rw (e, split_at-Lacks d cs h) refl

behind-Lacks : (d : ℕ) (s : Bytes) → Lacks d s → behind (d ∷ []) s ≡ none
unfolding behind
behind-Lacks d [] h = refl
behind-Lacks d (c ∷ cs) (e, h) = ground (arith, behind-Lacks d cs h)

range_split : (a b : ℕ) → split_at 0x2D (channel_range a b) ≡ some (to_decimal a, to_decimal b)
range_split a b =
    split_at-append 0x2D (to_decimal a) (to_decimal b)
      (IsDigits-Lacks 0x2D (to_decimal a) refl (to_decimal-IsDigits a))

second_part-range : (a b : ℕ) → second_part (channel_range a b) ≡ to_decimal b
second_part-range a b =
    let e =
      behind-Lacks 0x3B (to_decimal a)
        (IsDigits-Lacks 0x3B (to_decimal a) refl (to_decimal-IsDigits a)) in
    let f =
      split_at-Lacks 0x3B (to_decimal b)
        (IsDigits-Lacks 0x3B (to_decimal b) refl (to_decimal-IsDigits b)) in
    rw (second_part, range_split a b, contains, e, up_to, f) refl

read_interleaved-range :
    (a b : ℕ) (c : RtspContext)
    → a < 2 ^ 31
    → b < 2 ^ 31
    → read_interleaved (channel_range a b) c ≡ some (set_channels (pos a) (pos b) c)
read_interleaved-range a b c l m =
    let first : first_channel (channel_range a b) ≡ some (pos a) =
      rw (first_channel, range_split a b) (stoi-to_decimal a l) in
    let second : stoi (second_part (channel_range a b)) ≡ some (pos b) =
      ap stoi (second_part-range a b) ∙ stoi-to_decimal b m in
    rw (read_interleaved, first, second) refl

choose_transport-tcp :
    (a b : ℕ) (c : RtspContext)
    → choose_transport (tcp_header a b) c
      ≡ accepted (read_interleaved (channel_range a b) (record c { mode = rtp_over_tcp }))
unfolding choose_transport setup_tcp behind
choose_transport-tcp a b c = refl

-- A client that asks for RTP over TCP on two channels below 2 ^ 31 is answered with 200 and the same
-- two channels, in the same form; the session is ready, keeps the channels, and has a new transport,
-- which gets each channel modulo 2 ^ 16; whether it plays is what its memory held.
pub handle_setup-channels :
    (env : Environment) (headers : List (Bytes × Bytes)) (s : RtspSession) (a b : ℕ)
    → lookup (codes "Transport") headers ≡ some (tcp_header a b)
    → a < 2 ^ 31
    → b < 2 ^ 31
    → (r : RtspResponse) × (t : RtspSession) × (handle_setup env headers s ≡ some (r, t))
      × (r.status_code ≡ 200)
      × (lookup (codes "Transport") r.headers
          ≡ some (codes "RTP/AVP/TCP;interleaved=" ++ channel_range a b))
      × (t.context.state ≡ ready)
      × (t.context.rtp_channel ≡ pos a)
      × (t.context.rtcp_channel ≡ pos b)
      × (t.rtp_transport
          ≡ some (new_transport env.playing_memory rtp_over_tcp (a % 2 ^ 16) (b % 2 ^ 16)))
unfolding after_choice
handle_setup-channels env headers s a b e l m =
    let s' = ensure_session_id env s in
    let c = set_channels (pos a) (pos b) (record s'.context { mode = rtp_over_tcp }) in
    let t = set_state ready (record s' { context = c }) in
    let chosen : choose_transport (tcp_header a b) s'.context ≡ some (true, c) =
      choose_transport-tcp a b s'.context
      ∙ ap accepted (read_interleaved-range a b (record s'.context { mode = rtp_over_tcp }) l m) in
    (
      (open_transport env t).0,
      (open_transport env t).1,
      handle_setup-choice env headers s (tcp_header a b) e ∙ ap (after_choice env s') chosen,
      refl,
      lookup-insert_self (codes "Transport") (codes "RTP/AVP/TCP;interleaved=" ++ channel_range a b)
          _,
      refl,
      refl,
      refl,
      refl,
    )
