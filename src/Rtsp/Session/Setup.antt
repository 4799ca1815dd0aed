-- ===== src/Rtsp/Session/Setup.antt =====
-- `HandleSetup` and `parseRangeNum`. A number that is none, or too large, throws: `none`.
use camera_player.Prelude.{
  ℕ, ◌+◌, Bool, true, false, ◌||◌, ◌==◌, if◌then◌else◌, Option, none, some, List, [], ◌∷◌, ◌++◌,
  Bytes, codes,
}
use camera_player.Prelude.Text.{lookup, split_at, behind, contains, skip_end, is_empty_text}
use camera_player.Prelude.Numbers.{ℤ, pos, stoi, to_uint16, to_decimal, int_to_decimal}
use camera_player.Rtsp.Protocol.{RtspResponse}
use camera_player.Rtsp.Session.{
  ready, TransportMode, rtp_over_tcp, rtp_over_udp, rtp_over_multicast, RtspContext, RtpTransport,
  RtspSession, Environment, bad_request, with_header, session_ok, set_state, ensure_session_id,
}

-- What comes before the first place of a byte, or the whole string.
abbrev pub up_to : ℕ → Bytes → Bytes
up_to d s = elim (split_at d s) [ none ↦ s | some (a, b) ↦ a ]

-- The end of an `interleaved` parameter, from which the second channel is read. The string before `;`
-- is cut to a length that wraps around where `;` stands before `-`.
abbrev pub second_part : Bytes → Bytes
second_part s = elim (split_at 0x2D s) [
  | none ↦ up_to 0x3B s
  | some (a, b) ↦ if contains (0x3B ∷ []) a then b else up_to 0x3B b
]

abbrev pub set_channels : ℤ → ℤ → RtspContext → RtspContext
set_channels rtp rtcp c = record c { rtp_channel = rtp; rtcp_channel = rtcp }

-- The channels of an `interleaved` parameter: without `-` the first one is 0.
abbrev pub first_channel : Bytes → Option ℤ
first_channel s = elim (split_at 0x2D s) [ none ↦ some (pos 0) | some (a, b) ↦ stoi a ]

abbrev pub read_interleaved : Bytes → RtspContext → Option RtspContext
read_interleaved s c = elim (first_channel s) [
  | none ↦ none
  | some rtp ↦ elim (stoi (second_part s)) [
    | none ↦ none
    | some rtcp ↦ some (set_channels rtp rtcp c)
  ]
]

-- `is_tcp`: the parameters of RTP over TCP.
unfoldable pub setup_tcp : Bytes → RtspContext → Option RtspContext
setup_tcp header c =
    let c' = record c { mode = rtp_over_tcp } in
    elim (behind (codes "interleaved=") header) [ none ↦ some c' | some s ↦ read_interleaved s c' ]

-- `parseRangeNum`.
abbrev pub is_delimiter : ℕ → Bool
is_delimiter c = c == 0x3B || c == 13 || c == 10 || c == 9

unfoldable pub parse_range_num : Bytes → Bytes × Bytes
parse_range_num str = elim (split_at 0x2D str) [
  | none ↦ ([], [])
  | some (a, b) ↦ (a, skip_end is_delimiter b)
]

-- `is_udp`: the ports of the client. `some (false, c)` is a bad request.
abbrev pub read_ports : Bytes → Bytes → RtspContext → Option (Bool × RtspContext)
read_ports a b c = elim (stoi a) [
  | none ↦ none
  | some rtp ↦ elim (stoi b) [
    | none ↦ none
    | some rtcp ↦
        some (true, record c { client_rtp_port = to_uint16 rtp; client_rtcp_port = to_uint16 rtcp })
  ]
]

unfoldable pub setup_udp : Bytes → RtspContext → Option (Bool × RtspContext)
unfolding parse_range_num
setup_udp header c =
    let c' = record c { mode = rtp_over_udp } in
    elim (behind (codes "client_port=") header) [
      | none ↦ some (false, c')
      | some ports ↦
          (let (a, b) = parse_range_num ports in
            if is_empty_text a || is_empty_text b then some (false, c') else read_ports a b c')
    ]

-- The transport that the header asks for, as the context keeps it.
abbrev pub accepted : Option RtspContext → Option (Bool × RtspContext)
accepted none = none
accepted (some c) = some (true, c)

unfoldable pub choose_transport : Bytes → RtspContext → Option (Bool × RtspContext)
unfolding setup_tcp setup_udp
choose_transport header c =
    if contains (codes "RTP/AVP/TCP") header
    then accepted (setup_tcp header c)
    else if contains (codes "RTP/AVP") header
    then setup_udp header c
    else if contains (codes "multicast") header
    then some (true, record c { mode = rtp_over_multicast })
    else some (false, c)

-- `is_playing` has no initialiser: it is what the memory holds.
abbrev pub new_transport : Bool → TransportMode → ℕ → ℕ → RtpTransport
new_transport held over a b = record {
  over = over;
  rtp_port = a;
  rtcp_port = b;
  frame_rate = 25;
  is_playing = held;
  sent_sets = [];
}

-- The transport is made, and the response tells how it goes.
abbrev pub open_transport : Environment → RtspSession → RtspResponse × RtspSession
open_transport env s =
    let c = s.context in
    elim c.mode [
      | rtp_over_tcp ↦ (
        with_header (codes "Transport")
            (codes "RTP/AVP/TCP;interleaved="
              ++ (int_to_decimal c.rtp_channel ++ (0x2D ∷ int_to_decimal c.rtcp_channel)))
            (session_ok s),
        record s {
          rtp_transport = some (
              new_transport env.playing_memory rtp_over_tcp (to_uint16 c.rtp_channel)
                (to_uint16 c.rtcp_channel));
        },
      )
      | rtp_over_udp ↦ (
        with_header (codes "Transport")
            (codes "RTP/AVP;unicast;client_port="
              ++ (to_decimal c.client_rtp_port
                  ++ (0x2D
                      ∷ (to_decimal c.client_rtcp_port
                          ++ (codes ";server_port="
                              ++ (to_decimal env.local_port
                                  ++ (0x2D ∷ to_decimal (env.local_port + 1))))))))
            (session_ok s),
        record s {
          rtp_transport =
              some (
                new_transport env.playing_memory rtp_over_udp c.client_rtp_port c.client_rtcp_port);
        },
      )
      | rtp_over_multicast ↦ (session_ok s, s)
    ]

-- `HandleSetup`, with the headers of the request.
unfoldable pub handle_setup :
    Environment → List (Bytes × Bytes) → RtspSession → Option (RtspResponse × RtspSession)
unfolding choose_transport
handle_setup env headers s = elim (lookup (codes "Transport") headers) [
  | none ↦ some (bad_request, s)
  | some header ↦
      (let s' = ensure_session_id env s in
        elim (choose_transport header s'.context) [
          | none ↦ none
          | some (true, c) ↦ some (open_transport env (set_state ready (record s' { context = c })))
          | some (false, c) ↦ some (bad_request, record s' { context = c })
        ])
]
