-- ===== src/Rtp/Channels/Examples.antt =====
-- A transport that plays, and one that is stopped and started again.
use camera_player.Prelude.{
  ℕ, Bool, true, false, none, some, ◌≡◌, refl, ◌++◌, List, [], ◌∷◌, arith, codes,
}
use camera_player.Prelude.Numbers.{to_decimal}
use camera_player.Rtp.Packet.{RtpPacket}
use camera_player.Rtp.Transport.{MediaChannelInfo}
use camera_player.Rtp.Senders.{Sent, stream, tcp, udp, send, sender_output, get_peer_port}
use camera_player.Rtp.Channels.{
  Transport, udp_info, new_channel, new_transport, set_sender, set_playing, set_frame_provider,
  set_rtp_over_tcp, set_rtp_over_udp, play_channel, update_channel, get_rtp_info, start, stop,
}
use camera_player.Rtp.Channels.Timer.{send_on, transport_send, on_timer}
use camera_player.Rtp.Channels.Machine.{
  expire, ready, run_due, here, next, sender_set, provider_set, playing_set, expired, timer,
}
use camera_player.Rtp.Channels.Live.{IsLive}
use camera_player.Rtp.Channels.Playing.{AreLive, Reach-AreLive, restart-stuck}

-- Everything is sent, and kept in a list.
abbrev World : Type 0
World = List Sent

abbrev keep : Sent → World → Bool × World
keep out w = (true, w ++ out ∷ [])

abbrev info : MediaChannelInfo
info = record { payload = 96; seq = 7; ssrc = 1; packet_count = 0; octet_count = 0 }

abbrev fresh : Transport World
fresh = new_transport (new_channel info 90000 false false) (new_channel info 8000 false false)

-- Twenty bytes: four for the frame's header, twelve for RTP's, and four.
abbrev packet : RtpPacket
packet = record {
  bytes = 0 ∷ 0 ∷ 0 ∷ 0 ∷ 0 ∷ 0 ∷ 0 ∷ 0 ∷ 0 ∷ 0 ∷ 0 ∷ 0 ∷ 0 ∷ 0 ∷ 0 ∷ 0 ∷ 1 ∷ 2 ∷ 3 ∷ 4 ∷ [];
  size = 20;
  timestamp = 5;
  kind = 1;
  last = 1;
}

abbrev with_sender : Transport World
with_sender = set_sender (some tcp) fresh

abbrev provided : Transport World
provided = set_frame_provider 0 (some (λ w. (some packet, w))) with_sender

abbrev started : Transport World
started = set_playing 0 true provided

abbrev is_due : Transport World
is_due = update_channel 0 expire started

timer_armed : started.channel_0.armed ≡ some 40
unfolding play_channel
timer_armed = refl

-- The timer's handler sends the packet with its header, on channel 0, and waits again.
timer_sends : on_timer keep false 0 started [] ≡ (
  record started {
    channel_0 = record started.channel_0 {
      info = record info { seq = 8; packet_count = 1; octet_count = 20 };
      due = true ∷ [];
    };
  },
  stream (
        0x24 ∷ 0 ∷ 0 ∷ 16 ∷ 0x80 ∷ 0xE0 ∷ 0 ∷ 7 ∷ 0 ∷ 0 ∷ 0 ∷ 5 ∷ 0 ∷ 0 ∷ 0 ∷ 1 ∷ 1 ∷ 2 ∷ 3 ∷ 4
        ∷ [])
      ∷ [],
)
unfolding on_timer play_channel transport_send send_on send sender_output
timer_sends = refl

abbrev ran : Transport World
ran = (run_due keep (ready keep 0 is_due) 0 is_due []).0

Reach-AreLive_example : AreLive ran
Reach-AreLive_example =
    Reach-AreLive keep {t = fresh} {s = []}
      (next
        (next
          (next
            (next (next here (sender_set (some tcp)))
              (provider_set 0 (some (λ w. (some packet, w)))))
            (playing_set 0 true))
          (expired 0))
        (timer 0))
      (fresh_live info 90000, fresh_live info 8000)
  where
    fresh_live :
        (i : MediaChannelInfo) (rate : ℕ)
        → IsLive false (new_channel {State = World} i rate false false)
    fresh_live i rate = record {
      runs_playing = λ e. cc;
      waits_running = λ e. cc;
      has_rate = omega arith;
      plays_running = λ e f. cc;
      runs_waiting = λ e. cc;
    }

restart-stuck_example :
    (set_playing 0 true (start (stop started))).channel_0.is_loop_running ≡ false
unfolding play_channel
restart-stuck_example = (restart-stuck started refl playing_now refl).2
  where
    playing_now : started.channel_0.is_playing ≡ true
    playing_now = refl

-- Two channels are set up, so two tracks are named.
rtp_info_test :
    get_rtp_info (codes "rtsp://a") 2000 (set_rtp_over_tcp 1 2 3 (set_rtp_over_tcp 0 0 1 fresh).1).1
    ≡ codes "url=rtsp://a/track0;seq=0;rtptime=180000,url=rtsp://a/track1;seq=0;rtptime=16000"
unfolding get_rtp_info to_decimal
rtp_info_test = refl

-- The RTCP port is the next one, and wraps.
udp_ports_test :
    (set_rtp_over_udp
      (some (record { address = codes "10.0.0.1"; port = 65535 }))
      0
      6000
      6001
      fresh).1.channel_0.transport_info
    ≡ udp_info 65535 0 6000 6001
udp_ports_test = refl

no_third_channel_test : (set_rtp_over_tcp 2 0 1 fresh).0 ≡ false
no_third_channel_test = refl

peer_test : get_peer_port (udp (codes "10.0.0.2") 6000 6001) none ≡ 6000
unfolding get_peer_port
peer_test = refl
