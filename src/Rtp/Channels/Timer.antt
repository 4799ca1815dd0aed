-- ===== src/Rtp/Channels/Timer.antt =====
-- Sending on a transport: `SendRtpPacket`, `SendRtp` and `OnTimer` of src/rtp/rtptransport.cpp.
use camera_player.Prelude.{
  ℕ, ◌+◌, ◌%◌, ◌^◌, Bool, true, false, not, ◌&&◌, ◌||◌, if◌then◌else◌, Option, none, some,
}
use camera_player.Rtp.Packet.{RtpPacket}
use camera_player.Rtp.Transport.{MediaChannelInfo, fill_rtp_header, next_seq}
use camera_player.Rtp.Senders.{Sender, Sent, send}
use camera_player.Rtp.Channels.{
  FrameProvider, Channel, Transport, update_channel, get_channel, wait_for_frame,
}

module _ {State : Type 0} where
  -- The test of `OnTimer`, and its end.
  abbrev pub is_looping : Channel State → Bool
  is_looping c = c.is_playing && c.is_loop_running

  abbrev pub wait_again : Channel State → Channel State
  wait_again c = if is_looping c then wait_for_frame c else c

  module _ (write : Sent → State → Bool × State) where
    -- `SendRtpPacket` and `SendRtp` on the channel that the packet goes by. The header is filled and
    -- the sequence number goes on even where `Send` fails; the counts do not.
    unfoldable pub send_on :
        Sender → ℕ → RtpPacket → MediaChannelInfo → State → Bool × MediaChannelInfo × State
    send_on sender i p info s =
        let (ok, s') = send write sender i (fill_rtp_header info p) s in
        let sent = next_seq info in
        if ok
        then (
          true,
          record sent {
            packet_count = (info.packet_count + 1) % 2 ^ 64;
            octet_count = (info.octet_count + p.size) % 2 ^ 64;
          },
          s',
        )
        else (false, sent, s')

    -- The channel of an id that is out of range lies outside the array; here nothing is sent on it.
    abbrev pub send_by :
        Option Sender → ℕ → RtpPacket → Channel State → State → Bool × Channel State × State
    send_by none i p c s = (false, c, s)
    send_by (some sender) i p c s =
        let (ok, info, s') = send_on sender i p c.info s in (ok, record c { info = info }, s')

    unfoldable pub transport_send :
        ℕ → RtpPacket → Transport State → State → Bool × Transport State × State
    unfolding send_on
    transport_send i p t s = elim (get_channel i t) [
      | none ↦ (false, t, s)
      | some c ↦
          if t.is_closed
          then (false, t, s)
          else (let (ok, c', s') = send_by t.sender i p c s in
              (ok, update_channel i (λ _. c') t, s'))
    ]

    -- The packet that the provider has ready, if any, is sent.
    abbrev pub send_frame : ℕ → Option RtpPacket × State → Transport State → Transport State × State
    send_frame i (none, s) t = (t, s)
    send_frame i (some p, s) t = let (ok, t', s') = transport_send i p t s in (t', s')

    abbrev pub provide_frame :
        ℕ → Option (FrameProvider State) → Transport State → State → Transport State × State
    provide_frame i none t s = (t, s)
    provide_frame i (some provider) t s = send_frame i (provider s) t

    -- `OnTimer` with its error flag.
    unfoldable pub on_timer : Bool → ℕ → Transport State → State → Transport State × State
    unfolding transport_send
    on_timer ec i t s = elim (get_channel i t) [
      | none ↦ (t, s)
      | some c ↦
          if ec || not (is_looping c)
          then (t, s)
          else (let (t', s') = provide_frame i c.provider t s in
              (update_channel i wait_again t', s'))
    ]
