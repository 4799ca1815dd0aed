-- ===== src/Rtsp/Interleaved.antt =====
-- `RtspSession::ProcessInterleavedData` of src/rtsp/rtspsession.cpp: RTP and RTCP frames and requests
-- on one TCP connection.
pub mod Stream
pub mod Video
pub mod Sending
mod Examples
use camera_player.Prelude.{
  ℕ, zero, suc, ◌+◌, Bool, true, false, ◌||◌, ltb, ◌==◌, if◌then◌else◌, Option, none, some, List,
  [], ◌∷◌, ◌++◌, length, take, drop, Bytes, bit_or, ◌<<<◌,
}

-- What the loop hands on: `HandleRtcpData`, `HandleRtpData` and `HandleRtspRequest`.
pub data Received : Type 0 where
  rtcp_data rtp_data rtsp_request : Bytes → Received

-- The letters that a request may begin with: O, D, S, P and T.
abbrev pub begins_request : ℕ → Bool
begins_request c = c == 0x4F || c == 0x44 || c == 0x53 || c == 0x50 || c == 0x54

-- A frame that is whole goes to the handler of its channel, if it has one.
abbrev pub hand_on : ℕ → ℕ → ℕ → Bytes → List Received
hand_on rtp_channel rtcp_channel channel body =
    if channel == rtcp_channel
    then rtcp_data body ∷ []
    else if channel == rtp_channel
    then rtp_data body ∷ []
    else []

-- The loop, on the bytes that are left and what was handed on: the bytes that stay in the buffer, and
-- what was handed on at the end. It takes fuel: `none` would mean that it ran out.
unfoldable pub interleaved_loop : ℕ → ℕ → ℕ → Bytes → List Received → Option (Bytes × List Received)
interleaved_loop fuel rtp_channel rtcp_channel [] done = some ([], done)
interleaved_loop fuel rtp_channel rtcp_channel (a ∷ []) done = some (a ∷ [], done)
interleaved_loop fuel rtp_channel rtcp_channel (a ∷ b ∷ []) done = some (a ∷ b ∷ [], done)
interleaved_loop fuel rtp_channel rtcp_channel (a ∷ b ∷ c ∷ []) done = some (a ∷ b ∷ c ∷ [], done)
interleaved_loop zero rtp_channel rtcp_channel (a ∷ b ∷ c ∷ d ∷ rest) done = none
interleaved_loop (suc fuel) rtp_channel rtcp_channel (a ∷ b ∷ c ∷ d ∷ rest) done =
    let size = bit_or (c <<< 8) d in
    let later =
      interleaved_loop fuel rtp_channel rtcp_channel (drop size rest)
        (done ++ hand_on rtp_channel rtcp_channel b (take size rest)) in
    if a == 0x24
    then (if ltb (length rest) size then some (a ∷ b ∷ c ∷ d ∷ rest, done) else later)
    else if begins_request a
    then some ([], done ++ rtsp_request (a ∷ b ∷ c ∷ d ∷ rest) ∷ [])
    else some ([], done)

-- `ProcessInterleavedData`. Each frame takes four bytes or more, so the size of the buffer is fuel
-- enough.
unfoldable pub process_interleaved_data : ℕ → ℕ → Bytes → Option (Bytes × List Received)
unfolding interleaved_loop
process_interleaved_data rtp_channel rtcp_channel read_buffer =
    interleaved_loop (length read_buffer) rtp_channel rtcp_channel read_buffer []
