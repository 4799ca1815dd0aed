-- ===== src/Rtp/MediaSession/Generate.antt =====
-- `GenerateSdpMessage` of src/rtp/mediasession.cpp.
use camera_player.Prelude.{ℕ, not, ◌||◌, if◌then◌else◌, Option, none, some, [], ◌∷◌, Bytes, codes}
use camera_player.Prelude.Text.{is_empty_text, print_behind}
use camera_player.Prelude.Numbers.{to_decimal}
use camera_player.Rtp.H264.Description.{H264Source, get_media_description, get_attribute}
use camera_player.Rtp.MediaSession.{MediaSession, has_source, get_multicast_port}

-- A round of the loop of `GenerateSdpMessage` over the sources.
abbrev pub sdp_source : ℕ → Option H264Source → MediaSession → Bytes → Bytes
sdp_source i none m buf = buf
sdp_source i (some s) m buf =
    let described =
      if m.is_multicast_started
      then print_behind 2048
          (print_behind 2048 buf (codes "%s\r\n")
            (get_media_description (get_multicast_port i m) s ∷ []))
          (codes "c=IN IP4 %s/255\r\n") (m.multicast_ip ∷ [])
      else print_behind 2048 buf (codes "%s\r\n") (get_media_description 0 s ∷ []) in
    print_behind 2048 (print_behind 2048 described (codes "%s\r\n") (get_attribute s ∷ []))
      (codes "a=control:track%u\r\n") (to_decimal i ∷ [])

-- The buffer that `GenerateSdpMessage` fills. The first call of `snprintf` has two places to fill and
-- three arguments.
unfoldable pub sdp_buffer : Bytes → Bytes → Bytes → MediaSession → Bytes
sdp_buffer ip session_id session_name m =
    let front =
      print_behind 2048 [] (codes "v=0\r\no=- %s 1 IN IP4 %s\r\nt=0 0\r\n")
        (codes "a=control:*\r\n" ∷ session_id ∷ ip ∷ []) in
    let named =
      if not (is_empty_text session_name)
      then print_behind 2048 front (codes "s=%s\r\n") (session_name ∷ [])
      else front in
    let cast =
      if m.is_multicast_started
      then print_behind 2048 named (codes "a=type:broadcast\r\na=rtcp-unicast: reflection\r\n") []
      else named in
    sdp_source 1 m.source_1 m (sdp_source 0 m.source_0 m cast)

-- `GenerateSdpMessage`.
unfoldable pub generate_sdp_message : Bytes → Bytes → Bytes → MediaSession → Bytes × MediaSession
unfolding sdp_buffer
generate_sdp_message ip session_id session_name m =
    if not (is_empty_text m.sdp)
    then (m.sdp, m)
    else if not (has_source 0 m || has_source 1 m)
    then ([], m)
    else (let buf = sdp_buffer ip session_id session_name m in (buf, record m { sdp = buf }))
