-- ===== src/Rtp/MediaSession/Sdp.antt =====
-- The text that `GenerateSdpMessage` makes.
use camera_player.Prelude.{
  ℕ, zero, suc, ◌-◌, Bool, true, false, not, ◌||◌, if◌then◌else◌, Option, none, some, ◌≡◌, refl,
  sym, ap, ◌∙◌, arith, List, [], ◌∷◌, ◌++◌, append-nil, append_assoc, length, take, Bytes, codes,
}
use camera_player.Prelude.Text.{is_empty_text, c_string, print_format, print_behind}
use camera_player.Prelude.Numbers.{to_decimal}
use camera_player.Rtp.H264.Description.{H264Source, get_media_description, get_attribute}
use camera_player.Rtp.MediaSession.{MediaSession, has_source, get_multicast_port}
use camera_player.Rtp.MediaSession.Generate.{sdp_source, sdp_buffer, generate_sdp_message}

take-append : (n : ℕ) (x y : Bytes) → take n x ++ take (n - length (take n x)) y ≡ take n (x ++ y)
take-append zero x y = refl
take-append (suc n) [] y = let e : suc n - 0 ≡ suc n = omega arith in ap (λ k. take k y) e
take-append (suc n) (b ∷ x) y =
    let e : suc n - suc (length (take n x)) ≡ n - length (take n x) = omega arith in
    ap (λ k. b ∷ take n x ++ take k y) e ∙ ap (◌∷◌ b) (take-append n x y)

-- A text that is printed behind one that was cut off.
print_behind-take :
    (n : ℕ) (x format : Bytes) (args : List Bytes)
    → print_behind (suc n) (take n x) format args ≡ take n (x ++ print_format format args)
print_behind-take n x format args =
    let room : suc n - length (take n x) - 1 ≡ n - length (take n x) = omega arith in
    ap (λ k. take n x ++ take k (print_format format args)) room
    ∙ take-append n x (print_format format args)

-- The lines of a source: its media line, by multicast the address, its attributes and its track.
abbrev pub line : Bytes → Bytes
line text = c_string text ++ codes "\r\n"

abbrev pub address_line : Bytes → Bytes
address_line ip = codes "c=IN IP4 " ++ (c_string ip ++ codes "/255\r\n")

abbrev pub track_line : ℕ → Bytes
track_line i = codes "a=control:track" ++ (c_string (to_decimal i) ++ codes "\r\n")

abbrev pub source_lines : ℕ → Option H264Source → MediaSession → Bytes
source_lines i none m = []
source_lines i (some s) m =
    (if m.is_multicast_started
      then line (get_media_description (get_multicast_port i m) s) ++ address_line m.multicast_ip
      else line (get_media_description 0 s))
    ++ (line (get_attribute s) ++ track_line i)

-- The text without a limit of its length.
abbrev pub sdp_text : Bytes → Bytes → MediaSession → Bytes
sdp_text session_id session_name m =
    (codes "v=0\r\no=- a=control:*\r\n 1 IN IP4 " ++ (c_string session_id ++ codes "\r\nt=0 0\r\n"))
    ++ ((if not (is_empty_text session_name) then codes "s=" ++ line session_name else [])
        ++ ((if m.is_multicast_started
              then codes "a=type:broadcast\r\na=rtcp-unicast: reflection\r\n"
              else [])
            ++ (source_lines 0 m.source_0 m ++ source_lines 1 m.source_1 m)))

-- A text that is printed behind another one, or not.
print_if :
    (n : ℕ) (b : Bool) (x format : Bytes) (args : List Bytes)
    → (if b then print_behind (suc n) (take n x) format args else take n x)
      ≡ take n (x ++ (if b then print_format format args else []))
print_if n true x format args = print_behind-take n x format args
print_if n false x format args = ap (take n) (sym (append-nil x))

two_more :
    (n : ℕ) (x format more : Bytes) (args extra : List Bytes)
    → print_behind (suc n) (print_behind (suc n) (take n x) format args) more extra
      ≡ take n (x ++ (print_format format args ++ print_format more extra))
two_more n x format more args extra =
    ap (λ b. print_behind (suc n) b more extra) (print_behind-take n x format args)
    ∙ print_behind-take n (x ++ print_format format args) more extra
    ∙ ap (take n) (append_assoc x (print_format format args) (print_format more extra))

described-take :
    (i : ℕ) (b : Bool) (port_0 port attribute ip x : Bytes)
    → print_behind 2048
        (print_behind 2048
          (if b
            then print_behind 2048
                (print_behind 2048 (take 2047 x) (codes "%s\r\n") (port ∷ []))
                (codes "c=IN IP4 %s/255\r\n")
                (ip ∷ [])
            else print_behind 2048 (take 2047 x) (codes "%s\r\n") (port_0 ∷ []))
          (codes "%s\r\n")
          (attribute ∷ []))
        (codes "a=control:track%u\r\n")
        (to_decimal i ∷ [])
      ≡ take 2047 (
          x
          ++ ((if b then line port ++ address_line ip else line port_0)
              ++ (line attribute ++ track_line i)))
unfolding print_format
described-take i true port_0 port attribute ip x =
    let end : Bytes → Bytes = λ buf.
      print_behind 2048 (print_behind 2048 buf (codes "%s\r\n") (attribute ∷ []))
        (codes "a=control:track%u\r\n") (to_decimal i ∷ []) in
    let first = line port ++ address_line ip in
    ap end (two_more 2047 x (codes "%s\r\n") (codes "c=IN IP4 %s/255\r\n") (port ∷ []) (ip ∷ []))
    ∙ two_more 2047 (x ++ first) (codes "%s\r\n") (codes "a=control:track%u\r\n") (attribute ∷ [])
        (to_decimal i ∷ [])
    ∙ ap (take 2047) (append_assoc x first (line attribute ++ track_line i))
described-take i false port_0 port attribute ip x =
    let end : Bytes → Bytes = λ buf.
      print_behind 2048 (print_behind 2048 buf (codes "%s\r\n") (attribute ∷ []))
        (codes "a=control:track%u\r\n") (to_decimal i ∷ []) in
    ap end (print_behind-take 2047 x (codes "%s\r\n") (port_0 ∷ []))
    ∙ two_more 2047 (x ++ line port_0) (codes "%s\r\n") (codes "a=control:track%u\r\n")
        (attribute ∷ []) (to_decimal i ∷ [])
    ∙ ap (take 2047) (append_assoc x (line port_0) (line attribute ++ track_line i))

sdp_source-take :
    (i : ℕ) (s : Option H264Source) (m : MediaSession) (x : Bytes)
    → sdp_source i s m (take 2047 x) ≡ take 2047 (x ++ source_lines i s m)
sdp_source-take i none m x = ap (take 2047) (sym (append-nil x))
sdp_source-take i (some s) m x =
    described-take i m.is_multicast_started (get_media_description 0 s)
      (get_media_description (get_multicast_port i m) s) (get_attribute s) m.multicast_ip x

sdp_buffer-take :
    (ip session_id session_name : Bytes) (m : MediaSession)
    → sdp_buffer ip session_id session_name m ≡ take 2047 (sdp_text session_id session_name m)
unfolding sdp_buffer print_format
sdp_buffer-take ip session_id session_name m =
    let front : Bytes =
      codes "v=0\r\no=- a=control:*\r\n 1 IN IP4 "
      ++ (c_string session_id ++ codes "\r\nt=0 0\r\n") in
    let named = not (is_empty_text session_name) in
    let name : Bytes = if named then codes "s=" ++ line session_name else [] in
    let broadcast : Bytes = codes "a=type:broadcast\r\na=rtcp-unicast: reflection\r\n" in
    let cast : Bytes = if m.is_multicast_started then broadcast else [] in
    let zero_lines = source_lines 0 m.source_0 m in
    let one_lines = source_lines 1 m.source_1 m in
    let sources : Bytes → Bytes =
      λ buf. sdp_source 1 m.source_1 m (sdp_source 0 m.source_0 m buf) in
    let announced : Bytes → Bytes =
      λ buf. if m.is_multicast_started then print_behind 2048 buf broadcast [] else buf in
    ap (λ buf. sources (announced buf))
      (print_if 2047 named front (codes "s=%s\r\n") (session_name ∷ []))
    ∙ ap sources (print_if 2047 m.is_multicast_started (front ++ name) broadcast [])
    ∙ ap (sdp_source 1 m.source_1 m) (sdp_source-take 0 m.source_0 m ((front ++ name) ++ cast))
    ∙ sdp_source-take 1 m.source_1 m (((front ++ name) ++ cast) ++ zero_lines)
    ∙ ap (take 2047) (
        append_assoc ((front ++ name) ++ cast) zero_lines one_lines
        ∙ append_assoc (front ++ name) cast (zero_lines ++ one_lines)
        ∙ append_assoc front name (cast ++ (zero_lines ++ one_lines)))

generated-lem :
    (ip session_id session_name : Bytes) (m : MediaSession)
    → m.sdp ≡ []
    → (has_source 0 m || has_source 1 m) ≡ true
    → let text = take 2047 (sdp_text session_id session_name m) in
      generate_sdp_message ip session_id session_name m ≡ (text, record m { sdp = text })
unfolding generate_sdp_message
generated-lem ip session_id session_name m e s =
    let none_yet : not (is_empty_text m.sdp) ≡ false = rw e refl in
    let some_source : not (has_source 0 m || has_source 1 m) ≡ false = rw s refl in
    rw (none_yet, some_source, generate_sdp_message)
      (ap (λ (buf : Bytes). (buf, record m { sdp = buf }))
        (sdp_buffer-take ip session_id session_name m))

generated_again :
    (ip session_id session_name : Bytes) (m : MediaSession) (first_id first_name : Bytes)
    → let text = take 2047 (sdp_text first_id first_name m) in
      generate_sdp_message ip session_id session_name (record m { sdp = text })
      ≡ (text, record m { sdp = text })
unfolding generate_sdp_message
generated_again ip session_id session_name m first_id first_name = refl

-- Where no text was generated before and there is a source, `GenerateSdpMessage` gives the text, up
-- to 2047 bytes of it, and keeps it: any later call, with any address, id and name, gives that
-- again and changes nothing. The text does not depend on the server's address, and has the
-- session's id in its place.
pub generate_sdp_message-sdp_text :
    (ip later_ip session_id later_id session_name later_name : Bytes) (m : MediaSession)
    → m.sdp ≡ []
    → (has_source 0 m || has_source 1 m) ≡ true
    → let text = take 2047 (sdp_text session_id session_name m) in
      let (generated, after) = generate_sdp_message ip session_id session_name m in
      (generated ≡ text)
      × (after ≡ record m { sdp = text })
      × (generate_sdp_message later_ip later_id later_name after ≡ (text, after))
generate_sdp_message-sdp_text ip later_ip session_id later_id session_name later_name m e s =
    let made = generated-lem ip session_id session_name m e s in
    let text = take 2047 (sdp_text session_id session_name m) in
    (
      ap (λ (r : Bytes × MediaSession). r.0) made,
      ap (λ (r : Bytes × MediaSession). r.1) made,
      ap (λ (r : Bytes × MediaSession). generate_sdp_message later_ip later_id later_name r.1) made
          ∙ generated_again later_ip later_id later_name m session_id session_name
          ∙ ap (λ (r : Bytes × MediaSession). (text, r.1)) (sym made),
    )
