-- ===== src/Rtp/H264/Receiver.antt =====
-- A receiver as RFC 6184, sections 5.6 and 5.8, describes it, on the packets of `HandleFrame`.
use camera_player.Prelude.{
  ℕ, zero, suc, ◌+◌, ◌-◌, ◌*◌, ◌≤◌, ◌<◌, bit_and, bit_or, Bool, true, false, not, ◌&&◌, ◌||◌, ltb,
  leb, ◌==◌, every_under, every_under_lem, if◌then◌else◌, Bool-cases, inl, inr, Option, none, some,
  ◌≡◌, refl, sym, ap, ◌∙◌, arith, List, [], ◌∷◌, ◌++◌, append_assoc, map, take, drop, length,
  length-take, length-drop, get_or, Bytes, IsByte,
}
use camera_player.Rtp.Packet.{
  RtpPacket, NalFrame, write_at, rtp_payload, packet_capacity, rtp_payload-write_at,
  rtp_payload-fragment,
}
use camera_player.Rtp.H264.{fu_indicator, fu_header, fragment_packet, last_packet, single_packet}
use camera_player.Rtp.H264.Fragments.{fragments, full_fragments, stamp, packets}

-- The parts of a fragment's two bytes.
abbrev pub is_fragment : ℕ → Bool
is_fragment indicator = bit_and indicator 0x1F == 28

abbrev pub starts : ℕ → Bool
starts header = not (bit_and header 0x80 == 0)

abbrev pub ends : ℕ → Bool
ends header = not (bit_and header 0x40 == 0)

-- The bytes that were collected, and the payloads to come.
pub collect : Bytes → List Bytes → Option Bytes
collect got ((indicator ∷ header ∷ body) ∷ []) =
    if is_fragment indicator && ends header then some (got ++ body) else none
collect got ((indicator ∷ header ∷ body) ∷ more ∷ rest) =
    let later = collect (got ++ body) (more ∷ rest) in
    if is_fragment indicator && not (ends header) then later else none
collect got _ = none

-- The NAL unit that the payloads of its packets carry.
pub receive : List Bytes → Option Bytes
unfolding collect
receive ((indicator ∷ header ∷ body) ∷ rest) =
    if not (is_fragment indicator)
    then (elim rest [ [] ↦ some (indicator ∷ header ∷ body) | _ ∷ _ ↦ none ])
    else if starts header
    then collect (bit_or (bit_and indicator 0xE0) (bit_and header 0x1F) ∷ [])
        ((indicator ∷ header ∷ body) ∷ rest)
    else none
receive (unit ∷ []) = some unit
receive _ = none

header_bits : ℕ → Bool
header_bits b =
    is_fragment (fu_indicator b)
    && starts (fu_header b)
    && not (ends (fu_header b))
    && (bit_or (bit_and (fu_indicator b) 0xE0) (bit_and (fu_header b) 0x1F) == b)
    && ltb (fu_header b) 256

header_table : every_under header_bits 256 ≡ true
unfolding header_bits every_under
header_table = refl

later_bits : ℕ → Bool
later_bits f =
    ends f || (not (ends (bit_and f 0x7F)) && ends (bit_or f 0x40) && ltb (bit_and f 0x7F) 256)

later_table : every_under later_bits 256 ≡ true
unfolding later_bits every_under
later_table = refl

later_header :
    (f : ℕ)
    → IsByte f
    → ends f ≡ false
    → (ends (bit_and f 0x7F) ≡ false) × (ends (bit_or f 0x40) ≡ true) × IsByte (bit_and f 0x7F)
unfolding later_bits
later_header f h e = ground (arith, every_under_lem later_bits 256 f later_table h)

-- A packet whose body is written behind the fragment's two bytes.
payload_of :
    (p : RtpPacket) (k fu0 fu1 : ℕ) (body memory : Bytes)
    → p.size ≡ 18 + k
    → p.bytes ≡ write_at 18 body (write_at 16 (fu0 ∷ fu1 ∷ []) memory)
    → length body ≡ k
    → 18 + k ≤ length memory
    → rtp_payload p ≡ fu0 ∷ fu1 ∷ body
payload_of p k fu0 fu1 body memory es eb n fits =
    ap (λ m. drop 16 (take p.size m)) eb
    ∙ ap (λ s. drop 16 (take s (write_at 18 body (write_at 16 (fu0 ∷ fu1 ∷ []) memory))))
        (omega arith)
    ∙ rtp_payload-fragment fu0 fu1 body memory (omega arith)

fragment_payload :
    (memory : Bytes) (kind timestamp fu0 fu1 : ℕ) (frame_buf : Bytes)
    → length memory ≡ packet_capacity
    → 1418 ≤ length frame_buf
    → rtp_payload (fragment_packet memory kind timestamp fu0 fu1 frame_buf)
      ≡ fu0 ∷ fu1 ∷ take 1418 frame_buf
fragment_payload memory kind timestamp fu0 fu1 buf hm hb =
    let n : length (take 1418 buf) ≡ 1418 = omega (arith, length-take 1418 buf) in
    payload_of (fragment_packet memory kind timestamp fu0 fu1 buf) 1418 fu0 fu1 (take 1418 buf)
      memory refl refl n (omega arith)

last_payload :
    (memory : Bytes) (kind timestamp fu0 fu1 : ℕ) (frame_buf : Bytes) (frame_size : ℕ)
    → length memory ≡ packet_capacity
    → frame_size ≤ length frame_buf
    → frame_size ≤ 1418
    → rtp_payload (last_packet memory kind timestamp fu0 fu1 frame_buf frame_size)
      ≡ fu0 ∷ bit_or fu1 0x40 ∷ take frame_size frame_buf
last_payload memory kind timestamp fu0 fu1 buf size hm hb hs =
    let n : length (take size buf) ≡ size = omega (arith, length-take size buf) in
    payload_of (last_packet memory kind timestamp fu0 fu1 buf size) size fu0 (bit_or fu1 0x40)
      (take size buf) memory refl refl n (omega arith)

take_nil : (n : ℕ) → ◌≡◌ {A = Bytes} (take n []) []
take_nil zero = refl
take_nil (suc n) = refl

take_in_two :
    (n size : ℕ) (bytes : Bytes)
    → n ≤ size
    → take n bytes ++ take (size - n) (drop n bytes) ≡ take size bytes
take_in_two zero size bytes h = ap (λ k. take k bytes) (omega arith)
take_in_two (suc n) zero bytes h = absurd (omega arith)
take_in_two (suc n) (suc size) [] h = take_nil (suc size - suc n)
take_in_two (suc n) (suc size) (b ∷ bs) h =
    let e : suc size - suc n ≡ size - n = omega arith in
    ap (◌∷◌ b) (ap (λ k. take n bs ++ take k (drop n bs)) e ∙ take_in_two n size bs (omega arith))

collect_step :
    (got : Bytes) (n : ℕ) (memory : ℕ → Bytes) (kind timestamp i fu0 fu1 : ℕ) (buf : Bytes)
    (size : ℕ) (indicator header : ℕ) (body : Bytes)
    → is_fragment indicator ≡ true
    → ends header ≡ false
    → collect got (
        (indicator ∷ header ∷ body)
        ∷ map rtp_payload (fragments n memory kind timestamp i fu0 fu1 buf size))
      ≡ collect
          (got ++ body)
          (map rtp_payload (fragments n memory kind timestamp i fu0 fu1 buf size))
unfolding collect
collect_step got zero memory kind timestamp i fu0 fu1 buf size indicator header body f e =
    rw (f, e) refl
collect_step got (suc n) memory kind timestamp i fu0 fu1 buf size indicator header body f e =
    rw (f, e) refl

collect-fragments :
    (got : Bytes) (n : ℕ) (memory : ℕ → Bytes) (kind timestamp i fu0 fu1 : ℕ) (buf : Bytes)
    (size : ℕ)
    → ((j : ℕ) → length (memory j) ≡ packet_capacity)
    → is_fragment fu0 ≡ true
    → ends fu1 ≡ false
    → IsByte fu1
    → size ≤ length buf
    → 1418 * n < size
    → size ≤ 1418 * n + 1418
    → collect got (map rtp_payload (fragments n memory kind timestamp i fu0 fu1 buf size))
      ≡ some (got ++ take size buf)
unfolding collect
collect-fragments got zero memory kind timestamp i fu0 fu1 buf size hm f e b l lo hi =
    let last = last_payload (memory i) kind timestamp fu0 fu1 buf size (hm i) l (omega arith) in
    ap (λ p. collect got (p ∷ [])) last ∙ rw (f, (later_header fu1 b e).1) refl
collect-fragments got (suc n) memory kind timestamp i fu0 fu1 buf size hm f e b l lo hi =
    let (more, end, byte) = later_header fu1 b e in
    ap
      (λ p. collect got (
        p
        ∷ map rtp_payload (
            fragments n memory kind timestamp (i + 1) fu0 (bit_and fu1 0x7F) (drop 1418 buf)
              (size - 1418))))
      (fragment_payload (memory i) kind timestamp fu0 fu1 buf (hm i) (omega arith))
    ∙ collect_step got n memory kind timestamp (i + 1) fu0 (bit_and fu1 0x7F) (drop 1418 buf)
        (size - 1418) fu0 fu1 (take 1418 buf) f e
    ∙ collect-fragments (got ++ take 1418 buf) n memory kind timestamp (i + 1) fu0
        (bit_and fu1 0x7F) (drop 1418 buf) (size - 1418) hm f more byte
        (omega (arith, length-drop 1418 buf)) (omega arith) (omega arith)
    ∙ ap some (
        append_assoc got (take 1418 buf) (take (size - 1418) (drop 1418 buf))
        ∙ ap (λ l. got ++ l) (take_in_two 1418 size buf (omega arith)))

single_payload :
    (memory : Bytes) (frame : NalFrame) (timestamp : ℕ)
    → length memory ≡ packet_capacity
    → frame.size ≤ length frame.buffer
    → frame.size ≤ 1420
    → rtp_payload (single_packet memory frame timestamp) ≡ take frame.size frame.buffer
single_payload memory frame timestamp hm hb hs =
    let body = take frame.size frame.buffer in
    let n : length body ≡ frame.size = omega (arith, length-take frame.size frame.buffer) in
    ap (λ k. drop 16 (take k (write_at 16 body memory))) (omega arith)
    ∙ rtp_payload-write_at body memory (omega arith)

receive_single :
    (unit : Bytes) → is_fragment (get_or unit 0 0) ≡ false → receive (unit ∷ []) ≡ some unit
unfolding receive
receive_single [] f = refl
receive_single (b ∷ []) f = refl
receive_single (b ∷ c ∷ bs) f = rw f refl

receive_first :
    (indicator header : ℕ) (body : Bytes) (rest : List Bytes)
    → is_fragment indicator ≡ true
    → starts header ≡ true
    → receive ((indicator ∷ header ∷ body) ∷ rest)
      ≡ collect
          (bit_or (bit_and indicator 0xE0) (bit_and header 0x1F) ∷ [])
          ((indicator ∷ header ∷ body) ∷ rest)
unfolding receive
receive_first indicator header body rest f s = rw (f, s) refl

first_header :
    (b : ℕ)
    → IsByte b
    → (is_fragment (fu_indicator b) ≡ true)
      × (starts (fu_header b) ≡ true)
      × (ends (fu_header b) ≡ false)
      × (bit_or (bit_and (fu_indicator b) 0xE0) (bit_and (fu_header b) 0x1F) ≡ b)
      × IsByte (fu_header b)
unfolding header_bits
first_header b h = ground (arith, every_under_lem header_bits 256 b header_table h)

receive-fragments :
    (b : ℕ) (rest : Bytes) (n : ℕ) (memory : ℕ → Bytes) (kind timestamp size : ℕ)
    → ((j : ℕ) → length (memory j) ≡ packet_capacity)
    → IsByte b
    → size ≤ length rest
    → 1418 * suc n < size
    → size ≤ 1418 * suc n + 1418
    → receive (
        map rtp_payload
          (fragments (suc n) memory kind timestamp 0 (fu_indicator b) (fu_header b) rest size))
      ≡ some (b ∷ take size rest)
receive-fragments b rest n memory kind timestamp size hm hb l lo hi =
    let (f, s, e, back, byte) = first_header b hb in
    let first =
      fragment_payload (memory 0) kind timestamp (fu_indicator b) (fu_header b) rest (hm 0)
        (omega arith) in
    let others = map rtp_payload (
      fragments n memory kind timestamp 1 (fu_indicator b) (bit_and (fu_header b) 0x7F)
        (drop 1418 rest) (size - 1418)) in
    ap (λ p. receive (p ∷ others)) first
    ∙ receive_first (fu_indicator b) (fu_header b) (take 1418 rest) others f s
    ∙ ap
        (λ p.
          collect (bit_or (bit_and (fu_indicator b) 0xE0) (bit_and (fu_header b) 0x1F) ∷ [])
            (p ∷ others))
        (sym first)
    ∙ collect-fragments (bit_or (bit_and (fu_indicator b) 0xE0) (bit_and (fu_header b) 0x1F) ∷ [])
        (suc n) memory kind timestamp 0 (fu_indicator b) (fu_header b) rest size hm f e byte l lo hi
    ∙ ap (λ c. some (c ∷ take size rest)) back

first_of_take :
    (size : ℕ) (buffer : Bytes) → 0 < size → get_or (take size buffer) 0 0 ≡ get_or buffer 0 0
first_of_take zero buffer h = absurd (omega arith)
first_of_take (suc size) [] h = refl
first_of_take (suc size) (b ∷ bs) h = refl

first_and_rest :
    (size : ℕ) (buffer : Bytes)
    → 0 < size
    → size ≤ length buffer
    → get_or buffer 0 0 ∷ take (size - 1) (drop 1 buffer) ≡ take size buffer
first_and_rest zero buffer h l = absurd (omega arith)
first_and_rest (suc size) [] h l = absurd (omega arith)
first_and_rest (suc size) (b ∷ bs) h l =
    let e : suc size - 1 ≡ size = omega arith in ap (λ k. b ∷ take k bs) e

-- From the packets of a frame, written to arrays of 1600 bytes, a receiver gets the NAL unit back,
-- one packet or fragments, if the unit has a first byte, lies within its buffer, and is not itself
-- of the type that stands for a fragment.
pub receive-packets :
    (memory : ℕ → Bytes) (now : ℕ) (frame : NalFrame)
    → ((j : ℕ) → length (memory j) ≡ packet_capacity)
    → 0 < frame.size
    → frame.size ≤ length frame.buffer
    → IsByte (get_or frame.buffer 0 0)
    → is_fragment (get_or frame.buffer 0 0) ≡ false
    → receive (map rtp_payload (packets memory now frame)) ≡ some (take frame.size frame.buffer)
receive-packets memory now frame hm hp hl hb f = elim (Bool-cases (leb frame.size 1420)) [
  | inl e ↦ rw e (
      ap (λ p. receive (p ∷ []))
        (single_payload (memory 0) frame (stamp now frame) (hm 0) hl (ground arith))
      ∙ receive_single (take frame.size frame.buffer)
          (ap is_fragment (first_of_take frame.size frame.buffer hp) ∙ f))
  | inr e ↦
      let n = full_fragments (frame.size - 1) - 1 in
      let large : 1420 < frame.size = ground arith in
      let count : full_fragments (frame.size - 1) ≡ suc n = omega arith in
      let b = get_or frame.buffer 0 0 in
      rw e (
        ap
          (λ k. receive (
            map rtp_payload (
              fragments k memory frame.kind (stamp now frame) 0 (fu_indicator b) (fu_header b)
                (drop 1 frame.buffer) (frame.size - 1))))
          count
        ∙ receive-fragments b (drop 1 frame.buffer) n memory frame.kind (stamp now frame)
            (frame.size - 1) hm hb (omega (arith, length-drop 1 frame.buffer)) (omega arith)
            (omega arith)
        ∙ ap some (first_and_rest frame.size frame.buffer hp hl))
]
