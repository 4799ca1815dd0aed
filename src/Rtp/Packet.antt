-- ===== src/Rtp/Packet.antt =====
-- `RtpPacket` of include/ai-camera/rtp/rtp.h and `NALFrame` of include/ai-camera/rtp/media.h.
use camera_player.Prelude.{
  ℕ, ◌+◌, ◌≤◌, ◌≡◌, arith, [], ◌∷◌, ◌++◌, length, length-append, length-take, length-drop,
  drop-drop, take, drop, take-append_self, drop-append_self, append_assoc, Bytes, refl, ap, sym,
  ◌∙◌,
}

abbrev pub rtp_header_size : ℕ
rtp_header_size = 12

abbrev pub max_rtp_payload_size : ℕ
max_rtp_payload_size = 1420

abbrev pub rtp_tcp_head_size : ℕ
rtp_tcp_head_size = 4

-- The size of the array that a packet allocates.
abbrev pub packet_capacity : ℕ
packet_capacity = 1600

-- `struct RtpPacket`; `data` and `type` are called `bytes` and `kind` here.
pub record RtpPacket : Type 0 where
  pub bytes : Bytes
  pub size : ℕ
  pub timestamp : ℕ
  pub kind : ℕ
  pub last : ℕ

-- The constructor: the array is not initialised, so what it holds is an argument.
abbrev pub new_packet : Bytes → RtpPacket
new_packet memory = record { bytes = memory; size = 0; timestamp = 0; kind = 0; last = 0 }

-- `struct NALFrame`. The buffer has a byte more than `size` when it is new.
pub record NalFrame : Type 0 where
  pub buffer : Bytes
  pub size : ℕ
  pub kind : ℕ
  pub timestamp : ℕ

-- `memcpy` of some bytes to an offset of a buffer that has room for them.
abbrev pub write_at : ℕ → Bytes → Bytes → Bytes
write_at offset bytes memory = take offset memory ++ (bytes ++ drop (offset + length bytes) memory)

-- What stands behind the RTP header of a packet, up to its size.
abbrev pub rtp_payload : RtpPacket → Bytes
rtp_payload p = drop 16 (take p.size p.bytes)

pub length-write_at :
    (offset : ℕ) (bytes memory : Bytes)
    → offset + length bytes ≤ length memory
    → length (write_at offset bytes memory) ≡ length memory
length-write_at offset bytes memory h =
    length-append (take offset memory) (bytes ++ drop (offset + length bytes) memory)
    ∙ omega (
      arith,
      length-append bytes (drop (offset + length bytes) memory),
      length-take offset memory,
      length-drop (offset + length bytes) memory,
    )

between :
    (n m : ℕ) (front mid rest : Bytes)
    → n ≡ length front
    → m ≡ length mid
    → drop n (take (n + m) (front ++ (mid ++ rest))) ≡ mid
between n m front mid rest e f =
    let whole : n + m ≡ length (front ++ mid) = omega (arith, length-append front mid) in
    ap (drop n) (
      ap (take (n + m)) (sym (append_assoc front mid rest))
      ∙ ap (λ k. take k ((front ++ mid) ++ rest)) whole
      ∙ take-append_self (front ++ mid) rest)
    ∙ ap (λ k. drop k (front ++ mid)) e
    ∙ drop-append_self front mid

-- Bytes that are written behind the header are the payload, where the size says so.
pub rtp_payload-write_at :
    (body memory : Bytes)
    → 16 + length body ≤ length memory
    → drop 16 (take (16 + length body) (write_at 16 body memory)) ≡ body
rtp_payload-write_at body memory h =
    between 16 (length body) (take 16 memory) body (drop (16 + length body) memory)
      (omega (arith, length-take 16 memory)) refl

pub split_there :
    (n : ℕ) (front a rest : Bytes)
    → n ≡ length (front ++ a)
    → (take n (front ++ (a ++ rest)) ≡ front ++ a) × (drop n (front ++ (a ++ rest)) ≡ rest)
split_there n front a rest e =
    rw (e, sym (append_assoc front a rest))
      (take-append_self (front ++ a) rest, drop-append_self (front ++ a) rest)

-- Two writes, one behind the other, are one.
pub write_at-write_at :
    (offset : ℕ) (a b memory : Bytes)
    → offset + length a ≤ length memory
    → write_at (offset + length a) b (write_at offset a memory) ≡ write_at offset (a ++ b) memory
write_at-write_at offset a b memory h =
    let front = take offset memory in
    let rest = drop (offset + length a) memory in
    let at_end : offset + length a ≡ length (front ++ a) =
      omega (arith, length-append front a, length-take offset memory) in
    let (taken, dropped) = split_there (offset + length a) front a rest at_end in
    let behind : drop (offset + length a + length b) (write_at offset a memory)
        ≡ drop (offset + length (a ++ b)) memory =
      sym (drop-drop (offset + length a) (length b) (write_at offset a memory))
      ∙ ap (drop (length b)) dropped
      ∙ drop-drop (offset + length a) (length b) memory
      ∙ ap (λ k. drop k memory) (omega (arith, length-append a b)) in
    rw (taken, behind, append_assoc front a (b ++ drop (offset + length (a ++ b)) memory))
      (ap (λ l. front ++ l) (sym (append_assoc a b _)))

pub rtp_payload-fragment :
    (fu0 fu1 : ℕ) (body memory : Bytes)
    → 18 + length body ≤ length memory
    → drop 16 (take (18 + length body) (write_at 18 body (write_at 16 (fu0 ∷ fu1 ∷ []) memory)))
      ≡ fu0 ∷ fu1 ∷ body
rtp_payload-fragment fu0 fu1 body memory h =
    ap (λ m. drop 16 (take (18 + length body) m))
      (write_at-write_at 16 (fu0 ∷ fu1 ∷ []) body memory (omega arith))
    ∙ ap (λ k. drop 16 (take k (write_at 16 (fu0 ∷ fu1 ∷ body) memory))) (omega arith)
    ∙ rtp_payload-write_at (fu0 ∷ fu1 ∷ body) memory (omega arith)
