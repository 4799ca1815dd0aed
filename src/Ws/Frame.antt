-- ===== src/Ws/Frame.antt =====
-- include/server/ws/ws_frame.hpp: `ParseHeader`, `ApplyMask` and `EncodeServerFrame`. A buffer is
-- the list of its bytes; `hdr`, an out parameter, is returned beside the length of the header.
mod Fields
pub mod Wire
pub mod Accepted
pub mod Refused
pub mod Encode
pub mod Mask
mod Examples
use camera_player.Prelude.{
  ℕ, zero, suc, ◌+◌, ◌*◌, ◌%◌, ◌^◌, ◌-◌, ◌<<<◌, ◌>>>◌, bit_and, bit_or, bit_xor, Bool, false, not,
  ◌||◌, ◌==◌, ltb, leb, if◌then◌else◌, [], ◌∷◌, ◌++◌, length, get_or, Bytes,
}
use camera_player.Ws.Types.{OpCode, text, op_byte, is_valid_op_code, cast_op_code}

-- `UINT64_MAX`, by which `payload_len` marks a header that is refused.
abbrev pub u64_max : ℕ
u64_max = 2 ^ 64 - 1

pub record Header : Type 0 where
  pub fin : Bool
  pub opcode : OpCode
  pub masked : Bool
  pub header_len : ℕ
  pub payload_len : ℕ
  pub mask_key : ℕ

-- A `Header` before `ParseHeader` has written to it.
abbrev pub empty_header : Header
empty_header = record {
  fin = false;
  opcode = text;
  masked = false;
  header_len = 0;
  payload_len = 0;
  mask_key = 0;
}

-- `FrameTotalSize`, on uint64_t.
abbrev pub frame_total_size : Header → ℕ
frame_total_size hdr = (hdr.header_len + hdr.payload_len) % 2 ^ 64

-- `data[i]`; each read below stands behind a test of the size.
abbrev byte : Bytes → ℕ → ℕ
byte data_ i = get_or data_ i 0

-- `(b & 0x80) != 0`.
abbrev top_bit_set : ℕ → Bool
top_bit_set b = not (bit_and b 0x80 == 0)

-- `(acc << 8) | b` on uint64_t.
abbrev shift_in : ℕ → ℕ → ℕ
shift_in acc b = bit_or ((acc <<< 8) % 2 ^ 64) b

abbrev refused : Header → ℕ × Header
refused hdr = (0, record hdr { payload_len = u64_max })

-- The masking key, if there is one, and the result.
read_mask_key : Bytes → ℕ → Header → ℕ × Header
read_mask_key d off hdr =
    if hdr.masked
    then (
      hdr.header_len,
      record hdr {
        mask_key =
            bit_or
              (bit_or (bit_or (byte d off <<< 24) (byte d (off + 1) <<< 16))
                (byte d (off + 2) <<< 8))
              (byte d (off + 3));
      },
    )
    else (hdr.header_len, hdr)

-- The payload length, by the seven bits of the second byte.
read_payload_len : Bytes → ℕ → ℕ → Header → ℕ × Header
unfolding read_mask_key
read_payload_len d len7 ext hdr =
    if leb len7 125
    then read_mask_key d (2 + ext) (record hdr { payload_len = len7 })
    else if len7 == 126
    then (let n = bit_or (byte d 2 <<< 8) (byte d 3) in
        if ltb n 126
        then refused hdr
        else read_mask_key d (2 + ext) (record hdr { payload_len = n }))
    else if not (byte d 2 == 0) || not (byte d 3 == 0) || not (byte d 4 == 0) || not (byte d 5 == 0)
    then refused hdr
    else (let n =
          shift_in (shift_in (shift_in (shift_in 0 (byte d 6)) (byte d 7)) (byte d 8)) (byte d 9) in
        if ltb n 65536
        then refused hdr
        else read_mask_key d (2 + ext) (record hdr { payload_len = n }))

-- The size of the header, and the test that all of it is there.
pub read_header_len : Bytes → ℕ → Header → ℕ × Header
unfolding read_payload_len
read_header_len d len7 hdr =
    let ext = if len7 == 126 then 2 else if len7 == 127 then 8 else 0 in
    let header_len = 2 + ext + (if hdr.masked then 4 else 0) in
    if ltb (length d) header_len
    then (0, hdr)
    else read_payload_len d len7 ext (record hdr { header_len = header_len })

-- `ParseHeader`.
unfoldable pub parse_header : Bytes → ℕ × Header
unfolding read_header_len
parse_header d =
    if ltb (length d) 2
    then (0, empty_header)
    else if not (bit_and (byte d 0) 0x70 == 0) || not (is_valid_op_code (bit_and (byte d 0) 0x0F))
    then refused (record empty_header { fin = top_bit_set (byte d 0) })
    else read_header_len d (bit_and (byte d 1) 0x7F) (record empty_header {
      fin = top_bit_set (byte d 0);
      opcode = cast_op_code (bit_and (byte d 0) 0x0F);
      masked = top_bit_set (byte d 1);
    })

-- Byte `i % 4` of the key, highest byte first.
abbrev mask_byte : ℕ → ℕ → ℕ
mask_byte key i =
    if i % 4 == 0
    then bit_and (key >>> 24) 0xFF
    else if i % 4 == 1
    then bit_and (key >>> 16) 0xFF
    else if i % 4 == 2
    then bit_and (key >>> 8) 0xFF
    else bit_and key 0xFF

-- The loop of `ApplyMask`, at index `i`.
mask_from : ℕ → ℕ → Bytes → Bytes
mask_from key i [] = []
mask_from key i (b ∷ bs) = bit_xor b (mask_byte key i) ∷ mask_from key (i + 1) bs

-- `ApplyMask`.
unfoldable pub apply_mask : Bytes → ℕ → Bytes
unfolding mask_from
apply_mask payload key = mask_from key 0 payload

-- The `i` lowest bytes of a number, highest first.
pub be_bytes : ℕ → ℕ → Bytes
be_bytes zero n = []
be_bytes (suc i) n = bit_and (n >>> (i * 8)) 0xFF ∷ be_bytes i n

-- `EncodeServerFrame`.
unfoldable pub encode_server_frame : Bool → OpCode → Bytes → Bytes
unfolding be_bytes
encode_server_frame fin opcode payload =
    let len = length payload in
    let b0 = if fin then bit_or (op_byte opcode) 0x80 else op_byte opcode in
    b0
    ∷ ((if leb len 125
          then len ∷ []
          else if leb len 65535
          then 126 ∷ bit_and (len >>> 8) 0xFF ∷ bit_and len 0xFF ∷ []
          else 127 ∷ be_bytes 8 len)
        ++ payload)
