-- ===== src/Ws/Frame/Encode.antt =====
-- `EncodeServerFrame` against the layout, and read back by `ParseHeader`.
use camera_player.Prelude.{
  ℕ, ◌+◌, ◌*◌, ◌/◌, ◌%◌, ◌^◌, ◌<◌, bit_or, Bool, true, false, if◌then◌else◌, ◌≡◌, refl, arith, [],
  ◌∷◌, ◌++◌, append_assoc, append-nil, length, length-append, drop, drop-append_self, Bytes, ◌>>>◌,
}
use camera_player.Ws.Types.{OpCode, text, op_byte}
use camera_player.Ws.Frame.{Header, parse_header, encode_server_frame, frame_total_size, be_bytes}
use camera_player.Ws.Frame.Fields.{low_byte}
use camera_player.Ws.Frame.Wire.{len_bytes, header_bytes, IsWire, parse_header-header_bytes}

-- The header that a server frame with `n` bytes of payload carries.
abbrev pub server_header : Bool → OpCode → ℕ → Header
server_header fin op n = record {
  fin = fin;
  opcode = op;
  masked = false;
  header_len = 2 + length (len_bytes n);
  payload_len = n;
  mask_key = 0;
}

server_header-IsWire :
    (fin : Bool) (op : OpCode) (n : ℕ) → n < 2 ^ 32 → IsWire (server_header fin op n)
server_header-IsWire fin op n h = record {
  payload_fits = h;
  key_fits = omega arith;
  unmasked_key = λ e. refl;
  header_len_is = rw append-nil (omega arith);
}

first_byte :
    (fin : Bool) (op : OpCode)
    → (if fin then bit_or (op_byte op) 0x80 else op_byte op) ≡ op_byte op + (if fin then 128 else 0)
first_byte true text = refl
first_byte false text = refl
first_byte true _ = refl
first_byte false _ = refl

long_len :
    (n : ℕ)
    → n < 2 ^ 32
    → be_bytes 8 n ≡ 0 ∷ 0 ∷ 0 ∷ 0 ∷ n / 2 ^ 24 ∷ n / 2 ^ 16 % 256 ∷ n / 256 % 256 ∷ n % 256 ∷ []
unfolding be_bytes
long_len n h = ground (
  arith,
  low_byte (n >>> (7 * 8)),
  low_byte (n >>> (6 * 8)),
  low_byte (n >>> (5 * 8)),
  low_byte (n >>> (4 * 8)),
  low_byte (n >>> (3 * 8)),
  low_byte (n >>> (2 * 8)),
  low_byte (n >>> (1 * 8)),
  low_byte (n >>> (0 * 8)),
)

pub encode_server_frame-header_bytes :
    (fin : Bool) (op : OpCode) (payload : Bytes)
    → length payload < 2 ^ 32
    → encode_server_frame fin op payload
      ≡ header_bytes (server_header fin op (length payload)) ++ payload
unfolding encode_server_frame
encode_server_frame-header_bytes fin op payload h = ground (
  arith,
  first_byte fin op,
  long_len (length payload) h,
  low_byte (length payload),
  low_byte (length payload >>> 8),
)

-- A frame that the server encodes, with a payload below 2 ^ 32 bytes, is read back by
-- `ParseHeader`: its flags, its operation and its length, and behind the header stands the
-- payload. `FrameTotalSize` is the size of the frame.
pub parse_header-encode_server_frame :
    (fin : Bool) (op : OpCode) (payload rest : Bytes)
    → length payload < 2 ^ 32
    → let frame = encode_server_frame fin op payload in
      let hdr = server_header fin op (length payload) in
      (parse_header (frame ++ rest) ≡ (hdr.header_len, hdr))
      × (drop hdr.header_len (frame ++ rest) ≡ payload ++ rest)
      × (frame_total_size hdr ≡ length frame)
parse_header-encode_server_frame fin op payload rest h =
    let hdr = server_header fin op (length payload) in
    let wire = server_header-IsWire fin op (length payload) h in
    rw (encode_server_frame-header_bytes fin op payload h, append_assoc)
      (
        parse_header-header_bytes hdr (payload ++ rest) wire,
        rw wire.header_len_is (drop-append_self (header_bytes hdr) (payload ++ rest)),
        ground (arith, length-append (header_bytes hdr) payload, wire.header_len_is),
      )
