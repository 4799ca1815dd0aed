-- ===== src/Ws/Types.antt =====
-- include/server/ws/ws_types.hpp: operation codes, close codes, messages and the options of a session.
use camera_player.Prelude.{ℕ, ◌*◌, Bool, ◌||◌, ◌==◌, leb, if◌then◌else◌, Bytes}

-- `enum class OpCode`.
pub data OpCode : Type 0 where
  continuation text binary close ping pong : OpCode

-- The number that stands for the operation on the wire.
abbrev pub op_byte : OpCode → ℕ
op_byte continuation = 0x0
op_byte text = 0x1
op_byte binary = 0x2
op_byte close = 0x8
op_byte ping = 0x9
op_byte pong = 0xA

-- `IsControlFrame`.
abbrev pub is_control_frame : OpCode → Bool
is_control_frame op = leb 0x8 (op_byte op)

-- `IsValidOpCode`.
abbrev pub is_valid_op_code : ℕ → Bool
is_valid_op_code code =
    code == 0x0 || code == 0x1 || code == 0x2 || code == 0x8 || code == 0x9 || code == 0xA

-- `static_cast<OpCode>`. The parser casts only codes that `IsValidOpCode` accepts, so the last
-- branch is reached for 0xA alone.
abbrev pub cast_op_code : ℕ → OpCode
cast_op_code code =
    if code == 0x0
    then continuation
    else if code == 0x1
    then text
    else if code == 0x2
    then binary
    else if code == 0x8
    then close
    else if code == 0x9
    then ping
    else pong

-- `struct Message`.
pub record Message : Type 0 where
  pub opcode : OpCode
  pub payload : Bytes

-- `struct SessionOptions`; the two times are in ticks of the steady clock.
pub record SessionOptions : Type 0 where
  pub max_handshake_bytes : ℕ
  pub max_frame_buffer_bytes : ℕ
  pub max_message_bytes : ℕ
  pub heartbeat_interval : ℕ
  pub heartbeat_timeout : ℕ

-- The default member initialisers, with a clock that ticks each second.
abbrev pub default_options : SessionOptions
default_options = record {
  max_handshake_bytes = 16 * 1024;
  max_frame_buffer_bytes = 2 * 1024 * 1024;
  max_message_bytes = 1 * 1024 * 1024;
  heartbeat_interval = 15;
  heartbeat_timeout = 45;
}
