-- ===== src/Ws/CloseCode.antt =====
-- `enum class CloseCode` of include/server/ws/ws_types.hpp: the codes that a session sends or reports
-- of itself. A code that a peer sends is any 16-bit number, so a code is a number.
use camera_player.Prelude.{ℕ}

abbrev pub normal_closure : ℕ
normal_closure = 1000

abbrev pub going_away : ℕ
going_away = 1001

abbrev pub protocol_error : ℕ
protocol_error = 1002

abbrev pub no_status_received : ℕ
no_status_received = 1005

abbrev pub abnormal_closure : ℕ
abnormal_closure = 1006

abbrev pub message_too_big : ℕ
message_too_big = 1009
