-- ===== src/Packet/Opcode.antt =====
-- The opcodes of packets.h that the server reads.
use aemu.Base.{ℕ}

abbrev pub ping : ℕ
ping = 0

abbrev pub login : ℕ
login = 1

abbrev pub connect : ℕ
connect = 2

abbrev pub disconnect : ℕ
disconnect = 3

abbrev pub scan : ℕ
scan = 4

abbrev pub chat : ℕ
chat = 7
