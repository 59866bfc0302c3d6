-- ===== src/Matching/Packet.antt =====
-- The bytes of the packets of pspnet_adhoc_matching/library/calls/start.c. An int is its bit pattern,
-- below 2 ^ 32, and stands in a packet with its low byte first.
pub mod Parsed
use aemu.Base.{
  ℕ, zero, suc, ◌+◌, ◌*◌, ◌/◌, ◌%◌, ◌^◌, Bool, ◌&&◌, List, [], ◌∷◌, ◌++◌, ltb, leb, length, get_or,
  take, drop, if◌then◌else◌,
}
use aemu.Bytes.{Bytes}
use aemu.Matching.{Mac}
use aemu.Matching.Opcode

-- `memcpy(bytes, &n, 4)` and `memcpy(&n, bytes, 4)`
unfoldable pub write_int : ℕ → Bytes
write_int n = n % 256 ∷ n / 256 % 256 ∷ n / 65536 % 256 ∷ n / 16777216 % 256 ∷ []

unfoldable pub read_int : Bytes → ℕ
read_int bytes =
    get_or bytes 0 0
    + 256 * get_or bytes 1 0
    + 65536 * get_or bytes 2 0
    + 16777216 * get_or bytes 3 0

-- `n >= 0` for an int
abbrev pub is_positive : ℕ → Bool
is_positive n = ltb n (2 ^ 31)

-- The hello, join, cancel and bulk packets: opcode, length of the data, data.
unfoldable pub data_packet : ℕ → Bytes → Bytes
data_packet opcode opt = opcode ∷ (write_int (length opt) ++ opt)

unfoldable pub concat_macs : List Mac → Bytes
concat_macs [] = []
concat_macs (m ∷ ms) = m ++ concat_macs ms

-- The accept packet: opcode, length of the data, number of the siblings, data, siblings.
unfoldable pub accept_packet : Bytes → ℕ → Bytes → Bytes
accept_packet opt count siblings =
    Opcode.accept ∷ (write_int (length opt) ++ (write_int count ++ (opt ++ siblings)))

unfoldable pub optlen : Bytes → ℕ
optlen rxbuf = read_int (drop 1 rxbuf)

unfoldable pub siblingcount : Bytes → ℕ
siblingcount rxbuf = read_int (drop 5 rxbuf)

-- "Complete Packet Header available", "Complete Valid Packet available"
unfoldable pub is_complete : Bytes → ℕ → Bool
is_complete rxbuf len =
    leb 5 len && (is_positive (optlen rxbuf) && leb ((5 + optlen rxbuf) % 2 ^ 32) len)

-- The same for an accept packet; the sum is unsigned.
unfoldable pub is_complete_accept : Bytes → ℕ → Bool
is_complete_accept rxbuf len =
    leb 9 len
    && (is_positive (optlen rxbuf)
        && leb ((9 + optlen rxbuf + 6 * siblingcount rxbuf) % 2 ^ 32) len)

unfoldable pub packet_opt : Bytes → Bytes
packet_opt rxbuf = take (optlen rxbuf) (drop 5 rxbuf)

unfoldable pub accept_opt : Bytes → Bytes
accept_opt rxbuf = take (optlen rxbuf) (drop 9 rxbuf)

-- The loop over the siblings, from the last to the first; for a negative number there is none.
unfoldable pub siblings_down : ℕ → Bytes → List Mac
siblings_down zero bytes = []
siblings_down (suc i) bytes = take 6 (drop (6 * i) bytes) ∷ siblings_down i bytes

unfoldable pub packet_siblings : Bytes → List Mac
packet_siblings rxbuf =
    if is_positive (siblingcount rxbuf)
    then siblings_down (siblingcount rxbuf) (drop (9 + optlen rxbuf) rxbuf)
    else []
