-- ===== src/Matching/Opcode.antt =====
-- ADHOC_MATCHING_PACKET_... of pspnet_adhoc_matching/library/globals.h.
use aemu.Base.{ℕ}

abbrev pub ping : ℕ
ping = 0

abbrev pub hello : ℕ
hello = 1

abbrev pub join : ℕ
join = 2

abbrev pub accept : ℕ
accept = 3

abbrev pub cancel : ℕ
cancel = 4

abbrev pub bulk : ℕ
bulk = 5

abbrev pub bulk_abort : ℕ
bulk_abort = 6

abbrev pub birth : ℕ
birth = 7

abbrev pub death : ℕ
death = 8

abbrev pub bye : ℕ
bye = 9
