-- ===== src/Matching/Notice.antt =====
-- ADHOC_MATCHING_EVENT_... of pspnet_adhoc_matching/library/globals.h, those that the library spawns.
use aemu.Base.{ℕ}

abbrev pub hello : ℕ
hello = 1

abbrev pub request : ℕ
request = 2

abbrev pub leave : ℕ
leave = 3

abbrev pub deny : ℕ
deny = 4

abbrev pub cancel : ℕ
cancel = 5

abbrev pub accept : ℕ
accept = 6

abbrev pub established : ℕ
established = 7

abbrev pub timeout : ℕ
timeout = 8

abbrev pub bye : ℕ
bye = 10

abbrev pub data_event : ℕ
data_event = 11

abbrev pub data_ack : ℕ
data_ack = 12
