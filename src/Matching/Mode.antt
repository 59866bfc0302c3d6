-- ===== src/Matching/Mode.antt =====
-- ADHOC_MATCHING_MODE_... of pspnet_adhoc_matching/library/globals.h.
use aemu.Base.{ℕ}

abbrev pub parent : ℕ
parent = 1

abbrev pub child : ℕ
child = 2

abbrev pub p2p : ℕ
p2p = 3
