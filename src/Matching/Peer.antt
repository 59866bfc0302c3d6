-- ===== src/Matching/Peer.antt =====
-- ADHOC_MATCHING_PEER_... of pspnet_adhoc_matching/library/globals.h; 0 is the console itself.
use aemu.Base.{ℕ}

abbrev pub self : ℕ
self = 0

abbrev pub offer : ℕ
offer = 1

abbrev pub parent : ℕ
parent = 2

abbrev pub child : ℕ
child = 3

abbrev pub p2p : ℕ
p2p = 4

abbrev pub incoming_request : ℕ
incoming_request = 5

abbrev pub outgoing_request : ℕ
outgoing_request = 6

abbrev pub cancel_in_progress : ℕ
cancel_in_progress = 7
