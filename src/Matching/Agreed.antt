-- ===== src/Matching/Agreed.antt =====
-- A parent and its new child: _sendAcceptPacket on one console and _actOnAcceptPacket on the other, of
-- pspnet_adhoc_matching/library/calls/start.c.
pub mod Listed
pub mod Answer
use aemu.Base.{
  ℕ, zero, suc, ◌+◌, ◌*◌, ◌^◌, ◌≡◌, ◌≢◌, ◌≤◌, ◌<◌, refl, sym, ap, subst, ◌∙◌, Bool, true, false,
  not, ◌&&◌, ◌||◌, Option, none, some, List, [], ◌∷◌, ◌++◌, ◌==◌, if◌then◌else◌, length, count,
  drop, get_or, arith, Bool-cases, inl, inr,
}
use mathlib.Core.List.{reverse, reverse-cons, reverse-reverse, append-nil, append_assoc}
use aemu.Bytes.{Bytes}
use aemu.Chain.{Ptr, null}
use aemu.Matching.{Mac, Member, Room, peers, address, allocated, is_mac_match}
use aemu.Matching.Members.{
  find_member, find_peer, find_parent, find_outgoing_request, is_none, is_same, erase_node,
  change_node, set_state, add_peer, delete_peer, send_generic_message, spawn_local_event,
  link_message, Stack, count_children,
}
use aemu.Matching.Packet.{is_complete_accept, accept_opt, packet_siblings}
use aemu.Matching.Packet.Parsed.{AllMac}
use aemu.Matching.Receive.{is_interested, block_hello}
use aemu.Matching.Receive.Accept.{
  is_unneeded, clean_loop, add_sibling, add_siblings, add_self, accepted, accept_from,
  act_on_accept_packet,
}
use aemu.Matching.Send.{sibling_macs, accept_bytes}
use aemu.Matching.Siblings.{children_at, accept_bytes-parsed}
use aemu.Matching.Roster.Lists.{count-erase_node, change-Grows}
use aemu.Matching.Mode
use aemu.Matching.Peer
use aemu.Matching.Notice

-- The MACs of the children, in the list's order.
unfoldable pub child_macs : List Member → List Mac
child_macs [] = []
child_macs (p ∷ ps) =
    let rest = child_macs ps in if p.state == Peer.child then p.mac ∷ rest else rest

-- The next k calls of malloc succeed.
abbrev pub Live : ℕ → List Ptr → Type 0
Live zero m = Unit
Live (suc k) m = (get_or m 0 null ≢ null) × Live k (drop 1 m)

-- No peer of the list has one of the MACs, nor have two of the MACs the same last five bytes.
abbrev pub Fresh : List Mac → List Member → Type 0
Fresh [] ps = Unit
Fresh (m ∷ ms) ps =
    (count (λ p. is_mac_match p.mac m) ps ≡ 0)
    × (count (λ n. is_mac_match m n) ms ≡ 0)
    × Fresh ms ps
