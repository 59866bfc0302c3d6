-- ===== src/Matching/Siblings.antt =====
-- The siblings that a parent announces to a new child: _sendAcceptPacket and _actOnAcceptPacket of
-- pspnet_adhoc_matching/library/calls/start.c.
use aemu.Base.{
  ℕ, suc, ◌+◌, ◌*◌, ◌^◌, ◌≡◌, ◌<◌, refl, true, ◌&&◌, List, [], ◌∷◌, ◌==◌, ltb, length, count,
  if◌then◌else◌, arith,
}
use mathlib.Core.List.{reverse}
use aemu.Bytes.{Bytes}
use aemu.Chain.{Ptr}
use aemu.Matching.{Mac, Member, Room, peers}
use aemu.Matching.Members.{count_children, count_connected_peers}
use aemu.Matching.Packet.{
  accept_packet, concat_macs, is_complete_accept, accept_opt, packet_siblings,
}
use aemu.Matching.Packet.Parsed.{AllMac, length-accept_packet, accept_packet-parsed}
use aemu.Matching.Send.{sibling_macs, siblings_announced, accept_bytes}
use aemu.Matching.Mode
use aemu.Matching.Peer

-- The children at an address.
abbrev pub children_at : Ptr → List Member → ℕ
children_at n = count (λ p. (p.node == n) && (p.state == Peer.child))

length-sibling_macs :
    (n : Ptr) (ps : List Member) → length (sibling_macs n ps) + children_at n ps ≡ count_children ps
unfolding sibling_macs count_children
length-sibling_macs n [] = refl
length-sibling_macs n (p ∷ ps) = ground (arith, length-sibling_macs n ps)

-- With no sibling there is nothing to copy.
copied_macs :
    (opt : Bytes) (ms : List Mac)
    → accept_packet opt (length ms) (if ltb 0 (length ms) then concat_macs ms else [])
      ≡ accept_packet opt (length ms) (concat_macs ms)
unfolding concat_macs
copied_macs opt [] = refl
copied_macs opt (m ∷ ms) = let e : ltb 0 (suc (length ms)) ≡ true = ground arith in rw e refl

module _ (peer : Member) (opt : Bytes) (s : Room) (mode : s.context.mode ≡ Mode.parent)
    (one : children_at peer.node (peers s) ≡ 1)
    (small : 9 + length opt + 6 * count_children (peers s) < 2 ^ 31) where
  abbrev macs : List Mac
  macs = sibling_macs peer.node (peers s)

  announced : siblings_announced s.context ≡ length macs
  unfolding siblings_announced count_connected_peers
  announced =
      let n = length-sibling_macs peer.node (peers s) in
      let parent : (s.context.mode == Mode.parent) ≡ true = rw mode refl in
      rw parent (omega (arith, n, one, small))

  filled : accept_bytes peer opt s ≡ accept_packet opt (length macs) (concat_macs macs)
  unfolding accept_bytes
  filled =
      let parent : (s.context.mode == Mode.parent) ≡ true = rw mode refl in
      rw (announced, parent) (copied_macs opt macs)

  -- In parent mode, with exactly one child at the address of the accepted peer, MACs of six bytes,
  -- and lengths that fit an int, the accept packet fills the buffer that was allocated for it, a
  -- receiver takes it for complete, and reads back the data that was given and the MACs of the
  -- other children, from the last in the peer list to the first.
  pub accept_bytes-parsed :
      AllMac macs
      → (length (accept_bytes peer opt s) ≡ 9 + length opt + 6 * siblings_announced s.context)
        × (is_complete_accept (accept_bytes peer opt s) (length (accept_bytes peer opt s)) ≡ true)
        × (accept_opt (accept_bytes peer opt s) ≡ opt)
        × (packet_siblings (accept_bytes peer opt s) ≡ reverse macs)
  accept_bytes-parsed all =
      let n = length-sibling_macs peer.node (peers s) in
      let h : 9 + length opt + 6 * length macs < 2 ^ 31 = omega (arith, n, small) in
      let parsed = accept_packet-parsed opt macs all h in
      rw (filled, announced) (length-accept_packet opt macs all h, parsed.0, parsed.1, parsed.2)
