-- ===== src/Matching/Roster/Left.antt =====
-- Cancel and bye packets on rosters: _actOnCancelPacket and _actOnByePacket of
-- pspnet_adhoc_matching/library/calls/start.c.
use aemu.Base.{
  ℕ, ◌≤◌, refl, Bool, ◌&&◌, ◌||◌, Option, none, some, List, [], ◌∷◌, ◌==◌, count, arith,
}
use aemu.Bytes.{Bytes}
use aemu.Chain.{Ptr}
use aemu.Matching.{Mac, Member, Room, peers, is_mac_match}
use aemu.Matching.Members.{
  find_peer, find_parent, find_p2p, find_outgoing_request, is_same, set_joining,
}
use aemu.Matching.Packet.{is_complete, packet_opt}
use aemu.Matching.Receive.Leave.{
  evict, evict_all, leave_loop, dismiss, cancel_child, cancel_parent, cancel_p2p, cancel_from,
  act_on_cancel_packet, is_partner, bye_from, act_on_bye_packet,
}
use aemu.Matching.Mode
use aemu.Matching.Peer
use aemu.Matching.Roster.{Shrinks}
use aemu.Matching.Roster.Lists.{Shrinks-refl, Shrinks-trans, if-Shrinks, touch-Shrinks}
use aemu.Matching.Roster.Sent.{spawn-Shrinks}

count-evict :
    (t : ℕ → Bool) (mac : Mac) (removal : ℕ) (ps : List Member)
    → count (λ p. t p.state) (evict mac removal ps) ≤ count (λ p. t p.state) ps
count-evict t mac removal [] = omega arith
count-evict t mac removal (p ∷ ps) = ground (arith, count-evict t mac removal ps)

evict_all-Shrinks : (removal : ℕ) (s : Room) → Shrinks s (evict_all removal s)
evict_all-Shrinks removal s = record {
  id = refl;
  mode = refl;
  maxpeers = refl;
  counts = λ t. count-evict t s.world.local_mac removal (peers s);
}

leave_loop-Shrinks : (opt : Bytes) (ps : List Member) (s : Room) → Shrinks s (leave_loop opt ps s)
unfolding leave_loop
leave_loop-Shrinks opt [] s = Shrinks-refl s
leave_loop-Shrinks opt (p ∷ ps) s =
    Shrinks-trans
      (if-Shrinks (p.state == Peer.child || p.state == Peer.parent) (spawn-Shrinks _ p.mac opt s)
        (Shrinks-refl s))
      (leave_loop-Shrinks opt ps _)

dismiss-Shrinks :
    (notice : ℕ) (n : Ptr) (mac : Mac) (opt : Bytes) (removal : ℕ) (s : Room)
    → Shrinks s (dismiss notice n mac opt removal s)
unfolding dismiss
dismiss-Shrinks notice n mac opt removal s =
    Shrinks-trans (spawn-Shrinks notice mac opt s) (touch-Shrinks n _ _ (λ q. refl))

module _ (p : Member) (mac : Mac) (opt : Bytes) (removal : ℕ) (s : Room) where
  cancel_child-Shrinks : Shrinks s (cancel_child p mac opt removal s)
  unfolding cancel_child
  cancel_child-Shrinks =
      if-Shrinks (is_same (find_outgoing_request (peers s)) (some p))
        (dismiss-Shrinks _ p.node mac opt removal s)
        (if-Shrinks (is_same (find_parent (peers s)) (some p))
          (Shrinks-trans (leave_loop-Shrinks opt (peers s) s) (evict_all-Shrinks removal _))
          (Shrinks-refl s))

  cancel_parent-Shrinks : Shrinks s (cancel_parent p mac opt removal s)
  unfolding cancel_parent
  cancel_parent-Shrinks =
      if-Shrinks (p.state == Peer.incoming_request) (dismiss-Shrinks _ p.node mac opt removal s) (
        if-Shrinks (p.state == Peer.child) (dismiss-Shrinks _ p.node mac opt removal s)
          (Shrinks-refl s))

  cancel_p2p-Shrinks : Shrinks s (cancel_p2p p mac opt removal s)
  unfolding cancel_p2p
  cancel_p2p-Shrinks =
      if-Shrinks (is_same (find_outgoing_request (peers s)) (some p))
        (dismiss-Shrinks _ p.node mac opt removal s)
        (if-Shrinks (is_same (find_p2p (peers s)) (some p))
          (dismiss-Shrinks _ p.node mac opt removal s)
          (if-Shrinks (p.state == Peer.incoming_request)
            (dismiss-Shrinks _ p.node mac opt removal s) (Shrinks-refl s)))

cancel_from-Shrinks :
    (o : Option Member) (mac : Mac) (opt : Bytes) (removal : ℕ) (s : Room)
    → Shrinks s (cancel_from o mac opt removal s)
unfolding cancel_from
cancel_from-Shrinks none mac opt removal s = Shrinks-refl s
cancel_from-Shrinks (some p) mac opt removal s =
    Shrinks-trans (touch-Shrinks p.node _ s (λ q. refl)) (
      if-Shrinks (s.context.mode == Mode.child)
        (cancel_child-Shrinks p mac opt removal (set_joining 0 p.node s))
        (if-Shrinks (s.context.mode == Mode.parent)
          (cancel_parent-Shrinks p mac opt removal (set_joining 0 p.node s))
          (cancel_p2p-Shrinks p mac opt removal (set_joining 0 p.node s))))

pub cancel-Shrinks :
    (mac : Mac) (rxbuf : Bytes) (len removal : ℕ) (s : Room)
    → Shrinks s (act_on_cancel_packet mac rxbuf len removal s)
unfolding act_on_cancel_packet
cancel-Shrinks mac rxbuf len removal s =
    if-Shrinks (is_complete rxbuf len)
      (cancel_from-Shrinks (find_peer mac (peers s)) mac (packet_opt rxbuf) removal s)
      (Shrinks-refl s)

bye_from-Shrinks :
    (o : Option Member) (mac : Mac) (removal : ℕ) (s : Room) → Shrinks s (bye_from o mac removal s)
unfolding bye_from
bye_from-Shrinks none mac removal s = Shrinks-refl s
bye_from-Shrinks (some p) mac removal s =
    if-Shrinks (is_partner s.context.mode p.state) (dismiss-Shrinks _ p.node mac [] removal s) (
      if-Shrinks (s.context.mode == Mode.child && p.state == Peer.parent)
        (Shrinks-trans (spawn-Shrinks _ mac [] s) (evict_all-Shrinks removal _)) (Shrinks-refl s))

pub bye-Shrinks : (mac : Mac) (removal : ℕ) (s : Room) → Shrinks s (act_on_bye_packet mac removal s)
unfolding act_on_bye_packet
bye-Shrinks mac removal s =
    if-Shrinks (is_mac_match mac s.world.local_mac) (Shrinks-refl s)
      (bye_from-Shrinks _ mac removal s)
