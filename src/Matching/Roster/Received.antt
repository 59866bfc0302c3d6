-- ===== src/Matching/Roster/Received.antt =====
-- What the input thread receives, on rosters: the ping, hello, join, bulk, birth and death packets of
-- pspnet_adhoc_matching/library/calls/start.c.
use aemu.Base.{
  ℕ, ◌≡◌, refl, true, false, ◌&&◌, ◌||◌, Option, none, some, [], ◌==◌, ltb, leb, arith, Bool-cases,
  inl, inr,
}
use aemu.Bytes.{Bytes}
use aemu.Chain.{Ptr}
use aemu.Matching.{Mac, Member, Room, peers, tick}
use aemu.Matching.Members.{find_peer, refresh}
use aemu.Matching.Packet.{is_complete, optlen, packet_opt}
use aemu.Matching.Receive.{
  ping_from, act_on_ping_packet, is_interested, hello_from, act_on_hello_packet, has_slot,
  block_hello, join_from, act_on_join_packet, is_established, bulk_from, act_on_bulk_data_packet,
  is_from_parent, act_on_birth_packet, death_of, act_on_death_packet, packet_mac,
}
use aemu.Matching.Mode
use aemu.Matching.Peer
use aemu.Matching.Roster.{IsRoster, Shrinks, Grows, is_allowed}
use aemu.Matching.Roster.Lists.{
  Shrinks-refl, Shrinks-trans, world-Shrinks, tick-Shrinks, if-Shrinks, Grows-Shrinks, Grows-then,
  if-Grows, touch-Shrinks, change-Grows, delete_peer-Shrinks, add_peer-Grows,
}
use aemu.Matching.Roster.Sent.{spawn-Shrinks, send_cancel_packet-Shrinks}
use aemu.Matching.Roster.Kept.{Shrinks-IsRoster, Grows-IsRoster, Fits}

-- A state that any number of peers may have.
pub plain-Fits :
    (k : ℕ) (s : Room)
    → is_allowed s.context.mode k ≡ true
    → (k == Peer.parent || (k == Peer.p2p || (k == Peer.outgoing_request || k == Peer.child)))
      ≡ false
    → Fits k s
plain-Fits k s a e = record {
  allowed = a;
  parent = λ t. absurd (ground (arith, t, e));
  p2p = λ t. absurd (ground (arith, t, e));
  request = λ t. absurd (ground (arith, t, e));
  child = λ t m. absurd (ground (arith, t, e));
}

-- A child, in a child's list.
pub sibling-Fits : (s : Room) → s.context.mode ≡ Mode.child → Fits Peer.child s
unfolding is_allowed
sibling-Fits s m = record {
  allowed = rw m refl;
  parent = λ t. absurd (ground (arith, t));
  p2p = λ t. absurd (ground (arith, t));
  request = λ t. absurd (ground (arith, t));
  child = λ t e. absurd (omega (arith, m, e));
}

ping_from-Shrinks : (o : Option Member) (s : Room) → Shrinks s (ping_from o s)
unfolding ping_from
ping_from-Shrinks none s = Shrinks-refl s
ping_from-Shrinks (some p) s =
    Shrinks-trans (world-Shrinks s _) (touch-Shrinks p.node _ (tick (tick s)) (λ q. refl))

pub ping-Shrinks : (mac : Mac) (s : Room) → Shrinks s (act_on_ping_packet mac s)
unfolding act_on_ping_packet
ping-Shrinks mac s = ping_from-Shrinks _ s

hello_from-Grows :
    (o : Option Member) (mac : Mac) (opt : Bytes) (s : Room)
    → Grows Peer.offer s (hello_from o mac opt s)
unfolding hello_from
hello_from-Grows (some p) mac opt s = Grows-Shrinks Peer.offer (spawn-Shrinks _ mac opt s)
hello_from-Grows none mac opt s =
    add_peer-Grows mac Peer.offer _ _ s Shrinks-refl (λ n r. spawn-Shrinks _ mac opt r)

interested-allowed :
    (s : Room) → is_interested s.context ≡ true → is_allowed s.context.mode Peer.offer ≡ true
unfolding is_interested is_allowed
interested-allowed s e = ground (arith, e)

pub hello-IsRoster :
    (mac : Mac) (rxbuf : Bytes) (len : ℕ) (s : Room)
    → IsRoster s
    → IsRoster (act_on_hello_packet mac rxbuf len s)
unfolding act_on_hello_packet
hello-IsRoster mac rxbuf len s is = elim (Bool-cases (is_interested s.context)) [
  | inr f ↦ rw f is
  | inl t ↦
      Grows-IsRoster Peer.offer
        (if-Grows (is_interested s.context && is_complete rxbuf len)
          (hello_from-Grows (find_peer mac (peers s)) mac _ s)
          (Grows-Shrinks Peer.offer (Shrinks-refl s)))
        (plain-Fits Peer.offer s (interested-allowed s t) refl) is
]

pub block_hello-Shrinks : (n : Ptr) (s : Room) → Shrinks s (block_hello n s)
block_hello-Shrinks n s =
    if-Shrinks (s.context.mode == Mode.p2p) (touch-Shrinks n _ s (λ p. refl)) (Shrinks-refl s)

refresh-Shrinks : (n : Ptr) (s : Room) → Shrinks s (refresh n s)
unfolding refresh
refresh-Shrinks n s = Shrinks-trans (tick-Shrinks s) (touch-Shrinks n _ (tick s) (λ p. refl))

join_from-Grows :
    (o : Option Member) (mac : Mac) (opt : Bytes) (s : Room)
    → Grows Peer.incoming_request s (join_from o mac opt s)
unfolding join_from
join_from-Grows none mac opt s =
    add_peer-Grows mac Peer.incoming_request _ _ s (send_cancel_packet-Shrinks mac [])
      (λ n r. Shrinks-trans (block_hello-Shrinks n r) (spawn-Shrinks _ mac opt _))
join_from-Grows (some p) mac opt s =
    if-Grows (s.context.mode == Mode.parent) (Grows-Shrinks Peer.incoming_request (Shrinks-refl s))
      (Grows-then (change-Grows p.node _ Peer.incoming_request s (λ q. refl)) (
        Shrinks-trans (block_hello-Shrinks p.node _)
          (Shrinks-trans (spawn-Shrinks _ mac opt _) (refresh-Shrinks p.node _))))

slot-allowed :
    (s : Room) → has_slot s.context ≡ true → is_allowed s.context.mode Peer.incoming_request ≡ true
unfolding has_slot is_allowed
slot-allowed s e = ground (arith, e)

pub join-IsRoster :
    (mac : Mac) (rxbuf : Bytes) (len : ℕ) (s : Room)
    → IsRoster s
    → IsRoster (act_on_join_packet mac rxbuf len s)
unfolding act_on_join_packet
join-IsRoster mac rxbuf len s is = elim (Bool-cases (has_slot s.context)) [
  | inr f ↦ rw f (
      Shrinks-IsRoster
        (if-Shrinks (s.context.mode == Mode.child) (Shrinks-refl s)
          (send_cancel_packet-Shrinks mac [] s))
        is)
  | inl t ↦
      let grows =
        if-Grows (s.context.mode == Mode.child)
          (Grows-Shrinks Peer.incoming_request (Shrinks-refl s))
          (if-Grows (has_slot s.context && is_complete rxbuf len)
            (join_from-Grows (find_peer mac (peers s)) mac (packet_opt rxbuf) s)
            (Grows-Shrinks Peer.incoming_request (send_cancel_packet-Shrinks mac [] s))) in
      Grows-IsRoster Peer.incoming_request grows
        (plain-Fits Peer.incoming_request s (slot-allowed s t) refl) is
]

bulk_from-Shrinks :
    (o : Option Member) (mac : Mac) (rxbuf : Bytes) (len : ℕ) (s : Room)
    → Shrinks s (bulk_from o mac rxbuf len s)
unfolding bulk_from
bulk_from-Shrinks none mac rxbuf len s = Shrinks-refl s
bulk_from-Shrinks (some p) mac rxbuf len s =
    if-Shrinks
      (is_established s.context.mode p.state
        && (ltb 5 len && (ltb 0 (optlen rxbuf) && is_complete rxbuf len)))
      (spawn-Shrinks _ mac _ s) (Shrinks-refl s)

pub bulk-Shrinks :
    (mac : Mac) (rxbuf : Bytes) (len : ℕ) (s : Room)
    → Shrinks s (act_on_bulk_data_packet mac rxbuf len s)
unfolding act_on_bulk_data_packet
bulk-Shrinks mac rxbuf len s = bulk_from-Shrinks _ mac rxbuf len s

from_parent-child :
    (o : Option Member) (s : Room) → is_from_parent o s.context ≡ true → s.context.mode ≡ Mode.child
unfolding is_from_parent
from_parent-child none s e = absurd (ground (arith, e))
from_parent-child (some p) s e = ground (arith, e)

pub birth-IsRoster :
    (mac : Mac) (rxbuf : Bytes) (len : ℕ) (s : Room)
    → IsRoster s
    → IsRoster (act_on_birth_packet mac rxbuf len s)
unfolding act_on_birth_packet
birth-IsRoster mac rxbuf len s is =
    let o = find_peer mac (peers s) in
    elim (Bool-cases (is_from_parent o s.context)) [
      | inr f ↦ rw f is
      | inl t ↦
          Grows-IsRoster Peer.child
            (if-Grows (is_from_parent o s.context && leb 7 len)
              (add_peer-Grows (packet_mac rxbuf) Peer.child _ _ s Shrinks-refl
                (λ n r. Shrinks-refl r))
              (Grows-Shrinks Peer.child (Shrinks-refl s)))
            (sibling-Fits s (from_parent-child o s t)) is
    ]

death_of-Shrinks : (o : Option Member) (mac : Mac) (s : Room) → Shrinks s (death_of o mac s)
unfolding death_of
death_of-Shrinks none mac s = Shrinks-refl s
death_of-Shrinks (some p) mac s =
    if-Shrinks (p.state == Peer.child)
      (Shrinks-trans (spawn-Shrinks _ mac [] s) (delete_peer-Shrinks (some p) _)) (Shrinks-refl s)

pub death-Shrinks :
    (mac : Mac) (rxbuf : Bytes) (len : ℕ) (s : Room)
    → Shrinks s (act_on_death_packet mac rxbuf len s)
unfolding act_on_death_packet
death-Shrinks mac rxbuf len s =
    if-Shrinks (is_from_parent (find_peer mac (peers s)) s.context && leb 7 len)
      (death_of-Shrinks _ (packet_mac rxbuf) s) (Shrinks-refl s)
