-- ===== src/Matching/Delivered.antt =====
-- A join packet on its way: _sendJoinPacket on one console and _actOnJoinPacket on the other, of
-- pspnet_adhoc_matching/library/calls/start.c.
use aemu.Base.{◌+◌, ◌^◌, ◌≡◌, ◌<◌, refl, true, false, none, ◌∷◌, ◌==◌, length, get_or, drop, arith}
use aemu.Bytes.{Bytes}
use aemu.Chain.{null}
use aemu.Matching.{Mac, Member, Room, peers, address}
use aemu.Matching.Members.{
  find_peer, count_children, add_peer, spawn_local_event, send_generic_message, link_message,
}
use aemu.Matching.Packet.{data_packet}
use aemu.Matching.Packet.Parsed.{data_packet-parsed}
use aemu.Matching.Receive.{has_slot, join_from, act_on_join_packet}
use aemu.Matching.Agreed.{Live}
use aemu.Matching.Mode
use aemu.Matching.Peer
use aemu.Matching.Opcode
use aemu.Matching.Notice

-- The game is asked about a new peer in front of the list.
abbrev pub IsAsked : Mac → Bytes → Room → Room → Type 0
IsAsked sender opt s r =
    (p : Member) × (peers r ≡ p ∷ peers s)
    × (p.mac ≡ sender)
    × (p.state ≡ Peer.incoming_request)
    × (r.context.event_stack
        ≡ record { opcode = Notice.request; mac = sender; opt = opt } ∷ s.context.event_stack)
    × (r.world.effects ≡ s.world.effects)

join_from-IsAsked :
    (sender : Mac) (opt : Bytes) (s : Room)
    → s.context.mode ≡ Mode.parent
    → Live 2 s.world.mallocs
    → IsAsked sender opt s (join_from none sender opt s)
unfolding join_from add_peer spawn_local_event send_generic_message link_message
join_from-IsAsked sender opt s m live =
    let now : (address s == null) ≡ false = ground (arith, live.0) in
    let later : (get_or (drop 1 s.world.mallocs) 0 null == null) ≡ false =
      ground (arith, live.1.0) in
    let p2p : (s.context.mode == Mode.p2p) ≡ false = rw m refl in
    rw (now, p2p, later) (_, refl, refl, refl, refl, refl)

slot-free :
    (s : Room)
    → s.context.mode ≡ Mode.parent
    → count_children (peers s) + 1 < s.context.maxpeers
    → has_slot s.context ≡ true
unfolding has_slot
slot-free s m room = ground (arith, m, room)

-- In parent mode, with a slot that is not taken, malloc succeeding, a sender who is in no list and
-- data whose length fits an int, the join packet that is made for the data puts a new peer with the
-- sender's MAC and the state of an incoming request in front of the list, and on the event stack a
-- request event with the sender and the same data; nothing is sent.
pub act_on_join_packet-IsAsked :
    (sender : Mac) (opt : Bytes) (s : Room)
    → length opt < 2 ^ 31
    → s.context.mode ≡ Mode.parent
    → count_children (peers s) + 1 < s.context.maxpeers
    → find_peer sender (peers s) ≡ none
    → Live 2 s.world.mallocs
    → let packet = data_packet Opcode.join opt in
      IsAsked sender opt s (act_on_join_packet sender packet (length packet) s)
unfolding act_on_join_packet
act_on_join_packet-IsAsked sender opt s h m room unknown live =
    let parsed = data_packet-parsed Opcode.join opt h in
    let other : (s.context.mode == Mode.child) ≡ false = rw m refl in
    rw (other, slot-free s m room, parsed.0, parsed.1, unknown)
      (join_from-IsAsked sender opt s m live)
