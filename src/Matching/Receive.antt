-- ===== src/Matching/Receive.antt =====
-- The packets that the input thread receives: the first handlers of
-- pspnet_adhoc_matching/library/calls/start.c, with the length of the packet in the receive buffer.
pub mod Accept
pub mod Leave
use aemu.Base.{
  ℕ, ◌+◌, ◌-◌, ◌%◌, ◌^◌, Bool, true, false, ◌&&◌, ◌||◌, Option, none, some, List, [], ◌∷◌, ◌==◌,
  leb, ltb, if◌then◌else◌, drop, take,
}
use aemu.Bytes.{Bytes}
use aemu.Chain.{Ptr}
use aemu.Matching.{Mac, Member, Context, Room, peers, time, tick}
use aemu.Matching.Members.{
  find_peer, find_parent, find_p2p, is_none, count_children, change_peer, set_state, set_joining,
  refresh, add_peer, delete_peer, spawn_local_event, is_same,
}
use aemu.Matching.Packet.{is_complete, packet_opt, optlen}
use aemu.Matching.Send.{send_cancel_packet}
use aemu.Matching.Mode
use aemu.Matching.Peer
use aemu.Matching.Notice

-- _actOnPingPacket
unfoldable pub ping_from : Option Member → Room → Room
ping_from none s = s
ping_from (some peer) s =
    change_peer peer.node
      (λ p. record p { lastping = time s; last_seen_on_adhocctl = time (tick s) }) (tick (tick s))

unfoldable pub act_on_ping_packet : Mac → Room → Room
act_on_ping_packet sender s = ping_from (find_peer sender (peers s)) s

-- "Interested in Hello Data", "Don't have a master yet"
unfoldable pub is_interested : Context → Bool
is_interested c =
    (c.mode == Mode.child && is_none (find_parent c.peerlist))
    || (c.mode == Mode.p2p && is_none (find_p2p c.peerlist))

-- _actOnHelloPacket
unfoldable pub hello_from : Option Member → Mac → Bytes → Room → Room
hello_from (some peer) sender opt s = spawn_local_event Notice.hello sender opt s
hello_from none sender opt s =
    add_peer sender Peer.offer (λ r. r) (λ node r. spawn_local_event Notice.hello sender opt r) s

unfoldable pub act_on_hello_packet : Mac → Bytes → ℕ → Room → Room
act_on_hello_packet sender rxbuf len s =
    if is_interested s.context && is_complete rxbuf len
    then hello_from (find_peer sender (peers s)) sender (packet_opt rxbuf) s
    else s

-- "We still got a unoccupied slot in our room"; maxpeers is positive.
unfoldable pub has_slot : Context → Bool
has_slot c =
    (c.mode == Mode.parent && ltb (count_children c.peerlist) (c.maxpeers - 1))
    || (c.mode == Mode.p2p && is_none (find_p2p c.peerlist))

-- "block hello events from this point on"
abbrev pub block_hello : Ptr → Room → Room
block_hello node s = if s.context.mode == Mode.p2p then set_joining 1 node s else s

-- _actOnJoinPacket, from "Find Peer" on
unfoldable pub join_from : Option Member → Mac → Bytes → Room → Room
join_from none sender opt s =
    add_peer sender Peer.incoming_request (send_cancel_packet sender [])
      (λ node r. spawn_local_event Notice.request sender opt (block_hello node r)) s
join_from (some peer) sender opt s =
    let joining = block_hello peer.node (set_state Peer.incoming_request peer.node s) in
    let asked = refresh peer.node (spawn_local_event Notice.request sender opt joining) in
    if s.context.mode == Mode.parent then s else asked

unfoldable pub act_on_join_packet : Mac → Bytes → ℕ → Room → Room
act_on_join_packet sender rxbuf len s =
    let joined = join_from (find_peer sender (peers s)) sender (packet_opt rxbuf) s in
    let rejected = send_cancel_packet sender [] s in
    if s.context.mode == Mode.child
    then s
    else if has_slot s.context && is_complete rxbuf len
    then joined
    else rejected

-- "Established Peer"
unfoldable pub is_established : ℕ → ℕ → Bool
is_established mode state =
    (mode == Mode.parent && state == Peer.child)
    || ((mode == Mode.child && (state == Peer.child || state == Peer.parent))
        || (mode == Mode.p2p && state == Peer.p2p))

-- _actOnBulkDataPacket
unfoldable pub bulk_from : Option Member → Mac → Bytes → ℕ → Room → Room
bulk_from none sender rxbuf len s = s
bulk_from (some peer) sender rxbuf len s =
    if is_established s.context.mode peer.state
      && (ltb 5 len && (ltb 0 (optlen rxbuf) && is_complete rxbuf len))
    then spawn_local_event Notice.data_event sender (packet_opt rxbuf) s
    else s

unfoldable pub act_on_bulk_data_packet : Mac → Bytes → ℕ → Room → Room
act_on_bulk_data_packet sender rxbuf len s =
    bulk_from (find_peer sender (peers s)) sender rxbuf len s

-- "Valid Circumstances": a child's peer that is the parent.
unfoldable pub is_from_parent : Option Member → Context → Bool
is_from_parent none c = false
is_from_parent (some p) c = c.mode == Mode.child && is_same (some p) (find_parent c.peerlist)

-- The MAC in a birth or a death packet.
abbrev pub packet_mac : Bytes → Mac
packet_mac rxbuf = take 6 (drop 1 rxbuf)

-- _actOnBirthPacket
unfoldable pub act_on_birth_packet : Mac → Bytes → ℕ → Room → Room
act_on_birth_packet sender rxbuf len s =
    if is_from_parent (find_peer sender (peers s)) s.context && leb 7 len
    then add_peer (packet_mac rxbuf) Peer.child (λ r. r) (λ node r. r) s
    else s

-- _actOnDeathPacket
unfoldable pub death_of : Option Member → Mac → Room → Room
death_of none mac s = s
death_of (some deadkid) mac s =
    let gone = delete_peer (some deadkid) (spawn_local_event Notice.leave mac [] s) in
    if deadkid.state == Peer.child then gone else s

unfoldable pub act_on_death_packet : Mac → Bytes → ℕ → Room → Room
act_on_death_packet sender rxbuf len s =
    let mac = packet_mac rxbuf in
    if is_from_parent (find_peer sender (peers s)) s.context && leb 7 len
    then death_of (find_peer mac (peers s)) mac s
    else s
