-- ===== src/Matching/Receive/Leave.antt =====
-- _actOnCancelPacket and _actOnByePacket of pspnet_adhoc_matching/library/calls/start.c.
use aemu.Base.{ℕ, Bool, ◌&&◌, ◌||◌, Option, none, some, List, [], ◌∷◌, ◌==◌, if◌then◌else◌}
use aemu.Bytes.{Bytes}
use aemu.Chain.{Ptr}
use aemu.Matching.{Mac, Member, Room, peers, set_peers, is_mac_match}
use aemu.Matching.Members.{
  find_peer, find_parent, find_p2p, find_outgoing_request, is_same, set_joining, set_lastping,
  spawn_local_event,
}
use aemu.Matching.Packet.{is_complete, packet_opt}
use aemu.Matching.Mode
use aemu.Matching.Peer
use aemu.Matching.Notice

-- The loop that removes the console itself and times out the others.
abbrev pub evict : Mac → ℕ → List Member → List Member
evict mac removal [] = []
evict mac removal (p ∷ ps) =
    let rest = evict mac removal ps in
    if is_mac_match p.mac mac then rest else record p { lastping = removal } ∷ rest

abbrev pub evict_all : ℕ → Room → Room
evict_all removal s = set_peers (evict s.world.local_mac removal (peers s)) s

-- "Spawn Leave / Kick Event" for each established peer
unfoldable pub leave_loop : Bytes → List Member → Room → Room
leave_loop opt [] s = s
leave_loop opt (p ∷ ps) s =
    let told = spawn_local_event Notice.leave p.mac opt s in
    leave_loop opt ps (if p.state == Peer.child || p.state == Peer.parent then told else s)

-- An event, and the peer's time of removal.
unfoldable pub dismiss : ℕ → Ptr → Mac → Bytes → ℕ → Room → Room
dismiss notice node mac opt removal s =
    set_lastping removal node (spawn_local_event notice mac opt s)

-- _actOnCancelPacket in each mode
unfoldable pub cancel_child : Member → Mac → Bytes → ℕ → Room → Room
cancel_child peer sender opt removal s =
    let denied = dismiss Notice.deny peer.node sender opt removal s in
    let kicked = evict_all removal (leave_loop opt (peers s) s) in
    if is_same (find_outgoing_request (peers s)) (some peer)
    then denied
    else if is_same (find_parent (peers s)) (some peer)
    then kicked
    else s

unfoldable pub cancel_parent : Member → Mac → Bytes → ℕ → Room → Room
cancel_parent peer sender opt removal s =
    let cancelled = dismiss Notice.cancel peer.node sender opt removal s in
    let left = dismiss Notice.leave peer.node sender opt removal s in
    if peer.state == Peer.incoming_request
    then cancelled
    else if peer.state == Peer.child
    then left
    else s

unfoldable pub cancel_p2p : Member → Mac → Bytes → ℕ → Room → Room
cancel_p2p peer sender opt removal s =
    let denied = dismiss Notice.deny peer.node sender opt removal s in
    let left = dismiss Notice.leave peer.node sender opt removal s in
    let cancelled = dismiss Notice.cancel peer.node sender opt removal s in
    if is_same (find_outgoing_request (peers s)) (some peer)
    then denied
    else if is_same (find_p2p (peers s)) (some peer)
    then left
    else if peer.state == Peer.incoming_request
    then cancelled
    else s

unfoldable pub cancel_from : Option Member → Mac → Bytes → ℕ → Room → Room
cancel_from none sender opt removal s = s
cancel_from (some peer) sender opt removal s =
    let free = set_joining 0 peer.node s in
    if s.context.mode == Mode.child
    then cancel_child peer sender opt removal free
    else if s.context.mode == Mode.parent
    then cancel_parent peer sender opt removal free
    else cancel_p2p peer sender opt removal free

unfoldable pub act_on_cancel_packet : Mac → Bytes → ℕ → ℕ → Room → Room
act_on_cancel_packet sender rxbuf len removal s =
    if is_complete rxbuf len
    then cancel_from (find_peer sender (peers s)) sender (packet_opt rxbuf) removal s
    else s

-- The states in which a partner's bye, or its silence, is told to the game.
unfoldable pub is_p2p_partner : ℕ → Bool
is_p2p_partner state =
    state == Peer.p2p
    || (state == Peer.offer
        || (state == Peer.incoming_request
            || (state == Peer.outgoing_request || state == Peer.cancel_in_progress)))

-- "P2P or Child Bye"
unfoldable pub is_partner : ℕ → ℕ → Bool
is_partner mode state =
    (mode == Mode.parent && state == Peer.child)
    || ((mode == Mode.child && state == Peer.child) || (mode == Mode.p2p && is_p2p_partner state))

-- _actOnByePacket
unfoldable pub bye_from : Option Member → Mac → ℕ → Room → Room
bye_from none sender removal s = s
bye_from (some peer) sender removal s =
    let left = dismiss Notice.bye peer.node sender [] removal s in
    let closed = evict_all removal (spawn_local_event Notice.bye sender [] s) in
    if is_partner s.context.mode peer.state
    then left
    else if s.context.mode == Mode.child && peer.state == Peer.parent
    then closed
    else s

unfoldable pub act_on_bye_packet : Mac → ℕ → Room → Room
act_on_bye_packet sender removal s =
    if is_mac_match sender s.world.local_mac
    then s
    else bye_from (find_peer sender (peers s)) sender removal s
