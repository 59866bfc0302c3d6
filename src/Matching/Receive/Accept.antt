-- ===== src/Matching/Receive/Accept.antt =====
-- _actOnAcceptPacket, _postAcceptCleanPeerList and _postAcceptAddSiblings of
-- pspnet_adhoc_matching/library/calls/start.c.
use aemu.Base.{ℕ, Bool, ◌&&◌, not, Option, none, some, List, [], ◌∷◌, ◌==◌, if◌then◌else◌}
use aemu.Bytes.{Bytes}
use aemu.Chain.{Ptr}
use aemu.Matching.{Mac, Member, Room, peers, time, tick}
use aemu.Matching.Members.{
  find_peer, find_outgoing_request, is_none, is_same, change_peer, set_state, add_peer, delete_peer,
  spawn_local_event,
}
use aemu.Matching.Packet.{is_complete_accept, accept_opt, packet_siblings}
use aemu.Matching.Receive.{is_interested, block_hello}
use aemu.Matching.Mode
use aemu.Matching.Peer
use aemu.Matching.Notice

-- "Unneeded Peer"
unfoldable pub is_unneeded : Member → Bool
is_unneeded p =
    not (p.state == Peer.child)
    && (not (p.state == Peer.p2p) && (not (p.state == Peer.parent) && not (p.state == Peer.self)))

-- _postAcceptCleanPeerList
unfoldable pub clean_loop : List Member → Room → Room
clean_loop [] s = s
clean_loop (p ∷ ps) s = clean_loop ps (if is_unneeded p then delete_peer (some p) s else s)

-- A sibling of _postAcceptAddSiblings
unfoldable pub add_sibling : Option Member → Mac → Room → Room
add_sibling none mac s = add_peer mac Peer.child (λ r. r) (λ node r. r) s
add_sibling (some sibling) mac s =
    change_peer sibling.node
      (λ p. record p {
        state = Peer.child;
        sending = 0;
        lastping = time s;
        last_seen_on_adhocctl = time s;
      })
      (tick s)

unfoldable pub add_siblings : List Mac → Room → Room
add_siblings [] s = s
add_siblings (m ∷ ms) s = add_siblings ms (add_sibling (find_peer m (peers s)) m s)

-- "PPSSPP adds self here"
unfoldable pub add_self : Room → Room
add_self s =
    let added = add_peer s.world.local_mac Peer.self (λ r. r) (λ node r. r) s in
    if is_none (find_peer s.world.local_mac (peers s)) then added else s

-- "It's the answer we wanted!"
unfoldable pub accepted : Ptr → Mac → Bytes → List Mac → Room → Room
accepted node sender opt siblings s =
    let state = if s.context.mode == Mode.child then Peer.parent else Peer.p2p in
    let answered = set_state state node s in
    let cleaned = clean_loop (peers answered) answered in
    let joined = add_self (add_siblings siblings cleaned) in
    let met = if s.context.mode == Mode.child then joined else cleaned in
    let told = spawn_local_event Notice.established sender [] (block_hello node met) in
    spawn_local_event Notice.accept sender opt told

-- The answer of the peer that was asked.
unfoldable pub accept_from : Option Member → Mac → Bytes → List Mac → Room → Room
accept_from none sender opt siblings s = s
accept_from (some request) sender opt siblings s =
    if is_same (some request) (find_peer sender (peers s))
    then accepted request.node sender opt siblings s
    else s

unfoldable pub act_on_accept_packet : Mac → Bytes → ℕ → Room → Room
act_on_accept_packet sender rxbuf len s =
    let answered =
      accept_from (find_outgoing_request (peers s)) sender (accept_opt rxbuf)
        (packet_siblings rxbuf) s in
    if not (s.context.mode == Mode.parent)
      && (is_interested s.context && is_complete_accept rxbuf len)
    then answered
    else s
