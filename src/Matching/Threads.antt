-- ===== src/Matching/Threads.antt =====
-- The two threads of a context: _matchingEventThread, timeout_missing_peers_on_adhocctl,
-- _matchingInputThread and _handleTimeout of pspnet_adhoc_matching/library/calls/start.c.
pub mod Input
use aemu.Base.{
  ℕ, zero, suc, ◌+◌, ◌-◌, ◌%◌, ◌^◌, Bool, true, false, ◌&&◌, ◌||◌, not, Option, none, some, List,
  [], ◌∷◌, ◌==◌, leb, ltb, if◌then◌else◌, get_or, length, take,
}
use aemu.Bytes.{Bytes}
use aemu.Matching.{
  Mac, Member, Message, Context, Room, Effect, peers, allocated, time, tick, act, is_mac_match,
}
use aemu.Matching.Members.{
  find_member, find_peer, is_none, change_peer, spawn_local_event, clear_peer_list,
}
use aemu.Matching.Send.{
  broadcast_ping, broadcast_hello, send_input_stack, send_death_packet, send_cancel_packet,
  send_bye_packet,
}
use aemu.Matching.Receive.{
  has_slot, act_on_ping_packet, act_on_hello_packet, act_on_join_packet, act_on_bulk_data_packet,
  act_on_birth_packet, act_on_death_packet,
}
use aemu.Matching.Receive.Accept.{act_on_accept_packet}
use aemu.Matching.Receive.Leave.{act_on_cancel_packet, act_on_bye_packet, is_p2p_partner}
use aemu.Matching.Mode
use aemu.Matching.Peer
use aemu.Matching.Notice
use aemu.Matching.Opcode

-- `peer != NULL ? peer->joining : 0`
abbrev pub joining_of : Option Member → ℕ
joining_of none = 0
joining_of (some p) = p.joining

-- One message of the event stack; malloc is for the aligned copy.
unfoldable pub dispatch_one : Message → Room → Room
dispatch_one m s =
    let joining = joining_of (find_peer m.mac (peers s)) in
    let s1 = allocated s in
    if not (m.opcode == Notice.hello) || joining == 0
    then act (Effect.handled s.context.id m.opcode m.mac m.opt) s1
    else s1

unfoldable pub dispatch_loop : List Message → Room → Room
dispatch_loop [] s = s
dispatch_loop (m ∷ ms) s = dispatch_loop ms (dispatch_one m s)

abbrev pub clear_event_stack : Room → Room
clear_event_stack s = record s { context = record s.context { event_stack = [] } }

-- A round of the event thread.
unfoldable pub event_round : Room → Room
event_round s = clear_event_stack (dispatch_loop s.context.event_stack s)

-- "Process Last Messages"
unfoldable pub last_loop : List Message → Room → Room
last_loop [] s = s
last_loop (m ∷ ms) s = last_loop ms (act (Effect.handled s.context.id m.opcode m.mac m.opt) s)

unfoldable pub end_event_thread : Room → Room
end_event_thread s = clear_event_stack (last_loop s.context.event_stack s)

-- A datagram from sceNetAdhocPdpRecv.
pub record Datagram : Type 0 where
  pub sender : Mac
  pub port : ℕ
  pub bytes : Bytes

-- The handler for the opcode; `removal` is get_time_with_delay(120000).
unfoldable pub act_on_packet : Mac → Bytes → ℕ → Room → Room
act_on_packet sender rxbuf removal s =
    let opcode = get_or rxbuf 0 0 in
    let len = length rxbuf in
    if opcode == Opcode.ping
    then act_on_ping_packet sender s
    else if opcode == Opcode.hello
    then act_on_hello_packet sender rxbuf len s
    else if opcode == Opcode.join
    then act_on_join_packet sender rxbuf len s
    else if opcode == Opcode.accept
    then act_on_accept_packet sender rxbuf len s
    else if opcode == Opcode.cancel
    then act_on_cancel_packet sender rxbuf len removal s
    else if opcode == Opcode.bulk
    then act_on_bulk_data_packet sender rxbuf len s
    else if opcode == Opcode.birth
    then act_on_birth_packet sender rxbuf len s
    else if opcode == Opcode.death
    then act_on_death_packet sender rxbuf len s
    else if opcode == Opcode.bye
    then act_on_bye_packet sender removal s
    else s

unfoldable pub receive_one : Datagram → Room → Room
receive_one d s =
    if s.context.port == d.port
    then act_on_packet d.sender d.bytes ((time s + 120000) % 2 ^ 64) (tick s)
    else s

-- "Process all available packets", `limit` at most; an empty one ends the loop.
unfoldable pub receive_loop : ℕ → List Datagram → Room → Room
receive_loop zero ds s = s
receive_loop (suc limit) [] s = s
receive_loop (suc limit) (d ∷ ds) s =
    let rest = receive_loop limit ds (receive_one d s) in if length d.bytes == 0 then s else rest

-- A peer in timeout_missing_peers_on_adhocctl; `missing` tells if sceNetAdhocctlGetPeerInfo fails.
unfoldable pub check_peer : (Mac → Bool) → Member → Room → Room
check_peer missing p s =
    let now = time s in
    let absent = (now + (2 ^ 64 - p.last_seen_on_adhocctl)) % 2 ^ 64 in
    let lost = if ltb 3000000 absent then act_on_bye_packet p.mac 0 (tick s) else tick s in
    let seen =
      change_peer p.node (λ q. record q { last_seen_on_adhocctl = now; lastping = now }) (tick s) in
    if p.state == Peer.self then s else if missing p.mac then lost else seen

-- The loop, over the peers that are still in the list.
unfoldable pub missing_loop : (Mac → Bool) → List Member → Room → Room
missing_loop missing [] s = s
missing_loop missing (p ∷ ps) s =
    missing_loop missing ps (
      if is_none (find_member (λ q. q.node == p.node) (peers s)) then s else check_peer missing p s)

unfoldable pub timeout_missing_peers_on_adhocctl : (Mac → Bool) → Room → Room
timeout_missing_peers_on_adhocctl missing s = missing_loop missing (peers s) s

-- "Timeout!"
unfoldable pub is_timeout : Member → ℕ → ℕ → Bool
is_timeout p now timeout = (ltb p.lastping now && leb timeout (now - p.lastping)) || p.lastping == 0

-- "Spawn Timeout Event": the child's test compares a state with ADHOC_MATCHING_MODE_PARENT.
unfoldable pub is_told : ℕ → ℕ → Bool
is_told mode state =
    (mode == Mode.child && state == Mode.parent)
    || ((mode == Mode.parent && state == Peer.child) || (mode == Mode.p2p && is_p2p_partner state))

-- A peer that timed out, until the check for an empty list.
unfoldable pub expire : Member → Room → Room
expire p s =
    let told =
      if is_told s.context.mode p.state then spawn_local_event Notice.timeout p.mac [] s else s in
    if is_mac_match s.world.local_mac p.mac
    then told
    else if s.context.mode == Mode.parent
    then send_death_packet p.mac told
    else send_cancel_packet p.mac [] told

abbrev pub is_empty : List Member → Bool
is_empty [] = true
is_empty (p ∷ ps) = false

-- "if the peer list is nuked during _sendCancelPacket"
unfoldable pub is_nuked : Member → Room → Bool
is_nuked p s = not (is_mac_match s.world.local_mac p.mac) && is_empty (peers s)

unfoldable pub timeout_loop : List Member → Room → Room
timeout_loop [] s = s
timeout_loop (p ∷ ps) s =
    let due = is_timeout p (time s) s.context.timeout && p.joining == 0 in
    let expired = expire p (tick s) in
    let after = timeout_loop ps (if due then expired else tick s) in
    if due && is_nuked p expired then expired else after

-- _handleTimeout
unfoldable pub handle_timeout : Room → Room
handle_timeout s = if s.context.keepalive_int == 0 then s else timeout_loop (peers s) s
