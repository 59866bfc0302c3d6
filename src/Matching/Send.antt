-- ===== src/Matching/Send.antt =====
-- The packets that the input thread sends: the second half of
-- pspnet_adhoc_matching/library/calls/start.c.
use aemu.Base.{
  ℕ, ◌+◌, ◌-◌, ◌*◌, ◌/◌, ◌%◌, ◌^◌, ◌&&◌, ◌||◌, Option, none, some, List, [], ◌∷◌, ◌==◌, ltb,
  if◌then◌else◌, take, replicate,
}
use aemu.Bytes.{Bytes}
use aemu.Chain.{Ptr, null}
use aemu.Matching.{Mac, Member, Message, Context, Room, peers, address, allocated, transmit}
use aemu.Matching.Members.{
  find_peer, delete_peer, set_sending, clear_peer_list, spawn_local_event, count_connected_peers,
}
use aemu.Matching.Packet.{data_packet, accept_packet, concat_macs}
use aemu.Matching.Mode
use aemu.Matching.Peer
use aemu.Matching.Opcode
use aemu.Matching.Notice

abbrev pub broadcast : Mac
broadcast = replicate 6 255

-- _broadcastPingMessage
unfoldable pub broadcast_ping : Room → Room
broadcast_ping = transmit broadcast (Opcode.ping ∷ [])

abbrev pub hello_data : Context → Bytes
hello_data c = elim c.hello [ some bytes ↦ take c.hellolen bytes | none ↦ replicate c.hellolen 0 ]

-- _broadcastHelloMessage
unfoldable pub broadcast_hello : Room → Room
broadcast_hello s =
    if address s == null
    then allocated s
    else transmit broadcast (data_packet Opcode.hello (hello_data s.context)) (allocated s)

-- The MACs of the children but the target.
unfoldable pub sibling_macs : Ptr → List Member → List Mac
sibling_macs target [] = []
sibling_macs target (p ∷ ps) =
    let rest = sibling_macs target ps in
    if p.node == target then rest else if p.state == Peer.child then p.mac ∷ rest else rest

-- `siblingbuflen / sizeof(SceNetEtherAddr)`, on unsigned numbers
unfoldable pub siblings_announced : Context → ℕ
siblings_announced c =
    if c.mode == Mode.parent
    then (6 * ((count_connected_peers c + (2 ^ 32 - 2)) % 2 ^ 32)) % 2 ^ 32 / 6
    else 0

-- _sendAcceptPacket
unfoldable pub accept_bytes : Member → Bytes → Room → Bytes
accept_bytes peer opt s =
    let count = siblings_announced s.context in
    let siblings =
      if s.context.mode == Mode.parent && ltb 0 count
      then concat_macs (sibling_macs peer.node (peers s))
      else [] in
    accept_packet opt count siblings

unfoldable pub send_accept_to : Option Member → Mac → Bytes → Room → Room
send_accept_to none mac opt s = s
send_accept_to (some peer) mac opt s =
    let sent = transmit mac (accept_bytes peer opt s) (allocated s) in
    let told = spawn_local_event Notice.established mac [] sent in
    if peer.state == Peer.child || peer.state == Peer.p2p
    then if address s == null then allocated s else told
    else s

unfoldable pub send_accept_packet : Mac → Bytes → Room → Room
send_accept_packet mac opt s = send_accept_to (find_peer mac (peers s)) mac opt s

-- The middle of _sendJoinPacket and _sendCancelPacket.
unfoldable pub send_buffer : ℕ → Mac → Bytes → Room → Room
send_buffer opcode mac opt s =
    if address s == null then allocated s else transmit mac (data_packet opcode opt) (allocated s)

-- _sendJoinPacket
unfoldable pub send_join_to : Option Member → Mac → Bytes → Room → Room
send_join_to none mac opt s = s
send_join_to (some peer) mac opt s =
    if peer.state == Peer.outgoing_request then send_buffer Opcode.join mac opt s else s

unfoldable pub send_join_packet : Mac → Bytes → Room → Room
send_join_packet mac opt s = send_join_to (find_peer mac (peers s)) mac opt s

-- _sendCancelPacket
unfoldable pub drop_cancelled : Option Member → Room → Room
drop_cancelled none s = s
drop_cancelled (some peer) s =
    if s.context.mode == Mode.child then clear_peer_list s else delete_peer (some peer) s

unfoldable pub send_cancel_packet : Mac → Bytes → Room → Room
send_cancel_packet mac opt s =
    let sent = send_buffer Opcode.cancel mac opt s in
    drop_cancelled (find_peer mac (peers sent)) sent

-- _sendBulkDataPacket
unfoldable pub send_bulk_to : Option Member → Mac → Bytes → Room → Room
send_bulk_to none mac bytes s = s
send_bulk_to (some peer) mac bytes s =
    let sent = transmit mac (data_packet Opcode.bulk bytes) (allocated s) in
    let told = spawn_local_event Notice.data_ack mac [] (set_sending 0 peer.node sent) in
    if address s == null then allocated s else told

unfoldable pub send_bulk_data_packet : Mac → Bytes → Room → Room
send_bulk_data_packet mac bytes s = send_bulk_to (find_peer mac (peers s)) mac bytes s

-- _sendBirthPacket: the loop over the peers.
unfoldable pub birth_loop : Ptr → Mac → List Member → Room → Room
birth_loop newborn mac [] s = s
birth_loop newborn mac (p ∷ ps) s =
    let told = transmit p.mac (Opcode.birth ∷ mac) s in
    birth_loop newborn mac ps
      (if p.node == newborn then s else if p.state == Peer.child then told else s)

unfoldable pub send_birth_of : Option Member → Mac → Room → Room
send_birth_of none mac s = s
send_birth_of (some newborn) mac s = birth_loop newborn.node mac (peers s) s

unfoldable pub send_birth_packet : Mac → Room → Room
send_birth_packet mac s = send_birth_of (find_peer mac (peers s)) mac s

-- _sendDeathPacket: the loop over the peers, and the deletion.
unfoldable pub death_loop : Ptr → Mac → List Member → Room → Room
death_loop deadkid mac [] s = s
death_loop deadkid mac (p ∷ ps) s =
    let bye = transmit p.mac (Opcode.bye ∷ []) s in
    let told = transmit p.mac (Opcode.death ∷ mac) s in
    death_loop deadkid mac ps
      (if p.node == deadkid then bye else if p.state == Peer.child then told else s)

unfoldable pub send_death_of : Option Member → Mac → Room → Room
send_death_of none mac s = s
send_death_of (some deadkid) mac s =
    delete_peer (some deadkid) (death_loop deadkid.node mac (peers s) s)

unfoldable pub send_death_packet : Mac → Room → Room
send_death_packet mac s = send_death_of (find_peer mac (peers s)) mac s

-- _sendByePacket
unfoldable pub bye_loop : List Member → Room → Room
bye_loop [] s = s
bye_loop (p ∷ ps) s =
    let told = transmit p.mac (Opcode.bye ∷ []) s in
    let met = p.state == Peer.parent || (p.state == Peer.child || p.state == Peer.p2p) in
    bye_loop ps (if met then told else s)

unfoldable pub send_bye_packet : Room → Room
send_bye_packet s = bye_loop (peers s) s

-- One message of the input stack.
unfoldable pub send_one : Message → Room → Room
send_one m s =
    if m.opcode == Opcode.accept
    then send_accept_packet m.mac m.opt s
    else if m.opcode == Opcode.join
    then send_join_packet m.mac m.opt s
    else if m.opcode == Opcode.cancel
    then send_cancel_packet m.mac m.opt s
    else if m.opcode == Opcode.bulk
    then send_bulk_data_packet m.mac m.opt s
    else if m.opcode == Opcode.birth
    then send_birth_packet m.mac s
    else if m.opcode == Opcode.death
    then send_death_packet m.mac s
    else s

-- The loop over the input stack, and _clearStack after it.
unfoldable pub send_loop : List Message → Room → Room
send_loop [] s = s
send_loop (m ∷ ms) s = send_loop ms (send_one m s)

unfoldable pub send_input_stack : Room → Room
send_input_stack s =
    let sent = send_loop s.context.input_stack s in
    record sent { context = record sent.context { input_stack = [] } }
