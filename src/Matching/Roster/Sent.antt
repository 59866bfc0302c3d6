-- ===== src/Matching/Roster/Sent.antt =====
-- What the input thread sends, on rosters: the second half of
-- pspnet_adhoc_matching/library/calls/start.c.
use aemu.Base.{ℕ, refl, ◌||◌, Option, none, some, List, [], ◌∷◌, ◌==◌}
use aemu.Bytes.{Bytes}
use aemu.Chain.{Ptr, null}
use aemu.Matching.{Mac, Member, Message, Room, peers, address, allocated, transmit}
use aemu.Matching.Members.{find_peer, clear_peer_list, spawn_local_event}
use aemu.Matching.Send.{
  broadcast_ping, broadcast_hello, send_accept_to, send_accept_packet, send_buffer, send_join_to,
  send_join_packet, drop_cancelled, send_cancel_packet, send_bulk_to, send_bulk_data_packet,
  birth_loop, send_birth_of, send_birth_packet, death_loop, send_death_of, send_death_packet,
  bye_loop, send_bye_packet, send_one, send_loop, send_input_stack,
}
use aemu.Matching.Mode
use aemu.Matching.Peer
use aemu.Matching.Opcode
use aemu.Matching.Roster.{Shrinks}
use aemu.Matching.Roster.Lists.{
  Shrinks-refl, Shrinks-trans, world-Shrinks, allocated-Shrinks, if-Shrinks, touch-Shrinks,
  delete_peer-Shrinks, send_generic_message-Shrinks, clear_loop-Shrinks,
}

pub transmit-Shrinks : (mac : Mac) (bytes : Bytes) (s : Room) → Shrinks s (transmit mac bytes s)
transmit-Shrinks mac bytes s = world-Shrinks s _

pub spawn-Shrinks :
    (notice : ℕ) (mac : Mac) (opt : Bytes) (s : Room)
    → Shrinks s (spawn_local_event notice mac opt s)
unfolding spawn_local_event
spawn-Shrinks notice mac opt s = send_generic_message-Shrinks _ mac notice opt s

-- A packet from an allocated buffer.
sent-Shrinks : (mac : Mac) (bytes : Bytes) (s : Room) → Shrinks s (transmit mac bytes (allocated s))
sent-Shrinks mac bytes s =
    Shrinks-trans (allocated-Shrinks s) (transmit-Shrinks mac bytes (allocated s))

pub broadcast_ping-Shrinks : (s : Room) → Shrinks s (broadcast_ping s)
unfolding broadcast_ping
broadcast_ping-Shrinks s = transmit-Shrinks _ _ s

pub broadcast_hello-Shrinks : (s : Room) → Shrinks s (broadcast_hello s)
unfolding broadcast_hello
broadcast_hello-Shrinks s =
    if-Shrinks (address s == null) (allocated-Shrinks s) (sent-Shrinks _ _ s)

send_accept_to-Shrinks :
    (o : Option Member) (mac : Mac) (opt : Bytes) (s : Room)
    → Shrinks s (send_accept_to o mac opt s)
unfolding send_accept_to
send_accept_to-Shrinks none mac opt s = Shrinks-refl s
send_accept_to-Shrinks (some p) mac opt s =
    if-Shrinks (p.state == Peer.child || p.state == Peer.p2p)
      (if-Shrinks (address s == null) (allocated-Shrinks s)
        (Shrinks-trans (sent-Shrinks mac _ s) (spawn-Shrinks _ mac [] _)))
      (Shrinks-refl s)

send_buffer-Shrinks :
    (opcode : ℕ) (mac : Mac) (opt : Bytes) (s : Room) → Shrinks s (send_buffer opcode mac opt s)
unfolding send_buffer
send_buffer-Shrinks opcode mac opt s =
    if-Shrinks (address s == null) (allocated-Shrinks s) (sent-Shrinks mac _ s)

send_join_to-Shrinks :
    (o : Option Member) (mac : Mac) (opt : Bytes) (s : Room) → Shrinks s (send_join_to o mac opt s)
unfolding send_join_to
send_join_to-Shrinks none mac opt s = Shrinks-refl s
send_join_to-Shrinks (some p) mac opt s =
    if-Shrinks (p.state == Peer.outgoing_request) (send_buffer-Shrinks _ mac opt s) (Shrinks-refl s)

pub clear_peer_list-Shrinks : (s : Room) → Shrinks s (clear_peer_list s)
unfolding clear_peer_list
clear_peer_list-Shrinks s = clear_loop-Shrinks (peers s) s

drop_cancelled-Shrinks : (o : Option Member) (s : Room) → Shrinks s (drop_cancelled o s)
unfolding drop_cancelled
drop_cancelled-Shrinks none s = Shrinks-refl s
drop_cancelled-Shrinks (some p) s =
    if-Shrinks (s.context.mode == Mode.child) (clear_peer_list-Shrinks s)
      (delete_peer-Shrinks (some p) s)

pub send_cancel_packet-Shrinks :
    (mac : Mac) (opt : Bytes) (s : Room) → Shrinks s (send_cancel_packet mac opt s)
unfolding send_cancel_packet
send_cancel_packet-Shrinks mac opt s =
    Shrinks-trans (send_buffer-Shrinks Opcode.cancel mac opt s)
      (drop_cancelled-Shrinks (find_peer mac (peers (send_buffer Opcode.cancel mac opt s))) _)

send_bulk_to-Shrinks :
    (o : Option Member) (mac : Mac) (opt : Bytes) (s : Room) → Shrinks s (send_bulk_to o mac opt s)
unfolding send_bulk_to
send_bulk_to-Shrinks none mac opt s = Shrinks-refl s
send_bulk_to-Shrinks (some p) mac opt s = if-Shrinks (address s == null) (allocated-Shrinks s) (
    Shrinks-trans (sent-Shrinks mac _ s)
      (Shrinks-trans (touch-Shrinks p.node _ _ (λ q. refl)) (spawn-Shrinks _ mac [] _)))

birth_loop-Shrinks :
    (n : Ptr) (mac : Mac) (ps : List Member) (s : Room) → Shrinks s (birth_loop n mac ps s)
unfolding birth_loop
birth_loop-Shrinks n mac [] s = Shrinks-refl s
birth_loop-Shrinks n mac (p ∷ ps) s =
    Shrinks-trans
      (if-Shrinks (p.node == n) (Shrinks-refl s) (
        if-Shrinks (p.state == Peer.child) (transmit-Shrinks p.mac (Opcode.birth ∷ mac) s)
          (Shrinks-refl s)))
      (birth_loop-Shrinks n mac ps _)

send_birth_of-Shrinks :
    (o : Option Member) (mac : Mac) (s : Room) → Shrinks s (send_birth_of o mac s)
unfolding send_birth_of
send_birth_of-Shrinks none mac s = Shrinks-refl s
send_birth_of-Shrinks (some p) mac s = birth_loop-Shrinks p.node mac (peers s) s

death_loop-Shrinks :
    (n : Ptr) (mac : Mac) (ps : List Member) (s : Room) → Shrinks s (death_loop n mac ps s)
unfolding death_loop
death_loop-Shrinks n mac [] s = Shrinks-refl s
death_loop-Shrinks n mac (p ∷ ps) s =
    Shrinks-trans
      (if-Shrinks (p.node == n) (transmit-Shrinks p.mac (Opcode.bye ∷ []) s) (
        if-Shrinks (p.state == Peer.child) (transmit-Shrinks p.mac (Opcode.death ∷ mac) s)
          (Shrinks-refl s)))
      (death_loop-Shrinks n mac ps _)

send_death_of-Shrinks :
    (o : Option Member) (mac : Mac) (s : Room) → Shrinks s (send_death_of o mac s)
unfolding send_death_of
send_death_of-Shrinks none mac s = Shrinks-refl s
send_death_of-Shrinks (some p) mac s =
    Shrinks-trans (death_loop-Shrinks p.node mac (peers s) s) (delete_peer-Shrinks (some p) _)

pub send_death_packet-Shrinks : (mac : Mac) (s : Room) → Shrinks s (send_death_packet mac s)
unfolding send_death_packet
send_death_packet-Shrinks mac s = send_death_of-Shrinks _ mac s

bye_loop-Shrinks : (ps : List Member) (s : Room) → Shrinks s (bye_loop ps s)
unfolding bye_loop
bye_loop-Shrinks [] s = Shrinks-refl s
bye_loop-Shrinks (p ∷ ps) s =
    Shrinks-trans
      (if-Shrinks (p.state == Peer.parent || (p.state == Peer.child || p.state == Peer.p2p))
        (transmit-Shrinks p.mac (Opcode.bye ∷ []) s) (Shrinks-refl s))
      (bye_loop-Shrinks ps _)

pub send_bye_packet-Shrinks : (s : Room) → Shrinks s (send_bye_packet s)
unfolding send_bye_packet
send_bye_packet-Shrinks s = bye_loop-Shrinks (peers s) s

send_one-Shrinks : (m : Message) (s : Room) → Shrinks s (send_one m s)
unfolding send_one send_accept_packet send_join_packet send_bulk_data_packet send_birth_packet
send_one-Shrinks m s =
    if-Shrinks (m.opcode == Opcode.accept) (send_accept_to-Shrinks _ m.mac m.opt s) (
      if-Shrinks (m.opcode == Opcode.join) (send_join_to-Shrinks _ m.mac m.opt s) (
        if-Shrinks (m.opcode == Opcode.cancel) (send_cancel_packet-Shrinks m.mac m.opt s) (
          if-Shrinks (m.opcode == Opcode.bulk) (send_bulk_to-Shrinks _ m.mac m.opt s) (
            if-Shrinks (m.opcode == Opcode.birth) (send_birth_of-Shrinks _ m.mac s) (
              if-Shrinks (m.opcode == Opcode.death) (send_death_packet-Shrinks m.mac s)
                (Shrinks-refl s))))))

send_loop-Shrinks : (ms : List Message) (s : Room) → Shrinks s (send_loop ms s)
unfolding send_loop
send_loop-Shrinks [] s = Shrinks-refl s
send_loop-Shrinks (m ∷ ms) s =
    Shrinks-trans (send_one-Shrinks m s) (send_loop-Shrinks ms (send_one m s))

pub send_input_stack-Shrinks : (s : Room) → Shrinks s (send_input_stack s)
unfolding send_input_stack
send_input_stack-Shrinks s =
    let sent = send_loop-Shrinks s.context.input_stack s in
    record { id = sent.id; mode = sent.mode; maxpeers = sent.maxpeers; counts = sent.counts }
