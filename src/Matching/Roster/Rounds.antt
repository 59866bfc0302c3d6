-- ===== src/Matching/Roster/Rounds.antt =====
-- The rounds of the two threads of pspnet_adhoc_matching/library/calls/start.c, on rosters.
use aemu.Base.{
  ℕ, zero, suc, ◌+◌, ◌-◌, ◌%◌, ◌^◌, refl, Bool, true, false, not, ◌&&◌, ◌||◌, List, [], ◌∷◌, ◌==◌,
  ltb, leb, if◌then◌else◌, length, get_or,
}
use aemu.Bytes.{Bytes}
use aemu.Matching.{Mac, Member, Message, Room, peers, tick, time, allocated, is_mac_match}
use aemu.Matching.Members.{find_member, is_none, find_peer}
use aemu.Matching.Threads.{
  Datagram, joining_of, dispatch_one, dispatch_loop, event_round, last_loop, end_event_thread,
  clear_event_stack, act_on_packet, receive_one, receive_loop, check_peer, missing_loop,
  timeout_missing_peers_on_adhocctl, is_timeout, is_told, expire, is_nuked, timeout_loop,
  handle_timeout,
}
use aemu.Matching.Threads.Input.{
  InputState, elapsed, hello_round, ping_round, check_round, input_round, end_input_thread,
}
use aemu.Matching.Receive.{has_slot}
use aemu.Matching.Send.{broadcast_hello, broadcast_ping, send_bye_packet}
use aemu.Matching.Mode
use aemu.Matching.Peer
use aemu.Matching.Notice
use aemu.Matching.Opcode
use aemu.Matching.Roster.{IsRoster, Shrinks}
use aemu.Matching.Roster.Lists.{
  Shrinks-refl, Shrinks-trans, tick-Shrinks, allocated-Shrinks, act-Shrinks, if-Shrinks,
  touch-Shrinks,
}
use aemu.Matching.Roster.Sent.{
  spawn-Shrinks, broadcast_hello-Shrinks, broadcast_ping-Shrinks, send_input_stack-Shrinks,
  send_death_packet-Shrinks, send_cancel_packet-Shrinks, send_bye_packet-Shrinks,
  clear_peer_list-Shrinks,
}
use aemu.Matching.Roster.Kept.{Shrinks-IsRoster}
use aemu.Matching.Roster.Received.{
  ping-Shrinks, hello-IsRoster, join-IsRoster, bulk-Shrinks, birth-IsRoster, death-Shrinks,
}
use aemu.Matching.Roster.Answered.{accept-IsRoster}
use aemu.Matching.Roster.Left.{cancel-Shrinks, bye-Shrinks}

dispatch_loop-Shrinks : (ms : List Message) (s : Room) → Shrinks s (dispatch_loop ms s)
unfolding dispatch_loop dispatch_one
dispatch_loop-Shrinks [] s = Shrinks-refl s
dispatch_loop-Shrinks (m ∷ ms) s = Shrinks-trans (allocated-Shrinks s) (
    Shrinks-trans
      (if-Shrinks (not (m.opcode == Notice.hello) || joining_of (find_peer m.mac (peers s)) == 0)
        (act-Shrinks _ (allocated s)) (Shrinks-refl (allocated s)))
      (dispatch_loop-Shrinks ms _))

cleared-Shrinks : {s r : Room} → Shrinks s r → Shrinks s (clear_event_stack r)
cleared-Shrinks x = record { id = x.id; mode = x.mode; maxpeers = x.maxpeers; counts = x.counts }

pub event_round-Shrinks : (s : Room) → Shrinks s (event_round s)
unfolding event_round
event_round-Shrinks s = cleared-Shrinks (dispatch_loop-Shrinks s.context.event_stack s)

last_loop-Shrinks : (ms : List Message) (s : Room) → Shrinks s (last_loop ms s)
unfolding last_loop
last_loop-Shrinks [] s = Shrinks-refl s
last_loop-Shrinks (m ∷ ms) s = Shrinks-trans (act-Shrinks _ s) (last_loop-Shrinks ms _)

pub end_event_thread-Shrinks : (s : Room) → Shrinks s (end_event_thread s)
unfolding end_event_thread
end_event_thread-Shrinks s = cleared-Shrinks (last_loop-Shrinks s.context.event_stack s)

if-IsRoster : {a b : Room} (q : Bool) → IsRoster a → IsRoster b → IsRoster (if q then a else b)
if-IsRoster true x y = x
if-IsRoster false x y = y

pub act_on_packet-IsRoster :
    (mac : Mac) (rxbuf : Bytes) (removal : ℕ) (s : Room)
    → IsRoster s
    → IsRoster (act_on_packet mac rxbuf removal s)
unfolding act_on_packet
act_on_packet-IsRoster mac rxbuf removal s is =
    let opcode = get_or rxbuf 0 0 in
    let len = length rxbuf in
    if-IsRoster (opcode == Opcode.ping) (Shrinks-IsRoster (ping-Shrinks mac s) is) (
      if-IsRoster (opcode == Opcode.hello) (hello-IsRoster mac rxbuf len s is) (
        if-IsRoster (opcode == Opcode.join) (join-IsRoster mac rxbuf len s is) (
          if-IsRoster (opcode == Opcode.accept) (accept-IsRoster mac rxbuf len s is) (
            if-IsRoster (opcode == Opcode.cancel)
              (Shrinks-IsRoster (cancel-Shrinks mac rxbuf len removal s) is)
              (if-IsRoster (opcode == Opcode.bulk)
                (Shrinks-IsRoster (bulk-Shrinks mac rxbuf len s) is)
                (if-IsRoster (opcode == Opcode.birth) (birth-IsRoster mac rxbuf len s is) (
                  if-IsRoster (opcode == Opcode.death)
                    (Shrinks-IsRoster (death-Shrinks mac rxbuf len s) is)
                    (if-IsRoster (opcode == Opcode.bye)
                      (Shrinks-IsRoster (bye-Shrinks mac removal s) is) is))))))))

pub receive_one-IsRoster : (d : Datagram) (s : Room) → IsRoster s → IsRoster (receive_one d s)
unfolding receive_one
receive_one-IsRoster d s is =
    if-IsRoster (s.context.port == d.port)
      (act_on_packet-IsRoster d.sender d.bytes _ (tick s) (Shrinks-IsRoster (tick-Shrinks s) is)) is

receive_loop-IsRoster :
    (limit : ℕ) (ds : List Datagram) (s : Room) → IsRoster s → IsRoster (receive_loop limit ds s)
unfolding receive_loop
receive_loop-IsRoster zero ds s is = is
receive_loop-IsRoster (suc limit) [] s is = is
receive_loop-IsRoster (suc limit) (d ∷ ds) s is =
    if-IsRoster (length d.bytes == 0) is
      (receive_loop-IsRoster limit ds (receive_one d s) (receive_one-IsRoster d s is))

check_peer-Shrinks :
    (missing : Mac → Bool) (p : Member) (s : Room) → Shrinks s (check_peer missing p s)
unfolding check_peer
check_peer-Shrinks missing p s = if-Shrinks (p.state == Peer.self) (Shrinks-refl s) (
    if-Shrinks (missing p.mac)
      (if-Shrinks (ltb 3000000 ((time s + (2 ^ 64 - p.last_seen_on_adhocctl)) % 2 ^ 64))
        (Shrinks-trans (tick-Shrinks s) (bye-Shrinks p.mac 0 (tick s))) (tick-Shrinks s))
      (Shrinks-trans (tick-Shrinks s) (touch-Shrinks p.node _ (tick s) (λ q. refl))))

missing_loop-Shrinks :
    (missing : Mac → Bool) (ps : List Member) (s : Room) → Shrinks s (missing_loop missing ps s)
unfolding missing_loop
missing_loop-Shrinks missing [] s = Shrinks-refl s
missing_loop-Shrinks missing (p ∷ ps) s =
    Shrinks-trans
      (if-Shrinks (is_none (find_member (λ q. q.node == p.node) (peers s))) (Shrinks-refl s)
        (check_peer-Shrinks missing p s))
      (missing_loop-Shrinks missing ps _)

pub timeout_missing-Shrinks :
    (missing : Mac → Bool) (s : Room) → Shrinks s (timeout_missing_peers_on_adhocctl missing s)
unfolding timeout_missing_peers_on_adhocctl
timeout_missing-Shrinks missing s = missing_loop-Shrinks missing (peers s) s

expire-Shrinks : (p : Member) (s : Room) → Shrinks s (expire p s)
unfolding expire
expire-Shrinks p s =
    let told =
      if-Shrinks (is_told s.context.mode p.state) (spawn-Shrinks Notice.timeout p.mac [] s)
        (Shrinks-refl s) in
    if-Shrinks (is_mac_match s.world.local_mac p.mac) told (
      if-Shrinks (s.context.mode == Mode.parent)
        (Shrinks-trans told (send_death_packet-Shrinks p.mac _))
        (Shrinks-trans told (send_cancel_packet-Shrinks p.mac [] _)))

timeout_loop-Shrinks : (ps : List Member) (s : Room) → Shrinks s (timeout_loop ps s)
unfolding timeout_loop
timeout_loop-Shrinks [] s = Shrinks-refl s
timeout_loop-Shrinks (p ∷ ps) s =
    let due = is_timeout p (time s) s.context.timeout && p.joining == 0 in
    let expired = Shrinks-trans (tick-Shrinks s) (expire-Shrinks p (tick s)) in
    if-Shrinks (due && is_nuked p (expire p (tick s))) expired
      (Shrinks-trans (if-Shrinks due expired (tick-Shrinks s)) (timeout_loop-Shrinks ps _))

pub handle_timeout-Shrinks : (s : Room) → Shrinks s (handle_timeout s)
unfolding handle_timeout
handle_timeout-Shrinks s =
    if-Shrinks (s.context.keepalive_int == 0) (Shrinks-refl s) (timeout_loop-Shrinks (peers s) s)

-- A round's choice, on its room.
if-round :
    {s : Room} (a b : InputState) (q : Bool)
    → Shrinks s a.room
    → Shrinks s b.room
    → Shrinks s (if q then a else b).room
if-round a b true x y = x
if-round a b false x y = y

hello_round-Shrinks : (r : InputState) → Shrinks r.room (hello_round r).room
unfolding hello_round
hello_round-Shrinks r =
    let s = r.room in
    let sent = broadcast_hello (tick s) in
    let told : InputState = record {
      timers = record r.timers { lasthello = time sent };
      room = tick sent;
    } in
    let waits : InputState = record r { room = tick s } in
    if-round _ _ (has_slot s.context && ltb 0 s.context.hello_int)
      (if-round told waits (leb s.context.hello_int (elapsed r.timers.lasthello s))
        (Shrinks-trans (tick-Shrinks s)
          (Shrinks-trans (broadcast_hello-Shrinks (tick s)) (tick-Shrinks sent)))
        (tick-Shrinks s))
      (Shrinks-refl s)

ping_round-Shrinks : (r : InputState) → Shrinks r.room (ping_round r).room
unfolding ping_round
ping_round-Shrinks r =
    let s = r.room in
    let sent = broadcast_ping (tick s) in
    let told : InputState = record {
      timers = record r.timers { lastping = time sent };
      room = tick sent;
    } in
    let waits : InputState = record r { room = tick s } in
    if-round told waits (leb 500000 (elapsed r.timers.lastping s))
      (Shrinks-trans (tick-Shrinks s)
        (Shrinks-trans (broadcast_ping-Shrinks (tick s)) (tick-Shrinks sent)))
      (tick-Shrinks s)

check_round-Shrinks :
    (missing : Mac → Bool) (r : InputState) → Shrinks r.room (check_round missing r).room
unfolding check_round timeout_missing_peers_on_adhocctl
check_round-Shrinks missing r =
    let s = tick r.room in
    let checked : InputState = record {
      timers = record r.timers { last_adhocctl_check = time s };
      room = missing_loop missing (peers (tick s)) (tick s);
    } in
    let waits : InputState = record r { room = s } in
    if-round checked waits (ltb 1000000 (elapsed r.timers.last_adhocctl_check r.room))
      (Shrinks-trans (tick-Shrinks r.room)
        (Shrinks-trans (tick-Shrinks s) (missing_loop-Shrinks missing (peers (tick s)) (tick s))))
      (tick-Shrinks r.room)

pub input_round-IsRoster :
    (ds : List Datagram) (missing : Mac → Bool) (r : InputState)
    → IsRoster r.room
    → IsRoster (input_round ds missing r).room
unfolding input_round
input_round-IsRoster ds missing r is =
    let begun = ping_round (hello_round r) in
    let stacked =
      Shrinks-trans (hello_round-Shrinks r) (
        Shrinks-trans (ping_round-Shrinks (hello_round r)) (send_input_stack-Shrinks begun.room)) in
    let received = receive_loop-IsRoster 20 ds _ (Shrinks-IsRoster stacked is) in
    Shrinks-IsRoster (Shrinks-trans (check_round-Shrinks missing _) (handle_timeout-Shrinks _))
      received

pub end_input_thread-Shrinks : (s : Room) → Shrinks s (end_input_thread s)
unfolding end_input_thread
end_input_thread-Shrinks s =
    Shrinks-trans (send_bye_packet-Shrinks s) (clear_peer_list-Shrinks (send_bye_packet s))
