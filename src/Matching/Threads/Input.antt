-- ===== src/Matching/Threads/Input.antt =====
-- The input thread: _matchingInputThread of pspnet_adhoc_matching/library/calls/start.c.
use aemu.Base.{ℕ, ◌+◌, ◌-◌, ◌%◌, ◌^◌, Bool, ◌&&◌, List, leb, ltb, if◌then◌else◌}
use aemu.Matching.{Mac, Room, time, tick}
use aemu.Matching.Members.{clear_peer_list}
use aemu.Matching.Send.{broadcast_ping, broadcast_hello, send_input_stack, send_bye_packet}
use aemu.Matching.Receive.{has_slot}
use aemu.Matching.Threads.{
  Datagram, receive_loop, timeout_missing_peers_on_adhocctl, handle_timeout,
}

-- The thread's own variables.
pub record Timers : Type 0 where
  pub lastping : ℕ
  pub lasthello : ℕ
  pub last_adhocctl_check : ℕ

pub record InputState : Type 0 where
  pub timers : Timers
  pub room : Room

-- `sceKernelGetSystemTimeWide() - since`
unfoldable pub elapsed : ℕ → Room → ℕ
elapsed since s = (time s + (2 ^ 64 - since)) % 2 ^ 64

-- "Hello Message Broadcast necessary because of Hello Interval"
unfoldable pub hello_round : InputState → InputState
hello_round r =
    let s = r.room in
    let sent = broadcast_hello (tick s) in
    let due = leb s.context.hello_int (elapsed r.timers.lasthello s) in
    let told : InputState = record {
      timers = record r.timers { lasthello = time sent };
      room = tick sent;
    } in
    let waits : InputState = record r { room = tick s } in
    if has_slot s.context && ltb 0 s.context.hello_int then if due then told else waits else r

-- "Ping Required"
unfoldable pub ping_round : InputState → InputState
ping_round r =
    let s = r.room in
    let sent = broadcast_ping (tick s) in
    let told : InputState = record {
      timers = record r.timers { lastping = time sent };
      room = tick sent;
    } in
    if leb 500000 (elapsed r.timers.lastping s) then told else record r { room = tick s }

-- "every second"
unfoldable pub check_round : (Mac → Bool) → InputState → InputState
check_round missing r =
    let s = tick r.room in
    let checked : InputState = record {
      timers = record r.timers { last_adhocctl_check = time s };
      room = timeout_missing_peers_on_adhocctl missing (tick s);
    } in
    if ltb 1000000 (elapsed r.timers.last_adhocctl_check r.room)
    then checked
    else record r { room = s }

-- A round of the thread, with the datagrams that wait and what sceNetAdhocctlGetPeerInfo answers.
unfoldable pub input_round : List Datagram → (Mac → Bool) → InputState → InputState
input_round datagrams missing r =
    let begun = ping_round (hello_round r) in
    let received : InputState = record begun {
      room = receive_loop 20 datagrams (send_input_stack begun.room);
    } in
    let checked = check_round missing received in
    record checked { room = handle_timeout checked.room }

-- The end of the thread.
unfoldable pub end_input_thread : Room → Room
end_input_thread s = clear_peer_list (send_bye_packet s)
