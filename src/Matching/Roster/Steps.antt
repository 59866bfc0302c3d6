-- ===== src/Matching/Roster/Steps.antt =====
-- What a room goes through: the entry points of pspnet_adhoc_matching/library/calls.
use aemu.Base.{Option, ℕ, ◌<◌, refl, Bool, List, arith}
use aemu.Matching.{Mac, Room, World, peers}
use aemu.Matching.Members.{find_peer}
use aemu.Matching.Threads.{
  Datagram, event_round, end_event_thread, receive_one, timeout_missing_peers_on_adhocctl,
  handle_timeout,
}
use aemu.Matching.Threads.Input.{Timers, input_round, end_input_thread}
use aemu.Matching.Send.{broadcast_hello, broadcast_ping, send_input_stack}
use aemu.Matching.Calls.Hello.{set_hello_in}
use aemu.Matching.Calls.Run.{start_in, stop_in}
use aemu.Matching.Calls.GetMembers.{get_members_in}
use aemu.Matching.Calls.{Settings, new_context}
use aemu.Matching.Calls.Target.{Given, select_peer, cancel_peer, send_data_to, abort_to}
use aemu.Matching.Roster.{IsRoster}
use aemu.Matching.Roster.Kept.{Shrinks-IsRoster}
use aemu.Matching.Roster.Lists.{world-Shrinks}
use aemu.Matching.Roster.Sent.{
  broadcast_hello-Shrinks, broadcast_ping-Shrinks, send_input_stack-Shrinks,
}
use aemu.Matching.Roster.Switched.{
  start_in-Shrinks, stop_in-Shrinks, set_hello_in-Shrinks, get_members_in-Shrinks,
}
use aemu.Matching.Roster.Rounds.{
  receive_one-IsRoster, timeout_missing-Shrinks, handle_timeout-Shrinks, event_round-Shrinks,
  end_event_thread-Shrinks, input_round-IsRoster, end_input_thread-Shrinks,
}
use aemu.Matching.Roster.Called.{
  select_peer-IsRoster, cancel_peer-IsRoster, send_data_to-IsRoster, abort_to-IsRoster,
}

-- A whole round of a thread, or a part of one under the lock of the peers, the end of a thread, or a
-- call of the game. Between the parts other threads may use the system.
pub data Step : Room → Room → Type 0 where
  input :
      (ds : List Datagram) (missing : Mac → Bool) (timers : Timers) (s : Room)
      → Step s (input_round ds missing (record { timers = timers; room = s })).room
  event : (s : Room) → Step s (event_round s)
  hello : (s : Room) → Step s (broadcast_hello s)
  ping : (s : Room) → Step s (broadcast_ping s)
  messages : (s : Room) → Step s (send_input_stack s)
  datagram : (d : Datagram) (s : Room) → Step s (receive_one d s)
  check : (missing : Mac → Bool) (s : Room) → Step s (timeout_missing_peers_on_adhocctl missing s)
  timeout : (s : Room) → Step s (handle_timeout s)
  elsewhere : (w : World) (s : Room) → Step s (record s { world = w })
  input_end : (s : Room) → Step s (end_input_thread s)
  event_end : (s : Room) → Step s (end_event_thread s)
  start : (g : Given) (setup : Bool) (s : Room) → Step s (start_in g setup s).room
  stop : (s : Room) → Step s (stop_in s).room
  set_hello : (g : Given) (s : Room) → Step s (set_hello_in g s).room
  members : (buflen : Option ℕ) (buf : Bool) (s : Room) → Step s (get_members_in buflen buf s).room
  select :
      (mac : Mac) (g : Given) (s : Room) → Step s (select_peer (find_peer mac (peers s)) g s).room
  cancel :
      (mac : Mac) (g : Given) (s : Room) → Step s (cancel_peer (find_peer mac (peers s)) g s).room
  send :
      (mac : Mac) (g : Given) (s : Room) → Step s (send_data_to (find_peer mac (peers s)) g s).room
  abort : (mac : Mac) (s : Room) → Step s (abort_to (find_peer mac (peers s)) s).room

pub step-IsRoster : {a b : Room} → Step a b → IsRoster a → IsRoster b
step-IsRoster (Step.input ds missing timers s) is = input_round-IsRoster ds missing _ is
step-IsRoster (Step.event s) is = Shrinks-IsRoster (event_round-Shrinks s) is
step-IsRoster (Step.hello s) is = Shrinks-IsRoster (broadcast_hello-Shrinks s) is
step-IsRoster (Step.ping s) is = Shrinks-IsRoster (broadcast_ping-Shrinks s) is
step-IsRoster (Step.messages s) is = Shrinks-IsRoster (send_input_stack-Shrinks s) is
step-IsRoster (Step.datagram d s) is = receive_one-IsRoster d s is
step-IsRoster (Step.check missing s) is = Shrinks-IsRoster (timeout_missing-Shrinks missing s) is
step-IsRoster (Step.timeout s) is = Shrinks-IsRoster (handle_timeout-Shrinks s) is
step-IsRoster (Step.elsewhere w s) is = Shrinks-IsRoster (world-Shrinks s w) is
step-IsRoster (Step.start g setup s) is = Shrinks-IsRoster (start_in-Shrinks g setup s) is
step-IsRoster (Step.stop s) is = Shrinks-IsRoster (stop_in-Shrinks s) is
step-IsRoster (Step.set_hello g s) is = Shrinks-IsRoster (set_hello_in-Shrinks g s) is
step-IsRoster (Step.members buflen buf s) is =
    Shrinks-IsRoster (get_members_in-Shrinks buflen buf s) is
step-IsRoster (Step.input_end s) is = Shrinks-IsRoster (end_input_thread-Shrinks s) is
step-IsRoster (Step.event_end s) is = Shrinks-IsRoster (end_event_thread-Shrinks s) is
step-IsRoster (Step.select mac g s) is = select_peer-IsRoster _ g s is
step-IsRoster (Step.cancel mac g s) is = cancel_peer-IsRoster _ g s is
step-IsRoster (Step.send mac g s) is = send_data_to-IsRoster _ g s is
step-IsRoster (Step.abort mac s) is = abort_to-IsRoster _ s is

pub new_room-IsRoster :
    (a : Settings) (id socket : ℕ) (mac : Mac) (w : World)
    → 1 < a.maxnum
    → IsRoster (record { context = new_context a id socket mac; world = w })
unfolding new_context
new_room-IsRoster a id socket mac w h = record {
  allowed = refl;
  one_parent = omega arith;
  one_p2p = omega arith;
  one_request = omega arith;
  has_room = λ e. omega (arith, h);
}
