-- ===== src/Tests/Matchings.antt =====
-- The matching library.
use aemu.Base.{
  some, ℕ, ◌+◌, ◌*◌, ◌≡◌, ◌≤◌, ◌<◌, refl, true, false, none, List, [], ◌∷◌, arith, length,
  replicate,
}
use mathlib.Core.List.{reverse}
use aemu.Bytes.{Bytes}
use aemu.Matching.{Mac, Member, Context, World, Room, peers, is_mac_match}
use aemu.Matching.Members.{
  find_peer, find_parent, find_outgoing_request, is_same, count_connected_peers, count_children,
}
use aemu.Matching.Packet.{is_complete_accept, accept_opt, packet_siblings, data_packet}
use aemu.Matching.Send.{accept_bytes, siblings_announced, sibling_macs, send_input_stack}
use aemu.Matching.Receive.Accept.{act_on_accept_packet}
use aemu.Matching.Receive.{act_on_join_packet}
use aemu.Matching.Delivered.{IsAsked, act_on_join_packet-IsAsked}
use aemu.Matching.Kicked.{IsDropped, cancel_peer-told}
use aemu.Matching.Agreed.{child_macs}
use aemu.Matching.Agreed.Answer.{accept_packet-agreed}
use aemu.Matching.Siblings.{accept_bytes-parsed}
use aemu.Matching.Threads.{Datagram}
use aemu.Matching.Threads.Input.{Timers, input_round}
use aemu.Matching.Roster.{IsRoster, is_allowed}
use aemu.Matching.Roster.Steps.{Step}
use aemu.Matching.Roster.Everywhere.{AllRoster}
use aemu.Matching.Roster.Runs.{LibraryStep, LibraryReaches, LibraryReaches-AllRoster}
use aemu.Matching.Calls.{
  matching_init, matching_create, create_context, put_context, has_port, max_id, free_loop,
  find_free_matching_id, find_matching_context, Library, Settings, new_context, delete_found,
  matching_delete, is_free,
}
use aemu.Matching.Calls.Target.{Given, cancel_peer}
use aemu.Matching.Calls.Run.{matching_term}
use aemu.Matching.Calls.Ids.{find_free_matching_id-least}
use aemu.Matching.Calls.GetMembers.{fill_members}
use aemu.Matching.Calls.GetMembers.Filled.{fill_members-length}
use aemu.Matching.Calls.GetMembers.Parent.{fill_members-parent}
use aemu.Matching.Calls.Failed.{Call, run_call, run_call-failed}
use aemu.Matching.Calls.Ended.{matching_term-empty}
use aemu.Matching.Mode
use aemu.Matching.Peer
use aemu.Matching.Opcode

abbrev mac : ℕ → Mac
mac n = replicate 6 n

abbrev parent_settings : Settings
parent_settings = record {
  mode = Mode.parent;
  maxnum = 4;
  port = 7;
  rxbuflen = 1024;
  hello_int = 0;
  keepalive_int = 0;
  init_count = 3;
  rexmt_int = 1000;
}

abbrev world : World
world = record {
  mallocs = 10 ∷ 11 ∷ 12 ∷ 13 ∷ [];
  times = [];
  local_mac = mac 9;
  last_packet_send = 0;
  effects = [];
}

abbrev parent_room : Room
parent_room = record { context = new_context parent_settings 1 5 (mac 9); world = world }

-- A join packet with one byte of data, from the console 1.
abbrev join : Datagram
join = record { sender = mac 1; port = 7; bytes = Opcode.join ∷ 1 ∷ 0 ∷ 0 ∷ 0 ∷ 42 ∷ [] }

abbrev timers : Timers
timers = record { lastping = 0; lasthello = 0; last_adhocctl_check = 0 }

abbrev nothing : Given
nothing = record { len = 0; opt = none }

-- Initialized, then a parent's context, then a round of its input thread.
abbrev no_library : Library
no_library = record { init = 0; poolsize = 0; contexts = []; world = world }

abbrev ready : Library
ready = (run_call (Call.init 32) no_library).library

abbrev created : Library
created = (matching_create parent_settings 5 ready).library

abbrev created_room : Room
created_room = record { context = new_context parent_settings 1 5 (mac 9); world = created.world }

abbrev joined : Room
joined =
    (input_round (join ∷ []) (λ m. false) (record { timers = timers; room = created_room })).room

created-found : find_matching_context 1 created.contexts ≡ some created_room.context
unfolding run_call matching_init matching_create create_context find_matching_context
    find_free_matching_id free_loop max_id has_port new_context
created-found = refl

LibraryReaches-AllRoster_example :
    AllRoster joined.world (put_context 1 joined.context created.contexts)
LibraryReaches-AllRoster_example = LibraryReaches-AllRoster no_library refl (
    LibraryReaches.after
      (LibraryReaches.after
        (LibraryReaches.after LibraryReaches.begin (LibraryStep.call (Call.init 32) no_library))
        (LibraryStep.create parent_settings 5 ready))
      (LibraryStep.thread 1 created created_room.context joined created-found
        (Step.input (join ∷ []) (λ m. false) timers created_room)))

abbrev member : ℕ → ℕ → ℕ → Member
member node n state = record {
  node = node;
  mac = mac n;
  state = state;
  sending = 0;
  lastping = 0;
  last_seen_on_adhocctl = 0;
  joining = 0;
}

-- Three children and a request.
abbrev family : Room
family = record {
  context = record (new_context parent_settings 1 5 (mac 9)) {
    running = true;
    peerlist =
        member 23 3 Peer.child
        ∷ member 24 4 Peer.incoming_request
        ∷ member 22 2 Peer.child
        ∷ member 21 1 Peer.child
        ∷ [];
  };
  world = world;
}

abbrev newcomer : Member
newcomer = member 22 2 Peer.child

accept_bytes-parsed_example :
    (length (accept_bytes newcomer (42 ∷ []) family)
      ≡ 9 + 1 + 6 * siblings_announced family.context)
    × (is_complete_accept
          (accept_bytes newcomer (42 ∷ []) family)
          (length (accept_bytes newcomer (42 ∷ []) family))
        ≡ true)
    × (accept_opt (accept_bytes newcomer (42 ∷ []) family) ≡ 42 ∷ [])
    × (packet_siblings (accept_bytes newcomer (42 ∷ []) family)
        ≡ reverse (sibling_macs 22 (peers family)))
unfolding sibling_macs count_children new_context
accept_bytes-parsed_example =
    accept_bytes-parsed newcomer (42 ∷ []) family refl refl (omega arith) (refl, (refl, tt))

-- A child that asked the parent, the console 9.
abbrev asked : Member
asked = member 31 9 Peer.outgoing_request

abbrev child_room : Room
child_room = record {
  context = record (new_context parent_settings 1 5 (mac 2)) {
    mode = Mode.child;
    running = true;
    peerlist = member 32 8 Peer.offer ∷ asked ∷ [];
  };
  world = record world { mallocs = 40 ∷ 41 ∷ 42 ∷ 43 ∷ 44 ∷ []; local_mac = mac 2 };
}

abbrev answer_bytes : Bytes
answer_bytes = accept_bytes newcomer (42 ∷ []) family

accept_packet-agreed_example :
    child_macs (peers (act_on_accept_packet (mac 9) answer_bytes (length answer_bytes) child_room))
    ≡ sibling_macs 22 (peers family)
unfolding sibling_macs count_children new_context find_parent find_outgoing_request find_peer
    is_same is_mac_match
accept_packet-agreed_example =
    accept_packet-agreed newcomer (42 ∷ []) family refl refl (omega arith) (mac 9) asked child_room
      (refl, (refl, tt)) refl refl refl refl refl (refl, refl, (refl, refl, tt))
      (
        λ e. absurd (omega (arith, e)),
        (
          λ e. absurd (omega (arith, e)),
          (
            λ e. absurd (omega (arith, e)),
            (λ e. absurd (omega (arith, e)), (λ e. absurd (omega (arith, e)), tt)),
          ),
        ),
      )

-- Contexts with the ids 3 and 1.
abbrev contexts : List Context
contexts = new_context parent_settings 3 5 (mac 9) ∷ new_context parent_settings 1 6 (mac 9) ∷ []

find_free_matching_id-least_example :
    (is_free (find_free_matching_id contexts) contexts ≡ true)
    × (1 ≤ find_free_matching_id contexts)
    × ((j : ℕ) → 1 ≤ j → j < find_free_matching_id contexts → is_free j contexts ≡ false)
find_free_matching_id-least_example = find_free_matching_id-least contexts

-- The loop gives 2.
find_free_matching_id_run : find_free_matching_id contexts ≡ 2
unfolding find_free_matching_id free_loop max_id new_context find_matching_context
find_free_matching_id_run = refl

abbrev library : Library
library = record { init = 1; poolsize = 100; contexts = family.context ∷ contexts; world = world }

-- Deleting a context that runs.
run_call-failed_example : (run_call (Call.delete 1) library).library ≡ library
unfolding run_call matching_delete find_matching_context delete_found new_context
run_call-failed_example = run_call-failed (Call.delete 1) library (λ e. absurd (omega (arith, e)))

matching_term-empty_example :
    ((matching_term library).library.contexts ≡ [])
    × ((matching_term library).library.init ≡ 0)
    × ((matching_term library).library.poolsize ≡ 0)
matching_term-empty_example = matching_term-empty library refl

family-IsRoster : IsRoster family
unfolding is_allowed new_context
family-IsRoster = record {
  allowed = refl;
  one_parent = omega arith;
  one_p2p = omega arith;
  one_request = omega arith;
  has_room = λ e. omega arith;
}

fill_members-length_example : length (fill_members 2 family).macs ≤ 2
fill_members-length_example = fill_members-length 2 family

fill_members-parent_example :
    (fill_members (count_connected_peers family.context) family).macs
    ≡ mac 9 ∷ reverse (child_macs (peers family))
unfolding new_context
fill_members-parent_example =
    fill_members-parent family family-IsRoster refl (λ e. absurd (omega (arith, e)))

cancel_peer-told_example :
    IsDropped newcomer [] family
      (send_input_stack (cancel_peer (some newcomer) nothing family).room)
unfolding new_context find_peer is_mac_match count_connected_peers count_children
cancel_peer-told_example =
    cancel_peer-told newcomer nothing family refl refl (omega arith) refl refl refl (
      λ e. absurd (omega (arith, e)),
      (λ e. absurd (omega (arith, e)), (λ e. absurd (omega (arith, e)), tt)),
    )

-- The bytes of a join packet with one byte of data.
abbrev join_bytes : Bytes
join_bytes = data_packet Opcode.join (42 ∷ [])

act_on_join_packet-IsAsked_example :
    IsAsked
      (mac 1)
      (42 ∷ [])
      parent_room
      (act_on_join_packet (mac 1) join_bytes (length join_bytes) parent_room)
unfolding find_peer count_children new_context
act_on_join_packet-IsAsked_example =
    act_on_join_packet-IsAsked (mac 1) (42 ∷ []) parent_room (omega arith) refl (omega arith) refl
      (λ e. absurd (omega (arith, e)), (λ e. absurd (omega (arith, e)), tt))
