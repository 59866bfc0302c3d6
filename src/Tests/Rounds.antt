-- ===== src/Tests/Rounds.antt =====
-- Rounds of the server loop.
use aemu.Base.{◌+◌, ◌≡◌, refl, true, List, [], ◌∷◌, arith, length, count, sym, ◌∙◌}
use aemu.Chain.{Ptr, null}
use aemu.Database.{Db, initial, status_updated, emit}
use aemu.Product.{Statement, Step}
use aemu.Server.{
  Turn, Received, Round, handle_user, handle_users, accept_all, run_round, server_loop,
}
use aemu.Server.Handle.{handle_user-IsServer}
use aemu.Server.Loop.{
  run_turns, AllocateTurns, handle_users-run_turns, nothing_left, free_database-empty,
}
use aemu.Server.Run.{AllocateRound, run_round-IsServer, server_loop-empty}
use aemu.Request.{free_database}
use aemu.Invariant.{View, IsServer, Handled, Allocates}
use aemu.Tests.States.{grouped, grouped_view, grouped-IsServer}

abbrev silent : Statement
silent = record { prepared = true; bound = true; step = Step.finished }

-- A user says one byte, and malloc fails.
abbrev pub ping_turn : Turn
ping_turn = record {
  recv = Received.received 0 [];
  timeout_now = 1;
  recv_now = 2;
  waiting_now = 2;
  logged_in_now = 3;
  malloc = null;
  sqlite = record {
    opened = true;
    crosslink = λ _. silent;
    productid = λ _. silent;
    insert = λ _. silent;
  };
  stale = [];
}

out_of_memory : (s : Db) → Allocates s null
out_of_memory s v i ne = absurd (ne refl)

turns_out_of_memory : (us : List Ptr) (s : Db) → AllocateTurns (λ _. ping_turn) us s
turns_out_of_memory [] s = tt
turns_out_of_memory (u ∷ us) s =
    (out_of_memory s, turns_out_of_memory us (handle_user ping_turn u s))

nil_of_length : (xs : List Ptr) → length xs ≡ 0 → xs ≡ []
nil_of_length [] h = refl
nil_of_length (x ∷ xs) h = ground arith

-- Every address but NULL is free in a server without users.
first_address : (s : Db) → s.user_count ≡ 0 → Allocates s 1
first_address s zeroed v i ne =
    let none = nil_of_length v.users (sym i.user_count ∙ zeroed) in
    let (games, groups, count) = nothing_left i none in
    record {
      ne_null = ne;
      users = rw none refl;
      games = rw games refl;
      groups = λ o. rw (groups o) refl;
    }

-- A connection, and then a turn of every user.
abbrev pub ping_round : Round
ping_round = record {
  accepted = record { fd = 7; ip = 100; port = 50; malloc = 1; now = 0 } ∷ [];
  turns = λ _. ping_turn;
}

pub ping_allocates : (s : Db) → s.user_count ≡ 0 → AllocateRound ping_round s
ping_allocates s zeroed = (
  (first_address s zeroed, tt),
  λ v i. turns_out_of_memory v.users (accept_all ping_round.accepted s),
)

abbrev pub start : Db
start = emit status_updated initial

server_loop-empty_example :
    (v : View) × IsServer (server_loop 3 [] (ping_round ∷ []) initial) v
    × (v.users ≡ [])
    × (v.games ≡ [])
    × ((o : Ptr) → v.groups o ≡ [])
    × ((server_loop 3 [] (ping_round ∷ []) initial).user_count ≡ 0)
server_loop-empty_example = server_loop-empty 3 [] (ping_round ∷ []) (ping_allocates start refl, tt)

-- No connection, and a turn of every user.
abbrev quiet_round : Round
quiet_round = record { accepted = []; turns = λ _. ping_turn }

run_round-IsServer_example : (v : View) × IsServer (run_round quiet_round grouped) v
run_round-IsServer_example =
    run_round-IsServer quiet_round grouped-IsServer
      (tt, λ v i. turns_out_of_memory v.users (accept_all quiet_round.accepted grouped))

handle_user-IsServer_example : Handled 1 grouped_view (handle_user ping_turn 1 grouped)
handle_user-IsServer_example =
    handle_user-IsServer ping_turn 1 grouped-IsServer refl
      (out_of_memory grouped grouped_view grouped-IsServer)

handle_users-run_turns_example :
    (handle_users (grouped.mallocs + 1) (λ _. ping_turn) (grouped.users.head null) grouped
      ≡ run_turns (λ _. ping_turn) (2 ∷ 1 ∷ []) grouped)
    × (v : View) × IsServer (run_turns (λ _. ping_turn) (2 ∷ 1 ∷ []) grouped) v
handle_users-run_turns_example =
    handle_users-run_turns (λ _. ping_turn) grouped-IsServer
      (turns_out_of_memory (2 ∷ 1 ∷ []) grouped)

free_database-empty_example :
    (v : View) × IsServer (free_database [] grouped) v
    × (v.users ≡ [])
    × (v.games ≡ [])
    × ((o : Ptr) → v.groups o ≡ [])
    × ((free_database [] grouped).user_count ≡ 0)
free_database-empty_example = free_database-empty [] grouped-IsServer
