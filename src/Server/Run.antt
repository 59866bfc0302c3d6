-- ===== src/Server/Run.antt =====
-- The whole run of the server, from its start to its shutdown.
use aemu.Base.{ℕ, ◌≡◌, refl, List, [], ◌∷◌, ◌==◌, arith, inl, inr, Bool-cases}
use aemu.Bytes.{Bytes}
use aemu.Chain.{Ptr, null}
use aemu.Chain.Seg.{IsLists}
use aemu.Database.{Db, initial, status_updated, emit, no_lists}
use aemu.Session.{login_user_stream}
use aemu.Session.Login.{login_user_stream-IsServer}
use aemu.Server.{Accepted, Round, accept_all, run_round, run_rounds, server_loop}
use aemu.Server.Loop.{AllocateTurns, handle_users-run_turns, free_database-empty}
use aemu.Invariant.{View, IsServer, Allocates, no_view, solo}
use aemu.Invariant.Trace.{IsServerBut-spared}

pub no_lists-IsLists : IsLists no_lists (λ _. [])
no_lists-IsLists = record {
  seg = λ o. refl;
  distinct = λ o. tt;
  apart = λ o o' n h k. ground arith;
}

-- The server starts well-formed: with no user and no game.
pub initial-IsServer : IsServer initial no_view
initial-IsServer = record {
  users = none;
  games = none;
  groups = no_lists-IsLists;
  players = no_lists-IsLists;
  user_count = refl;
  user_maximum = omega arith;
  playercount = λ o h. ground arith;
  groupcount = λ o h. ground arith;
  group_playercount = λ o g h. ground arith;
  players_counted = λ g ne. refl;
  user_rounds = omega arith;
  game_rounds = omega arith;
  group_rounds = λ o. omega arith;
  group_owner = λ o g h. ground arith;
  player_of = λ g u h. ground arith;
  in_group = λ u h ne. ground arith;
  in_game = λ u h ne. ground arith;
  clean = λ u h e. refl;
  game_used = λ o h ne. ground arith;
  group_used = λ o g h ne. ground arith;
}
  where
    none : IsLists no_lists (solo [])
    none = record {
      seg = λ o. ground arith;
      distinct = λ o. elim (Bool-cases (o == null)) [ inl t ↦ rw t tt | inr t ↦ rw t tt ];
      apart = λ o o' n h k. ground arith;
    }

-- malloc keeps its promise for every connection that is accepted, and in every round.
abbrev pub AllocateAccepted : List Accepted → Db → Type 0
AllocateAccepted [] s = Unit
AllocateAccepted (c ∷ cs) s =
    Allocates s c.malloc × AllocateAccepted cs (login_user_stream c.fd c.ip c.port c.malloc c.now s)

abbrev pub AllocateRound : Round → Db → Type 0
AllocateRound r s =
    AllocateAccepted r.accepted s
    × ((v : View)
        → IsServer (accept_all r.accepted s) v
        → AllocateTurns r.turns v.users (accept_all r.accepted s))

abbrev pub AllocateRounds : List Round → Db → Type 0
AllocateRounds [] s = Unit
AllocateRounds (r ∷ rs) s = AllocateRound r s × AllocateRounds rs (run_round r s)

accept_all-IsServer :
    (cs : List Accepted) {s : Db} {v : View}
    → IsServer s v
    → AllocateAccepted cs s
    → (v' : View) × IsServer (accept_all cs s) v'
unfolding accept_all
accept_all-IsServer [] {s} {v} i ok = (v, i)
accept_all-IsServer (c ∷ cs) {s} {v} i ok =
    accept_all-IsServer cs (login_user_stream-IsServer i c.fd c.ip c.port c.malloc c.now (ok.0 v i))
      ok.1

-- If malloc returns NULL or a free address each time it is asked, then a round of server_loop
-- (every accepted connection, and then a turn of every user) takes a well-formed state to a
-- well-formed state, whatever recv, time and SQLite answer.
pub run_round-IsServer :
    (r : Round) {s : Db} {v : View}
    → IsServer s v
    → AllocateRound r s
    → (v' : View) × IsServer (run_round r s) v'
unfolding run_round
run_round-IsServer r i ok =
    let (v', j) = accept_all-IsServer r.accepted i ok.0 in
    let (e, w, k) = handle_users-run_turns r.turns j (ok.1 v' j) in (w, rw e k)

run_rounds-IsServer :
    (rs : List Round) {s : Db} {v : View}
    → IsServer s v
    → AllocateRounds rs s
    → (v' : View) × IsServer (run_rounds rs s) v'
unfolding run_rounds
run_rounds-IsServer [] {v} i ok = (v, i)
run_rounds-IsServer (r ∷ rs) i ok =
    let (v', j) = run_round-IsServer r i ok.0 in run_rounds-IsServer rs j ok.1

-- Whatever connections are accepted and whatever recv, time and SQLite answer in each round, if
-- malloc returns NULL or a free address each time it is asked, then server_loop, started with no
-- user, ends in a well-formed state with no user, no game, no group of any game, and a user counter
-- of 0.
pub server_loop-empty :
    (server : ℕ) (notice : Bytes) (rs : List Round)
    → AllocateRounds rs (emit status_updated initial)
    → (v : View) × IsServer (server_loop server notice rs initial) v
      × (v.users ≡ [])
      × (v.games ≡ [])
      × ((o : Ptr) → v.groups o ≡ [])
      × ((server_loop server notice rs initial).user_count ≡ 0)
unfolding server_loop
server_loop-empty server notice rs ok =
    let (v, i) = run_rounds-IsServer rs (IsServerBut-spared initial.user _ initial-IsServer) ok in
    let (w, j, users, games, groups, zeroed) = free_database-empty notice i in
    (w, IsServerBut-spared _ _ j, users, games, groups, zeroed)
