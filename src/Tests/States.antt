-- ===== src/Tests/States.antt =====
-- Concrete states of the server, each made by the model's operations.
use aemu.Base.{refl, [], ◌∷◌, arith, replicate, update}
use aemu.Bytes.{Bytes}
use aemu.Chain.{null}
use aemu.Packet.{LoginPacket}
use aemu.Database.{Db, initial}
use aemu.Session.{login_user_stream, add_user, find_user, create_game, enter_game}
use aemu.Session.Login.{login_user_stream-IsServer}
use aemu.Group.{create_group, enter_group}
use aemu.Server.Run.{initial-IsServer}
use aemu.Invariant.{View, IsServer, IsFresh, no_view}
use aemu.Invariant.Games.{create_game-IsServerBut, enter_game-IsServer, IsServerBut-weaken}
use aemu.Invariant.Groups.{create_group-IsServerBut, enter_group-IsServer}

-- One user, at address 1, with the socket 7.
abbrev pub one : Db
one = login_user_stream 7 100 50 1 0 initial

abbrev pub one_view : View
one_view = record no_view { users = 1 ∷ [] }

one-IsFresh : IsFresh no_view 1
one-IsFresh = record { ne_null = ground arith; users = refl; games = refl; groups = λ o. refl }

pub one-IsServer : IsServer one one_view
one-IsServer = login_user_stream-IsServer initial-IsServer 7 100 50 1 0 (λ _. one-IsFresh)

-- A second one from the same address, with another port.
abbrev pub two : Db
two = login_user_stream 8 100 51 2 0 one

abbrev pub two_view : View
two_view = record no_view { users = 2 ∷ 1 ∷ [] }

pub two-IsFresh : IsFresh one_view 2
two-IsFresh = record { ne_null = ground arith; users = refl; games = refl; groups = λ o. refl }

pub two-IsServer : IsServer two two_view
unfolding find_user login_user_stream add_user
two-IsServer = login_user_stream-IsServer one-IsServer 8 100 51 2 0 (λ _. two-IsFresh)

abbrev pub code : Bytes
code = b'U' ∷ b'L' ∷ b'U' ∷ b'S' ∷ b'1' ∷ b'2' ∷ b'3' ∷ b'4' ∷ b'5' ∷ []

abbrev pub packet : LoginPacket
packet = record { mac = 1 ∷ 2 ∷ 3 ∷ 4 ∷ 5 ∷ 6 ∷ []; name = b'P' ∷ replicate 127 0; game = code }

-- Both play a game, the node 9.
abbrev pub playing : Db
playing = enter_game packet 2 9 (enter_game packet 1 9 (create_game code 9 two))

abbrev pub playing_view : View
playing_view = record two_view { games = 9 ∷ [] }

nine-IsFresh : IsFresh two_view 9
nine-IsFresh = record { ne_null = ground arith; users = refl; games = refl; groups = λ o. refl }

pub playing-IsServer : IsServer playing playing_view
unfolding login_user_stream add_user find_user create_game enter_game
playing-IsServer =
    enter_game-IsServer packet 2 9
      (IsServerBut-weaken 9 null (
        enter_game-IsServer packet 1 9 (create_game-IsServerBut code 9 two-IsServer nine-IsFresh)
          refl refl refl))
      refl refl refl

abbrev pub group_name : Bytes
group_name = b'A' ∷ b'B' ∷ 0 ∷ 0 ∷ 0 ∷ 0 ∷ 0 ∷ 0 ∷ []

-- The user 1 has a group, the node 11.
abbrev pub hosting : Db
hosting = enter_group 1 11 (create_group 9 group_name 11 playing)

abbrev pub hosting_view : View
hosting_view = record playing_view {
  groups = update no_view.groups 9 (11 ∷ []);
  players = update no_view.players 11 (1 ∷ []);
}

pub eleven-IsFresh : IsFresh playing_view 11
eleven-IsFresh = record { ne_null = ground arith; users = refl; games = refl; groups = λ o. refl }

pub hosting-IsServer : IsServer hosting hosting_view
unfolding login_user_stream add_user find_user create_game enter_game create_group enter_group
hosting-IsServer =
    enter_group-IsServer 1 11
      (create_group-IsServerBut 9 group_name 11 playing-IsServer eleven-IsFresh refl) refl refl refl

-- The user 2 has joined.
abbrev pub grouped : Db
grouped = enter_group 2 11 hosting

abbrev pub grouped_view : View
grouped_view = record hosting_view { players = update hosting_view.players 11 (2 ∷ 1 ∷ []) }

pub grouped-IsServer : IsServer grouped grouped_view
unfolding login_user_stream add_user find_user create_game enter_game create_group enter_group
grouped-IsServer =
    enter_group-IsServer 2 11 (IsServerBut-weaken null 11 hosting-IsServer) refl refl refl
