-- ===== src/Tests/Sessions.antt =====
-- Login and logout.
use aemu.Base.{◌+◌, ◌≡◌, refl, true, ◌∷◌, arith, ◌==◌, if◌then◌else◌, length, count, ltb, ◌&&◌, not}
use aemu.Chain.{null}
use aemu.Database.{server_user_maximum}
use aemu.Product.{Sqlite, Statement, Step}
use aemu.Session.{
  login_user_stream, login_user_data, logout_user, find_user, add_user, create_game, enter_game,
}
use aemu.Session.Login.{is_taken, login_user_stream-IsServer, login_user_data-IsServer}
use aemu.Session.Logout.{LoggedOut, logout_user-IsServer}
use aemu.Session.Sockets.{closes, logout_user-closes}
use aemu.Request.{connect_user, disconnect_user}
use aemu.Request.Connect.{connect_user-IsServer}
use aemu.Request.Leave.{disconnect_user-IsServer}
use aemu.Invariant.{IsServer, Handled}
use aemu.Tests.States.{
  one, one_view, one-IsServer, two-IsFresh, playing, playing_view, playing-IsServer, eleven-IsFresh,
  grouped, grouped_view, grouped-IsServer, packet, group_name,
}

logout_user-IsServer_example : LoggedOut 1 grouped grouped_view (logout_user 1 grouped)
logout_user-IsServer_example = logout_user-IsServer 1 grouped-IsServer refl

logout_user-closes_example :
    count (closes 7) (logout_user 1 grouped).trace
    ≡ count (closes 7) grouped.trace + (if (grouped.user 1).stream == 7 then 1 else 0)
logout_user-closes_example = logout_user-closes 7 1 grouped

login_user_stream-IsServer_example : IsServer (login_user_stream 8 100 51 2 0 one) (
    if ltb (length one_view.users) server_user_maximum
      && not (is_taken one 100 51 one_view.users)
      && not (2 == null)
    then record one_view { users = 2 ∷ one_view.users }
    else one_view)
login_user_stream-IsServer_example =
    login_user_stream-IsServer one-IsServer 8 100 51 2 0 (λ _. two-IsFresh)

-- No statement finds a row.
abbrev silent : Statement
silent = record { prepared = true; bound = true; step = Step.finished }

abbrev sqlite : Sqlite
sqlite = record {
  opened = true;
  crosslink = λ _. silent;
  productid = λ _. silent;
  insert = λ _. silent;
}

login_user_data-IsServer_example : Handled 1 one_view (login_user_data sqlite 1 packet 2 one)
unfolding login_user_stream find_user add_user
login_user_data-IsServer_example =
    login_user_data-IsServer sqlite 1 packet 2 one-IsServer refl refl (λ _. two-IsFresh)

connect_user-IsServer_example : Handled 1 playing_view (connect_user 1 group_name 11 playing)
unfolding login_user_stream find_user add_user create_game enter_game
connect_user-IsServer_example =
    connect_user-IsServer 1 group_name 11 playing-IsServer refl (ground arith) (λ _. eleven-IsFresh)

disconnect_user-IsServer_example : Handled 1 grouped_view (disconnect_user 1 grouped)
disconnect_user-IsServer_example = disconnect_user-IsServer 1 grouped-IsServer refl
