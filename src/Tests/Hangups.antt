-- ===== src/Tests/Hangups.antt =====
-- Sockets over a run.
use aemu.Base.{◌≡◌, refl, [], ◌∷◌}
use aemu.Database.{initial}
use aemu.Server.{handle_user, server_loop, run_rounds}
use aemu.Hangup.{Turned, closings}
use aemu.Hangup.Turn.{handle_user-Turned}
use aemu.Hangup.Addresses.{Addressed, run_rounds-Addressed}
use aemu.Hangup.Run.{server_loop-closings}
use aemu.Tests.States.{grouped}
use aemu.Tests.Rounds.{ping_turn, ping_round, ping_allocates, start}

handle_user-Turned_example : Turned 1 grouped (handle_user ping_turn 1 grouped)
handle_user-Turned_example = handle_user-Turned ping_turn 1 grouped

server_loop-closings_example : closings 7 (server_loop 3 [] (ping_round ∷ []) initial) ≡ 1
server_loop-closings_example =
    server_loop-closings 7 3 [] (ping_round ∷ []) (ping_allocates start refl, tt)

run_rounds-Addressed_example : Addressed (run_rounds (ping_round ∷ []) start)
run_rounds-Addressed_example =
    run_rounds-Addressed (ping_round ∷ []) (ping_allocates start refl, tt)
