-- ===== src/Tests/Groups.antt =====
-- Groups: who is told what.
use aemu.Base.{◌≡◌, ◌≢◌, refl, Bool, [], ◌∷◌, ◌++◌, arith, ◌==◌}
use aemu.Bytes.{Bytes, c_string}
use aemu.Chain.{Ptr, null}
use aemu.Database.{sent, status_updated}
use aemu.Packet.{Packet}
use aemu.Group.{create_group, enter_group, join_group, leave_group, connect_packet}
use aemu.Group.Leave.{left_view, leave_group-IsServer}
use aemu.Group.Told.{join_group-told, parting}
use aemu.Session.{login_user_stream, add_user, find_user, create_game, enter_game}
use aemu.Request.{disconnect_user, spread_message, send_scan_results}
use aemu.Request.Told.{disconnect_user-told, each, spread_message-told, send_scan_results-told}
use aemu.Invariant.{IsServer}
use aemu.Invariant.Games.{IsServerBut-weaken}
use aemu.Tests.States.{
  hosting, hosting_view, hosting-IsServer, grouped, grouped_view, grouped-IsServer, group_name,
}

in_eleven : grouped.user_group 1 ≢ null
unfolding enter_group
in_eleven = ground arith

abbrev own_ip : Ptr → Bool
own_ip p = (grouped.user 1).ip == (grouped.user p).ip

leave_group-IsServer_example :
    IsServer (leave_group 1 grouped) (left_view 1 grouped-IsServer refl in_eleven)
leave_group-IsServer_example = leave_group-IsServer 1 grouped-IsServer refl in_eleven

disconnect_user-told_example :
    (disconnect_user 1 grouped).trace
    ≡ grouped.trace ++ parting grouped grouped_view 1 ++ [] ++ (status_updated ∷ [])
unfolding enter_group
disconnect_user-told_example =
    disconnect_user-told grouped grouped_view 1 grouped-IsServer refl in_eleven

-- The other player is told twice, since the two share their address.
parting_run :
    parting grouped grouped_view 1
    ≡ sent 8 (Packet.disconnect 100) ∷ sent 8 (Packet.disconnect 100) ∷ []
unfolding enter_group login_user_stream add_user find_user create_game enter_game create_group
parting_run = refl

abbrev message : Bytes
message = b'h' ∷ b'i' ∷ 0 ∷ []

spread_message-told_example :
    (spread_message 1 message grouped).trace
    ≡ grouped.trace
      ++ each
          (λ p. sent (grouped.user p).stream (Packet.chat (c_string message) (grouped.user 1).name))
          (2 ∷ [])
unfolding enter_group
spread_message-told_example =
    spread_message-told grouped grouped_view 1 grouped-IsServer message in_eleven

join_group-told_example :
    (join_group 2 11 hosting).trace
    ≡ hosting.trace
      ++ (sent (hosting.user 1).stream (connect_packet hosting 2)
          ∷ sent (hosting.user 2).stream (connect_packet hosting 1)
          ∷ [])
      ++ (sent (hosting.user 2).stream (Packet.connect_bssid (hosting.user 1).mac) ∷ [])
      ++ (status_updated ∷ [])
join_group-told_example =
    join_group-told hosting hosting_view 2 11 (IsServerBut-weaken null 11 hosting-IsServer)
      (ground arith)

-- A user of the game who is in no group scans.
send_scan_results-told_example :
    (send_scan_results [] 2 hosting).trace
    ≡ (hosting.trace
        ++ (sent (hosting.user 2).stream (Packet.scan group_name (hosting.user 1).mac) ∷ []))
      ++ (sent (hosting.user 2).stream Packet.scan_complete ∷ [])
unfolding login_user_stream add_user find_user create_game enter_game create_group enter_group
send_scan_results-told_example =
    send_scan_results-told hosting hosting_view 2 hosting-IsServer [] refl
