-- ===== src/Request.antt =====
-- What a logged-in user asks for: connect_user, disconnect_user, send_scan_results and spread_message
-- of pspnet_adhocctl_server/user.c; and free_database.
pub mod Connect
pub mod Leave
pub mod Told
use aemu.Base.{
  ℕ, ◌+◌, ◌-◌, ◌≡◌, Bool, true, false, ◌&&◌, ◌||◌, not, List, [], ◌∷◌, ◌++◌, ◌==◌, leb, ltb,
  if◌then◌else◌, update, replicate, zero, suc, take, length,
}
use aemu.Bytes.{Bytes, c_string}
use aemu.Chain.{Ptr, null, Lists, walk}
use aemu.Packet.{Packet, groupname_len, nickname_len}
use aemu.Database.{Db, Event, sent, closed, freed, status_updated, emit, emit_all, concat_map}
use aemu.Group.{
  valid_group_name, players_of, find_group, create_group, join_group, leave_group, send_to,
}
use aemu.Session.{logout_user}

-- "User is disconnected": NULL stands for a failed malloc.
unfoldable pub seek_group : Ptr → Bytes → Ptr → Db → Db
seek_group u name malloc s =
    let game = s.user_game u in
    let found = find_group s game name in
    let g = if found == null then malloc else found in
    let ready =
      if (found == null) && not (malloc == null) then create_group game name malloc s else s in
    if g == null then logout_user u ready else join_group u g ready

unfoldable pub connect_user : Ptr → Bytes → Ptr → Db → Db
connect_user u name malloc s =
    if valid_group_name name && (s.user_group u == null)
    then seek_group u name malloc s
    else logout_user u s

unfoldable pub disconnect_user : Ptr → Db → Db
disconnect_user u s = if s.user_group u == null then logout_user u s else leave_group u s

-- The MAC of the last player: the group's founder.
unfoldable pub host_mac : Db → Bytes → List Ptr → Bytes
host_mac s mac [] = mac
host_mac s mac (p ∷ ps) = host_mac s (if s.players.next p == null then (s.user p).mac else mac) ps

-- One packet for each group of the game. `stale` is what the stack holds where the packet's MAC is not
-- written, which is for a group with no players.
unfoldable pub scan_packets : Db → Bytes → Ptr → List Event
scan_packets s stale u =
    concat_map
      (λ g. send_to s u (Packet.scan (s.group_name g) (host_mac s stale (players_of s g))) ∷ [])
      (walk s.mallocs s.groups.next (s.groups.head (s.user_game u)))

unfoldable pub send_scan_results : Bytes → Ptr → Db → Db
send_scan_results stale u s =
    if s.user_group u == null
    then emit (send_to s u Packet.scan_complete) (emit_all (scan_packets s stale u) s)
    else logout_user u s

-- spread_message for a user. The bytes behind the message's NUL are not written; the message stands
-- for those that are.
unfoldable pub spread_message : Ptr → Bytes → Db → Db
spread_message u message s =
    if s.user_group u == null
    then logout_user u s
    else emit_all
        (concat_map
          (λ p.
            if p == u
            then []
            else send_to s p (Packet.chat (c_string message) (s.user u).name) ∷ [])
          (players_of s (s.user_group u)))
        s

-- spread_message for NULL: a notice to every user who is in a group.
unfoldable pub spread_notice : Bytes → Db → Db
spread_notice message s =
    emit_all
      (concat_map
        (λ p.
          if s.user_group p == null
          then []
          else send_to s p (Packet.chat (c_string message) (replicate nickname_len 0)) ∷ [])
        (walk s.mallocs s.users.next (s.users.head null)))
      s

-- The loop of free_database, which reads `next` before it frees the user.
unfoldable pub logout_loop : ℕ → Ptr → Db → Db
logout_loop zero u s = s
logout_loop (suc fuel) u s =
    let rest = logout_loop fuel (s.users.next u) (logout_user u s) in if u == null then s else rest

-- `notice` is SERVER_SHUTDOWN_MESSAGE.
unfoldable pub free_database : Bytes → Db → Db
free_database notice s =
    let told = if ltb 0 s.user_count then spread_notice notice s else s in
    logout_loop (told.mallocs + 1) (told.users.head null) told
