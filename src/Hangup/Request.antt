-- ===== src/Hangup/Request.antt =====
-- The sockets in the requests of a logged-in user.
use aemu.Base.{
  refl, Bool, true, false, [], ◌∷◌, ◌==◌, if◌then◌else◌, ◌&&◌, inl, inr, eq_cases, arith,
}
use aemu.Bytes.{Bytes, c_string}
use aemu.Chain.{Ptr, null, walk}
use aemu.Packet.{Packet}
use aemu.Database.{Db, status_updated}
use aemu.Group.{
  valid_group_name, find_group, create_group, enter_group, join_group, introductions, players_of,
  send_to, connect_packet,
}
use aemu.Session.Sockets.{closes, count-concat_map}
use aemu.Request.{
  seek_group, connect_user, disconnect_user, host_mac, scan_packets, send_scan_results,
  spread_message,
}
use aemu.Hangup.{
  Silent, Turned, Silent-trans, emit_all-Silent, logout_user-Turned, leave_group-Silent,
}

create_group-Silent :
    (game : Ptr) (name : Bytes) (g : Ptr) (s : Db) → Silent s (create_group game name g s)
unfolding create_group
create_group-Silent game name g s = record {
  users = refl;
  streams = λ w. refl;
  addresses = λ w. refl;
  closings = λ fd. refl;
}

enter_group-Silent : (u g : Ptr) (s : Db) → Silent s (enter_group u g s)
unfolding enter_group
enter_group-Silent u g s = record {
  users = refl;
  streams = λ w. refl;
  addresses = λ w. refl;
  closings = λ fd. refl;
}

join_group-Silent : (u g : Ptr) (s : Db) → Silent s (join_group u g s)
unfolding join_group introductions
join_group-Silent u g s =
    Silent-trans
      (Silent-trans
        (emit_all-Silent _ s (λ fd.
          count-concat_map (closes fd)
            (λ p. send_to s p (connect_packet s u) ∷ send_to s u (connect_packet s p) ∷ [])
            (players_of s g) (λ p. refl)))
        (enter_group-Silent u g _))
      (Silent-trans (emit_all-Silent _ _ (λ fd. refl))
        (emit_all-Silent (status_updated ∷ []) _ (λ fd. refl)))

seek_group-Turned :
    (u : Ptr) (name : Bytes) (malloc : Ptr) (s : Db) → Turned u s (seek_group u name malloc s)
unfolding seek_group
seek_group-Turned u name malloc s =
    let game = s.user_game u in
    elim (eq_cases (find_group s game name) null) [
      | inl (t, none) ↦ elim (eq_cases malloc null) [
        | inl (m, e) ↦ rw (t, m) (logout_user-Turned u s)
        | inr (m, ne) ↦
            rw (t, m)
              (inl (
                Silent-trans (create_group-Silent game name malloc s)
                  (join_group-Silent u malloc (create_group game name malloc s))))
      ]
      | inr (t, ne) ↦ rw (t, t) (inl (join_group-Silent u (find_group s game name) s))
    ]

module _ (u : Ptr) where
  pub either :
      (b : Bool) {s x y : Db} → Turned u s x → Turned u s y → Turned u s (if b then x else y)
  either true h k = h
  either false h k = k

  module _ (s : Db) where
    pub connect_user-Turned :
        (name : Bytes) (malloc : Ptr) → Turned u s (connect_user u name malloc s)
    unfolding connect_user
    connect_user-Turned name malloc =
        either (valid_group_name name && (s.user_group u == null))
          (seek_group-Turned u name malloc s) (logout_user-Turned u s)

    pub disconnect_user-Turned : Turned u s (disconnect_user u s)
    unfolding disconnect_user
    disconnect_user-Turned =
        either (s.user_group u == null) (logout_user-Turned u s) (inl (leave_group-Silent u s))

    pub send_scan_results-Turned : (stale : Bytes) → Turned u s (send_scan_results stale u s)
    unfolding send_scan_results scan_packets
    send_scan_results-Turned stale =
        either (s.user_group u == null)
          (inl (
            Silent-trans
              (emit_all-Silent _ s (λ fd.
                count-concat_map (closes fd)
                  (λ g.
                    send_to s u (Packet.scan (s.group_name g) (host_mac s stale (players_of s g)))
                    ∷ [])
                  (walk s.mallocs s.groups.next (s.groups.head (s.user_game u))) (λ p. refl)))
              (emit_all-Silent _ _ (λ fd. refl))))
          (logout_user-Turned u s)

    pub spread_message-Turned : (message : Bytes) → Turned u s (spread_message u message s)
    unfolding spread_message
    spread_message-Turned message = either (s.user_group u == null) (logout_user-Turned u s) (
        inl (
          emit_all-Silent _ s (λ fd.
            count-concat_map (closes fd)
              (λ p.
                if p == u
                then []
                else send_to s p (Packet.chat (c_string message) (s.user u).name) ∷ [])
              (players_of s (s.user_group u)) (λ p. ground arith))))
