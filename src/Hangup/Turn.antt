-- ===== src/Hangup/Turn.antt =====
-- The sockets in a user's turn of server_loop.
use aemu.Base.{ℕ, refl, ◌∷◌, ◌==◌, leb, ltb, get_or, inl}
use aemu.Chain.{Ptr}
use aemu.Database.{Db}
use aemu.Packet.{login_packet_size, connect_packet_size, chat_packet_size}
use aemu.Packet.Opcode
use aemu.Session.{clear_user_rxbuf}
use aemu.Server.{
  Turn, Received, handle_user, handle_data, handle_waiting, handle_logged_in, is_timed_out,
  is_waiting, is_logged_in, handle_received, set_user, write_rx, note_received, consume,
  end_of_stream, error, would_block, received,
}
use aemu.Hangup.{Silent, Turned, Silent-refl, Turned-after, set_user-Silent, logout_user-Turned}
use aemu.Hangup.Login.{login_user_data-Turned}
use aemu.Hangup.Request.{
  either, connect_user-Turned, disconnect_user-Turned, send_scan_results-Turned,
  spread_message-Turned,
}

consume-Silent : (n : ℕ) (u : Ptr) (s : Db) → Silent s (consume n u s)
unfolding consume clear_user_rxbuf
consume-Silent n u s = set_user-Silent u _ s refl refl

module _ (turn : Turn) (u : Ptr) where
  module _ (s : Db) where
    abbrev opcode : ℕ
    opcode = get_or (s.user u).rx 0 0

    abbrev rxpos : ℕ
    rxpos = (s.user u).rxpos

    handle_waiting-Turned : Turned u s (handle_waiting turn u s)
    unfolding handle_waiting
    handle_waiting-Turned =
        either u (opcode == Opcode.login)
          (either u (leb login_packet_size rxpos)
            (Turned-after u (consume-Silent login_packet_size u s)
              (login_user_data-Turned turn.sqlite u _ turn.malloc _))
            (inl (Silent-refl s)))
          (logout_user-Turned u s)

    handle_logged_in-Turned : Turned u s (handle_logged_in turn u s)
    unfolding handle_logged_in
    handle_logged_in-Turned = either u (opcode == Opcode.ping) (inl (consume-Silent 1 u s)) (
        either u (opcode == Opcode.connect)
          (either u (leb connect_packet_size rxpos)
            (Turned-after u (consume-Silent connect_packet_size u s)
              (connect_user-Turned u _ _ turn.malloc))
            (inl (Silent-refl s)))
          (either u (opcode == Opcode.disconnect)
            (Turned-after u (consume-Silent 1 u s) (disconnect_user-Turned u _))
            (either u (opcode == Opcode.scan)
              (Turned-after u (consume-Silent 1 u s) (send_scan_results-Turned u _ turn.stale))
              (either u (opcode == Opcode.chat)
                (either u (leb chat_packet_size rxpos)
                  (Turned-after u (consume-Silent chat_packet_size u s)
                    (spread_message-Turned u _ _))
                  (inl (Silent-refl s)))
                (logout_user-Turned u s)))))

    handle_data-Turned : Turned u s (handle_data turn u s)
    unfolding handle_data
    handle_data-Turned = either u (is_waiting turn.waiting_now u s) handle_waiting-Turned (
        either u (is_logged_in turn.logged_in_now u s) handle_logged_in-Turned
          (inl (Silent-refl s)))

  handle_received-Turned : (r : Received) (s : Db) → Turned u s (handle_received r turn u s)
  unfolding handle_received write_rx note_received
  handle_received-Turned end_of_stream s = logout_user-Turned u s
  handle_received-Turned error s = logout_user-Turned u s
  handle_received-Turned would_block s =
      either u (is_timed_out turn.timeout_now u s) (logout_user-Turned u s)
        (either u (ltb 0 (s.user u).rxpos) (handle_data-Turned s) (inl (Silent-refl s)))
  handle_received-Turned (received byte more) s =
      let bytes = byte ∷ more in
      let written = set_user u (write_rx bytes (s.user u)) s in
      let first : Silent s written = set_user-Silent u _ s refl refl in
      either u (is_timed_out turn.timeout_now u written)
        (Turned-after u first (logout_user-Turned u written))
        (Turned-after u first (
          Turned-after u
            (set_user-Silent u (note_received bytes turn.recv_now (written.user u)) written refl
              refl)
            (handle_data-Turned _)))

  -- In any state, well-formed or not, and whatever recv, time, malloc and SQLite answer, a user's
  -- turn either leaves the pointers of the list of users as they are and closes no socket, or
  -- unlinks the user's node from that list and closes the user's socket once and no other. No
  -- node's socket, address or port changes.
  pub handle_user-Turned : (s : Db) → Turned u s (handle_user turn u s)
  unfolding handle_user
  handle_user-Turned s = handle_received-Turned turn.recv s
