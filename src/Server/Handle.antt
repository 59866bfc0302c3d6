-- ===== src/Server/Handle.antt =====
-- The well-formedness of the state after a user's turn of server_loop.
use aemu.Base.{
  ℕ, ◌≡◌, ◌≢◌, refl, Bool, false, true, ◌∷◌, ◌∈◌, ◌==◌, leb, ltb, get_or, arith, inl, inr,
  Bool-cases, if◌then◌else◌,
}
use aemu.Chain.{Ptr, null}
use aemu.Packet.{login_packet_size, connect_packet_size, chat_packet_size}
use aemu.Packet.Opcode
use aemu.Database.{Db}
use aemu.Session.{logout_user}
use aemu.Session.Logout.{logout_user-IsServer}
use aemu.Session.Login.{login_user_data-IsServer}
use aemu.Request.Connect.{connect_user-IsServer}
use aemu.Request.Leave.{
  disconnect_user-IsServer, send_scan_results-IsServer, spread_message-IsServer,
}
use aemu.Server.{
  Turn, Received, handle_user, handle_data, handle_waiting, handle_logged_in, is_timed_out,
  is_waiting, is_logged_in, handle_received, set_user, write_rx, note_received, consume,
  end_of_stream, error, would_block, received,
}
use aemu.Invariant.{View, IsServer, IsFresh, Handled}
use aemu.Invariant.Trace.{IsServerBut-spared}

-- Both branches of a test.
either :
    (u : Ptr) (v : View) (b : Bool) {x y : Db}
    → Handled u v x
    → Handled u v y
    → Handled u v (if b then x else y)
either u v true h k = h
either u v false h k = k

consume-IsServer : {s : Db} {v : View} (n : ℕ) (u : Ptr) → IsServer s v → IsServer (consume n u s) v
unfolding consume
consume-IsServer {s} n u i = IsServerBut-spared _ s.trace i

user_game-consume : (n : ℕ) (u : Ptr) (s : Db) → (consume n u s).user_game ≡ s.user_game
unfolding consume
user_game-consume n u s = refl

pub game_of_waiting :
    (now : ℕ) (u : Ptr) (s : Db) → is_waiting now u s ≡ true → s.user_game u ≡ null
unfolding is_waiting
game_of_waiting now u s h = ground arith

pub game_of_logged_in :
    (now : ℕ) (u : Ptr) (s : Db) → is_logged_in now u s ≡ true → s.user_game u ≢ null
unfolding is_logged_in
game_of_logged_in now u s h = ground arith

module _ (v : View) (u : Ptr) (mem : u ∈ v.users) where
  logged_out : {s : Db} → IsServer s v → Handled u v (logout_user u s)
  logged_out i = let (v', j, same) = logout_user-IsServer u i mem in (v', j, inr same)

  unchanged : {s : Db} → IsServer s v → Handled u v s
  unchanged i = (v, i, inl refl)

  module _ (turn : Turn) (fresh : turn.malloc ≢ null → IsFresh v turn.malloc) {s : Db}
      (i : IsServer s v) where
    abbrev opcode : ℕ
    opcode = get_or (s.user u).rx 0 0

    abbrev rxpos : ℕ
    rxpos = (s.user u).rxpos

    handle_waiting-IsServer : s.user_game u ≡ null → Handled u v (handle_waiting turn u s)
    unfolding handle_waiting
    handle_waiting-IsServer waiting =
        either u v (opcode == Opcode.login)
          (either u v (leb login_packet_size rxpos)
            (login_user_data-IsServer turn.sqlite u _ turn.malloc
              (consume-IsServer login_packet_size u i) mem
              (rw (user_game-consume login_packet_size u s) waiting) fresh)
            (unchanged i))
          (logged_out i)

    handle_logged_in-IsServer : s.user_game u ≢ null → Handled u v (handle_logged_in turn u s)
    unfolding handle_logged_in
    handle_logged_in-IsServer playing =
        either u v (opcode == Opcode.ping) (unchanged (consume-IsServer 1 u i)) (
          either u v (opcode == Opcode.connect)
            (either u v (leb connect_packet_size rxpos)
              (connect_user-IsServer u _ turn.malloc (consume-IsServer connect_packet_size u i) mem
                (rw (user_game-consume connect_packet_size u s) playing) fresh)
              (unchanged i))
            (either u v (opcode == Opcode.disconnect)
              (disconnect_user-IsServer u (consume-IsServer 1 u i) mem)
              (either u v (opcode == Opcode.scan)
                (send_scan_results-IsServer u (consume-IsServer 1 u i) mem turn.stale)
                (either u v (opcode == Opcode.chat)
                  (either u v (leb chat_packet_size rxpos)
                    (spread_message-IsServer u (consume-IsServer chat_packet_size u i) mem _)
                    (unchanged i))
                  (logged_out i)))))

    handle_data-IsServer : Handled u v (handle_data turn u s)
    unfolding handle_data
    handle_data-IsServer = elim (Bool-cases (is_waiting turn.waiting_now u s)) [
      | inl w ↦ rw w (handle_waiting-IsServer (game_of_waiting turn.waiting_now u s w))
      | inr w ↦ rw w (elim (Bool-cases (is_logged_in turn.logged_in_now u s)) [
        | inl l ↦ rw l (handle_logged_in-IsServer (game_of_logged_in turn.logged_in_now u s l))
        | inr l ↦ rw l (unchanged i)
      ])
    ]

  module _ (turn : Turn) (fresh : turn.malloc ≢ null → IsFresh v turn.malloc) {s : Db}
      (i : IsServer s v) where
    handle_received-IsServer : (r : Received) → Handled u v (handle_received r turn u s)
    unfolding handle_received
    handle_received-IsServer end_of_stream = logged_out i
    handle_received-IsServer error = logged_out i
    handle_received-IsServer would_block =
        either u v (is_timed_out turn.timeout_now u s) (logged_out i)
          (either u v (ltb 0 (s.user u).rxpos) (handle_data-IsServer turn fresh i) (unchanged i))
    handle_received-IsServer (received byte more) =
        let written = set_user u (write_rx (byte ∷ more) (s.user u)) s in
        let noted =
          set_user u (note_received (byte ∷ more) turn.recv_now (written.user u)) written in
        either u v (is_timed_out turn.timeout_now u written)
          (logged_out (IsServerBut-spared written.user s.trace i))
          (handle_data-IsServer turn fresh (IsServerBut-spared noted.user s.trace i))

-- The turn of a user of a well-formed state leaves a well-formed state, whatever recv, time and
-- SQLite answer, if malloc returns NULL or a free address. The user stays among the users or is
-- taken out, and the others stay in their order.
pub handle_user-IsServer :
    {s : Db} {v : View} (turn : Turn) (u : Ptr)
    → IsServer s v
    → u ∈ v.users
    → (turn.malloc ≢ null → IsFresh v turn.malloc)
    → Handled u v (handle_user turn u s)
unfolding handle_user
handle_user-IsServer {s} {v} turn u i mem fresh =
    handle_received-IsServer v u mem turn fresh i turn.recv
