-- ===== src/Server.antt =====
-- The server loop of pspnet_adhocctl_server/main.c. The outcomes of accept, recv, malloc, time and
-- SQLite are its input: a list of rounds, which ends when a signal clears _status.
pub mod Handle
pub mod Loop
pub mod Run
pub mod Rx
use aemu.Base.{
  ℕ, ◌+◌, ◌-◌, ◌≡◌, Bool, true, false, ◌&&◌, ◌||◌, not, List, [], ◌∷◌, ◌++◌, ◌==◌, leb, ltb,
  if◌then◌else◌, update, replicate, zero, suc, take, drop, length, get_or,
}
use aemu.Bytes.{Bytes, c_string, strncpy}
use aemu.Chain.{Ptr, null}
use aemu.Packet.{
  login_packet_size, connect_packet_size, chat_packet_size, login_packet, connect_packet_group,
  chat_packet_message, message_len,
}
use aemu.Packet.Opcode
use aemu.Database.{Db, User, UserState, get_user_state, Event, closed, emit, status_updated}
use aemu.Product.{Sqlite}
use aemu.Session.{login_user_stream, login_user_data, logout_user, clear_user_rxbuf}
use aemu.Request.{connect_user, disconnect_user, send_scan_results, spread_message, free_database}

-- What recv returned: 0, -1 with EAGAIN or EWOULDBLOCK, -1 with another error, or data.
pub data Received : Type 0 where
  end_of_stream : Received
  would_block : Received
  error : Received
  received : (byte : ℕ) (more : Bytes) → Received

-- The answers that one user's turn may ask for: recv, time(NULL) at its four readings, malloc, SQLite,
-- and what an unwritten MAC on the stack holds.
pub record Turn : Type 0 where
  pub recv : Received
  pub timeout_now : ℕ
  pub recv_now : ℕ
  pub waiting_now : ℕ
  pub logged_in_now : ℕ
  pub malloc : Ptr
  pub sqlite : Sqlite
  pub stale : Bytes

abbrev pub set_user : Ptr → User → Db → Db
set_user u x s = record s { user = update s.user u x }

-- recv into `rx + rxpos`
unfoldable pub write_rx : Bytes → User → User
write_rx bytes x = record x {
  rx = take x.rxpos x.rx ++ (bytes ++ drop (x.rxpos + length bytes) x.rx);
}

-- `rxpos += recvresult`, `last_recv = time(NULL)`
unfoldable pub note_received : Bytes → ℕ → User → User
note_received bytes now x = record x { rxpos = x.rxpos + length bytes; last_recv = now }

-- `clear_user_rxbuf(user, n)` on the user in the database
unfoldable pub consume : ℕ → Ptr → Db → Db
unfolding clear_user_rxbuf
consume n u s = set_user u (clear_user_rxbuf n (s.user u)) s

-- "Waiting for Login Packet"
unfoldable pub handle_waiting : Turn → Ptr → Db → Db
handle_waiting turn u s =
    let rx = (s.user u).rx in
    if get_or rx 0 0 == Opcode.login
    then (if leb login_packet_size (s.user u).rxpos
        then login_user_data turn.sqlite u (login_packet rx) turn.malloc
            (consume login_packet_size u s)
        else s)
    else logout_user u s

-- The message that spread_message is given: 63 characters at most, and a NUL.
unfoldable pub chat_message : Bytes → Bytes
unfolding chat_packet_message strncpy
chat_message rx = strncpy (message_len - 1) (chat_packet_message rx) ++ 0 ∷ []

-- "Logged-In User"
unfoldable pub handle_logged_in : Turn → Ptr → Db → Db
handle_logged_in turn u s =
    let rx = (s.user u).rx in
    let rxpos = (s.user u).rxpos in
    let opcode = get_or rx 0 0 in
    if opcode == Opcode.ping
    then consume 1 u s
    else if opcode == Opcode.connect
    then (if leb connect_packet_size rxpos
        then connect_user u (connect_packet_group rx) turn.malloc (consume connect_packet_size u s)
        else s)
    else if opcode == Opcode.disconnect
    then disconnect_user u (consume 1 u s)
    else if opcode == Opcode.scan
    then send_scan_results turn.stale u (consume 1 u s)
    else if opcode == Opcode.chat
    then (if leb chat_packet_size rxpos
        then spread_message u (chat_message rx) (consume chat_packet_size u s)
        else s)
    else logout_user u s

-- `get_user_state(user) == USER_STATE_...`
unfoldable pub is_waiting : ℕ → Ptr → Db → Bool
unfolding get_user_state
is_waiting now u s = elim (get_user_state now u s) [ UserState.waiting ↦ true | _ ↦ false ]

unfoldable pub is_logged_in : ℕ → Ptr → Db → Bool
unfolding get_user_state
is_logged_in now u s = elim (get_user_state now u s) [ UserState.logged_in ↦ true | _ ↦ false ]

unfoldable pub is_timed_out : ℕ → Ptr → Db → Bool
unfolding get_user_state
is_timed_out now u s = elim (get_user_state now u s) [ UserState.timed_out ↦ true | _ ↦ false ]

-- "Waiting for Login Packet" and "Logged-In User": the state is read once for each test.
unfoldable pub handle_data : Turn → Ptr → Db → Db
handle_data turn u s =
    if is_waiting turn.waiting_now u s
    then handle_waiting turn u s
    else if is_logged_in turn.logged_in_now u s
    then handle_logged_in turn u s
    else s

-- The body of the loop over the users, by what recv returned.
unfoldable pub handle_received : Received → Turn → Ptr → Db → Db
handle_received end_of_stream turn u s = logout_user u s
handle_received error turn u s = logout_user u s
handle_received would_block turn u s =
    if is_timed_out turn.timeout_now u s
    then logout_user u s
    else if ltb 0 (s.user u).rxpos
    then handle_data turn u s
    else s
handle_received (received byte more) turn u s =
    let bytes = byte ∷ more in
    let written = set_user u (write_rx bytes (s.user u)) s in
    if is_timed_out turn.timeout_now u written
    then logout_user u written
    else handle_data turn u
        (set_user u (note_received bytes turn.recv_now (written.user u)) written)

unfoldable pub handle_user : Turn → Ptr → Db → Db
handle_user turn = handle_received turn.recv turn

-- The loop over the users, which reads `next` before the user is handled.
unfoldable pub handle_users : ℕ → (Ptr → Turn) → Ptr → Db → Db
handle_users zero turns u s = s
handle_users (suc fuel) turns u s =
    let rest = handle_users fuel turns (s.users.next u) (handle_user (turns u) u s) in
    if u == null then s else rest

-- A connection that accept returned, with what malloc and time answer at its login.
pub record Accepted : Type 0 where
  pub fd : ℕ
  pub ip : ℕ
  pub port : ℕ
  pub malloc : Ptr
  pub now : ℕ

-- "Login Processing Loop"
unfoldable pub accept_all : List Accepted → Db → Db
accept_all [] s = s
accept_all (c ∷ cs) s = accept_all cs (login_user_stream c.fd c.ip c.port c.malloc c.now s)

pub record Round : Type 0 where
  pub accepted : List Accepted
  pub turns : Ptr → Turn

unfoldable pub run_round : Round → Db → Db
run_round r s =
    let welcomed = accept_all r.accepted s in
    handle_users (welcomed.mallocs + 1) r.turns (welcomed.users.head null) welcomed

unfoldable pub run_rounds : List Round → Db → Db
run_rounds [] s = s
run_rounds (r ∷ rs) s = run_rounds rs (run_round r s)

unfoldable pub server_loop : ℕ → Bytes → List Round → Db → Db
server_loop server notice rounds s =
    emit (closed server) (free_database notice (run_rounds rounds (emit status_updated s)))
