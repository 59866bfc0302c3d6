-- ===== src/Session.antt =====
-- Users come and go: login_user_stream, login_user_data, logout_user and clear_user_rxbuf of
-- pspnet_adhocctl_server/user.c.
pub mod Logout
pub mod Login
pub mod Sockets
use aemu.Base.{
  ℕ, ◌+◌, ◌-◌, ◌≡◌, Bool, true, false, ◌&&◌, ◌||◌, not, List, [], ◌∷◌, ◌++◌, ◌==◌, leb, ltb,
  if◌then◌else◌, update, inc32, dec32, count, replicate, zero, suc, take, drop, get_or,
}
use aemu.Bytes.{Bytes, bytes_eq, strncmp_eq, c_string}
use aemu.Chain.{Ptr, null, Lists, link, unlink, clear_links, find_node, walk}
use aemu.Packet.{Packet, LoginPacket, product_code_length, ether_addr_len, nickname_len}
use aemu.Database.{
  Db, User, Event, sent, closed, freed, status_updated, emit, emit_all, concat_map, cleared_user,
  server_user_maximum, rx_size,
}
use aemu.Product.{Sqlite, valid_product_code, game_product_override}
use aemu.Group.{leave_group, send_to}

-- Allocation to counter in login_user_stream: a cleared user node, in front of the users.
unfoldable pub add_user : ℕ → ℕ → ℕ → Ptr → ℕ → Db → Db
unfolding link clear_links
add_user fd ip port u now s = record s {
  users = link null u (clear_links u s.users);
  players = clear_links u s.players;
  user =
      update s.user u (record cleared_user { stream = fd; ip = ip; port = port; last_recv = now });
  user_game = update s.user_game u null;
  user_group = update s.user_group u null;
  user_count = inc32 s.user_count;
  mallocs = s.mallocs + 1;
}

-- The user with this address and port, or NULL.
unfoldable pub find_user : Db → ℕ → ℕ → Ptr
unfolding find_node
find_user s ip port =
    find_node s.mallocs (λ u. not (not ((s.user u).ip == ip) || not ((s.user u).port == port)))
      s.users.next (s.users.head null)

-- `malloc` is what malloc returns, `now` what time(NULL) returns.
unfoldable pub login_user_stream : ℕ → ℕ → ℕ → Ptr → ℕ → Db → Db
login_user_stream fd ip port malloc now s =
    if ltb s.user_count server_user_maximum && (find_user s ip port == null) && not (malloc == null)
    then emit status_updated (add_user fd ip port malloc now s)
    else emit (closed fd) s

-- "Empty Game Node": unlinked and freed.
unfoldable pub drop_game : Ptr → Db → Db
unfolding unlink
drop_game game s = record s { games = unlink null game s.games; trace = s.trace ++ freed game ∷ [] }

-- "Fix Game Player Count", and what follows.
unfoldable pub quit_game : Ptr → Db → Db
unfolding drop_game
quit_game game s =
    let fixed = record s {
      game_playercount = update s.game_playercount game (dec32 (s.game_playercount game));
    } in
    if fixed.game_playercount game == 0 then drop_game game fixed else fixed

-- logout_user for a user in no group.
unfoldable pub retire : Ptr → Db → Db
unfolding quit_game unlink
retire u s =
    let unlinked = record s { users = unlink null u s.users } in
    let hung_up = emit (closed (unlinked.user u).stream) unlinked in
    let game = hung_up.user_game u in
    let quit = if game == null then hung_up else quit_game game hung_up in
    let gone = emit (freed u) quit in
    emit status_updated (record gone { user_count = dec32 gone.user_count })

-- logout_user calls disconnect_user for a connected user, which is leave_group there.
unfoldable pub logout_user : Ptr → Db → Db
logout_user u s = retire u (if s.user_group u == null then s else leave_group u s)

unfoldable pub valid_login : LoginPacket → Bool
unfolding valid_product_code bytes_eq
valid_login packet =
    valid_product_code packet.game
    && not (bytes_eq packet.mac (replicate ether_addr_len 255))
    && not (bytes_eq packet.mac (replicate ether_addr_len 0))
    && not (get_or packet.name 0 0 == 0)

unfoldable pub find_game : Db → Bytes → Ptr
unfolding find_node strncmp_eq
find_game s code =
    find_node s.mallocs (λ g. strncmp_eq product_code_length (s.game_code g) code) s.games.next
      (s.games.head null)

-- "Game not found": a cleared game node, in front of the games.
unfoldable pub create_game : Bytes → Ptr → Db → Db
unfolding link clear_links
create_game code game s = record s {
  games = link null game (clear_links game s.games);
  game_code = update s.game_code game code;
  game_playercount = update s.game_playercount game 0;
  game_groupcount = update s.game_groupcount game 0;
  groups = record s.groups { head = update s.groups.head game null };
  mallocs = s.mallocs + 1;
}

-- "Game now available"
unfoldable pub enter_game : LoginPacket → Ptr → Ptr → Db → Db
enter_game packet u game s = record s {
  user = update s.user u (record (s.user u) { mac = packet.mac; name = packet.name });
  game_playercount = update s.game_playercount game (inc32 (s.game_playercount game));
  user_game = update s.user_game u game;
}

-- From "Find existing Game" on: NULL stands for a failed malloc.
unfoldable pub join_game : Ptr → LoginPacket → Bytes → Ptr → Db → Db
join_game u packet code malloc s =
    let found = find_game s code in
    let game = if found == null then malloc else found in
    let ready = if (found == null) && not (malloc == null) then create_game code malloc s else s in
    if game == null
    then logout_user u ready
    else emit status_updated (enter_game packet u game ready)

unfoldable pub login_user_data : Sqlite → Ptr → LoginPacket → Ptr → Db → Db
login_user_data db u packet malloc s =
    if valid_login packet
    then (let (code, writes) = game_product_override db packet.game in
        join_game u packet code malloc (emit_all writes s))
    else logout_user u s

-- `clear` is the bit pattern of the int argument; the comparison with rxpos is unsigned.
unfoldable pub clear_user_rxbuf : ℕ → User → User
clear_user_rxbuf clear u =
    let n = if (clear == 0xffff_ffff) || ltb u.rxpos clear then u.rxpos else clear in
    record u { rx = drop n u.rx ++ drop (rx_size - n) u.rx; rxpos = u.rxpos - n }
