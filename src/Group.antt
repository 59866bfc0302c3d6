-- ===== src/Group.antt =====
-- The game groups: the parts of connect_user and disconnect_user of pspnet_adhocctl_server/user.c that
-- run for a user who may join or leave, and the broadcasts to a group's players.
pub mod Leave
pub mod Told
use aemu.Base.{
  ℕ, ◌+◌, ◌-◌, ◌≡◌, Bool, true, false, ◌&&◌, ◌||◌, List, [], ◌∷◌, ◌++◌, ◌==◌, leb, if◌then◌else◌,
  update, inc32, dec32, count, replicate, zero, suc, take,
}
use aemu.Bytes.{Bytes, strncmp_eq}
use aemu.Chain.{Ptr, null, Lists, link, unlink, clear_links, find_node, walk}
use aemu.Packet.{Packet, groupname_len}
use aemu.Database.{Db, Event, sent, freed, status_updated, emit, emit_all, concat_map}

-- The characters before the first NUL are all in A-Z, a-z or 0-9.
unfoldable pub valid_group_name : Bytes → Bool
valid_group_name [] = true
valid_group_name (c ∷ cs) =
    (c == 0)
    || (((leb b'A' c && leb c b'Z') || (leb b'a' c && leb c b'z') || (leb b'0' c && leb c b'9'))
        && valid_group_name cs)

-- `for(peer = g->player; peer != NULL; peer = peer->group_next)`
unfoldable pub players_of : Db → Ptr → List Ptr
players_of s g = walk s.mallocs s.players.next (s.players.head g)

abbrev pub send_to : Db → Ptr → Packet → Event
send_to s p packet = sent (s.user p).stream packet

abbrev pub connect_packet : Db → Ptr → Packet
connect_packet s u = Packet.connect (s.user u).name (s.user u).mac (s.user u).ip

-- The first loop of connect_user: the user is announced to each player, and each player to the user.
unfoldable pub introductions : Db → Ptr → List Ptr → List Event
introductions s u =
    concat_map λ p. send_to s p (connect_packet s u) ∷ send_to s u (connect_packet s p) ∷ []

-- The BSSID: the MAC of the last player, the group's founder, or else the user's own.
unfoldable pub bssid_mac : Db → Bytes → List Ptr → Bytes
bssid_mac s mac [] = mac
bssid_mac s mac (p ∷ ps) = bssid_mac s (if s.players.next p == null then (s.user p).mac else mac) ps

-- "No Group found": a cleared group node, in front of the game's groups.
unfoldable pub create_group : Ptr → Bytes → Ptr → Db → Db
unfolding link clear_links
create_group game name g s = record s {
  groups = link game g (clear_links g s.groups);
  group_game = update s.group_game g game;
  group_name = update s.group_name g name;
  group_playercount = update s.group_playercount g 0;
  players = record s.players { head = update s.players.head g null };
  game_groupcount = update s.game_groupcount game (inc32 (s.game_groupcount game));
  mallocs = s.mallocs + 1;
}

-- "Link User to Group"
unfoldable pub enter_group : Ptr → Ptr → Db → Db
unfolding link
enter_group u g s = record s {
  players = link g u s.players;
  user_group = update s.user_group u g;
  group_playercount = update s.group_playercount g (inc32 (s.group_playercount g));
}

-- "Group now available"
unfoldable pub join_group : Ptr → Ptr → Db → Db
unfolding introductions bssid_mac enter_group players_of
join_group u g s =
    let peers = players_of s g in
    let bssid = bssid_mac s (s.user u).mac peers in
    let entered = enter_group u g (emit_all (introductions s u peers) s) in
    emit status_updated (emit (send_to s u (Packet.connect_bssid bssid)) entered)

unfoldable pub find_group : Db → Ptr → Bytes → Ptr
unfolding find_node strncmp_eq
find_group s game name =
    find_node s.mallocs (λ g. strncmp_eq groupname_len (s.group_name g) name) s.groups.next
      (s.groups.head game)

-- get_num_group_players_with_same_ip
unfoldable pub num_players_with_same_ip : Ptr → Db → ℕ
unfolding players_of
num_players_with_same_ip u s =
    count (λ p. (s.user u).ip == (s.user p).ip) (players_of s (s.user_group u))

-- The loop of disconnect_user over the remaining players: each is told n times.
unfoldable pub notices : Db → ℕ → ℕ → List Ptr → List Event
notices s n ip = concat_map λ p. replicate n (send_to s p (Packet.disconnect ip))

-- The inner loop of reconnect_players_with_ip: to all players but the one.
unfoldable pub announcements : Db → Ptr → List Ptr → List Event
announcements s cur =
    concat_map λ to. if to == cur then [] else send_to s to (connect_packet s cur) ∷ []

-- reconnect_players_with_ip
unfoldable pub reconnections : Db → ℕ → List Ptr → List Event
unfolding announcements
reconnections s ip players =
    concat_map (λ cur. if (s.user cur).ip == ip then announcements s cur players else []) players

-- "Empty Group": unlinked and freed.
unfoldable pub drop_group : Ptr → Ptr → Db → Db
unfolding unlink
drop_group u g s = record s {
  groups = unlink (s.group_game g) g s.groups;
  game_groupcount =
      update s.game_groupcount (s.user_game u) (dec32 (s.game_groupcount (s.user_game u)));
  trace = s.trace ++ freed g ∷ [];
}

-- "Unlink Leftside" to "Fix Player Count"
unfoldable pub exit_group : Ptr → Ptr → Db → Db
unfolding unlink
exit_group u g s = record s {
  players = unlink g u s.players;
  group_playercount = update s.group_playercount g (dec32 (s.group_playercount g));
}

-- "Unlink from Group"
unfoldable pub forget_group : Ptr → Db → Db
unfolding clear_links
forget_group u s = record s {
  user_group = update s.user_group u null;
  players = clear_links u s.players;
}

-- The packets of disconnect_user to the players that remain.
unfoldable pub farewells : Ptr → Db → List Event
unfolding num_players_with_same_ip exit_group players_of notices reconnections
farewells u s =
    let g = s.user_group u in
    let left = exit_group u g s in
    let peers = players_of left g in
    let ip = (s.user u).ip in
    notices left (num_players_with_same_ip u s) ip peers ++ reconnections left ip peers

unfoldable pub tidy_group : Ptr → Ptr → Db → Db
unfolding drop_group
tidy_group u g s = if s.group_playercount g == 0 then drop_group u g s else s

-- disconnect_user, where the user is connected
unfoldable pub leave_group : Ptr → Db → Db
unfolding farewells exit_group tidy_group forget_group
leave_group u s =
    let g = s.user_group u in
    let told = emit_all (farewells u s) (exit_group u g s) in
    emit status_updated (forget_group u (tidy_group u g told))
