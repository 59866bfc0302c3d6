-- ===== src/Database.antt =====
-- The server's state: the nodes of pspnet_adhocctl_server/user.h and the globals of user.c. Each
-- field of a struct is a store of its own, from the address of a node to the field's value; the
-- fields that no list statement touches are kept together. What the process does to its sockets, its
-- files and its memory is a trace, oldest first.
use aemu.Base.{ℕ, ◌-◌, List, [], ◌∷◌, ◌++◌, replicate, ◌==◌, if◌then◌else◌, leb}
use aemu.Bytes.{Bytes}
use aemu.Chain.{Ptr, null, Lists}
use aemu.Packet.{Packet, nickname_len, ether_addr_len, product_code_length}

abbrev pub server_user_maximum : ℕ
server_user_maximum = 1024

abbrev pub server_user_timeout : ℕ
server_user_timeout = 15

abbrev pub rx_size : ℕ
rx_size = 1024

-- SceNetAdhocctlUserNode, without its list and owner pointers
pub record User : Type 0 where
  pub mac : Bytes
  pub ip : ℕ
  pub name : Bytes
  pub stream : ℕ
  pub last_recv : ℕ
  pub rx : Bytes
  pub rxpos : ℕ
  pub port : ℕ

pub data Event : Type 0 where
  sent : (fd : ℕ) → Packet → Event
  closed : (fd : ℕ) → Event
  freed : Ptr → Event
  product_inserted : Bytes → Event
  status_updated : Event

pub record Db : Type 0 where
  -- _db_user_count, _db_user and _db_game
  pub user_count : ℕ
  pub users : Lists
  pub games : Lists
  -- the user nodes
  pub user : Ptr → User
  pub user_game : Ptr → Ptr
  pub user_group : Ptr → Ptr
  -- the game nodes; their group lists are owned by the game
  pub game_code : Ptr → Bytes
  pub game_playercount : Ptr → ℕ
  pub game_groupcount : Ptr → ℕ
  pub groups : Lists
  -- the group nodes; their player lists are owned by the group
  pub group_game : Ptr → Ptr
  pub group_name : Ptr → Bytes
  pub group_playercount : Ptr → ℕ
  pub players : Lists
  -- how often malloc gave a node: no list is longer, so this many rounds end every loop over one
  pub mallocs : ℕ
  pub trace : List Event

abbrev pub emit_all : List Event → Db → Db
emit_all es s = record s { trace = s.trace ++ es }

abbrev pub emit : Event → Db → Db
emit e = emit_all (e ∷ [])

abbrev pub concat_map : (Ptr → List Event) → List Ptr → List Event
concat_map f [] = []
concat_map f (p ∷ ps) = f p ++ concat_map f ps

-- `memset(user, 0, sizeof(SceNetAdhocctlUserNode))`
abbrev pub cleared_user : User
cleared_user = record {
  mac = replicate ether_addr_len 0;
  ip = 0;
  name = replicate nickname_len 0;
  stream = 0;
  last_recv = 0;
  rx = replicate rx_size 0;
  rxpos = 0;
  port = 0;
}

abbrev pub no_lists : Lists
no_lists = record { head = λ _. null; next = λ _. null; prev = λ _. null }

-- The program's start.
abbrev pub initial : Db
initial = record {
  user_count = 0;
  users = no_lists;
  games = no_lists;
  user = λ _. cleared_user;
  user_game = λ _. null;
  user_group = λ _. null;
  game_code = λ _. replicate product_code_length 0;
  game_playercount = λ _. 0;
  game_groupcount = λ _. 0;
  groups = no_lists;
  group_game = λ _. null;
  group_name = λ _. replicate 8 0;
  group_playercount = λ _. 0;
  players = no_lists;
  mallocs = 0;
  trace = [];
}

-- get_user_state of user.c; `now` is what time(NULL) returns.
pub data UserState : Type 0 where
  waiting logged_in timed_out : UserState

unfoldable pub get_user_state : ℕ → Ptr → Db → UserState
get_user_state now u s =
    if leb server_user_timeout (now - (s.user u).last_recv)
    then UserState.timed_out
    else if s.user_game u == null
    then UserState.waiting
    else UserState.logged_in
