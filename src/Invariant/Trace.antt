-- ===== src/Invariant/Trace.antt =====
-- The well-formedness under changes of the trace and of the users' own data.
use aemu.Base.{◌<◌, List, arith, eq_cases, inl, inr, ◌∈◌, length}
use aemu.Chain.{Ptr, null}
use aemu.Database.{Db, User, Event}
use aemu.Invariant.{View, IsServerBut}

pub IsServerBut-spared :
    {s : Db} {v : View} {o g : Ptr} (user : Ptr → User) (trace : List Event)
    → IsServerBut o g s v
    → IsServerBut o g (record s { user = user; trace = trace }) v
IsServerBut-spared user trace i = record {
  users = i.users;
  games = i.games;
  groups = i.groups;
  players = i.players;
  user_count = i.user_count;
  user_maximum = i.user_maximum;
  playercount = i.playercount;
  groupcount = i.groupcount;
  group_playercount = i.group_playercount;
  players_counted = i.players_counted;
  user_rounds = i.user_rounds;
  game_rounds = i.game_rounds;
  group_rounds = i.group_rounds;
  group_owner = i.group_owner;
  player_of = i.player_of;
  in_group = i.in_group;
  in_game = i.in_game;
  clean = i.clean;
  game_used = i.game_used;
  group_used = i.group_used;
}

-- What is known of an exception that is no exception.
pub IsServerBut-settle_group :
    {s : Db} {v : View} {o g : Ptr}
    → IsServerBut o g s v
    → ((p : Ptr) → g ∈ v.groups p → 0 < length (v.players g))
    → IsServerBut o null s v
IsServerBut-settle_group {s} {v} {o} {g} i used = record {
  users = i.users;
  games = i.games;
  groups = i.groups;
  players = i.players;
  user_count = i.user_count;
  user_maximum = i.user_maximum;
  playercount = i.playercount;
  groupcount = i.groupcount;
  group_playercount = i.group_playercount;
  players_counted = i.players_counted;
  user_rounds = i.user_rounds;
  game_rounds = i.game_rounds;
  group_rounds = i.group_rounds;
  group_owner = i.group_owner;
  player_of = i.player_of;
  in_group = i.in_group;
  in_game = i.in_game;
  clean = i.clean;
  game_used = i.game_used;
  group_used = λ p h m ne. elim (eq_cases h g) [
    | inl (t, e) ↦ ground (arith, used p)
    | inr (t, e) ↦ i.group_used p h m e
  ];
}

pub IsServerBut-settle_game :
    {s : Db} {v : View} {o g : Ptr}
    → IsServerBut o g s v
    → (o ∈ v.games → 0 < s.game_playercount o)
    → IsServerBut null g s v
IsServerBut-settle_game {s} {v} {o} {g} i used = record {
  users = i.users;
  games = i.games;
  groups = i.groups;
  players = i.players;
  user_count = i.user_count;
  user_maximum = i.user_maximum;
  playercount = i.playercount;
  groupcount = i.groupcount;
  group_playercount = i.group_playercount;
  players_counted = i.players_counted;
  user_rounds = i.user_rounds;
  game_rounds = i.game_rounds;
  group_rounds = i.group_rounds;
  group_owner = i.group_owner;
  player_of = i.player_of;
  in_group = i.in_group;
  in_game = i.in_game;
  clean = i.clean;
  game_used = λ p h ne. elim (eq_cases p o) [
    | inl (t, e) ↦ ground (arith, used)
    | inr (t, e) ↦ i.game_used p h e
  ];
  group_used = i.group_used;
}
