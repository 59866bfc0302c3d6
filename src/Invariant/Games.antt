-- ===== src/Invariant/Games.antt =====
-- The well-formedness where login_user_data makes and joins a game.
use aemu.Base.{
  ◌≡◌, ◌≢◌, refl, [], ◌∷◌, ◌==◌, ◌∈◌, update, arith, eq_cases, inl, inr, count-le-length,
}
use aemu.Bytes.{Bytes}
use aemu.Packet.{LoginPacket}
use aemu.Chain.{Ptr, null, clear_links}
use aemu.Chain.Seg.{IsLists}
use aemu.Chain.Link.{link-IsLists, clear_links-IsLists}
use aemu.Database.{Db}
use aemu.Session.{create_game, enter_game}
use aemu.Invariant.{View, solo, IsServerBut, IsServer, IsFresh}
use aemu.Invariant.Facts.{
  IsLists-solo-link, solo-fresh, ne-null, nil_of_none, count-update, count-none,
}

-- A state with no exception has any.
pub IsServerBut-weaken : {s : Db} {v : View} (o g : Ptr) → IsServer s v → IsServerBut o g s v
IsServerBut-weaken {s} {v} o g i = record {
  users = i.users;
  games = i.games;
  groups = i.groups;
  players = i.players;
  user_count = i.user_count;
  user_maximum = i.user_maximum;
  playercount = i.playercount;
  groupcount = i.groupcount;
  group_playercount = i.group_playercount;
  players_counted = i.players_counted;
  user_rounds = i.user_rounds;
  game_rounds = i.game_rounds;
  group_rounds = i.group_rounds;
  group_owner = i.group_owner;
  player_of = i.player_of;
  in_group = i.in_group;
  in_game = i.in_game;
  clean = i.clean;
  game_used = λ o' h ne. i.game_used o' h (ne-null null o' i.games h);
  group_used = λ o' g' h ne. i.group_used o' g' h (ne-null o' g' i.groups h);
}

module _ {s : Db} {v : View} (code : Bytes) (game : Ptr) (i : IsServer s v)
    (fresh : IsFresh v game) where
  no_groups : v.groups game ≡ []
  no_groups = nil_of_none (v.groups game) (λ g. ground (arith, i.group_owner game g, fresh.games))

  nobody : (w : Ptr) → w ∈ v.users → s.user_game w ≢ game
  nobody w h e = ground (arith, i.in_game w h, fresh.games, fresh.ne_null)

  cleared : (clear_links game s.games).prev game ≡ null
  unfolding clear_links
  cleared = ground arith

  groups_cleared : IsLists (record s.groups { head = update s.groups.head game null }) v.groups
  groups_cleared = record {
    seg = λ o. elim (eq_cases o game) [
      | inl (t, e) ↦ rw (t, e, no_groups) refl
      | inr (t, e) ↦ rw t (i.groups.seg o)
    ];
    distinct = i.groups.distinct;
    apart = i.groups.apart;
  }

  -- The new game has no player yet.
  pub create_game-IsServerBut :
      IsServerBut game null (create_game code game s) (record v { games = game ∷ v.games })
  unfolding create_game
  create_game-IsServerBut = record {
    users = i.users;
    games = IsLists-solo-link v.games game (
        link-IsLists null game
          (clear_links-IsLists game i.games (solo-fresh v.games game fresh.games)) fresh.ne_null
          (solo-fresh v.games game fresh.games) cleared);
    groups = groups_cleared;
    players = i.players;
    user_count = i.user_count;
    user_maximum = i.user_maximum;
    playercount = λ o h.
        ground (arith, i.playercount o, fresh.games, count-none s.user_game game v.users nobody);
    groupcount = λ o h. ground (arith, i.groupcount o, no_groups);
    group_playercount = i.group_playercount;
    players_counted = i.players_counted;
    user_rounds = omega (arith, i.user_rounds);
    game_rounds = omega (arith, i.game_rounds);
    group_rounds = λ o. omega (arith, i.group_rounds o);
    group_owner = λ o g h. ground (arith, i.group_owner o g h);
    player_of = i.player_of;
    in_group = i.in_group;
    in_game = λ w h ne. ground (arith, i.in_game w h);
    clean = i.clean;
    game_used = λ o h ne.
        ground (arith, i.game_used o, ne-null {l = s.games} {xs = solo v.games} null o i.games);
    group_used = i.group_used;
  }

module _ {s : Db} {v : View} (packet : LoginPacket) (u game : Ptr) (i : IsServerBut game null s v)
    (mem : u ∈ v.users) (none : s.user_game u ≡ null) (known : game ∈ v.games) where
  no_group : s.user_group u ≡ null
  no_group = elim (eq_cases (s.user_group u) null) [
    | inl (_, e) ↦ e
    | inr (_, ne) ↦ ground (
      arith,
      i.in_group u mem ne,
      i.group_owner (s.user_game u) (s.user_group u),
      ne-null {l = s.games} {xs = solo v.games} null null i.games,
    )
  ]

  pub enter_game-IsServer : IsServer (enter_game packet u game s) v
  unfolding enter_game
  enter_game-IsServer = record {
    users = i.users;
    games = i.games;
    groups = i.groups;
    players = i.players;
    user_count = i.user_count;
    user_maximum = i.user_maximum;
    playercount = λ o h. ground (
      arith,
      i.playercount o h,
      ne-null {l = s.games} {xs = solo v.games} null o i.games h,
      count-update s.user_game o u game v.users (i.users.distinct null) mem,
      count-le-length (λ w. s.user_game w == o) v.users,
      i.user_maximum,
    );
    groupcount = i.groupcount;
    group_playercount = i.group_playercount;
    players_counted = i.players_counted;
    user_rounds = i.user_rounds;
    game_rounds = i.game_rounds;
    group_rounds = i.group_rounds;
    group_owner = i.group_owner;
    player_of = i.player_of;
    in_group = λ w h ne. ground (arith, i.in_group w h ne, no_group);
    in_game = λ w h ne. ground (arith, i.in_game w h);
    clean = i.clean;
    game_used = λ o h ne. ground (
      arith,
      i.game_used o h,
      i.playercount o h,
      count-le-length (λ w. s.user_game w == o) v.users,
      i.user_maximum,
    );
    group_used = i.group_used;
  }
