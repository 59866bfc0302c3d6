-- ===== src/Invariant/Logout.antt =====
-- The well-formedness where logout_user removes a user and drops a game.
use aemu.Base.{
  ◌+◌, ◌≡◌, ◌≢◌, ◌==◌, if◌then◌else◌, length, has, erase, ◌∈◌, ◌∉◌, update, arith, inl, inr,
  Bool-cases, false, count-le-length, has-erase, length-erase, count-erase, dec32,
}
use aemu.Chain.{Ptr, null, unlink}
use aemu.Chain.Unlink.{unlink-IsLists}
use aemu.Database.{Db}
use aemu.Session.{drop_game}
use aemu.Invariant.{View, solo, IsServerBut, IsServer}
use aemu.Invariant.Facts.{IsLists-solo-erase, ne-null, mem_of_pos, count-pos}

-- "Fix User Counter", "Unlink" and "Fix Game Player Count" of logout_user.
abbrev pub remove_user : Ptr → Db → Db
remove_user u s = record s {
  users = unlink null u s.users;
  game_playercount =
      if s.user_game u == null
      then s.game_playercount
      else update s.game_playercount (s.user_game u) (dec32 (s.game_playercount (s.user_game u)));
  user_count = dec32 s.user_count;
}

module _ {s : Db} {v : View} (u : Ptr) (i : IsServer s v) (mem : u ∈ v.users)
    (alone : s.user_group u ≡ null) where
  abbrev without : View
  without = record v { users = erase u v.users }

  shorter : length (erase u v.users) + 1 ≡ length v.users
  shorter = length-erase u v.users mem

  still : (w : Ptr) → has w (erase u v.users) ≡ (if w == u then false else has w v.users)
  still w = has-erase w u v.users (i.users.distinct null)

  -- The game that was left may be empty now.
  pub remove_user-IsServerBut : IsServerBut (s.user_game u) null (remove_user u s) without
  remove_user-IsServerBut = record {
    users = IsLists-solo-erase v.users u (unlink-IsLists null u i.users mem);
    games = i.games;
    groups = i.groups;
    players = i.players;
    user_count = ground (arith, i.user_count, i.user_maximum, shorter);
    user_maximum = omega (arith, i.user_maximum, shorter);
    playercount = λ o h. ground (
      arith,
      i.playercount o h,
      count-erase (λ w. s.user_game w == o) u v.users mem,
      count-le-length (λ w. s.user_game w == o) v.users,
      i.user_maximum,
      ne-null {l = s.games} {xs = solo v.games} null o i.games h,
    );
    groupcount = i.groupcount;
    group_playercount = i.group_playercount;
    players_counted = λ g ne.
        ground
          (arith, i.players_counted g ne, count-erase (λ w. s.user_group w == g) u v.users mem);
    user_rounds = omega (arith, i.user_rounds, shorter);
    game_rounds = i.game_rounds;
    group_rounds = i.group_rounds;
    group_owner = i.group_owner;
    player_of = λ g w m. ground (arith, i.player_of g w m, still w);
    in_group = λ w m ne. i.in_group w (ground (arith, still w)) ne;
    in_game = λ w m ne. i.in_game w (ground (arith, still w)) ne;
    clean = λ w m e. i.clean w (ground (arith, still w)) e;
    game_used = λ o h ne.
        ground (arith, i.game_used o h, ne-null {l = s.games} {xs = solo v.games} null o i.games h);
    group_used = i.group_used;
  }

module _ {s : Db} {v : View} (game : Ptr) (i : IsServerBut game null s v) (known : game ∈ v.games)
    (empty : s.game_playercount game ≡ 0) where
  nobody : (w : Ptr) → w ∈ v.users → s.user_game w ≢ game
  nobody w h e = omega (arith, i.playercount game known, count-pos s.user_game game w v.users h e)

  -- A game without players has no groups either: freeing it leaves no group behind.
  no_groups : (g : Ptr) → g ∉ v.groups game
  no_groups g = elim (Bool-cases (has g (v.groups game))) [
    | inr out ↦ out
    | inl m ↦
        let (w, p) =
          mem_of_pos (v.players g)
            (i.group_used game g m (ne-null {l = s.groups} {xs = v.groups} game g i.groups m)) in
        let f = i.player_of g w p in
        let back = i.in_group w f.1 (ground (arith, f)) in
        absurd (nobody w f.1 (i.groups.apart (s.user_game w) game g (rw f.0 at (back.1)) m))
  ]

  pub drop_game-IsServer : IsServer (drop_game game s) (record v { games = erase game v.games })
  unfolding drop_game
  drop_game-IsServer = record {
    users = i.users;
    games = IsLists-solo-erase v.games game (unlink-IsLists null game i.games known);
    groups = i.groups;
    players = i.players;
    user_count = i.user_count;
    user_maximum = i.user_maximum;
    playercount = λ o h. i.playercount o (ground (arith, still o));
    groupcount = λ o h. i.groupcount o (ground (arith, still o));
    group_playercount = i.group_playercount;
    players_counted = i.players_counted;
    user_rounds = i.user_rounds;
    game_rounds = omega (arith, i.game_rounds, length-erase game v.games known);
    group_rounds = i.group_rounds;
    group_owner = λ o g m. ground (arith, i.group_owner o g m, still o, no_groups g);
    player_of = i.player_of;
    in_group = i.in_group;
    in_game = λ w m ne. ground (arith, i.in_game w m ne, still (s.user_game w), nobody w m);
    clean = i.clean;
    game_used = λ o h ne. ground (arith, i.game_used o, still o);
    group_used = i.group_used;
  }
    where
      still : (w : Ptr) → has w (erase game v.games) ≡ (if w == game then false else has w v.games)
      still w = has-erase w game v.games (i.games.distinct null)
