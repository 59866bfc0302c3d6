-- ===== src/Invariant/Groups.antt =====
-- The well-formedness where connect_user makes and joins a group.
use aemu.Base.{
  ◌≤◌, ◌<◌, ◌≡◌, ◌≢◌, refl, [], ◌∷◌, ◌==◌, length, count, ◌∈◌, ◌∉◌, update, arith, eq_cases, inl,
  inr, count-le-length,
}
use aemu.Bytes.{Bytes}
use aemu.Chain.{Ptr, null, clear_links}
use aemu.Chain.Seg.{IsLists}
use aemu.Chain.Link.{link-IsLists, clear_links-IsLists}
use aemu.Database.{Db}
use aemu.Group.{create_group, enter_group}
use aemu.Invariant.{View, solo, IsServerBut, IsServer, IsFresh}
use aemu.Invariant.Facts.{ne-null, nil_of_none, count-update, head-mem_of, length-le_of_used}

module _ {s : Db} {v : View} (game : Ptr) (name : Bytes) (g : Ptr) (i : IsServer s v)
    (fresh : IsFresh v g) (known : game ∈ v.games) where
  nobody : (w : Ptr) → w ∈ v.users → s.user_group w ≢ g
  nobody w h e = ground (arith, i.in_group w h, fresh.groups (s.user_game w), fresh.ne_null)

  no_players : v.players g ≡ []
  no_players = nil_of_none (v.players g) (λ u. ground (arith, i.player_of g u, nobody u))

  cleared : (clear_links g s.groups).prev g ≡ null
  unfolding clear_links
  cleared = ground arith

  players_cleared : IsLists (record s.players { head = update s.players.head g null }) v.players
  players_cleared = record {
    seg = λ o. elim (eq_cases o g) [
      | inl (t, e) ↦ rw (t, e, no_players) refl
      | inr (t, e) ↦ rw t (i.players.seg o)
    ];
    distinct = i.players.distinct;
    apart = i.players.apart;
  }

  -- Every group has a player, so there are no more groups than users.
  few_groups : length (v.groups game) ≤ 1024
  few_groups =
      let used = λ (h : Ptr) (m : h ∈ v.groups game).
        let some_player : 0 < length (v.players h) =
          i.group_used game h m (ne-null {l = s.groups} {xs = v.groups} game h i.groups m) in
        let counted : length (v.players h) ≡ count (λ w. s.user_group w == h) v.users =
          i.players_counted h (ne-null {l = s.groups} {xs = v.groups} game h i.groups m) in
        let result : 0 < count (λ w. s.user_group w == h) v.users = omega arith in result in
      omega (
        arith,
        length-le_of_used s.user_group v.users (v.groups game) (i.groups.distinct game) used,
        i.user_maximum,
      )

  group_known : (o h : Ptr) → h ∈ v.groups o → h ≢ g
  group_known o h m e = ground (arith, fresh.groups o)

  -- The new group has no player yet.
  pub create_group-IsServerBut :
      IsServerBut null g
        (create_group game name g s)
        (record v { groups = update v.groups game (g ∷ v.groups game) })
  unfolding create_group
  create_group-IsServerBut = record {
    users = i.users;
    games = i.games;
    groups =
        link-IsLists game g (clear_links-IsLists g i.groups fresh.groups) fresh.ne_null fresh.groups
          cleared;
    players = players_cleared;
    user_count = i.user_count;
    user_maximum = i.user_maximum;
    playercount = i.playercount;
    groupcount = λ o h. ground (arith, i.groupcount o h, few_groups);
    group_playercount = λ o h m. ground (arith, i.group_playercount o h, no_players);
    players_counted = i.players_counted;
    user_rounds = omega (arith, i.user_rounds);
    game_rounds = omega (arith, i.game_rounds);
    group_rounds = λ o. ground (arith, i.group_rounds o);
    group_owner = λ o h m. ground (arith, i.group_owner o h, known, group_known o h);
    player_of = i.player_of;
    in_group = λ w h ne. ground (arith, i.in_group w h ne);
    in_game = i.in_game;
    clean = i.clean;
    game_used = i.game_used;
    group_used = λ o h m ne.
        ground (arith, i.group_used o h, ne-null {l = s.groups} {xs = v.groups} o h i.groups);
  }

module _ {s : Db} {v : View} (u g : Ptr) (i : IsServerBut null g s v) (mem : u ∈ v.users)
    (none : s.user_group u ≡ null) (known : g ∈ v.groups (s.user_game u)) where
  g_ne_null : g ≢ null
  g_ne_null = ne-null {l = s.groups} {xs = v.groups} (s.user_game u) g i.groups known

  u_ne_null : u ≢ null
  u_ne_null = ne-null {l = s.users} {xs = solo v.users} null u i.users mem

  not_player : (h : Ptr) → u ∉ v.players h
  not_player h = ground (arith, i.player_of h u)

  small : length (v.players g) ≤ 1024
  small = omega (
    arith,
    i.players_counted g g_ne_null,
    count-le-length (λ w. s.user_group w == g) v.users,
    i.user_maximum,
  )

  abbrev joined : View
  joined = record v { players = update v.players g (u ∷ v.players g) }

  pub enter_group-IsServer : IsServer (enter_group u g s) joined
  unfolding enter_group
  enter_group-IsServer = record {
    users = i.users;
    games = i.games;
    groups = i.groups;
    players = link-IsLists g u i.players u_ne_null not_player (i.clean u mem none);
    user_count = i.user_count;
    user_maximum = i.user_maximum;
    playercount = i.playercount;
    groupcount = i.groupcount;
    group_playercount = λ o h m. ground (arith, i.group_playercount o h m, small);
    players_counted = λ h ne. ground (
      arith,
      i.players_counted h ne,
      count-update s.user_group h u g v.users (i.users.distinct null) mem,
    );
    user_rounds = i.user_rounds;
    game_rounds = i.game_rounds;
    group_rounds = i.group_rounds;
    group_owner = i.group_owner;
    player_of = λ h w m. ground (arith, i.player_of h w, g_ne_null);
    in_group = λ w m ne. ground (arith, i.in_group w m);
    in_game = i.in_game;
    clean = λ w m e. elim (eq_cases (s.players.head g) null) [
      | inl (t, _) ↦ rw t (ground (arith, i.clean w m, g_ne_null))
      | inr (t, ne) ↦ rw t (
          ground (
            arith,
            i.clean w m,
            g_ne_null,
            i.player_of g (s.players.head g)
                (head-mem_of {l = s.players} {xs = v.players} g i.players ne),
          ))
    ];
    game_used = i.game_used;
    group_used = λ o h m ne. ground (arith, i.group_used o h m);
  }
