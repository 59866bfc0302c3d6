-- ===== src/Invariant/Leaving.antt =====
-- The well-formedness where disconnect_user takes a player out of a group and drops the group.
use aemu.Base.{
  ◌+◌, ◌≤◌, ◌<◌, ◌≡◌, ◌≢◌, ◌==◌, length, count, erase, ◌∈◌, ◌∉◌, update, arith, eq_cases, inl, inr,
  count-le-length, has-erase, length-erase, erase-Distinct,
}
use aemu.Chain.{Ptr, null}
use aemu.Chain.Link.{clear_links-IsLists}
use aemu.Chain.Unlink.{unlink-IsLists}
use aemu.Database.{Db}
use aemu.Group.{exit_group, forget_group, drop_group}
use aemu.Invariant.{View, IsServerBut, IsServer}
use aemu.Invariant.Facts.{ne-null, count-update, length-le_of_used, next-mem_of, pos_of_mem}

module _ {s : Db} {v : View} (u g : Ptr) (i : IsServer s v) (mem : u ∈ v.users)
    (member : s.user_group u ≡ g) (g_ne_null : g ≢ null) where
  abbrev left : View
  left = record v { players = update v.players g (erase u (v.players g)) }

  player : u ∈ v.players g
  player = ground (arith, i.in_group u mem)

  pub known : g ∈ v.groups (s.user_game u)
  known = ground (arith, i.in_group u mem)

  gone : (h : Ptr) → u ∉ left.players h
  gone h = ground (arith, has-erase u u (v.players g) (i.players.distinct g), i.player_of h u)

  pub small : length (v.players g) ≤ 1024
  small = omega (
    arith,
    i.players_counted g g_ne_null,
    count-le-length (λ w. s.user_group w == g) v.users,
    i.user_maximum,
  )

  pub shorter : length (erase u (v.players g)) + 1 ≡ length (v.players g)
  shorter = length-erase u (v.players g) player

  -- The group that was left may be empty now.
  pub exit_group-IsServerBut : IsServerBut null g (forget_group u (exit_group u g s)) left
  unfolding exit_group forget_group
  exit_group-IsServerBut = record {
    users = i.users;
    games = i.games;
    groups = i.groups;
    players = clear_links-IsLists u (unlink-IsLists g u i.players player) gone;
    user_count = i.user_count;
    user_maximum = i.user_maximum;
    playercount = i.playercount;
    groupcount = i.groupcount;
    group_playercount = λ o h m. ground (arith, i.group_playercount o h m, small, shorter);
    players_counted = λ h ne. ground (
      arith,
      i.players_counted h ne,
      count-update s.user_group h u null v.users (i.users.distinct null) mem,
      shorter,
    );
    user_rounds = i.user_rounds;
    game_rounds = i.game_rounds;
    group_rounds = i.group_rounds;
    group_owner = i.group_owner;
    player_of = λ h w m.
        ground (arith, i.player_of h w, has-erase w u (v.players g) (i.players.distinct g));
    in_group = λ w m ne.
        ground (arith, i.in_group w m, has-erase w u (v.players g) (i.players.distinct g));
    in_game = i.in_game;
    clean = λ w m e. elim (eq_cases (s.players.next u) null) [
      | inl (t, _) ↦ rw t (ground (arith, i.clean w m))
      | inr (t, ne) ↦ rw t (
          ground (
            arith,
            i.clean w m,
            g_ne_null,
            i.player_of g (s.players.next u)
                (next-mem_of {l = s.players} {xs = v.players} g u i.players player ne),
          ))
    ];
    game_used = i.game_used;
    group_used = λ o h m ne.
        ground (arith, i.group_used o h m, ne-null {l = s.groups} {xs = v.groups} o h i.groups m);
  }

module _ {s : Db} {v : View} (u g : Ptr) (i : IsServerBut null g s v)
    (known : g ∈ v.groups (s.user_game u)) (empty : length (v.players g) ≡ 0) where
  owner : s.group_game g ≡ s.user_game u
  owner = (i.group_owner (s.user_game u) g known).0

  -- The other groups of the game have a player each.
  few : length (erase g (v.groups (s.user_game u))) ≤ 1024
  few =
      let o = s.user_game u in
      let used = λ (h : Ptr) (m : h ∈ erase g (v.groups o)).
        let other : (h ∈ v.groups o) × (h ≢ g) =
          ground (arith, has-erase h g (v.groups o) (i.groups.distinct o)) in
        let some_player : 0 < length (v.players h) = i.group_used o h other.0 other.1 in
        let counted : length (v.players h) ≡ count (λ w. s.user_group w == h) v.users =
          i.players_counted h (ne-null {l = s.groups} {xs = v.groups} o h i.groups other.0) in
        let result : 0 < count (λ w. s.user_group w == h) v.users = omega arith in result in
      omega (
        arith,
        length-le_of_used s.user_group v.users (erase g (v.groups o))
            (erase-Distinct g (v.groups o) (i.groups.distinct o)) used,
        i.user_maximum,
      )

  pub drop_group-IsServer :
      IsServer (drop_group u g s) (record v {
        groups = update v.groups (s.group_game g) (erase g (v.groups (s.group_game g)));
      })
  unfolding drop_group
  drop_group-IsServer = record {
    users = i.users;
    games = i.games;
    groups = unlink-IsLists (s.group_game g) g i.groups (rw owner known);
    players = i.players;
    user_count = i.user_count;
    user_maximum = i.user_maximum;
    playercount = i.playercount;
    groupcount = λ o h.
        ground
          (arith, i.groupcount o h, owner, length-erase g (v.groups (s.user_game u)) known, few);
    group_playercount = λ o h m. ground (
      arith,
      i.group_playercount o h,
      has-erase h g (v.groups (s.group_game g)) (i.groups.distinct (s.group_game g)),
    );
    players_counted = i.players_counted;
    user_rounds = i.user_rounds;
    game_rounds = i.game_rounds;
    group_rounds = λ o.
        ground (arith, i.group_rounds o, length-erase g (v.groups (s.user_game u)) known, owner);
    group_owner = λ o h m. ground (
      arith,
      i.group_owner o h,
      has-erase h g (v.groups (s.group_game g)) (i.groups.distinct (s.group_game g)),
    );
    player_of = i.player_of;
    in_group = λ w m ne. ground (
      arith,
      i.in_group w m ne,
      empty,
      pos_of_mem w (v.players g),
      owner,
      has-erase (s.user_group w) g (v.groups (s.group_game g)) (i.groups.distinct (s.group_game g)),
    );
    in_game = i.in_game;
    clean = i.clean;
    game_used = i.game_used;
    group_used = λ o h m ne. ground (
      arith,
      i.group_used o h,
      i.group_owner o h,
      has-erase h g (v.groups (s.group_game g)) (i.groups.distinct (s.group_game g)),
    );
  }
