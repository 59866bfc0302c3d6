-- ===== src/Invariant/Users.antt =====
-- The well-formedness where login_user_stream adds a user.
use aemu.Base.{ℕ, ◌<◌, ◌≡◌, ◌∷◌, length, ◌∉◌, arith}
use aemu.Chain.{Ptr, null, clear_links}
use aemu.Chain.Link.{link-IsLists, clear_links-IsLists}
use aemu.Database.{Db}
use aemu.Session.{add_user}
use aemu.Invariant.{View, IsServer, IsFresh}
use aemu.Invariant.Facts.{IsLists-solo-link, solo-fresh, ne_of_mem, ne-null, count-update_out}

module _ {s : Db} {v : View} (fd ip port u now : ℕ) (i : IsServer s v) (fresh : IsFresh v u)
    (room : length v.users < 1024) where
  abbrev after : Db
  after = add_user fd ip port u now s

  abbrev with_user : View
  with_user = record v { users = u ∷ v.users }

  no_player : (g : Ptr) → u ∉ v.players g
  no_player g = ground (arith, i.player_of g u, fresh.users)

  cleared : (clear_links u s.users).prev u ≡ null
  unfolding clear_links
  cleared = ground arith

  pub add_user-IsServer : IsServer after with_user
  unfolding add_user
  add_user-IsServer = record {
    users = IsLists-solo-link v.users u (
        link-IsLists null u (clear_links-IsLists u i.users (solo-fresh v.users u fresh.users))
          fresh.ne_null (solo-fresh v.users u fresh.users) cleared);
    games = i.games;
    groups = i.groups;
    players = clear_links-IsLists u i.players no_player;
    user_count = ground (arith, i.user_count, fresh.users);
    user_maximum = omega arith;
    playercount = λ o h. ground (
      arith,
      i.playercount o h,
      ne_of_mem o u v.games h fresh.games,
      ne-null null o i.games h,
      count-update_out s.user_game o u null v.users fresh.users,
    );
    groupcount = i.groupcount;
    group_playercount = i.group_playercount;
    players_counted = λ g ne.
        ground (
          arith,
          i.players_counted g ne,
          count-update_out s.user_group g u null v.users fresh.users,
        );
    user_rounds = omega (arith, i.user_rounds);
    game_rounds = omega (arith, i.game_rounds);
    group_rounds = λ o. omega (arith, i.group_rounds o);
    group_owner = i.group_owner;
    player_of = λ g w h. ground (arith, i.player_of g w h, fresh.users);
    in_group = λ w h ne. ground (arith, i.in_group w, fresh.users);
    in_game = λ w h ne. ground (arith, i.in_game w, fresh.users);
    clean = λ w h e. ground (arith, i.clean w, fresh.users, clear_links);
    game_used = i.game_used;
    group_used = i.group_used;
  }
