-- ===== src/Status/Counts.antt =====
-- The status page of a well-formed state, as update_status writes it.
use aemu.Base.{
  count-same, ℕ, suc, ◌+◌, ◌-◌, ◌≡◌, refl, Bool, true, false, ◌&&◌, not, some, none, List, [], ◌∷◌,
  ◌==◌, ltb, if◌then◌else◌, length, count, count-le-length, has, Distinct, ◌∈◌, ◌∉◌, arith, inl,
  inr, Bool-cases, eq_cases, ap, sym, ◌∙◌,
}
use aemu.Chain.{Ptr, null}
use aemu.Chain.Seg.{walk-Seg}
use aemu.Database.{Db}
use aemu.Group.Told.{players_of-view}
use aemu.Status.{
  StatusQueries, map_nodes, user_tag, group_tag, groups_of, active_count, game_tag, status_page,
}
use aemu.Invariant.{View, IsServer}
use aemu.Invariant.Facts.{ne-null}

-- Counting the users whose image is in a list of distinct nodes, node by node.
count-has :
    (f : Ptr → Ptr) (g : Ptr) (gs us : List Ptr)
    → g ∉ gs
    → count (λ u. has (f u) (g ∷ gs)) us ≡ count (λ u. f u == g) us + count (λ u. has (f u) gs) us
count-has f g gs [] out = refl
count-has f g gs (u ∷ us) out = elim (eq_cases (f u) g) [
  | inl (t, e) ↦
      let gone : has (f u) gs ≡ false = rw e out in
      rw (t, gone) (omega (arith, count-has f g gs us out))
  | inr (t, e) ↦ rw t (omega (arith, count-has f g gs us out))
]

count-none : (us : List Ptr) → count (λ u. false) us ≡ 0
count-none [] = refl
count-none (u ∷ us) = omega (arith, count-none us)

count-parts :
    (p q : Ptr → Bool) (us : List Ptr)
    → count (λ u. p u && not (q u)) us + count (λ u. p u && q u) us ≡ count p us
count-parts p q [] = refl
count-parts p q (u ∷ us) = ground (arith, count-parts p q us)

length-map_nodes : {A : Type 0} (f : Ptr → A) (ps : List Ptr) → length (map_nodes f ps) ≡ length ps
length-map_nodes f [] = refl
length-map_nodes f (p ∷ ps) = ap suc (length-map_nodes f ps)

module _ {s : Db} {v : View} (i : IsServer s v) where
  groups_of-view : (o : Ptr) → groups_of s o ≡ v.groups o
  unfolding groups_of
  groups_of-view o =
      walk-Seg s.groups.next s.groups.prev s.mallocs null (s.groups.head o) (v.groups o)
        (i.groups.seg o) (i.group_rounds o)

  abbrev in_one_of : List Ptr → Ptr → Bool
  in_one_of gs u = has (s.user_group u) gs

  -- The page's sum of the groups' counters is the number of users in these groups.
  active_count-users :
      (o : Ptr) (gs : List Ptr)
      → Distinct gs
      → ((g : Ptr) → g ∈ gs → g ∈ v.groups o)
      → active_count s gs ≡ count (in_one_of gs) v.users
  unfolding active_count
  active_count-users o [] d known = sym (count-none v.users)
  active_count-users o (g ∷ gs) d known =
      let member : g ∈ v.groups o = known g (ground arith) in
      let rest = active_count-users o gs d.1 (λ h m. known h (ground arith)) in
      ground (
        arith,
        rest,
        i.group_playercount o g member,
        i.players_counted g (ne-null {l = s.groups} {xs = v.groups} o g i.groups member),
        count-has s.user_group g gs v.users d.0,
        count-le-length (in_one_of (g ∷ gs)) v.users,
        i.user_maximum,
      )

  abbrev plays : Ptr → Ptr → Bool
  plays o u = s.user_game u == o

  abbrev groupless : Ptr → Bool
  groupless u = s.user_group u == null

  -- The users in a group of the game are its players who are in a group.
  in_group-plays :
      (o u : Ptr) → u ∈ v.users → in_one_of (v.groups o) u ≡ (plays o u && not (groupless u))
  in_group-plays o u m = elim (Bool-cases (in_one_of (v.groups o) u)) [
    | inl t ↦
        let ne = ne-null {l = s.groups} {xs = v.groups} o (s.user_group u) i.groups t in
        let here : s.user_game u ≡ o =
          i.groups.apart (s.user_game u) o (s.user_group u) (i.in_group u m ne).1 t in
        ground arith
    | inr t ↦ elim (eq_cases (s.user_group u) null) [
      | inl (z, e) ↦ rw (t, z) (ground arith)
      | inr (z, ne) ↦ elim (eq_cases (s.user_game u) o) [
        | inl (y, here) ↦
            let member : s.user_group u ∈ v.groups o = rw (← here) (i.in_group u m ne).1 in
            absurd (ground arith)
        | inr (y, other) ↦ rw (t, y) refl
      ]
    ]
  ]

  -- The number of the game's players who are in no group.
  abbrev pub idle_count : Ptr → ℕ
  idle_count o = count (λ u. plays o u && groupless u) v.users

  idle_groups :
      (active idle total : ℕ)
      → active + idle ≡ total
      → (if ltb active total then some (total - active) else none)
        ≡ (if ltb 0 idle then some idle else none)
  idle_groups active idle total e =
      let rest : total - active ≡ idle = omega arith in rw rest (ground (arith, rest))

  -- On the status page of a well-formed state, the tag of a game shows the number of users who play
  -- the game, and has one tag for each of its groups, in the list's order; and if some of these
  -- users are in no group, the page shows their number as the users of the group Groupless, and
  -- otherwise shows no such group.
  pub game_tag-view :
      (q : StatusQueries) (o : Ptr)
      → o ∈ v.games
      → ((game_tag q s o).usercount ≡ count (plays o) v.users)
        × ((game_tag q s o).groups ≡ map_nodes (group_tag s) (v.groups o))
        × ((game_tag q s o).groupless
            ≡ (if ltb 0 (idle_count o) then some (idle_count o) else none))
  unfolding game_tag
  game_tag-view q o m =
      let active : active_count s (v.groups o)
          ≡ count (λ u. plays o u && not (groupless u)) v.users =
        active_count-users o (v.groups o) (i.groups.distinct o) (λ g h. h)
        ∙ count-same (in_one_of (v.groups o)) (λ u. plays o u && not (groupless u)) v.users
            (in_group-plays o) in
      let parts = count-parts (plays o) groupless v.users in
      (
        i.playercount o m,
        ap (map_nodes (group_tag s)) (groups_of-view o),
        rw (groups_of-view o, active, i.playercount o m)
            (idle_groups (count (λ u. plays o u && not (groupless u)) v.users) (idle_count o)
              (count (plays o) v.users) parts),
      )

  -- On the status page of a well-formed state, the tag of a group of a game has one tag for each of
  -- its players, in the list's order, and shows their number.
  pub group_tag-view :
      (o g : Ptr)
      → g ∈ v.groups o
      → ((group_tag s g).users ≡ map_nodes (user_tag s) (v.players g))
        × ((group_tag s g).usercount ≡ length (group_tag s g).users)
  unfolding group_tag
  group_tag-view o g m =
      let ne = ne-null {l = s.groups} {xs = v.groups} o g i.groups m in
      let same = players_of-view g i ne in
      (
        ap (map_nodes (user_tag s)) same,
        i.group_playercount o g m ∙ rw same (sym (length-map_nodes (user_tag s) (v.players g))),
      )

  -- If the database can be opened, the status page of a well-formed state shows the number of the
  -- users and has one tag for each game, in the list's order.
  pub status_page-view :
      (q : StatusQueries)
      → q.opened ≡ true
      → ((status_page q s).usercount ≡ length v.users)
        × ((status_page q s).games ≡ map_nodes (game_tag q s) v.games)
  unfolding status_page
  status_page-view q opened = (
    i.user_count,
    rw (
      opened,
      walk-Seg s.games.next s.games.prev s.mallocs null (s.games.head null) v.games
          (i.games.seg null) i.game_rounds,
    ),
  )
