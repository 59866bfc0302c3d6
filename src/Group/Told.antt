-- ===== src/Group/Told.antt =====
-- What the players of a group are sent by join_group and leave_group, the parts of connect_user
-- and disconnect_user of pspnet_adhocctl_server/user.c.
use mathlib.Core.List.{append-nil}
use aemu.Base.{
  suc, ◌≡◌, ◌≢◌, refl, Bool, Bool-cases, inl, inr, length, true, false, List, [], ◌∷◌, ◌++◌, ◌==◌,
  if◌then◌else◌, count, count-erase, count-le-length, erase, ◌∈◌, replicate, arith, eq_self, subst,
  length-erase,
}
use aemu.Bytes.{Bytes}
use aemu.Chain.{Ptr, null, unlink}
use aemu.Chain.Unlink.{unlink-IsLists}
use aemu.Chain.Seg.{Seg, walk-Seg}
use aemu.Packet.{Packet}
use aemu.Database.{Db, Event, sent, freed, concat_map, status_updated}
use aemu.Group.{
  players_of, num_players_with_same_ip, introductions, bssid_mac, enter_group, join_group,
  farewells, exit_group, leave_group, tidy_group, drop_group, forget_group, notices, announcements,
  reconnections, connect_packet,
}
use aemu.Group.Leave.{counted}
use aemu.Invariant.{View, IsServerBut, IsServer}

-- The loop over a group's players sees the players of the view.
pub players_of-view :
    {s : Db} {v : View} {o h : Ptr} (g : Ptr)
    → IsServerBut o h s v
    → g ≢ null
    → players_of s g ≡ v.players g
unfolding players_of
players_of-view {s} {v} g i ne =
    walk-Seg s.players.next s.players.prev s.mallocs null (s.players.head g) (v.players g)
      (i.players.seg g)
      (omega (
        arith,
        i.players_counted g ne,
        count-le-length (λ u. s.user_group u == g) v.users,
        i.user_rounds,
      ))

-- The last of a group's players: the founder, since players are put in front.
abbrev pub founder : Ptr → List Ptr → Ptr
founder d [] = d
founder d (p ∷ ps) = founder p ps

bssid_mac-cons :
    (s : Db) (p a x : Ptr) (xs : List Ptr) (mac : Bytes)
    → Seg s.players.next s.players.prev p a (x ∷ xs)
    → bssid_mac s mac (x ∷ xs) ≡ (s.user (founder x xs)).mac
unfolding bssid_mac
bssid_mac-cons s p a x [] mac t = ground arith
bssid_mac-cons s p a x (y ∷ r) mac t =
    let more : (s.players.next x == null) ≡ false = ground arith in
    rw more (bssid_mac-cons s x (s.players.next x) y r mac t.3)

-- The founder's MAC, or the user's own in an empty group.
pub bssid_mac-founder :
    (s : Db) (p a u : Ptr) (xs : List Ptr)
    → Seg s.players.next s.players.prev p a xs
    → bssid_mac s (s.user u).mac xs ≡ (s.user (founder u xs)).mac
bssid_mac-founder s p a u [] t = unfold bssid_mac in refl
bssid_mac-founder s p a u (x ∷ xs) t = bssid_mac-cons s p a x xs (s.user u).mac t

module _ (s : Db) (v : View) (u : Ptr) where
  -- join_group, for a group node other than NULL of a state that is well-formed but that this group
  -- may be empty, adds the following to the trace. For each player of the group, in order, the
  -- player is told of the user and the user of the player; then the user is sent the BSSID, which
  -- is the MAC of the last player of the list, or the user's own MAC if the list is empty; then the
  -- status page is updated.
  pub join_group-told :
      (g : Ptr)
      → IsServerBut null g s v
      → g ≢ null
      → (join_group u g s).trace
        ≡ s.trace
          ++ concat_map
              (λ p.
                sent (s.user p).stream (connect_packet s u)
                ∷ sent (s.user u).stream (connect_packet s p)
                ∷ [])
              (v.players g)
          ++ (sent (s.user u).stream (Packet.connect_bssid (s.user (founder u (v.players g))).mac)
              ∷ [])
          ++ (status_updated ∷ [])
  unfolding join_group enter_group introductions
  join_group-told g i ne = rw (
    players_of-view g i ne,
    bssid_mac-founder s null (s.players.head g) u (v.players g) (i.players.seg g),
  )

  abbrev g : Ptr
  g = s.user_group u

  abbrev rest : List Ptr
  rest = erase u (v.players g)

  abbrev same_ip : Ptr → Bool
  same_ip p = (s.user u).ip == (s.user p).ip

  -- For a user of a well-formed state who is in a group, get_num_group_players_with_same_ip is one
  -- more than the number of the other players of the group with the user's address.
  num_players-rest :
      IsServer s v
      → u ∈ v.users
      → g ≢ null
      → num_players_with_same_ip u s ≡ suc (count same_ip rest)
  unfolding num_players_with_same_ip
  num_players-rest i mem ne =
      rw (players_of-view g i ne)
        (ground (arith, count-erase same_ip u (v.players g), i.in_group u mem))

  players_of-left : IsServer s v → u ∈ v.users → g ≢ null → players_of (exit_group u g s) g ≡ rest
  unfolding players_of exit_group
  players_of-left i mem ne =
      let member = (i.in_group u mem ne).0 in
      let t : Seg (unlink g u s.players).next (unlink g u s.players).prev null
          ((unlink g u s.players).head g) rest =
        subst
          (λ b.
            Seg (unlink g u s.players).next (unlink g u s.players).prev null
              ((unlink g u s.players).head g) (if b then rest else v.players g))
          (eq_self g) ((unlink-IsLists g u i.players member).seg g) in
      walk-Seg (unlink g u s.players).next (unlink g u s.players).prev s.mallocs null
        ((unlink g u s.players).head g) rest t
        (omega (
          arith,
          i.players_counted g ne,
          count-le-length (λ w. s.user_group w == g) v.users,
          i.user_rounds,
          length-erase u (v.players g) member,
        ))

  -- Each remaining player is told to drop the user's address once, and once more for every remaining
  -- player who shares it. Then each remaining player with that address is announced to every
  -- remaining player but that one.
  abbrev pub parting : List Event
  parting =
      concat_map
        (λ p.
          replicate (suc (count same_ip rest))
            (sent (s.user p).stream (Packet.disconnect (s.user u).ip)))
        rest
      ++ concat_map
          (λ q.
            if (s.user q).ip == (s.user u).ip
            then concat_map
                (λ p. if p == q then [] else sent (s.user p).stream (connect_packet s q) ∷ []) rest
            else [])
          rest

  farewells-parting : IsServer s v → u ∈ v.users → g ≢ null → farewells u s ≡ parting
  farewells-parting i mem ne =
      unfold farewells in
      (rw (players_of-left i mem ne, num_players-rest i mem ne)
        (unfold notices reconnections announcements exit_group in refl))

  pub leave_group-parting :
      IsServer s v
      → u ∈ v.users
      → g ≢ null
      → (leave_group u s).trace
        ≡ s.trace
          ++ parting
          ++ (if length rest == 0 then freed g ∷ [] else [])
          ++ (status_updated ∷ [])
  unfolding leave_group tidy_group drop_group forget_group exit_group
  leave_group-parting i mem ne = elim (Bool-cases (length rest == 0)) [
    | inl t ↦
        let t' : ((exit_group u g s).group_playercount g == 0) ≡ true = rw (counted u i mem ne) t in
        rw (t', t, farewells-parting i mem ne) refl
    | inr t ↦
        let t' : ((exit_group u g s).group_playercount g == 0) ≡ false =
          rw (counted u i mem ne) t in
        rw (t', t, farewells-parting i mem ne) (simp append-nil)
  ]
