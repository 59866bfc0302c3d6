-- ===== src/Request/Told.antt =====
-- What send_scan_results, spread_message and disconnect_user send.
use aemu.Base.{
  ◌<◌, ◌≡◌, ◌≢◌, refl, true, false, List, [], ◌∷◌, ◌++◌, ◌==◌, if◌then◌else◌, length, erase,
  Distinct, ◌∈◌, ◌∉◌, arith, inl, inr, eq_cases, ap, eq_false,
}
use aemu.Bytes.{Bytes, c_string}
use aemu.Chain.{Ptr, null}
use aemu.Chain.Seg.{Seg, walk-Seg}
use aemu.Packet.{Packet}
use aemu.Database.{Db, Event, sent, freed, status_updated, concat_map}
use aemu.Group.{players_of, send_to}
use aemu.Group.Told.{founder, players_of-view, parting, leave_group-parting}
use aemu.Request.{host_mac, scan_packets, send_scan_results, spread_message, disconnect_user}
use aemu.Invariant.{View, IsServer}
use aemu.Invariant.Facts.{ne-null}

-- One event for each node.
abbrev pub each : (Ptr → Event) → List Ptr → List Event
each f [] = []
each f (p ∷ ps) = f p ∷ each f ps

module _ (u : Ptr) (f : Ptr → Event) where
  skip_all :
      (ps : List Ptr) → u ∉ ps → concat_map (λ p. if p == u then [] else f p ∷ []) ps ≡ each f ps
  skip_all [] h = refl
  skip_all (p ∷ ps) h =
      let other : (p == u) ≡ false = ground arith in
      rw other (ap (◌∷◌ (f p)) (skip_all ps (ground arith)))

  -- A loop that skips one node of distinct ones.
  skip_one :
      (ps : List Ptr)
      → Distinct ps
      → concat_map (λ p. if p == u then [] else f p ∷ []) ps ≡ each f (erase u ps)
  skip_one [] d = refl
  skip_one (p ∷ ps) d = elim (eq_cases p u) [
    | inl (t, e) ↦ rw t (skip_all ps (rw (← e) d.0))
    | inr (t, ne) ↦ rw t (ap (◌∷◌ (f p)) (skip_one ps d.1))
  ]

module _ (s : Db) (v : View) (u : Ptr) (i : IsServer s v) where
  -- For a user of a group in a well-formed state, spread_message sends the message, up to its first
  -- NUL, and the user's name, once to every other player of the group, in the list's order, and not
  -- to the user.
  pub spread_message-told :
      (message : Bytes)
      → s.user_group u ≢ null
      → (spread_message u message s).trace
        ≡ s.trace
          ++ each
              (λ p. sent (s.user p).stream (Packet.chat (c_string message) (s.user u).name))
              (erase u (v.players (s.user_group u)))
  unfolding spread_message
  spread_message-told message ne =
      let t : (s.user_group u == null) ≡ false = eq_false (s.user_group u) null ne in
      rw (
        t,
        players_of-view (s.user_group u) i ne,
        skip_one u (λ p. sent (s.user p).stream (Packet.chat (c_string message) (s.user u).name))
            (v.players (s.user_group u)) (i.players.distinct (s.user_group u)),
      )

  host_mac-founder :
      (p a x : Ptr) (xs : List Ptr) (mac : Bytes)
      → Seg s.players.next s.players.prev p a (x ∷ xs)
      → host_mac s mac (x ∷ xs) ≡ (s.user (founder x xs)).mac
  unfolding host_mac
  host_mac-founder p a x [] mac t = ground arith
  host_mac-founder p a x (y ∷ r) mac t =
      let more : (s.players.next x == null) ≡ false = ground arith in
      rw more (host_mac-founder x (s.players.next x) y r mac t.3)

  -- A group of the database has a founder, so the stack's bytes are never sent.
  group_mac :
      (stale : Bytes) (o g : Ptr)
      → g ∈ v.groups o
      → host_mac s stale (players_of s g) ≡ (s.user (founder null (v.players g))).mac
  group_mac stale o g m =
      let ne = ne-null {l = s.groups} {xs = v.groups} o g i.groups m in
      rw (players_of-view g i ne) (go (v.players g) (i.players.seg g) (i.group_used o g m ne))
    where
      go :
          (xs : List Ptr)
          → Seg s.players.next s.players.prev null (s.players.head g) xs
          → 0 < length xs
          → host_mac s stale xs ≡ (s.user (founder null xs)).mac
      go [] t h = absurd (omega arith)
      go (x ∷ xs) t h = host_mac-founder null (s.players.head g) x xs stale t

  scan_loop :
      (stale : Bytes) (o : Ptr) (gs : List Ptr)
      → ((g : Ptr) → g ∈ gs → g ∈ v.groups o)
      → concat_map
          (λ g. send_to s u (Packet.scan (s.group_name g) (host_mac s stale (players_of s g))) ∷ [])
          gs
        ≡ each
            (λ g.
              sent
                (s.user u).stream
                (Packet.scan (s.group_name g) (s.user (founder null (v.players g))).mac))
            gs
  scan_loop stale o [] h = refl
  scan_loop stale o (g ∷ gs) h =
      rw
        (group_mac stale o g (h g (ground arith)), scan_loop stale o gs (λ x m. h x (ground arith)))

  -- For a user who is in no group, in a well-formed state, send_scan_results sends one packet for
  -- each group of the user's game, in the list's order, with the group's name and the MAC of the
  -- last player of its list, and then the end of the scan. So what an uninitialised packet holds
  -- for the MAC is never sent.
  pub send_scan_results-told :
      (stale : Bytes)
      → s.user_group u ≡ null
      → (send_scan_results stale u s).trace
        ≡ (s.trace
            ++ each
                (λ g.
                  sent
                    (s.user u).stream
                    (Packet.scan (s.group_name g) (s.user (founder null (v.players g))).mac))
                (v.groups (s.user_game u)))
          ++ (sent (s.user u).stream Packet.scan_complete ∷ [])
  unfolding send_scan_results scan_packets
  send_scan_results-told stale e =
      let t : (s.user_group u == null) ≡ true = ground arith in
      let o = s.user_game u in
      rw (
        t,
        walk-Seg s.groups.next s.groups.prev s.mallocs null (s.groups.head o) (v.groups o)
            (i.groups.seg o) (i.group_rounds o),
        scan_loop stale o (v.groups o) (λ g m. m),
      )

  -- For a user of a well-formed state who is in a group, disconnect_user adds the following to the
  -- trace, with the group's other players in their order as the remaining players. First, each
  -- remaining player is told to drop the user's address once, and once more for every remaining
  -- player who shares it. Then each remaining player with that address is announced to every
  -- remaining player but that one. Then the group's node is freed if no player remains, and the
  -- status page is updated.
  pub disconnect_user-told :
      u ∈ v.users
      → s.user_group u ≢ null
      → (disconnect_user u s).trace
        ≡ s.trace
          ++ parting s v u
          ++ (if length (erase u (v.players (s.user_group u))) == 0
              then freed (s.user_group u) ∷ []
              else [])
          ++ (status_updated ∷ [])
  unfolding disconnect_user
  disconnect_user-told mem ne =
      let t : (s.user_group u == null) ≡ false = eq_false (s.user_group u) null ne in
      rw t (leave_group-parting s v u i mem ne)
