-- ===== src/Session/Sockets.antt =====
-- The sockets that logout_user closes.
use aemu.Base.{
  ℕ, zero, suc, ◌+◌, ◌≡◌, refl, Bool, false, List, [], ◌∷◌, ◌++◌, ◌==◌, if◌then◌else◌, count,
  count-append, replicate, arith, inl, inr, Bool-cases, ap,
}
use aemu.Chain.{Ptr, null, unlink}
use aemu.Packet.{Packet}
use aemu.Database.{
  Db, Event, sent, closed, freed, product_inserted, status_updated, concat_map, emit, emit_all,
}
use aemu.Group.{
  send_to, connect_packet, notices, announcements, reconnections, num_players_with_same_ip,
  players_of, farewells, tidy_group, forget_group, drop_group, exit_group, leave_group,
}
use aemu.Group.Leave.{leave_group-spares}
use aemu.Session.{drop_game, quit_game, retire, logout_user}

-- Is this the closing of the socket `fd`?
abbrev pub closes : ℕ → Event → Bool
closes fd (sent f p) = false
closes fd (closed f) = f == fd
closes fd (freed p) = false
closes fd (product_inserted b) = false
closes fd status_updated = false

pub count-concat_map :
    (p : Event → Bool) (f : Ptr → List Event) (ps : List Ptr)
    → ((x : Ptr) → count p (f x) ≡ 0)
    → count p (concat_map f ps) ≡ 0
count-concat_map p f [] h = refl
count-concat_map p f (x ∷ ps) h =
    omega (arith, count-append p (f x) (concat_map f ps), h x, count-concat_map p f ps h)

module _ (fd : ℕ) where
  replicate-sent : (n : ℕ) (f : ℕ) (p : Packet) → count (closes fd) (replicate n (sent f p)) ≡ 0
  replicate-sent zero f p = refl
  replicate-sent (suc n) f p = omega (arith, replicate-sent n f p)

  pub announcements-closes :
      (s : Db) (cur : Ptr) (ps : List Ptr) → count (closes fd) (announcements s cur ps) ≡ 0
  unfolding announcements
  announcements-closes s cur ps =
      count-concat_map (closes fd)
        (λ p. if p == cur then [] else send_to s p (connect_packet s cur) ∷ []) ps
        (λ p. ground arith)

  reconnections-closes :
      (s : Db) (ip : ℕ) (ps : List Ptr) → count (closes fd) (reconnections s ip ps) ≡ 0
  unfolding reconnections
  reconnections-closes s ip ps =
      count-concat_map (closes fd) (λ p. if (s.user p).ip == ip then announcements s p ps else [])
        ps (λ p. ground (arith, announcements-closes s p ps))

  notices-closes : (s : Db) (n ip : ℕ) (ps : List Ptr) → count (closes fd) (notices s n ip ps) ≡ 0
  unfolding notices
  notices-closes s n ip ps =
      count-concat_map (closes fd) (λ p. replicate n (send_to s p (Packet.disconnect ip))) ps
        (λ p. replicate-sent n (s.user p).stream (Packet.disconnect ip))

  farewells-closes : (u : Ptr) (s : Db) → count (closes fd) (farewells u s) ≡ 0
  unfolding farewells
  farewells-closes u s =
      let g = s.user_group u in
      let left = exit_group u g s in
      let peers = players_of left g in
      let n = num_players_with_same_ip u s in
      omega (
        arith,
        count-append (closes fd) (notices left n (s.user u).ip peers)
            (reconnections left (s.user u).ip peers),
        notices-closes left n (s.user u).ip peers,
        reconnections-closes left (s.user u).ip peers,
      )

  tidy_group-closes :
      (u g : Ptr) (s : Db) → count (closes fd) (tidy_group u g s).trace ≡ count (closes fd) s.trace
  unfolding tidy_group drop_group
  tidy_group-closes u g s = ground (arith, count-append (closes fd) s.trace (freed g ∷ []))

  pub leave_group-closes :
      (u : Ptr) (s : Db) → count (closes fd) (leave_group u s).trace ≡ count (closes fd) s.trace
  unfolding leave_group forget_group exit_group
  leave_group-closes u s =
      let g = s.user_group u in
      let told = emit_all (farewells u s) (exit_group u g s) in
      omega (
        arith,
        count-append (closes fd) (tidy_group u g told).trace (status_updated ∷ []),
        tidy_group-closes u g told,
        count-append (closes fd) s.trace (farewells u s),
        farewells-closes u s,
      )

  quit_game-closes :
      (g : Ptr) (s : Db) → count (closes fd) (quit_game g s).trace ≡ count (closes fd) s.trace
  unfolding quit_game drop_game
  quit_game-closes g s = ground (arith, count-append (closes fd) s.trace (freed g ∷ []))

  retire-closes :
      (u : Ptr) (s : Db)
      → count (closes fd) (retire u s).trace
        ≡ count (closes fd) s.trace + (if (s.user u).stream == fd then 1 else 0)
  unfolding retire
  retire-closes u s =
      let hung_up = emit (closed (s.user u).stream) (record s { users = unlink null u s.users }) in
      let c = count-append (closes fd) s.trace (closed (s.user u).stream ∷ []) in
      elim (Bool-cases (s.user_game u == null)) [
        | inl t ↦
            let d = count-append (closes fd) hung_up.trace (freed u ∷ []) in
            let e =
              count-append (closes fd) (hung_up.trace ++ freed u ∷ []) (status_updated ∷ []) in
            rw t (ground (arith, c, d, e))
        | inr t ↦
            let q = quit_game (s.user_game u) hung_up in
            let d = count-append (closes fd) q.trace (freed u ∷ []) in
            let e = count-append (closes fd) (q.trace ++ freed u ∷ []) (status_updated ∷ []) in
            rw t (ground (arith, c, d, e, quit_game-closes (s.user_game u) hung_up))
      ]

  -- In any state, logging a user out closes the user's socket once more and closes no other socket:
  -- for each socket, the number of its closings in the trace grows by 1 if it is the user's and
  -- stays otherwise.
  pub logout_user-closes :
      (u : Ptr) (s : Db)
      → count (closes fd) (logout_user u s).trace
        ≡ count (closes fd) s.trace + (if (s.user u).stream == fd then 1 else 0)
  unfolding logout_user
  logout_user-closes u s = elim (Bool-cases (s.user_group u == null)) [
    | inl t ↦ rw t (retire-closes u s)
    | inr t ↦
        let r = retire-closes u (leave_group u s) in
        let same : ((leave_group u s).user u).stream ≡ (s.user u).stream =
          ap (λ f. (f u).stream) (leave_group-spares u s).0 in
        rw t (ground (arith, r, same, leave_group-closes u s))
  ]
