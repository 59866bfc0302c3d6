-- ===== src/Hangup/Run.antt =====
-- The sockets over a whole run of server_loop.
use aemu.Base.{
  ℕ, zero, suc, ◌+◌, ◌<◌, ◌≡◌, refl, List, [], ◌∷◌, ◌++◌, ◌==◌, ltb, if◌then◌else◌, length, count,
  count-append, replicate, inl, inr, Bool-cases, arith, ◌∙◌,
}
use aemu.Bytes.{Bytes, c_string}
use aemu.Packet.{Packet, nickname_len}
use aemu.Chain.{Ptr, null, walk}
use aemu.Database.{Db, Event, initial, emit, status_updated}
use aemu.Group.{send_to}
use aemu.Session.{logout_user, login_user_stream}
use aemu.Session.Logout.{logout_user-IsServer}
use aemu.Session.Login.{login_user_stream-searched}
use aemu.Session.Sockets.{closes, count-concat_map}
use aemu.Request.{logout_loop, free_database, spread_notice}
use aemu.Server.{Turn, Accepted, Round, handle_user, accept_all, run_round, run_rounds, server_loop}
use aemu.Server.Handle.{handle_user-IsServer}
use aemu.Server.Loop.{
  first, run_turns, AllocateTurns, handle_users-run_turns, here, here_ne_null, next_saved,
  still_suffix, without_here, head_first,
}
use aemu.Server.Run.{AllocateAccepted, AllocateRound, AllocateRounds, initial-IsServer}
use aemu.Hangup.{closings, emit_all-Silent, logout_user-Turned}
use aemu.Hangup.Turn.{handle_user-Turned}
use aemu.Hangup.Balance.{balance, Turned-balance, login_user_stream-balance}
use aemu.Invariant.{View, IsServer}
use aemu.Invariant.Trace.{IsServerBut-spared}

module _ (fd : ℕ) where
  -- A well-formed state whose closings and users of the socket together are `n`.
  abbrev Balanced : ℕ → Db → Type 0
  Balanced n t = (w : View) × IsServer t w × (balance fd t w ≡ n)

  abbrev given : List Accepted → ℕ
  given cs = count (λ c. c.fd == fd) cs

  -- How often accept returned the socket.
  abbrev pub accepted_in : List Round → ℕ
  accepted_in [] = 0
  accepted_in (r ∷ rs) = given r.accepted + accepted_in rs

  accept_all-Balanced :
      (cs : List Accepted) (s : Db) (v : View)
      → IsServer s v
      → AllocateAccepted cs s
      → Balanced (balance fd s v + given cs) (accept_all cs s)
  unfolding accept_all
  accept_all-Balanced [] s v i ok = (v, i, omega arith)
  accept_all-Balanced (c ∷ cs) s v i ok =
      let (w, j, e) =
        accept_all-Balanced cs (login_user_stream c.fd c.ip c.port c.malloc c.now s) _
          (login_user_stream-searched i c.fd c.ip c.port c.malloc c.now (ok.0 v i)) ok.1 in
      (
        w,
        j,
        omega (arith, e, login_user_stream-balance fd c.fd c.ip c.port c.malloc c.now i (ok.0 v i)),
      )

  run_turns-Balanced :
      (turns : Ptr → Turn) (us pre : List Ptr) (s : Db) (v : View)
      → IsServer s v
      → v.users ≡ pre ++ us
      → AllocateTurns turns us s
      → Balanced (balance fd s v) (run_turns turns us s)
  unfolding run_turns
  run_turns-Balanced turns [] pre s v i e ok = (v, i, refl)
  run_turns-Balanced turns (u ∷ us) pre s v i e ok =
      let member = here u pre us i e in
      let (w, j, kept) = handle_user-IsServer (turns u) u i member (ok.0 v i) in
      let (pre', e') = still_suffix u pre us i e w.users kept in
      let (x, k, rest) = run_turns-Balanced turns us pre' (handle_user (turns u) u s) w j e' ok.1 in
      (x, k, rest ∙ Turned-balance fd u i member j (handle_user-Turned (turns u) u s))

  run_round-Balanced :
      (r : Round) (s : Db) (v : View)
      → IsServer s v
      → AllocateRound r s
      → Balanced (balance fd s v + given r.accepted) (run_round r s)
  unfolding run_round
  run_round-Balanced r s v i ok =
      let (w, j, e) = accept_all-Balanced r.accepted s v i ok.0 in
      let (same, _, _) = handle_users-run_turns r.turns j (ok.1 w j) in
      let (x, k, e') =
        run_turns-Balanced r.turns w.users [] (accept_all r.accepted s) w j refl (ok.1 w j) in
      rw same (x, k, e' ∙ e)

  run_rounds-Balanced :
      (rs : List Round) (s : Db) (v : View)
      → IsServer s v
      → AllocateRounds rs s
      → Balanced (balance fd s v + accepted_in rs) (run_rounds rs s)
  unfolding run_rounds
  run_rounds-Balanced [] s v i ok = (v, i, omega arith)
  run_rounds-Balanced (r ∷ rs) s v i ok =
      let (w, j, e) = run_round-Balanced r s v i ok.0 in
      let (x, k, e') = run_rounds-Balanced rs (run_round r s) w j ok.1 in
      (x, k, omega (arith, e, e'))

  -- Logging everyone out turns the users' sockets into closed ones.
  logout_loop-closings :
      (fuel : ℕ) (s : Db) (v : View) (rest : List Ptr)
      → IsServer s v
      → v.users ≡ rest
      → length rest < fuel
      → closings fd (logout_loop fuel (first rest) s) ≡ balance fd s v
  unfolding logout_loop
  logout_loop-closings zero s v rest i e h = absurd (omega arith)
  logout_loop-closings (suc fuel) s v [] i e h = rw e (omega arith)
  logout_loop-closings (suc fuel) s v (u ∷ rest) i e h =
      let member = here u [] rest i e in
      let (w, j, gone) = logout_user-IsServer u i member in
      rw (here_ne_null u [] rest i e, next_saved u [] rest i e)
        (logout_loop-closings fuel (logout_user u s) w rest j (gone ∙ without_here u [] rest i e)
            (omega arith)
          ∙ Turned-balance fd u i member j (logout_user-Turned u s))

  notice-closings : (notice : Bytes) (s : Db) → closings fd (spread_notice notice s) ≡ closings fd s
  unfolding spread_notice
  notice-closings notice s =
      (emit_all-Silent _ s (λ f.
          count-concat_map (closes f)
            (λ p.
              if s.user_group p == null
              then []
              else send_to s p (Packet.chat (c_string notice) (replicate nickname_len 0)) ∷ [])
            (walk s.mallocs s.users.next (s.users.head null)) (λ p. ground arith))).closings
        fd

  notice-balance :
      (notice : Bytes) (s : Db) (v : View) → balance fd (spread_notice notice s) v ≡ balance fd s v
  unfolding spread_notice
  notice-balance notice s v = omega (arith, notice-closings notice s)

  notice-IsServer :
      (notice : Bytes) (s : Db) (v : View) → IsServer s v → IsServer (spread_notice notice s) v
  unfolding spread_notice
  notice-IsServer notice s v i = IsServerBut-spared s.user _ i

  free_database-closings :
      (notice : Bytes) (s : Db) (v : View)
      → IsServer s v
      → closings fd (free_database notice s) ≡ balance fd s v
  unfolding free_database
  free_database-closings notice s v i = elim (Bool-cases (ltb 0 s.user_count)) [
    | inl t ↦
        let told = notice-IsServer notice s v i in
        rw (t, head_first told)
          (logout_loop-closings ((spread_notice notice s).mallocs + 1) (spread_notice notice s) v
              v.users told refl (omega (arith, told.user_rounds))
            ∙ notice-balance notice s v)
    | inr t ↦
        rw (t, head_first i)
          (logout_loop-closings (s.mallocs + 1) s v v.users i refl (omega (arith, i.user_rounds)))
  ]

  -- Whatever connections are accepted and whatever recv, time and SQLite answer in each round, if
  -- malloc returns NULL or a free address each time it is asked, then over a whole run of
  -- server_loop, started with no user, each socket is closed exactly as often as accept returned
  -- it, and once more if it is the listening socket: none is leaked and none is closed twice.
  pub server_loop-closings :
      (server : ℕ) (notice : Bytes) (rs : List Round)
      → AllocateRounds rs (emit status_updated initial)
      → closings fd (server_loop server notice rs initial)
        ≡ accepted_in rs + (if server == fd then 1 else 0)
  unfolding server_loop
  server_loop-closings server notice rs ok =
      let start : IsServer (emit status_updated initial) _ =
        IsServerBut-spared initial.user _ initial-IsServer in
      let (w, j, e) = run_rounds-Balanced rs (emit status_updated initial) _ start ok in
      omega (
        arith,
        e,
        free_database-closings notice _ w j,
        count-append (closes fd)
            (free_database notice (run_rounds rs (emit status_updated initial))).trace
            (Event.closed server ∷ []),
      )
