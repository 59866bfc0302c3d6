-- ===== src/Hangup/Addresses.antt =====
-- The addresses and ports of the users, over the rounds of server_loop.
use aemu.Base.{
  ℕ, ◌≡◌, ◌≢◌, refl, true, false, List, [], ◌∷◌, ◌++◌, if◌then◌else◌, length, erase, has-erase,
  Distinct, ◌∈◌, ◌∉◌, ◌⊎◌, inl, inr, Bool-cases, eq_cases, arith, ap, sym, subst, ◌∙◌,
}
use aemu.Chain.{Ptr, null}
use aemu.Database.{Db, initial, emit, status_updated}
use aemu.Session.{login_user_stream, add_user, find_user}
use aemu.Session.Login.{login_user_stream-searched, find_user-null}
use aemu.Server.{Turn, Accepted, Round, handle_user, accept_all, run_round, run_rounds}
use aemu.Server.Handle.{handle_user-IsServer}
use aemu.Server.Loop.{run_turns, AllocateTurns, handle_users-run_turns, here, still_suffix}
use aemu.Server.Run.{AllocateAccepted, AllocateRound, AllocateRounds, initial-IsServer}
use aemu.Hangup.{Turned, address}
use aemu.Hangup.Turn.{handle_user-Turned}
use aemu.Hangup.Balance.{test, admitted, refused}
use aemu.Invariant.{View, IsServer, IsFresh}
use aemu.Invariant.Trace.{IsServerBut-spared}

abbrev pub IsUnique : Db → List Ptr → Type 0
IsUnique s us = (a b : Ptr) → a ∈ us → b ∈ us → address (s.user a) ≡ address (s.user b) → a ≡ b

addresses-Turned : {s t : Db} (u w : Ptr) → Turned u s t → address (t.user w) ≡ address (s.user w)
addresses-Turned u w (inl q) = q.addresses w
addresses-Turned u w (inr q) = q.addresses w

mem-erase : (x u : Ptr) (us : List Ptr) → Distinct us → x ∈ erase u us → x ∈ us
mem-erase x u us d m = ground (arith, has-erase x u us d)

Turned-IsUnique :
    {s t : Db} {us ws : List Ptr} (u : Ptr)
    → Distinct us
    → Turned u s t
    → ((ws ≡ us) ⊎ (ws ≡ erase u us))
    → IsUnique s us
    → IsUnique t ws
Turned-IsUnique {s} {t} {us} {ws} u d q kept unique a b m n e =
    unique a b (old a m kept) (old b n kept)
      (sym (addresses-Turned u a q) ∙ e ∙ addresses-Turned u b q)
  where
    old : (x : Ptr) → x ∈ ws → ((ws ≡ us) ⊎ (ws ≡ erase u us)) → x ∈ us
    old x m (inl same) = rw (← same) m
    old x m (inr gone) = mem-erase x u us d (rw (← gone) m)

added-IsUnique :
    {s : Db} {v : View} (fd ip port malloc now : ℕ)
    → IsServer s v
    → malloc ∉ v.users
    → find_user s ip port ≡ null
    → IsUnique s v.users
    → IsUnique (emit status_updated (add_user fd ip port malloc now s)) (malloc ∷ v.users)
unfolding add_user
added-IsUnique {s} {v} fd ip port malloc now i out none unique a b m n e =
    elim (eq_cases a malloc) [
      | inl (x, p) ↦ elim (eq_cases b malloc) [
        | inl (y, q) ↦ p ∙ sym q
        | inr (y, q) ↦ absurd (taken b (ground arith) (sym (rw (x, y) at e)))
      ]
      | inr (x, p) ↦ elim (eq_cases b malloc) [
        | inl (y, q) ↦ absurd (taken a (ground arith) (rw (x, y) at e))
        | inr (y, q) ↦ unique a b (ground arith) (ground arith) (rw (x, y) at e)
      ]
    ]
  where
    taken : (w : Ptr) → w ∈ v.users → address (s.user w) ≢ (ip, port)
    taken w k same = find_user-null i ip port w none k (ap (λ r. r.0) same) (ap (λ r. r.1) same)

login_user_stream-IsUnique :
    {s : Db} {v : View} (fd ip port malloc now : ℕ)
    → IsServer s v
    → (malloc ≢ null → IsFresh v malloc)
    → IsUnique s v.users
    → IsUnique
        (login_user_stream fd ip port malloc now s)
        (if test fd s ip port malloc (length v.users)
          then record v { users = malloc ∷ v.users }
          else v).users
login_user_stream-IsUnique {s} {v} fd ip port malloc now i fresh unique =
    elim (Bool-cases (test fd s ip port malloc (length v.users))) [
      | inl t ↦
          let t' : test fd s ip port malloc s.user_count ≡ true = simp i.user_count t in
          let out : malloc ∉ v.users = (fresh (ground arith)).users in
          let none : find_user s ip port ≡ null = ground arith in
          rw t (
            subst (λ r. IsUnique r (malloc ∷ v.users))
              (sym (admitted fd s fd ip port malloc now t'))
              (added-IsUnique fd ip port malloc now i out none unique))
      | inr t ↦
          let t' : test fd s ip port malloc s.user_count ≡ false = simp i.user_count t in
          rw t
            (subst (λ r. IsUnique r v.users) (sym (refused fd s fd ip port malloc now t')) unique)
    ]

-- A well-formed state in which no two users share an address and a port.
abbrev pub Addressed : Db → Type 0
Addressed t = (w : View) × IsServer t w × IsUnique t w.users

accept_all-Addressed :
    (cs : List Accepted) (s : Db) (v : View)
    → IsServer s v
    → IsUnique s v.users
    → AllocateAccepted cs s
    → Addressed (accept_all cs s)
unfolding accept_all
accept_all-Addressed [] s v i unique ok = (v, i, unique)
accept_all-Addressed (c ∷ cs) s v i unique ok =
    accept_all-Addressed cs (login_user_stream c.fd c.ip c.port c.malloc c.now s) _
      (login_user_stream-searched i c.fd c.ip c.port c.malloc c.now (ok.0 v i))
      (login_user_stream-IsUnique c.fd c.ip c.port c.malloc c.now i (ok.0 v i) unique) ok.1

run_turns-Addressed :
    (turns : Ptr → Turn) (us pre : List Ptr) (s : Db) (v : View)
    → IsServer s v
    → IsUnique s v.users
    → v.users ≡ pre ++ us
    → AllocateTurns turns us s
    → Addressed (run_turns turns us s)
unfolding run_turns
run_turns-Addressed turns [] pre s v i unique e ok = (v, i, unique)
run_turns-Addressed turns (u ∷ us) pre s v i unique e ok =
    let (w, j, kept) = handle_user-IsServer (turns u) u i (here u pre us i e) (ok.0 v i) in
    let (pre', e') = still_suffix u pre us i e w.users kept in
    run_turns-Addressed turns us pre' (handle_user (turns u) u s) w j
      (Turned-IsUnique u (i.users.distinct null) (handle_user-Turned (turns u) u s) kept unique) e'
      ok.1

pub run_round-Addressed :
    (r : Round) (s : Db) (v : View)
    → IsServer s v
    → IsUnique s v.users
    → AllocateRound r s
    → Addressed (run_round r s)
unfolding run_round
run_round-Addressed r s v i unique ok =
    let (w, j, addressed) = accept_all-Addressed r.accepted s v i unique ok.0 in
    let (same, _, _) = handle_users-run_turns r.turns j (ok.1 w j) in
    rw same (
      run_turns-Addressed r.turns w.users [] (accept_all r.accepted s) w j addressed refl
        (ok.1 w j))

run_from :
    (rs : List Round) (s : Db) (v : View)
    → IsServer s v
    → IsUnique s v.users
    → AllocateRounds rs s
    → Addressed (run_rounds rs s)
unfolding run_rounds
run_from [] s v i unique ok = (v, i, unique)
run_from (r ∷ rs) s v i unique ok =
    let (w, j, addressed) = run_round-Addressed r s v i unique ok.0 in
    run_from rs (run_round r s) w j addressed ok.1

-- After any number of rounds of server_loop, started with no user, if malloc returns NULL or a free
-- address each time it is asked, the state is well-formed and no two of its users have the same
-- address and port, whatever connections were accepted and whatever recv, time and SQLite answered.
pub run_rounds-Addressed :
    (rs : List Round)
    → AllocateRounds rs (emit status_updated initial)
    → Addressed (run_rounds rs (emit status_updated initial))
run_rounds-Addressed rs ok =
    run_from rs (emit status_updated initial) _ (IsServerBut-spared initial.user _ initial-IsServer)
      (λ a b m n e. ground arith) ok
