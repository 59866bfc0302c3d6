-- ===== src/Server/Loop.antt =====
-- The loops over the users, which free nodes while they run, against the list of users that they
-- start with.
use aemu.Base.{
  ℕ, zero, suc, ◌+◌, ◌<◌, ◌≡◌, refl, false, List, [], ◌∷◌, ◌++◌, ◌∈◌, ◌∉◌, ◌⊎◌, ◌==◌, ltb, arith,
  inl, inr, Bool-cases, if◌then◌else◌, erase, has, Distinct, length, sym, ap, ◌∙◌, eq_false, count,
}
use mathlib.Core.List.{append_assoc}
use aemu.Invariant.Facts.{ne-null, nil_of_none}
use aemu.Bytes.{Bytes}
use aemu.Chain.{Ptr, null}
use aemu.Chain.Seg.{Seg}
use aemu.Database.{Db}
use aemu.Session.{logout_user}
use aemu.Session.Logout.{logout_user-IsServer}
use aemu.Request.{logout_loop, free_database, spread_notice}
use aemu.Server.{Turn, handle_user, handle_users}
use aemu.Server.Handle.{handle_user-IsServer}
use aemu.Invariant.{View, IsServer, Allocates, solo}
use aemu.Invariant.Trace.{IsServerBut-spared}

abbrev pub first : List Ptr → Ptr
first [] = null
first (x ∷ xs) = x

next-first :
    (next prev : Ptr → Ptr) (p a y : Ptr) (pre rest : List Ptr)
    → Seg next prev p a (pre ++ (y ∷ rest))
    → next y ≡ first rest
next-first next prev p a y [] [] s = s.3
next-first next prev p a y [] (z ∷ rest) s = s.3.0
next-first next prev p a y (x ∷ pre) rest s = next-first next prev x (next x) y pre rest s.3

has-middle : (u : ℕ) (pre rest : List ℕ) → u ∈ pre ++ (u ∷ rest)
has-middle u [] rest = ground arith
has-middle u (x ∷ pre) rest = ground (arith, has-middle u pre rest)

erase-middle :
    (u : ℕ) (pre rest : List ℕ)
    → Distinct (pre ++ (u ∷ rest))
    → erase u (pre ++ (u ∷ rest)) ≡ pre ++ rest
erase-middle u [] rest d = ground arith
erase-middle u (x ∷ pre) rest d =
    let other : (x == u) ≡ false = ground (arith, has-middle u pre rest) in
    rw (other, erase-middle u pre rest d.1)

module _ {s : Db} {v : View} (u : Ptr) (pre rest : List Ptr) (i : IsServer s v)
    (e : v.users ≡ pre ++ (u ∷ rest)) where
  pub here : u ∈ v.users
  here = rw e (has-middle u pre rest)

  pub here_ne_null : (u == null) ≡ false
  here_ne_null = eq_false u null (ne-null null u i.users here)

  -- The pointer that the loop saves before the body runs.
  pub next_saved : s.users.next u ≡ first rest
  next_saved =
      next-first s.users.next s.users.prev null (s.users.head null) u pre rest
        (rw e at (i.users.seg null))

  pub without_here : erase u v.users ≡ pre ++ rest
  without_here = rw e (erase-middle u pre rest (rw e at (i.users.distinct null)))

  -- After the body the saved pointer still heads the rest of the list.
  pub still_suffix :
      (us : List Ptr)
      → ((us ≡ v.users) ⊎ (us ≡ erase u v.users))
      → (pre' : List Ptr) × (us ≡ pre' ++ rest)
  still_suffix us (inl same) = (pre ++ (u ∷ []), same ∙ e ∙ sym (append_assoc pre (u ∷ []) rest))
  still_suffix us (inr gone) = (pre, gone ∙ without_here)

-- The turns of the listed users, one after the other.
unfoldable pub run_turns : (Ptr → Turn) → List Ptr → Db → Db
run_turns turns [] s = s
run_turns turns (u ∷ us) s = run_turns turns us (handle_user (turns u) u s)

-- malloc keeps its promise in every turn.
abbrev pub AllocateTurns : (Ptr → Turn) → List Ptr → Db → Type 0
AllocateTurns turns [] s = Unit
AllocateTurns turns (u ∷ us) s =
    Allocates s (turns u).malloc × AllocateTurns turns us (handle_user (turns u) u s)

pub head_first : {s : Db} {v : View} → IsServer s v → s.users.head null ≡ first v.users
head_first {s} {v} i = go (v.users) (i.users.seg null)
  where
    go :
        (xs : List Ptr)
        → Seg s.users.next s.users.prev null (s.users.head null) xs
        → s.users.head null ≡ first xs
    go [] t = t
    go (x ∷ xs) t = t.0

module _ (turns : Ptr → Turn) where
  handle_users-suffix :
      (fuel : ℕ) (s : Db) (v : View) (pre rest : List Ptr)
      → IsServer s v
      → v.users ≡ pre ++ rest
      → AllocateTurns turns rest s
      → length rest < fuel
      → (handle_users fuel turns (first rest) s ≡ run_turns turns rest s)
        × (v' : View) × IsServer (run_turns turns rest s) v'
  unfolding handle_users run_turns
  handle_users-suffix zero s v pre rest i e ok h = absurd (omega arith)
  handle_users-suffix (suc fuel) s v pre [] i e ok h = (refl, v, i)
  handle_users-suffix (suc fuel) s v pre (u ∷ rest) i e ok h =
      let (v', j, kept) = handle_user-IsServer (turns u) u i (here u pre rest i e) (ok.0 v i) in
      let (pre', e') = still_suffix u pre rest i e v'.users kept in
      rw (here_ne_null u pre rest i e, next_saved u pre rest i e)
        (handle_users-suffix fuel (handle_user (turns u) u s) v' pre' rest j e' ok.1 (omega arith))

  -- The loop over the users, from a well-formed state and with a malloc that returns NULL or a free
  -- address in each turn, is the same as one turn of every user who is in the list at the start, in
  -- the list's order, although a turn may free its user's node; and the state afterwards is
  -- well-formed. One round of fuel more than nodes that malloc ever gave is enough.
  pub handle_users-run_turns :
      {s : Db} {v : View}
      → IsServer s v
      → AllocateTurns turns v.users s
      → (handle_users (s.mallocs + 1) turns (s.users.head null) s ≡ run_turns turns v.users s)
        × (v' : View) × IsServer (run_turns turns v.users s) v'
  handle_users-run_turns {s} {v} i ok =
      rw (head_first i) (
        handle_users-suffix (s.mallocs + 1) s v [] v.users i refl ok (omega (arith, i.user_rounds)))

-- The loop of free_database.
logout_loop-suffix :
    (fuel : ℕ) (s : Db) (v : View) (rest : List Ptr)
    → IsServer s v
    → v.users ≡ rest
    → length rest < fuel
    → (v' : View) × IsServer (logout_loop fuel (first rest) s) v' × (v'.users ≡ [])
unfolding logout_loop
logout_loop-suffix zero s v rest i e h = absurd (omega arith)
logout_loop-suffix (suc fuel) s v [] i e h = (v, i, e)
logout_loop-suffix (suc fuel) s v (u ∷ rest) i e h =
    let (v', j, gone) = logout_user-IsServer u i (here u [] rest i e) in
    rw (here_ne_null u [] rest i e, next_saved u [] rest i e)
      (logout_loop-suffix fuel (logout_user u s) v' rest j (gone ∙ without_here u [] rest i e)
        (omega arith))

-- Without users there is nothing.
pub nothing_left :
    {t : Db} {v : View}
    → IsServer t v
    → v.users ≡ []
    → (v.games ≡ []) × ((o : Ptr) → v.groups o ≡ []) × (t.user_count ≡ 0)
nothing_left {t} {v} i e = (no_games, no_groups, i.user_count ∙ ap length e)
  where
    no_game : (o : Ptr) → o ∉ v.games
    no_game o = elim (Bool-cases (has o v.games)) [
      | inr out ↦ out
      | inl m ↦
          let used = i.game_used o m (ne-null {l = t.games} {xs = solo v.games} null o i.games m) in
          absurd (omega (arith, i.playercount o m, ap (count (λ u. t.user_game u == o)) e))
    ]

    no_games : v.games ≡ []
    no_games = nil_of_none v.games no_game

    no_groups : (o : Ptr) → v.groups o ≡ []
    no_groups o = nil_of_none (v.groups o) (λ g. ground (arith, i.group_owner o g, no_game o))

-- From a well-formed state, free_database logs every user out: it leaves a well-formed state with
-- no user, no game, no group of any game, and a user counter of 0.
pub free_database-empty :
    {s : Db} {v : View} (notice : Bytes)
    → IsServer s v
    → (v' : View) × IsServer (free_database notice s) v'
      × (v'.users ≡ [])
      × (v'.games ≡ [])
      × ((o : Ptr) → v'.groups o ≡ [])
      × ((free_database notice s).user_count ≡ 0)
free_database-empty {s} {v} notice i =
    let (v', j, none) = freed in
    let rest = nothing_left j none in (v', j, none, rest.0, rest.1, rest.2)
  where
    told : Db
    told = if ltb 0 s.user_count then spread_notice notice s else s

    told-IsServer : IsServer told v
    told-IsServer = elim (Bool-cases (ltb 0 s.user_count)) [
      | inl t ↦ rw t (unfold spread_notice in (IsServerBut-spared s.user _ i))
      | inr t ↦ rw t i
    ]

    freed : (v' : View) × IsServer (free_database notice s) v' × (v'.users ≡ [])
    freed =
        unfold free_database in
        (rw (head_first told-IsServer) (
          logout_loop-suffix (told.mallocs + 1) told v v.users told-IsServer refl
            (omega (arith, told-IsServer.user_rounds))))
