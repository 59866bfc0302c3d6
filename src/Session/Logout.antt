-- ===== src/Session/Logout.antt =====
-- The well-formedness of the state after logout_user.
use aemu.Base.{
  ℕ, ◌≡◌, ◌≢◌, refl, false, true, List, ◌==◌, if◌then◌else◌, count, erase, ◌∈◌, update, arith,
  eq_cases, inl, inr, ◌∙◌, dec32,
}
use aemu.Chain.{Ptr, null}
use aemu.Database.{Db, Event}
use aemu.Group.Leave.{leave_group-IsServer, user_group-leave_group}
use aemu.Session.{drop_game, quit_game, retire, logout_user}
use aemu.Invariant.{View, solo, IsServerBut, IsServer}
use aemu.Invariant.Facts.{ne-null}
use aemu.Invariant.Logout.{remove_user, remove_user-IsServerBut, drop_game-IsServer}
use aemu.Invariant.Trace.{IsServerBut-spared, IsServerBut-settle_game}

module _ {s : Db} {v : View} (u : Ptr) (i : IsServer s v) (mem : u ∈ v.users)
    (alone : s.user_group u ≡ null) where
  abbrev game : Ptr
  game = s.user_game u

  -- The game's players but the user.
  abbrev others : ℕ
  others = count (λ w. s.user_game w == game) (erase u v.users)

  abbrev pub retired_view : View
  retired_view = record v {
    users = erase u v.users;
    games = if game == null then v.games else if others == 0 then erase game v.games else v.games;
  }

  removed : IsServerBut game null (remove_user u s) (record v { users = erase u v.users })
  removed = remove_user-IsServerBut u i mem alone

  counted : game ≢ null → (remove_user u s).game_playercount game ≡ others
  counted ne = ground (arith, removed.playercount game (i.in_game u mem ne))

  known : game ≢ null → game ∈ v.games
  known ne = i.in_game u mem ne

  -- The state with any trace, in the three cases.
  playing :
      game ≢ null
      → others ≢ 0
      → (es : List Event)
      → IsServer (record (remove_user u s) { trace = es }) (record v { users = erase u v.users })
  playing ne some es =
      IsServerBut-spared s.user es
        (IsServerBut-settle_game removed (λ h. ground (arith, counted ne)))

  idle :
      game ≡ null
      → (es : List Event)
      → IsServer (record (remove_user u s) { trace = es }) (record v { users = erase u v.users })
  idle e es = IsServerBut-spared s.user es (
      IsServerBut-settle_game removed
        (λ h. absurd (ne-null {l = s.games} {xs = solo v.games} null game i.games h e)))

  emptied :
      game ≢ null
      → others ≡ 0
      → (es : List Event)
      → IsServer
          (record (drop_game game (remove_user u s)) { trace = es })
          (record v { users = erase u v.users; games = erase game v.games })
  unfolding drop_game
  emptied ne none es =
      IsServerBut-spared s.user es (drop_game-IsServer game removed (known ne) (counted ne ∙ none))

  pub retire-IsServer : IsServer (retire u s) retired_view
  unfolding retire quit_game
  retire-IsServer = elim (eq_cases game null) [
    | inl (t, e) ↦ rw t (rw t at (idle e (retire u s).trace))
    | inr (t, ne) ↦ elim (eq_cases others 0) [
      | inl (z, e) ↦
          let z' : (update s.game_playercount game (dec32 (s.game_playercount game)) game == 0)
              ≡ true =
            ground (arith, counted ne) in
          rw (t, z, z') (rw (t, z') at (emptied ne e (retire u s).trace))
      | inr (z, some) ↦
          let z' : (update s.game_playercount game (dec32 (s.game_playercount game)) game == 0)
              ≡ false =
            ground (arith, counted ne) in
          rw (t, z, z') (rw (t, z') at (playing ne some (retire u s).trace))
    ]
  ]

-- What logging a user out leaves: a well-formed state, and the other users in their order.
abbrev pub LoggedOut : Ptr → Db → View → Db → Type 0
LoggedOut u s v t = (v' : View) × IsServer t v' × (v'.users ≡ erase u v.users)

-- logout_user of a user of a well-formed state leaves a well-formed state, whose users are the
-- others in their order.
pub logout_user-IsServer :
    {s : Db} {v : View} (u : Ptr) → IsServer s v → u ∈ v.users → LoggedOut u s v (logout_user u s)
unfolding logout_user
logout_user-IsServer {s} {v} u i mem = elim (eq_cases (s.user_group u) null) [
  | inl (t, e) ↦ rw t (retired_view u i mem e, retire-IsServer u i mem e, refl)
  | inr (t, ne) ↦
      let left = leave_group-IsServer u i mem ne in
      rw t (
        retired_view u left mem (user_group-leave_group u s),
        retire-IsServer u left mem (user_group-leave_group u s),
        refl,
      )
]
