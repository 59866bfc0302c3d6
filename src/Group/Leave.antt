-- ===== src/Group/Leave.antt =====
-- The well-formedness of the state after leave_group, the part of disconnect_user for a user in a
-- group.
use aemu.Base.{
  ◌≡◌, ◌≢◌, refl, false, true, ◌++◌, List, ◌==◌, if◌then◌else◌, length, erase, ◌∈◌, update, arith,
  inl, inr, Bool-cases,
}
use aemu.Chain.{Ptr, null}
use aemu.Database.{Db, Event, emit, emit_all, status_updated}
use aemu.Group.{leave_group, farewells, tidy_group, exit_group, drop_group, forget_group}
use aemu.Invariant.{View, IsServer}
use aemu.Invariant.Leaving.{known, shorter, small, exit_group-IsServerBut, drop_group-IsServer}
use aemu.Invariant.Trace.{IsServerBut-spared, IsServerBut-settle_group}

module _ {s : Db} {v : View} (u : Ptr) (i : IsServer s v) (mem : u ∈ v.users)
    (connected : s.user_group u ≢ null) where
  abbrev pub g : Ptr
  g = s.user_group u

  abbrev pub rest : List Ptr
  rest = erase u (v.players g)

  abbrev game : Ptr
  game = s.group_game g

  -- The view without the player, and without the group if nobody is left.
  abbrev pub left_view : View
  left_view = record v {
    players = update v.players g rest;
    groups = if length rest == 0 then update v.groups game (erase g (v.groups game)) else v.groups;
  }

  pub counted : (exit_group u g s).group_playercount g ≡ length rest
  unfolding exit_group
  counted = ground (
    arith,
    i.group_playercount (s.user_game u) g (known u g i mem refl connected),
    shorter u g i mem refl connected,
    small u g i mem refl connected,
  )

  -- Whatever the players are told.
  forgotten :
      (es : List Event)
      → IsServer
          (emit status_updated (forget_group u (tidy_group u g (emit_all es (exit_group u g s)))))
          left_view
  unfolding tidy_group exit_group forget_group drop_group
  forgotten es = elim (Bool-cases (length rest == 0)) [
    | inl t ↦
        let t' : ((exit_group u g s).group_playercount g == 0) ≡ true = rw counted t in
        rw (t', t)
          (IsServerBut-spared s.user _ (
            drop_group-IsServer u g
              (IsServerBut-spared s.user (s.trace ++ es)
                (exit_group-IsServerBut u g i mem refl connected))
              (known u g i mem refl connected) (ground arith)))
    | inr t ↦
        let t' : ((exit_group u g s).group_playercount g == 0) ≡ false = rw counted t in
        rw (t', t)
          (IsServerBut-spared s.user _ (
            IsServerBut-settle_group (exit_group-IsServerBut u g i mem refl connected)
              (λ p m. ground arith)))
  ]

  -- disconnect_user of a user who is in a group, in a well-formed state, leaves a well-formed state
  -- in which the group's players are the others in their order, and in which the group is taken out
  -- of its game if nobody is left, and kept otherwise.
  pub leave_group-IsServer : IsServer (leave_group u s) left_view
  unfolding leave_group
  leave_group-IsServer = forgotten (farewells u s)

-- The user is in no group then.
pub user_group-leave_group : (u : Ptr) (s : Db) → (leave_group u s).user_group u ≡ null
unfolding leave_group forget_group
user_group-leave_group u s = ground arith

-- The users keep their data and their games.
pub leave_group-spares :
    (u : Ptr) (s : Db)
    → ((leave_group u s).user ≡ s.user)
      × ((leave_group u s).user_game ≡ s.user_game)
      × ((leave_group u s).users ≡ s.users)
unfolding leave_group forget_group tidy_group drop_group exit_group
leave_group-spares u s =
    elim (Bool-cases ((exit_group u (s.user_group u) s).group_playercount (s.user_group u) == 0)) [
      | inl t ↦ rw t (refl, refl, refl)
      | inr t ↦ rw t (refl, refl, refl)
    ]
