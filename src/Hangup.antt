-- ===== src/Hangup.antt =====
-- What an operation of pspnet_adhocctl_server/user.c on a user does to the list of users, and to
-- the sockets and addresses of its nodes, in any state.
pub mod Login
pub mod Request
pub mod Turn
pub mod Balance
pub mod Run
pub mod Addresses
use aemu.Base.{
  ℕ, ◌+◌, ◌≡◌, refl, Bool, true, false, List, [], ◌∷◌, ◌++◌, ◌==◌, if◌then◌else◌, count,
  count-append, ◌⊎◌, inl, inr, Bool-cases, eq_cases, arith, update, dec32, ap, sym, ◌∙◌,
}
use aemu.Chain.{Ptr, null, unlink}
use aemu.Database.{Db, User, Event, emit, emit_all}
use aemu.Group.{leave_group}
use aemu.Group.Leave.{leave_group-spares}
use aemu.Session.{logout_user, retire, quit_game, drop_game}
use aemu.Session.Sockets.{closes, logout_user-closes, leave_group-closes}
use aemu.Server.{set_user}

-- How often the socket `fd` was closed.
abbrev pub closings : ℕ → Db → ℕ
closings fd s = count (closes fd) s.trace

abbrev pub address : User → ℕ × ℕ
address x = (x.ip, x.port)

-- No user is unlinked and no socket is closed.
pub record Silent (s t : Db) : Type 0 where
  pub users : t.users ≡ s.users
  pub streams : (w : Ptr) → (t.user w).stream ≡ (s.user w).stream
  pub addresses : (w : Ptr) → address (t.user w) ≡ address (s.user w)
  pub closings : (fd : ℕ) → closings fd t ≡ closings fd s

-- The user is unlinked, and only the user's socket is closed.
pub record HungUp (u : Ptr) (s t : Db) : Type 0 where
  pub users : t.users ≡ unlink null u s.users
  pub streams : (w : Ptr) → (t.user w).stream ≡ (s.user w).stream
  pub addresses : (w : Ptr) → address (t.user w) ≡ address (s.user w)
  pub closings :
      (fd : ℕ) → closings fd t ≡ closings fd s + (if (s.user u).stream == fd then 1 else 0)

abbrev pub Turned : Ptr → Db → Db → Type 0
Turned u s t = Silent s t ⊎ HungUp u s t

pub Silent-refl : (s : Db) → Silent s s
Silent-refl s = record {
  users = refl;
  streams = λ w. refl;
  addresses = λ w. refl;
  closings = λ fd. refl;
}

pub Silent-trans : {s t r : Db} → Silent s t → Silent t r → Silent s r
Silent-trans i j = record {
  users = j.users ∙ i.users;
  streams = λ w. j.streams w ∙ i.streams w;
  addresses = λ w. j.addresses w ∙ i.addresses w;
  closings = λ fd. j.closings fd ∙ i.closings fd;
}

pub Turned-after : {s t r : Db} (u : Ptr) → Silent s t → Turned u t r → Turned u s r
Turned-after u i (inl j) = inl (Silent-trans i j)
Turned-after {s} u i (inr j) = inr (record {
  users = j.users ∙ ap (unlink null u) i.users;
  streams = λ w. j.streams w ∙ i.streams w;
  addresses = λ w. j.addresses w ∙ i.addresses w;
  closings = λ fd. j.closings fd ∙ rw (i.closings fd, i.streams u) refl;
})

pub emit_all-Silent :
    (es : List Event) (s : Db) → ((fd : ℕ) → count (closes fd) es ≡ 0) → Silent s (emit_all es s)
emit_all-Silent es s h = record {
  users = refl;
  streams = λ w. refl;
  addresses = λ w. refl;
  closings = λ fd. omega (arith, count-append (closes fd) s.trace es, h fd);
}

pub set_user-Silent :
    (u : Ptr) (x : User) (s : Db)
    → x.stream ≡ (s.user u).stream
    → address x ≡ address (s.user u)
    → Silent s (set_user u x s)
set_user-Silent u x s h k = record {
  users = refl;
  streams = λ w. elim (eq_cases w u) [ inl (t, e) ↦ rw (t, e) h | inr (t, e) ↦ rw t refl ];
  addresses = λ w. elim (eq_cases w u) [ inl (t, e) ↦ rw (t, e) k | inr (t, e) ↦ rw t refl ];
  closings = λ fd. refl;
}

-- What logging out does to the users.
quit_game-spares :
    (g : Ptr) (s : Db) → ((quit_game g s).users ≡ s.users) × ((quit_game g s).user ≡ s.user)
unfolding quit_game drop_game
quit_game-spares g s =
    elim (Bool-cases (update s.game_playercount g (dec32 (s.game_playercount g)) g == 0)) [
      | inl t ↦ rw t (refl, refl)
      | inr t ↦ rw t (refl, refl)
    ]

retire-spares :
    (u : Ptr) (s : Db) → ((retire u s).users ≡ unlink null u s.users) × ((retire u s).user ≡ s.user)
unfolding retire
retire-spares u s = elim (Bool-cases (s.user_game u == null)) [
  | inl t ↦ rw t (refl, refl)
  | inr t ↦ rw t (
      quit_game-spares (s.user_game u)
        (emit (Event.closed (s.user u).stream) (record s { users = unlink null u s.users })))
]

logout_user-spares :
    (u : Ptr) (s : Db)
    → ((logout_user u s).users ≡ unlink null u s.users) × ((logout_user u s).user ≡ s.user)
unfolding logout_user
logout_user-spares u s = elim (Bool-cases (s.user_group u == null)) [
  | inl t ↦ rw t (retire-spares u s)
  | inr t ↦
      let (a, b) = retire-spares u (leave_group u s) in
      let (c, d, e) = leave_group-spares u s in rw t (a ∙ ap (unlink null u) e, b ∙ c)
]

pub logout_user-Turned : (u : Ptr) (s : Db) → Turned u s (logout_user u s)
logout_user-Turned u s = inr (record {
  users = (logout_user-spares u s).0;
  streams = λ w. ap (λ f. (f w).stream) (logout_user-spares u s).1;
  addresses = λ w. ap (λ f. address (f w)) (logout_user-spares u s).1;
  closings = λ fd. logout_user-closes fd u s;
})

pub leave_group-Silent : (u : Ptr) (s : Db) → Silent s (leave_group u s)
leave_group-Silent u s = record {
  users = (leave_group-spares u s).2;
  streams = λ w. ap (λ f. (f w).stream) (leave_group-spares u s).0;
  addresses = λ w. ap (λ f. address (f w)) (leave_group-spares u s).0;
  closings = λ fd. leave_group-closes fd u s;
}
