-- ===== src/Hangup/Balance.antt =====
-- The sockets that were closed and the sockets of the users, together.
use aemu.Base.{
  count-same, ℕ, ◌+◌, ◌≡◌, ◌≢◌, refl, Bool, true, false, not, ◌&&◌, List, [], ◌∷◌, ◌==◌, ltb,
  if◌then◌else◌, length, count, count-append, count-erase, erase, ◌∈◌, ◌∉◌, inl, inr, Bool-cases,
  arith, ap, sym, subst, ◌∙◌,
}
use aemu.Chain.{Ptr, null, Lists, unlink}
use aemu.Chain.Seg.{Seg}
use aemu.Chain.Unlink.{unlink-IsLists}
use aemu.Database.{Db, Event, emit, status_updated, server_user_maximum}
use aemu.Session.{login_user_stream, add_user, find_user}
use aemu.Session.Sockets.{closes}
use aemu.Hangup.{closings, Silent, HungUp, Turned}
use aemu.Invariant.{View, IsServer, IsFresh}

-- Pointers make one list.
Seg-unique :
    (next prev : Ptr → Ptr) (p q a : Ptr) (xs ys : List Ptr)
    → Seg next prev p a xs
    → Seg next prev q a ys
    → xs ≡ ys
Seg-unique next prev p q a [] [] s t = refl
Seg-unique next prev p q a [] (y ∷ ys) s t = absurd (t.1 (sym t.0 ∙ s))
Seg-unique next prev p q a (x ∷ xs) [] s t = absurd (s.1 (sym s.0 ∙ t))
Seg-unique next prev p q a (x ∷ xs) (y ∷ ys) s t =
    let same : x ≡ y = sym s.0 ∙ t.0 in
    rw same (ap (◌∷◌ y) (Seg-unique next prev y y (next y) xs ys (rw same at s.3) t.3))

-- The list of users that the pointers make.
Chained : Lists → List Ptr → Type 0
Chained l xs = Seg l.next l.prev null (l.head null) xs

module _ (fd : ℕ) where
  abbrev pub holds : Db → Ptr → Bool
  holds s u = (s.user u).stream == fd

  -- How often `fd` was closed, and how many users have it.
  abbrev pub balance : Db → View → ℕ
  balance s v = closings fd s + count (holds s) v.users

  module _ {s t : Db} {v w : View} (u : Ptr) (i : IsServer s v) (mem : u ∈ v.users)
      (j : IsServer t w) where
    Silent-balance : Silent s t → balance t w ≡ balance s v
    Silent-balance q =
        let same : w.users ≡ v.users =
          Seg-unique s.users.next s.users.prev null null (s.users.head null) w.users v.users
            (subst (λ l. Seg l.next l.prev null (l.head null) w.users) q.users (j.users.seg null))
            (i.users.seg null) in
        let held =
          count-same (holds t) (holds s) v.users (λ x m. ap (λ f. f == fd) (q.streams x)) in
        rw (same, q.closings fd, held) refl

    HungUp-balance : HungUp u s t → balance t w ≡ balance s v
    HungUp-balance q =
        let l = unlink null u s.users in
        let same : w.users ≡ erase u v.users =
          Seg-unique l.next l.prev null null (l.head null) w.users (erase u v.users)
            (subst (λ l. Seg l.next l.prev null (l.head null) w.users) q.users (j.users.seg null))
            ((unlink-IsLists null u i.users mem).seg null) in
        let held =
          count-same (holds t) (holds s) (erase u v.users)
            (λ x m. ap (λ f. f == fd) (q.streams x)) in
        rw (same, q.closings fd, held) (omega (arith, count-erase (holds s) u v.users mem))

    pub Turned-balance : Turned u s t → balance t w ≡ balance s v
    Turned-balance (inl q) = Silent-balance q
    Turned-balance (inr q) = HungUp-balance q

  abbrev pub test : Db → ℕ → ℕ → Ptr → ℕ → Bool
  test s ip port malloc n =
      ltb n server_user_maximum && (find_user s ip port == null) && not (malloc == null)

  added-balance :
      (s : Db) (v : View) (c ip port malloc now : ℕ)
      → malloc ∉ v.users
      → balance
          (emit status_updated (add_user c ip port malloc now s))
          (record v { users = malloc ∷ v.users })
        ≡ balance s v + (if c == fd then 1 else 0)
  unfolding add_user
  added-balance s v c ip port malloc now out =
      let others : count (holds (add_user c ip port malloc now s)) v.users
          ≡ count (holds s) v.users =
        count-same _ (holds s) v.users (λ x m. ground arith) in
      ground (arith, count-append (closes fd) s.trace (status_updated ∷ []), others)

  refused-balance :
      (s : Db) (v : View) (c : ℕ)
      → balance (emit (Event.closed c) s) v ≡ balance s v + (if c == fd then 1 else 0)
  refused-balance s v c = omega (arith, count-append (closes fd) s.trace (Event.closed c ∷ []))

  pub admitted :
      (s : Db) (c ip port malloc now : ℕ)
      → test s ip port malloc s.user_count ≡ true
      → login_user_stream c ip port malloc now s
        ≡ emit status_updated (add_user c ip port malloc now s)
  unfolding login_user_stream
  admitted s c ip port malloc now t = rw t refl

  pub refused :
      (s : Db) (c ip port malloc now : ℕ)
      → test s ip port malloc s.user_count ≡ false
      → login_user_stream c ip port malloc now s ≡ emit (Event.closed c) s
  unfolding login_user_stream
  refused s c ip port malloc now t = rw t refl

  -- A connection is closed at once, or its user has it.
  pub login_user_stream-balance :
      {s : Db} {v : View} (c ip port malloc now : ℕ)
      → IsServer s v
      → (malloc ≢ null → IsFresh v malloc)
      → balance (login_user_stream c ip port malloc now s) (
          if test s ip port malloc (length v.users)
          then record v { users = malloc ∷ v.users }
          else v)
        ≡ balance s v + (if c == fd then 1 else 0)
  login_user_stream-balance {s} {v} c ip port malloc now i fresh =
      elim (Bool-cases (test s ip port malloc (length v.users))) [
        | inl t ↦
            let t' : test s ip port malloc s.user_count ≡ true = simp i.user_count t in
            let out : malloc ∉ v.users = (fresh (ground arith)).users in
            rw t (
              subst
                (λ r.
                  balance r (record v { users = malloc ∷ v.users })
                  ≡ balance s v + (if c == fd then 1 else 0))
                (sym (admitted s c ip port malloc now t'))
                (added-balance s v c ip port malloc now out))
        | inr t ↦
            let t' : test s ip port malloc s.user_count ≡ false = simp i.user_count t in
            rw (t, refused s c ip port malloc now t') (refused-balance s v c)
      ]
