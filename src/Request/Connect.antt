-- ===== src/Request/Connect.antt =====
-- The well-formedness of the state after connect_user.
use aemu.Base.{◌≡◌, ◌≢◌, refl, ◌&&◌, ◌∷◌, ◌==◌, ◌∈◌, update, arith, eq_cases, inl, inr, Bool-cases}
use aemu.Bytes.{Bytes, strncmp_eq}
use aemu.Chain.{Ptr, null}
use aemu.Chain.Find.{first_hit, first_hit-mem, find_node-Seg}
use aemu.Database.{Db}
use aemu.Packet.{groupname_len}
use aemu.Group.{valid_group_name, find_group, create_group, enter_group, join_group}
use aemu.Session.Logout.{logout_user-IsServer}
use aemu.Request.{seek_group, connect_user}
use aemu.Invariant.{View, IsServerBut, IsServer, IsFresh, Handled}
use aemu.Invariant.Groups.{create_group-IsServerBut, enter_group-IsServer}
use aemu.Invariant.Games.{IsServerBut-weaken}
use aemu.Invariant.Trace.{IsServerBut-spared}

find_group-first_hit :
    {s : Db} {v : View} (i : IsServer s v) (game : Ptr) (name : Bytes)
    → find_group s game name
      ≡ first_hit (λ g. strncmp_eq groupname_len (s.group_name g) name) (v.groups game)
unfolding find_group
find_group-first_hit {s} {v} i game name =
    find_node-Seg _ s.groups.next s.groups.prev s.mallocs null (s.groups.head game) (v.groups game)
      (i.groups.seg game) (i.group_rounds game)

join_group-IsServer :
    {s : Db} {v : View} (u g : Ptr)
    → IsServerBut null g s v
    → u ∈ v.users
    → s.user_group u ≡ null
    → g ∈ v.groups (s.user_game u)
    → IsServer (join_group u g s) (record v { players = update v.players g (u ∷ v.players g) })
unfolding join_group enter_group
join_group-IsServer {s} u g i mem alone known =
    IsServerBut-spared s.user _ (enter_group-IsServer u g i mem alone known)

seek_group-IsServer :
    {s : Db} {v : View} (u : Ptr) (name : Bytes) (malloc : Ptr)
    → IsServer s v
    → u ∈ v.users
    → s.user_game u ≢ null
    → (malloc ≢ null → IsFresh v malloc)
    → s.user_group u ≡ null
    → Handled u v (seek_group u name malloc s)
unfolding seek_group create_group
seek_group-IsServer {s} {v} u name malloc i mem playing fresh alone =
    let game = s.user_game u in
    elim (eq_cases (find_group s game name) null) [
      | inl (t, none) ↦ elim (eq_cases malloc null) [
        | inl (m, e) ↦
            let (v', j, same) = logout_user-IsServer u i mem in rw (t, m) (v', j, inr same)
        | inr (m, ne) ↦
            let made =
              create_group-IsServerBut game name malloc i (fresh ne) (i.in_game u mem playing) in
            rw (t, m) (_, join_group-IsServer u malloc made mem alone (ground arith), inl refl)
      ]
      | inr (t, ne) ↦
          let e = find_group-first_hit i game name in
          let known : find_group s game name ∈ v.groups game =
            rw e (first_hit-mem _ (v.groups game) (rw e at ne)).0 in
          rw (t, t)
            (
              _,
              join_group-IsServer u (find_group s game name) (IsServerBut-weaken null _ i) mem alone
                  known,
              inl refl,
            )
    ]

-- connect_user of a user of a well-formed state who has a game leaves a well-formed state, whatever
-- the group's name, if malloc returns NULL or a free address. The user stays among the users or is
-- taken out, and the others stay in their order.
pub connect_user-IsServer :
    {s : Db} {v : View} (u : Ptr) (name : Bytes) (malloc : Ptr)
    → IsServer s v
    → u ∈ v.users
    → s.user_game u ≢ null
    → (malloc ≢ null → IsFresh v malloc)
    → Handled u v (connect_user u name malloc s)
unfolding connect_user
connect_user-IsServer {s} {v} u name malloc i mem playing fresh =
    elim (Bool-cases (valid_group_name name && (s.user_group u == null))) [
      | inl t ↦ rw t (seek_group-IsServer u name malloc i mem playing fresh (ground arith))
      | inr t ↦ let (v', j, same) = logout_user-IsServer u i mem in rw t (v', j, inr same)
    ]
