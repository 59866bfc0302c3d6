-- ===== src/Session/Login.antt =====
-- The well-formedness of the state after login_user_stream and login_user_data.
use aemu.Base.{
  ℕ, ◌≡◌, ◌≢◌, refl, Bool, List, [], ◌∉◌, false, true, not, ◌&&◌, ◌||◌, ◌∷◌, ◌==◌, ltb,
  if◌then◌else◌, length, ◌∈◌, arith, eq_cases, inl, inr, sym, ◌∙◌, Bool-cases,
}
use aemu.Bytes.{Bytes, strncmp_eq}
use aemu.Chain.{Ptr, null}
use aemu.Chain.Find.{first_hit, first_hit-mem, first_hit-null, find_node-Seg}
use aemu.Chain.Seg.{null-not-mem}
use aemu.Database.{Db, server_user_maximum}
use aemu.Packet.{LoginPacket, product_code_length}
use aemu.Product.{Sqlite}
use aemu.Session.{
  find_user, login_user_stream, find_game, create_game, join_game, valid_login, login_user_data,
}
use aemu.Session.Logout.{logout_user-IsServer}
use aemu.Invariant.{View, IsServer, IsFresh, Handled}
use aemu.Invariant.Users.{add_user-IsServer}
use aemu.Invariant.Games.{create_game-IsServerBut, enter_game-IsServer, IsServerBut-weaken}
use aemu.Invariant.Trace.{IsServerBut-spared}

-- One of the users has the address and the port.
abbrev pub is_taken : Db → ℕ → ℕ → List Ptr → Bool
is_taken s ip port [] = false
is_taken s ip port (u ∷ us) =
    ((s.user u).ip == ip && (s.user u).port == port) || is_taken s ip port us

is_taken-first_hit :
    (s : Db) (ip port : ℕ) (us : List Ptr)
    → null ∉ us
    → (first_hit (λ u. not (not ((s.user u).ip == ip) || not ((s.user u).port == port))) us == null)
      ≡ not (is_taken s ip port us)
is_taken-first_hit s ip port [] out = refl
is_taken-first_hit s ip port (u ∷ us) out = ground (arith, is_taken-first_hit s ip port us)

module _ {s : Db} {v : View} (i : IsServer s v) where
  find_user-first_hit :
      (ip port : ℕ)
      → find_user s ip port
        ≡ first_hit (λ u. not (not ((s.user u).ip == ip) || not ((s.user u).port == port))) v.users
  unfolding find_user
  find_user-first_hit ip port =
      find_node-Seg _ s.users.next s.users.prev s.mallocs null (s.users.head null) v.users
        (i.users.seg null) i.user_rounds

  find_game-first_hit :
      (code : Bytes)
      → find_game s code
        ≡ first_hit (λ g. strncmp_eq product_code_length (s.game_code g) code) v.games
  unfolding find_game
  find_game-first_hit code =
      find_node-Seg _ s.games.next s.games.prev s.mallocs null (s.games.head null) v.games
        (i.games.seg null) i.game_rounds

  -- If, in a well-formed state, the search of login_user_stream finds no user with an address and a
  -- port, then a user with that address has another port.
  pub find_user-null :
      (ip port u : ℕ)
      → find_user s ip port ≡ null
      → u ∈ v.users
      → (s.user u).ip ≡ ip
      → (s.user u).port ≢ port
  find_user-null ip port u e h same =
      let none =
        first_hit-null (λ w. not (not ((s.user w).ip == ip) || not ((s.user w).port == port)))
          v.users u
          (null-not-mem s.users.next s.users.prev null (s.users.head null) v.users
            (i.users.seg null))
          (sym (find_user-first_hit ip port) ∙ e) h in
      ground arith

  pub login_user_stream-searched :
      (fd ip port malloc now : ℕ)
      → (malloc ≢ null → IsFresh v malloc)
      → IsServer (login_user_stream fd ip port malloc now s) (
          if ltb (length v.users) server_user_maximum
            && (find_user s ip port == null)
            && not (malloc == null)
          then record v { users = malloc ∷ v.users }
          else v)
  unfolding login_user_stream
  login_user_stream-searched fd ip port malloc now fresh =
      let test = λ (n : ℕ).
        ltb n server_user_maximum && (find_user s ip port == null) && not (malloc == null) in
      elim (Bool-cases (test (length v.users))) [
        | inl t ↦
            let t' : test s.user_count ≡ true = simp i.user_count t in
            rw (t, t')
              (IsServerBut-spared _ _
                (add_user-IsServer fd ip port malloc now i (fresh (ground arith)) (ground arith)))
        | inr t ↦
            let t' : test s.user_count ≡ false = simp i.user_count t in
            rw (t, t') (IsServerBut-spared s.user _ i)
      ]

  find_user-is_taken :
      (ip port : ℕ) → (find_user s ip port == null) ≡ not (is_taken s ip port v.users)
  find_user-is_taken ip port = rw (find_user-first_hit ip port) (
      is_taken-first_hit s ip port v.users (
        null-not-mem s.users.next s.users.prev null (s.users.head null) v.users (i.users.seg null)))

  -- login_user_stream takes a well-formed state to a well-formed state, if malloc returns NULL or a
  -- free address. The new node is put in front of the users if there are fewer than the maximum, no
  -- user has both the address and the port, and malloc did not return NULL; otherwise the users
  -- stay.
  pub login_user_stream-IsServer :
      (fd ip port malloc now : ℕ)
      → (malloc ≢ null → IsFresh v malloc)
      → IsServer (login_user_stream fd ip port malloc now s) (
          if ltb (length v.users) server_user_maximum
            && not (is_taken s ip port v.users)
            && not (malloc == null)
          then record v { users = malloc ∷ v.users }
          else v)
  login_user_stream-IsServer fd ip port malloc now fresh =
      rw (find_user-is_taken ip port) at (login_user_stream-searched fd ip port malloc now fresh)

module _ {s : Db} {v : View} (u : Ptr) (packet : LoginPacket) (i : IsServer s v) (mem : u ∈ v.users)
    (waiting : s.user_game u ≡ null) where
  known : (code : Bytes) → find_game s code ≢ null → find_game s code ∈ v.games
  known code ne =
      let e = find_game-first_hit i code in rw e (first_hit-mem _ v.games (rw e at ne)).0

  pub join_game-IsServer :
      (code : Bytes) (malloc : Ptr)
      → (malloc ≢ null → IsFresh v malloc)
      → Handled u v (join_game u packet code malloc s)
  unfolding join_game create_game
  join_game-IsServer code malloc fresh = elim (eq_cases (find_game s code) null) [
    | inl (t, none) ↦ elim (eq_cases malloc null) [
      | inl (m, e) ↦ let (v', j, same) = logout_user-IsServer u i mem in rw (t, m) (v', j, inr same)
      | inr (m, ne) ↦
          rw (t, m)
            (
              record v { games = malloc ∷ v.games },
              IsServerBut-spared _ _ (
                  enter_game-IsServer packet u malloc
                    (create_game-IsServerBut code malloc i (fresh ne)) mem waiting (ground arith)),
              inl refl,
            )
    ]
    | inr (t, ne) ↦
        rw (t, t)
          (
            v,
            IsServerBut-spared _ _ (
                enter_game-IsServer packet u (find_game s code) (IsServerBut-weaken _ null i) mem
                  waiting (known code ne)),
            inl refl,
          )
  ]

-- login_user_data of a user of a well-formed state who has no game yet leaves a well-formed state,
-- whatever the packet holds and SQLite answers, if malloc returns NULL or a free address. The user
-- stays among the users or is taken out, and the others stay in their order.
pub login_user_data-IsServer :
    {s : Db} {v : View} (db : Sqlite) (u : Ptr) (packet : LoginPacket) (malloc : Ptr)
    → IsServer s v
    → u ∈ v.users
    → s.user_game u ≡ null
    → (malloc ≢ null → IsFresh v malloc)
    → Handled u v (login_user_data db u packet malloc s)
unfolding login_user_data
login_user_data-IsServer {s} {v} db u packet malloc i mem waiting fresh =
    elim (Bool-cases (valid_login packet)) [
      | inl t ↦
          rw t
            (join_game-IsServer u packet (IsServerBut-spared s.user _ i) mem waiting _ malloc fresh)
      | inr t ↦ let (v', j, same) = logout_user-IsServer u i mem in rw t (v', j, inr same)
    ]
