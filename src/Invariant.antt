-- ===== src/Invariant.antt =====
-- The well-formedness of the server's state, against a ghost view: which users and games there are,
-- the groups of each game and the players of each group, each in the order of its list.
pub mod Facts
pub mod Users
pub mod Games
pub mod Groups
pub mod Leaving
pub mod Logout
pub mod Trace
use aemu.Base.{
  ℕ, ◌+◌, ◌≤◌, ◌<◌, ◌≡◌, ◌≢◌, Bool, List, [], ◌∷◌, ◌==◌, if◌then◌else◌, length, count, erase, ◌⊎◌,
  ◌∈◌, ◌∉◌,
}
use aemu.Chain.{Ptr, null}
use aemu.Chain.Seg.{IsLists}
use aemu.Database.{Db, server_user_maximum}

pub record View : Type 0 where
  pub users : List Ptr
  pub games : List Ptr
  pub groups : Ptr → List Ptr
  pub players : Ptr → List Ptr

-- A global list, as the list of the owner NULL.
abbrev pub solo : List Ptr → Ptr → List Ptr
solo xs o = if o == null then xs else []

-- `empty_game` and `empty_group` may have no player yet, or no more; NULL stands for no exception.
pub record IsServerBut (empty_game empty_group : Ptr) (s : Db) (v : View) : Type 0 where
  -- the pointers make the four kinds of lists
  pub users : IsLists s.users (solo v.users)
  pub games : IsLists s.games (solo v.games)
  pub groups : IsLists s.groups v.groups
  pub players : IsLists s.players v.players
  -- the counters, and the number of rounds that a loop may take
  pub user_count : s.user_count ≡ length v.users
  pub user_maximum : length v.users ≤ server_user_maximum
  pub playercount :
      (o : Ptr) → o ∈ v.games → s.game_playercount o ≡ count (λ u. s.user_game u == o) v.users
  pub groupcount : (o : Ptr) → o ∈ v.games → s.game_groupcount o ≡ length (v.groups o)
  pub group_playercount :
      (o g : Ptr) → g ∈ v.groups o → s.group_playercount g ≡ length (v.players g)
  pub players_counted :
      (g : Ptr) → g ≢ null → length (v.players g) ≡ count (λ u. s.user_group u == g) v.users
  pub user_rounds : length v.users ≤ s.mallocs
  pub game_rounds : length v.games ≤ s.mallocs
  pub group_rounds : (o : Ptr) → length (v.groups o) ≤ s.mallocs
  -- who belongs to what
  pub group_owner : (o g : Ptr) → g ∈ v.groups o → (s.group_game g ≡ o) × (o ∈ v.games)
  pub player_of : (g u : Ptr) → u ∈ v.players g → (s.user_group u ≡ g) × (u ∈ v.users) × (g ≢ null)
  pub in_group :
      (u : Ptr)
      → u ∈ v.users
      → s.user_group u ≢ null
      → (u ∈ v.players (s.user_group u)) × (s.user_group u ∈ v.groups (s.user_game u))
  pub in_game : (u : Ptr) → u ∈ v.users → s.user_game u ≢ null → s.user_game u ∈ v.games
  -- the group pointers of a user in no group are cleared
  pub clean : (u : Ptr) → u ∈ v.users → s.user_group u ≡ null → s.players.prev u ≡ null
  -- no game and no group is kept for nobody
  pub game_used : (o : Ptr) → o ∈ v.games → o ≢ empty_game → 0 < s.game_playercount o
  pub group_used : (o g : Ptr) → g ∈ v.groups o → g ≢ empty_group → 0 < length (v.players g)

abbrev pub IsServer : Db → View → Type 0
IsServer = IsServerBut null null

-- What malloc promises: the address of no live node, and not NULL.
pub record IsFresh (v : View) (a : Ptr) : Type 0 where
  pub ne_null : a ≢ null
  pub users : a ∉ v.users
  pub games : a ∉ v.games
  pub groups : (o : Ptr) → a ∉ v.groups o

abbrev pub no_view : View
no_view = record { users = []; games = []; groups = λ _. []; players = λ _. [] }

-- `t` is well-formed, and has the users of `v` in their order, with or without `u`.
abbrev pub Handled : Ptr → View → Db → Type 0
Handled u v t = (v' : View) × IsServer t v' × ((v'.users ≡ v.users) ⊎ (v'.users ≡ erase u v.users))

-- What malloc promises in the state `s`, when it returns `a`.
abbrev pub Allocates : Db → Ptr → Type 0
Allocates s a = (v : View) → IsServer s v → a ≢ null → IsFresh v a
