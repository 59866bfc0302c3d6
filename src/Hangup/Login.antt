-- ===== src/Hangup/Login.antt =====
-- The sockets in login_user_data.
use aemu.Base.{
  ℕ, ◌≡◌, refl, Option, some, none, [], ◌∷◌, count, take, ◌⊎◌, ◌&&◌, inl, inr, Bool-cases, eq_cases,
}
use aemu.Bytes.{Bytes, c_string}
use aemu.Chain.{Ptr, null}
use aemu.Packet.{LoginPacket, product_code_length}
use aemu.Database.{Db, Event, status_updated}
use aemu.Product.{Sqlite, Step, row, finished, failed, returned_row, game_product_override}
use aemu.Session.{create_game, enter_game, find_game, join_game, valid_login, login_user_data}
use aemu.Session.Sockets.{closes}
use aemu.Hangup.{Silent, Turned, Silent-trans, Turned-after, emit_all-Silent, logout_user-Turned}

create_game-Silent : (code : Bytes) (game : Ptr) (s : Db) → Silent s (create_game code game s)
unfolding create_game
create_game-Silent code game s = record {
  users = refl;
  streams = λ w. refl;
  addresses = λ w. refl;
  closings = λ fd. refl;
}

enter_game-Silent :
    (packet : LoginPacket) (u game : Ptr) (s : Db) → Silent s (enter_game packet u game s)
unfolding enter_game
enter_game-Silent packet u game s = record {
  users = refl;
  streams = λ w. elim (eq_cases w u) [ inl (t, e) ↦ rw (t, e) refl | inr (t, e) ↦ rw t refl ];
  addresses = λ w. elim (eq_cases w u) [ inl (t, e) ↦ rw (t, e) refl | inr (t, e) ↦ rw t refl ];
  closings = λ fd. refl;
}

pub join_game-Turned :
    (u : Ptr) (packet : LoginPacket) (code : Bytes) (malloc : Ptr) (s : Db)
    → Turned u s (join_game u packet code malloc s)
unfolding join_game
join_game-Turned u packet code malloc s = elim (eq_cases (find_game s code) null) [
  | inl (t, unknown) ↦ elim (eq_cases malloc null) [
    | inl (m, e) ↦ rw (t, m) (logout_user-Turned u s)
    | inr (m, ne) ↦
        rw (t, m)
          (inl (
            Silent-trans (create_game-Silent code malloc s) (
              Silent-trans (enter_game-Silent packet u malloc (create_game code malloc s))
                (emit_all-Silent (status_updated ∷ []) _ (λ fd. refl)))))
  ]
  | inr (t, ne) ↦
      rw (t, t)
        (inl (
          Silent-trans (enter_game-Silent packet u (find_game s code) s)
            (emit_all-Silent (status_updated ∷ []) _ (λ fd. refl))))
]

Option-cases : (o : Option Bytes) → ((x : Bytes) × (o ≡ some x)) ⊎ (o ≡ none)
Option-cases none = inr refl
Option-cases (some x) = inl (x, refl)

module _ (fd : ℕ) (db : Sqlite) (product : Bytes) where
  abbrev id : Bytes
  id = c_string (take product_code_length product)

  step-closes :
      (t : Step)
      → count (closes fd) (elim t [ finished ↦ Event.product_inserted id ∷ [] | _ ↦ [] ]) ≡ 0
  step-closes finished = refl
  step-closes failed = refl
  step-closes (row column) = refl

  -- What is written to the database closes no socket.
  override-closes : count (closes fd) (game_product_override db product).1 ≡ 0
  unfolding game_product_override
  override-closes = elim (Bool-cases db.opened) [
    | inr t ↦ rw t refl
    | inl t ↦ rw t (elim (Option-cases (returned_row (db.crosslink id))) [
      | inl (x, e) ↦ rw e refl
      | inr e ↦ rw e (elim (Option-cases (returned_row (db.productid id))) [
        | inl (x, k) ↦ rw k refl
        | inr k ↦ rw k (elim (Bool-cases ((db.insert id).prepared && (db.insert id).bound)) [
          | inl b ↦ rw b (step-closes (db.insert id).step)
          | inr b ↦ rw b refl
        ])
      ])
    ])
  ]

pub login_user_data-Turned :
    (db : Sqlite) (u : Ptr) (packet : LoginPacket) (malloc : Ptr) (s : Db)
    → Turned u s (login_user_data db u packet malloc s)
unfolding login_user_data
login_user_data-Turned db u packet malloc s = elim (Bool-cases (valid_login packet)) [
  | inl t ↦
      let (code, writes) = game_product_override db packet.game in
      rw t (
        Turned-after u
          (emit_all-Silent (game_product_override db packet.game).1 s
            (λ fd. override-closes fd db packet.game))
          (join_game-Turned u packet (game_product_override db packet.game).0 malloc _))
  | inr t ↦ rw t (logout_user-Turned u s)
]
