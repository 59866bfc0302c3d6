-- ===== src/Status/GameIds.antt =====
-- What get_game_id_list of pspnet_adhocctl_server/status.c leaves in its buffer.
pub mod Printed
use mathlib.Core.List.{append-nil, append_assoc}
use aemu.Base.{
  take_all, ℕ, zero, suc, ◌+◌, ◌-◌, ◌<◌, ◌≤◌, ◌≡◌, ◌⊎◌, refl, ap, ◌∙◌, ◌&&◌, List, [], ◌∷◌, ◌++◌,
  ltb, if◌then◌else◌, length, length-append, length-replicate, take, drop, get_or, replicate, arith,
  inl, inr, Bool-cases,
}
use aemu.Bytes.{Bytes, bytes_eq}
use aemu.Status.{Crosslinks, IdList, append_id, id_loop, drop_comma, get_game_id_list}
use aemu.Status.GameIds.Printed.{
  with_commas, joined, others, padded, IsPrinted, append_id-IsPrinted, Appended, id_loop-Appended,
  drop_comma-joined,
}

-- The identifiers that are listed: none if a call of SQLite failed, otherwise the identifier itself, if
-- it is more than two bytes shorter than the buffer, and the first k of the other rows.
abbrev pub listed : Crosslinks → Bytes → ℕ → ℕ → List Bytes
listed db id size k =
    if db.opened && db.prepared && db.bound
    then (if ltb (length id + 2) size then id ∷ [] else []) ++ take k (others id (db.rows id))
    else []

padded-nil : (size : ℕ) → replicate size 0 ≡ padded size []
padded-nil size = ap (λ (n : ℕ). replicate {A = ℕ} n 0) (omega arith)

length-padded : (size : ℕ) (text : Bytes) → length text < size → length (padded size text) ≡ size
length-padded size text h = omega (
  arith,
  length-append text (replicate (size - length text) 0),
  length-replicate {A = ℕ} (size - length text) 0,
)

begun-IsPrinted :
    (id : Bytes) (size : ℕ)
    → 0 < size
    → IsPrinted size (if ltb (length id + 2) size then id ∷ [] else []) (
        if ltb (length id + 2) size
        then append_id id (record { buf = replicate size 0; offset = 0 })
        else record { buf = replicate size 0; offset = 0 })
begun-IsPrinted id size h =
    let cleared : IsPrinted size [] (record { buf = replicate size 0; offset = 0 }) = record {
      offset = refl;
      room = h;
      buf = padded-nil size;
    } in
    elim (Bool-cases (ltb (length id + 2) size)) [
      | inl t ↦ rw t (append_id-IsPrinted size [] _ id cleared (ground arith))
      | inr t ↦ rw t cleared
    ]

-- For every buffer size above 0 and whatever SQLite answers, get_game_id_list leaves a buffer of
-- that size, so it writes nothing behind the buffer, and in it a string with NULs up to the end, at
-- least one. The string is the listed identifiers with commas between them. If a call of SQLite
-- failed none is listed. Otherwise these are the identifier itself, if it is more than two bytes
-- shorter than the buffer, and the first rows, in order, without those that repeat the identifier;
-- and all of these rows, unless they do not fit with a comma behind each and a NUL.
pub get_game_id_list-joined :
    (db : Crosslinks) (id : Bytes) (size : ℕ)
    → 0 < size
    → (k : ℕ) × (length (get_game_id_list db id size) ≡ size)
      × (get_game_id_list db id size ≡ padded size (joined (listed db id size k)))
      × (length (joined (listed db id size k)) < size)
      × ((listed db id size k ≡ listed db id size (length (others id (db.rows id))))
          ⊎ (size ≤ length (with_commas (listed db id size (length (others id (db.rows id)))))))
unfolding get_game_id_list
get_game_id_list-joined db id size h =
    let head = if ltb (length id + 2) size then id ∷ [] else [] in
    let rows = others id (db.rows id) in
    elim (Bool-cases (db.opened && db.prepared && db.bound)) [
      | inr failed ↦ rw failed (0, length-replicate size 0, padded-nil size, h, inl refl)
      | inl t ↦
          let (k, p, all) =
            id_loop-Appended id size (db.rows id) head _ (begun-IsPrinted id size h) in
          let (e, short) = drop_comma-joined size (head ++ take k rows) _ p in
          rw t (
            k,
            ap (λ (xs : Bytes). length xs) e ∙ length-padded size _ short,
            e,
            short,
            rw (take_all rows) (elim (Bool-cases (ltb (length (with_commas (head ++ rows))) size)) [
              | inl fits ↦ inl (ap (◌++◌ head) (all (ground arith)))
              | inr long ↦ inr (ground arith)
            ]),
          )
    ]
