-- ===== src/Status/GameIds/Printed.antt =====
-- The buffer while get_game_id_list of pspnet_adhocctl_server/status.c appends to it.
use mathlib.Core.List.{append-nil, append_assoc}
use aemu.Base.{
  take-append, drop-append, drop-replicate, get_or-append, ℕ, suc, ◌+◌, ◌-◌, ◌<◌, ◌≤◌, ◌≡◌, refl,
  ap, List, [], ◌∷◌, ◌++◌, ltb, if◌then◌else◌, length, length-append, take, drop, replicate, arith,
  inl, inr, Bool-cases,
}
use aemu.Bytes.{Bytes, bytes_eq}
use aemu.Status.{IdList, append_id, id_loop, drop_comma}

-- The identifiers with a comma behind each, and with commas between them.
abbrev pub with_commas : List Bytes → Bytes
with_commas [] = []
with_commas (k ∷ ks) = k ++ (b',' ∷ with_commas ks)

abbrev pub joined : List Bytes → Bytes
joined [] = []
joined (k ∷ []) = k
joined (k ∷ l ∷ ks) = k ++ (b',' ∷ joined (l ∷ ks))

-- The rows but those that repeat the identifier.
abbrev pub others : Bytes → List Bytes → List Bytes
others id [] = []
others id (row ∷ rows) = if bytes_eq id row then others id rows else row ∷ others id rows

-- A string in a buffer of this size, with NULs behind it.
abbrev pub padded : ℕ → Bytes → Bytes
padded size text = text ++ replicate (size - length text) 0

with_commas-append :
    (ks ls : List Bytes) → with_commas (ks ++ ls) ≡ with_commas ks ++ with_commas ls
with_commas-append [] ls = refl
with_commas-append (k ∷ ks) ls = simp (with_commas-append ks ls, append_assoc)

with_commas-joined :
    (k : Bytes) (ks : List Bytes) → with_commas (k ∷ ks) ≡ joined (k ∷ ks) ++ (b',' ∷ [])
with_commas-joined k [] = refl
with_commas-joined k (l ∷ ks) = simp (with_commas-joined l ks, append_assoc)

-- The buffer while the loop runs: these identifiers, and NULs up to the end.
pub record IsPrinted (size : ℕ) (ks : List Bytes) (l : IdList) : Type 0 where
  pub offset : l.offset ≡ length (with_commas ks)
  pub room : l.offset < size
  pub buf : l.buf ≡ padded size (with_commas ks)

-- One more identifier behind a text, in a buffer with room for it.
append-padded :
    (size : ℕ) (text id : Bytes)
    → length text + (length id + 2) ≤ size
    → take (length text) (padded size text)
        ++ (id ++ (b',' ∷ 0 ∷ drop (length text + (length id + 2)) (padded size text)))
      ≡ padded size (text ++ (id ++ b',' ∷ []))
append-padded size text id h =
    let zeros : Bytes = replicate (size - length text) 0 in
    let left : size - length (text ++ (id ++ b',' ∷ []))
        ≡ suc (size - length text - (length id + 2)) =
      omega (arith, length-append text (id ++ b',' ∷ []), length-append id (b',' ∷ [])) in
    rw
      (
        take-append text zeros (length text) refl,
        drop-append text zeros (length text + (length id + 2)) (length id + 2) refl,
        drop-replicate {A = ℕ} (length id + 2) (size - length text) 0,
        left,
      )
      (simp append_assoc)

pub append_id-IsPrinted :
    (size : ℕ) (ks : List Bytes) (l : IdList) (id : Bytes)
    → IsPrinted size ks l
    → length id + 2 ≤ size - l.offset
    → IsPrinted size (ks ++ id ∷ []) (append_id id l)
unfolding append_id
append_id-IsPrinted size ks l id p h =
    let text = with_commas ks in
    let more : with_commas (ks ++ id ∷ []) ≡ text ++ (id ++ b',' ∷ []) =
      with_commas-append ks (id ∷ []) in
    record {
      offset = rw more (
          omega
            (arith, p.offset, length-append text (id ++ b',' ∷ []), length-append id (b',' ∷ [])));
      room = omega (arith, p.room, h);
      buf =
          rw (more, p.buf, p.offset)
            (append-padded size text id (omega (arith, p.room, p.offset, h)));
    }

-- The loop appends the first rows, but those that repeat the identifier, and all of them if they fit.
abbrev pub Appended : Bytes → ℕ → List Bytes → List Bytes → IdList → Type 0
Appended id size rows ks l =
    (k : ℕ) × IsPrinted size (ks ++ take k (others id rows)) l
    × (length (with_commas (ks ++ others id rows)) < size
        → take k (others id rows) ≡ others id rows)

too_long :
    (size : ℕ) (ks rest : List Bytes) (row : Bytes)
    → length (with_commas (ks ++ (row ∷ rest))) < size
    → length (with_commas ks) + (length row + 2) ≤ size
too_long size ks rest row h = omega (
  arith,
  ap length (with_commas-append ks (row ∷ rest)),
  length-append (with_commas ks) (row ++ (b',' ∷ with_commas rest)),
  length-append row (b',' ∷ with_commas rest),
)

pub id_loop-Appended :
    (id : Bytes) (size : ℕ) (rows : List Bytes) (ks : List Bytes) (l : IdList)
    → IsPrinted size ks l
    → Appended id size rows ks (id_loop id size rows l)
unfolding id_loop
id_loop-Appended id size [] ks l p = (0, rw (append-nil) p, λ h. refl)
id_loop-Appended id size (row ∷ rows) ks l p = elim (Bool-cases (bytes_eq id row)) [
  | inl same ↦ rw same (id_loop-Appended id size rows ks l p)
  | inr other ↦ rw other (elim (Bool-cases (ltb (size - l.offset) (length row + 2))) [
    | inl full ↦ rw full (
      0,
      rw (append-nil) p,
      λ h. absurd (ground (arith, too_long size ks (others id rows) row h, p.offset)),
    )
    | inr room ↦
        let (k, q, all) =
          id_loop-Appended id size rows (ks ++ row ∷ []) (append_id row l)
            (append_id-IsPrinted size ks l row p (ground arith)) in
        rw room (
          suc k,
          rw (append_assoc ks (row ∷ []) (take k (others id rows))) at q,
          λ h. ap (◌∷◌ row) (all (rw (append_assoc ks (row ∷ []) (others id rows)) h)),
        )
  ])
]

-- A NUL in place of the last comma.
drop_comma-padded :
    (size : ℕ) (text : Bytes) (l : IdList)
    → l.offset ≡ suc (length text)
    → l.offset < size
    → l.buf ≡ padded size (text ++ b',' ∷ [])
    → drop_comma l ≡ padded size text
unfolding drop_comma
drop_comma-padded size text l o room e =
    let zeros : Bytes = replicate (size - suc (length text)) 0 in
    let long : length (text ++ b',' ∷ []) ≡ suc (length text) =
      omega (arith, length-append text (b',' ∷ [])) in
    let buf : l.buf ≡ text ++ (b',' ∷ zeros) = rw (e, long) (append_assoc text (b',' ∷ []) zeros) in
    let behind : suc (length text) - 1 ≡ length text = omega arith in
    let left : size - length text ≡ suc (size - suc (length text)) = omega (arith, o, room) in
    rw
      (
        o,
        behind,
        buf,
        get_or-append {A = ℕ} text zeros b',' 0,
        take-append text (b',' ∷ zeros) (length text) refl,
        drop-append text (b',' ∷ zeros) (suc (length text)) 1 (omega arith),
        left,
      )
      (ground arith)

pub drop_comma-joined :
    (size : ℕ) (ks : List Bytes) (l : IdList)
    → IsPrinted size ks l
    → (drop_comma l ≡ padded size (joined ks)) × (length (joined ks) < size)
unfolding drop_comma
drop_comma-joined size [] l p =
    let none : l.offset ≡ 0 = p.offset in (rw none p.buf, omega (arith, p.room, p.offset))
drop_comma-joined size (k ∷ ks) l p =
    let text = joined (k ∷ ks) in
    let e : with_commas (k ∷ ks) ≡ text ++ b',' ∷ [] = with_commas-joined k ks in
    let long : length (joined (k ∷ ks) ++ b',' ∷ []) ≡ length text + 1 =
      length-append text (b',' ∷ []) in
    let at_comma : l.offset ≡ suc (length text) =
      omega (arith, p.offset, ap (λ (xs : Bytes). length xs) e, long) in
    (
      drop_comma-padded size text l at_comma p.room (rw (← e) p.buf),
      omega (arith, at_comma, p.room),
    )
