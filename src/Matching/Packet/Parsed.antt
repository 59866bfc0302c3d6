-- ===== src/Matching/Packet/Parsed.antt =====
-- Reading the packets of pspnet_adhoc_matching/library/calls/start.c back.
use aemu.Base.{
  ℕ, zero, suc, ◌+◌, ◌*◌, ◌^◌, ◌≡◌, ◌<◌, ◌≤◌, refl, sym, ap, ◌∙◌, subst, true, List, [], ◌∷◌, ◌++◌,
  length, get_or, take, drop, arith, length-append,
}
use mathlib.Core.List.{reverse, reverse-cons}
use aemu.Bytes.{Bytes}
use aemu.Matching.{Mac}
use aemu.Matching.Packet.{
  write_int, read_int, is_positive, data_packet, concat_macs, accept_packet, optlen, siblingcount,
  is_complete, is_complete_accept, packet_opt, accept_opt, siblings_down, packet_siblings,
}

-- An int of 32 bits is read back.
pub read_int-write_int : (n : ℕ) (rest : Bytes) → n < 2 ^ 32 → read_int (write_int n ++ rest) ≡ n
unfolding read_int write_int
read_int-write_int n rest h = omega (arith, h)

pub take-append : (xs ys : Bytes) → take (length xs) (xs ++ ys) ≡ xs
take-append [] ys = refl
take-append (x ∷ xs) ys = ap (λ zs. x ∷ zs) (take-append xs ys)

pub drop-append : (xs ys : Bytes) → drop (length xs) (xs ++ ys) ≡ ys
drop-append [] ys = refl
drop-append (x ∷ xs) ys = drop-append xs ys

take-all : (xs : Bytes) → take (length xs) xs ≡ xs
take-all [] = refl
take-all (x ∷ xs) = ap (λ zs. x ∷ zs) (take-all xs)

pub drop-add : (m n : ℕ) (xs : Bytes) → drop (m + n) xs ≡ drop n (drop m xs)
drop-add zero n xs = let e : 0 + n ≡ n = omega arith in rw e refl
drop-add (suc m) zero [] = let e : suc m + 0 ≡ suc m = omega arith in rw e refl
drop-add (suc m) (suc n) [] = let e : suc m + suc n ≡ suc (m + suc n) = omega arith in rw e refl
drop-add (suc m) n (x ∷ xs) =
    let e : suc m + n ≡ suc (m + n) = omega arith in rw e (drop-add m n xs)

module _ (opcode : ℕ) (opt : Bytes) (h : length opt < 2 ^ 31) where
  optlen-data_packet : optlen (data_packet opcode opt) ≡ length opt
  unfolding optlen data_packet
  optlen-data_packet = read_int-write_int (length opt) opt (omega (arith, h))

  -- A hello, join, cancel or bulk packet whose data's length fits an int is complete for its
  -- receiver, who reads the data back.
  pub data_packet-parsed :
      (is_complete (data_packet opcode opt) (length (data_packet opcode opt)) ≡ true)
      × (packet_opt (data_packet opcode opt) ≡ opt)
  unfolding is_complete packet_opt data_packet write_int
  data_packet-parsed =
      let e = optlen-data_packet in
      let n : length (data_packet opcode opt) ≡ 5 + length opt = omega arith in
      (ground (arith, e, n, h), rw e (take-all opt))

-- MACs of six bytes.
abbrev pub AllMac : List Mac → Type 0
AllMac [] = Unit
AllMac (m ∷ ms) = (length m ≡ 6) × AllMac ms

pub length-concat_macs : (ms : List Mac) → AllMac ms → length (concat_macs ms) ≡ 6 * length ms
unfolding concat_macs
length-concat_macs [] h = refl
length-concat_macs (m ∷ ms) h =
    omega (arith, length-append m (concat_macs ms), length-concat_macs ms h.1, h.0)

-- The elements from i - 1 down to 0.
abbrev down : ℕ → List Mac → List Mac
down zero ms = []
down (suc i) ms = get_or ms i [] ∷ down i ms

down-suc : (n : ℕ) (m : Mac) (ms : List Mac) → down (suc n) (m ∷ ms) ≡ down n ms ++ m ∷ []
down-suc zero m ms = refl
down-suc (suc n) m ms = ap (λ zs. get_or ms n [] ∷ zs) (down-suc n m ms)

down-length : (ms : List Mac) → down (length ms) ms ≡ reverse ms
down-length [] = refl
down-length (m ∷ ms) =
    down-suc (length ms) m ms ∙ ap (λ zs. zs ++ m ∷ []) (down-length ms) ∙ sym (reverse-cons m ms)

take-concat_macs :
    (i : ℕ) (ms : List Mac)
    → AllMac ms
    → i < length ms
    → take 6 (drop (6 * i) (concat_macs ms)) ≡ get_or ms i []
unfolding concat_macs
take-concat_macs i [] h l = absurd (omega arith)
take-concat_macs zero (m ∷ ms) h l =
    subst (λ n. take n (m ++ concat_macs ms) ≡ m) h.0 (take-append m (concat_macs ms))
take-concat_macs (suc i) (m ∷ ms) h l =
    let e : 6 * suc i ≡ length m + 6 * i = omega (arith, h.0) in
    rw (e, drop-add (length m) (6 * i) (m ++ concat_macs ms), drop-append m (concat_macs ms))
      (take-concat_macs i ms h.1 (omega (arith, l)))

siblings_down-lem :
    (n : ℕ) (ms : List Mac)
    → AllMac ms
    → n ≤ length ms
    → siblings_down n (concat_macs ms) ≡ down n ms
unfolding siblings_down
siblings_down-lem zero ms h l = refl
siblings_down-lem (suc n) ms h l =
    rw (take-concat_macs n ms h (omega (arith, l)), siblings_down-lem n ms h (omega (arith, l)))
      refl

module _ (opt : Bytes) (ms : List Mac) (macs : AllMac ms)
    (h : 9 + length opt + 6 * length ms < 2 ^ 31) where
  abbrev packet : Bytes
  packet = accept_packet opt (length ms) (concat_macs ms)

  optlen-accept_packet : optlen packet ≡ length opt
  unfolding optlen accept_packet
  optlen-accept_packet = read_int-write_int (length opt) _ (omega (arith, h))

  siblingcount-accept_packet : siblingcount packet ≡ length ms
  unfolding siblingcount accept_packet write_int
  siblingcount-accept_packet =
      read_int-write_int (length ms) (opt ++ concat_macs ms) (omega (arith, h))

  pub length-accept_packet : length packet ≡ 9 + length opt + 6 * length ms
  unfolding accept_packet write_int
  length-accept_packet =
      omega (arith, length-append opt (concat_macs ms), length-concat_macs ms macs)

  siblings-accept_packet : packet_siblings packet ≡ reverse ms
  unfolding packet_siblings accept_packet write_int
  siblings-accept_packet =
      let small : is_positive (length ms) ≡ true = ground (arith, h) in
      rw
        (
          siblingcount-accept_packet,
          optlen-accept_packet,
          small,
          drop-add 9 (length opt) packet,
          drop-append opt (concat_macs ms),
          siblings_down-lem (length ms) ms macs (omega arith),
        )
        (down-length ms)

  -- claim
  pub accept_packet-parsed :
      (is_complete_accept packet (length packet) ≡ true)
      × (accept_opt packet ≡ opt)
      × (packet_siblings packet ≡ reverse ms)
  unfolding is_complete_accept accept_opt accept_packet write_int
  accept_packet-parsed = (
    ground (arith, length-accept_packet, siblingcount-accept_packet, optlen-accept_packet, h),
    rw optlen-accept_packet (take-append opt (concat_macs ms)),
    siblings-accept_packet,
  )
