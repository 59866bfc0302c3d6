-- ===== src/Server/Rx.antt =====
-- The receive buffer as a queue of bytes: recv and clear_user_rxbuf.
use aemu.Base.{
  ℕ, zero, suc, ◌+◌, ◌-◌, ◌≤◌, ◌≡◌, refl, false, [], ◌∷◌, ◌++◌, ◌==◌, ltb, if◌then◌else◌, length,
  length-append, length-take, length-drop, take, drop, arith, ap, ◌∙◌, ◌||◌,
}
use mathlib.Core.List.{append_assoc}
use aemu.Server.{write_rx, note_received}
use aemu.Bytes.{Bytes}
use aemu.Database.{User, rx_size}
use aemu.Session.{clear_user_rxbuf}

pub record IsRx (x : User) : Type 0 where
  pub size : length x.rx ≡ rx_size
  pub room : x.rxpos ≤ rx_size

-- The bytes that have been received and not consumed.
abbrev pub pending : User → Bytes
pending x = take x.rxpos x.rx

take-nil : (m : ℕ) → take {A = ℕ} m [] ≡ []
take-nil zero = refl
take-nil (suc m) = refl

take-append_short : (m : ℕ) (xs ys : Bytes) → m ≤ length xs → take m (xs ++ ys) ≡ take m xs
take-append_short zero xs ys h = refl
take-append_short (suc m) [] ys h = absurd (omega arith)
take-append_short (suc m) (x ∷ xs) ys h = ap (◌∷◌ x) (take-append_short m xs ys (omega arith))

take-append_exact : (k : ℕ) (xs ys : Bytes) → length xs ≡ k → take k (xs ++ ys) ≡ xs
take-append_exact zero [] ys h = refl
take-append_exact zero (x ∷ xs) ys h = absurd (omega arith)
take-append_exact (suc k) [] ys h = absurd (omega arith)
take-append_exact (suc k) (x ∷ xs) ys h = ap (◌∷◌ x) (take-append_exact k xs ys (omega arith))

take-drop : (n m k : ℕ) (xs : Bytes) → n + m ≡ k → take m (drop n xs) ≡ drop n (take k xs)
take-drop zero m k xs h = let e : m ≡ k = omega arith in rw e
take-drop (suc n) m zero xs h = absurd (omega arith)
take-drop (suc n) m (suc k) [] h = take-nil m
take-drop (suc n) m (suc k) (x ∷ xs) h = take-drop n m k xs (omega arith)

module _ (x : User) (i : IsRx x) where
  -- For a receive buffer of its full size whose position is inside it, clear_user_rxbuf of a number
  -- of bytes, no more than wait, drops that many of the waiting bytes from the front and keeps the
  -- others in their order.
  pub pending-clear_user_rxbuf :
      (n : ℕ) → n ≤ x.rxpos → pending (clear_user_rxbuf n x) ≡ drop n (pending x)
  unfolding clear_user_rxbuf
  pending-clear_user_rxbuf n h =
      let small : (n == 0xffff_ffff) ≡ false = ground (arith, i.room) in
      let below : ltb x.rxpos n ≡ false = ground arith in
      rw (small, below)
        (take-append_short (x.rxpos - n) (drop n x.rx) (drop (rx_size - n) x.rx)
            (omega (arith, length-drop n x.rx, i.size, i.room))
          ∙ take-drop n (x.rxpos - n) x.rxpos x.rx (omega arith))

  -- clear_user_rxbuf of -1, or of more than there is, empties the buffer.
  pub pending-clear_user_rxbuf_all : pending (clear_user_rxbuf 0xffff_ffff x) ≡ []
  unfolding clear_user_rxbuf
  pending-clear_user_rxbuf_all = let none : x.rxpos - x.rxpos ≡ 0 = omega arith in rw none

  -- clear_user_rxbuf with any argument keeps the receive buffer at its full size and the position
  -- inside it.
  clear_user_rxbuf-IsRx : (n : ℕ) → IsRx (clear_user_rxbuf n x)
  unfolding clear_user_rxbuf
  clear_user_rxbuf-IsRx n = record {
    size = ground (
      arith,
      i.size,
      i.room,
      length-append (drop cut x.rx) (drop (rx_size - cut) x.rx),
      length-drop cut x.rx,
      length-drop (rx_size - cut) x.rx,
    );
    room = ground (arith, i.room);
  }
    where
      cut : ℕ
      cut = if (n == 0xffff_ffff) || ltb x.rxpos n then x.rxpos else n

  -- recv puts its bytes behind those that wait, if it returns no more than there is room for.
  module _ (bytes : Bytes) (now : ℕ) (fits : x.rxpos + length bytes ≤ rx_size) where
    -- For a receive buffer of its full size whose position is inside it, the bytes that recv
    -- returns are put behind those that wait, if they are no more than there is room for.
    pub pending-received : pending (note_received bytes now (write_rx bytes x)) ≡ pending x ++ bytes
    unfolding note_received write_rx
    pending-received = rw (← append_assoc (pending x) bytes (drop (x.rxpos + length bytes) x.rx)) (
        take-append_exact (x.rxpos + length bytes) (pending x ++ bytes) _ (
          omega (arith, length-append (pending x) bytes, length-take x.rxpos x.rx, i.size, i.room)))

    pub received-IsRx : IsRx (note_received bytes now (write_rx bytes x))
    unfolding note_received write_rx
    received-IsRx = record {
      size = omega (
        arith,
        i.size,
        i.room,
        length-append (take x.rxpos x.rx) (bytes ++ drop (x.rxpos + length bytes) x.rx),
        length-append bytes (drop (x.rxpos + length bytes) x.rx),
        length-take x.rxpos x.rx,
        length-drop (x.rxpos + length bytes) x.rx,
      );
      room = fits;
    }
