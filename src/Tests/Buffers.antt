-- ===== src/Tests/Buffers.antt =====
-- The receive buffer and the status page.
use aemu.Base.{
  ℕ, ◌≤◌, ◌⊎◌, ◌-◌, ◌≡◌, ◌<◌, refl, true, some, [], ◌∷◌, ◌++◌, arith, replicate, length, count,
  take, drop,
}
use aemu.Bytes.{Bytes, c_string}
use aemu.Database.{User, cleared_user}
use aemu.Session.{clear_user_rxbuf}
use aemu.Server.{write_rx, note_received}
use aemu.Server.Rx.{IsRx, pending, pending-clear_user_rxbuf, pending-received}
use aemu.Status.{strcpyxml, Crosslinks, get_game_id_list}
use aemu.Status.Escape.{escape, is_markup, strcpyxml-escape, strcpyxml-no_markup}
use aemu.Status.GameIds.Printed.{with_commas, joined, others, padded}
use aemu.Status.GameIds.{listed, get_game_id_list-joined}
use aemu.Tests.States.{code}

-- Three bytes wait.
abbrev waiting : User
waiting = record cleared_user { rx = 1 ∷ 2 ∷ 3 ∷ replicate 1021 0; rxpos = 3 }

waiting-IsRx : IsRx waiting
waiting-IsRx = record { size = refl; room = omega arith }

pending-clear_user_rxbuf_example : pending (clear_user_rxbuf 1 waiting) ≡ drop 1 (pending waiting)
pending-clear_user_rxbuf_example = pending-clear_user_rxbuf waiting waiting-IsRx 1 (omega arith)

pending-received_example :
    pending (note_received (4 ∷ 5 ∷ []) 9 (write_rx (4 ∷ 5 ∷ []) waiting))
    ≡ pending waiting ++ (4 ∷ 5 ∷ [])
pending-received_example = pending-received waiting waiting-IsRx (4 ∷ 5 ∷ []) 9 (omega arith)

abbrev text : Bytes
text = b'a' ∷ b'<' ∷ b'"' ∷ b'b' ∷ 0 ∷ b'c' ∷ []

strcpyxml-escape_example :
    (k : ℕ) × (strcpyxml (some text) 8
      ≡ some (
          escape (take k (c_string text))
          ++ replicate (8 - length (escape (take k (c_string text)))) 0))
    × (length (escape (take k (c_string text))) < 8)
strcpyxml-escape_example = strcpyxml-escape text 8 (omega arith)

strcpyxml-no_markup_example :
    count is_markup (b'a' ∷ b'&' ∷ b'l' ∷ b't' ∷ b';' ∷ 0 ∷ 0 ∷ 0 ∷ []) ≡ 0
unfolding strcpyxml
strcpyxml-no_markup_example =
    strcpyxml-no_markup text 8 (b'a' ∷ b'&' ∷ b'l' ∷ b't' ∷ b';' ∷ 0 ∷ 0 ∷ 0 ∷ []) refl

abbrev crosslinks : Crosslinks
crosslinks = record {
  opened = true;
  prepared = true;
  bound = true;
  rows = λ _. (b'A' ∷ b'B' ∷ []) ∷ code ∷ [];
}

get_game_id_list-joined_example :
    (k : ℕ) × (length (get_game_id_list crosslinks code 24) ≡ 24)
    × (get_game_id_list crosslinks code 24 ≡ padded 24 (joined (listed crosslinks code 24 k)))
    × (length (joined (listed crosslinks code 24 k)) < 24)
    × ((listed crosslinks code 24 k
          ≡ listed crosslinks code 24 (length (others code (crosslinks.rows code))))
        ⊎ (24
            ≤ length (
                with_commas
                  (listed crosslinks code 24 (length (others code (crosslinks.rows code)))))))
get_game_id_list-joined_example = get_game_id_list-joined crosslinks code 24 (omega arith)
