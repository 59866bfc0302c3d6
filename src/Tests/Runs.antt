-- ===== src/Tests/Runs.antt =====
-- Runs of the model on concrete bytes.
use aemu.Base.{◌≡◌, refl, true, some, [], ◌∷◌, ◌++◌, replicate, take}
use aemu.Bytes.{Bytes, c_string}
use aemu.Packet.Opcode
use aemu.Product.{valid_product_code, game_product_override}
use aemu.Server.{
  Turn, Received, handle_user, handle_received, handle_data, handle_waiting, is_timed_out,
  is_waiting, write_rx, note_received, consume,
}
use aemu.Session.{
  login_user_data, join_game, find_game, valid_login, create_game, enter_game, login_user_stream,
  add_user, find_user,
}
use aemu.Packet.{login_packet}
use aemu.Status.{strcpyxml, get_game_id_list, Crosslinks}
use aemu.Tests.States.{one, code}
use aemu.Tests.Rounds.{ping_turn}

-- The text a<"b, escaped into 8 bytes: the quote does not fit.
strcpyxml_cut :
    strcpyxml (some (b'a' ∷ b'<' ∷ b'"' ∷ b'b' ∷ [])) 8
    ≡ some (b'a' ∷ b'&' ∷ b'l' ∷ b't' ∷ b';' ∷ 0 ∷ 0 ∷ 0 ∷ [])
unfolding strcpyxml
strcpyxml_cut = refl

abbrev links : Crosslinks
links = record {
  opened = true;
  prepared = true;
  bound = true;
  rows = λ _. (b'B' ∷ []) ∷ (b'A' ∷ []) ∷ (b'C' ∷ b'D' ∷ []) ∷ (b'E' ∷ []) ∷ [];
}

-- The identifier itself is not repeated, and the last one does not fit.
game_ids_cut :
    get_game_id_list links (b'A' ∷ []) 8 ≡ b'A' ∷ b',' ∷ b'B' ∷ b',' ∷ b'C' ∷ b'D' ∷ 0 ∷ 0 ∷ []
unfolding get_game_id_list
game_ids_cut = refl

-- A login packet, byte by byte.
abbrev login_bytes : Bytes
login_bytes = (1 ∷ 2 ∷ 3 ∷ 4 ∷ 5 ∷ 6 ∷ []) ++ (b'P' ∷ replicate 127 0) ++ code

abbrev login_turn : Turn
login_turn = record ping_turn { recv = Received.received Opcode.login login_bytes; malloc = 2 }

-- It puts the user into a new game with that code.
logs_in : (handle_user login_turn 1 one).user_game 1 ≡ 2
unfolding handle_user handle_received handle_data handle_waiting is_timed_out is_waiting write_rx
    note_received consume login_user_data valid_login valid_product_code game_product_override
    join_game find_game create_game enter_game login_user_stream add_user find_user login_packet
    c_string
logs_in = refl

-- The packet is taken out of the buffer.
login_consumed : ((handle_user login_turn 1 one).user 1).rxpos ≡ 0
unfolding handle_user handle_received handle_data handle_waiting is_timed_out is_waiting write_rx
    note_received consume login_user_data valid_login valid_product_code game_product_override
    join_game find_game create_game enter_game login_user_stream add_user find_user login_packet
    c_string
login_consumed = refl

-- The same bytes without the last one stay there, and the user waits.
abbrev short_turn : Turn
short_turn = record login_turn { recv = Received.received Opcode.login (take 142 login_bytes) }

login_incomplete : ((handle_user short_turn 1 one).user 1).rxpos ≡ 143
unfolding handle_user handle_received handle_data handle_waiting is_timed_out is_waiting write_rx
    note_received consume login_user_data valid_login valid_product_code game_product_override
    join_game find_game create_game enter_game login_user_stream add_user find_user login_packet
    c_string
login_incomplete = refl
