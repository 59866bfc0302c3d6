-- ===== src/Status.antt =====
-- The status page: strcpyxml, get_game_id_list and update_status of
-- pspnet_adhocctl_server/status.c. The page is modelled as a document: the tags with their attributes,
-- the texts as strcpyxml escapes them.
pub mod Escape
pub mod GameIds
pub mod Counts
use aemu.Base.{
  ℕ, zero, suc, ◌+◌, ◌-◌, ◌%◌, ◌^◌, Bool, true, false, ◌&&◌, not, Option, none, some, List, [], ◌∷◌,
  ◌++◌, ◌==◌, ltb, leb, if◌then◌else◌, length, take, drop, get_or, replicate,
}
use aemu.Bytes.{Bytes, c_string, bytes_eq, strncpy}
use aemu.Chain.{Ptr, null, walk}
use aemu.Database.{Db}
use aemu.Packet.{product_code_length, groupname_len, nickname_len}
use aemu.Group.{players_of}
use aemu.Product.{Statement, returned_row}

abbrev pub quot : Bytes
quot = b'&' ∷ b'q' ∷ b'u' ∷ b'o' ∷ b't' ∷ b';' ∷ []

abbrev pub lt_entity : Bytes
lt_entity = b'&' ∷ b'l' ∷ b't' ∷ b';' ∷ []

abbrev pub gt_entity : Bytes
gt_entity = b'&' ∷ b'g' ∷ b't' ∷ b';' ∷ []

abbrev pub amp : Bytes
amp = b'&' ∷ b'a' ∷ b'm' ∷ b'p' ∷ b';' ∷ []

-- The loop of strcpyxml: what it writes from `written` on. A plain character that does not fit is
-- skipped, and an entity that does not fit ends the loop.
unfoldable pub xml_loop : ℕ → ℕ → Bytes → Bytes
xml_loop size written [] = []
xml_loop size written (c ∷ cs) =
    let after_quot = xml_loop size (written + 6) cs in
    let after_lt = xml_loop size (written + 4) cs in
    let after_gt = xml_loop size (written + 4) cs in
    let after_amp = xml_loop size (written + 5) cs in
    let after_plain = xml_loop size (written + 1) cs in
    let skipped = xml_loop size written cs in
    if c == b'"'
    then (if ltb 6 (size - written) then quot ++ after_quot else [])
    else if c == b'<'
    then (if ltb 4 (size - written) then lt_entity ++ after_lt else [])
    else if c == b'>'
    then (if ltb 4 (size - written) then gt_entity ++ after_gt else [])
    else if c == b'&'
    then (if ltb 5 (size - written) then amp ++ after_amp else [])
    else (if ltb 1 (size - written) then c ∷ after_plain else skipped)

-- The whole out buffer, or NULL. `none` is a NULL argument.
unfoldable pub strcpyxml : Option Bytes → ℕ → Option Bytes
unfolding xml_loop c_string
strcpyxml none size = none
strcpyxml (some text) size =
    if ltb 0 size
    then (let out = xml_loop size 0 (c_string text) in
        some (out ++ replicate (size - length out) 0))
    else none

-- The crosslinks query of get_game_id_list: what the calls returned, and the rows, strings without a
-- NUL.
pub record Crosslinks : Type 0 where
  pub opened : Bool
  pub prepared : Bool
  pub bound : Bool
  pub rows : Bytes → List Bytes

-- The out buffer, and `offset`. A write past the end of the buffer makes it longer.
pub record IdList : Type 0 where
  pub buf : Bytes
  pub offset : ℕ

-- `sprintf(&out_buf[offset], "%s,", id)`: the identifier, the comma and the NUL.
unfoldable pub append_id : Bytes → IdList → IdList
append_id id l = record {
  buf = take l.offset l.buf ++ (id ++ (b',' ∷ 0 ∷ drop (l.offset + (length id + 2)) l.buf));
  offset = l.offset + (length id + 1);
}

-- The loop over the rows.
unfoldable pub id_loop : Bytes → ℕ → List Bytes → IdList → IdList
id_loop id size [] l = l
id_loop id size (row ∷ rows) l =
    let same = id_loop id size rows l in
    let more = id_loop id size rows (append_id row l) in
    if bytes_eq id row then same else if ltb (size - l.offset) (length row + 2) then l else more

-- `out_buf[offset - 1]` is cleared, if it is a comma.
unfoldable pub drop_comma : IdList → Bytes
drop_comma l =
    if not (l.offset == 0) && (get_or l.buf (l.offset - 1) 0 == b',')
    then take (l.offset - 1) l.buf ++ (0 ∷ drop l.offset l.buf)
    else l.buf

-- The buffer afterwards.
unfoldable pub get_game_id_list : Crosslinks → Bytes → ℕ → Bytes
unfolding append_id id_loop drop_comma bytes_eq
get_game_id_list db id size =
    let cleared : IdList = record { buf = replicate size 0; offset = 0 } in
    let begun = if ltb (length id + 2) size then append_id id cleared else cleared in
    if db.opened && db.prepared && db.bound
    then drop_comma (id_loop id size (db.rows id) begun)
    else cleared.buf

pub record UserTag : Type 0 where
  pub mac_address : Bytes
  pub name : Option Bytes

pub record GroupTag : Type 0 where
  pub name : Option Bytes
  pub usercount : ℕ
  pub users : List UserTag

pub record GameTag : Type 0 where
  pub name : Option Bytes
  pub usercount : ℕ
  pub game_ids : Bytes
  pub groups : List GroupTag
  -- the usercount of the group "Groupless"
  pub groupless : Option ℕ

-- `games` is empty where the database could not be opened.
pub record Page : Type 0 where
  pub usercount : ℕ
  pub games : List GameTag

-- What SQLite answers while the page is written.
pub record StatusQueries : Type 0 where
  pub opened : Bool
  pub name : Bytes → Statement
  pub crosslinks : Crosslinks

abbrev pub map_nodes {ℓ} : {A : Type ℓ} → (Ptr → A) → List Ptr → List A
map_nodes f [] = []
map_nodes f (p ∷ ps) = f p ∷ map_nodes f ps

-- sizeof(displayname)
abbrev pub displayname_size : ℕ
displayname_size = 128

unfoldable pub user_tag : Db → Ptr → UserTag
user_tag s u = record {
  mac_address = (s.user u).mac;
  name = strcpyxml (some (s.user u).name) displayname_size;
}

unfoldable pub group_tag : Db → Ptr → GroupTag
group_tag s g = record {
  name = strcpyxml (some (strncpy groupname_len (s.group_name g))) displayname_size;
  usercount = s.group_playercount g;
  users = map_nodes (user_tag s) (players_of s g);
}

unfoldable pub groups_of : Db → Ptr → List Ptr
groups_of s o = walk s.mallocs s.groups.next (s.groups.head o)

-- `activecount += group->playercount`
unfoldable pub active_count : Db → List Ptr → ℕ
active_count s [] = 0
active_count s (g ∷ gs) = (s.group_playercount g + active_count s gs) % 2 ^ 32

-- The displayed name: from the database, or else the product code; empty if the query failed.
unfoldable pub display_name : Statement → Bytes → Option Bytes
display_name q productid =
    if q.prepared && q.bound
    then (elim (returned_row q) [
      | some gamename ↦ strcpyxml (some gamename) displayname_size
      | none ↦ strcpyxml (some productid) displayname_size
    ])
    else some (replicate displayname_size 0)

unfoldable pub game_tag : StatusQueries → Db → Ptr → GameTag
game_tag q s o =
    let productid = c_string (take product_code_length (s.game_code o)) in
    let groups = groups_of s o in
    let active = active_count s groups in
    record {
      name = display_name (q.name productid) productid;
      usercount = s.game_playercount o;
      game_ids = c_string (get_game_id_list q.crosslinks productid 512);
      groups = map_nodes (group_tag s) groups;
      groupless =
          if ltb active (s.game_playercount o) then some (s.game_playercount o - active) else none;
    }

-- update_status, where the file could be opened.
unfoldable pub status_page : StatusQueries → Db → Page
status_page q s = record {
  usercount = s.user_count;
  games =
      if q.opened
      then map_nodes (game_tag q s) (walk s.mallocs s.games.next (s.games.head null))
      else [];
}
