-- ===== src/Product.antt =====
-- Product codes: game_product_relink and game_product_override of pspnet_adhocctl_server/user.c. The
-- answers of SQLite are a parameter.
use aemu.Base.{Bool, true, ◌&&◌, ◌||◌, Option, none, some, List, [], ◌∷◌, if◌then◌else◌, leb, take}
use aemu.Bytes.{Bytes, c_string, strncmp_eq, strncpy}
use aemu.Packet.{product_code_length}
use aemu.Database.{Event}

-- One prepared statement: whether sqlite3_prepare_v2 and every sqlite3_bind_text returned
-- SQLITE_OK, and what the one sqlite3_step returned.
pub data Step : Type 0 where
  row : (column : Bytes) → Step
  finished : Step
  failed : Step

pub record Statement : Type 0 where
  pub prepared : Bool
  pub bound : Bool
  pub step : Step

-- The database file as one call of game_product_override meets it, by the bound product code.
pub record Sqlite : Type 0 where
  pub opened : Bool
  pub crosslink : Bytes → Statement
  pub productid : Bytes → Statement
  pub insert : Bytes → Statement

-- The row that a statement returned, if all its calls went well.
unfoldable pub returned_row : Statement → Option Bytes
returned_row q =
    if q.prepared && q.bound then (elim q.step [ row column ↦ some column | _ ↦ none ]) else none

-- Does the loop over the code's characters find each in A-Z or 0-9?
unfoldable pub valid_product_code : Bytes → Bool
valid_product_code [] = true
valid_product_code (c ∷ cs) =
    ((leb b'A' c && leb c b'Z') || (leb b'0' c && leb c b'9')) && valid_product_code cs

unfoldable pub game_product_relink : Bytes → Bytes → Bytes → Bytes
unfolding strncmp_eq strncpy
game_product_relink product from to =
    if strncmp_eq product_code_length product from then strncpy product_code_length to else product

-- The new code, and what was written to the database.
unfoldable pub game_product_override : Sqlite → Bytes → Bytes × List Event
unfolding returned_row strncpy
game_product_override db product =
    let productid = c_string (take product_code_length product) in
    if db.opened
    then (elim (returned_row (db.crosslink productid)) [
      | some crosslink ↦ (strncpy product_code_length crosslink, [])
      | none ↦ elim (returned_row (db.productid productid)) [
        | some exists ↦ (product, [])
        | none ↦
            let q = db.insert productid in
            (
              product,
              if q.prepared && q.bound
                  then elim q.step [ finished ↦ Event.product_inserted productid ∷ [] | _ ↦ [] ]
                  else [],
            )
      ]
    ])
    else (product, [])
