-- ===== src/Chain.antt =====
-- The doubly linked lists of pspnet_adhocctl_server/user.c. The code has four of them and writes the
-- same statements for each: the users (_db_user; next, prev), the games (_db_game; next, prev), the
-- groups of a game (game->group; next, prev) and the players of a group (group->player; group_next,
-- group_prev). Each pointer field is a store of its own. The head of a list is a field of the node
-- that owns it, or a global variable, which has the owner `null` here.
pub mod Seg
pub mod Link
pub mod Unlink
pub mod Find
use aemu.Base.{ℕ, zero, suc, Bool, List, [], ◌∷◌, ◌==◌, ◌||◌, if◌then◌else◌, update}

abbrev pub Ptr : Type 0
Ptr = ℕ

abbrev pub null : Ptr
null = 0

pub record Lists : Type 0 where
  pub head : Ptr → Ptr
  pub next : Ptr → Ptr
  pub prev : Ptr → Ptr

-- `n->next = head; if(head != NULL) head->prev = n; head = n;` The code relies on `n->prev == NULL`.
unfoldable pub link : Ptr → Ptr → Lists → Lists
link owner n l =
    let first = l.head owner in
    record {
      head = update l.head owner n;
      next = update l.next n first;
      prev = if first == null then l.prev else update l.prev first n;
    }

-- `if(n->prev == NULL) head = n->next; else n->prev->next = n->next;`
-- `if(n->next != NULL) n->next->prev = n->prev;`
unfoldable pub unlink : Ptr → Ptr → Lists → Lists
unlink owner n l = record {
  head = if l.prev n == null then update l.head owner (l.next n) else l.head;
  next = if l.prev n == null then l.next else update l.next (l.prev n) (l.next n);
  prev = if l.next n == null then l.prev else update l.prev (l.next n) (l.prev n);
}

-- `n->next = NULL; n->prev = NULL;`
unfoldable pub clear_links : Ptr → Lists → Lists
clear_links n l = record l { next = update l.next n null; prev = update l.prev n null }

-- `while(p != NULL && !hit(p)) p = p->next;` The fuel bounds the rounds.
unfoldable pub find_node : ℕ → (Ptr → Bool) → (Ptr → Ptr) → Ptr → Ptr
find_node zero hit next p = null
find_node (suc fuel) hit next p =
    let rest = find_node fuel hit next (next p) in if (p == null) || hit p then p else rest

-- The nodes that `for(; p != NULL; p = p->next)` visits.
unfoldable pub walk : ℕ → (Ptr → Ptr) → Ptr → List Ptr
walk zero next p = []
walk (suc fuel) next p = let rest = walk fuel next (next p) in if p == null then [] else p ∷ rest
