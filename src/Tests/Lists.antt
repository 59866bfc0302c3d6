-- ===== src/Tests/Lists.antt =====
-- The linked lists.
use aemu.Base.{◌≡◌, refl, Bool, List, [], ◌∷◌, arith, update, ◌==◌, erase}
use aemu.Chain.{Ptr, null, link, unlink, find_node}
use aemu.Chain.Seg.{IsLists}
use aemu.Chain.Link.{link-IsLists}
use aemu.Chain.Unlink.{unlink-IsLists}
use aemu.Chain.Find.{first_hit, find_node-Seg}
use aemu.Database.{no_lists}
use aemu.Server.Run.{no_lists-IsLists}
use aemu.Tests.States.{grouped, grouped_view, grouped-IsServer}

abbrev empty : Ptr → List Ptr
empty o = []

link-IsLists_example : IsLists (link 9 11 no_lists) (update empty 9 (11 ∷ empty 9))
link-IsLists_example = link-IsLists 9 11 no_lists-IsLists (ground arith) (λ o. refl) refl

unlink-IsLists_example :
    IsLists
      (unlink 11 1 grouped.players)
      (update grouped_view.players 11 (erase 1 (grouped_view.players 11)))
unlink-IsLists_example = unlink-IsLists 11 1 grouped-IsServer.players refl

abbrev is_one : Ptr → Bool
is_one p = p == 1

find_node-Seg_example :
    find_node 5 is_one grouped.players.next (grouped.players.head 11)
    ≡ first_hit is_one (grouped_view.players 11)
find_node-Seg_example =
    find_node-Seg is_one grouped.players.next grouped.players.prev 5 null (grouped.players.head 11)
      (grouped_view.players 11) (grouped-IsServer.players.seg 11) (omega arith)
