-- ===== src/Tests/Page.antt =====
-- The status page of a state with a game and a group.
use aemu.Base.{
  ℕ, ◌≡◌, refl, Bool, true, ◌&&◌, some, none, [], ◌∷◌, ◌==◌, ltb, if◌then◌else◌, length, count,
}
use aemu.Chain.{Ptr, null}
use aemu.Product.{Step}
use aemu.Status.{StatusQueries, map_nodes, user_tag, group_tag, game_tag, status_page}
use aemu.Status.Counts.{game_tag-view, group_tag-view, status_page-view}
use aemu.Tests.States.{grouped, grouped-IsServer, hosting, hosting-IsServer, code}

abbrev queries : StatusQueries
queries = record {
  opened = true;
  name = λ _. record { prepared = true; bound = true; step = Step.row code };
  crosslinks = record { opened = true; prepared = true; bound = true; rows = λ _. [] };
}

abbrev in_nine : Ptr → Bool
in_nine u = hosting.user_game u == 9

abbrev idle : ℕ
idle = count (λ u. in_nine u && hosting.user_group u == null) (2 ∷ 1 ∷ [])

game_tag-view_example :
    ((game_tag queries hosting 9).usercount ≡ count in_nine (2 ∷ 1 ∷ []))
    × ((game_tag queries hosting 9).groups ≡ map_nodes (group_tag hosting) (11 ∷ []))
    × ((game_tag queries hosting 9).groupless ≡ (if ltb 0 idle then some idle else none))
game_tag-view_example = game_tag-view hosting-IsServer queries 9 refl

group_tag-view_example :
    ((group_tag grouped 11).users ≡ map_nodes (user_tag grouped) (2 ∷ 1 ∷ []))
    × ((group_tag grouped 11).usercount ≡ length (group_tag grouped 11).users)
group_tag-view_example = group_tag-view grouped-IsServer 9 11 refl

status_page-view_example :
    ((status_page queries grouped).usercount ≡ 2)
    × ((status_page queries grouped).games ≡ map_nodes (game_tag queries grouped) (9 ∷ []))
status_page-view_example = status_page-view grouped-IsServer queries refl
