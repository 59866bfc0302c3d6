-- ===== src/Matching/Calls/GetMembers.antt =====
-- The game's list of the members: proNetAdhocMatchingGetMembers of
-- pspnet_adhoc_matching/library/calls/getmembers.c. A member takes twelve bytes of the buffer; the
-- links between them are left out.
pub mod Filled
pub mod Parent
use aemu.Base.{
  ℕ, ◌+◌, ◌-◌, ◌*◌, ◌/◌, Bool, true, false, not, ◌&&◌, ◌||◌, Option, none, some, List, [], ◌∷◌,
  ◌++◌, ◌==◌, ltb, if◌then◌else◌, length, take,
}
use mathlib.Core.List.{reverse}
use aemu.Chain.{null}
use aemu.Matching.{Mac, Member, Room, peers, address, allocated, time, tick}
use aemu.Matching.Members.{find_parent, find_p2p, set_lastping, count_connected_peers}
use aemu.Matching.Packet.{is_positive}
use aemu.Matching.Calls.{Library, Reply, Answer, answer, with_context}
use aemu.Matching.Calls.Target.{when_running}
use aemu.Matching.Mode
use aemu.Matching.Peer
use aemu.Matching.Error

-- The MACs written so far, and the context afterwards.
pub record Filling : Type 0 where
  pub macs : List Mac
  pub room : Room

-- "PPSSPP bumps lastping here"
unfoldable pub bump_lastping : Member → Room → Room
bump_lastping p s = if p.lastping == 0 then s else set_lastping (time s) p.node (tick s)

unfoldable pub bump_loop : List Member → Room → Room
bump_loop [] s = s
bump_loop (p ∷ ps) s = bump_loop ps (bump_lastping p s)

-- "Interested in Children", "Interested in Siblings", "Insert self"
unfoldable pub is_listed : ℕ → Member → Bool
is_listed mode p = p.state == Peer.child || (not (mode == Mode.parent) && p.state == Peer.self)

unfoldable pub listed_macs : ℕ → List Member → List Mac
listed_macs mode [] = []
listed_macs mode (p ∷ ps) =
    let rest = listed_macs mode ps in if is_listed mode p then p.mac ∷ rest else rest

-- "Add Parent", "Add P2P Brother"
unfoldable pub fill_first : Option Member → Filling → Filling
fill_first none f = f
fill_first (some p) f = record { macs = f.macs ++ p.mac ∷ []; room = bump_lastping p f.room }

-- Without memory for the reversed list.
unfoldable pub unreversed_loop : ℕ → List Member → Filling → Filling
unreversed_loop requested [] f = f
unreversed_loop requested (p ∷ ps) f =
    let met : Filling = record {
      macs = if is_listed f.room.context.mode p then f.macs ++ p.mac ∷ [] else f.macs;
      room = bump_lastping p f.room;
    } in
    let rest = unreversed_loop requested ps met in if ltb (length f.macs) requested then rest else f

abbrev pub filling : List Mac → Room → Filling
filling macs s = record { macs = macs; room = s }

-- "Create reversed list like PPSSPP does"; the list is empty, or malloc is called.
unfoldable pub fill_others : ℕ → Filling → Filling
fill_others requested f =
    let s1 = allocated f.room in
    let listed = listed_macs f.room.context.mode (reverse (peers s1)) in
    let reversed =
      filling (f.macs ++ take (requested - length f.macs) listed) (bump_loop (peers s1) s1) in
    if length (peers f.room) == 0
    then f
    else if address f.room == null
    then unreversed_loop requested (peers s1) (filling f.macs s1)
    else reversed

-- "Add Local MAC"
unfoldable pub own_macs : Room → List Mac
own_macs s =
    if count_connected_peers s.context == 1 || not (s.context.mode == Mode.child)
    then s.context.mac ∷ []
    else []

-- What is written when there is room for this many members.
unfoldable pub fill_members : ℕ → Room → Filling
fill_members requested s =
    let own = filling (own_macs s) s in
    let paired = fill_first (find_p2p (peers s)) own in
    let met = fill_others requested (fill_first (find_parent (peers s)) own) in
    if not (ltb 0 requested)
    then filling [] s
    else if not (ltb 1 requested)
    then own
    else if s.context.mode == Mode.p2p
    then paired
    else met

-- `*buflen` once it is fixed, in members
unfoldable pub requested_peers : ℕ → Room → ℕ
requested_peers buflen s =
    let fixed = if is_positive buflen then buflen else 0 in
    let available = 12 * count_connected_peers s.context in
    (if ltb available fixed then available else fixed) / 12

-- The call; without a buffer it only tells the length.
unfoldable pub get_members_in : Option ℕ → Bool → Room → Answer
get_members_in none buf s = answer Error.invalid_arg s
get_members_in (some buflen) buf s =
    let filled = fill_members (requested_peers buflen s) s in
    answer 0 (if buf then filled.room else s)

unfoldable pub get_members : ℕ → Option ℕ → Bool → Library → Reply
get_members id buflen buf = with_context id (when_running (get_members_in buflen buf))
