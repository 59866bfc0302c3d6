-- ===== src/Matching/Calls/GetMembers/Filled.antt =====
-- What proNetAdhocMatchingGetMembers writes.
use aemu.Base.{
  ℕ, ◌+◌, ◌-◌, ◌≤◌, ◌<◌, Bool, true, false, Option, none, some, List, [], ◌∷◌, ◌++◌, ◌==◌, ltb,
  if◌then◌else◌, length, length-append, length-take, take, Bool-cases, inl, inr, arith,
}
use mathlib.Core.List.{reverse}
use aemu.Chain.{null}
use aemu.Matching.{Mac, Member, Room, peers, address, allocated}
use aemu.Matching.Members.{find_parent, find_p2p}
use aemu.Matching.Mode
use aemu.Matching.Calls.GetMembers.{
  Filling, filling, is_listed, listed_macs, fill_first, unreversed_loop, fill_others, own_macs,
  fill_members,
}

next-length :
    (n : ℕ) (ms : List Mac) (m : Mac) (q : Bool)
    → length ms < n
    → length (if q then ms ++ m ∷ [] else ms) ≤ n
next-length n ms m true h = omega (arith, h, length-append ms (m ∷ []))
next-length n ms m false h = omega (arith, h)

if-length :
    (n : ℕ) (a b : Filling) (q : Bool)
    → length a.macs ≤ n
    → length b.macs ≤ n
    → length (if q then a else b).macs ≤ n
if-length n a b true x y = x
if-length n a b false x y = y

-- No loop writes behind the members that were asked for.
unreversed_loop-length :
    (requested : ℕ) (ps : List Member) (f : Filling)
    → length f.macs ≤ requested
    → length (unreversed_loop requested ps f).macs ≤ requested
unfolding unreversed_loop
unreversed_loop-length requested [] f h = h
unreversed_loop-length requested (p ∷ ps) f h = elim (Bool-cases (ltb (length f.macs) requested)) [
  | inr e ↦ rw e h
  | inl e ↦ rw e (
      unreversed_loop-length requested ps _
        (next-length requested f.macs p.mac (is_listed f.room.context.mode p) (ground (arith, e))))
]

fill_first-length :
    (o : Option Member) (f : Filling) → length (fill_first o f).macs ≤ length f.macs + 1
unfolding fill_first
fill_first-length none f = omega arith
fill_first-length (some p) f = omega (arith, length-append f.macs (p.mac ∷ []))

own_macs-length : (s : Room) → length (own_macs s) ≤ 1
unfolding own_macs
own_macs-length s = ground arith

fill_others-length :
    (requested : ℕ) (f : Filling)
    → length f.macs ≤ requested
    → length (fill_others requested f).macs ≤ requested
unfolding fill_others
fill_others-length requested f h =
    let s1 = allocated f.room in
    let listed = listed_macs f.room.context.mode (reverse (peers s1)) in
    if-length requested _ _ (length (peers f.room) == 0) h (
      if-length requested _ _ (address f.room == null)
        (unreversed_loop-length requested (peers s1) (filling f.macs s1) h)
        (omega (
          arith,
          h,
          length-append f.macs (take (requested - length f.macs) listed),
          length-take (requested - length f.macs) listed,
        )))

-- proNetAdhocMatchingGetMembers never writes more members than there is room for, in any mode, with
-- any peer list and whether malloc succeeds or not.
pub fill_members-length :
    (requested : ℕ) (s : Room) → length (fill_members requested s).macs ≤ requested
unfolding fill_members
fill_members-length requested s =
    let own = own_macs-length s in
    let p2p = fill_first-length (find_p2p (peers s)) (filling (own_macs s) s) in
    let parent = fill_first-length (find_parent (peers s)) (filling (own_macs s) s) in
    elim (Bool-cases (ltb 0 requested)) [
      | inr a ↦ rw a (omega arith)
      | inl a ↦ elim (Bool-cases (ltb 1 requested)) [
        | inr b ↦ rw (a, b) (ground (arith, a, own))
        | inl b ↦
            rw (a, b)
              (if-length requested _ _ (s.context.mode == Mode.p2p) (ground (arith, b, own, p2p))
                (fill_others-length requested _ (ground (arith, b, own, parent))))
      ]
    ]
