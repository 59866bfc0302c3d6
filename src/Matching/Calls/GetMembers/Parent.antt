-- ===== src/Matching/Calls/GetMembers/Parent.antt =====
-- The list that a parent's game gets from proNetAdhocMatchingGetMembers.
use aemu.Base.{
  ℕ, zero, suc, ◌+◌, ◌-◌, ◌≡◌, ◌≢◌, ◌≤◌, refl, sym, ap, ◌∙◌, true, false, not, none, List, [], ◌∷◌,
  ◌++◌, ◌==◌, ltb, length, length-append, take, count, count-le-length, Bool-cases, inl, inr, arith,
}
use mathlib.Core.List.{reverse, reverse-cons, append-nil}
use aemu.Chain.{null}
use aemu.Matching.{Mac, Member, Room, peers, address}
use aemu.Matching.Members.{find_parent, in_state, count_children, count_connected_peers}
use aemu.Matching.Mode
use aemu.Matching.Peer
use aemu.Matching.Roster.{IsRoster, is_allowed}
use aemu.Matching.Agreed.{child_macs}
use aemu.Matching.Agreed.Listed.{count-find_none}
use aemu.Matching.Calls.GetMembers.{
  filling, is_listed, listed_macs, fill_first, fill_others, own_macs, fill_members,
}

listed_macs-parent : (ps : List Member) → listed_macs Mode.parent ps ≡ child_macs ps
unfolding listed_macs is_listed child_macs
listed_macs-parent [] = refl
listed_macs-parent (p ∷ ps) = elim (Bool-cases (p.state == Peer.child)) [
  | inl t ↦ rw t (ap (λ xs. p.mac ∷ xs) (listed_macs-parent ps))
  | inr t ↦ rw t (listed_macs-parent ps)
]

child_macs-append : (ps qs : List Member) → child_macs (ps ++ qs) ≡ child_macs ps ++ child_macs qs
unfolding child_macs
child_macs-append [] qs = refl
child_macs-append (p ∷ ps) qs = elim (Bool-cases (p.state == Peer.child)) [
  | inl t ↦ rw t (ap (λ xs. p.mac ∷ xs) (child_macs-append ps qs))
  | inr t ↦ rw t (child_macs-append ps qs)
]

child-only : (p : Member) → (p.state == Peer.child) ≡ true → child_macs (p ∷ []) ≡ p.mac ∷ []
unfolding child_macs
child-only p t = rw t refl

other-only : (p : Member) → (p.state == Peer.child) ≡ false → child_macs (p ∷ []) ≡ []
unfolding child_macs
other-only p t = rw t refl

child_macs-reverse : (ps : List Member) → child_macs (reverse ps) ≡ reverse (child_macs ps)
unfolding child_macs
child_macs-reverse [] = refl
child_macs-reverse (p ∷ ps) =
    let e = ap child_macs (reverse-cons p ps) ∙ child_macs-append (reverse ps) (p ∷ []) in
    elim (Bool-cases (p.state == Peer.child)) [
      | inl t ↦ rw t (
          e
          ∙ ap (λ xs. child_macs (reverse ps) ++ xs) (child-only p t)
          ∙ ap (λ xs. xs ++ p.mac ∷ []) (child_macs-reverse ps)
          ∙ sym (reverse-cons p.mac (child_macs ps)))
      | inr t ↦ rw t (
          e
          ∙ ap (λ xs. child_macs (reverse ps) ++ xs) (other-only p t)
          ∙ append-nil (child_macs (reverse ps))
          ∙ child_macs-reverse ps)
    ]

length-child_macs : (ps : List Member) → length (child_macs ps) ≡ count_children ps
unfolding child_macs count_children
length-child_macs [] = refl
length-child_macs (p ∷ ps) = ground (arith, length-child_macs ps)

length-reverse : (ms : List Mac) → length (reverse ms) ≡ length ms
length-reverse [] = refl
length-reverse (m ∷ ms) =
    ap length (reverse-cons m ms)
    ∙ omega (arith, length-append (reverse ms) (m ∷ []), length-reverse ms)

take-nil : (n : ℕ) → take {A = Mac} n [] ≡ []
take-nil zero = refl
take-nil (suc n) = refl

take-whole : (n : ℕ) (ms : List Mac) → length ms ≤ n → take n ms ≡ ms
take-whole n [] h = take-nil n
take-whole zero (m ∷ ms) h = absurd (omega (arith, h))
take-whole (suc n) (m ∷ ms) h = ap (λ xs. m ∷ xs) (take-whole n ms (omega (arith, h)))

-- A parent's list has no parent.
no_parent :
    (mode : ℕ) (ps : List Member)
    → mode ≡ Mode.parent
    → count (λ p. not (is_allowed mode p.state)) ps ≡ 0
    → count (in_state Peer.parent) ps ≡ 0
unfolding is_allowed
no_parent mode [] m h = refl
no_parent mode (p ∷ ps) m h = ground (arith, m, h, no_parent mode ps m)

children-le-length : (ps : List Member) → count_children ps ≤ length ps
unfolding count_children
children-le-length ps = count-le-length (in_state Peer.child) ps

empty-macs : (ms : List Mac) → length ms ≡ 0 → ms ≡ []
empty-macs [] h = refl
empty-macs (m ∷ ms) h = absurd (omega (arith, h))

own_macs-parent : (s : Room) → s.context.mode ≡ Mode.parent → own_macs s ≡ s.context.mac ∷ []
unfolding own_macs
own_macs-parent s m =
    let child : (s.context.mode == Mode.child) ≡ false = rw m refl in
    elim (Bool-cases (count_connected_peers s.context == 1)) [
      | inl t ↦ rw t refl
      | inr t ↦ rw (t, child) refl
    ]

count_connected_peers-parent :
    (s : Room)
    → s.context.mode ≡ Mode.parent
    → count_connected_peers s.context ≡ count_children (peers s) + 1
unfolding count_connected_peers
count_connected_peers-parent s m =
    let parent : (s.context.mode == Mode.parent) ≡ true = rw m refl in rw parent refl

-- The children behind the parent's own MAC, in a list that is reversed first.
fill_others-parent :
    (s : Room)
    → s.context.mode ≡ Mode.parent
    → address s ≢ null
    → 1 ≤ count_children (peers s)
    → (fill_others (count_children (peers s) + 1) (filling (s.context.mac ∷ []) s)).macs
      ≡ s.context.mac ∷ reverse (child_macs (peers s))
unfolding fill_others
fill_others-parent s m live some_child =
    let n = count_children (peers s) in
    let full : (length (peers s) == 0) ≡ false =
      ground (arith, some_child, children-le-length (peers s)) in
    let kept : (address s == null) ≡ false = ground (arith, live) in
    let room : n + 1 - 1 ≡ n = omega arith in
    let long : length (reverse (child_macs (peers s))) ≤ n =
      omega (arith, length-reverse (child_macs (peers s)), length-child_macs (peers s)) in
    rw (full, kept, m, room)
      (ap (λ xs. s.context.mac ∷ take n xs)
          (listed_macs-parent (reverse (peers s)) ∙ child_macs-reverse (peers s))
        ∙ ap (λ xs. s.context.mac ∷ xs) (take-whole n (reverse (child_macs (peers s))) long))

find_parent-none :
    (s : Room) → s.context.mode ≡ Mode.parent → IsRoster s → find_parent (peers s) ≡ none
unfolding find_parent
find_parent-none s m is =
    count-find_none (in_state Peer.parent) (peers s)
      (no_parent s.context.mode (peers s) m is.allowed)

-- In parent mode, with a peer list that is a roster, if malloc succeeds and the buffer has room for
-- all that are connected, proNetAdhocMatchingGetMembers writes the console's own MAC and then the
-- MACs of the children, from the last in the peer list to the first.
pub fill_members-parent :
    (s : Room)
    → IsRoster s
    → s.context.mode ≡ Mode.parent
    → address s ≢ null
    → (fill_members (count_connected_peers s.context) s).macs
      ≡ s.context.mac ∷ reverse (child_macs (peers s))
unfolding fill_members fill_first
fill_members-parent s is m live =
    let n = count_children (peers s) in
    let p2p : (s.context.mode == Mode.p2p) ≡ false = rw m refl in
    let some_room : ltb 0 (n + 1) ≡ true = ground arith in
    let lone = find_parent-none s m is in
    rw (count_connected_peers-parent s m) (elim (Bool-cases (ltb 1 (n + 1))) [
      | inr e ↦
          let none_yet : length (child_macs (peers s)) ≡ 0 =
            ground (arith, e, length-child_macs (peers s)) in
          rw (some_room, e)
            (own_macs-parent s m
              ∙ ap (λ ms. s.context.mac ∷ reverse ms)
                  (sym (empty-macs (child_macs (peers s)) none_yet)))
      | inl e ↦
          rw (p2p, some_room, e, lone, own_macs-parent s m)
            (fill_others-parent s m live (ground (arith, e)))
    ])
