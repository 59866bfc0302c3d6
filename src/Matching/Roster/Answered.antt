-- ===== src/Matching/Roster/Answered.antt =====
-- The answer to a request, on rosters: _actOnAcceptPacket of
-- pspnet_adhoc_matching/library/calls/start.c.
use aemu.Base.{
  ℕ, ◌≡◌, refl, ◌∙◌, true, false, not, ◌&&◌, Option, none, some, List, [], ◌∷◌, ◌==◌, arith,
  Bool-cases, ◌⊎◌, inl, inr,
}
use aemu.Bytes.{Bytes}
use aemu.Chain.{Ptr}
use aemu.Matching.{Mac, Member, Room, peers, tick}
use aemu.Matching.Members.{
  find_peer, find_parent, find_p2p, is_none, is_same, set_state, spawn_local_event, in_state,
}
use aemu.Matching.Packet.{is_complete_accept}
use aemu.Matching.Receive.{is_interested, block_hello}
use aemu.Matching.Receive.Accept.{
  is_unneeded, clean_loop, add_sibling, add_siblings, add_self, accepted, accept_from,
  act_on_accept_packet,
}
use aemu.Matching.Mode
use aemu.Matching.Peer
use aemu.Matching.Notice
use aemu.Matching.Roster.{IsRoster, Shrinks, Grows, is_allowed}
use aemu.Matching.Roster.Lists.{
  Shrinks-refl, Shrinks-trans, tick-Shrinks, if-Shrinks, Grows-Shrinks, Grows-after, if-Grows,
  change-Grows, delete_peer-Shrinks, add_peer-Grows,
}
use aemu.Matching.Roster.Sent.{spawn-Shrinks}
use aemu.Matching.Roster.Kept.{Shrinks-IsRoster, Grows-IsRoster, Fits, count-find_member}
use aemu.Matching.Roster.Received.{plain-Fits, sibling-Fits, block_hello-Shrinks}

pub clean_loop-Shrinks : (ps : List Member) (s : Room) → Shrinks s (clean_loop ps s)
unfolding clean_loop
clean_loop-Shrinks [] s = Shrinks-refl s
clean_loop-Shrinks (p ∷ ps) s =
    Shrinks-trans (if-Shrinks (is_unneeded p) (delete_peer-Shrinks (some p) s) (Shrinks-refl s))
      (clean_loop-Shrinks ps _)

add_sibling-Grows :
    (o : Option Member) (mac : Mac) (s : Room) → Grows Peer.child s (add_sibling o mac s)
unfolding add_sibling
add_sibling-Grows none mac s =
    add_peer-Grows mac Peer.child _ _ s Shrinks-refl (λ n r. Shrinks-refl r)
add_sibling-Grows (some p) mac s =
    Grows-after (tick-Shrinks s) (change-Grows p.node _ Peer.child (tick s) (λ q. refl))

-- A roster in child mode.
abbrev ChildRoster : Room → Type 0
ChildRoster s = IsRoster s × (s.context.mode ≡ Mode.child)

add_siblings-IsRoster : (ms : List Mac) (s : Room) → ChildRoster s → ChildRoster (add_siblings ms s)
unfolding add_siblings
add_siblings-IsRoster [] s is = is
add_siblings-IsRoster (m ∷ ms) s is =
    let grows = add_sibling-Grows (find_peer m (peers s)) m s in
    add_siblings-IsRoster ms _
      (Grows-IsRoster Peer.child grows (sibling-Fits s is.1) is.0, grows.mode ∙ is.1)

self-allowed : (s : Room) → s.context.mode ≡ Mode.child → is_allowed s.context.mode Peer.self ≡ true
unfolding is_allowed
self-allowed s m = rw m refl

add_self-IsRoster : (s : Room) → ChildRoster s → IsRoster (add_self s)
unfolding add_self
add_self-IsRoster s is =
    Grows-IsRoster Peer.self
      (if-Grows (is_none (find_peer s.world.local_mac (peers s)))
        (add_peer-Grows s.world.local_mac Peer.self _ _ s Shrinks-refl (λ n r. Shrinks-refl r))
        (Grows-Shrinks Peer.self (Shrinks-refl s)))
      (plain-Fits Peer.self s (self-allowed s is.1) refl) is.0

-- The first parent, and the first partner.
parent-Fits :
    (s : Room)
    → s.context.mode ≡ Mode.child
    → is_none (find_parent (peers s)) ≡ true
    → Fits Peer.parent s
unfolding is_allowed find_parent
parent-Fits s m e = record {
  allowed = rw m refl;
  parent = λ t. count-find_member (in_state Peer.parent) (peers s) e;
  p2p = λ t. absurd (ground (arith, t));
  request = λ t. absurd (ground (arith, t));
  child = λ t q. absurd (ground (arith, t));
}

pub partner-Fits :
    (s : Room)
    → is_allowed s.context.mode Peer.p2p ≡ true
    → is_none (find_p2p (peers s)) ≡ true
    → Fits Peer.p2p s
unfolding find_p2p
partner-Fits s a e = record {
  allowed = a;
  parent = λ t. absurd (ground (arith, t));
  p2p = λ t. count-find_member (in_state Peer.p2p) (peers s) e;
  request = λ t. absurd (ground (arith, t));
  child = λ t q. absurd (ground (arith, t));
}

told-Shrinks :
    (node : Ptr) (sender : Mac) (opt : Bytes) (s : Room)
    → Shrinks s (
        spawn_local_event Notice.accept sender opt
          (spawn_local_event Notice.established sender [] (block_hello node s)))
told-Shrinks node sender opt s =
    Shrinks-trans (block_hello-Shrinks node s)
      (Shrinks-trans (spawn-Shrinks _ sender [] _) (spawn-Shrinks _ sender opt _))

accepted-child :
    (node : Ptr) (sender : Mac) (opt : Bytes) (ms : List Mac) (s : Room)
    → s.context.mode ≡ Mode.child
    → is_none (find_parent (peers s)) ≡ true
    → IsRoster s
    → IsRoster (accepted node sender opt ms s)
unfolding accepted
accepted-child node sender opt ms s m e is =
    let answered = set_state Peer.parent node s in
    let roster =
      Grows-IsRoster Peer.parent (change-Grows node _ Peer.parent s (λ q. refl)) (parent-Fits s m e)
        is in
    let clean = clean_loop-Shrinks (peers answered) answered in
    let joined =
      add_self-IsRoster _
        (add_siblings-IsRoster ms _ (Shrinks-IsRoster clean roster, clean.mode ∙ m)) in
    let child : (s.context.mode == Mode.child) ≡ true = rw m refl in
    rw child (Shrinks-IsRoster (told-Shrinks node sender opt _) joined)

accepted-p2p :
    (node : Ptr) (sender : Mac) (opt : Bytes) (ms : List Mac) (s : Room)
    → s.context.mode ≡ Mode.p2p
    → is_none (find_p2p (peers s)) ≡ true
    → IsRoster s
    → IsRoster (accepted node sender opt ms s)
unfolding accepted is_allowed
accepted-p2p node sender opt ms s m e is =
    let answered = set_state Peer.p2p node s in
    let roster =
      Grows-IsRoster Peer.p2p (change-Grows node _ Peer.p2p s (λ q. refl))
        (partner-Fits s (rw m refl) e) is in
    let clean = clean_loop-Shrinks (peers answered) answered in
    let child : (s.context.mode == Mode.child) ≡ false = rw m refl in
    rw child (Shrinks-IsRoster (told-Shrinks node sender opt _) (Shrinks-IsRoster clean roster))

-- The two ways to be interested.
pub interested-cases :
    (s : Room)
    → is_interested s.context ≡ true
    → (s.context.mode ≡ Mode.child) × (is_none (find_parent (peers s)) ≡ true)
      ⊎ (s.context.mode ≡ Mode.p2p) × (is_none (find_p2p (peers s)) ≡ true)
unfolding is_interested
interested-cases s e = elim (Bool-cases (s.context.mode == Mode.child)) [
  | inl t ↦ inl (ground (arith, t), ground (arith, t, e))
  | inr f ↦ inr (ground (arith, f, e), ground (arith, f, e))
]

accept_from-IsRoster :
    (o : Option Member) (sender : Mac) (opt : Bytes) (ms : List Mac) (s : Room)
    → is_interested s.context ≡ true
    → IsRoster s
    → IsRoster (accept_from o sender opt ms s)
unfolding accept_from
accept_from-IsRoster none sender opt ms s e is = is
accept_from-IsRoster (some p) sender opt ms s e is =
    elim (Bool-cases (is_same (some p) (find_peer sender (peers s)))) [
      | inr f ↦ rw f is
      | inl t ↦ rw t (elim (interested-cases s e) [
        | inl (m, q) ↦ accepted-child p.node sender opt ms s m q is
        | inr (m, q) ↦ accepted-p2p p.node sender opt ms s m q is
      ])
    ]

pub accept-IsRoster :
    (mac : Mac) (rxbuf : Bytes) (len : ℕ) (s : Room)
    → IsRoster s
    → IsRoster (act_on_accept_packet mac rxbuf len s)
unfolding act_on_accept_packet
accept-IsRoster mac rxbuf len s is =
    let guard =
      not (s.context.mode == Mode.parent)
      && (is_interested s.context && is_complete_accept rxbuf len) in
    elim (Bool-cases guard) [
      | inr f ↦ rw f is
      | inl t ↦ rw t (accept_from-IsRoster _ mac _ _ s (ground (arith, t)) is)
    ]
