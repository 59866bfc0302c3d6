-- ===== src/Matching/Agreed/Answer.antt =====
-- The whole of _actOnAcceptPacket of pspnet_adhoc_matching/library/calls/start.c.
use aemu.Base.{
  ℕ, suc, ◌+◌, ◌*◌, ◌^◌, ◌≡◌, ◌≤◌, ◌<◌, refl, ap, ◌∙◌, Bool, true, false, some, List, [], ◌∷◌, ◌++◌,
  ◌==◌, if◌then◌else◌, length, count, arith, Bool-cases, inl, inr,
}
use mathlib.Core.List.{reverse, reverse-reverse, append-nil}
use aemu.Bytes.{Bytes}
use aemu.Chain.{Ptr, null}
use aemu.Matching.{Mac, Member, Room, peers, address, is_mac_match}
use aemu.Matching.Members.{
  find_peer, find_parent, find_outgoing_request, is_none, is_same, change_node, set_state, add_peer,
  delete_peer, send_generic_message, spawn_local_event, link_message, count_children,
}
use aemu.Matching.Packet.Parsed.{AllMac}
use aemu.Matching.Receive.{is_interested, block_hello}
use aemu.Matching.Receive.Accept.{
  is_unneeded, clean_loop, add_siblings, add_self, accepted, accept_from, act_on_accept_packet,
}
use aemu.Matching.Send.{sibling_macs, accept_bytes}
use aemu.Matching.Siblings.{children_at, accept_bytes-parsed}
use aemu.Matching.Roster.Lists.{count-erase_node, change-Grows}
use aemu.Matching.Mode
use aemu.Matching.Peer
use aemu.Matching.Notice
use aemu.Matching.Agreed.{child_macs, Live, Fresh}
use aemu.Matching.Agreed.Listed.{Live-less, child_macs-none, Fresh-less, add_siblings-child_macs}

-- The console itself is no child.
add_self-child_macs :
    (k : ℕ) (s : Room)
    → Live (suc k) s.world.mallocs
    → (child_macs (peers (add_self s)) ≡ child_macs (peers s)) × Live k (add_self s).world.mallocs
unfolding add_self add_peer child_macs
add_self-child_macs k s l =
    let e : (address s == null) ≡ false = ground (arith, l.0) in
    elim (Bool-cases (is_none (find_peer s.world.local_mac (peers s)))) [
      | inl t ↦ rw (t, e) (refl, l.1)
      | inr f ↦ rw f (refl, Live-less k s.world.mallocs l)
    ]

-- Writes that keep states and MACs, and an event when malloc succeeds.
child_macs-touch :
    (n : Ptr) (g : Member → Member) (ps : List Member)
    → ((p : Member) → (g p).state ≡ p.state)
    → ((p : Member) → (g p).mac ≡ p.mac)
    → child_macs (change_node n g ps) ≡ child_macs ps
unfolding child_macs
child_macs-touch n g [] hs hm = refl
child_macs-touch n g (p ∷ ps) hs hm = elim (Bool-cases (p.node == n)) [
  | inl e ↦ rw (e, hs p, hm p) refl
  | inr e ↦ rw (e, child_macs-touch n g ps hs hm) refl
]

block_hello-child_macs :
    (n : Ptr) (s : Room) → child_macs (peers (block_hello n s)) ≡ child_macs (peers s)
block_hello-child_macs n s = elim (Bool-cases (s.context.mode == Mode.p2p)) [
  | inl t ↦ rw t (child_macs-touch n _ (peers s) (λ p. refl) (λ p. refl))
  | inr f ↦ rw f refl
]

block_hello-mallocs : (n : Ptr) (s : Room) → (block_hello n s).world ≡ s.world
block_hello-mallocs n s = elim (Bool-cases (s.context.mode == Mode.p2p)) [
  | inl t ↦ rw t refl
  | inr f ↦ rw f refl
]

spawn-child_macs :
    (notice k : ℕ) (mac : Mac) (opt : Bytes) (s : Room)
    → Live (suc k) s.world.mallocs
    → (child_macs (peers (spawn_local_event notice mac opt s)) ≡ child_macs (peers s))
      × Live k (spawn_local_event notice mac opt s).world.mallocs
unfolding spawn_local_event send_generic_message link_message
spawn-child_macs notice k mac opt s l =
    let e : (address s == null) ≡ false = ground (arith, l.0) in rw e (refl, l.1)

count-kept :
    (f : Member → Bool) (n : Ptr) (g : Member → Member) (ps : List Member)
    → ((p : Member) → f (g p) ≡ f p)
    → count f (change_node n g ps) ≤ count f ps
count-kept f n g [] h = omega arith
count-kept f n g (p ∷ ps) h = elim (Bool-cases (p.node == n)) [
  | inl e ↦ rw (e, h p) (omega arith)
  | inr e ↦ rw e (omega (arith, count-kept f n g ps h))
]

-- The same system, with no more peers of any kind.
abbrev Keeps : Room → Room → Type 0
Keeps s r = ((f : Member → Bool) → count f (peers r) ≤ count f (peers s)) × (r.world ≡ s.world)

if-Keeps : (s a b : Room) (q : Bool) → Keeps s a → Keeps s b → Keeps s (if q then a else b)
if-Keeps s a b true x y = x
if-Keeps s a b false x y = y

clean_loop-Keeps : (ps : List Member) (s : Room) → Keeps s (clean_loop ps s)
unfolding clean_loop delete_peer
clean_loop-Keeps [] s = (λ f. omega arith, refl)
clean_loop-Keeps (p ∷ ps) s =
    let here =
      if-Keeps s (delete_peer (some p) s) s (is_unneeded p)
        (λ f. count-erase_node f p.node (peers s), refl) (λ f. omega arith, refl) in
    let rest = clean_loop-Keeps ps (if is_unneeded p then delete_peer (some p) s else s) in
    (λ f. omega (arith, here.0 f, rest.0 f), rest.1 ∙ here.1)

accepted-child_macs :
    (node : Ptr) (sender : Mac) (opt : Bytes) (ms : List Mac) (s : Room)
    → s.context.mode ≡ Mode.child
    → count (λ p. p.state == Peer.child) (peers s) ≡ 0
    → Fresh ms (peers s)
    → Live (length ms + 3) s.world.mallocs
    → child_macs (peers (accepted node sender opt ms s)) ≡ reverse ms
unfolding accepted
accepted-child_macs node sender opt ms s m none_yet f l =
    let answered = set_state Peer.parent node s in
    let grown =
      change-Grows node (λ p. record p { state = Peer.parent }) Peer.parent s (λ q. refl) in
    let cleaned = clean_loop (peers answered) answered in
    let kept = clean_loop-Keeps (peers answered) answered in
    let childless : count (λ p. p.state == Peer.child) (peers cleaned) ≡ 0 =
      omega (
        arith,
        kept.0 (λ p. p.state == Peer.child),
        grown.counts (λ k. k == Peer.child),
        none_yet,
      ) in
    let unknown : Fresh ms (peers cleaned) =
      Fresh-less ms (peers s) (peers cleaned)
        (λ n. omega (
          arith,
          kept.0 (λ p. is_mac_match p.mac n),
          count-kept (λ p. is_mac_match p.mac n) node (λ p. record p { state = Peer.parent })
              (peers s) (λ p. refl),
        ))
        f in
    let live : Live (length ms + 3) cleaned.world.mallocs = rw kept.1 l in
    let listed = add_siblings-child_macs ms 3 cleaned unknown live in
    let joined = add_self-child_macs 2 (add_siblings ms cleaned) listed.1 in
    let r : Room = add_self (add_siblings ms cleaned) in
    let blocked = block_hello-child_macs node r in
    let live2 : Live 2 (block_hello node r).world.mallocs =
      rw (block_hello-mallocs node r) joined.1 in
    let told = spawn-child_macs Notice.established 1 sender [] (block_hello node r) live2 in
    let done =
      spawn-child_macs Notice.accept 0 sender opt
        (spawn_local_event Notice.established sender [] (block_hello node r)) told.1 in
    let child : (s.context.mode == Mode.child) ≡ true = rw m refl in
    rw child (
      done.0
      ∙ told.0
      ∙ blocked
      ∙ joined.0
      ∙ listed.0
      ∙ ap (λ xs. reverse ms ++ xs) (child_macs-none (peers cleaned) childless)
      ∙ append-nil (reverse ms))

module _ (peer : Member) (opt : Bytes) (s : Room) (mode : s.context.mode ≡ Mode.parent)
    (one : children_at peer.node (peers s) ≡ 1)
    (small : 9 + length opt + 6 * count_children (peers s) < 2 ^ 31) where
  -- The list of a child agrees with the parent's. A child that asked the sender, has no parent and
  -- no children in its list and knows none of the MACs, and whose calls of malloc succeed, handles
  -- the accept packet that the parent made for it; then the MACs of the peers in the state child
  -- are those of the parent's other children, in the parent's order. The parent is in parent mode
  -- with exactly one child at the accepted peer's address, the MACs have six bytes and differ in
  -- their last five, and the lengths fit an int.
  pub accept_packet-agreed :
      (sender : Mac) (asked : Member) (r : Room)
      → let macs = sibling_macs peer.node (peers s) in
        let packet = accept_bytes peer opt s in
        AllMac macs
        → r.context.mode ≡ Mode.child
        → is_none (find_parent (peers r)) ≡ true
        → find_outgoing_request (peers r) ≡ some asked
        → is_same (some asked) (find_peer sender (peers r)) ≡ true
        → count_children (peers r) ≡ 0
        → Fresh (reverse macs) (peers r)
        → Live (length (reverse macs) + 3) r.world.mallocs
        → child_macs (peers (act_on_accept_packet sender packet (length packet) r)) ≡ macs
  unfolding act_on_accept_packet is_interested accept_from count_children
  accept_packet-agreed sender asked r six m orphan waits same childless f l =
      let macs = sibling_macs peer.node (peers s) in
      let parsed = accept_bytes-parsed peer opt s mode one small six in
      let child : (r.context.mode == Mode.child) ≡ true = rw m refl in
      let other : (r.context.mode == Mode.parent) ≡ false = rw m refl in
      rw (child, other, orphan, parsed.1, waits, same, parsed.3)
        (accepted-child_macs asked.node sender _ (reverse macs) r m childless f l
          ∙ reverse-reverse macs)
