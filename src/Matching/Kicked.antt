-- ===== src/Matching/Kicked.antt =====
-- A parent that kicks a child: proNetAdhocMatchingCancelTargetWithOpt of
-- pspnet_adhoc_matching/library/calls/cancel.c, and what the input thread then sends.
use aemu.Base.{
  ℕ, ◌≡◌, ◌≢◌, refl, sym, ap, subst, ◌∙◌, Bool, true, false, none, some, List, [], ◌∷◌, ◌++◌, drop,
  get_or, ◌<◌, ◌==◌, ltb, arith, Bool-cases, inl, inr,
}
use mathlib.Core.Option.{some-injective}
use aemu.Bytes.{Bytes}
use aemu.Chain.{Ptr, null}
use aemu.Matching.{Mac, Member, Message, Room, Effect, peers, address, is_mac_match}
use aemu.Matching.Members.{
  find_member, find_peer, erase_node, change_node, set_state, delete_peer, send_message,
  send_generic_message, link_message, count_connected_peers,
}
use aemu.Matching.Packet.{data_packet}
use aemu.Matching.Send.{
  send_buffer, drop_cancelled, send_cancel_packet, send_death_of, send_death_packet, send_one,
  send_loop, send_input_stack,
}
use aemu.Matching.Agreed.{Live}
use aemu.Matching.Calls.Target.{Given, given_bytes, is_cancellable, cancel_peer}
use aemu.Matching.Mode
use aemu.Matching.Peer
use aemu.Matching.Opcode

-- A write that keeps what is searched for does not move the node that is found.
module _ (f : Member → Bool) (n : Ptr) (g : Member → Member) (hf : (p : Member) → f (g p) ≡ f p)
    (hn : (p : Member) → (g p).node ≡ p.node) where
  find_member-change :
      (ps : List Member) (p : Member)
      → find_member f ps ≡ some p
      → (q : Member) × (find_member f (change_node n g ps) ≡ some q) × (q.node ≡ p.node)
  find_member-change [] p e = absurd (ground (arith, e))
  find_member-change (x ∷ ps) p e = elim (Bool-cases (x.node == n)) [
    | inl t ↦ elim (Bool-cases (f x)) [
      | inl h ↦
          let q : some x ≡ some p = rw h at e in
          rw (t, hf x, h) (g x, refl, hn x ∙ ap (λ y. y.node) (some-injective x p q))
      | inr h ↦ rw (t, hf x, h) (p, rw h at e, refl)
    ]
    | inr t ↦ elim (Bool-cases (f x)) [
      | inl h ↦
          let q : some x ≡ some p = rw h at e in
          rw (t, h) (x, refl, ap (λ y. y.node) (some-injective x p q))
      | inr h ↦ rw (t, h) (find_member-change ps p (rw h at e))
    ]
  ]

  erase_node-change : (ps : List Member) → erase_node n (change_node n g ps) ≡ erase_node n ps
  erase_node-change [] = refl
  erase_node-change (x ∷ ps) = elim (Bool-cases (x.node == n)) [
    | inl t ↦ let e : ((g x).node == n) ≡ true = rw (hn x) t in rw (t, e) refl
    | inr t ↦ rw (t, t) (ap (λ qs. x ∷ qs) (erase_node-change ps))
  ]

abbrev message : ℕ → Mac → Bytes → Message
message opcode mac opt = record { opcode = opcode; mac = mac; opt = opt }

-- The two messages, one after the other.
send_one-cancel :
    (mac : Mac) (opt : Bytes) (s : Room) (q : Member)
    → s.context.mode ≡ Mode.parent
    → address s ≢ null
    → find_peer mac (peers s) ≡ some q
    → let r = send_one (message Opcode.cancel mac opt) s in
      (peers r ≡ erase_node q.node (peers s))
      × (r.world.effects
          ≡ s.world.effects
            ++ Effect.transmitted s.context.socket mac s.context.port
                (data_packet Opcode.cancel opt)
              ∷ [])
unfolding send_one send_cancel_packet send_buffer drop_cancelled delete_peer
send_one-cancel mac opt s q m live found =
    let e : (address s == null) ≡ false = ground (arith, live) in
    let other : (s.context.mode == Mode.child) ≡ false = rw m refl in
    rw (e, found, other) (refl, refl)

send_one-death :
    (mac : Mac) (s : Room)
    → find_peer mac (peers s) ≡ none
    → send_one (message Opcode.death mac []) s ≡ s
unfolding send_one send_death_packet send_death_of
send_one-death mac s gone = rw gone refl

-- The same room with a message linked into the input stack.
abbrev IsLinked : Message → Room → Room → Type 0
IsLinked msg s r =
    (peers r ≡ peers s)
    × (r.world.effects ≡ s.world.effects)
    × (r.world.mallocs ≡ drop 1 s.world.mallocs)
    × (r.context.input_stack ≡ msg ∷ s.context.input_stack)
    × (r.context.mode ≡ s.context.mode)
    × (r.context.socket ≡ s.context.socket)
    × (r.context.port ≡ s.context.port)

send_message-IsLinked :
    (opcode : ℕ) (mac : Mac) (opt : Bytes) (s : Room)
    → address s ≢ null
    → IsLinked (message opcode mac opt) s (send_message opcode mac opt s)
unfolding send_message send_generic_message link_message
send_message-IsLinked opcode mac opt s live =
    let e : (address s == null) ≡ false = ground (arith, live) in
    rw e (refl, refl, refl, refl, refl, refl, refl)

-- The packet that says goodbye, and the peer gone.
abbrev pub IsDropped : Member → Bytes → Room → Room → Type 0
IsDropped q opt s r =
    (peers r ≡ erase_node q.node (peers s))
    × (r.world.effects
        ≡ s.world.effects
          ++ Effect.transmitted s.context.socket q.mac s.context.port
              (data_packet Opcode.cancel opt)
            ∷ [])

module _ (p : Member) (opt : Bytes) (s : Room) (m : s.context.mode ≡ Mode.parent)
    (empty : s.context.input_stack ≡ []) (found : find_peer p.mac (peers s) ≡ some p)
    (alone : find_peer p.mac (erase_node p.node (peers s)) ≡ none)
    (live : Live 3 s.world.mallocs) where
  abbrev goodbye : ℕ → ℕ → Effect
  goodbye socket port = Effect.transmitted socket p.mac port (data_packet Opcode.cancel opt)

  abbrev mourned : Room
  mourned = send_message Opcode.death p.mac [] s

  abbrev marked : Room
  marked = set_state Peer.cancel_in_progress p.node mourned

  abbrev told : Room
  told = send_message Opcode.cancel p.mac opt marked

  abbrev cancelled : Room
  cancelled = send_one (message Opcode.cancel p.mac opt) told

  first : IsLinked (message Opcode.death p.mac []) s mourned
  first = send_message-IsLinked Opcode.death p.mac [] s live.0

  Live-marked : Live 2 marked.world.mallocs
  Live-marked = subst (Live 2) (sym first.2) live.1

  second : IsLinked (message Opcode.cancel p.mac opt) marked told
  second = send_message-IsLinked Opcode.cancel p.mac opt marked Live-marked.0

  peers-told :
      peers told ≡ change_node p.node (λ q. record q { state = Peer.cancel_in_progress }) (peers s)
  peers-told = second.0 ∙ ap (change_node p.node _) first.0

  still_found : (q : Member) × (find_peer p.mac (peers told) ≡ some q) × (q.node ≡ p.node)
  unfolding find_peer
  still_found =
      let f =
        find_member-change (λ q. is_mac_match q.mac p.mac) p.node
          (λ q. record q { state = Peer.cancel_in_progress }) (λ q. refl) (λ q. refl) (peers s) p
          found in
      (f.0, ap (find_peer p.mac) peers-told ∙ f.1, f.2)

  sent :
      (peers cancelled ≡ erase_node still_found.0.node (peers told))
      × (cancelled.world.effects
          ≡ told.world.effects
            ++ Effect.transmitted told.context.socket p.mac told.context.port
                (data_packet Opcode.cancel opt)
              ∷ [])
  sent =
      send_one-cancel p.mac opt told still_found.0 (second.4 ∙ first.4 ∙ m)
        (subst (λ ms. get_or ms 0 null ≢ null) (sym second.2) Live-marked.1.0) still_found.1

  peers-cancelled : peers cancelled ≡ erase_node p.node (peers s)
  peers-cancelled =
      sent.0
      ∙ ap (λ n. erase_node n (peers told)) still_found.2
      ∙ ap (erase_node p.node) peers-told
      ∙ erase_node-change (λ q. true) p.node (λ q. record q { state = Peer.cancel_in_progress })
          (λ q. refl) (λ q. refl) (peers s)

  send_input_stack-told : IsDropped p opt s (send_input_stack told)
  unfolding send_input_stack send_loop
  send_input_stack-told =
      let stack : told.context.input_stack
          ≡ message Opcode.cancel p.mac opt ∷ message Opcode.death p.mac [] ∷ [] =
        second.3
        ∙ ap (λ ms. message Opcode.cancel p.mac opt ∷ ms)
            (first.3 ∙ ap (λ ms. message Opcode.death p.mac [] ∷ ms) empty) in
      let gone : find_peer p.mac (peers cancelled) ≡ none =
        ap (find_peer p.mac) peers-cancelled ∙ alone in
      let silent = send_one-death p.mac cancelled gone in
      subst (λ ms. IsDropped p opt s (send_loop ms told)) (sym stack)
        (
          ap peers silent ∙ peers-cancelled,
          ap (λ r. r.world.effects) silent
              ∙ sent.1
              ∙ ap (λ es. es ++ goodbye told.context.socket told.context.port ∷ [])
                  (second.1 ∙ first.1)
              ∙ ap (λ k. s.world.effects ++ goodbye k told.context.port ∷ []) (second.5 ∙ first.5)
              ∙ ap (λ k. s.world.effects ++ goodbye s.context.socket k ∷ []) (second.6 ∙ first.6),
        )

-- When a parent's game cancels a child, with an empty input stack, at least one child, malloc
-- succeeding and no other peer with the child's MAC, and the input thread then sends its messages,
-- the child's node leaves the peer list, the child is sent one cancel packet, and nothing else is
-- sent: the death message, which lies under the cancel message on the stack, finds no peer any
-- more, so no other child is told.
pub cancel_peer-told :
    (p : Member) (given : Given) (s : Room)
    → s.context.mode ≡ Mode.parent
    → p.state ≡ Peer.child
    → 1 < count_connected_peers s.context
    → s.context.input_stack ≡ []
    → find_peer p.mac (peers s) ≡ some p
    → find_peer p.mac (erase_node p.node (peers s)) ≡ none
    → Live 3 s.world.mallocs
    → IsDropped p (given_bytes given) s (send_input_stack (cancel_peer (some p) given s).room)
unfolding cancel_peer is_cancellable
cancel_peer-told p given s m c many empty found alone live =
    let parent : (s.context.mode == Mode.parent) ≡ true = rw m refl in
    let not_child : (s.context.mode == Mode.child) ≡ false = rw m refl in
    let child : (p.state == Peer.child) ≡ true = rw c refl in
    let more : ltb 1 (count_connected_peers s.context) ≡ true = ground (arith, many) in
    rw (parent, not_child, child, more)
      (send_input_stack-told p (given_bytes given) s m empty found alone live)
