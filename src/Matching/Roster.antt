-- ===== src/Matching/Roster.antt =====
-- What the peer list of a context may hold in each mode.
pub mod Lists
pub mod Kept
pub mod Sent
pub mod Received
pub mod Answered
pub mod Left
pub mod Rounds
pub mod Called
pub mod Switched
pub mod Steps
pub mod Everywhere
pub mod Runs
use aemu.Base.{
  ℕ, zero, suc, ◌+◌, ◌≡◌, ◌≤◌, Bool, true, false, not, ◌||◌, List, ◌==◌, if◌then◌else◌, count,
}
use aemu.Matching.{Member, Room, peers}
use aemu.Matching.Members.{in_state}
use aemu.Matching.Mode
use aemu.Matching.Peer

-- The states that a peer can have in a mode.
unfoldable pub is_allowed : ℕ → ℕ → Bool
is_allowed mode state =
    if mode == Mode.parent
    then state == Peer.child || (state == Peer.incoming_request || state == Peer.cancel_in_progress)
    else if mode == Mode.child
    then state == Peer.self
      || (state == Peer.offer
          || (state == Peer.parent
              || (state == Peer.child
                  || (state == Peer.outgoing_request || state == Peer.cancel_in_progress))))
    else state == Peer.offer
      || (state == Peer.p2p
          || (state == Peer.incoming_request
              || (state == Peer.outgoing_request || state == Peer.cancel_in_progress)))

abbrev pub count_state : (ℕ → Bool) → Room → ℕ
count_state t s = count (λ p. t p.state) (peers s)

-- Every peer's state is one of the mode's, there is at most one parent, one partner and one open
-- request, and a parent's children and the parent itself fit into the room.
pub record IsRoster (s : Room) : Type 0 where
  pub allowed : count_state (λ k. not (is_allowed s.context.mode k)) s ≡ 0
  pub one_parent : count_state (λ k. k == Peer.parent) s ≤ 1
  pub one_p2p : count_state (λ k. k == Peer.p2p) s ≤ 1
  pub one_request : count_state (λ k. k == Peer.outgoing_request) s ≤ 1
  pub has_room :
      s.context.mode ≡ Mode.parent → count_state (λ k. k == Peer.child) s + 1 ≤ s.context.maxpeers

-- The same context, with no more peers in any set of states.
pub record Shrinks (s s' : Room) : Type 0 where
  pub id : s'.context.id ≡ s.context.id
  pub mode : s'.context.mode ≡ s.context.mode
  pub maxpeers : s'.context.maxpeers ≡ s.context.maxpeers
  pub counts : (t : ℕ → Bool) → count_state t s' ≤ count_state t s

-- The same context, with at most one peer more, and that in the state k.
pub record Grows (k : ℕ) (s s' : Room) : Type 0 where
  pub id : s'.context.id ≡ s.context.id
  pub mode : s'.context.mode ≡ s.context.mode
  pub maxpeers : s'.context.maxpeers ≡ s.context.maxpeers
  pub counts : (t : ℕ → Bool) → count_state t s' ≤ (if t k then 1 else 0) + count_state t s
