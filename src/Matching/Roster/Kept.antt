-- ===== src/Matching/Roster/Kept.antt =====
-- Rosters under growth and shrinking.
use aemu.Base.{
  ℕ, ◌+◌, ◌≡◌, ◌≤◌, refl, sym, ◌∙◌, Bool, true, false, not, List, [], ◌∷◌, ◌==◌, count, arith,
  Bool-cases, inl, inr,
}
use aemu.Matching.{Member, Room}
use aemu.Matching.Members.{find_member, is_none}
use aemu.Matching.Mode
use aemu.Matching.Peer
use aemu.Matching.Roster.{IsRoster, Shrinks, Grows, count_state, is_allowed}

-- A search that finds nothing, as a count.
pub count-find_member :
    (f : Member → Bool) (ps : List Member) → is_none (find_member f ps) ≡ true → count f ps ≡ 0
count-find_member f [] e = refl
count-find_member f (p ∷ ps) e = elim (Bool-cases (f p)) [
  | inl t ↦ absurd (let q : false ≡ true = rw t at e in ground (arith, q))
  | inr t ↦ rw t (omega (arith, count-find_member f ps (rw t at e)))
]

module _ {s s' : Room} where
  pub Shrinks-IsRoster : Shrinks s s' → IsRoster s → IsRoster s'
  Shrinks-IsRoster x is = record {
    allowed =
        rw x.mode (omega (arith, x.counts (λ k. not (is_allowed s.context.mode k)), is.allowed));
    one_parent = omega (arith, x.counts (λ k. k == Peer.parent), is.one_parent);
    one_p2p = omega (arith, x.counts (λ k. k == Peer.p2p), is.one_p2p);
    one_request = omega (arith, x.counts (λ k. k == Peer.outgoing_request), is.one_request);
    has_room = λ e.
        omega (arith, x.maxpeers, x.counts (λ k. k == Peer.child), is.has_room (sym x.mode ∙ e));
  }

-- The one more peer may be there: its state is one of the mode's, and it is not the second parent,
-- partner or open request, nor a child too many.
pub record Fits (k : ℕ) (s : Room) : Type 0 where
  pub allowed : is_allowed s.context.mode k ≡ true
  pub parent : (k == Peer.parent) ≡ true → count_state (λ j. j == Peer.parent) s ≡ 0
  pub p2p : (k == Peer.p2p) ≡ true → count_state (λ j. j == Peer.p2p) s ≡ 0
  pub request :
      (k == Peer.outgoing_request) ≡ true → count_state (λ j. j == Peer.outgoing_request) s ≡ 0
  pub child :
      (k == Peer.child) ≡ true
      → s.context.mode ≡ Mode.parent
      → count_state (λ j. j == Peer.child) s + 2 ≤ s.context.maxpeers

module _ (k : ℕ) {s s' : Room} where
  pub Grows-IsRoster : Grows k s s' → Fits k s → IsRoster s → IsRoster s'
  Grows-IsRoster x fits is =
      let a = x.counts (λ j. not (is_allowed s.context.mode j)) in
      record {
        allowed = rw x.mode (omega (arith, (rw fits.allowed at a), is.allowed));
        one_parent = ground (arith, x.counts (λ j. j == Peer.parent), is.one_parent, fits.parent);
        one_p2p = ground (arith, x.counts (λ j. j == Peer.p2p), is.one_p2p, fits.p2p);
        one_request =
            ground
              (arith, x.counts (λ j. j == Peer.outgoing_request), is.one_request, fits.request);
        has_room = λ e.
            let m : s.context.mode ≡ Mode.parent = sym x.mode ∙ e in
            let c : (k == Peer.child) ≡ true
                → count_state (λ j. j == Peer.child) s + 2 ≤ s.context.maxpeers =
              λ t. fits.child t m in
            ground (arith, x.maxpeers, x.counts (λ j. j == Peer.child), is.has_room m, c);
      }
