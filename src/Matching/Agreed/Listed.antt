-- ===== src/Matching/Agreed/Listed.antt =====
-- New siblings in a list: _postAcceptAddSiblings of pspnet_adhoc_matching/library/calls/start.c.
use aemu.Base.{
  ℕ, zero, suc, ◌+◌, ◌≡◌, ◌≢◌, ◌≤◌, refl, sym, ap, subst, ◌∙◌, Bool, true, false, none, List, [],
  ◌∷◌, ◌++◌, ◌==◌, length, count, drop, arith, Bool-cases, inl, inr,
}
use mathlib.Core.List.{reverse, reverse-cons, append_assoc}
use aemu.Chain.{Ptr, null}
use aemu.Matching.{Mac, Member, Room, peers, address, is_mac_match}
use aemu.Matching.Members.{find_member, find_peer, add_peer}
use aemu.Matching.Receive.Accept.{add_sibling, add_siblings}
use aemu.Matching.Peer
use aemu.Matching.Agreed.{child_macs, Live, Fresh}

pub Live-less : (k : ℕ) (m : List Ptr) → Live (suc k) m → Live k m
Live-less zero m l = tt
Live-less (suc k) m l = (l.0, Live-less k (drop 1 m) l.1)

pub count-find_none :
    (f : Member → Bool) (ps : List Member) → count f ps ≡ 0 → find_member f ps ≡ none
count-find_none f [] e = refl
count-find_none f (p ∷ ps) e = elim (Bool-cases (f p)) [
  | inl t ↦ absurd (ground (arith, t, e))
  | inr t ↦ rw t (count-find_none f ps (ground (arith, t, e)))
]

pub child_macs-none :
    (ps : List Member) → count (λ p. p.state == Peer.child) ps ≡ 0 → child_macs ps ≡ []
unfolding child_macs
child_macs-none [] e = refl
child_macs-none (p ∷ ps) e = elim (Bool-cases (p.state == Peer.child)) [
  | inl t ↦ absurd (ground (arith, t, e))
  | inr t ↦ rw t (child_macs-none ps (ground (arith, t, e)))
]

child_macs-cons :
    (p : Member) (ps : List Member)
    → p.state ≡ Peer.child
    → child_macs (p ∷ ps) ≡ p.mac ∷ child_macs ps
unfolding child_macs
child_macs-cons p ps e = let t : (p.state == Peer.child) ≡ true = ground (arith, e) in rw t refl

find_peer-none :
    (m : Mac) (ps : List Member) → count (λ p. is_mac_match p.mac m) ps ≡ 0 → find_peer m ps ≡ none
unfolding find_peer
find_peer-none m ps e = count-find_none (λ p. is_mac_match p.mac m) ps e

Fresh-cons :
    (p : Member) (ms : List Mac) (ps : List Member)
    → count (λ n. is_mac_match p.mac n) ms ≡ 0
    → Fresh ms ps
    → Fresh ms (p ∷ ps)
Fresh-cons p [] ps e f = tt
Fresh-cons p (m ∷ ms) ps e f =
    let other : is_mac_match p.mac m ≡ false = ground (arith, e) in
    (ground (arith, other, f.0), f.1, Fresh-cons p ms ps (ground (arith, e)) f.2)

-- Fewer peers.
pub Fresh-less :
    (ms : List Mac) (ps qs : List Member)
    → ((m : Mac) → count (λ p. is_mac_match p.mac m) qs ≤ count (λ p. is_mac_match p.mac m) ps)
    → Fresh ms ps
    → Fresh ms qs
Fresh-less [] ps qs le f = tt
Fresh-less (m ∷ ms) ps qs le f = (omega (arith, le m, f.0), f.1, Fresh-less ms ps qs le f.2)

module _ (m : Mac) (s : Room) (live : address s ≢ null) where
  added-peers :
      (p : Member) × (peers (add_sibling none m s) ≡ p ∷ peers s)
      × (p.mac ≡ m)
      × (p.state ≡ Peer.child)
      × ((add_sibling none m s).world.mallocs ≡ drop 1 s.world.mallocs)
  unfolding add_sibling add_peer
  added-peers =
      let e : (address s == null) ≡ false = ground (arith, live) in rw e (_, refl, refl, refl, refl)

-- A list of siblings, none of them known.
pub add_siblings-child_macs :
    (ms : List Mac) (k : ℕ) (s : Room)
    → Fresh ms (peers s)
    → Live (length ms + k) s.world.mallocs
    → (child_macs (peers (add_siblings ms s)) ≡ reverse ms ++ child_macs (peers s))
      × Live k (add_siblings ms s).world.mallocs
unfolding add_siblings
add_siblings-child_macs [] k s f l =
    let e : 0 + k ≡ k = omega arith in (refl, subst (λ j. Live j s.world.mallocs) e l)
add_siblings-child_macs (m ∷ ms) k s f l =
    let e : suc (length ms) + k ≡ suc (length ms + k) = omega arith in
    let live : Live (suc (length ms + k)) s.world.mallocs =
      subst (λ j. Live j s.world.mallocs) e l in
    let unknown : find_peer m (peers s) ≡ none = find_peer-none m (peers s) f.0 in
    let r : Room = add_sibling none m s in
    let added = added-peers m s live.0 in
    let fresh : Fresh ms (peers r) =
      rw added.1 (Fresh-cons added.0 ms (peers s) (rw added.2 f.1) f.2) in
    let more : Live (length ms + k) r.world.mallocs = rw added.4 live.1 in
    let rest = add_siblings-child_macs ms k r fresh more in
    let child : child_macs (peers r) ≡ m ∷ child_macs (peers s) =
      rw added.1
        (child_macs-cons added.0 (peers s) added.3 ∙ ap (λ x. x ∷ child_macs (peers s)) added.2) in
    subst
      (λ o.
        (child_macs (peers (add_siblings ms (add_sibling o m s)))
          ≡ reverse (m ∷ ms) ++ child_macs (peers s))
        × Live k (add_siblings ms (add_sibling o m s)).world.mallocs)
      (sym unknown)
      (
        rest.0
            ∙ ap (λ xs. reverse ms ++ xs) child
            ∙ sym (append_assoc (reverse ms) (m ∷ []) (child_macs (peers s)))
            ∙ ap (λ xs. xs ++ child_macs (peers s)) (sym (reverse-cons m ms)),
        rest.1,
      )
