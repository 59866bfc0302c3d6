-- ===== src/Chain/Link.antt =====
-- Putting a node in front: the four "Link into ... List" blocks of user.c.
use aemu.Base.{
  ◌≡◌, refl, ◌≢◌, false, List, [], ◌∷◌, arith, ◌==◌, if◌then◌else◌, update, ◌∈◌, ◌∉◌, Distinct, inl,
  inr, eq_cases,
}
use aemu.Chain.{Ptr, null, Lists, link, clear_links}
use aemu.Chain.Seg.{Seg, IsLists, Seg-frame, null-not-mem, head-mem}

-- The chain behind the new node.
Seg-behind :
    (next prev : Ptr → Ptr) (n a : Ptr) (ys : List Ptr)
    → Seg next prev null a ys
    → Distinct ys
    → n ≢ null
    → n ∉ ys
    → Seg (update next n a) (if a == null then prev else update prev a n) n a ys
Seg-behind next prev n a [] s d ne out = s
Seg-behind next prev n a (y ∷ r) s d ne out = (
  s.0,
  s.1,
  ground arith,
  let e : update next n a y ≡ next y = ground arith in
      rw e (Seg-frame next prev _ _ y (next y) r (λ z i. (ground arith, ground arith)) s.3),
)

module _ {l : Lists} {xs : Ptr → List Ptr} (owner n : Ptr) (is : IsLists l xs) (ne : n ≢ null)
    (fresh : (o : Ptr) → n ∉ xs o) (clean : l.prev n ≡ null) where
  head-apart : (o y : Ptr) → o ≢ owner → y ∈ xs o → (y == l.head owner) ≡ false
  head-apart o y other i = ground (
    arith,
    null-not-mem l.next l.prev null (l.head o) (xs o) (is.seg o),
    head-mem l.next l.prev null (l.head owner) (xs owner) (is.seg owner),
    is.apart o owner y i,
  )

  new_prev : (link owner n l).prev n ≡ null
  unfolding link
  new_prev =
      ground
        (arith, fresh owner, head-mem l.next l.prev null (l.head owner) (xs owner) (is.seg owner))

  new_tail : Seg (link owner n l).next (link owner n l).prev n ((link owner n l).next n) (xs owner)
  unfolding link
  new_tail =
      let e : update l.next n (l.head owner) n ≡ l.head owner = ground arith in
      rw e (
        Seg-behind l.next l.prev n (l.head owner) (xs owner) (is.seg owner) (is.distinct owner) ne
          (fresh owner))

  other_nodes :
      (o y : Ptr)
      → o ≢ owner
      → y ∈ xs o
      → ((link owner n l).next y ≡ l.next y) × ((link owner n l).prev y ≡ l.prev y)
  unfolding link
  other_nodes o y other i =
      (ground (arith, fresh o), ground (arith, fresh o, head-apart o y other i))

  -- Putting a node in front of an owner's list gives, for pointers that make doubly linked lists of
  -- distinct nodes, pointers that make the same lists, the owner's with the node in front, if the
  -- node is not NULL, stands in no list and has NULL as its previous node.
  pub link-IsLists : IsLists (link owner n l) (update xs owner (n ∷ xs owner))
  unfolding link
  link-IsLists = record {
    seg = λ o. elim (eq_cases o owner) [
      | inl (t, e) ↦ rw t (refl, ne, new_prev, new_tail)
      | inr (t, e) ↦ rw t (
          Seg-frame l.next l.prev _ _ null (l.head o) (xs o) (λ y i. other_nodes o y e i)
            (is.seg o))
    ];
    distinct = λ o. elim (eq_cases o owner) [
      | inl (t, e) ↦ rw t (fresh owner, is.distinct owner)
      | inr (t, e) ↦ rw t (is.distinct o)
    ];
    apart = λ o o' m i i'. ground (arith, is.apart o o' m, fresh o, fresh o');
  }

-- Clearing the pointers of a node that is in no list.
pub clear_links-IsLists :
    {l : Lists} {xs : Ptr → List Ptr} (n : Ptr)
    → IsLists l xs
    → ((o : Ptr) → n ∉ xs o)
    → IsLists (clear_links n l) xs
unfolding clear_links
clear_links-IsLists {l} {xs} n is fresh = record {
  seg = λ o.
      Seg-frame l.next l.prev _ _ null (l.head o) (xs o)
        (λ y i. (ground (arith, fresh o), ground (arith, fresh o))) (is.seg o);
  distinct = is.distinct;
  apart = is.apart;
}
