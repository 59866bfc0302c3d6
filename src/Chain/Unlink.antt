-- ===== src/Chain/Unlink.antt =====
-- Taking a node out: the four "Unlink" blocks of user.c.
use aemu.Base.{
  ◌≡◌, ◌≢◌, true, false, List, [], ◌∷◌, arith, ◌==◌, if◌then◌else◌, update, erase, ◌∈◌, ◌∉◌,
  Distinct, inl, inr, eq_cases, ◌∙◌, has-erase, erase-Distinct,
}
use aemu.Chain.{Ptr, null, Lists, unlink}
use aemu.Chain.Seg.{Seg, IsLists, Seg-frame, null-not-mem, next-mem, prev-mem, prev-head, prev-tail}

module _ (next prev : Ptr → Ptr) (n : Ptr) where
  abbrev next_without : Ptr → Ptr
  next_without = if prev n == null then next else update next (prev n) (next n)

  abbrev prev_without : Ptr → Ptr
  prev_without = if next n == null then prev else update prev (next n) (prev n)

  -- `p` is what the chain is entered from.
  Seg-erase :
      (p a : Ptr) (xs : List Ptr)
      → Seg next prev p a xs
      → Distinct xs
      → n ∈ xs
      → p ∉ xs
      → Seg next_without prev_without p (if a == n then next n else a) (erase n xs)
  Seg-erase p a [] s d h out = ground arith
  Seg-erase p a (x ∷ []) s d h out = ground arith
  Seg-erase p a (x ∷ y ∷ r) s d h out = elim (eq_cases x n) [
    | inl (t, e) ↦
        let head : (a == n) ≡ true = ground arith in
        let step : next n ≡ y = ground arith in
        let after : next_without y ≡ next y = ground arith in
        rw (head, t)
          (
            step,
            s.3.1,
            ground arith,
            rw after
                (Seg-frame next prev _ _ y (next y) r (λ z i. (ground arith, ground arith)) s.3.3),
          )
    | inr (t, e) ↦
        let tail : n ∈ y ∷ r = ground arith in
        let head : (a == n) ≡ false = ground arith in
        let back : prev_without x ≡ prev x =
          ground (arith, next-mem next prev x (next x) n (y ∷ r) s.3 tail) in
        let step : next_without x ≡ (if next x == n then next n else next x) = ground (
          arith,
          prev-head next prev x (next x) (y ∷ r) s.3,
          prev-mem next prev x (next x) n (y ∷ r) s.3 tail,
        ) in
        rw (head, t) (s.0, s.1, back ∙ s.2, rw step (Seg-erase x (next x) (y ∷ r) s.3 d.1 tail d.0))
  ]

module _ {l : Lists} {xs : Ptr → List Ptr} (owner n : Ptr) (is : IsLists l xs)
    (mem : n ∈ xs owner) where
  -- The writes are to neighbours, which stand in the owner's list.
  spared :
      (o y : Ptr)
      → o ≢ owner
      → y ∈ xs o
      → ((unlink owner n l).next y ≡ l.next y) × ((unlink owner n l).prev y ≡ l.prev y)
  unfolding unlink
  spared o y other i =
      let s = is.seg owner in
      let out = null-not-mem l.next l.prev null (l.head o) (xs o) (is.seg o) in
      let solid = null-not-mem l.next l.prev null (l.head owner) (xs owner) s in
      let far = is.apart o owner y i in
      let before = prev-mem l.next l.prev null (l.head owner) n (xs owner) s mem in
      let first = prev-head l.next l.prev null (l.head owner) (xs owner) s in
      let after = next-mem l.next l.prev null (l.head owner) n (xs owner) s mem in
      (ground arith, ground arith)

  new_head : (unlink owner n l).head owner ≡ (if l.head owner == n then l.next n else l.head owner)
  unfolding unlink
  new_head = ground (
    arith,
    null-not-mem l.next l.prev null (l.head owner) (xs owner) (is.seg owner),
    prev-head l.next l.prev null (l.head owner) (xs owner) (is.seg owner),
    prev-tail l.next l.prev null (l.head owner) n (xs owner) (is.seg owner) mem,
  )

  chain :
      Seg
        (unlink owner n l).next
        (unlink owner n l).prev
        null
        ((unlink owner n l).head owner)
        (erase n (xs owner))
  chain = rw new_head (
      unfold unlink in
      (Seg-erase l.next l.prev n null (l.head owner) (xs owner) (is.seg owner) (is.distinct owner)
        mem (null-not-mem l.next l.prev null (l.head owner) (xs owner) (is.seg owner))))

  other_chain :
      (o : Ptr)
      → o ≢ owner
      → Seg (unlink owner n l).next (unlink owner n l).prev null ((unlink owner n l).head o) (xs o)
  other_chain o e =
      let same : (unlink owner n l).head o ≡ l.head o = unfold unlink in (ground arith) in
      rw same
        (Seg-frame l.next l.prev _ _ null (l.head o) (xs o) (λ y i. spared o y e i) (is.seg o))

  -- Taking a node out of the list that it stands in gives, for pointers that make doubly linked
  -- lists of distinct nodes, pointers that make the same lists, the owner's without that node.
  pub unlink-IsLists : IsLists (unlink owner n l) (update xs owner (erase n (xs owner)))
  unlink-IsLists = record {
    seg = λ o. elim (eq_cases o owner) [
      | inl (t, e) ↦ rw (t, e) chain
      | inr (t, e) ↦ rw t (other_chain o e)
    ];
    distinct = λ o. elim (eq_cases o owner) [
      | inl (t, e) ↦ rw t (erase-Distinct n (xs owner) (is.distinct owner))
      | inr (t, e) ↦ rw t (is.distinct o)
    ];
    apart = λ o o' m i i'.
        ground (arith, is.apart o o' m, has-erase m n (xs owner) (is.distinct owner));
  }
