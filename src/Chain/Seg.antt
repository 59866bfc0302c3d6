-- ===== src/Chain/Seg.antt =====
-- What a chain of pointers stands for: the list of its nodes.
use aemu.Base.{zero, suc, ◌≡◌, refl, ◌≢◌, ◌≤◌, List, [], ◌∷◌, arith, ◌∈◌, ◌∉◌, Distinct, length}
use aemu.Chain.{Ptr, null, Lists, walk}

-- From `a`, whose predecessor is `p`, the `next` pointers lead through `xs` to NULL, and the `prev`
-- pointers lead back.
abbrev pub Seg : (Ptr → Ptr) → (Ptr → Ptr) → Ptr → Ptr → List Ptr → Type 0
Seg next prev p a [] = a ≡ null
Seg next prev p a (x ∷ xs) = (a ≡ x) × (x ≢ null) × (prev x ≡ p) × Seg next prev x (next x) xs

-- Each owner's list is a chain of distinct nodes, and no node is in the lists of two owners.
pub record IsLists (l : Lists) (xs : Ptr → List Ptr) : Type 0 where
  pub seg : (o : Ptr) → Seg l.next l.prev null (l.head o) (xs o)
  pub distinct : (o : Ptr) → Distinct (xs o)
  pub apart : (o o' n : Ptr) → n ∈ xs o → n ∈ xs o' → o ≡ o'

module _ (next prev next' prev' : Ptr → Ptr) where
  -- A chain survives writes that spare its nodes.
  pub Seg-frame :
      (p a : Ptr) (xs : List Ptr)
      → ((y : Ptr) → y ∈ xs → (next' y ≡ next y) × (prev' y ≡ prev y))
      → Seg next prev p a xs
      → Seg next' prev' p a xs
  Seg-frame p a [] same s = s
  Seg-frame p a (x ∷ xs) same s =
      let now = same x (ground arith) in
      (
        s.0,
        s.1,
        ground arith,
        rw now.0 (Seg-frame x (next x) xs (λ y i. same y (ground arith)) s.3),
      )

module _ (next prev : Ptr → Ptr) where
  pub null-not-mem : (p a : Ptr) (xs : List Ptr) → Seg next prev p a xs → null ∉ xs
  null-not-mem p a [] s = refl
  null-not-mem p a (x ∷ xs) s = ground (arith, null-not-mem x (next x) xs s.3)

  -- The neighbours of a node of the chain.
  pub next-mem :
      (p a n : Ptr) (xs : List Ptr) → Seg next prev p a xs → n ∈ xs → next n ≢ null → next n ∈ xs
  next-mem p a n [] s h ne = ground arith
  next-mem p a n (x ∷ []) s h ne = ground arith
  next-mem p a n (x ∷ y ∷ r) s h ne = ground (arith, next-mem x (next x) n (y ∷ r) s.3)

  pub prev-mem : (p a n : Ptr) (xs : List Ptr) → Seg next prev p a xs → n ∈ xs → n ≢ a → prev n ∈ xs
  prev-mem p a n [] s h ne = ground arith
  prev-mem p a n (x ∷ []) s h ne = ground arith
  prev-mem p a n (x ∷ y ∷ r) s h ne = ground (arith, prev-mem x (next x) n (y ∷ r) s.3)

  -- On pointers that lead through a list to NULL, the loop over the nodes visits the nodes of the
  -- list, in order and once each, whenever it may take at least as many rounds as there are nodes.
  pub walk-Seg :
      (fuel p a : Ptr) (xs : List Ptr)
      → Seg next prev p a xs
      → length xs ≤ fuel
      → walk fuel next a ≡ xs
  unfolding walk
  walk-Seg zero p a [] s h = refl
  walk-Seg zero p a (x ∷ xs) s h = absurd (omega arith)
  walk-Seg (suc fuel) p a [] s h = ground arith
  walk-Seg (suc fuel) p a (x ∷ xs) s h = ground (arith, walk-Seg fuel x (next x) xs s.3)

  pub head-mem : (p a : Ptr) (xs : List Ptr) → Seg next prev p a xs → a ≢ null → a ∈ xs
  head-mem p a [] s ne = absurd (ne s)
  head-mem p a (x ∷ xs) s ne = ground arith

  -- The predecessor of the first node is what the chain is entered from.
  pub prev-head : (p a : Ptr) (xs : List Ptr) → Seg next prev p a xs → a ≢ null → prev a ≡ p
  prev-head p a [] s ne = absurd (ne s)
  prev-head p a (x ∷ xs) s ne = rw s.0 s.2

  pub prev-tail :
      (p a n : Ptr) (xs : List Ptr) → Seg next prev p a xs → n ∈ xs → n ≢ a → prev n ≢ null
  prev-tail p a n xs s h ne e =
      let i : prev n ∈ xs = prev-mem p a n xs s h ne in
      let o : null ∉ xs = null-not-mem p a xs s in ground arith
