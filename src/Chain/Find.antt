-- ===== src/Chain/Find.antt =====
-- What the search loop finds.
use aemu.Base.{
  zero, suc, ◌≡◌, ◌≢◌, ◌≤◌, refl, Bool, true, false, List, [], ◌∷◌, ◌∈◌, ◌∉◌, if◌then◌else◌, arith,
  length, eq_cases, inl, inr, Bool-cases, subst, sym,
}
use aemu.Chain.{Ptr, null, find_node}
use aemu.Chain.Seg.{Seg}

-- The first node of the list that passes the test, or NULL.
abbrev pub first_hit : (Ptr → Bool) → List Ptr → Ptr
first_hit hit [] = null
first_hit hit (x ∷ xs) = if hit x then x else first_hit hit xs

pub first_hit-mem :
    (hit : Ptr → Bool) (xs : List Ptr)
    → first_hit hit xs ≢ null
    → (first_hit hit xs ∈ xs) × (hit (first_hit hit xs) ≡ true)
first_hit-mem hit [] ne = absurd (ne refl)
first_hit-mem hit (x ∷ xs) ne = elim (Bool-cases (hit x)) [
  | inl t ↦ rw (t) (ground arith, t)
  | inr t ↦
      let e : first_hit hit (x ∷ xs) ≡ first_hit hit xs = rw t in
      let rest = first_hit-mem hit xs (rw t at ne) in
      subst (λ p. (p ∈ x ∷ xs) × (hit p ≡ true)) (sym e) (ground (arith, rest.0), rest.1)
]

-- No node passes the test if none is found.
pub first_hit-null :
    (hit : Ptr → Bool) (xs : List Ptr) (x : Ptr)
    → null ∉ xs
    → first_hit hit xs ≡ null
    → x ∈ xs
    → hit x ≡ false
first_hit-null hit [] x o e i = ground arith
first_hit-null hit (y ∷ ys) x o e i = elim (Bool-cases (hit y)) [
  | inl t ↦ ground arith
  | inr t ↦ elim (eq_cases x y) [
    | inl (_, q) ↦ rw q t
    | inr (_, ne) ↦ first_hit-null hit ys x (ground arith) (ground arith) (ground arith)
  ]
]

module _ (hit : Ptr → Bool) (next prev : Ptr → Ptr) where
  -- On pointers that lead through a list to NULL, the search loop finds the first node of the list
  -- that passes the test, or NULL if none does, whenever it may take at least as many rounds as
  -- there are nodes.
  pub find_node-Seg :
      (fuel p a : Ptr) (xs : List Ptr)
      → Seg next prev p a xs
      → length xs ≤ fuel
      → find_node fuel hit next a ≡ first_hit hit xs
  unfolding find_node
  find_node-Seg zero p a [] s h = refl
  find_node-Seg zero p a (x ∷ xs) s h = absurd (omega arith)
  find_node-Seg (suc fuel) p a [] s h = ground arith
  find_node-Seg (suc fuel) p a (x ∷ xs) s h = elim (Bool-cases (hit x)) [
    | inl t ↦ rw (s.0, t) (ground arith)
    | inr t ↦ rw (s.0, t) (ground (arith, find_node-Seg fuel x (next x) xs s.3))
  ]
