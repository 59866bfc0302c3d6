-- ===== src/Invariant/Facts.antt =====
-- Counting the users who refer to a node, and the lists of one owner.
use aemu.Base.{
  ℕ, ◌+◌, ◌≤◌, ◌<◌, ◌≡◌, ◌≢◌, refl, List, [], ◌∷◌, ◌==◌, if◌then◌else◌, length, count, has, erase,
  ◌∈◌, ◌∉◌, Distinct, update, arith, fun_ext,
}
use aemu.Chain.{Ptr, null, Lists}
use aemu.Chain.Seg.{IsLists, null-not-mem, head-mem, next-mem}
use aemu.Invariant.{solo}

pub IsLists-ext :
    {l : Lists} {xs ys : Ptr → List Ptr} → IsLists l xs → ((o : Ptr) → xs o ≡ ys o) → IsLists l ys
IsLists-ext {l} {xs} {ys} is e = rw (fun_ext e) at is

pub IsLists-solo-link :
    {l : Lists} (xs : List Ptr) (n : Ptr)
    → IsLists l (update (solo xs) null (n ∷ xs))
    → IsLists l (solo (n ∷ xs))
IsLists-solo-link xs n is = IsLists-ext is (λ o. ground arith)

pub IsLists-solo-erase :
    {l : Lists} (xs : List Ptr) (n : Ptr)
    → IsLists l (update (solo xs) null (erase n xs))
    → IsLists l (solo (erase n xs))
IsLists-solo-erase xs n is = IsLists-ext is (λ o. ground arith)

pub solo-fresh : (xs : List Ptr) (n : Ptr) → n ∉ xs → (o : Ptr) → n ∉ solo xs o
solo-fresh xs n h o = ground arith

pub ne-null : {l : Lists} {xs : Ptr → List Ptr} (o n : Ptr) → IsLists l xs → n ∈ xs o → n ≢ null
ne-null {l} {xs} o n is i =
    ground (arith, null-not-mem l.next l.prev null (l.head o) (xs o) (is.seg o))

pub nil_of_none : (xs : List ℕ) → ((a : ℕ) → a ∉ xs) → xs ≡ []
nil_of_none [] h = refl
nil_of_none (x ∷ xs) h = ground (arith, h x)

pub ne_of_mem : (a b : ℕ) (xs : List ℕ) → a ∈ xs → b ∉ xs → a ≢ b
ne_of_mem a b xs i o e = ground arith

pub mem_of_pos : (xs : List ℕ) → 0 < length xs → (a : ℕ) × (a ∈ xs)
mem_of_pos [] h = absurd (omega arith)
mem_of_pos (x ∷ xs) h = (x, ground arith)

module _ (f : Ptr → Ptr) (o : Ptr) where
  -- Nobody refers to the node.
  pub count-none : (us : List Ptr) → ((u : Ptr) → u ∈ us → f u ≢ o) → count (λ u. f u == o) us ≡ 0
  count-none [] h = refl
  count-none (x ∷ us) h = ground (arith, h x, count-none us (λ u i. h u (ground arith)))

  pub count-pos : (u : Ptr) (us : List Ptr) → u ∈ us → f u ≡ o → 0 < count (λ u. f u == o) us
  count-pos u [] i e = ground arith
  count-pos u (x ∷ us) i e = ground (arith, count-pos u us)

  -- A write for someone who is not counted, and for someone who is.
  pub count-update_out :
      (n x : Ptr) (us : List Ptr)
      → n ∉ us
      → count (λ u. update f n x u == o) us ≡ count (λ u. f u == o) us
  count-update_out n x [] h = refl
  count-update_out n x (y ∷ us) h = ground (arith, count-update_out n x us)

  pub count-update :
      (n x : Ptr) (us : List Ptr)
      → Distinct us
      → n ∈ us
      → count (λ u. update f n x u == o) us + (if f n == o then 1 else 0)
        ≡ count (λ u. f u == o) us + (if x == o then 1 else 0)
  count-update n x [] d h = ground arith
  count-update n x (y ∷ us) d h = ground (arith, count-update n x us d.1, count-update_out n x us)

pub head-mem_of :
    {l : Lists} {xs : Ptr → List Ptr} (o : Ptr) → IsLists l xs → l.head o ≢ null → l.head o ∈ xs o
head-mem_of {l} {xs} o is ne = head-mem l.next l.prev null (l.head o) (xs o) (is.seg o) ne

-- Who refers to different nodes is at least as many as the nodes.
hits-le_one :
    (x : ℕ) (gs : List ℕ) → Distinct gs → count (λ g. x == g) gs ≤ (if has x gs then 1 else 0)
hits-le_one x [] d = omega arith
hits-le_one x (g ∷ gs) d = ground (arith, hits-le_one x gs d.1)

module _ (f : Ptr → Ptr) where
  total : List Ptr → List Ptr → ℕ
  total us [] = 0
  total us (g ∷ gs) = count (λ u. f u == g) us + total us gs

  total-nil : (gs : List Ptr) → total [] gs ≡ 0
  unfolding total
  total-nil [] = refl
  total-nil (g ∷ gs) = omega (arith, total-nil gs)

  total-cons :
      (u : Ptr) (us gs : List Ptr) → total (u ∷ us) gs ≡ count (λ g. f u == g) gs + total us gs
  unfolding total
  total-cons u us [] = omega arith
  total-cons u us (g ∷ gs) = omega (arith, total-cons u us gs)

  total-le : (us gs : List Ptr) → Distinct gs → total us gs ≤ length us
  total-le [] gs d = omega (arith, total-nil gs)
  total-le (u ∷ us) gs d =
      ground (arith, total-cons u us gs, total-le us gs d, hits-le_one (f u) gs d)

  length-le-total :
      (us gs : List Ptr)
      → ((g : Ptr) → g ∈ gs → 0 < count (λ u. f u == g) us)
      → length gs ≤ total us gs
  unfolding total
  length-le-total us [] h = omega arith
  length-le-total us (g ∷ gs) h =
      omega (arith, h g (ground arith), length-le-total us gs (λ x i. h x (ground arith)))

  pub length-le_of_used :
      (us gs : List Ptr)
      → Distinct gs
      → ((g : Ptr) → g ∈ gs → 0 < count (λ u. f u == g) us)
      → length gs ≤ length us
  length-le_of_used us gs d h = omega (arith, length-le-total us gs h, total-le us gs d)

pub next-mem_of :
    {l : Lists} {xs : Ptr → List Ptr} (o n : Ptr)
    → IsLists l xs
    → n ∈ xs o
    → l.next n ≢ null
    → l.next n ∈ xs o
next-mem_of {l} {xs} o n is h ne = next-mem l.next l.prev null (l.head o) n (xs o) (is.seg o) h ne

pub pos_of_mem : (a : ℕ) (xs : List ℕ) → a ∈ xs → 0 < length xs
pos_of_mem a [] h = ground arith
pos_of_mem a (x ∷ xs) h = omega arith
