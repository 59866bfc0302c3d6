-- ===== src/Base/Lists.antt =====
-- Lists measured by native numbers, and lists of distinct addresses.
use Prim.Native.Nat.{ℕ, zero, suc, ◌+◌, ◌-◌, ◌≤◌, min}
use mathlib.Core.Path.{◌≡◌, refl, ap}
use mathlib.Core.Bool.{Bool, true, false, ◌||◌}
use mathlib.Core.List.{List, [], ◌∷◌, ◌++◌}
use native.Mathlib.Omega.{arith}
use aemu.Base.Tests.{◌==◌, if◌then◌else◌}

module _ {ℓ} {A : Type ℓ} where
  abbrev pub length : List A → ℕ
  length [] = 0
  length (x ∷ xs) = suc (length xs)

  abbrev pub get_or : List A → ℕ → A → A
  get_or [] i d = d
  get_or (x ∷ xs) zero d = x
  get_or (x ∷ xs) (suc i) d = get_or xs i d

  abbrev pub take : ℕ → List A → List A
  take zero xs = []
  take (suc n) [] = []
  take (suc n) (x ∷ xs) = x ∷ take n xs

  abbrev pub drop : ℕ → List A → List A
  drop zero xs = xs
  drop (suc n) [] = []
  drop (suc n) (x ∷ xs) = drop n xs

  abbrev pub replicate : ℕ → A → List A
  replicate zero a = []
  replicate (suc n) a = a ∷ replicate n a

module _ {ℓ} {A : Type ℓ} where
  pub length-append : (xs ys : List A) → length (xs ++ ys) ≡ length xs + length ys
  length-append [] ys = omega arith
  length-append (x ∷ xs) ys = omega (arith, length-append xs ys)

  pub length-take : (n : ℕ) (xs : List A) → length (take n xs) ≡ min n (length xs)
  length-take zero xs = omega arith
  length-take (suc n) [] = omega arith
  length-take (suc n) (x ∷ xs) = omega (arith, length-take n xs)

  pub length-drop : (n : ℕ) (xs : List A) → length (drop n xs) ≡ length xs - n
  length-drop zero xs = omega arith
  length-drop (suc n) [] = omega arith
  length-drop (suc n) (x ∷ xs) = omega (arith, length-drop n xs)

  pub length-replicate : (n : ℕ) (a : A) → length (replicate n a) ≡ n
  length-replicate zero a = refl
  length-replicate (suc n) a = ap suc (length-replicate n a)

  -- How many elements pass a test.
  abbrev pub count : (A → Bool) → List A → ℕ
  count p [] = 0
  count p (x ∷ xs) = (if p x then 1 else 0) + count p xs

  pub count-le-length : (p : A → Bool) (xs : List A) → count p xs ≤ length xs
  count-le-length p [] = omega arith
  count-le-length p (x ∷ xs) = ground (arith, count-le-length p xs)

module _ {ℓ} {A : Type ℓ} where
  pub count-append : (p : A → Bool) (xs ys : List A) → count p (xs ++ ys) ≡ count p xs + count p ys
  count-append p [] ys = omega arith
  count-append p (x ∷ xs) ys = omega (arith, count-append p xs ys)

-- Parts of a list.
module _ {ℓ} {A : Type ℓ} where
  pub take_all : (xs : List A) → take (length xs) xs ≡ xs
  take_all [] = refl
  take_all (x ∷ xs) = ap (◌∷◌ x) (take_all xs)

  pub take-append : (xs ys : List A) (n : ℕ) → n ≡ length xs → take n (xs ++ ys) ≡ xs
  take-append [] ys n e = rw e
  take-append (x ∷ xs) ys n e = rw e (ap (◌∷◌ x) (take-append xs ys (length xs) refl))

  pub drop-append : (xs ys : List A) (n m : ℕ) → n ≡ length xs + m → drop n (xs ++ ys) ≡ drop m ys
  drop-append [] ys n m e = let q : n ≡ m = omega arith in rw q
  drop-append (x ∷ xs) ys n m e =
      let q : n ≡ suc (length xs + m) = omega arith in
      rw q (drop-append xs ys (length xs + m) m refl)

  pub drop-replicate : (m n : ℕ) (a : A) → drop m (replicate n a) ≡ replicate (n - m) a
  drop-replicate zero n a = let q : n - 0 ≡ n = omega arith in rw q
  drop-replicate (suc m) zero a = let q : 0 - suc m ≡ 0 = omega arith in rw q
  drop-replicate (suc m) (suc n) a =
      let q : suc n - suc m ≡ n - m = omega arith in rw q (drop-replicate m n a)

  pub get_or-append : (xs ys : List A) (a d : A) → get_or (xs ++ (a ∷ ys)) (length xs) d ≡ a
  get_or-append [] ys a d = refl
  get_or-append (x ∷ xs) ys a d = get_or-append xs ys a d

abbrev pub has : ℕ → List ℕ → Bool
has a [] = false
has a (x ∷ xs) = (a == x) || has a xs

abbrev pub erase : ℕ → List ℕ → List ℕ
erase a [] = []
erase a (x ∷ xs) = if x == a then xs else x ∷ erase a xs

infix 40 ◌∈◌ ◌∉◌
abbrev pub ◌∈◌ : ℕ → List ℕ → Type 0
a ∈ xs = has a xs ≡ true

abbrev pub ◌∉◌ : ℕ → List ℕ → Type 0
a ∉ xs = has a xs ≡ false

abbrev pub Distinct : List ℕ → Type 0
Distinct [] = Unit
Distinct (x ∷ xs) = (x ∉ xs) × Distinct xs

-- What stays after an element is taken out of distinct ones.
pub has-erase :
    (a n : ℕ) (xs : List ℕ)
    → Distinct xs
    → has a (erase n xs) ≡ (if a == n then false else has a xs)
has-erase a n [] d = ground arith
has-erase a n (x ∷ xs) d = ground (arith, has-erase a n xs d.1)

pub erase-Distinct : (n : ℕ) (xs : List ℕ) → Distinct xs → Distinct (erase n xs)
erase-Distinct n [] d = d
erase-Distinct n (x ∷ xs) d = ground (arith, erase-Distinct n xs d.1, has-erase x n xs d.1)

pub length-erase : (n : ℕ) (xs : List ℕ) → n ∈ xs → length (erase n xs) + 1 ≡ length xs
length-erase n [] h = ground arith
length-erase n (x ∷ xs) h = ground (arith, length-erase n xs)

pub count-erase :
    (p : ℕ → Bool) (n : ℕ) (xs : List ℕ)
    → n ∈ xs
    → count p (erase n xs) + (if p n then 1 else 0) ≡ count p xs
count-erase p n [] h = ground arith
count-erase p n (x ∷ xs) h = ground (arith, count-erase p n xs)

-- Tests that agree on the elements count the same.
pub count-same :
    (p q : ℕ → Bool) (us : List ℕ) → ((u : ℕ) → u ∈ us → p u ≡ q u) → count p us ≡ count q us
count-same p q [] h = refl
count-same p q (u ∷ us) h =
    let here : p u ≡ q u = h u (ground arith) in
    rw (here, count-same p q us (λ w m. h w (ground arith)))
