-- ===== src/Matching/Calls/Ids.antt =====
-- _findFreeMatchingID of pspnet_adhoc_matching/library/functions.c.
use aemu.Base.{
  ℕ, zero, suc, ◌+◌, ◌-◌, ◌≡◌, ◌≤◌, ◌<◌, refl, true, false, List, [], ◌∷◌, ◌==◌, ltb, if◌then◌else◌,
  arith, Bool-cases, inl, inr,
}
use aemu.Matching.{Context}
use aemu.Matching.Calls.{find_matching_context, is_free, max_id, free_loop, find_free_matching_id}

is_free-cons :
    (id : ℕ) (c : Context) (cs : List Context)
    → is_free id (c ∷ cs) ≡ (if c.id == id then false else is_free id cs)
unfolding find_matching_context
is_free-cons id c cs = elim (Bool-cases (c.id == id)) [ inl t ↦ rw t refl | inr f ↦ rw f refl ]

le-max_id : (m : ℕ) (cs : List Context) → m ≤ max_id m cs
unfolding max_id
le-max_id m [] = omega arith
le-max_id m (c ∷ cs) = ground (arith, le-max_id (if ltb m c.id then c.id else m) cs)

-- Above the maximum an id is free, and the maximum itself is in use unless it is the start.
is_free-above : (m id : ℕ) (cs : List Context) → max_id m cs < id → is_free id cs ≡ true
unfolding max_id find_matching_context
is_free-above m id [] h = refl
is_free-above m id (c ∷ cs) h =
    let n : ℕ = if ltb m c.id then c.id else m in
    let le : n ≤ max_id n cs = le-max_id n cs in
    let ne : (c.id == id) ≡ false = ground (arith, h, le) in rw ne (is_free-above n id cs h)

max_id-used : (m : ℕ) (cs : List Context) → m < max_id m cs → is_free (max_id m cs) cs ≡ false
unfolding max_id
max_id-used m [] h = absurd (omega (arith, h))
max_id-used m (c ∷ cs) h =
    let n : ℕ = if ltb m c.id then c.id else m in
    let le : n ≤ max_id n cs = le-max_id n cs in
    let cons = is_free-cons (max_id n cs) c cs in
    elim (Bool-cases (c.id == max_id n cs)) [
      | inl t ↦ ground (arith, cons, t)
      | inr f ↦
          let up : n < max_id n cs = ground (arith, f, le, h) in
          ground (arith, cons, f, max_id-used n cs up)
    ]

module _ (cs : List Context) where
  free_loop-least :
      (rounds i max : ℕ)
      → 1 ≤ i
      → i + rounds ≤ max + 1
      → max ≤ i + rounds
      → is_free (max + 1) cs ≡ true
      → (1 ≤ max → is_free max cs ≡ false)
      → (is_free (free_loop rounds i max cs) cs ≡ true)
        × (i ≤ free_loop rounds i max cs)
        × ((j : ℕ) → i ≤ j → j < free_loop rounds i max cs → is_free j cs ≡ false)
  unfolding free_loop
  free_loop-least zero i max one le ge free used = (
    free,
    omega arith,
    λ j lo hi.
        let e : j ≡ max = omega (arith, lo, hi) in rw e (used (omega (arith, one, ge, le, lo, hi))),
  )
  free_loop-least (suc rounds) i max one le ge free used = elim (Bool-cases (is_free i cs)) [
    | inl t ↦ rw t (t, omega arith, λ j lo hi. absurd (omega (arith, lo, hi)))
    | inr f ↦
        let rest =
          free_loop-least rounds (i + 1) max (omega arith) (omega arith) (omega arith) free used in
        rw f (
          rest.0,
          omega (arith, rest.1),
          λ j lo hi. elim (Bool-cases (j == i)) [
            | inl e ↦ let q : j ≡ i = ground (arith, e) in rw q f
            | inr ne ↦ rest.2 j (ground (arith, ne, lo)) hi
          ],
        )
  ]

  -- _findFreeMatchingID returns an id that no context has and that is at least 1, and every smaller
  -- id from 1 on is the id of a context.
  pub find_free_matching_id-least :
      (is_free (find_free_matching_id cs) cs ≡ true)
      × (1 ≤ find_free_matching_id cs)
      × ((j : ℕ) → 1 ≤ j → j < find_free_matching_id cs → is_free j cs ≡ false)
  unfolding find_free_matching_id
  find_free_matching_id-least =
      let max = max_id 0 cs in
      free_loop-least (max - 1) 1 max (omega arith) (omega arith) (omega arith)
        (is_free-above 0 (max + 1) cs (omega arith)) (λ h. max_id-used 0 cs (omega (arith, h)))
