-- ===== src/Matching/Roster/Everywhere.antt =====
-- Rosters in every context of the library: pspnet_adhoc_matching/library/calls and the search of
-- contexts of pspnet_adhoc_matching/library/functions.c.
use aemu.Base.{
  ℕ, ◌≡◌, refl, subst, Bool, true, false, Option, none, some, List, [], ◌∷◌, ◌==◌, if◌then◌else◌,
  arith, Bool-cases, inl, inr,
}
use mathlib.Core.Option.{some-injective}
use aemu.Matching.{Mac, Context, World, Room}
use aemu.Matching.Calls.{
  Library, Reply, Answer, find_matching_context, put_context, remove_context, on_context,
  with_context,
}
use aemu.Matching.Calls.Target.{when_running, on_target}
use aemu.Matching.Roster.{IsRoster}
use aemu.Matching.Roster.Lists.{world-Shrinks}
use aemu.Matching.Roster.Kept.{Shrinks-IsRoster}

-- Every context has a roster.
abbrev pub AllRoster : World → List Context → Type 0
AllRoster w [] = Unit
AllRoster w (c ∷ cs) = IsRoster (record { context = c; world = w }) × AllRoster w cs

abbrev pub Rosters : Library → Type 0
Rosters l = AllRoster l.world l.contexts

pub AllRoster-elsewhere : (v w : World) (cs : List Context) → AllRoster v cs → AllRoster w cs
AllRoster-elsewhere v w [] all = tt
AllRoster-elsewhere v w (c ∷ cs) all = (
  Shrinks-IsRoster (world-Shrinks (record { context = c; world = v }) w) all.0,
  AllRoster-elsewhere v w cs all.1,
)

pub AllRoster-find :
    (w : World) (id : ℕ) (c : Context) (cs : List Context)
    → find_matching_context id cs ≡ some c
    → AllRoster w cs
    → IsRoster (record { context = c; world = w })
unfolding find_matching_context
AllRoster-find w id c [] e all = absurd (ground (arith, e))
AllRoster-find w id c (d ∷ cs) e all = elim (Bool-cases (d.id == id)) [
  | inl t ↦
      let q : some d ≡ some c = rw t at e in
      subst (λ x. IsRoster (record { context = x; world = w })) (some-injective d c q) all.0
  | inr f ↦ AllRoster-find w id c cs (rw f at e) all.1
]

AllRoster-put :
    (w : World) (id : ℕ) (c : Context) (cs : List Context)
    → IsRoster (record { context = c; world = w })
    → AllRoster w cs
    → AllRoster w (put_context id c cs)
unfolding put_context
AllRoster-put w id c [] is all = tt
AllRoster-put w id c (d ∷ cs) is all = elim (Bool-cases (d.id == id)) [
  | inl t ↦ rw t (is, all.1)
  | inr f ↦ rw f (all.0, AllRoster-put w id c cs is all.1)
]

pub AllRoster-remove :
    (w : World) (id : ℕ) (cs : List Context) → AllRoster w cs → AllRoster w (remove_context id cs)
unfolding remove_context
AllRoster-remove w id [] all = tt
AllRoster-remove w id (d ∷ cs) all = elim (Bool-cases (d.id == id)) [
  | inl t ↦ rw t all.1
  | inr f ↦ rw f (all.0, AllRoster-remove w id cs all.1)
]

-- A context put back after a step.
pub put-Rosters :
    (id : ℕ) (l : Library) (r : Room)
    → IsRoster r
    → Rosters l
    → AllRoster r.world (put_context id r.context l.contexts)
put-Rosters id l r is all =
    AllRoster-put r.world id r.context l.contexts is
      (AllRoster-elsewhere l.world r.world l.contexts all)

pub if-Rosters :
    (a b : Reply) (q : Bool)
    → Rosters a.library
    → (q ≡ false → Rosters b.library)
    → Rosters (if q then a else b).library
if-Rosters a b true x y = x
if-Rosters a b false x y = y refl

if-Answer :
    (a b : Answer) (q : Bool)
    → IsRoster a.room
    → IsRoster b.room
    → IsRoster (if q then a else b).room
if-Answer a b true x y = x
if-Answer a b false x y = y

module _ (id : ℕ) (f : Room → Answer) (keeps : (s : Room) → IsRoster s → IsRoster (f s).room)
    (l : Library) (all : Rosters l) where
  on_context-Rosters :
      (o : Option Context)
      → find_matching_context id l.contexts ≡ o
      → Rosters (on_context o id f l).library
  unfolding on_context
  on_context-Rosters none e = all
  on_context-Rosters (some c) e =
      let s : Room = record { context = c; world = l.world } in
      put-Rosters id l (f s).room (keeps s (AllRoster-find l.world id c l.contexts e all)) all

  pub with_context-Rosters : Rosters (with_context id f l).library
  unfolding with_context
  with_context-Rosters =
      if-Rosters _ _ (l.init == 1) (on_context-Rosters (find_matching_context id l.contexts) refl)
        λ e. all

pub when_running-IsRoster :
    (f : Room → Answer)
    → ((s : Room) → IsRoster s → IsRoster (f s).room)
    → (s : Room) → IsRoster s
    → IsRoster (when_running f s).room
unfolding when_running
when_running-IsRoster f keeps s is = if-Answer _ _ s.context.running (keeps s is) is

pub on_target-Rosters :
    (id : ℕ) (o : Option Mac) (f : Mac → Room → Answer)
    → ((m : Mac) (s : Room) → IsRoster s → IsRoster (f m s).room)
    → (l : Library) → Rosters l
    → Rosters (on_target id o f l).library
unfolding on_target
on_target-Rosters id none f keeps l all = all
on_target-Rosters id (some m) f keeps l all =
    with_context-Rosters id (when_running (f m)) (when_running-IsRoster (f m) (keeps m)) l all
