-- ===== src/Matching/Calls/Ended.antt =====
-- proNetAdhocMatchingTerm, proNetAdhocMatchingStop and proNetAdhocMatchingDelete of
-- pspnet_adhoc_matching/library/calls.
use aemu.Base.{
  ℕ, zero, suc, ◌≡◌, refl, sym, ap, subst, ◌∙◌, Bool, true, false, none, some, List, [], ◌∷◌, ◌==◌,
  length, if◌then◌else◌, arith,
}
use aemu.Matching.{Context, Room, tick}
use aemu.Matching.Calls.{
  Library, find_matching_context, put_context, remove_context, with_context, on_context,
  delete_found, matching_delete,
}
use aemu.Matching.Calls.Run.{
  set_running, stop_in, matching_stop, end_first, term_loop, matching_term,
}
use aemu.Matching.Calls.Hello.{set_hello}
use aemu.Matching.Threads.{end_event_thread}
use aemu.Matching.Threads.Input.{end_input_thread}
use aemu.Matching.Roster.Lists.{Shrinks-trans, tick-Shrinks}
use aemu.Matching.Roster.Rounds.{end_event_thread-Shrinks, end_input_thread-Shrinks}

-- A stopped context keeps its id and does not run.
stopped :
    (q : Bool) (s ended : Room)
    → s.context.running ≡ q
    → ended.context.id ≡ s.context.id
    → let r = if q then set_running false (set_hello 0 none ended) else s in
      (r.context.id ≡ s.context.id) × (r.context.running ≡ false)
stopped true s ended e i = (i, refl)
stopped false s ended e i = (refl, e)

stop_in-stopped :
    (s : Room)
    → ((stop_in s).room.context.id ≡ s.context.id) × ((stop_in s).room.context.running ≡ false)
unfolding stop_in
stop_in-stopped s =
    let ended = Shrinks-trans (tick-Shrinks s) (
      Shrinks-trans (end_input_thread-Shrinks (tick s))
        (end_event_thread-Shrinks (end_input_thread (tick s)))) in
    stopped s.context.running s (end_event_thread (end_input_thread (tick s))) refl ended.id

-- The library with these contexts, initialized.
abbrev holding : List Context → Library → Library
holding cs l = record l { init = 1; contexts = cs }

-- The context in front.
module _ (id : ℕ) (c : Context) (cs : List Context) (e : (c.id == id) ≡ true) where
  find-first : find_matching_context id (c ∷ cs) ≡ some c
  unfolding find_matching_context
  find-first = rw e refl

  put-first : (new : Context) → put_context id new (c ∷ cs) ≡ new ∷ cs
  unfolding put_context
  put-first new = rw e refl

  remove-first : remove_context id (c ∷ cs) ≡ cs
  unfolding remove_context
  remove-first = rw e refl

matching_stop-first :
    (l : Library) (c : Context) (cs : List Context)
    → let s = stop_in (record { context = c; world = l.world }) in
      (matching_stop c.id (holding (c ∷ cs) l)).library
      ≡ holding (s.room.context ∷ cs) (record l { world = s.room.world })
unfolding matching_stop with_context on_context
matching_stop-first l c cs =
    let e : (c.id == c.id) ≡ true = ground arith in
    rw (find-first c.id c cs e, put-first c.id c cs e) refl

matching_delete-first :
    (l : Library) (id : ℕ) (c : Context) (cs : List Context)
    → (c.id == id) ≡ true
    → c.running ≡ false
    → ((matching_delete id (holding (c ∷ cs) l)).library.contexts ≡ cs)
      × ((matching_delete id (holding (c ∷ cs) l)).library.init ≡ 1)
unfolding matching_delete delete_found
matching_delete-first l id c cs e r =
    rw (find-first id c cs e, remove-first id c cs e, r) (refl, refl)

-- The first context, stopped and deleted.
delete-stop :
    (l : Library) (c : Context) (cs : List Context)
    → l.init ≡ 1
    → l.contexts ≡ c ∷ cs
    → let l' = (matching_delete c.id (matching_stop c.id l).library).library in
      (l'.contexts ≡ cs) × (l'.init ≡ 1)
delete-stop l c cs i e =
    let same : holding (c ∷ cs) l ≡ l = rw⁻¹ (e, i) refl in
    let s = stop_in (record { context = c; world = l.world }) in
    let off = stop_in-stopped (record { context = c; world = l.world }) in
    subst
      (λ m.
        ((matching_delete c.id (matching_stop c.id m).library).library.contexts ≡ cs)
        × ((matching_delete c.id (matching_stop c.id m).library).library.init ≡ 1))
      same
      (rw (matching_stop-first l c cs) (
        matching_delete-first (record l { world = s.room.world }) c.id s.room.context cs
          (ground (arith, off.0)) off.1))

length-zero : (cs : List Context) → length cs ≡ 0 → cs ≡ []
length-zero [] q = refl
length-zero (c ∷ cs) q = absurd (omega (arith, q))

-- One round, the rounds after it given.
term_loop-at :
    (n : ℕ) (l : Library)
    → l.init ≡ 1
    → length l.contexts ≡ suc n
    → (cs : List Context) → l.contexts ≡ cs
    → ((r : Library) → r.init ≡ 1 → length r.contexts ≡ n → (term_loop n r).contexts ≡ [])
    → (term_loop (suc n) l).contexts ≡ []
unfolding term_loop end_first
term_loop-at n l i e [] q rest =
    absurd (let h : length l.contexts ≡ 0 = ap length q in omega (arith, e, h))
term_loop-at n l i e (c ∷ cs) q rest =
    let step = delete-stop l c cs i q in
    let h : length l.contexts ≡ length (c ∷ cs) = ap length q in
    let left : length cs ≡ n = omega (arith, e, h) in
    subst (λ ds. (term_loop n (end_first ds l)).contexts ≡ []) (sym q)
      (rest _ step.1 (ap length step.0 ∙ left))

term_loop-empty :
    (n : ℕ) (l : Library) → l.init ≡ 1 → length l.contexts ≡ n → (term_loop n l).contexts ≡ []
unfolding term_loop
term_loop-empty zero l i e = length-zero l.contexts e
term_loop-empty (suc n) l i e = term_loop-at n l i e l.contexts refl (λ r. term_loop-empty n r)

-- proNetAdhocMatchingTerm of an initialized library ends with no context, an uninitialized library
-- and a pool size of 0: its loop stops and deletes every context in as many rounds as there are
-- contexts.
pub matching_term-empty :
    (l : Library)
    → l.init ≡ 1
    → ((matching_term l).library.contexts ≡ [])
      × ((matching_term l).library.init ≡ 0)
      × ((matching_term l).library.poolsize ≡ 0)
unfolding matching_term
matching_term-empty l i =
    let on : (l.init == 1) ≡ true = rw i refl in
    rw on (term_loop-empty (length l.contexts) l i refl, refl, refl)
