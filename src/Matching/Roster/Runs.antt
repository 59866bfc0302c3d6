-- ===== src/Matching/Roster/Runs.antt =====
-- Runs of the library: the calls of pspnet_adhoc_matching/library/calls and the threads of every
-- context.
use aemu.Matching.Roster.Everywhere.{
  AllRoster, Rosters, AllRoster-elsewhere, AllRoster-find, AllRoster-remove, put-Rosters,
  if-Rosters, with_context-Rosters, when_running-IsRoster, on_target-Rosters,
}
use aemu.Base.{
  ℕ, zero, suc, ◌<◌, ◌≡◌, Bool, true, false, not, ◌&&◌, Option, none, some, List, [], ◌∷◌, ◌==◌,
  ltb, leb, if◌then◌else◌, length, arith,
}
use aemu.Chain.{null}
use aemu.Matching.{Mac, Context, World, Room}
use aemu.Matching.Packet.{is_positive}
use aemu.Matching.Calls.{
  Library, Settings, find_matching_context, put_context, matching_init, has_port, create_context,
  matching_create, delete_found, matching_delete, library_allocated, library_address,
}
use aemu.Matching.Calls.Target.{
  Given, is_valid_opt, select_target, cancel_target, send_data, abort_send_data,
}
use aemu.Matching.Calls.Hello.{set_hello_opt}
use aemu.Matching.Calls.Run.{
  stop_in, matching_start, matching_stop, end_first, term_loop, matching_term,
}
use aemu.Matching.Calls.GetMembers.{get_members}
use aemu.Matching.Calls.Failed.{Call, run_call}
use aemu.Matching.Roster.Kept.{Shrinks-IsRoster}
use aemu.Matching.Roster.Switched.{
  start_in-Shrinks, stop_in-Shrinks, set_hello_in-Shrinks, get_members_in-Shrinks,
}
use aemu.Matching.Roster.Called.{
  select_peer-IsRoster, cancel_peer-IsRoster, send_data_to-IsRoster, abort_to-IsRoster,
}
use aemu.Matching.Roster.Steps.{Step, step-IsRoster, new_room-IsRoster}

-- A call of the game, or a step of a context's threads.
pub data LibraryStep : Library → Library → Type 0 where
  call : (c : Call) (l : Library) → LibraryStep l (run_call c l).library
  create :
      (a : Settings) (socket : ℕ) (l : Library) → LibraryStep l (matching_create a socket l).library
  start :
      (id : ℕ) (g : Given) (setup : Bool) (l : Library)
      → LibraryStep l (matching_start id g setup l).library
  stop : (id : ℕ) (l : Library) → LibraryStep l (matching_stop id l).library
  term : (l : Library) → LibraryStep l (matching_term l).library
  set_hello : (id : ℕ) (g : Given) (l : Library) → LibraryStep l (set_hello_opt id g l).library
  elsewhere : (w : World) (l : Library) → LibraryStep l (record l { world = w })
  thread :
      (id : ℕ) (l : Library) (c : Context) (r : Room)
      → find_matching_context id l.contexts ≡ some c
      → Step (record { context = c; world = l.world }) r
      → LibraryStep l (record l { contexts = put_context id r.context l.contexts; world = r.world })

-- Any number of them.
pub data LibraryReaches (a : Library) : Library → Type 0 where
  begin : LibraryReaches a a
  after : {b c : Library} → LibraryReaches a b → LibraryStep b c → LibraryReaches a c

stop-Rosters : (id : ℕ) (l : Library) → Rosters l → Rosters (matching_stop id l).library
unfolding matching_stop
stop-Rosters id l all =
    with_context-Rosters id stop_in (λ s. Shrinks-IsRoster (stop_in-Shrinks s)) l all

module _ (id : ℕ) (l : Library) (all : Rosters l) where
  delete_found-Rosters : (o : Option Context) → Rosters (delete_found o id l).library
  unfolding delete_found
  delete_found-Rosters none = all
  delete_found-Rosters (some c) =
      if-Rosters _ _ c.running all
        λ e. AllRoster-elsewhere l.world _ _ (AllRoster-remove l.world id l.contexts all)

  delete-Rosters : Rosters (matching_delete id l).library
  unfolding matching_delete
  delete-Rosters =
      if-Rosters _ _ (l.init == 1) (delete_found-Rosters (find_matching_context id l.contexts))
        λ e. all

end_first-Rosters : (cs : List Context) (l : Library) → Rosters l → Rosters (end_first cs l)
unfolding end_first
end_first-Rosters [] l all = all
end_first-Rosters (c ∷ cs) l all = delete-Rosters c.id _ (stop-Rosters c.id l all)

term_loop-Rosters : (n : ℕ) (l : Library) → Rosters l → Rosters (term_loop n l)
unfolding term_loop
term_loop-Rosters zero l all = all
term_loop-Rosters (suc n) l all = term_loop-Rosters n _ (end_first-Rosters l.contexts l all)

if-library : (a b : Library) (q : Bool) → Rosters a → Rosters b → Rosters (if q then a else b)
if-library a b true x y = x
if-library a b false x y = y

term-Rosters : (l : Library) → Rosters l → Rosters (matching_term l).library
unfolding matching_term
term-Rosters l all = if-library _ _ (l.init == 1) (term_loop-Rosters (length l.contexts) l all) all

module _ (a : Settings) (socket : ℕ) (l : Library) (all : Rosters l) where
  moved : (w : World) → AllRoster w l.contexts
  moved w = AllRoster-elsewhere l.world w l.contexts all

  create_context-Rosters : 1 < a.maxnum → Rosters (create_context a socket l).library
  unfolding create_context
  create_context-Rosters h = if-Rosters _ _ (library_address l == null) (moved _) λ e.
      if-Rosters _ _ (not (ltb 0 socket && is_positive socket)) (moved _) λ f.
        if-Rosters _ _ (library_address (library_allocated l) == null) (moved _)
          λ g. (new_room-IsRoster a _ socket _ _ h, moved _)

  create-Rosters : Rosters (matching_create a socket l).library
  unfolding matching_create
  create-Rosters = if-Rosters _ _ (not (l.init == 1)) all λ e.
      if-Rosters _ _ (not (ltb 1 a.maxnum && leb a.maxnum 16)) all λ f.
        if-Rosters _ _ (not (ltb 0 a.rxbuflen && is_positive a.rxbuflen)) all λ g.
          if-Rosters _ _ (not (leb 1 a.mode && leb a.mode 3)) all λ h.
            if-Rosters _ _ (has_port a.port l.contexts) all
              λ i. create_context-Rosters (ground (arith, f))

init-Rosters : (n : ℕ) (l : Library) → Rosters l → Rosters (matching_init n l).library
unfolding matching_init
init-Rosters n l all = if-Rosters _ _ (l.init == 0) all λ e. all

cancel-Rosters :
    (id : ℕ) (o : Option Mac) (g : Given) (l : Library)
    → Rosters l
    → Rosters (cancel_target id o g l).library
unfolding cancel_target
cancel-Rosters id o g l all =
    if-Rosters _ _ (l.init == 1 && not (is_valid_opt g)) all
      λ e. on_target-Rosters id o _ (λ m s. cancel_peer-IsRoster _ g s) l all

call-Rosters : (c : Call) (l : Library) → Rosters l → Rosters (run_call c l).library
unfolding run_call select_target send_data abort_send_data get_members
call-Rosters (Call.init n) l all = init-Rosters n l all
call-Rosters (Call.delete id) l all = delete-Rosters id l all
call-Rosters (Call.select id o g) l all =
    on_target-Rosters id o _ (λ m s. select_peer-IsRoster _ g s) l all
call-Rosters (Call.cancel id o g) l all = cancel-Rosters id o g l all
call-Rosters (Call.send id o g) l all =
    on_target-Rosters id o _ (λ m s. send_data_to-IsRoster _ g s) l all
call-Rosters (Call.abort id o) l all = on_target-Rosters id o _ (λ m s. abort_to-IsRoster _ s) l all
call-Rosters (Call.members id n b) l all =
    with_context-Rosters id _
      (when_running-IsRoster _ λ s. Shrinks-IsRoster (get_members_in-Shrinks n b s)) l all

step-Rosters : {k l : Library} → LibraryStep k l → Rosters k → Rosters l
unfolding matching_start set_hello_opt
step-Rosters (LibraryStep.call c l) all = call-Rosters c l all
step-Rosters (LibraryStep.create a socket l) all = create-Rosters a socket l all
step-Rosters (LibraryStep.start id g setup l) all =
    with_context-Rosters id _ (λ s. Shrinks-IsRoster (start_in-Shrinks g setup s)) l all
step-Rosters (LibraryStep.stop id l) all = stop-Rosters id l all
step-Rosters (LibraryStep.term l) all = term-Rosters l all
step-Rosters (LibraryStep.set_hello id g l) all =
    with_context-Rosters id _ (λ s. Shrinks-IsRoster (set_hello_in-Shrinks g s)) l all
step-Rosters (LibraryStep.elsewhere w l) all = AllRoster-elsewhere l.world w l.contexts all
step-Rosters (LibraryStep.thread id l c r e s) all =
    put-Rosters id l r (step-IsRoster s (AllRoster-find l.world id c l.contexts e all)) all

-- Whatever a library that starts without a context goes through (every call of the game, with any
-- arguments and any outcome of malloc and of the sockets, any steps of the threads of any of its
-- contexts, and any change of the system in between), the peer list of every context is a roster:
-- every peer is in a state of the context's mode, there is at most one parent, at most one partner
-- and at most one open request, and in parent mode the children and the parent are no more than
-- maxpeers.
pub LibraryReaches-AllRoster :
    (k : Library) {l : Library}
    → k.contexts ≡ []
    → LibraryReaches k l
    → AllRoster l.world l.contexts
LibraryReaches-AllRoster k e LibraryReaches.begin = rw e tt
LibraryReaches-AllRoster k e (LibraryReaches.after r s) =
    step-Rosters s (LibraryReaches-AllRoster k e r)
