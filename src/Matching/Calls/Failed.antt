-- ===== src/Matching/Calls/Failed.antt =====
-- Error codes: the calls of pspnet_adhoc_matching/library/calls that can be refused.
use mathlib.Core.Option.{some-injective}
use aemu.Base.{
  ℕ, ◌-◌, ◌≡◌, ◌≢◌, refl, sym, ap, Bool, true, false, not, ◌&&◌, ◌||◌, Option, none, some, List, [],
  ◌∷◌, ◌==◌, if◌then◌else◌, Bool-cases, inl, inr,
}
use aemu.Matching.{Mac, Member, Context, Room, peers}
use aemu.Matching.Members.{
  find_peer, find_parent, find_p2p, find_outgoing_request, is_none, count_children,
}
use aemu.Matching.Calls.{
  Library, Reply, Answer, answer, find_matching_context, put_context, on_context, with_context,
  matching_init, delete_found, matching_delete,
}
use aemu.Matching.Calls.Target.{
  Given, is_valid_opt, is_given, request_join, select_parent, select_child, select_p2p, select_peer,
  when_running, on_target, select_target, is_cancellable, cancel_peer, cancel_target, send_data_to,
  send_data, abort_to, abort_send_data,
}
use aemu.Matching.Calls.GetMembers.{get_members_in, get_members}
use aemu.Matching.Mode
use aemu.Matching.Peer

-- The calls of the game, with their arguments.
pub data Call : Type 0 where
  init : (poolsize : ℕ) → Call
  delete : (id : ℕ) → Call
  select cancel send : (id : ℕ) (target : Option Mac) (given : Given) → Call
  abort : (id : ℕ) (target : Option Mac) → Call
  members : (id : ℕ) (buflen : Option ℕ) (buf : Bool) → Call

unfoldable pub run_call : Call → Library → Reply
run_call (Call.init poolsize) l = matching_init poolsize l
run_call (Call.delete id) l = matching_delete id l
run_call (Call.select id target given) l = select_target id target given l
run_call (Call.cancel id target given) l = cancel_target id target given l
run_call (Call.send id target given) l = send_data id target given l
run_call (Call.abort id target) l = abort_send_data id target l
run_call (Call.members id buflen buf) l = get_members id buflen buf l

-- An answer with an error code leaves the room, a reply with one the library.
abbrev Kept : Answer → Room → Type 0
Kept a s = a.code ≢ 0 → a.room ≡ s

abbrev Same : Reply → Library → Type 0
Same r l = r.code ≢ 0 → r.library ≡ l

if-Kept : (a b : Answer) (s : Room) (q : Bool) → Kept a s → Kept b s → Kept (if q then a else b) s
if-Kept a b s true x y = x
if-Kept a b s false x y = y

if-Same : (a b : Reply) (l : Library) (q : Bool) → Same a l → Same b l → Same (if q then a else b) l
if-Same a b l true x y = x
if-Same a b l false x y = y

done : (r s : Room) → Kept (answer 0 r) s
done r s ne = absurd (ne refl)

module _ (p : Member) (given : Given) (s : Room) where
  select_peer-Kept : Kept (select_peer (some p) given s) s
  unfolding select_peer select_parent select_child select_p2p request_join
  select_peer-Kept =
      if-Kept _ _ s (not (is_valid_opt given)) (λ ne. refl)
        (if-Kept _ _ s (s.context.mode == Mode.parent)
          (if-Kept _ _ s (p.state == Peer.child) (λ ne. refl)
            (if-Kept _ _ s (count_children (peers s) == s.context.maxpeers - 1) (λ ne. refl)
              (if-Kept _ _ s (p.state == Peer.incoming_request) (done _ s) (λ ne. refl))))
          (if-Kept _ _ s (s.context.mode == Mode.child)
            (if-Kept _ _ s (not (is_none (find_parent (peers s)))) (λ ne. refl)
              (if-Kept _ _ s (not (is_none (find_outgoing_request (peers s)))) (λ ne. refl)
                (if-Kept _ _ s (p.state == Peer.offer) (done _ s) (λ ne. refl))))
            (if-Kept _ _ s (not (is_none (find_p2p (peers s)))) (λ ne. refl)
              (if-Kept _ _ s (not (is_none (find_outgoing_request (peers s)))) (λ ne. refl)
                (if-Kept _ _ s (p.state == Peer.offer) (done _ s)
                  (if-Kept _ _ s (p.state == Peer.incoming_request) (done _ s) (λ ne. refl)))))))

  cancel_peer-Kept : Kept (cancel_peer (some p) given s) s
  unfolding cancel_peer
  cancel_peer-Kept = if-Kept _ _ s (is_cancellable s.context.mode p.state) (done _ s) (λ ne. refl)

  send_data_to-Kept : Kept (send_data_to (some p) given s) s
  unfolding send_data_to
  send_data_to-Kept =
      if-Kept _ _ s (not (is_given given)) (λ ne. refl)
        (if-Kept _ _ s
          (not (p.state == Peer.parent || (p.state == Peer.child || p.state == Peer.p2p)))
          (λ ne. refl) (if-Kept _ _ s (not (p.sending == 0)) (λ ne. refl) (done _ s)))

select-Kept : (o : Option Member) (given : Given) (s : Room) → Kept (select_peer o given s) s
unfolding select_peer
select-Kept none given s = λ ne. refl
select-Kept (some p) given s = select_peer-Kept p given s

cancel-Kept : (o : Option Member) (given : Given) (s : Room) → Kept (cancel_peer o given s) s
unfolding cancel_peer
cancel-Kept none given s = λ ne. refl
cancel-Kept (some p) given s = cancel_peer-Kept p given s

send-Kept : (o : Option Member) (given : Given) (s : Room) → Kept (send_data_to o given s) s
unfolding send_data_to
send-Kept none given s = λ ne. refl
send-Kept (some p) given s = send_data_to-Kept p given s

abort-Kept : (o : Option Member) (s : Room) → Kept (abort_to o s) s
unfolding abort_to
abort-Kept none s ne = refl
abort-Kept (some p) s ne = absurd (ne refl)

members-Kept : (o : Option ℕ) (buf : Bool) (s : Room) → Kept (get_members_in o buf s) s
unfolding get_members_in
members-Kept none buf s = λ ne. refl
members-Kept (some n) buf s = done _ s

-- Writing the context that was found back.
put_context-same :
    (id : ℕ) (c : Context) (cs : List Context)
    → find_matching_context id cs ≡ some c
    → put_context id c cs ≡ cs
unfolding find_matching_context put_context
put_context-same id c [] e = refl
put_context-same id c (d ∷ cs) e = elim (Bool-cases (d.id == id)) [
  | inl t ↦
      let q : some d ≡ some c = rw t at e in rw t (ap (λ x. x ∷ cs) (sym (some-injective d c q)))
  | inr f ↦ rw f (ap (λ ds. d ∷ ds) (put_context-same id c cs (rw f at e)))
]

module _ (id : ℕ) (f : Room → Answer) (kept : (s : Room) → Kept (f s) s) (l : Library) where
  on_context-Same :
      (o : Option Context) → find_matching_context id l.contexts ≡ o → Same (on_context o id f l) l
  unfolding on_context
  on_context-Same none e ne = refl
  on_context-Same (some c) e ne =
      let s : Room = record { context = c; world = l.world } in
      let r : (f s).room ≡ s = kept s ne in rw (r, put_context-same id c l.contexts e) refl

  with_context-Same : Same (with_context id f l) l
  unfolding with_context
  with_context-Same =
      if-Same _ _ l (l.init == 1) (on_context-Same (find_matching_context id l.contexts) refl)
        (λ ne. refl)

on_target-Same :
    (id : ℕ) (o : Option Mac) (f : Mac → Room → Answer)
    → ((mac : Mac) (s : Room) → Kept (f mac s) s)
    → (l : Library) → Same (on_target id o f l) l
unfolding on_target when_running
on_target-Same id none f kept l = λ ne. refl
on_target-Same id (some target) f kept l =
    with_context-Same id (when_running (f target))
      (λ s. if-Kept _ _ s s.context.running (kept target s) (λ ne. refl)) l

delete_found-Same : (o : Option Context) (id : ℕ) (l : Library) → Same (delete_found o id l) l
unfolding delete_found
delete_found-Same none id l = λ ne. refl
delete_found-Same (some c) id l = if-Same _ _ l c.running (λ ne. refl) (λ ne. absurd (ne refl))

-- A call of the game to init, delete, select, cancel, send, abort or getmembers that returns
-- another code than 0 leaves the library, its contexts and the system as they were, whatever its
-- arguments are.
pub run_call-failed :
    (c : Call) (l : Library) → (run_call c l).code ≢ 0 → (run_call c l).library ≡ l
unfolding get_members when_running run_call matching_init matching_delete select_target
    cancel_target send_data abort_send_data
run_call-failed (Call.init poolsize) l =
    if-Same _ _ l (l.init == 0) (λ ne. absurd (ne refl)) (λ ne. refl)
run_call-failed (Call.delete id) l =
    if-Same _ _ l (l.init == 1) (delete_found-Same _ id l) (λ ne. refl)
run_call-failed (Call.select id target given) l =
    on_target-Same id target _ (λ mac s. select-Kept (find_peer mac (peers s)) given s) l
run_call-failed (Call.cancel id target given) l =
    if-Same _ _ l (l.init == 1 && not (is_valid_opt given)) (λ ne. refl)
      (on_target-Same id target _ (λ mac s. cancel-Kept (find_peer mac (peers s)) given s) l)
run_call-failed (Call.send id target given) l =
    on_target-Same id target _ (λ mac s. send-Kept (find_peer mac (peers s)) given s) l
run_call-failed (Call.abort id target) l =
    on_target-Same id target _ (λ mac s. abort-Kept (find_peer mac (peers s)) s) l
run_call-failed (Call.members id buflen buf) l =
    with_context-Same id (when_running (get_members_in buflen buf))
      (λ s. if-Kept _ _ s s.context.running (members-Kept buflen buf s) (λ ne. refl)) l
