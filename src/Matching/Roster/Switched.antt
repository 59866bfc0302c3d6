-- ===== src/Matching/Roster/Switched.antt =====
-- Starting, stopping, the hello data and the list of the members, on rosters:
-- pspnet_adhoc_matching/library/calls/{start,stop,sethello,getmembers}.c.
use aemu.Base.{
  ℕ, refl, Bool, true, false, not, ◌&&◌, Option, none, some, List, [], ◌∷◌, ◌==◌, ltb,
  if◌then◌else◌, length,
}
use aemu.Bytes.{Bytes}
use aemu.Chain.{null}
use aemu.Matching.{Member, Room, peers, address, allocated, tick}
use aemu.Matching.Members.{find_parent, find_p2p}
use aemu.Matching.Threads.Input.{end_input_thread}
use aemu.Matching.Calls.{Answer}
use aemu.Matching.Calls.Target.{Given, is_valid_opt}
use aemu.Matching.Calls.Hello.{set_hello, store_hello, set_hello_in}
use aemu.Matching.Calls.Run.{set_running, start_context, start_in, stop_in}
use aemu.Matching.Calls.GetMembers.{
  Filling, filling, bump_lastping, bump_loop, fill_first, unreversed_loop, fill_others, own_macs,
  fill_members, requested_peers, get_members_in,
}
use aemu.Matching.Mode
use aemu.Matching.Roster.{Shrinks}
use aemu.Matching.Roster.Lists.{
  Shrinks-refl, Shrinks-trans, tick-Shrinks, allocated-Shrinks, if-Shrinks, touch-Shrinks,
}
use aemu.Matching.Roster.Rounds.{end_event_thread-Shrinks, end_input_thread-Shrinks}

if-answer-Shrinks :
    (s : Room) (a b : Answer) (q : Bool)
    → Shrinks s a.room
    → Shrinks s b.room
    → Shrinks s (if q then a else b).room
if-answer-Shrinks s a b true x y = x
if-answer-Shrinks s a b false x y = y

if-filling-Shrinks :
    (s : Room) (a b : Filling) (q : Bool)
    → Shrinks s a.room
    → Shrinks s b.room
    → Shrinks s (if q then a else b).room
if-filling-Shrinks s a b true x y = x
if-filling-Shrinks s a b false x y = y

set_hello-Shrinks :
    {s r : Room} (len : ℕ) (hello : Option Bytes) → Shrinks s r → Shrinks s (set_hello len hello r)
set_hello-Shrinks len hello x = record {
  id = x.id;
  mode = x.mode;
  maxpeers = x.maxpeers;
  counts = x.counts;
}

set_running-Shrinks : {s r : Room} (b : Bool) → Shrinks s r → Shrinks s (set_running b r)
set_running-Shrinks b x = record {
  id = x.id;
  mode = x.mode;
  maxpeers = x.maxpeers;
  counts = x.counts;
}

store_hello-Shrinks : (g : Given) (s : Room) → Shrinks s (store_hello g s).room
unfolding store_hello
store_hello-Shrinks g s =
    let emptied = set_hello-Shrinks 0 none (Shrinks-refl s) in
    let later = Shrinks-trans emptied (allocated-Shrinks (set_hello 0 none s)) in
    if-answer-Shrinks s _ _ (g.len == 0) emptied
      (if-answer-Shrinks s _ _ (address s == null) later (set_hello-Shrinks g.len _ later))

pub set_hello_in-Shrinks : (g : Given) (s : Room) → Shrinks s (set_hello_in g s).room
unfolding set_hello_in
set_hello_in-Shrinks g s = if-answer-Shrinks s _ _ (s.context.mode == Mode.child) (Shrinks-refl s) (
    if-answer-Shrinks s _ _ (not s.context.running) (Shrinks-refl s)
      (if-answer-Shrinks s _ _ (not (is_valid_opt g)) (Shrinks-refl s) (store_hello-Shrinks g s)))

start_context-Shrinks :
    (g : Given) (setup : Bool) (s : Room) → Shrinks s (start_context g setup s).room
unfolding start_context
start_context-Shrinks g setup s =
    let begun =
      if-Shrinks (g.len == 0) (set_hello-Shrinks 0 none (Shrinks-refl s))
        (set_hello-Shrinks g.len _ (allocated-Shrinks s)) in
    if-answer-Shrinks s _ _ (not (g.len == 0) && address s == null) (allocated-Shrinks s) (
      if-answer-Shrinks s _ _ setup (set_running-Shrinks true begun)
        (set_hello-Shrinks 0 none begun))

pub start_in-Shrinks : (g : Given) (setup : Bool) (s : Room) → Shrinks s (start_in g setup s).room
unfolding start_in
start_in-Shrinks g setup s = if-answer-Shrinks s _ _ s.context.running (Shrinks-refl s) (
    if-answer-Shrinks s _ _ (not (is_valid_opt g)) (Shrinks-refl s)
      (start_context-Shrinks g setup s))

pub stop_in-Shrinks : (s : Room) → Shrinks s (stop_in s).room
unfolding stop_in
stop_in-Shrinks s =
    let ended = Shrinks-trans (tick-Shrinks s) (
      Shrinks-trans (end_input_thread-Shrinks (tick s))
        (end_event_thread-Shrinks (end_input_thread (tick s)))) in
    if-Shrinks s.context.running (set_running-Shrinks false (set_hello-Shrinks 0 none ended))
      (Shrinks-refl s)

bump_lastping-Shrinks : (p : Member) (s : Room) → Shrinks s (bump_lastping p s)
unfolding bump_lastping
bump_lastping-Shrinks p s =
    if-Shrinks (p.lastping == 0) (Shrinks-refl s)
      (Shrinks-trans (tick-Shrinks s) (touch-Shrinks p.node _ (tick s) (λ q. refl)))

bump_loop-Shrinks : (ps : List Member) (s : Room) → Shrinks s (bump_loop ps s)
unfolding bump_loop
bump_loop-Shrinks [] s = Shrinks-refl s
bump_loop-Shrinks (p ∷ ps) s =
    Shrinks-trans (bump_lastping-Shrinks p s) (bump_loop-Shrinks ps (bump_lastping p s))

unreversed_loop-Shrinks :
    (n : ℕ) (ps : List Member) (f : Filling) → Shrinks f.room (unreversed_loop n ps f).room
unfolding unreversed_loop
unreversed_loop-Shrinks n [] f = Shrinks-refl f.room
unreversed_loop-Shrinks n (p ∷ ps) f =
    if-filling-Shrinks f.room _ _ (ltb (length f.macs) n)
      (Shrinks-trans (bump_lastping-Shrinks p f.room) (unreversed_loop-Shrinks n ps _))
      (Shrinks-refl f.room)

fill_first-Shrinks : (o : Option Member) (f : Filling) → Shrinks f.room (fill_first o f).room
unfolding fill_first
fill_first-Shrinks none f = Shrinks-refl f.room
fill_first-Shrinks (some p) f = bump_lastping-Shrinks p f.room

fill_others-Shrinks : (n : ℕ) (f : Filling) → Shrinks f.room (fill_others n f).room
unfolding fill_others
fill_others-Shrinks n f =
    let s1 = allocated f.room in
    if-filling-Shrinks f.room _ _ (length (peers f.room) == 0) (Shrinks-refl f.room) (
      if-filling-Shrinks f.room _ _ (address f.room == null)
        (Shrinks-trans (allocated-Shrinks f.room)
          (unreversed_loop-Shrinks n (peers s1) (filling f.macs s1)))
        (Shrinks-trans (allocated-Shrinks f.room) (bump_loop-Shrinks (peers s1) s1)))

fill_members-Shrinks : (n : ℕ) (s : Room) → Shrinks s (fill_members n s).room
unfolding fill_members
fill_members-Shrinks n s =
    let own = filling (own_macs s) s in
    if-filling-Shrinks s _ _ (not (ltb 0 n)) (Shrinks-refl s) (
      if-filling-Shrinks s _ _ (not (ltb 1 n)) (Shrinks-refl s) (
        if-filling-Shrinks s _ _ (s.context.mode == Mode.p2p)
          (fill_first-Shrinks (find_p2p (peers s)) own)
          (Shrinks-trans (fill_first-Shrinks (find_parent (peers s)) own)
            (fill_others-Shrinks n _))))

pub get_members_in-Shrinks :
    (buflen : Option ℕ) (buf : Bool) (s : Room) → Shrinks s (get_members_in buflen buf s).room
unfolding get_members_in
get_members_in-Shrinks none buf s = Shrinks-refl s
get_members_in-Shrinks (some n) buf s =
    if-Shrinks buf (fill_members-Shrinks (requested_peers n s) s) (Shrinks-refl s)
