-- ===== src/Matching/Roster/Called.antt =====
-- The game's calls on rosters: pspnet_adhoc_matching/library/calls/{select,cancel,send,abortsend}.c.
use aemu.Base.{
  ℕ, ◌-◌, ◌≡◌, refl, Bool, true, false, not, ◌&&◌, ◌||◌, Option, none, some, [], ◌==◌, ltb,
  if◌then◌else◌, arith,
}
use aemu.Bytes.{Bytes}
use aemu.Matching.{Mac, Member, Room, peers}
use aemu.Matching.Members.{
  find_parent, find_p2p, find_outgoing_request, is_none, count_children, in_state,
  count_connected_peers, send_message,
}
use aemu.Matching.Calls.{Answer}
use aemu.Matching.Calls.Target.{
  Given, is_valid_opt, is_given, given_bytes, request_join, select_parent, select_child, select_p2p,
  select_peer, is_cancellable, cancel_peer, send_data_to, abort_to,
}
use aemu.Matching.Mode
use aemu.Matching.Peer
use aemu.Matching.Opcode
use aemu.Matching.Roster.{IsRoster, Shrinks, is_allowed}
use aemu.Matching.Roster.Lists.{
  Shrinks-refl, Shrinks-trans, if-Shrinks, Grows-then, Grows-after, touch-Shrinks, change-Grows,
  send_generic_message-Shrinks,
}
use aemu.Matching.Roster.Kept.{Shrinks-IsRoster, Grows-IsRoster, Fits, count-find_member}
use aemu.Matching.Roster.Received.{plain-Fits}
use aemu.Matching.Roster.Answered.{partner-Fits}

send_message-Shrinks :
    (opcode : ℕ) (mac : Mac) (opt : Bytes) (s : Room) → Shrinks s (send_message opcode mac opt s)
unfolding send_message
send_message-Shrinks opcode mac opt s = send_generic_message-Shrinks _ mac opcode opt s

-- An answer's choice, on its room.
pub if-answer :
    (a b : Answer) (q : Bool)
    → (q ≡ true → IsRoster a.room)
    → (q ≡ false → IsRoster b.room)
    → IsRoster (if q then a else b).room
if-answer a b true x y = x refl
if-answer a b false x y = y refl

-- The first open request.
request-Fits :
    (s : Room)
    → is_allowed s.context.mode Peer.outgoing_request ≡ true
    → is_none (find_outgoing_request (peers s)) ≡ true
    → Fits Peer.outgoing_request s
unfolding find_outgoing_request
request-Fits s a e = record {
  allowed = a;
  parent = λ t. absurd (ground (arith, t));
  p2p = λ t. absurd (ground (arith, t));
  request = λ t. count-find_member (in_state Peer.outgoing_request) (peers s) e;
  child = λ t q. absurd (ground (arith, t));
}

-- A child more, in a room that is not full.
child-Fits :
    (s : Room)
    → s.context.mode ≡ Mode.parent
    → (count_children (peers s) == s.context.maxpeers - 1) ≡ false
    → IsRoster s
    → Fits Peer.child s
unfolding is_allowed count_children
child-Fits s m e is = record {
  allowed = rw m refl;
  parent = λ t. absurd (ground (arith, t));
  p2p = λ t. absurd (ground (arith, t));
  request = λ t. absurd (ground (arith, t));
  child = λ t q. ground (arith, is.has_room m, e);
}

module _ (p : Member) (opt : Bytes) (s : Room) (is : IsRoster s) where
  request_join-IsRoster :
      (r : Room) → Shrinks s r → Fits Peer.outgoing_request s → IsRoster (request_join p opt r).room
  unfolding request_join
  request_join-IsRoster r x fits =
      Grows-IsRoster Peer.outgoing_request
        (Grows-after x (
          Grows-then (change-Grows p.node _ Peer.outgoing_request r (λ q. refl))
            (send_message-Shrinks _ p.mac opt _)))
        fits is

  select_parent-IsRoster : s.context.mode ≡ Mode.parent → IsRoster (select_parent p opt s).room
  unfolding select_parent
  select_parent-IsRoster m =
      if-answer _ _ (p.state == Peer.child) (λ e. is)
        λ e.
          if-answer _ _ (count_children (peers s) == s.context.maxpeers - 1) (λ f. is)
            λ f.
              if-answer _ _ (p.state == Peer.incoming_request)
                (λ g.
                  Grows-IsRoster Peer.child
                    (Grows-then (change-Grows p.node _ Peer.child s (λ q. refl)) (
                      Shrinks-trans (send_message-Shrinks Opcode.accept p.mac opt _)
                        (send_message-Shrinks Opcode.birth p.mac [] _)))
                    (child-Fits s m f is) is)
                (λ g. is)

  select_child-IsRoster : s.context.mode ≡ Mode.child → IsRoster (select_child p opt s).room
  unfolding select_child is_allowed
  select_child-IsRoster m =
      if-answer _ _ (not (is_none (find_parent (peers s)))) (λ e. is)
        λ e.
          if-answer _ _ (not (is_none (find_outgoing_request (peers s)))) (λ f. is)
            λ f.
              if-answer _ _ (p.state == Peer.offer)
                (λ g.
                  request_join-IsRoster s (Shrinks-refl s)
                    (request-Fits s (rw m refl) (ground (arith, f))))
                (λ g. is)

  select_p2p-IsRoster :
      (s.context.mode == Mode.parent) ≡ false
      → (s.context.mode == Mode.child) ≡ false
      → IsRoster (select_p2p p opt s).room
  unfolding select_p2p is_allowed
  select_p2p-IsRoster m n =
      let blocked = touch-Shrinks p.node (λ q. record q { joining = 1 }) s (λ q. refl) in
      if-answer _ _ (not (is_none (find_p2p (peers s)))) (λ e. is)
        λ e.
          if-answer _ _ (not (is_none (find_outgoing_request (peers s)))) (λ f. is)
            λ f.
              if-answer _ _ (p.state == Peer.offer)
                (λ g.
                  request_join-IsRoster _ blocked
                    (request-Fits s (rw (m, n) refl) (ground (arith, f))))
                (λ g.
                  if-answer _ _ (p.state == Peer.incoming_request)
                    (λ h.
                      Grows-IsRoster Peer.p2p
                        (Grows-after blocked (
                          Grows-then (change-Grows p.node _ Peer.p2p _ (λ q. refl))
                            (send_message-Shrinks Opcode.accept p.mac opt _)))
                        (partner-Fits s (rw (m, n) refl) (ground (arith, e))) is)
                    (λ h. is))

pub select_peer-IsRoster :
    (o : Option Member) (given : Given) (s : Room)
    → IsRoster s
    → IsRoster (select_peer o given s).room
unfolding select_peer
select_peer-IsRoster none given s is = is
select_peer-IsRoster (some p) given s is =
    let opt = given_bytes given in
    if-answer _ _ (not (is_valid_opt given)) (λ e. is)
      λ e.
        if-answer _ _ (s.context.mode == Mode.parent)
          (λ f. select_parent-IsRoster p opt s is (ground (arith, f)))
          (λ f.
            if-answer _ _ (s.context.mode == Mode.child)
              (λ g. select_child-IsRoster p opt s is (ground (arith, g)))
              (λ g. select_p2p-IsRoster p opt s is f g))

cancel-allowed : (s : Room) → is_allowed s.context.mode Peer.cancel_in_progress ≡ true
unfolding is_allowed
cancel-allowed s = ground arith

pub cancel_peer-IsRoster :
    (o : Option Member) (given : Given) (s : Room)
    → IsRoster s
    → IsRoster (cancel_peer o given s).room
unfolding cancel_peer
cancel_peer-IsRoster none given s is = is
cancel_peer-IsRoster (some p) given s is =
    let mourned =
      if-Shrinks
        ((s.context.mode == Mode.parent && p.state == Peer.child)
          && ltb 1 (count_connected_peers s.context))
        (send_message-Shrinks Opcode.death p.mac [] s) (Shrinks-refl s) in
    let k = Peer.cancel_in_progress in
    if-answer _ _ (is_cancellable s.context.mode p.state)
      (λ e.
        Grows-IsRoster k
          (Grows-after mourned (
            Grows-then (change-Grows p.node _ k _ (λ q. refl))
              (send_message-Shrinks Opcode.cancel p.mac _ _)))
          (plain-Fits k s (cancel-allowed s) refl) is)
      (λ e. is)

pub send_data_to-IsRoster :
    (o : Option Member) (given : Given) (s : Room)
    → IsRoster s
    → IsRoster (send_data_to o given s).room
unfolding send_data_to
send_data_to-IsRoster none given s is = is
send_data_to-IsRoster (some p) given s is =
    if-answer _ _ (not (is_given given)) (λ e. is)
      λ e.
        if-answer _ _
          (not (p.state == Peer.parent || (p.state == Peer.child || p.state == Peer.p2p))) (λ f. is)
          λ f.
            if-answer _ _ (not (p.sending == 0)) (λ g. is)
              λ g.
                Shrinks-IsRoster
                  (Shrinks-trans (touch-Shrinks p.node _ s (λ q. refl))
                    (send_message-Shrinks Opcode.bulk p.mac _ _))
                  is

pub abort_to-IsRoster : (o : Option Member) (s : Room) → IsRoster s → IsRoster (abort_to o s).room
unfolding abort_to
abort_to-IsRoster none s is = is
abort_to-IsRoster (some p) s is =
    Shrinks-IsRoster
      (if-Shrinks (p.sending == 0) (Shrinks-refl s) (
        Shrinks-trans (touch-Shrinks p.node _ s (λ q. refl))
          (send_message-Shrinks Opcode.bulk_abort p.mac [] _)))
      is
