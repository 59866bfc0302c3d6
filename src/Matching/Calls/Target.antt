-- ===== src/Matching/Calls/Target.antt =====
-- The game's calls about one peer: proNetAdhocMatchingSelectTarget,
-- proNetAdhocMatchingCancelTargetWithOpt, proNetAdhocMatchingSendData and
-- proNetAdhocMatchingAbortSendData of pspnet_adhoc_matching/library/calls.
use aemu.Base.{
  ℕ, ◌-◌, Bool, true, false, not, ◌&&◌, ◌||◌, Option, none, some, [], ◌==◌, ltb, if◌then◌else◌,
  take,
}
use aemu.Bytes.{Bytes}
use aemu.Matching.{Mac, Member, Room, peers}
use aemu.Matching.Members.{
  find_peer, find_parent, find_p2p, find_outgoing_request, is_none, count_children,
  count_connected_peers, set_state, set_joining, set_sending, send_message,
}
use aemu.Matching.Packet.{is_positive}
use aemu.Matching.Calls.{Library, Reply, Answer, reply, answer, with_context}
use aemu.Matching.Mode
use aemu.Matching.Peer
use aemu.Matching.Opcode
use aemu.Matching.Error

-- Data from the game: a length, and a pointer, NULL or to the bytes.
pub record Given : Type 0 where
  pub len : ℕ
  pub opt : Option Bytes

abbrev pub is_given : Given → Bool
is_given g = elim g.opt [ none ↦ false | some bytes ↦ ltb 0 g.len && is_positive g.len ]

-- "Valid Optional Data Length"
unfoldable pub is_valid_opt : Given → Bool
is_valid_opt g = (g.len == 0 && elim g.opt [ none ↦ true | some bytes ↦ false ]) || is_given g

abbrev pub given_bytes : Given → Bytes
given_bytes g = elim g.opt [ none ↦ [] | some bytes ↦ take g.len bytes ]

-- "Switch into Join Request Mode"
unfoldable pub request_join : Member → Bytes → Room → Answer
request_join peer opt s =
    answer 0 (send_message Opcode.join peer.mac opt (set_state Peer.outgoing_request peer.node s))

-- proNetAdhocMatchingSelectTarget in each mode
unfoldable pub select_parent : Member → Bytes → Room → Answer
select_parent peer opt s =
    let joined = set_state Peer.child peer.node s in
    let told =
      send_message Opcode.birth peer.mac [] (send_message Opcode.accept peer.mac opt joined) in
    if peer.state == Peer.child
    then answer Error.already_established s
    else if count_children (peers s) == s.context.maxpeers - 1
    then answer Error.exceed_maxnum s
    else if peer.state == Peer.incoming_request
    then answer 0 told
    else answer Error.target_not_ready s

unfoldable pub select_child : Member → Bytes → Room → Answer
select_child peer opt s =
    if not (is_none (find_parent (peers s)))
    then answer Error.already_established s
    else if not (is_none (find_outgoing_request (peers s)))
    then answer Error.request_in_progress s
    else if peer.state == Peer.offer
    then request_join peer opt s
    else answer Error.target_not_ready s

unfoldable pub select_p2p : Member → Bytes → Room → Answer
select_p2p peer opt s =
    let blocked = set_joining 1 peer.node s in
    let met = send_message Opcode.accept peer.mac opt (set_state Peer.p2p peer.node blocked) in
    if not (is_none (find_p2p (peers s)))
    then answer Error.already_established s
    else if not (is_none (find_outgoing_request (peers s)))
    then answer Error.request_in_progress s
    else if peer.state == Peer.offer
    then request_join peer opt blocked
    else if peer.state == Peer.incoming_request
    then answer 0 met
    else answer Error.target_not_ready s

unfoldable pub select_peer : Option Member → Given → Room → Answer
select_peer none given s = answer Error.unknown_target s
select_peer (some peer) given s =
    let opt = given_bytes given in
    if not (is_valid_opt given)
    then answer Error.invalid_optlen s
    else if s.context.mode == Mode.parent
    then select_parent peer opt s
    else if s.context.mode == Mode.child
    then select_child peer opt s
    else select_p2p peer opt s

-- "Running Context"
unfoldable pub when_running : (Room → Answer) → Room → Answer
when_running f s = let a = f s in if s.context.running then a else answer Error.not_running s

-- `target != NULL`, then the context
unfoldable pub on_target : ℕ → Option Mac → (Mac → Room → Answer) → Library → Reply
on_target id none f l = reply (if l.init == 1 then Error.invalid_arg else Error.not_initialized) l
on_target id (some target) f l = with_context id (when_running (f target)) l

unfoldable pub select_target : ℕ → Option Mac → Given → Library → Reply
select_target id target given =
    on_target id target λ mac s. select_peer (find_peer mac (peers s)) given s

-- "Valid Peer Mode"
unfoldable pub is_cancellable : ℕ → ℕ → Bool
is_cancellable mode state =
    (mode == Mode.child && (state == Peer.parent || state == Peer.outgoing_request))
    || ((mode == Mode.parent && (state == Peer.child || state == Peer.incoming_request))
        || (mode == Mode.p2p && (state == Peer.p2p || state == Peer.incoming_request)))

-- proNetAdhocMatchingCancelTargetWithOpt
unfoldable pub cancel_peer : Option Member → Given → Room → Answer
cancel_peer none given s = answer Error.unknown_target s
cancel_peer (some peer) given s =
    let mourned =
      if (s.context.mode == Mode.parent && peer.state == Peer.child)
        && ltb 1 (count_connected_peers s.context)
      then send_message Opcode.death peer.mac [] s
      else s in
    let cancelled = set_state Peer.cancel_in_progress peer.node mourned in
    let told = send_message Opcode.cancel peer.mac (given_bytes given) cancelled in
    if is_cancellable s.context.mode peer.state
    then answer 0 told
    else answer Error.unknown_target s

unfoldable pub cancel_target : ℕ → Option Mac → Given → Library → Reply
cancel_target id target given l =
    let cancelled =
      on_target id target (λ mac s. cancel_peer (find_peer mac (peers s)) given s) l in
    if l.init == 1 && not (is_valid_opt given) then reply Error.invalid_arg l else cancelled

-- proNetAdhocMatchingSendData
unfoldable pub send_data_to : Option Member → Given → Room → Answer
send_data_to none given s = answer Error.unknown_target s
send_data_to (some peer) given s =
    let sent = send_message Opcode.bulk peer.mac (given_bytes given) (set_sending 1 peer.node s) in
    if not (is_given given)
    then answer Error.invalid_datalen s
    else if not (peer.state == Peer.parent || (peer.state == Peer.child || peer.state == Peer.p2p))
    then answer Error.not_established s
    else if not (peer.sending == 0)
    then answer Error.data_busy s
    else answer 0 sent

unfoldable pub send_data : ℕ → Option Mac → Given → Library → Reply
send_data id target given =
    on_target id target λ mac s. send_data_to (find_peer mac (peers s)) given s

-- proNetAdhocMatchingAbortSendData
unfoldable pub abort_to : Option Member → Room → Answer
abort_to none s = answer Error.unknown_target s
abort_to (some peer) s =
    let aborted = send_message Opcode.bulk_abort peer.mac [] (set_sending 0 peer.node s) in
    answer 0 (if peer.sending == 0 then s else aborted)

unfoldable pub abort_send_data : ℕ → Option Mac → Library → Reply
abort_send_data id target = on_target id target λ mac s. abort_to (find_peer mac (peers s)) s
