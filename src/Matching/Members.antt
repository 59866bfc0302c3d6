-- ===== src/Matching/Members.antt =====
-- The peer list and the message stacks: pspnet_adhoc_matching/library/functions.c.
use aemu.Base.{
  ℕ, ◌+◌, Bool, true, false, Option, none, some, List, [], ◌∷◌, ◌==◌, if◌then◌else◌, count,
}
use aemu.Bytes.{Bytes}
use aemu.Chain.{Ptr, null}
use aemu.Matching.{
  Mac, Member, Message, Context, Room, peers, set_peers, address, allocated, time, tick,
  is_mac_match,
}
use aemu.Matching.Mode
use aemu.Matching.Peer

abbrev pub find_member : (Member → Bool) → List Member → Option Member
find_member hit [] = none
find_member hit (p ∷ ps) = if hit p then some p else find_member hit ps

abbrev pub in_state : ℕ → Member → Bool
in_state k p = p.state == k

unfoldable pub find_peer : Mac → List Member → Option Member
find_peer mac = find_member λ p. is_mac_match p.mac mac

unfoldable pub find_parent : List Member → Option Member
find_parent = find_member (in_state Peer.parent)

unfoldable pub find_p2p : List Member → Option Member
find_p2p = find_member (in_state Peer.p2p)

unfoldable pub find_outgoing_request : List Member → Option Member
find_outgoing_request = find_member (in_state Peer.outgoing_request)

-- `== NULL`
abbrev pub is_none : Option Member → Bool
is_none none = true
is_none (some p) = false

-- `a == b` on pointers to peers
unfoldable pub is_same : Option Member → Option Member → Bool
is_same none none = true
is_same none (some q) = false
is_same (some p) none = false
is_same (some p) (some q) = p.node == q.node

unfoldable pub count_children : List Member → ℕ
count_children = count (in_state Peer.child)

-- The list without the node.
abbrev pub erase_node : Ptr → List Member → List Member
erase_node n [] = []
erase_node n (p ∷ ps) = if p.node == n then ps else p ∷ erase_node n ps

-- A write through a pointer to the node.
abbrev pub change_node : Ptr → (Member → Member) → List Member → List Member
change_node n f [] = []
change_node n f (p ∷ ps) = if p.node == n then f p ∷ ps else p ∷ change_node n f ps

abbrev pub change_peer : Ptr → (Member → Member) → Room → Room
change_peer n f s = set_peers (change_node n f (peers s)) s

-- `peer->state = k`
abbrev pub set_state : ℕ → Ptr → Room → Room
set_state k n = change_peer n (λ p. record p { state = k })

abbrev pub set_joining : ℕ → Ptr → Room → Room
set_joining b n = change_peer n (λ p. record p { joining = b })

abbrev pub set_sending : ℕ → Ptr → Room → Room
set_sending b n = change_peer n (λ p. record p { sending = b })

abbrev pub set_lastping : ℕ → Ptr → Room → Room
set_lastping t n = change_peer n (λ p. record p { lastping = t })

-- `peer->lastping = sceKernelGetSystemTimeWide(); peer->last_seen_on_adhocctl = peer->lastping;`
unfoldable pub refresh : Ptr → Room → Room
refresh n s =
    change_peer n (λ p. record p { lastping = time s; last_seen_on_adhocctl = time s }) (tick s)

-- malloc, memset, the fields, and the link into the list; `failed` where malloc returns NULL.
unfoldable pub add_peer : Mac → ℕ → (Room → Room) → (Ptr → Room → Room) → Room → Room
add_peer mac state failed then_do s =
    let node = address s in
    let s1 = allocated s in
    let fresh : Member = record {
      node = node;
      mac = mac;
      state = state;
      sending = 0;
      lastping = time s1;
      last_seen_on_adhocctl = time s1;
      joining = 0;
    } in
    if node == null then failed s1 else then_do node (set_peers (fresh ∷ peers s1) (tick s1))

unfoldable pub delete_peer : Option Member → Room → Room
delete_peer none s = s
delete_peer (some p) s = set_peers (erase_node p.node (peers s)) s

pub data Stack : Type 0 where
  input event : Stack

-- _linkIOMessage and _linkEVMessage
unfoldable pub link_message : Stack → Message → Room → Room
link_message Stack.input m s = record s {
  context = record s.context { input_stack = m ∷ s.context.input_stack };
}
link_message Stack.event m s = record s {
  context = record s.context { event_stack = m ∷ s.context.event_stack };
}

-- _sendGenericMessage: out of memory, the peer is deleted.
unfoldable pub send_generic_message : Stack → Mac → ℕ → Bytes → Room → Room
send_generic_message stack mac opcode opt s =
    let s1 = allocated s in
    let linked = link_message stack (record { opcode = opcode; mac = mac; opt = opt }) s1 in
    let sent =
      tick (record linked { world = record linked.world { last_packet_send = time linked } }) in
    if address s == null then delete_peer (find_peer mac (peers s1)) s1 else sent

-- _spawnLocalEvent
unfoldable pub spawn_local_event : ℕ → Mac → Bytes → Room → Room
spawn_local_event notice mac opt = send_generic_message Stack.event mac notice opt

-- _sendAcceptMessage, _sendJoinRequest, _sendCancelMessage, _sendBulkData, _abortBulkTransfer,
-- _sendBirthMessage and _sendDeathMessage, each with its opcode
unfoldable pub send_message : ℕ → Mac → Bytes → Room → Room
send_message opcode mac opt = send_generic_message Stack.input mac opcode opt

-- _clearPeerList: the loop over the nodes deletes each of them.
unfoldable pub clear_loop : List Member → Room → Room
clear_loop [] s = s
clear_loop (p ∷ ps) s = clear_loop ps (delete_peer (some p) s)

unfoldable pub clear_peer_list : Room → Room
clear_peer_list s = clear_loop (peers s) s

-- _countConnectedPeers
unfoldable pub count_connected_peers : Context → ℕ
count_connected_peers c =
    if c.mode == Mode.parent
    then count_children c.peerlist + 1
    else if c.mode == Mode.child
    then 1 + (if is_none (find_parent c.peerlist) then 0 else count_children c.peerlist + 1)
    else 1 + (if is_none (find_p2p c.peerlist) then 0 else 1)
