-- ===== src/Matching.antt =====
-- The matching library of the console: pspnet_adhoc_matching/library. A context is a room with a list
-- of peers; its input thread talks to the network and its event thread to the game. The lists are
-- lists of nodes, each with its address; a pointer is that address.
pub mod Mode
pub mod Peer
pub mod Notice
pub mod Opcode
pub mod Error
pub mod Members
pub mod Packet
pub mod Send
pub mod Receive
pub mod Threads
pub mod Calls
pub mod Roster
pub mod Siblings
pub mod Agreed
pub mod Kicked
pub mod Delivered
use aemu.Base.{
  ℕ, ◌+◌, Bool, true, false, Option, none, some, List, [], ◌∷◌, ◌++◌, ◌==◌, if◌then◌else◌, get_or,
  drop, take, replicate,
}
use aemu.Bytes.{Bytes, bytes_eq}
use aemu.Chain.{Ptr, null}

-- SceNetEtherAddr
abbrev pub Mac : Type 0
Mac = Bytes

-- SceNetAdhocMatchingMemberInternal, at the address `node`
pub record Member : Type 0 where
  pub node : Ptr
  pub mac : Mac
  pub state : ℕ
  pub sending : ℕ
  pub lastping : ℕ
  pub last_seen_on_adhocctl : ℕ
  pub joining : ℕ

-- ThreadMessage, with the data that stands behind it; its length is optlen.
pub record Message : Type 0 where
  pub opcode : ℕ
  pub mac : Mac
  pub opt : Bytes

-- SceNetAdhocMatchingContext. A message stack is a list, its top first. The receive buffer, the
-- locks, the event handler and its gp value are left out; a thread id tells if the thread runs.
pub record Context : Type 0 where
  pub id : ℕ
  pub mode : ℕ
  pub running : Bool
  pub maxpeers : ℕ
  pub mac : Mac
  pub peerlist : List Member
  pub port : ℕ
  pub socket : ℕ
  pub rxbuflen : ℕ
  pub hello_int : ℕ
  pub keepalive_int : ℕ
  pub resend_int : ℕ
  pub resendcounter : ℕ
  pub keepalivecounter : ℕ
  pub timeout : ℕ
  pub hellolen : ℕ
  pub hello : Option Bytes
  pub event_stack : List Message
  pub input_stack : List Message

-- What the library does to the network and to the game: sceNetAdhocPdpSend, the call of the event
-- handler, sceNetAdhocPdpDelete.
pub data Effect : Type 0 where
  transmitted : (socket : ℕ) (mac : Mac) (port : ℕ) → Bytes → Effect
  handled : (id event : ℕ) (mac : Mac) → Bytes → Effect
  socket_closed : (socket : ℕ) → Effect

-- The system: what the next calls of malloc and sceKernelGetSystemTimeWide answer, the console's own
-- MAC, the global last_packet_send, and what was done, oldest first. No answer left is NULL, or 0.
pub record World : Type 0 where
  pub mallocs : List Ptr
  pub times : List ℕ
  pub local_mac : Mac
  pub last_packet_send : ℕ
  pub effects : List Effect

-- A context and the system.
pub record Room : Type 0 where
  pub context : Context
  pub world : World

abbrev pub peers : Room → List Member
peers s = s.context.peerlist

abbrev pub set_peers : List Member → Room → Room
set_peers ps s = record s { context = record s.context { peerlist = ps } }

-- malloc: the address that it returns, and the system afterwards.
abbrev pub address : Room → Ptr
address s = get_or s.world.mallocs 0 null

abbrev pub allocated : Room → Room
allocated s = record s { world = record s.world { mallocs = drop 1 s.world.mallocs } }

-- sceKernelGetSystemTimeWide: the time, and the system afterwards.
abbrev pub time : Room → ℕ
time s = get_or s.world.times 0 0

abbrev pub tick : Room → Room
tick s = record s { world = record s.world { times = drop 1 s.world.times } }

abbrev pub act : Effect → Room → Room
act e s = record s { world = record s.world { effects = s.world.effects ++ e ∷ [] } }

-- sceNetAdhocPdpSend from the context's socket and port
abbrev pub transmit : Mac → Bytes → Room → Room
transmit mac bytes s = act (Effect.transmitted s.context.socket mac s.context.port bytes) s

-- _isMacMatch: the last five of six bytes
unfoldable pub is_mac_match : Mac → Mac → Bool
unfolding bytes_eq
is_mac_match a b = bytes_eq (take 5 (drop 1 a)) (take 5 (drop 1 b))
