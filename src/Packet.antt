-- ===== src/Packet.antt =====
-- The packets of pspnet_adhocctl_server/packets.h and the sizes of pspstructs.h. A packed struct is
-- read from the bytes of the receive buffer at the offsets of its fields.
pub mod Opcode
use aemu.Base.{ℕ, ◌+◌, List, take, drop}
use aemu.Bytes.{Bytes}

abbrev pub product_code_length : ℕ
product_code_length = 9

abbrev pub ether_addr_len : ℕ
ether_addr_len = 6

abbrev pub groupname_len : ℕ
groupname_len = 8

abbrev pub nickname_len : ℕ
nickname_len = 128

abbrev pub message_len : ℕ
message_len = 64

-- SceNetAdhocctlLoginPacketC2S, behind its opcode
pub record LoginPacket : Type 0 where
  pub mac : Bytes
  pub name : Bytes
  pub game : Bytes

abbrev pub login_packet_size : ℕ
login_packet_size = 1 + ether_addr_len + nickname_len + product_code_length

abbrev pub connect_packet_size : ℕ
connect_packet_size = 1 + groupname_len

abbrev pub chat_packet_size : ℕ
chat_packet_size = 1 + message_len

-- `*(SceNetAdhocctlLoginPacketC2S *)user->rx`
unfoldable pub login_packet : Bytes → LoginPacket
login_packet rx = record {
  mac = take ether_addr_len (drop 1 rx);
  name = take nickname_len (drop (1 + ether_addr_len) rx);
  game = take product_code_length (drop (1 + ether_addr_len + nickname_len) rx);
}

-- `((SceNetAdhocctlConnectPacketC2S *)user->rx)->group`
unfoldable pub connect_packet_group : Bytes → Bytes
connect_packet_group rx = take groupname_len (drop 1 rx)

-- `((SceNetAdhocctlChatPacketC2S *)user->rx)->message`
unfoldable pub chat_packet_message : Bytes → Bytes
chat_packet_message rx = take message_len (drop 1 rx)

-- The packets from the server to a client, each with the opcode of its name.
pub data Packet : Type 0 where
  connect : (name mac : Bytes) (ip : ℕ) → Packet
  disconnect : (ip : ℕ) → Packet
  scan : (group mac : Bytes) → Packet
  scan_complete : Packet
  connect_bssid : (mac : Bytes) → Packet
  chat : (message name : Bytes) → Packet
