-- ===== src/Jdwp/Protocol.antt =====
-- Packets and their framing (togo/internal/jdwp/protocol.go).
pub mod Framing
use cappu.Base.{
  ℕ, ◌+◌, ◌/◌, ◌%◌, ◌++◌, Bool, true, false, Option, none, some, List, [], ◌∷◌, if◌then◌else◌, ltb,
  ◌==◌, length, get_or, take, drop, u4_bytes, uint16_at, uint32_at,
}

abbrev pub header_len : ℕ
header_len = 11

pub record Packet : Type 0 where
  pub is_reply : Bool
  pub id : ℕ
  pub command_set : ℕ
  pub command : ℕ
  pub error_code : ℕ
  pub body : List ℕ

-- The arguments are in the ranges of their types.
unfoldable pub encode_command_packet : ℕ → ℕ → ℕ → List ℕ → List ℕ
encode_command_packet id set cmd body =
    u4_bytes (header_len + length body) ++ (u4_bytes id ++ 0 ∷ set ∷ cmd ∷ body)

-- The flag 0x80 of byte 8.
abbrev has_reply_flag : List ℕ → Bool
has_reply_flag b = get_or b 8 0 / 0x80 % 2 == 1

abbrev pub packet_of : List ℕ → Packet
packet_of b =
    if has_reply_flag b
    then record {
      is_reply = true;
      id = uint32_at b 4;
      command_set = 0;
      command = 0;
      error_code = uint16_at b 9;
      body = drop header_len b;
    }
    else record {
      is_reply = false;
      id = uint32_at b 4;
      command_set = get_or b 9 0;
      command = get_or b 10 0;
      error_code = 0;
      body = drop header_len b;
    }

-- `none` is the panic of an index out of range.
unfoldable pub decode_packet : List ℕ → Option Packet
decode_packet b = if ltb (length b) header_len then none else some (packet_of b)

-- What `TryReadPacket` does: it waits, returns a packet and the rest, or panics.
pub data Taken : Type 0 where
  waiting : List ℕ → Taken
  got : Packet → List ℕ → Taken
  panicked : Taken

abbrev taken_of : Option Packet → List ℕ → Taken
taken_of none rest = panicked
taken_of (some packet) rest = got packet rest

unfoldable pub try_read_packet : List ℕ → Taken
try_read_packet buf =
    let size = uint32_at buf 0 in
    if ltb (length buf) header_len
    then waiting buf
    else if ltb (length buf) size
    then waiting buf
    else taken_of (decode_packet (take size buf)) (drop size buf)
