-- ===== src/Jdwp/Samples.antt =====
-- Tests and examples of the debug wire protocol.
use cappu.Base.{ℕ, ◌+◌, ◌<◌, ◌≤◌, ◌++◌, List, [], ◌∷◌, length, uint32_at, ◌≡◌, refl, ◌↔◌, arith}
use cappu.Jdwp.Protocol.{
  encode_command_packet, decode_packet, waiting, got, panicked, try_read_packet,
}
use cappu.Jdwp.Protocol.Framing.{command_packet, try_read_packet-encode, try_read_packet-panics}

abbrev one_byte : List ℕ
one_byte = 42 ∷ []

test_encode :
    encode_command_packet 258 1 7 one_byte ≡ 0 ∷ 0 ∷ 0 ∷ 12 ∷ 0 ∷ 0 ∷ 1 ∷ 2 ∷ 0 ∷ 1 ∷ 7 ∷ 42 ∷ []
unfolding encode_command_packet
test_encode = refl

try_read_packet-encode_example :
    ((rest : List ℕ)
      → try_read_packet (encode_command_packet 258 1 7 one_byte ++ rest)
        ≡ got (command_packet 258 1 7 one_byte) rest)
    × ((short more : List ℕ)
        → short ++ more ≡ encode_command_packet 258 1 7 one_byte
        → length short < 11 + length one_byte
        → try_read_packet short ≡ waiting short)
try_read_packet-encode_example = try_read_packet-encode 258 1 7 one_byte (omega arith) (omega arith)

-- A header that announces three bytes.
abbrev bad_header : List ℕ
bad_header = 0 ∷ 0 ∷ 0 ∷ 3 ∷ 0 ∷ 0 ∷ 0 ∷ 0 ∷ 0 ∷ 0 ∷ 0 ∷ []

test_bad_header : try_read_packet bad_header ≡ panicked
unfolding try_read_packet decode_packet
test_bad_header = refl

try_read_packet-panics_example :
    (try_read_packet bad_header ≡ panicked)
    ↔ ((11 ≤ length bad_header) × (uint32_at bad_header 0 < 11))
try_read_packet-panics_example = try_read_packet-panics bad_header
