-- ===== src/Jdwp/Protocol/Framing.antt =====
-- Packets read from a stream.
use cappu.Base.{
  ℕ, zero, suc, ◌+◌, ◌<◌, ◌≤◌, ◌++◌, false, List, [], ◌∷◌, ltb, length, get_or, uint32_at, ◌≡◌,
  refl, ap, ◌∙◌, ◌↔◌, arith, length-append, length-take, take-append_self, drop-append_self,
  Bool-cases, inl, inr, lt→ltb,
}
use cappu.Jdwp.Protocol.{
  Packet, encode_command_packet, packet_of, decode_packet, waiting, got, panicked, try_read_packet,
}

-- The packet of a command.
abbrev pub command_packet : ℕ → ℕ → ℕ → List ℕ → Packet
command_packet id set cmd body = record {
  is_reply = false;
  id = id;
  command_set = set;
  command = cmd;
  error_code = 0;
  body = body;
}

le→ltb : (a b : ℕ) → b ≤ a → ltb a b ≡ false
le→ltb a b le = ground arith

get_or-append : (xs ys : List ℕ) (i : ℕ) → i < length xs → get_or (xs ++ ys) i 0 ≡ get_or xs i 0
get_or-append [] ys i lt = absurd (omega arith)
get_or-append (x ∷ xs) ys zero lt = refl
get_or-append (x ∷ xs) ys (suc i) lt = get_or-append xs ys i (omega arith)

uint32_at-append : (xs ys : List ℕ) → 4 ≤ length xs → uint32_at (xs ++ ys) 0 ≡ uint32_at xs 0
uint32_at-append xs ys le = omega (
  arith,
  get_or-append xs ys 0 (omega arith),
  get_or-append xs ys 1 (omega arith),
  get_or-append xs ys 2 (omega arith),
  get_or-append xs ys 3 (omega arith),
)

-- A packet whose first word is its length.
take_first :
    (b rest : List ℕ)
    → uint32_at b 0 ≡ length b
    → 11 ≤ length b
    → try_read_packet (b ++ rest) ≡ got (packet_of b) rest
unfolding try_read_packet decode_packet
take_first b rest e le =
    rw
      (
        try_read_packet,
        uint32_at-append b rest (omega arith),
        e,
        le→ltb (length (b ++ rest)) 11 (omega (arith, length-append b rest)),
        le→ltb (length (b ++ rest)) (length b) (omega (arith, length-append b rest)),
        take-append_self b rest,
        drop-append_self b rest,
        decode_packet,
        le→ltb (length b) 11 le,
      )
      refl

-- Less than the header, or than the length that it announces.
wait_short :
    (b : List ℕ) → (11 ≤ length b → length b < uint32_at b 0) → try_read_packet b ≡ waiting b
unfolding try_read_packet
wait_short b h = elim (Bool-cases (ltb (length b) 11)) [
  | inl e ↦ rw (try_read_packet, e) refl
  | inr e ↦ rw (try_read_packet, e, lt→ltb (length b) (uint32_at b 0) (h (ground arith))) refl
]

-- Let the id and the length fit in 32 bits. However much has arrived behind it, the packet of a command
-- is read from the stream with its fields, and the rest is left; while only a part of it has arrived,
-- the reader waits and keeps that part.
pub try_read_packet-encode :
    (id set cmd : ℕ) (body : List ℕ)
    → id < 4294967296
    → 11 + length body < 4294967296
    → ((rest : List ℕ)
        → try_read_packet (encode_command_packet id set cmd body ++ rest)
          ≡ got (command_packet id set cmd body) rest)
      × ((short more : List ℕ)
          → short ++ more ≡ encode_command_packet id set cmd body
          → length short < 11 + length body
          → try_read_packet short ≡ waiting short)
unfolding encode_command_packet
try_read_packet-encode id set cmd body hid hlen =
    let b : List ℕ = encode_command_packet id set cmd body in
    let size : (uint32_at b 0 ≡ 11 + length body) = omega arith in
    let id_at : (uint32_at b 4 ≡ id) = omega arith in
    (
      (λ rest.
          take_first b rest (omega (arith, size)) (omega arith)
          ∙ ap (λ i. got (command_packet i set cmd body) rest) id_at),
      (λ short more e lt. wait_short short (λ le.
          omega
            (arith, size, uint32_at-append short more (omega arith), ap (λ bs. uint32_at bs 0) e))),
    )

-- The reader panics exactly on a header that announces fewer bytes than a header has.
pub try_read_packet-panics :
    (buf : List ℕ) → (try_read_packet buf ≡ panicked) ↔ ((11 ≤ length buf) × (uint32_at buf 0 < 11))
unfolding try_read_packet decode_packet
try_read_packet-panics buf = ground (arith, length-take (uint32_at buf 0) buf)
