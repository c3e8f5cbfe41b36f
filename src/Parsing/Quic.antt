-- ===== src/Parsing/Quic.antt =====
-- The server's index in a QUIC connection id.
use katran.Base.{
  ℕ, ◌+◌, ◌*◌, ◌/◌, ◌%◌, ◌≤◌, ◌<◌, ◌≡◌, arith, none, some, Bool, if◌then◌else◌, ◌==◌, bit_and_mask,
  bit_or_fields, bit_and_high_bit, bit_and_bits_4_5,
}
use katran.Xdp.{Xdp, u32_at, IsBytes}
use katran.Run.{State, done, load8, load32}
use katran.Parsing.{quic_server_id, parse_quic, calc_offset, has_icmp}

pub quic_server_id-eq :
    (c0 c1 c2 : ℕ)
    → c0 < 256
    → c1 < 256
    → c2 < 256
    → c0 / 64 ≡ 1
    → quic_server_id c0 c1 c2 ≡ some (c0 % 64 * 1024 + c1 * 4 + c2 / 64)
unfolding quic_server_id
quic_server_id-eq c0 c1 c2 h0 h1 h2 v = ground (
  arith,
  bit_and_mask 6 c0,
  bit_or_fields 10 (c0 % 64) (c1 * 4),
  bit_or_fields 2 (c0 % 64 * 256 + c1) (c2 / 64),
)

-- The bytes at `at` are a connection id of version 1 for the server `id`.
pub record HoldsId (x : Xdp) (at id : ℕ) : Type 0 where
  pub version_and_high : x.byte at ≡ 64 + id / 1024
  pub middle : x.byte (at + 1) ≡ id / 4 % 256
  pub low : x.byte (at + 2) / 64 ≡ id % 4

server_id_of :
    (x : Xdp) (at id : ℕ)
    → x.byte (at + 2) < 256
    → id < 65536
    → HoldsId x at id
    → quic_server_id (x.byte at) (x.byte (at + 1)) (x.byte (at + 2)) ≡ some id
server_id_of x at id b lt h =
    ground (arith, quic_server_id-eq (x.byte at) (x.byte (at + 1)) (x.byte (at + 2)))

-- Where the transport header of the packet begins.
abbrev pub transport : Bool → State → ℕ
transport v6 s = calc_offset v6 (has_icmp s.pckt)

-- A packet with a short header gives the server that its connection id holds.
pub parse_quic_short_lem :
    (v6 : Bool) (id : ℕ) (s : State)
    → IsBytes s.xdp
    → id < 65536
    → transport v6 s + 8 + 9 ≤ s.xdp.len
    → s.xdp.byte (transport v6 s + 8) < 128
    → HoldsId s.xdp (transport v6 s + 8 + 1) id
    → parse_quic v6 s ≡ done (some id) s
unfolding parse_quic load8
parse_quic_short_lem v6 id s b lt room short h =
    let q = transport v6 s + 8 in
    ground
      (arith, bit_and_high_bit (s.xdp.byte q), server_id_of s.xdp (q + 1) id (b (q + 1 + 2)) lt h)

-- The length of the destination's connection id that a long header at `q` states: in the high half
-- of the byte for the version 0xfaceb000, in the whole byte for the others.
abbrev pub stated_length : Xdp → ℕ → ℕ
stated_length x q = if u32_at x (q + 1) == 0xfaceb000 then x.byte (q + 5) / 16 else x.byte (q + 5)

-- Initial and 0-RTT packets are left to consistent hashing.
pub parse_quic_initial :
    (v6 : Bool) (s : State)
    → IsBytes s.xdp
    → 128 ≤ s.xdp.byte (transport v6 s + 8)
    → s.xdp.byte (transport v6 s + 8) / 16 % 4 < 2
    → parse_quic v6 s ≡ done none s
unfolding parse_quic load8 load32
parse_quic_initial v6 s b long type =
    let q = transport v6 s + 8 in
    let t = s.xdp.byte q in ground (arith, b q, bit_and_high_bit t, bit_and_bits_4_5 t)

-- A connection id of another version than 1 is not used, and an index has 16 bits.
id_small :
    (c0 c1 c2 : ℕ)
    → c0 < 256
    → c1 < 256
    → c2 < 256
    → (r : ℕ) → quic_server_id c0 c1 c2 ≡ some r
    → (c0 / 64 ≡ 1) × (r < 65536)
unfolding quic_server_id
id_small c0 c1 c2 h0 h1 h2 r e = ground (
  arith,
  bit_and_mask 6 c0,
  bit_or_fields 10 (c0 % 64) (c1 * 4),
  bit_or_fields 2 (c0 % 64 * 256 + c1) (c2 / 64),
)
