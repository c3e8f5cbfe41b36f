-- ===== src/Parsing.antt =====
-- katran/lib/bpf/pckt_parsing.h: the ports of a TCP or UDP packet, or of the packet that an ICMP
-- message quotes, and the index of the server in a QUIC connection id.
pub mod Bounds
pub mod Quic
use katran.Base.{
  ℕ, ◌+◌, ◌*◌, ◌/◌, ◌%◌, ◌^◌, Bool, true, false, not, Option, none, some, if◌then◌else◌, ◌==◌, ltb,
  bit_and, bit_or, ◌<<<◌, ◌>>>◌,
}
use katran.Consts.{
  f_icmp, f_syn_set, quic_long_header, quic_handshake, quic_packet_type_mask,
  quic_version_mvfst_old, quic_min_connid_len, quic_connid_version,
}
use katran.Xdp.Layout.{eth_hdr_size, iphdr_size, ipv6hdr_size, icmphdr_size, icmp6hdr_size}
use katran.Xdp.Layout.{udphdr_size, tcphdr_size}
use katran.Structs.{PacketDescription}
use katran.Run.{State, Prog, pure, gets, modify, ◌>>=◌, ◌>>◌, beyond, load8, load16, load32}

unfoldable pub calc_offset : Bool → Bool → ℕ
calc_offset is_ipv6 is_icmp =
    if is_ipv6
    then eth_hdr_size + ipv6hdr_size + (if is_icmp then icmp6hdr_size + ipv6hdr_size else 0)
    else eth_hdr_size + iphdr_size + (if is_icmp then icmphdr_size + iphdr_size else 0)

-- `!((pckt->flags & F_ICMP) == 0)`
abbrev pub has_icmp : PacketDescription → Bool
has_icmp p = not (bit_and p.flags f_icmp == 0)

abbrev pub with_ports : ℕ → ℕ → State → State
with_ports p0 p1 s = record s {
  pckt = record s.pckt { flow = record s.pckt.flow { port0 = p0; port1 = p1 } };
}

abbrev pub with_flag : ℕ → State → State
with_flag f s = record s { pckt = record s.pckt { flags = bit_or s.pckt.flags f } }

unfoldable pub parse_udp : Bool → Prog Bool
unfolding calc_offset
parse_udp is_ipv6 = do
  is_icmp ← gets (λ s. has_icmp s.pckt)
  let off = calc_offset is_ipv6 is_icmp
  too_short ← gets (beyond (off + udphdr_size))
  if too_short then pure false else do
    source ← load16 off
    dest ← load16 (off + 2)
    if is_icmp then modify (with_ports dest source) else modify (with_ports source dest)
    pure true

-- The SYN bit is the second of the header's byte 13.
unfoldable pub parse_tcp : Bool → Prog Bool
unfolding calc_offset
parse_tcp is_ipv6 = do
  is_icmp ← gets (λ s. has_icmp s.pckt)
  let off = calc_offset is_ipv6 is_icmp
  too_short ← gets (beyond (off + tcphdr_size))
  if too_short then pure false else do
    bits ← load8 (off + 13)
    if bits / 2 % 2 == 1 then modify (with_flag f_syn_set) else pure tt
    source ← load16 off
    dest ← load16 (off + 2)
    if is_icmp then modify (with_ports dest source) else modify (with_ports source dest)
    pure true

-- The end of `parse_quic`, from `connId` on: `none` is FURTHER_PROCESSING.
unfoldable pub quic_server_id : ℕ → ℕ → ℕ → Option ℕ
quic_server_id c0 c1 c2 =
    if c0 >>> 6 == quic_connid_version
    then some (bit_or (bit_or (bit_and c0 0x3f <<< 10) (c1 <<< 2)) (c2 >>> 6))
    else none

-- Whether the byte `conn_id_lens` promises a connection id of the minimum length.
unfoldable pub connid_too_short : ℕ → ℕ → Bool
connid_too_short version conn_id_lens =
    if version == quic_version_mvfst_old
    then ltb (conn_id_lens >>> 4) quic_min_connid_len
    else ltb conn_id_lens quic_min_connid_len

-- `struct quic_long_header` is packed: the version is at 1, the lengths at 5, the id at 6.
abbrev pub quic_long_header_size : ℕ
quic_long_header_size = 6 + quic_min_connid_len

abbrev pub quic_short_header_size : ℕ
quic_short_header_size = 1 + quic_min_connid_len

unfoldable pub read_server_id : ℕ → Prog (Option ℕ)
unfolding quic_server_id
read_server_id conn_id = do
  c0 ← load8 conn_id
  c1 ← load8 (conn_id + 1)
  c2 ← load8 (conn_id + 2)
  pure (quic_server_id c0 c1 c2)

unfoldable pub parse_quic_long : ℕ → ℕ → Prog (Option ℕ)
unfolding read_server_id connid_too_short
parse_quic_long quic_data pkt_type = do
  too_short ← gets (beyond (quic_data + quic_long_header_size))
  if too_short
      then pure none
      else if ltb (bit_and pkt_type quic_packet_type_mask) quic_handshake
      then pure none
      else do
        version ← load32 (quic_data + 1)
        lens ← load8 (quic_data + 5)
        if connid_too_short version lens then pure none else read_server_id (quic_data + 6)

unfoldable pub parse_quic_short : ℕ → Prog (Option ℕ)
unfolding read_server_id
parse_quic_short quic_data = do
  too_short ← gets (beyond (quic_data + quic_short_header_size))
  if too_short then pure none else read_server_id (quic_data + 1)

unfoldable pub parse_quic : Bool → Prog (Option ℕ)
unfolding calc_offset parse_quic_long parse_quic_short
parse_quic is_ipv6 = do
  is_icmp ← gets (λ s. has_icmp s.pckt)
  let off = calc_offset is_ipv6 is_icmp
  too_short ← gets (beyond (off + udphdr_size + 1))
  if too_short then pure none else do
    let quic_data = off + udphdr_size
    pkt_type ← load8 quic_data
    if bit_and pkt_type quic_long_header == quic_long_header
        then parse_quic_long quic_data pkt_type
        else parse_quic_short quic_data
