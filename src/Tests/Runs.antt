-- ===== src/Tests/Runs.antt =====
-- Whole runs of the program.
use katran.Base.{ℕ, ◌≡◌, refl, Option, none, some, bpf_htons}
use katran.Structs.{LbStats}
use katran.Run.{
  Action, tx, Run, done, exit, fault, load8, load16, load32, store8, store16, store32, write_bytes,
  read_bytes, memcpy, store_high, store_low,
}
use katran.Xdp.{Xdp, u16_at, u32_at, put8, put16, put32}
use katran.Csum.{ipv4_csum_inline, csum_fold_helper, sum_words}
use katran.Parsing.{calc_offset, parse_tcp, parse_udp}
use katran.Icmp.{parse_icmp, send_icmp_reply, swap_mac_and_send}
use katran.Encap.Headers.{create_v4_hdr}
use katran.Encap.{write_eth, encap_v4, pckt_encap_v4, ipip_v4_saddr}
use katran.Kern.L3.{l3_v4, process_l3_headers}
use katran.Kern.Connections.{
  get_packet_hash, is_under_flood, lpm_lookup, ring_key, ring_lookup, remember, use_real,
  source_key, key_of, use_key, choose_dst, get_packet_dst, found_real, connection_table_lookup,
}
use katran.Kern.Process.{
  find_vip, route_quic, inline_ipip, inline_gue, parse_l4, check_size, pick_lru, count_miss,
  known_real, new_real, route_flow, route, encap_for, send, process_packet, by_eth_proto,
  balancer_ingress,
}
use katran.Tests.Fixtures.{kernel, config, syn_packet, state}

abbrev action_of : Run Action → Option Action
action_of (done a s) = some a
action_of (exit a s) = some a
action_of fault = none

abbrev real_stats : Run Action → ℕ → Option LbStats
real_stats (done a s) i = s.maps.reals_stats i
real_stats (exit a s) i = s.maps.reals_stats i
real_stats fault i = none

abbrev byte_after : Run Action → ℕ → Option ℕ
byte_after (done a s) i = some (s.xdp.byte i)
byte_after (exit a s) i = some (s.xdp.byte i)
byte_after fault i = none

-- The program with all that a TCP packet to an IPv4 real meets.
ingress : Xdp → Run Action
unfolding balancer_ingress by_eth_proto process_packet process_l3_headers l3_v4 parse_icmp
    send_icmp_reply swap_mac_and_send inline_ipip parse_l4 parse_tcp parse_udp inline_gue
    calc_offset find_vip check_size route route_quic route_flow pick_lru known_real new_real
    count_miss get_packet_dst is_under_flood choose_dst source_key key_of lpm_lookup ring_lookup
    ring_key get_packet_hash use_key use_real remember found_real connection_table_lookup send
    encap_for pckt_encap_v4 encap_v4 write_eth ipip_v4_saddr create_v4_hdr ipv4_csum_inline
    sum_words csum_fold_helper load8 load16 load32 store8 store16 store32 write_bytes read_bytes
    memcpy store_high store_low u16_at u32_at put8 put16 put32 bpf_htons
ingress x = balancer_ingress config kernel (state x)

-- A SYN packet for the VIP is sent to the real, and counted.
syn_is_sent : action_of (ingress syn_packet) ≡ some tx
unfolding ingress
syn_is_sent = refl

syn_is_counted : real_stats (ingress syn_packet) 7 ≡ some (record { v1 = 1; v2 = 40 })
unfolding ingress
syn_is_counted = refl

-- The outer destination is 10.0.0.2, and the inner packet follows.
outer_destination : byte_after (ingress syn_packet) 33 ≡ some 2
unfolding ingress
outer_destination = refl

inner_protocol : byte_after (ingress syn_packet) 43 ≡ some 6
unfolding ingress
inner_protocol = refl
