-- ===== src/Tests/Examples.antt =====
-- The theorems at concrete inputs.
use katran.Base.{◌+◌, ◌/◌, ◌<◌, ◌≡◌, ◌≢◌, refl, arith, none, some, false, ap}
use katran.Structs.{empty_description}
use katran.Run.{State, done, fault}
use katran.Run.Bounds.{Leaves}
use katran.Xdp.{u16_at}
use katran.Csum.{csum_fold_helper}
use katran.Csum.Fold.{ones_sum, csum_fold_helper_lem}
use katran.Csum.Words.{words_sum}
use katran.Csum.Header.{IsChecked}
use katran.Consts.{ring_size, ch_rings_size}
use katran.Helpers.{decrement_ttl}
use katran.Helpers.Ttl.{IsAged, decrement_ttl-IsAged, decrement_ttl_wraps}
use katran.Encap.Headers.{create_v4_hdr}
use katran.Encap.Outer.{IsOuterV4, create_v4_hdr-IsOuterV4}
use katran.Parsing.{parse_quic, calc_offset}
use katran.Parsing.Quic.{parse_quic_short_lem, parse_quic_initial}
use katran.Kern.{balancer_ingress}
use katran.Kern.Bounds.{balancer_ingress-ne-fault}
use katran.Kern.Connections.{
  per_cpu, get_lru, get_packet_hash, is_under_flood, ring_key, ring_lookup, remember, use_real,
  source_key, key_of, use_key, choose_dst, get_packet_dst, connection_table_lookup,
}
use katran.Kern.Connections.Ring.{ring_key-in_ring}
use katran.Kern.Connections.Affinity.{Stores, get_packet_dst_affinity}
use katran.Kern.Connections.DportOnly.{OnlyEvicts, get_packet_dst_dport_only}
use katran.Tests.Fixtures.{
  kernel, config, syn_bytes, syn_packet, ttl_zero_bytes, quic_short_bytes, quic_long_bytes, state,
  packet, byte_of-lt, vip, real, flow_state, state_of, dport_vip,
}

-- The test's kernel meets the hypotheses on the connection table.
kernel-Stores : Stores kernel
kernel-Stores l f v = ground arith

kernel-OnlyEvicts : OnlyEvicts kernel
kernel-OnlyEvicts l f g v ne un = ground arith

flow_has_source : flow_state.pckt.flow.src.w0 ≢ 0
flow_has_source = omega arith

balancer_ingress-ne-fault_example : balancer_ingress config kernel (state syn_packet) ≢ fault
balancer_ingress-ne-fault_example = balancer_ingress-ne-fault config kernel (state syn_packet)

csum_fold_helper_lem_example :
    csum_fold_helper 0xfffffffffffffffe + ones_sum 0xfffffffffffffffe ≡ 65535
csum_fold_helper_lem_example = csum_fold_helper_lem 0xfffffffffffffffe (omega arith)

create_v4_hdr-IsOuterV4_example :
    Leaves
      (λ _ s'. IsOuterV4 14 8 0x10ac 0x200000a 40 4 syn_packet s'.xdp)
      (create_v4_hdr 14 8 0x10ac 0x200000a 40 4 (state syn_packet))
create_v4_hdr-IsOuterV4_example =
    create_v4_hdr-IsOuterV4 14 8 0x10ac 0x200000a 40 4 (state syn_packet) (byte_of-lt syn_bytes)
      (omega arith)

decrement_ttl-IsAged_example :
    Leaves
      (λ a s'. (a ≡ none) × IsAged 14 syn_packet s'.xdp)
      (decrement_ttl 14 false (state syn_packet))
unfolding words_sum u16_at
decrement_ttl-IsAged_example =
    decrement_ttl-IsAged 14 (state syn_packet) (byte_of-lt syn_bytes) (omega arith) (omega arith)
      refl

decrement_ttl_wraps_example :
    Leaves
      (λ a s'. (a ≡ none) × (s'.xdp.byte 22 ≡ 255) × ¬ (IsChecked s'.xdp 14))
      (decrement_ttl 14 false (state (packet ttl_zero_bytes)))
unfolding words_sum u16_at
decrement_ttl_wraps_example =
    decrement_ttl_wraps 14 (state (packet ttl_zero_bytes)) (byte_of-lt ttl_zero_bytes) (omega arith)
      refl refl

parse_quic_short_lem_example :
    parse_quic false (state (packet quic_short_bytes))
    ≡ done (some 1000) (state (packet quic_short_bytes))
unfolding calc_offset
parse_quic_short_lem_example =
    parse_quic_short_lem false 1000 (state (packet quic_short_bytes)) (byte_of-lt quic_short_bytes)
      (omega arith) (omega arith) (omega arith)
      (record { version_and_high = refl; middle = refl; low = refl })

parse_quic_initial_example :
    parse_quic false (state (packet (quic_long_bytes 0xc0)))
    ≡ done none (state (packet (quic_long_bytes 0xc0)))
unfolding calc_offset
parse_quic_initial_example =
    parse_quic_initial false (state (packet (quic_long_bytes 0xc0)))
      (byte_of-lt (quic_long_bytes 0xc0)) (omega arith) (omega arith)

ring_key-in_ring_example :
    (ring_key kernel empty_description vip false < ch_rings_size)
    × (ring_key kernel empty_description vip false / ring_size ≡ 1)
ring_key-in_ring_example = ring_key-in_ring kernel empty_description vip false (omega arith)

abbrev flooded : State
flooded = state_of (is_under_flood kernel flow_state)

abbrev chosen : State
chosen = state_of (get_packet_dst kernel config vip false (per_cpu 0) flow_state)

get_packet_dst_affinity_example :
    Leaves
      (λ r t'. (r ≡ some real) × (t'.pckt.real_index ≡ chosen.pckt.real_index))
      (connection_table_lookup kernel (per_cpu 0) chosen)
unfolding get_packet_dst is_under_flood choose_dst source_key key_of ring_lookup ring_key
    get_packet_hash use_key use_real remember
get_packet_dst_affinity_example =
    get_packet_dst_affinity kernel config vip false (per_cpu 0) 5000000000 real flow_state flooded
      chosen chosen kernel-Stores refl refl refl refl refl refl refl (omega arith)

get_packet_dst_dport_only_example :
    Leaves
      (λ _ t. get_lru (per_cpu 0) t.maps flow_state.pckt.flow ≡ none)
      (get_packet_dst kernel config dport_vip false (per_cpu 0) flow_state)
get_packet_dst_dport_only_example =
    get_packet_dst_dport_only kernel config dport_vip false (per_cpu 0) flow_state kernel-OnlyEvicts
      refl refl (λ e. flow_has_source (ap (λ a. a.w0) e)) refl
