-- ===== src/Consts.antt =====
-- katran/lib/bpf/balancer_consts.h, with the values of a build without -D flags, and the
-- protocol numbers of the kernel's headers.
use katran.Base.{ℕ, ◌*◌, Bool}

-- The features that a -D flag turns on.
pub record Config : Type 0 where
  pub lpm_src_lookup : Bool
  pub icmp_toobig_generation : Bool
  pub inline_decap_ipip : Bool
  pub inline_decap_gue : Bool
  pub gue_encap : Bool

abbrev pub be_eth_p_ip : ℕ
be_eth_p_ip = 8

abbrev pub be_eth_p_ipv6 : ℕ
be_eth_p_ipv6 = 56710

abbrev pub guev1_ipv6mask : ℕ
guev1_ipv6mask = 0x30

abbrev pub pckt_fragmented : ℕ
pckt_fragmented = 65343

abbrev pub ring_size : ℕ
ring_size = 65537

abbrev pub max_vips : ℕ
max_vips = 512

abbrev pub ch_rings_size : ℕ
ch_rings_size = max_vips * ring_size

abbrev pub one_sec : ℕ
one_sec = 1000000000

abbrev pub lru_udp_timeout : ℕ
lru_udp_timeout = 30000000000

abbrev pub recirculation_index : ℕ
recirculation_index = 0

-- Flags of a real, of a VIP and of a packet description.
abbrev pub f_ipv6 : ℕ
f_ipv6 = 1

abbrev pub f_hash_no_src_port : ℕ
f_hash_no_src_port = 1

abbrev pub f_lru_bypass : ℕ
f_lru_bypass = 2

abbrev pub f_quic_vip : ℕ
f_quic_vip = 4

abbrev pub f_hash_dport_only : ℕ
f_hash_dport_only = 8

abbrev pub f_src_routing : ℕ
f_src_routing = 16

abbrev pub f_icmp : ℕ
f_icmp = 1

abbrev pub f_syn_set : ℕ
f_syn_set = 2

abbrev pub default_ttl : ℕ
default_ttl = 64

abbrev pub quic_long_header : ℕ
quic_long_header = 0x80

abbrev pub quic_handshake : ℕ
quic_handshake = 0x20

abbrev pub quic_packet_type_mask : ℕ
quic_packet_type_mask = 0x30

abbrev pub quic_version_mvfst_old : ℕ
quic_version_mvfst_old = 0xfaceb000

abbrev pub quic_min_connid_len : ℕ
quic_min_connid_len = 8

abbrev pub quic_connid_version : ℕ
quic_connid_version = 1

abbrev pub max_pckt_size : ℕ
max_pckt_size = 1514

abbrev pub icmp_toobig_size : ℕ
icmp_toobig_size = 98

abbrev pub icmp6_toobig_size : ℕ
icmp6_toobig_size = 262

abbrev pub icmp6_toobig_payload_size : ℕ
icmp6_toobig_payload_size = 256

abbrev pub icmp_toobig_payload_size : ℕ
icmp_toobig_payload_size = 92

-- Offsets of the counters behind those of the VIPs.
abbrev pub lru_cntrs : ℕ
lru_cntrs = 0

abbrev pub lru_miss_cntr : ℕ
lru_miss_cntr = 1

abbrev pub new_conn_rate_cntr : ℕ
new_conn_rate_cntr = 2

abbrev pub fallback_lru_cntr : ℕ
fallback_lru_cntr = 3

abbrev pub icmp_toobig_cntrs : ℕ
icmp_toobig_cntrs = 4

abbrev pub lpm_src_cntrs : ℕ
lpm_src_cntrs = 5

abbrev pub remote_encap_cntrs : ℕ
remote_encap_cntrs = 6

abbrev pub quic_route_stats : ℕ
quic_route_stats = 7

abbrev pub max_conn_rate : ℕ
max_conn_rate = 125000

abbrev pub ipip_v4_prefix : ℕ
ipip_v4_prefix = 4268

abbrev pub ipip_v6_prefix1 : ℕ
ipip_v6_prefix1 = 1

abbrev pub ipip_v6_prefix2 : ℕ
ipip_v6_prefix2 = 0

abbrev pub ipip_v6_prefix3 : ℕ
ipip_v6_prefix3 = 0

abbrev pub gue_dport : ℕ
gue_dport = 6080

abbrev pub gue_csum : ℕ
gue_csum = 0

abbrev pub init_jhash_seed : ℕ
init_jhash_seed = ch_rings_size

abbrev pub init_jhash_seed_v6 : ℕ
init_jhash_seed_v6 = max_vips

abbrev pub v4_src_index : ℕ
v4_src_index = 0

abbrev pub v6_src_index : ℕ
v6_src_index = 1

-- Of linux/in.h, linux/icmp.h and linux/icmpv6.h.
abbrev pub ipproto_icmp : ℕ
ipproto_icmp = 1

abbrev pub ipproto_ipip : ℕ
ipproto_ipip = 4

abbrev pub ipproto_tcp : ℕ
ipproto_tcp = 6

abbrev pub ipproto_udp : ℕ
ipproto_udp = 17

abbrev pub ipproto_ipv6 : ℕ
ipproto_ipv6 = 41

abbrev pub ipproto_fragment : ℕ
ipproto_fragment = 44

abbrev pub ipproto_icmpv6 : ℕ
ipproto_icmpv6 = 58

abbrev pub icmp_echoreply : ℕ
icmp_echoreply = 0

abbrev pub icmp_dest_unreach : ℕ
icmp_dest_unreach = 3

abbrev pub icmp_frag_needed : ℕ
icmp_frag_needed = 4

abbrev pub icmp_echo : ℕ
icmp_echo = 8

abbrev pub icmpv6_dest_unreach : ℕ
icmpv6_dest_unreach = 1

abbrev pub icmpv6_pkt_toobig : ℕ
icmpv6_pkt_toobig = 2

abbrev pub icmpv6_echo_request : ℕ
icmpv6_echo_request = 128

abbrev pub icmpv6_echo_reply : ℕ
icmpv6_echo_reply = 129
