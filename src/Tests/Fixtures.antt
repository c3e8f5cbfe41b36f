-- ===== src/Tests/Fixtures.antt =====
-- Packets, maps and a kernel for the tests.
use katran.Base.{
  ℕ, zero, suc, ◌+◌, ◌-◌, ◌*◌, ◌%◌, ◌^◌, ◌<◌, arith, true, false, none, some, if◌then◌else◌, ltb,
  leb, ◌==◌, List, [], ◌∷◌, ◌++◌,
}
use katran.Consts.{Config}
use katran.Structs.{VipMeta, RealDefinition, zero_address, flow_eq, empty_description}
use katran.Xdp.{Xdp}
use katran.Run.{State, Maps, Run, done, exit, fault}
use katran.Kernel.{Kernel}

abbrev pub byte_of : List ℕ → ℕ → ℕ
byte_of [] i = 0
byte_of (b ∷ bs) zero = b % 256
byte_of (b ∷ bs) (suc i) = byte_of bs i

pub byte_of-lt : (l : List ℕ) (i : ℕ) → byte_of l i < 256
byte_of-lt [] i = omega arith
byte_of-lt (b ∷ bs) zero = omega arith
byte_of-lt (b ∷ bs) (suc i) = byte_of-lt bs i

abbrev pub size : List ℕ → ℕ
size [] = 0
size (b ∷ bs) = suc (size bs)

-- A driver that leaves 256 bytes in front of the packet.
abbrev pub packet : List ℕ → Xdp
packet l = record { byte = byte_of l; len = size l; room = 256 }

-- A kernel whose helpers do what they are documented to do.
abbrev pub kernel : Kernel
kernel = record {
  ktime_get_ns = λ n. 5000000000 + n;
  smp_processor_id = 0;
  adjust_head_out = λ n x.
      if leb n x.room
      then some (record {
        byte = λ i. if ltb i n then 0 else x.byte (i - n);
        len = x.len + n;
        room = x.room - n;
      })
      else none;
  adjust_head_in = λ n x.
      if leb (n + 14) x.len
      then some (record { byte = λ i. x.byte (n + i); len = x.len - n; room = x.room + n })
      else none;
  adjust_tail_in = λ n x. if leb (n + 14) x.len then some (record x { len = x.len - n }) else none;
  csum_diff = λ f n seed. (seed + f 0) % 2 ^ 32;
  jhash = λ a n seed. (a.w0 + a.w3 + seed) % 2 ^ 32;
  jhash_2words = λ a b seed. (a + b + seed) % 2 ^ 32;
  lru_update_elem = λ l f v g. if flow_eq g f then some v else l g;
  has_subprogram = λ _. true;
}

abbrev pub config : Config
config = record {
  lpm_src_lookup = true;
  icmp_toobig_generation = true;
  inline_decap_ipip = true;
  inline_decap_gue = true;
  gue_encap = false;
}

abbrev pub plain_config : Config
plain_config = record config { inline_decap_ipip = false; inline_decap_gue = false }

abbrev pub gue_config : Config
gue_config = record config { gue_encap = true }

-- Ethernet, and an IPv4 header with a valid checksum from 10.0.0.1 to 10.200.1.1, 20 bytes behind it.
abbrev pub eth_v4 : List ℕ
eth_v4 = 2 ∷ 0 ∷ 0 ∷ 0 ∷ 0 ∷ 1 ∷ 2 ∷ 0 ∷ 0 ∷ 0 ∷ 0 ∷ 2 ∷ 8 ∷ 0 ∷ []

abbrev pub ipv4_header : ℕ → ℕ → ℕ → List ℕ
ipv4_header proto check_hi check_lo =
    0x45 ∷ 0 ∷ 0 ∷ 40 ∷ 0 ∷ 0 ∷ 0 ∷ 0 ∷ 64 ∷ proto ∷ check_hi ∷ check_lo ∷ 10 ∷ 0 ∷ 0 ∷ 1 ∷ 10 ∷ 200
    ∷ 1 ∷ 1 ∷ []

-- From port 31337 to port 80; the flags are the byte at 13.
abbrev pub tcp_header : ℕ → List ℕ
tcp_header flags =
    0x7a ∷ 0x69 ∷ 0 ∷ 80 ∷ 0 ∷ 0 ∷ 0 ∷ 0 ∷ 0 ∷ 0 ∷ 0 ∷ 0 ∷ 0x50 ∷ flags ∷ 0 ∷ 0 ∷ 0 ∷ 0 ∷ 0 ∷ 0 ∷ []

abbrev pub syn_bytes : List ℕ
syn_bytes = eth_v4 ++ (ipv4_header 6 0x65 0x07 ++ tcp_header 2)

abbrev pub syn_packet : Xdp
syn_packet = packet syn_bytes

-- The IPv4 header with a TTL of zero.
abbrev pub ttl_zero_bytes : List ℕ
ttl_zero_bytes =
    eth_v4
    ++ (0x45 ∷ 0 ∷ 0 ∷ 40 ∷ 0 ∷ 0 ∷ 0 ∷ 0 ∷ 0 ∷ 6 ∷ 0xa5 ∷ 0x07 ∷ 10 ∷ 0 ∷ 0 ∷ 1 ∷ 10 ∷ 200 ∷ 1 ∷ 1
        ∷ [])

abbrev pub udp_header : List ℕ
udp_header = 0x7a ∷ 0x69 ∷ 1 ∷ 0xbb ∷ 0 ∷ 30 ∷ 0 ∷ 0 ∷ []

-- QUIC packets with a connection id for the server 1000, and an initial packet.
abbrev pub quic_short_bytes : List ℕ
quic_short_bytes =
    eth_v4
    ++ (ipv4_header 17 0x64 0xfc
        ++ (udp_header ++ (0x40 ∷ 0x40 ∷ 0xfa ∷ 0x05 ∷ 0 ∷ 0 ∷ 0 ∷ 0 ∷ 0 ∷ [])))

abbrev pub quic_long_bytes : ℕ → List ℕ
quic_long_bytes flags =
    eth_v4
    ++ (ipv4_header 17 0x64 0xfc
        ++ (udp_header
            ++ (flags ∷ 0xfa ∷ 0xce ∷ 0xb0 ∷ 0x01 ∷ 8 ∷ 0x40 ∷ 0xfa ∷ 0x05 ∷ 0 ∷ 0 ∷ 0 ∷ 0 ∷ 0
                ∷ [])))

-- An ICMP error to the VIP that quotes a packet from there to 10.0.0.1, with `l4` behind its header.
abbrev pub icmp_error : ℕ → List ℕ → List ℕ
icmp_error proto l4 =
    eth_v4
    ++ (ipv4_header 1 0x65 0x0c
        ++ (3 ∷ 1 ∷ 0 ∷ 0 ∷ 0 ∷ 0 ∷ 0 ∷ 0 ∷ 0x45 ∷ 0 ∷ 0 ∷ 40 ∷ 0 ∷ 0 ∷ 0 ∷ 0 ∷ 64 ∷ proto ∷ 0 ∷ 0
            ∷ 10 ∷ 200 ∷ 1 ∷ 1 ∷ 10 ∷ 0 ∷ 0 ∷ 1 ∷ l4))

-- An echo request with the ICMP checksum and the identifier given.
abbrev pub echo_request : ℕ → ℕ → ℕ → ℕ → List ℕ
echo_request check0 check1 id0 id1 =
    eth_v4 ++ (ipv4_header 1 0x65 0x0c ++ (8 ∷ 0 ∷ check0 ∷ check1 ∷ id0 ∷ id1 ∷ 0 ∷ 0 ∷ []))

abbrev pub zeros : ℕ → List ℕ
zeros zero = []
zeros (suc n) = 0 ∷ zeros n

abbrev pub udp_error : List ℕ
udp_error = icmp_error 17 (1 ∷ 0xbb ∷ 0x7a ∷ 0x69 ∷ zeros 4)

abbrev pub tcp_error : ℕ → List ℕ
tcp_error rest = icmp_error 6 (0 ∷ 80 ∷ 0x7a ∷ 0x69 ∷ zeros rest)

-- From 2001:db8::1 to 2001:db8::2, and back in an ICMPv6 error.
abbrev pub v6_address : ℕ → List ℕ → List ℕ
v6_address host rest = 0x20 ∷ 1 ∷ 0x0d ∷ 0xb8 ∷ (zeros 11 ++ (host ∷ rest))

abbrev pub ipv6_header : ℕ → ℕ → ℕ → List ℕ → List ℕ
ipv6_header next from to rest =
    0x60 ∷ 0 ∷ 0 ∷ 0 ∷ 0 ∷ 8 ∷ next ∷ 64 ∷ v6_address from (v6_address to rest)

abbrev pub eth_v6 : List ℕ
eth_v6 = 2 ∷ 0 ∷ 0 ∷ 0 ∷ 0 ∷ 1 ∷ 2 ∷ 0 ∷ 0 ∷ 0 ∷ 0 ∷ 2 ∷ 0x86 ∷ 0xdd ∷ []

-- An ICMPv6 echo request with the checksum given.
abbrev pub echo_request_v6 : ℕ → ℕ → List ℕ
echo_request_v6 check0 check1 = eth_v6 ++ ipv6_header 58 1 2 (128 ∷ 0 ∷ check0 ∷ check1 ∷ zeros 4)

abbrev pub udp_v6 : List ℕ
udp_v6 = eth_v6 ++ ipv6_header 17 1 2 udp_header

abbrev pub udp_error_v6 : List ℕ
udp_error_v6 =
    eth_v6
    ++ ipv6_header 58 3 2
        (2 ∷ 0 ∷ 0 ∷ 0 ∷ 0 ∷ 0 ∷ 5 ∷ 0xdc ∷ ipv6_header 17 2 1 (1 ∷ 0xbb ∷ 0x7a ∷ 0x69 ∷ zeros 4))

abbrev pub vip : VipMeta
vip = record { flags = 0; vip_num = 1 }

-- 10.200.1.1 and 10.0.0.2, in network order read on a little-endian host.
abbrev pub vip_address : ℕ
vip_address = 10 + 200 * 2 ^ 8 + 1 * 2 ^ 16 + 1 * 2 ^ 24

abbrev pub real : RealDefinition
real = record { dst = record zero_address { w0 = 10 + 2 * 2 ^ 24 }; flags = 0 }

-- One VIP on port 80, one real at the index 7, all slots of the rings on it, all counters zero.
abbrev pub maps : Maps
maps = record {
  vip_map = λ v.
      if v.vip.w0 == vip_address then (if v.port == 80 * 2 ^ 8 then some vip else none) else none;
  lru_maps_mapping = λ cpu. if cpu == 0 then some (λ f. none) else none;
  fallback_lru_cache = λ f. none;
  ch_rings = λ i. some 7;
  reals = λ i. if i == 7 then some real else none;
  reals_stats = λ i. if ltb i 4096 then some (record { v1 = 0; v2 = 0 }) else none;
  stats = λ i. if ltb i 1024 then some (record { v1 = 0; v2 = 0 }) else none;
  quic_mapping = λ i. none;
  lpm_src_v4 = λ key. none;
  lpm_src_v6 = λ key. none;
  ctl_array = λ i. if i == 0 then some (record { value = 0x060504030201 }) else none;
  pckt_srcs = λ i. none;
  decap_dst = λ a. none;
}

abbrev pub state : Xdp → State
state x = record { xdp = x; pckt = empty_description; maps = maps; tick = 0 }

-- The counter of new connections ten short of its maximum.
abbrev pub busy_state : State
busy_state = record (state syn_packet) {
  maps = record maps {
    stats = λ i. if i == 514 then some (record { v1 = 124990; v2 = 5000000000 }) else maps.stats i;
  };
}

-- A TCP flow from 10.0.0.1 to the VIP.
abbrev pub flow_state : State
flow_state = record (state syn_packet) {
  pckt = record empty_description {
    flow = record {
      src = record zero_address { w0 = 10 + 1 * 2 ^ 24 };
      dst = record zero_address { w0 = vip_address };
      port0 = 0x697a;
      port1 = 0x5000;
      proto = 6;
    };
  };
}

abbrev pub state_of : {A : Type 0} → Run A → State
state_of (done a s) = s
state_of (exit a s) = s
state_of fault = flow_state

abbrev pub dport_vip : VipMeta
dport_vip = record { flags = 8; vip_num = 1 }

-- With source addresses for GUE.
abbrev pub source_state : State
source_state = record (state syn_packet) { maps = record maps { pckt_srcs = λ i. some real } }
