-- ===== src/Encap/Headers.antt =====
-- katran/lib/bpf/encap_helpers.h: the outer headers.
use katran.Base.{ℕ, ◌+◌, bit_and, ◌<<<◌, ◌>>>◌, bpf_htons}
use katran.Consts.{default_ttl}
use katran.Xdp.Layout.{iphdr_size}
use katran.Structs.{Address}
use katran.Run.{
  Prog, ◌>>=◌, ◌>>◌, store8, store16, store32, write_bytes, store_high, store_low, store_address,
}
use katran.Csum.{ipv4_csum_inline}

unfoldable pub create_v4_hdr : ℕ → ℕ → ℕ → ℕ → ℕ → ℕ → Prog (Unit {0})
unfolding store8 store16 store32 store_high store_low
create_v4_hdr iph tos saddr daddr pkt_bytes proto = do
  store_high iph 4
  store_low iph 5
  store16 (iph + 6) 0
  store8 (iph + 9) proto
  store16 (iph + 10) 0
  store8 (iph + 1) tos
  store16 (iph + 2) (bpf_htons (pkt_bytes + iphdr_size))
  store32 (iph + 16) daddr
  store32 (iph + 12) saddr
  store8 (iph + 8) default_ttl
  csum ← ipv4_csum_inline iph 0
  store16 (iph + 10) csum

-- `priority` is the lower half of the header's byte 0, and `flow_lbl` its bytes 1 to 3.
unfoldable pub create_v6_hdr : ℕ → ℕ → Address → Address → ℕ → ℕ → Prog (Unit {0})
unfolding store8 store16 write_bytes store_high store_low store_address
create_v6_hdr ip6h tc saddr daddr payload_len proto = do
  store_high ip6h 6
  write_bytes (ip6h + 1) 3 (λ _. 0)
  store_low ip6h (bit_and tc 0xf0 >>> 4)
  store8 (ip6h + 1) (bit_and tc 0x0f <<< 4)
  store8 (ip6h + 6) proto
  store16 (ip6h + 4) (bpf_htons payload_len)
  store8 (ip6h + 7) default_ttl
  store_address (ip6h + 8) saddr
  store_address (ip6h + 24) daddr

unfoldable pub create_udp_hdr : ℕ → ℕ → ℕ → ℕ → ℕ → Prog (Unit {0})
unfolding store16
create_udp_hdr udph sport dport len csum = do
  store16 udph sport
  store16 (udph + 2) (bpf_htons dport)
  store16 (udph + 4) (bpf_htons len)
  store16 (udph + 6) csum
