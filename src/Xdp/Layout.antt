-- ===== src/Xdp/Layout.antt =====
-- Sizes and field offsets of the headers that the program reads and writes, as the kernel's
-- headers and `struct eth_hdr` lay them out.
use katran.Base.{ℕ}

abbrev pub eth_hdr_size : ℕ
eth_hdr_size = 14

abbrev pub iphdr_size : ℕ
iphdr_size = 20

abbrev pub ipv6hdr_size : ℕ
ipv6hdr_size = 40

abbrev pub icmphdr_size : ℕ
icmphdr_size = 8

abbrev pub icmp6hdr_size : ℕ
icmp6hdr_size = 8

abbrev pub udphdr_size : ℕ
udphdr_size = 8

abbrev pub tcphdr_size : ℕ
tcphdr_size = 20
