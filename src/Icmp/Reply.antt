-- ===== src/Icmp/Reply.antt =====
-- katran/lib/bpf/handle_icmp.h: an echo request is answered in place.
use katran.Base.{◌+◌, ◌-◌, ◌^◌, if◌then◌else◌, u16}
use katran.Consts.{icmp_echoreply, icmpv6_echo_reply, default_ttl}
use katran.Xdp.Layout.{eth_hdr_size, iphdr_size, ipv6hdr_size, icmphdr_size, icmp6hdr_size}
use katran.Run.{
  Action, drop, tx, Prog, pure, gets, ◌>>=◌, ◌>>◌, beyond, load16, load32, store8, store16, store32,
  read_bytes, write_bytes, memcpy, load_address, store_address,
}
use katran.Csum.{ipv4_csum_inline}

-- `eth_dest` is at 0 of the frame, `eth_source` at 6.
unfoldable pub swap_mac_and_send : Prog Action
unfolding memcpy read_bytes write_bytes
swap_mac_and_send = do tmp_mac ← read_bytes 6 6; memcpy 6 0 6; write_bytes 0 6 tmp_mac; pure tx

-- `type` and `checksum` are at 0 and 2 of the ICMP header; `ttl`, `check`, `saddr` and `daddr` at 8,
-- 10, 12 and 16 of the IPv4 header.
unfoldable pub send_icmp_reply : Prog Action
unfolding load16 load32 store8 store16 store32
send_icmp_reply = do
  too_short ← gets (beyond (eth_hdr_size + iphdr_size + icmphdr_size))
  if too_short then pure drop else do
    let iph = eth_hdr_size
    let icmp_hdr = iph + iphdr_size
    store8 icmp_hdr icmp_echoreply
    checksum ← load16 (icmp_hdr + 2)
    store16 (icmp_hdr + 2) (u16 (checksum + 0x0008))
    store8 (iph + 8) default_ttl
    tmp_addr ← load32 (iph + 16)
    saddr ← load32 (iph + 12)
    store32 (iph + 16) saddr
    store32 (iph + 12) tmp_addr
    store16 (iph + 10) 0
    csum ← ipv4_csum_inline iph 0
    store16 (iph + 10) csum
    swap_mac_and_send

-- `icmp6_type` and `icmp6_cksum` are at 0 and 2 of the ICMPv6 header; `hop_limit`, `saddr` and `daddr`
-- at 7, 8 and 24 of the IPv6 header.
unfoldable pub send_icmp6_reply : Prog Action
unfolding load16 load_address store8 store16 store_address memcpy
send_icmp6_reply = do
  too_short ← gets (beyond (eth_hdr_size + ipv6hdr_size + icmp6hdr_size))
  if too_short then pure drop else do
    let ip6h = eth_hdr_size
    let icmp_hdr = ip6h + ipv6hdr_size
    store8 icmp_hdr icmpv6_echo_reply
    cksum ← load16 (icmp_hdr + 2)
    store16 (icmp_hdr + 2) (u16 (cksum + (2 ^ 16 - 0x0001)))
    store8 (ip6h + 7) default_ttl
    tmp_addr ← load_address (ip6h + 8)
    memcpy (ip6h + 8) (ip6h + 24) 16
    store_address (ip6h + 24) tmp_addr
    swap_mac_and_send
