-- ===== src/Encap/NoPass.antt =====
-- The encapsulation ends no run.
use katran.Base.{ℕ, Bool, arith}
use katran.Consts.{Config}
use katran.Structs.{Address, CtlValue, RealDefinition}
use katran.Run.{
  State, load8, store8, store16, store32, store_high, store_low, store_address, memcpy, read_bytes,
  write_bytes,
}
use katran.Kernel.{Kernel}
use katran.Icmp.NoPass.{ipv4_csum_inline-NoPassExit}
use katran.Encap.Headers.{create_v4_hdr, create_v6_hdr, create_udp_hdr}
use katran.Encap.{
  write_eth, encap_v4, encap_v6, gue_encap_v4, gue_encap_v6, gue_encap_v4_from, gue_encap_v6_from,
  pckt_encap_v4, pckt_encap_v6,
}
use katran.Run.NoPass.{NoPassExit, NoPassExit-bind, guarded-NoPassExit}

ruleset steps = (NoPassExit-bind, guarded-NoPassExit, ipv4_csum_inline-NoPassExit)

create_v4_hdr-NoPassExit :
    (iph tos src dst bytes proto : ℕ) (s : State)
    → NoPassExit (create_v4_hdr iph tos src dst bytes proto s)
unfolding create_v4_hdr load8 store8 store16 store32 store_high store_low
create_v4_hdr-NoPassExit iph tos src dst bytes proto s = search steps depth 60 fits 5000

create_v6_hdr-NoPassExit :
    (ip6h tc : ℕ) (src dst : Address) (len proto : ℕ) (s : State)
    → NoPassExit (create_v6_hdr ip6h tc src dst len proto s)
unfolding create_v6_hdr load8 store8 store16 store32 store_high store_low store_address write_bytes
create_v6_hdr-NoPassExit ip6h tc src dst len proto s = search steps depth 60 fits 5000

create_udp_hdr-NoPassExit :
    (udph sport dport len csum : ℕ) (s : State)
    → NoPassExit (create_udp_hdr udph sport dport len csum s)
unfolding create_udp_hdr store16
create_udp_hdr-NoPassExit udph sport dport len csum s = search steps depth 60 fits 5000

write_eth-NoPassExit :
    (cval : CtlValue) (old proto : ℕ) (s : State) → NoPassExit (write_eth cval old proto s)
unfolding write_eth memcpy read_bytes write_bytes store16
write_eth-NoPassExit cval old proto s = search steps depth 60 fits 5000

module _ (k : Kernel) (cval : CtlValue) (dst : RealDefinition) (bytes : ℕ) where
  pub pckt_encap_v4-NoPassExit :
      (c : Config) (s : State) → NoPassExit (pckt_encap_v4 k c cval dst bytes s)
  unfolding pckt_encap_v4 encap_v4 gue_encap_v4 gue_encap_v4_from
  pckt_encap_v4-NoPassExit c s =
      grind (arith, write_eth-NoPassExit, create_v4_hdr-NoPassExit, create_udp_hdr-NoPassExit)

  pub pckt_encap_v6-NoPassExit :
      (c : Config) (v6 : Bool) (s : State) → NoPassExit (pckt_encap_v6 k c cval v6 dst bytes s)
  unfolding pckt_encap_v6 encap_v6 gue_encap_v6 gue_encap_v6_from
  pckt_encap_v6-NoPassExit c v6 s =
      grind (arith, write_eth-NoPassExit, create_v6_hdr-NoPassExit, create_udp_hdr-NoPassExit)
