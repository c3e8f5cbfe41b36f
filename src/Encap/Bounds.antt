-- ===== src/Encap/Bounds.antt =====
-- Encapsulation and decapsulation stay inside the packet.
use katran.Base.{ℕ, ◌+◌, ◌≤◌, arith, Bool}
use katran.Xdp.{put8, put16, put32}
use katran.Structs.{Address, CtlValue, RealDefinition}
use katran.Consts.{Config}
use katran.Run.{State}
use katran.Run.Bounds.{KeepsLen, NoFault}
use katran.Kernel.{Kernel}
use katran.Csum.Words.{ipv4_csum_inline-KeepsLen}
use katran.Encap.Headers.{create_v4_hdr, create_v6_hdr, create_udp_hdr}
use katran.Encap.{
  write_eth, move_eth, encap_v4, encap_v6, decap_by, gue_encap_v4_from, gue_encap_v6_from,
  gue_encap_v4, gue_encap_v6, pckt_encap_v4, pckt_encap_v6,
}

create_v4_hdr-KeepsLen :
    (iph tos saddr daddr bytes proto : ℕ) (s : State)
    → iph + 20 ≤ s.xdp.len
    → KeepsLen s.xdp.len (create_v4_hdr iph tos saddr daddr bytes proto s)
unfolding create_v4_hdr put8 put16 put32
create_v4_hdr-KeepsLen iph tos saddr daddr bytes proto s h =
    grind (arith, ipv4_csum_inline-KeepsLen)

create_v6_hdr-KeepsLen :
    (ip6h tc : ℕ) (saddr daddr : Address) (len proto : ℕ) (s : State)
    → ip6h + 40 ≤ s.xdp.len
    → KeepsLen s.xdp.len (create_v6_hdr ip6h tc saddr daddr len proto s)
unfolding create_v6_hdr put8 put16 put32
create_v6_hdr-KeepsLen ip6h tc saddr daddr len proto s h = ground arith

create_udp_hdr-KeepsLen :
    (udph sport dport len csum : ℕ) (s : State)
    → udph + 8 ≤ s.xdp.len
    → KeepsLen s.xdp.len (create_udp_hdr udph sport dport len csum s)
unfolding create_udp_hdr put16 put8
create_udp_hdr-KeepsLen udph sport dport len csum s h = ground arith

write_eth-KeepsLen :
    (cval : CtlValue) (old proto : ℕ) (s : State)
    → old + 14 ≤ s.xdp.len
    → KeepsLen s.xdp.len (write_eth cval old proto s)
unfolding write_eth put16 put8
write_eth-KeepsLen cval old proto s h = ground arith

ruleset header_bounds = (
  arith, create_v4_hdr-KeepsLen, create_v6_hdr-KeepsLen, create_udp_hdr-KeepsLen,
  write_eth-KeepsLen,
)

module _ (k : Kernel) (cval : CtlValue) (dst : RealDefinition) (bytes : ℕ) where
  encap_v4-NoFault : (s : State) → NoFault (encap_v4 k cval dst bytes s)
  unfolding encap_v4
  encap_v4-NoFault s = grind header_bounds

  encap_v6-NoFault : (v6 : Bool) (s : State) → NoFault (encap_v6 k cval v6 dst bytes s)
  unfolding encap_v6
  encap_v6-NoFault v6 s = grind header_bounds

  gue_encap_v4_from-NoFault :
      (src : RealDefinition) (s : State) → NoFault (gue_encap_v4_from k src cval dst bytes s)
  unfolding gue_encap_v4_from
  gue_encap_v4_from-NoFault src s = grind header_bounds

  gue_encap_v6_from-NoFault :
      (src : RealDefinition) (v6 : Bool) (s : State)
      → NoFault (gue_encap_v6_from k src cval v6 dst bytes s)
  unfolding gue_encap_v6_from
  gue_encap_v6_from-NoFault src v6 s = grind header_bounds

  pub pckt_encap_v4-NoFault :
      (c : Config) (s : State) → NoFault (pckt_encap_v4 k c cval dst bytes s)
  unfolding pckt_encap_v4 gue_encap_v4
  pckt_encap_v4-NoFault c s = grind (arith, encap_v4-NoFault, gue_encap_v4_from-NoFault)

  pub pckt_encap_v6-NoFault :
      (c : Config) (v6 : Bool) (s : State) → NoFault (pckt_encap_v6 k c cval v6 dst bytes s)
  unfolding pckt_encap_v6 gue_encap_v6
  pckt_encap_v6-NoFault c v6 s = grind (arith, encap_v6-NoFault, gue_encap_v6_from-NoFault)

pub decap_by-NoFault :
    (k : Kernel) (header proto : ℕ) (s : State)
    → header + 14 ≤ s.xdp.len
    → NoFault (decap_by k header proto s)
unfolding decap_by move_eth put16 put8
decap_by-NoFault k header proto s h = ground arith
