-- ===== src/Tests/Forwarding.antt =====
-- The theorems on whole packets at concrete inputs.
use katran.Structs.{zero_address}
use katran.Encap.Headers.{create_v6_hdr}
use katran.Kern.TrafficClass.{tos_v6-create_v6_hdr}
use katran.Kern.L3.{tos_v6}
use katran.Base.{true, Option, ℕ, inr, ◌≡◌, refl, arith, none, some, false}
use katran.Run.{State}
use katran.Run.Bounds.{Leaves}
use katran.Xdp.{u16_at, u32_at}
use katran.Parsing.{calc_offset}
use katran.Kern.{balancer_ingress}
use katran.Kern.Passed.{balancer_ingress_pass}
use katran.Run.{load8, load16, load32}
use katran.Parsing.{parse_udp}
use katran.Kern.L3.{l3_v4, process_l3_headers}
use katran.Kern.Process.{find_vip, inline_ipip, inline_gue, parse_l4, process_packet, by_eth_proto}
use katran.Xdp.{Xdp}
use katran.Kernel.{AdjustLaws}
use katran.Encap.{pckt_encap_v4, pckt_encap_v6}
use katran.Encap.Payload.{Carries}
use katran.Encap.Taken.{GivesBack}
use katran.Encap.RoundTrip.{
  pckt_encap_v4-Carries, pckt_encap_v6-Carries, decap-encap_v4, decap-encap_v6, there_and_back_v4,
  there_and_back_v6,
}
use katran.Tests.Fixtures.{
  gue_config, source_state, maps, plain_config, kernel, config, syn_packet, quic_short_bytes, state,
  packet, real, state_of,
}

kernel-AdjustLaws : AdjustLaws kernel
kernel-AdjustLaws = record {
  out_len = λ n x y e. ground arith;
  out_byte = λ n x y i e lt. ground arith;
  in_len = λ n x y e. ground arith;
  in_byte = λ n x y i e lt. ground arith;
  tail_len = λ n x y e. ground arith;
  tail_byte = λ n x y i e lt. ground arith;
}

abbrev passed : State
passed = state_of (balancer_ingress plain_config kernel (state (packet quic_short_bytes)))

balancer_ingress_pass_example : (passed.xdp ≡ packet quic_short_bytes) × (passed.maps ≡ maps)
unfolding balancer_ingress by_eth_proto process_packet process_l3_headers l3_v4 inline_ipip parse_l4
    parse_udp inline_gue calc_offset find_vip load8 load16 load32 u16_at u32_at
balancer_ingress_pass_example =
    balancer_ingress_pass plain_config kernel (state (packet quic_short_bytes)) passed refl refl
      (inr refl)

abbrev with_room : ℕ → Xdp
with_room n = or_syn (kernel.adjust_head_out n syn_packet)
  where
    or_syn : Option Xdp → Xdp
    or_syn none = syn_packet
    or_syn (some x) = x

pckt_encap_v4-Carries_example :
    Leaves
      (λ ok t. (ok ≡ true) × Carries 20 syn_packet t.xdp)
      (pckt_encap_v4 kernel config (record { value = 0x060504030201 }) real 40 (state syn_packet))
pckt_encap_v4-Carries_example =
    pckt_encap_v4-Carries kernel kernel-AdjustLaws config (record { value = 0x060504030201 }) real
      40 (state syn_packet) (with_room 20) (omega arith) refl (λ gue. ground arith)

decap-encap_v4_example :
    Leaves
      (λ ok t. (ok ≡ true) × GivesBack 8 syn_packet t.xdp)
      (there_and_back_v4 kernel kernel-AdjustLaws config
        (record { value = 0x060504030201 })
        real
        40
        (state syn_packet))
decap-encap_v4_example =
    decap-encap_v4 kernel kernel-AdjustLaws config (record { value = 0x060504030201 }) real 40
      (state syn_packet) (with_room 20) (omega arith) refl (λ gue. ground arith)
      (λ z len. ground arith)

pckt_encap_v6-Carries_example :
    Leaves
      (λ ok t. (ok ≡ true) × Carries 48 syn_packet t.xdp)
      (pckt_encap_v6 kernel gue_config
        (record { value = 0x060504030201 })
        false
        real
        40
        source_state)
pckt_encap_v6-Carries_example =
    pckt_encap_v6-Carries kernel kernel-AdjustLaws gue_config (record { value = 0x060504030201 })
      real 40 false source_state (with_room 48) (omega arith) refl (λ gue. ground arith)

decap-encap_v6_example :
    Leaves
      (λ ok t. (ok ≡ true) × GivesBack 8 syn_packet t.xdp)
      (there_and_back_v6 kernel kernel-AdjustLaws gue_config
        (record { value = 0x060504030201 })
        real
        40
        false
        source_state)
decap-encap_v6_example =
    decap-encap_v6 kernel kernel-AdjustLaws gue_config (record { value = 0x060504030201 }) real 40
      false source_state (with_room 48) (omega arith) refl (λ gue. ground arith)
      (λ z len. ground arith)

tos_v6-create_v6_hdr_example :
    Leaves
      (λ _ t. tos_v6 (t.xdp.byte 14) (t.xdp.byte 15) ≡ 0xb8)
      (create_v6_hdr 14 0xb8 zero_address zero_address 40 4 (state syn_packet))
tos_v6-create_v6_hdr_example =
    tos_v6-create_v6_hdr 14 0xb8 zero_address zero_address 40 4 (state syn_packet) (omega arith)
      (omega arith)
