-- ===== src/Kern/TrafficClass.antt =====
-- The traffic class of IPv6: read by process_l3_headers of katran/lib/bpf/balancer_kern.c, written by
-- create_v6_hdr of katran/lib/bpf/encap_helpers.h.
use katran.Base.{
  ◌<<<◌, ◌>>>◌, ℕ, ◌+◌, ◌*◌, ◌/◌, ◌%◌, ◌≤◌, ◌<◌, ◌≡◌, arith, bit_and, bit_or_fields, bit_and_mask,
  bit_and_high_half,
}
use katran.Xdp.Bytes.{front_laws}
use katran.Structs.{Address}
use katran.Run.{State, write_bytes}
use katran.Run.Bounds.{Leaves, Leaves-mono}
use katran.Encap.Headers.{create_v6_hdr}
use katran.Kern.L3.{tos_v6}

-- The traffic class is the lower half of byte 0 and the upper half of byte 1.
tos_v6-eq : (b0 b1 : ℕ) → b1 < 256 → tos_v6 b0 b1 ≡ b0 % 16 * 16 + b1 / 16
unfolding tos_v6
tos_v6-eq b0 b1 h =
    let high : bit_and ((b0 % 16) <<< 4) 0xf0 ≡ (b0 % 16) <<< 4 =
      omega (arith, bit_and_high_half ((b0 % 16) <<< 4)) in
    let low : bit_and (b1 >>> 4) 0x0f ≡ b1 >>> 4 = omega (arith, bit_and_mask 4 (b1 >>> 4)) in
    rw (high, low) (omega (arith, bit_or_fields 4 (b0 % 16) (b1 >>> 4)))

class_bytes :
    (ip6h tc : ℕ) (src dst : Address) (len proto : ℕ) (s : State)
    → tc < 256
    → ip6h + 40 ≤ s.xdp.len
    → Leaves
        (λ _ t. (t.xdp.byte ip6h ≡ 96 + tc / 16) × (t.xdp.byte (ip6h + 1) ≡ tc % 16 * 16))
        (create_v6_hdr ip6h tc src dst len proto s)
unfolding create_v6_hdr write_bytes
class_bytes ip6h tc src dst len proto s small long =
    grind (front_laws, bit_and_high_half tc, bit_and_mask 4 tc)

-- A byte given to create_v6_hdr as the traffic class is what process_l3_headers reads as the class
-- of the header that it writes.
pub tos_v6-create_v6_hdr :
    (ip6h tc : ℕ) (src dst : Address) (len proto : ℕ) (s : State)
    → tc < 256
    → ip6h + 40 ≤ s.xdp.len
    → Leaves
        (λ _ t. tos_v6 (t.xdp.byte ip6h) (t.xdp.byte (ip6h + 1)) ≡ tc)
        (create_v6_hdr ip6h tc src dst len proto s)
tos_v6-create_v6_hdr ip6h tc src dst len proto s small long =
    Leaves-mono _ (λ _ t. tos_v6 (t.xdp.byte ip6h) (t.xdp.byte (ip6h + 1)) ≡ tc) _
      (class_bytes ip6h tc src dst len proto s small long)
      λ _ t h. rw (h.0, h.1) (omega (arith, tos_v6-eq (96 + tc / 16) (tc % 16 * 16)))
