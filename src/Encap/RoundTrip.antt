-- ===== src/Encap/RoundTrip.antt =====
-- katran/lib/bpf/pckt_encap.h: what a sender of the balancer puts on, the decapsulation takes off.
use katran.Base.{
  not, ℕ, ◌+◌, ◌^◌, ◌≤◌, ◌<◌, ◌≡◌, ◌≢◌, arith, Bool, true, Bool-cases, inl, inr, none, some,
  if◌then◌else◌,
}
use katran.Consts.{be_eth_p_ip, be_eth_p_ipv6, Config, v4_src_index, v6_src_index}
use katran.Xdp.{Xdp}
use katran.Structs.{CtlValue, RealDefinition}
use katran.Run.{State, Prog, ◌>>◌}
use katran.Run.Bounds.{Leaves, Leaves-bind}
use katran.Kernel.{Kernel, AdjustLaws}
use katran.Encap.{
  decap_v4, decap_v6, gue_encap_v4, gue_encap_v6, gue_decap_v4, gue_decap_v6, pckt_encap_v4,
  pckt_encap_v6,
}
use katran.Encap.Payload.{
  Carries, CarriesByte-Carries, encap_v4_at, encap_v6_at, gue_encap_v4_from_at,
  gue_encap_v6_from_at,
}
use katran.Encap.Taken.{GivesBack, option_cases, decap_by-GivesBack}

-- What the decapsulation of an IPv6 packet writes as EtherType.
abbrev pub inner_type : Bool → ℕ
inner_type v6 = if not v6 then be_eth_p_ip else be_eth_p_ipv6

inner_type-lt : (v6 : Bool) → inner_type v6 < 2 ^ 16
inner_type-lt v6 = ground arith

module _ (k : Kernel) (laws : AdjustLaws k) where
  module _ (c : Config) (cval : CtlValue) (dst : RealDefinition) (bytes : ℕ) where
    -- The size of the outer headers.
    abbrev pub outer_size : ℕ → ℕ
    outer_size ip_size = if c.gue_encap then ip_size + 8 else ip_size

    -- In both builds, IPIP and GUE: if the kernel makes room for the outer headers, and the map of the
    -- source addresses has an entry where GUE needs it, the encapsulation for an IPv4 real succeeds,
    -- and the packet from byte 14 on stands unchanged behind the outer headers.
    pub pckt_encap_v4-Carries :
        (s : State) (y : Xdp)
        → 14 ≤ s.xdp.len
        → k.adjust_head_out (outer_size 20) s.xdp ≡ some y
        → (c.gue_encap ≡ true → s.maps.pckt_srcs v4_src_index ≢ none)
        → Leaves
            (λ ok t. (ok ≡ true) × Carries (outer_size 20) s.xdp t.xdp)
            (pckt_encap_v4 k c cval dst bytes s)
    unfolding pckt_encap_v4 gue_encap_v4
    pckt_encap_v4-Carries s y long out src = elim (Bool-cases c.gue_encap) [
      | inl e ↦ rw e (elim (option_cases (s.maps.pckt_srcs v4_src_index)) [
        | inl null ↦ absurd (src e null)
        | inr (a, found) ↦ rw found (
            CarriesByte-Carries 28 s.xdp _
              λ i from. gue_encap_v4_from_at k laws cval dst bytes a s y i from long (rw e at out))
      ])
      | inr e ↦ rw e (
          CarriesByte-Carries 20 s.xdp _
            λ i from. encap_v4_at k laws cval dst bytes s y i from long (rw e at out))
    ]

    -- In both builds, if the kernel makes room for the outer headers, and the map of the source
    -- addresses has an entry where GUE needs it, the encapsulation for an IPv6 real succeeds, and the
    -- packet from byte 14 on, of either IP version, stands unchanged behind the outer headers.
    pub pckt_encap_v6-Carries :
        (v6 : Bool) (s : State) (y : Xdp)
        → 14 ≤ s.xdp.len
        → k.adjust_head_out (outer_size 40) s.xdp ≡ some y
        → (c.gue_encap ≡ true → s.maps.pckt_srcs v6_src_index ≢ none)
        → Leaves
            (λ ok t. (ok ≡ true) × Carries (outer_size 40) s.xdp t.xdp)
            (pckt_encap_v6 k c cval v6 dst bytes s)
    unfolding pckt_encap_v6 gue_encap_v6
    pckt_encap_v6-Carries v6 s y long out src = elim (Bool-cases c.gue_encap) [
      | inl e ↦ rw e (elim (option_cases (s.maps.pckt_srcs v6_src_index)) [
        | inl null ↦ absurd (src e null)
        | inr (a, found) ↦ rw found (
            CarriesByte-Carries 48 s.xdp _ λ i from.
              gue_encap_v6_from_at k laws cval dst bytes a v6 s y i from long (rw e at out))
      ])
      | inr e ↦ rw e (
          CarriesByte-Carries 40 s.xdp _
            λ i from. encap_v6_at k laws cval dst bytes v6 s y i from long (rw e at out))
    ]

    -- Encapsulation for an IPv4 real, then the decapsulation of the same build.
    abbrev pub there_and_back_v4 : Prog Bool
    there_and_back_v4 =
        pckt_encap_v4 k c cval dst bytes >> (if c.gue_encap then gue_decap_v4 k else decap_v4 k)

    -- In both builds, if the kernel moves the front of the packet as documented and refuses neither
    -- move, and GUE has its source address: encapsulation for an IPv4 real and decapsulation both succeed and give back the packet
    -- from byte 14 on, at its length, with the EtherType of IPv4.
    pub decap-encap_v4 :
        (s : State) (y : Xdp)
        → 14 ≤ s.xdp.len
        → k.adjust_head_out (outer_size 20) s.xdp ≡ some y
        → (c.gue_encap ≡ true → s.maps.pckt_srcs v4_src_index ≢ none)
        → ((z : Xdp)
            → z.len ≡ s.xdp.len + outer_size 20
            → k.adjust_head_in (outer_size 20) z ≢ none)
        → Leaves (λ ok t. (ok ≡ true) × GivesBack be_eth_p_ip s.xdp t.xdp) (there_and_back_v4 s)
    unfolding decap_v4 gue_decap_v4
    decap-encap_v4 s y long out src moves =
        Leaves-bind _ (λ ok t. (ok ≡ true) × GivesBack be_eth_p_ip s.xdp t.xdp) _
          (λ _. if c.gue_encap then gue_decap_v4 k else decap_v4 k)
          (pckt_encap_v4-Carries s y long out src)
          λ _ t h. elim (Bool-cases c.gue_encap) [
            | inl e ↦ rw e (
                decap_by-GivesBack k laws 28 be_eth_p_ip s.xdp t long (omega arith) (rw e at h.1)
                  (rw e at moves))
            | inr e ↦ rw e (
                decap_by-GivesBack k laws 20 be_eth_p_ip s.xdp t long (omega arith) (rw e at h.1)
                  (rw e at moves))
          ]

    -- Encapsulation for an IPv6 real, then the decapsulation of the same build.
    abbrev pub there_and_back_v6 : Bool → Prog Bool
    there_and_back_v6 v6 =
        pckt_encap_v6 k c cval v6 dst bytes
        >> (if c.gue_encap then gue_decap_v6 k (not v6) else decap_v6 k (not v6))

    -- In both builds, if the kernel moves the front of the packet as documented and refuses neither
    -- move, and GUE has its source address: encapsulation for an IPv6 real and decapsulation both
    -- succeed and give back the packet from byte 14 on, at its length, with the EtherType of its IP
    -- version.
    pub decap-encap_v6 :
        (v6 : Bool) (s : State) (y : Xdp)
        → 14 ≤ s.xdp.len
        → k.adjust_head_out (outer_size 40) s.xdp ≡ some y
        → (c.gue_encap ≡ true → s.maps.pckt_srcs v6_src_index ≢ none)
        → ((z : Xdp)
            → z.len ≡ s.xdp.len + outer_size 40
            → k.adjust_head_in (outer_size 40) z ≢ none)
        → Leaves
            (λ ok t. (ok ≡ true) × GivesBack (inner_type v6) s.xdp t.xdp)
            (there_and_back_v6 v6 s)
    unfolding decap_v6 gue_decap_v6
    decap-encap_v6 v6 s y long out src moves =
        Leaves-bind _ (λ ok t. (ok ≡ true) × GivesBack (inner_type v6) s.xdp t.xdp) _
          (λ _. if c.gue_encap then gue_decap_v6 k (not v6) else decap_v6 k (not v6))
          (pckt_encap_v6-Carries v6 s y long out src)
          λ _ t h. elim (Bool-cases c.gue_encap) [
            | inl e ↦ rw e (
                decap_by-GivesBack k laws 48 (inner_type v6) s.xdp t long (inner_type-lt v6)
                  (rw e at h.1) (rw e at moves))
            | inr e ↦ rw e (
                decap_by-GivesBack k laws 40 (inner_type v6) s.xdp t long (inner_type-lt v6)
                  (rw e at h.1) (rw e at moves))
          ]
