-- ===== src/Encap/Payload.antt =====
-- The encapsulation keeps the packet behind the outer headers, and the decapsulation gives it back.
use katran.Base.{ℕ, refl, zero, suc, ◌*◌, ◌+◌, ◌≤◌, ◌<◌, ◌≡◌, arith, Bool, true, some}
use katran.Xdp.{Xdp, put8, put16}
use katran.Xdp.Bytes.{behind_laws}
use katran.Structs.{Address, CtlValue, RealDefinition}
use katran.Run.{State, Run, done, exit, fault, write_bytes, memcpy, read_bytes, load16}
use katran.Run.Bounds.{Leaves}
use katran.Kernel.{Kernel, AdjustLaws}
use katran.Csum.{sum_words, ipv4_csum_inline}
use katran.Encap.Headers.{create_v4_hdr, create_v6_hdr, create_udp_hdr}
use katran.Encap.{write_eth, encap_v4, encap_v6, gue_encap_v4_from, gue_encap_v6_from}

abbrev KeepsState : {A : Type 0} → State → Run A → Type 0
KeepsState s (done a t) = t ≡ s
KeepsState s (exit a t) = ⊥
KeepsState s fault = ⊥

-- The run goes on with a packet of the same length and the same byte at `i`.
abbrev KeepsByte : {A : Type 0} → ℕ → State → Run A → Type 0
KeepsByte i s (done a t) = (t.xdp.len ≡ s.xdp.len) × (t.xdp.byte i ≡ s.xdp.byte i)
KeepsByte i s (exit a t) = ⊥
KeepsByte i s fault = ⊥

sum_words-KeepsState :
    (n i c : ℕ) (s : State) → i + 2 * n ≤ s.xdp.len → KeepsState s (sum_words n i c s)
unfolding sum_words load16
sum_words-KeepsState zero i c s h = refl
sum_words-KeepsState (suc n) i c s h = grind (arith, sum_words-KeepsState n)

ipv4_csum_inline-KeepsState :
    (iph c : ℕ) (s : State) → iph + 20 ≤ s.xdp.len → KeepsState s (ipv4_csum_inline iph c s)
unfolding ipv4_csum_inline
ipv4_csum_inline-KeepsState iph c s h = grind (arith, sum_words-KeepsState)

write_eth-KeepsByte :
    (i : ℕ) (cval : CtlValue) (old proto : ℕ) (s : State)
    → old + 14 ≤ s.xdp.len
    → 14 ≤ i
    → KeepsByte i s (write_eth cval old proto s)
unfolding write_eth put16 put8 write_bytes memcpy read_bytes
write_eth-KeepsByte i cval old proto s h le = ground arith

create_udp_hdr-KeepsByte :
    (i udph sport dport len csum : ℕ) (s : State)
    → udph + 8 ≤ s.xdp.len
    → udph + 8 ≤ i
    → KeepsByte i s (create_udp_hdr udph sport dport len csum s)
unfolding create_udp_hdr put16 put8
create_udp_hdr-KeepsByte i udph sport dport len csum s h le = ground arith

create_v6_hdr-KeepsByte :
    (i ip6h tc : ℕ) (src dst : Address) (len proto : ℕ) (s : State)
    → ip6h + 40 ≤ s.xdp.len
    → ip6h + 40 ≤ i
    → KeepsByte i s (create_v6_hdr ip6h tc src dst len proto s)
unfolding create_v6_hdr write_bytes
create_v6_hdr-KeepsByte i ip6h tc src dst len proto s h le = grind behind_laws

create_v4_hdr-KeepsByte :
    (i iph tos src dst bytes proto : ℕ) (s : State)
    → iph + 20 ≤ s.xdp.len
    → iph + 20 ≤ i
    → KeepsByte i s (create_v4_hdr iph tos src dst bytes proto s)
unfolding create_v4_hdr
create_v4_hdr-KeepsByte i iph tos src dst bytes proto s h le =
    grind (behind_laws, ipv4_csum_inline-KeepsState)

-- `y` is `x` from byte 14 on, `header` bytes further back.
abbrev pub Carries : ℕ → Xdp → Xdp → Type 0
Carries header x y =
    (y.len ≡ x.len + header) × ((i : ℕ) → 14 ≤ i → i < x.len → y.byte (header + i) ≡ x.byte i)

abbrev pub CarriesByte : ℕ → ℕ → Xdp → Bool → State → Type 0
CarriesByte i header x ok t =
    (ok ≡ true) × (t.xdp.len ≡ x.len + header) × (i < x.len → t.xdp.byte (header + i) ≡ x.byte i)

pub CarriesByte-Carries :
    (header : ℕ) (x : Xdp) (r : Run Bool)
    → ((i : ℕ) → 14 ≤ i → Leaves (CarriesByte i header x) r)
    → Leaves (λ ok t. (ok ≡ true) × Carries header x t.xdp) r
CarriesByte-Carries header x (done ok t) h =
    let at14 = h 14 (omega arith) in (at14.0, (at14.1, λ i from. (h i from).2))
CarriesByte-Carries header x (exit a t) h = h 14 (omega arith)
CarriesByte-Carries header x fault h = h 14 (omega arith)

module _ (k : Kernel) (laws : AdjustLaws k) (cval : CtlValue) (dst : RealDefinition)
    (bytes : ℕ) where
  pub encap_v4_at :
      (s : State) (y : Xdp) (i : ℕ)
      → 14 ≤ i
      → 14 ≤ s.xdp.len
      → k.adjust_head_out 20 s.xdp ≡ some y
      → Leaves (CarriesByte i 20 s.xdp) (encap_v4 k cval dst bytes s)
  unfolding encap_v4
  encap_v4_at s y i from long out =
      let len = laws.out_len 20 s.xdp y out in
      let byte = laws.out_byte 20 s.xdp y i out in
      grind (arith, write_eth-KeepsByte (20 + i), create_v4_hdr-KeepsByte (20 + i))

  pub encap_v6_at :
      (v6 : Bool) (s : State) (y : Xdp) (i : ℕ)
      → 14 ≤ i
      → 14 ≤ s.xdp.len
      → k.adjust_head_out 40 s.xdp ≡ some y
      → Leaves (CarriesByte i 40 s.xdp) (encap_v6 k cval v6 dst bytes s)
  unfolding encap_v6
  encap_v6_at v6 s y i from long out =
      let len = laws.out_len 40 s.xdp y out in
      let byte = laws.out_byte 40 s.xdp y i out in
      grind (arith, write_eth-KeepsByte (40 + i), create_v6_hdr-KeepsByte (40 + i))

  pub gue_encap_v4_from_at :
      (src : RealDefinition) (s : State) (y : Xdp) (i : ℕ)
      → 14 ≤ i
      → 14 ≤ s.xdp.len
      → k.adjust_head_out 28 s.xdp ≡ some y
      → Leaves (CarriesByte i 28 s.xdp) (gue_encap_v4_from k src cval dst bytes s)
  unfolding gue_encap_v4_from
  gue_encap_v4_from_at src s y i from long out =
      let len = laws.out_len 28 s.xdp y out in
      let byte = laws.out_byte 28 s.xdp y i out in
      grind (
        arith,
        write_eth-KeepsByte (28 + i),
        create_udp_hdr-KeepsByte (28 + i),
        create_v4_hdr-KeepsByte (28 + i),
      )

  pub gue_encap_v6_from_at :
      (src : RealDefinition) (v6 : Bool) (s : State) (y : Xdp) (i : ℕ)
      → 14 ≤ i
      → 14 ≤ s.xdp.len
      → k.adjust_head_out 48 s.xdp ≡ some y
      → Leaves (CarriesByte i 48 s.xdp) (gue_encap_v6_from k src cval v6 dst bytes s)
  unfolding gue_encap_v6_from
  gue_encap_v6_from_at src v6 s y i from long out =
      let len = laws.out_len 48 s.xdp y out in
      let byte = laws.out_byte 48 s.xdp y i out in
      grind (
        arith,
        write_eth-KeepsByte (48 + i),
        create_udp_hdr-KeepsByte (48 + i),
        create_v6_hdr-KeepsByte (48 + i),
      )
