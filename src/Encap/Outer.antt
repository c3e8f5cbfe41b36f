-- ===== src/Encap/Outer.antt =====
-- The outer IPv4 header is valid and says what the program means it to.
use katran.Base.{ℕ, ◌+◌, ◌*◌, ◌/◌, ◌%◌, ◌^◌, ◌≤◌, ◌<◌, ◌≡◌, refl, arith, bpf_htons, htons-lt}
use katran.Xdp.{Xdp, u16_at, u32_at, put8, put16, put32, IsBytes, SameOutside}
use katran.Xdp.Bytes.{put8-IsBytes, put16-IsBytes, put32-IsBytes, put_lens, u32_laws}
use katran.Run.{State, done}
use katran.Run.Bounds.{Leaves}
use katran.Csum.{csum_fold_helper}
use katran.Csum.Words.{words_sum, ipv4_csum_inline_lem}
use katran.Csum.Header.{IsChecked, put_check-IsChecked, words_sum-lt, words_sum-pos}
use katran.Encap.Headers.{create_v4_hdr}

-- `y` is `x` with an IPv4 header at `iph` that has the given fields and a valid checksum.
pub record IsOuterV4 (iph tos saddr daddr pkt_bytes proto : ℕ) (x y : Xdp) : Type 0 where
  pub version_ihl : y.byte iph ≡ 0x45
  pub tos_copied : y.byte (iph + 1) ≡ tos % 2 ^ 8
  pub tot_len : u16_at y (iph + 2) ≡ bpf_htons (pkt_bytes + 20)
  pub not_fragmented : u16_at y (iph + 6) ≡ 0
  pub ttl : y.byte (iph + 8) ≡ 64
  pub protocol : y.byte (iph + 9) ≡ proto % 2 ^ 8
  pub source : u32_at y (iph + 12) ≡ saddr % 2 ^ 32
  pub destination : u32_at y (iph + 16) ≡ daddr % 2 ^ 32
  pub checked : IsChecked y iph
  pub elsewhere : SameOutside iph (iph + 20) x y

-- The header before its checksum is filled in.
unchecked_hdr : Xdp → ℕ → ℕ → ℕ → ℕ → ℕ → ℕ → Xdp
unchecked_hdr x iph tos saddr daddr pkt_bytes proto =
    let v4 = put8 x iph (4 * 16 + x.byte iph % 16) in
    let ihl = put8 v4 iph (v4.byte iph / 16 * 16 + 5) in
    put8
      (put32
        (put32
          (put16
            (put8 (put16 (put8 (put16 ihl (iph + 6) 0) (iph + 9) proto) (iph + 10) 0) (iph + 1) tos)
            (iph + 2) (bpf_htons (pkt_bytes + 20)))
          (iph + 16) daddr)
        (iph + 12) saddr)
      (iph + 8) 64

module _ (iph tos saddr daddr pkt_bytes proto : ℕ) where
  unchecked_hdr-IsBytes :
      (x : Xdp) → IsBytes x → IsBytes (unchecked_hdr x iph tos saddr daddr pkt_bytes proto)
  unfolding unchecked_hdr
  unchecked_hdr-IsBytes x h = search (put8-IsBytes, put16-IsBytes, put32-IsBytes) depth 20

  unchecked_hdr-len : (x : Xdp) → (unchecked_hdr x iph tos saddr daddr pkt_bytes proto).len ≡ x.len
  unfolding unchecked_hdr
  unchecked_hdr-len x = simp put_lens

  create_v4_hdr_run :
      (s : State)
      → IsBytes s.xdp
      → iph + 20 ≤ s.xdp.len
      → let x = unchecked_hdr s.xdp iph tos saddr daddr pkt_bytes proto in
        create_v4_hdr iph tos saddr daddr pkt_bytes proto s
        ≡ done tt (record s { xdp = put16 x (iph + 10) (csum_fold_helper (words_sum 10 x iph)) })
  unfolding create_v4_hdr unchecked_hdr
  create_v4_hdr_run s h b =
      let x = unchecked_hdr s.xdp iph tos saddr daddr pkt_bytes proto in
      let small : words_sum 10 x iph < 655360 =
        words_sum-lt x iph (unchecked_hdr-IsBytes s.xdp h) in
      let len : x.len ≡ s.xdp.len = unchecked_hdr-len s.xdp in
      grind (arith, put_lens, ipv4_csum_inline_lem iph (record s { xdp = x }))

  unchecked_hdr_facts :
      (x : Xdp)
      → let y = unchecked_hdr x iph tos saddr daddr pkt_bytes proto in
        (y.byte iph ≡ 0x45) × (u16_at y (iph + 10) ≡ 0)
  unfolding unchecked_hdr put8 put16 put32 u16_at
  unchecked_hdr_facts x = ground arith

  hdr_saddr :
      (x : Xdp) (check : ℕ)
      → u32_at
          (put16 (unchecked_hdr x iph tos saddr daddr pkt_bytes proto) (iph + 10) check)
          (iph + 12)
        ≡ saddr % 2 ^ 32
  unfolding unchecked_hdr
  hdr_saddr x check = grind u32_laws

  hdr_daddr :
      (x : Xdp) (check : ℕ)
      → u32_at
          (put16 (unchecked_hdr x iph tos saddr daddr pkt_bytes proto) (iph + 10) check)
          (iph + 16)
        ≡ daddr % 2 ^ 32
  unfolding unchecked_hdr
  hdr_daddr x check = grind u32_laws

  -- The fields of the finished header.
  hdr_fields :
      (x : Xdp) (check : ℕ)
      → let y = put16 (unchecked_hdr x iph tos saddr daddr pkt_bytes proto) (iph + 10) check in
        (y.byte iph ≡ 0x45)
        × (y.byte (iph + 1) ≡ tos % 2 ^ 8)
        × (u16_at y (iph + 2) ≡ bpf_htons (pkt_bytes + 20))
        × (u16_at y (iph + 6) ≡ 0)
        × (y.byte (iph + 8) ≡ 64)
        × (y.byte (iph + 9) ≡ proto % 2 ^ 8)
        × (u32_at y (iph + 12) ≡ saddr % 2 ^ 32)
        × (u32_at y (iph + 16) ≡ daddr % 2 ^ 32)
  unfolding unchecked_hdr put8 put16 put32 u16_at u32_at
  hdr_fields x check = (
    ground arith,
    ground arith,
    ground (arith, htons-lt (pkt_bytes + 20)),
    ground arith,
    ground arith,
    ground arith,
    hdr_saddr x check,
    hdr_daddr x check,
  )

  hdr_outside :
      (x : Xdp) (check : ℕ)
      → SameOutside iph
          (iph + 20)
          x
          (put16 (unchecked_hdr x iph tos saddr daddr pkt_bytes proto) (iph + 10) check)
  unfolding unchecked_hdr put8 put16 put32
  hdr_outside x check = record {
    same_len = refl;
    same_before = λ i h. ground arith;
    same_after = λ i h. ground arith;
  }

  abbrev hdr : Xdp → Xdp
  hdr x =
      let y = unchecked_hdr x iph tos saddr daddr pkt_bytes proto in
      put16 y (iph + 10) (csum_fold_helper (words_sum 10 y iph))

  hdr-IsOuterV4 : (x : Xdp) → IsBytes x → IsOuterV4 iph tos saddr daddr pkt_bytes proto x (hdr x)
  hdr-IsOuterV4 x h =
      let y = unchecked_hdr x iph tos saddr daddr pkt_bytes proto in
      let check = csum_fold_helper (words_sum 10 y iph) in
      let facts = unchecked_hdr_facts x in
      let (f0, f1, f2, f3, f4, f5, f6, f7) = hdr_fields x check in
      record {
        version_ihl = f0;
        tos_copied = f1;
        tot_len = f2;
        not_fragmented = f3;
        ttl = f4;
        protocol = f5;
        source = f6;
        destination = f7;
        checked =
            put_check-IsChecked y iph (unchecked_hdr-IsBytes x h) facts.1
              (words_sum-pos y iph (omega (arith, facts.0)));
        elsewhere = hdr_outside x check;
      }

  -- On a packet of bytes that has room for it, `create_v4_hdr` writes a header with the fields that
  -- it is given and a valid checksum, and changes nothing else.
  pub create_v4_hdr-IsOuterV4 :
      (s : State)
      → IsBytes s.xdp
      → iph + 20 ≤ s.xdp.len
      → Leaves
          (λ _ s'. IsOuterV4 iph tos saddr daddr pkt_bytes proto s.xdp s'.xdp)
          (create_v4_hdr iph tos saddr daddr pkt_bytes proto s)
  create_v4_hdr-IsOuterV4 s h b = rw (create_v4_hdr_run s h b) (hdr-IsOuterV4 s.xdp h)
