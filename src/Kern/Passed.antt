-- ===== src/Kern/Passed.antt =====
-- What a packet that is left to the host has gone through: katran/lib/bpf/balancer_kern.c and the
-- stages it calls.
use katran.Base.{true, ◌==◌, ◌⊎◌, Bool-cases, inl, inr, refl, ℕ, ◌≡◌, arith, Bool, false}
use katran.Consts.{be_eth_p_ip, be_eth_p_ipv6, Config}
use katran.Xdp.{Xdp}
use katran.Run.{Action, pass, Maps, State, Run, done, exit, fault, and_then, load8, load16}
use katran.Xdp.Layout.{eth_hdr_size}
use katran.Kernel.{Kernel}
use katran.Icmp.{parse_icmp, parse_icmpv6}
use katran.Parsing.{parse_tcp, parse_udp}
use katran.Kern.L3.{l3_v4, l3_v6, process_l3_headers}
use katran.Kern.Process.{
  by_eth_proto, balancer_ingress, find_vip, inline_ipip, inline_gue, parse_l4, process_packet,
}
use katran.Consts.{lru_cntrs}
use katran.Kern.Stats.{own, need_stats}
use katran.Run.NoPass.{NoPass-bind, NoPassExit, NoPass, NoPass-bind}
use katran.Icmp.NoPass.{send_icmp_reply-NoPass, send_icmp6_reply-NoPass}
use katran.Kern.NoPass.{check_size-NoPassExit, route-NoPassExit, send-NoPass}

-- The packet is `x` and the maps are `m` where the run goes on, and where it ends with `pass`.
abbrev Untouched : {A : Type 0} → Xdp → Maps → Run A → Type 0
Untouched x m (done a s) = (s.xdp ≡ x) × (s.maps ≡ m)
Untouched x m (exit a s) = a ≡ pass → (s.xdp ≡ x) × (s.maps ≡ m)
Untouched x m fault = Unit {0}

-- A run that gives or ends with `pass` leaves the packet `x` and the maps `m`.
abbrev Kept : Xdp → Maps → Run Action → Type 0
Kept x m (done a s) = a ≡ pass → (s.xdp ≡ x) × (s.maps ≡ m)
Kept x m (exit a s) = a ≡ pass → (s.xdp ≡ x) × (s.maps ≡ m)
Kept x m fault = Unit {0}

Untouched-bind :
    {A : Type 0} (x : Xdp) (m : Maps) (r : Run A) (f : A → State → Run Action)
    → Untouched x m r
    → ((a : A) (s : State) → s.xdp ≡ x → s.maps ≡ m → Kept x m (f a s))
    → Kept x m (and_then r f)
Untouched-bind x m (done a s) f (p, q) rest = rest a s p q
Untouched-bind x m (exit a s) f h rest = h
Untouched-bind x m fault f h rest = tt

NoPass-Kept : (x : Xdp) (m : Maps) (r : Run Action) → NoPass r → Kept x m r
NoPass-Kept x m (done a s) h = λ e. absurd (h e)
NoPass-Kept x m (exit a s) h = λ e. absurd (h e)
NoPass-Kept x m fault h = tt

process_l3_headers-Untouched :
    (off : ℕ) (v6 : Bool) (s : State) → Untouched s.xdp s.maps (process_l3_headers off v6 s)
unfolding process_l3_headers l3_v4 l3_v6 parse_icmp parse_icmpv6
process_l3_headers-Untouched off v6 s =
    grind (arith, send_icmp_reply-NoPass, send_icmp6_reply-NoPass)

parse_tcp-Untouched : (v6 : Bool) (s : State) → Untouched s.xdp s.maps (parse_tcp v6 s)
unfolding parse_tcp load8 load16
parse_tcp-Untouched v6 s = ground arith

parse_udp-Untouched : (v6 : Bool) (s : State) → Untouched s.xdp s.maps (parse_udp v6 s)
unfolding parse_udp load8 load16
parse_udp-Untouched v6 s = ground arith

module _ (c : Config) (k : Kernel) where
  parse_l4-Untouched :
      (x : Xdp) (m : Maps) (v6 : Bool) (s : State)
      → c.inline_decap_gue ≡ false
      → s.xdp ≡ x
      → s.maps ≡ m
      → Untouched x m (parse_l4 c k v6 s)
  unfolding parse_l4 inline_gue
  parse_l4-Untouched x m v6 s off ex em = grind (arith, parse_tcp-Untouched, parse_udp-Untouched)

  inline_ipip-Untouched :
      (x : Xdp) (m : Maps) (v6 : Bool) (s : State)
      → c.inline_decap_ipip ≡ false
      → s.xdp ≡ x
      → s.maps ≡ m
      → Untouched x m (inline_ipip c k v6 s)
  unfolding inline_ipip
  inline_ipip-Untouched x m v6 s off ex em = ground arith

  find_vip-Untouched :
      (x : Xdp) (m : Maps) (v6 : Bool) (s : State)
      → s.xdp ≡ x
      → s.maps ≡ m
      → Untouched x m (find_vip v6 s)
  unfolding find_vip
  find_vip-Untouched x m v6 s ex em = ground arith

  need_lru_cntrs-NoPassExit : (s : State) → NoPassExit (need_stats (own lru_cntrs) s)
  need_lru_cntrs-NoPassExit s = ground arith

  process_packet-Kept :
      (off : ℕ) (v6 : Bool) (s : State)
      → c.inline_decap_ipip ≡ false
      → c.inline_decap_gue ≡ false
      → Kept s.xdp s.maps (process_packet c k off v6 s)
  unfolding process_packet
  process_packet-Kept off v6 s ipip gue =
      let x = s.xdp in
      let m = s.maps in
      Untouched-bind x m _ _ (process_l3_headers-Untouched off v6 _) λ bytes s1 x1 m1.
        Untouched-bind x m _ _ (inline_ipip-Untouched x m v6 s1 ipip x1 m1) λ _ s2 x2 m2.
          Untouched-bind x m _ _ (parse_l4-Untouched x m v6 s2 gue x2 m2) λ _ s3 x3 m3.
            Untouched-bind x m _ _ (find_vip-Untouched x m v6 s3 x3 m3) λ vip s4 x4 m4.
              NoPass-Kept x m _ (
                search
                  (
                    NoPass-bind, check_size-NoPassExit, need_lru_cntrs-NoPassExit, route-NoPassExit,
                    send-NoPass,
                  )
                  depth 20)

  by_eth_proto-Kept :
      (proto : ℕ) (s : State)
      → c.inline_decap_ipip ≡ false
      → c.inline_decap_gue ≡ false
      → Kept s.xdp s.maps (by_eth_proto c k proto s)
  unfolding by_eth_proto
  by_eth_proto-Kept proto s ipip gue = elim (Bool-cases (proto == be_eth_p_ip)) [
    | inl e ↦ rw e (process_packet-Kept eth_hdr_size false s ipip gue)
    | inr n ↦ elim (Bool-cases (proto == be_eth_p_ipv6)) [
      | inl e ↦ rw (n, e) (process_packet-Kept eth_hdr_size true s ipip gue)
      | inr e ↦ rw (n, e) λ _. (refl, refl)
    ]
  ]

  balancer_ingress-Kept :
      (s : State)
      → c.inline_decap_ipip ≡ false
      → c.inline_decap_gue ≡ false
      → Kept s.xdp s.maps (balancer_ingress c k s)
  unfolding balancer_ingress load16
  balancer_ingress-Kept s ipip gue = grind (arith, by_eth_proto-Kept)

  -- In a build without inline decapsulation, a packet for which the program answers XDP_PASS goes on
  -- to the host as it came, and the run has changed no map.
  pub balancer_ingress_pass :
      (s t : State)
      → c.inline_decap_ipip ≡ false
      → c.inline_decap_gue ≡ false
      → (balancer_ingress c k s ≡ done pass t) ⊎ (balancer_ingress c k s ≡ exit pass t)
      → (t.xdp ≡ s.xdp) × (t.maps ≡ s.maps)
  balancer_ingress_pass s t ipip gue passed =
      passes_on (balancer_ingress c k s) (balancer_ingress-Kept s ipip gue) passed
    where
      passes_on :
          (r : Run Action)
          → Kept s.xdp s.maps r
          → (r ≡ done pass t) ⊎ (r ≡ exit pass t)
          → (t.xdp ≡ s.xdp) × (t.maps ≡ s.maps)
      passes_on r kept (inl e) = (rw e at kept) refl
      passes_on r kept (inr e) = (rw e at kept) refl
