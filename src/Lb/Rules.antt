-- ===== src/Lb/Rules.antt =====
-- The source routing rules (katran/lib/KatranLb.cpp) keep the invariant of the reals.
use katran.Base.{
  ℕ, suc, ◌+◌, ◌^◌, ◌≤◌, ◌<◌, ◌≡◌, refl, sym, ap, ◌∙◌, true, false, if◌then◌else◌, if-elim,
  if-cases, ◌==◌, ==-refl, ltb, one_if, count, total, arith,
}
use katran.Base.{inl, inr, Option, List, [], ◌∷◌, ◌++◌, write, total-write_le}
use katran.Lb.{Lb, Env, IpAddress, Network, Text, update_lpm_src, parse_addr_to_be}
use katran.Lb.Keys.{network_key}
use katran.Lb.Reals.{bpf, validate_address, increase_ref_count_for_real}
use katran.Lb.Vips.{is_invalid, address_or}
use katran.Lb.Sources.{
  size, Gathered, gather, is_network, network_or, add_rules, add_lpm_src_rule,
  add_src_routing_networks, add_src_routing_rule, no_src_routing,
}
use katran.Lb.Counts.{Same, validate-Same}
use katran.Lb.Counts.Increase.{increase-Increased, increase-Rest, unless-Same}
use katran.Lb.Claims.{
  Inv, Inv-from, Inv-more, Inv-Same, claims, claims_of, quic_claims, quic_claims_of, rule_claims,
}
use katran.Lb.Install.{Same-refl, Same-trans}

module _ (env : Env) where
  -- One rule more: the number that the real has been given is referred to once more.
  rule-Inv :
      (n : ℕ) (src : Network) (dst : IpAddress) (s : Lb)
      → suc n < 2 ^ 32
      → Inv env n s
      → let r = increase_ref_count_for_real env dst s in
        let u = record r.0 { lpm_src_mapping = write network_key r.0.lpm_src_mapping src r.1 } in
        (Inv env (suc n) r.0) × ((r.1 == env.config.max_reals) ≡ false → Inv env (suc n) u)
  rule-Inv n src dst s l x =
      let r = increase_ref_count_for_real env dst s in
      let u = record r.0 { lpm_src_mapping = write network_key r.0.lpm_src_mapping src r.1 } in
      let e = increase-Rest env dst s in
      let more : (k : ℕ)
          → total (rule_claims k) (write network_key r.0.lpm_src_mapping src r.1)
            ≤ total (rule_claims k) r.0.lpm_src_mapping + one_if (r.1 == k) =
        λ k. total-write_le network_key (rule_claims k) r.0.lpm_src_mapping src r.1 in
      let same_claims : (k : ℕ) → claims r.0 k ≡ claims s k = λ k.
        ap (λ v. claims_of v r.0.lpm_src_mapping k) e.vips ∙ ap (λ m. claims_of s.vips m k) e.lpm in
      let same_quic : (a : IpAddress) → quic_claims r.0 a ≡ quic_claims s a =
        λ a. ap (λ m. quic_claims_of m a) e.quic in
      elim (increase-Increased env n (claims s) (quic_claims s) dst s l x) [
        | inl (h, t) ↦ (
          Inv-from env (suc n) (suc n) (claims s) (quic_claims s) r.0 (omega arith)
              (λ k. omega (arith, same_claims k)) (λ a. omega (arith, same_quic a)) t,
          λ f.
              let absurd : true ≡ false =
                sym (ap (λ y. y == env.config.max_reals) h ∙ ==-refl env.config.max_reals) ∙ f in
              grind (arith, absurd),
        )
        | inr (h, f) ↦ (
          Inv-from env (suc n) (suc n) (claims s) (quic_claims s) r.0 (omega arith)
              (λ k. omega (arith, same_claims k)) (λ a. omega (arith, same_quic a))
              (f (claims s) (quic_claims s)
                (record { numbers = λ j g. omega arith; addresses = λ b g. omega arith })
                (omega arith)),
          λ g.
              Inv-from env (suc n) (suc n) (λ k. claims s k + one_if (r.1 == k)) (quic_claims s) u
                (omega arith) (λ k. omega (arith, same_claims k, more k))
                (λ a. omega (arith, same_quic a))
                (f (λ k. claims s k + one_if (r.1 == k)) (quic_claims s)
                  (record {
                    numbers = λ j g. omega (arith, ap one_if g);
                    addresses = λ b g. omega arith;
                  })
                  (omega (arith, ap one_if (==-refl r.1)))),
        )
      ]

  pub add_rules-Inv :
      (n : ℕ) (srcs : List Network) (dst : IpAddress) (s : Lb)
      → n + size srcs < 2 ^ 32
      → Inv env n s
      → Inv env (n + size srcs) (add_rules env srcs dst s).0
  unfolding add_rules size add_lpm_src_rule
  add_rules-Inv n [] dst s l x = Inv-more env n (n + 0) s (omega arith) x
  add_rules-Inv n (src ∷ srcs) dst s l x =
      let r = increase_ref_count_for_real env dst s in
      let u = record r.0 { lpm_src_mapping = write network_key r.0.lpm_src_mapping src r.1 } in
      let call = update_lpm_src (parse_addr_to_be src.base) src.prefix r.1 in
      let w = if env.config.testing then u else (bpf env call u).0 in
      let (one, two) = rule-Inv n src dst s (omega arith) x in
      if-elim (λ (p : Lb × Option ℕ). Inv env (n + suc (size srcs)) p.0)
        (ltb env.config.max_lpm_src_size (suc (size s.lpm_src_mapping)))
        (Inv-more env n (n + suc (size srcs)) s (omega arith) x)
        (if-cases (λ (p : Lb × Option ℕ). Inv env (n + suc (size srcs)) p.0)
          (r.1 == env.config.max_reals)
          (λ h. Inv-more env (suc n) (n + suc (size srcs)) r.0 (omega arith) one)
          (λ h.
            Inv-more env (suc n + size srcs) (n + suc (size srcs)) (add_rules env srcs dst w).0
              (omega arith)
              (add_rules-Inv (suc n) srcs dst w (omega arith)
                (Inv-Same env (suc n) u w (unless-Same env.config.testing env call u) (two h)))))

  pub add_networks-Inv :
      (n : ℕ) (srcs : List Network) (dst : Text) (s : Lb)
      → n + size srcs < 2 ^ 32
      → Inv env n s
      → Inv env (n + size srcs) (add_src_routing_networks env srcs dst s).0
  unfolding add_src_routing_networks
  add_networks-Inv n srcs dst s l x =
      let P : Lb × Option ℕ → Type 0 = λ p. Inv env (n + size srcs) p.0 in
      let kept = Inv-more env n (n + size srcs) s (omega arith) x in
      let t = validate_address env dst false s in
      let y = Inv-Same env n s t.0 (validate-Same env dst false s) x in
      if-elim P env.config.disable_forwarding kept (
        if-elim P (no_src_routing env s) kept (
          if-elim P (is_invalid t.1) (Inv-more env n (n + size srcs) t.0 (omega arith) y)
            (add_rules-Inv n srcs (address_or (env.parse dst)) t.0 l y)))

  -- The loop over the texts changes counters only, and gathers no more networks than there are texts.
  gather-Same :
      (count : ℕ) (srcs : List Text) (g : Gathered) → Same g.state (gather env count srcs g).state
  unfolding gather
  gather-Same count [] g = Same-refl g.state
  gather-Same count (src ∷ srcs) g =
      let P : Gathered → Type 0 = λ h. Same g.state h.state in
      let t = validate_address env src true g.state in
      let e = validate-Same env src true g.state in
      let bad : Gathered = record g { state = t.0; num_errors = suc g.num_errors } in
      let good : Gathered = record g {
        state = t.0;
        networks = g.networks ++ (network_or (env.try_create_network src) ∷ []);
      } in
      if-elim P (is_network t.1)
        (if-elim P
          (ltb env.config.max_lpm_src_size (suc (size g.state.lpm_src_mapping + size g.networks))) e
          (Same-trans g.state t.0 (gather env count srcs good).state e
            (gather-Same count srcs good)))
        (Same-trans g.state t.0 (gather env count srcs bad).state e (gather-Same count srcs bad))

  size-last : {A : Type 0} (xs : List A) (x : A) → size (xs ++ (x ∷ [])) ≡ suc (size xs)
  unfolding size
  size-last [] x = refl
  size-last (y ∷ xs) x = ap suc (size-last xs x)

  gather-size :
      (count : ℕ) (srcs : List Text) (g : Gathered)
      → size (gather env count srcs g).networks ≤ size g.networks + size srcs
  unfolding gather size
  gather-size count [] g = omega arith
  gather-size count (src ∷ srcs) g =
      let P : Gathered → Type 0 = λ h. size h.networks ≤ size g.networks + suc (size srcs) in
      let t = validate_address env src true g.state in
      let bad : Gathered = record g { state = t.0; num_errors = suc g.num_errors } in
      let n = network_or (env.try_create_network src) in
      let good : Gathered = record g { state = t.0; networks = g.networks ++ (n ∷ []) } in
      if-elim P (is_network t.1)
        (if-elim P
          (ltb env.config.max_lpm_src_size (suc (size g.state.lpm_src_mapping + size g.networks)))
          (omega arith) (omega (arith, gather-size count srcs good, size-last g.networks n)))
        (omega (arith, gather-size count srcs bad))

  -- addSrcRoutingRule
  pub add_src_routing_rule-Inv :
      (n : ℕ) (srcs : List Text) (dst : Text) (s : Lb)
      → n + size srcs < 2 ^ 32
      → Inv env n s
      → Inv env (n + size srcs) (add_src_routing_rule env srcs dst s).0
  unfolding add_src_routing_rule size
  add_src_routing_rule-Inv n srcs dst s l x =
      let P : Lb × Option ℕ → Type 0 = λ p. Inv env (n + size srcs) p.0 in
      let kept = Inv-more env n (n + size srcs) s (omega arith) x in
      let t = validate_address env dst false s in
      let y = Inv-Same env n s t.0 (validate-Same env dst false s) x in
      let start : Gathered = record { state = t.0; networks = []; num_errors = 0 } in
      let g = gather env (size srcs) srcs start in
      let few = gather-size (size srcs) srcs start in
      let z = Inv-Same env n t.0 g.state (gather-Same (size srcs) srcs start) y in
      if-elim P env.config.disable_forwarding kept (
        if-elim P (no_src_routing env s) kept (
          if-elim P (is_invalid t.1) (Inv-more env n (n + size srcs) t.0 (omega arith) y) (
            Inv-more env (n + size g.networks) (n + size srcs)
              (add_src_routing_networks env g.networks dst g.state).0 (omega arith)
              (add_networks-Inv n g.networks dst g.state (omega arith) z))))
