-- ===== src/Lb/RuleDeletes.antt =====
-- Deleting source routing rules (katran/lib/KatranLb.cpp) keeps the invariant of the reals.
use katran.Base.{
  ℕ, suc, ◌+◌, ◌-◌, ◌^◌, ◌≤◌, ◌<◌, ◌≡◌, refl, sym, ap, subst, ◌∙◌, Bool, Option-cases,
  if◌then◌else◌, if-elim, ◌==◌, ==-refl, one_if, total, arith,
}
use katran.Base.{
  inl, inr, Option, none, some, List, [], ◌∷◌, number_key, find, erase, total-erase, total-find,
}
use katran.Lb.{Lb, Env, IpAddress, RealMeta, Network, Text, delete_lpm_src, parse_addr_to_be}
use katran.Lb.Keys.{ip_key, network_key}
use katran.Lb.Reals.{bpf, decrease_ref_count_for_real}
use katran.Lb.Vips.{address_or}
use katran.Lb.Sources.{
  del_lpm_src_rule, no_src_routing, del_rule, del_rules, del_src_routing_networks,
  del_src_routing_rule, networks_of, clear_rules, clear_all_src_routing_rules,
}
use katran.Lb.Table.Moves.{Table-weaken}
use katran.Lb.Counts.{
  TableOf, Rest, Rest-refl, Rest-trans, Same-Table, decrease-Table, decrease-Rest,
}
use katran.Lb.Counts.Increase.{unless-Same, address_of-live}
use katran.Lb.Claims.{Inv, Inv-from, claims, quic_claims, quic_claims_of, vip_claims, rule_claims}

module _ (env : Env) (n : ℕ) where
  -- One claim less on the number of a rule.
  drop-Table :
      (k : ℕ) (c : ℕ → ℕ) (q : IpAddress → ℕ) (a : IpAddress) (m : RealMeta) (s : Lb)
      → n < 2 ^ 32
      → find ip_key s.reals a ≡ some m
      → m.num ≡ k
      → 1 ≤ c k
      → TableOf env.config.max_reals n c q s
      → TableOf env.config.max_reals n
          (λ j. c j - one_if (k == j))
          q
          (decrease_ref_count_for_real a s)
  drop-Table k c q a m s l f d h t =
      decrease-Table env.config.max_reals n c (λ j. c j - one_if (k == j)) q q a m s l f
        (record { numbers = λ j g. omega arith; addresses = λ b g. omega arith })
        (subst (λ x. suc (c x - one_if (k == x) + q a) ≤ c x + q a) (sym d)
          (omega (arith, ap one_if (==-refl k))))
        t

  del_rule-Inv :
      (src : Network) (o : Option ℕ) (s : Lb)
      → n < 2 ^ 32
      → find network_key s.lpm_src_mapping src ≡ o
      → Inv env n s
      → Inv env n (del_rule env src o s)
  unfolding del_rule del_lpm_src_rule
  del_rule-Inv src none s l e x = x
  del_rule-Inv src (some k) s l e x =
      let there = total-find network_key (rule_claims k) s.lpm_src_mapping src k e in
      let (a, (m, (p, (f, d)))) =
        address_of-live env.config.max_reals n (claims s) (quic_claims s) k s x
          (omega (arith, there, ap one_if (==-refl k))) in
      let u = decrease_ref_count_for_real a s in
      let dropped =
        drop-Table k (claims s) (quic_claims s) a m s l f d
          (omega (arith, there, ap one_if (==-refl k))) x in
      let call = delete_lpm_src (parse_addr_to_be src.base) src.prefix in
      let w = if env.config.testing then u else (bpf env call u).0 in
      let same = unless-Same env.config.testing env call u in
      let r = decrease-Rest a s in
      let final = record w { lpm_src_mapping = erase network_key w.lpm_src_mapping src } in
      let done : Inv env n final =
        Inv-from env n n (λ j. claims s j - one_if (k == j)) (quic_claims s) final (omega arith)
          (λ j. omega (
            arith,
            total-erase network_key (rule_claims j) s.lpm_src_mapping src k e,
            ap (total (vip_claims j)) (same.rest.vips ∙ r.vips),
            ap (λ y. total (rule_claims j) (erase network_key y src)) (same.rest.lpm ∙ r.lpm),
          ))
          (λ b. omega (arith, ap (λ y. quic_claims_of y b) (same.rest.quic ∙ r.quic)))
          (Same-Table env.config.max_reals n (λ j. claims s j - one_if (k == j)) (quic_claims s) u w
            same dropped) in
      subst
        (λ (r : Lb × IpAddress).
          let u = decrease_ref_count_for_real r.1 r.0 in
          let w = if env.config.testing then u else (bpf env call u).0 in
          Inv env n (record w { lpm_src_mapping = erase network_key w.lpm_src_mapping src }))
        (sym p) done

  pub del_rules-Inv :
      (srcs : List Network) (s : Lb) → n < 2 ^ 32 → Inv env n s → Inv env n (del_rules env srcs s)
  unfolding del_rules
  del_rules-Inv [] s l x = x
  del_rules-Inv (src ∷ srcs) s l x =
      del_rules-Inv srcs (del_rule env src (find network_key s.lpm_src_mapping src) s) l
        (del_rule-Inv src (find network_key s.lpm_src_mapping src) s l refl x)

  del_networks-Inv :
      (srcs : List Network) (s : Lb)
      → n < 2 ^ 32
      → Inv env n s
      → Inv env n (del_src_routing_networks env srcs s).0
  unfolding del_src_routing_networks
  del_networks-Inv srcs s l x =
      let P : Lb × Bool → Type 0 = λ p. Inv env n p.0 in
      if-elim P env.config.disable_forwarding x
        (if-elim P (no_src_routing env s) x (del_rules-Inv srcs s l x))

  -- delSrcRoutingRule
  pub del_src_routing_rule-Inv :
      (srcs : List Text) (s : Lb)
      → n < 2 ^ 32
      → Inv env n s
      → Inv env n (del_src_routing_rule env srcs s).0
  unfolding del_src_routing_rule
  del_src_routing_rule-Inv srcs s l x =
      let P : Lb × Bool → Type 0 = λ p. Inv env n p.0 in
      if-elim P env.config.disable_forwarding x
        (if-elim P (no_src_routing env s) x (del_networks-Inv (networks_of env srcs) s l x))

  clear-Rest : (rules : List (Network × ℕ)) (s : Lb) → Rest s (clear_rules env rules s)
  unfolding clear_rules del_lpm_src_rule
  clear-Rest [] s = Rest-refl s
  clear-Rest ((src, k) ∷ rules) s =
      let a = address_or (find number_key s.num_to_reals k) in
      let t = decrease_ref_count_for_real a s in
      let call = delete_lpm_src (parse_addr_to_be src.base) src.prefix in
      let w = if env.config.testing then t else (bpf env call t).0 in
      Rest-trans s w (clear_rules env rules w)
        (Rest-trans s t w (decrease-Rest a s) (unless-Same env.config.testing env call t).rest)
        (clear-Rest rules w)

  -- The address of a number that has a claim.
  number-live :
      (k : ℕ) (c : ℕ → ℕ) (q : IpAddress → ℕ) (s : Lb)
      → TableOf env.config.max_reals n c q s
      → 1 ≤ c k
      → (a : IpAddress) × ((m : RealMeta) × ((find number_key s.num_to_reals k ≡ some a)
            × ((find ip_key s.reals a ≡ some m) × (m.num ≡ k))))
  number-live k c q s t h = elim (Option-cases (find number_key s.num_to_reals k)) [
    | inl e ↦ let absurd : ⊥ = omega (arith, t.unheld k e) in elim absurd [ ]
    | inr (a, e) ↦ let (m, (f, d)) = t.real k a e in (a, (m, (e, (f, d))))
  ]

  clear-Table :
      (base : ℕ → ℕ) (q : IpAddress → ℕ) (rules : List (Network × ℕ)) (s : Lb)
      → n < 2 ^ 32
      → TableOf env.config.max_reals n (λ j. base j + total (rule_claims j) rules) q s
      → TableOf env.config.max_reals n (λ j. base j + 0) q (clear_rules env rules s)
  unfolding clear_rules del_lpm_src_rule total
  clear-Table base q [] s l t = t
  clear-Table base q ((src, k) ∷ rules) s l t =
      let c : ℕ → ℕ = λ j. base j + (one_if (k == j) + total (rule_claims j) rules) in
      let one = ap one_if (==-refl k) in
      let (a, (m, (p, (f, d)))) = number-live k c q s t (omega arith) in
      let dropped =
        Table-weaken env.config.max_reals n (λ j. c j - one_if (k == j)) q
          (decrease_ref_count_for_real a s).reals (decrease_ref_count_for_real a s).num_to_reals
          (decrease_ref_count_for_real a s).real_nums n (λ j. base j + total (rule_claims j) rules)
          q (omega arith) (λ j. omega arith) (λ b. omega arith)
          (drop-Table k c q a m s l f d (omega arith) t) in
      let call = delete_lpm_src (parse_addr_to_be src.base) src.prefix in
      let u = decrease_ref_count_for_real a s in
      let w = if env.config.testing then u else (bpf env call u).0 in
      let done = clear-Table base q rules w l (
        Same-Table env.config.max_reals n (λ j. base j + total (rule_claims j) rules) q u w
          (unless-Same env.config.testing env call u) dropped) in
      subst
        (λ (o : Option IpAddress).
          let u = decrease_ref_count_for_real (address_or o) s in
          let w = if env.config.testing then u else (bpf env call u).0 in
          TableOf env.config.max_reals n (λ j. base j + 0) q (clear_rules env rules w))
        (sym p) done

  -- clearAllSrcRoutingRules
  pub clear_all_src_routing_rules-Inv :
      (s : Lb) → n < 2 ^ 32 → Inv env n s → Inv env n (clear_all_src_routing_rules env s).0
  unfolding clear_all_src_routing_rules total
  clear_all_src_routing_rules-Inv s l x =
      let P : Lb × Bool → Type 0 = λ p. Inv env n p.0 in
      let t = clear_rules env s.lpm_src_mapping s in
      let r = clear-Rest s.lpm_src_mapping s in
      let base : ℕ → ℕ = λ j. total (vip_claims j) s.vips in
      let final = record t { lpm_src_mapping = [] } in
      if-elim P env.config.disable_forwarding x (
        if-elim P (no_src_routing env s) x (
          Inv-from env n n (λ j. base j + 0) (quic_claims s) final (omega arith)
            (λ j. omega (arith, ap (total (vip_claims j)) r.vips))
            (λ b. omega (arith, ap (λ y. quic_claims_of y b) r.quic))
            (clear-Table base (quic_claims s) s.lpm_src_mapping s l x)))
