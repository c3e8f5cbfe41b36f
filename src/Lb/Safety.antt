-- ===== src/Lb/Safety.antt =====
-- The numbers of the reals along any sequence of calls (katran/lib/KatranLb.cpp).
use katran.Base.{
  Bool, ℕ, zero, suc, ◌+◌, ◌^◌, ◌≤◌, ◌<◌, ◌≡◌, refl, sym, ap, subst, ◌∙◌, Bool, true, false,
  Bool-cases, Option-cases, ltb, one_if, count, count-last, total, arith,
}
use katran.Base.{inl, inr, Option, none, some, ◌>>=◌, List, [], ◌∷◌, number_key, find}
use katran.Vip.{add, del}
use katran.Lb.{Lb, Env, IpAddress, RealMeta, Features, NewReal, VipKey}
use katran.Lb.Keys.{ip_key}
use katran.Lb.Vips.{modify_reals_for_vip, add_real_for_vip, del_real_for_vip, get_reals_for_vip}
use katran.Lb.Sources.{size}
use katran.Lb.Table.Agree.{gives_address, has_number, both_ways}
use katran.Lb.Table.{used, one_if-le}
use katran.Lb.Counts.{Same}
use katran.Lb.Claims.{Inv, Inv-more, Inv-Same, claims, quic_claims}
use katran.Lb.Release.{add_vip-Inv, del_vip-Inv, modify_vip-Inv}
use katran.Lb.Deletes.{distinct, addresses}
use katran.Lb.Modify.{modify_add-Inv, modify_del-Inv}
use katran.Lb.Rules.{add_src_routing_rule-Inv}
use katran.Lb.RuleDeletes.{del_src_routing_rule-Inv, clear_all_src_routing_rules-Inv}
use katran.Lb.QuicKept.{modify_quic_reals_mapping-Inv}
use katran.Lb.DstsKept.{
  add_inline_decap_dst-Same, del_inline_decap_dst-Same, add_healthchecker_dst-Same,
  del_healthchecker_dst-Same, change_mac-Same, get_index_for_real-Same, get_reals_for_vip-same,
}
use katran.Lb.Run.{
  numbers_below, new_lb, Call, adds_vip, deletes_vip, modifies_vip, adds_reals, deletes_reals,
  adds_real, deletes_real, gets_reals, gets_index, adds_rules, deletes_rules, clears_rules,
  modifies_quic, adds_decap, deletes_decap, adds_healthcheck, deletes_healthcheck, changes_mac,
  step, cost, orderly, Reached, start, after_call,
}

count-numbers_below : (max k : ℕ) → count (numbers_below max) k ≡ one_if (ltb k max)
unfolding numbers_below count
count-numbers_below zero k = ground arith
count-numbers_below (suc max) k =
    ground (arith, count-last (numbers_below max) max k, count-numbers_below max k)

new_lb-Inv : (env : Env) (mac : List ℕ) (features : Features) → Inv env 0 (new_lb env mac features)
unfolding new_lb total find
new_lb-Inv env mac features = record {
  inverse = λ a m e. grind (arith, e);
  real = λ k a e. let absurd : none ≡ some a = e in grind (arith, absurd);
  counted = λ k. omega (arith, count-numbers_below env.config.max_reals k);
  bounded = λ a m e. grind (arith, e);
  held = λ a m e. grind (arith, e);
  unheld = λ k e. refl;
  unheld_address = λ a e. refl;
}

pub some-inner :
    {A : Type 0} (o : Option (Lb × A)) (t : Lb)
    → (o >>= λ r. some r.0) ≡ some t
    → (r : Lb × A) × ((o ≡ some r) × (r.0 ≡ t))
some-inner none t e = grind (arith, e)
some-inner (some r) t e = (r, (refl, grind (arith, e)))

module _ (env : Env) (n : ℕ) where
  reach : (u t : Lb) (m : ℕ) → some u ≡ some t → Inv env m u → Inv env m t
  reach u t m e x = let p : u ≡ t = grind (arith, e) in subst (Inv env m) p x

  -- A call that adds no references.
  reach_free : (u t : Lb) → some u ≡ some t → Inv env n u → Inv env (n + 0) t
  reach_free u t e x = reach u t (n + 0) e (Inv-more env n (n + 0) u (omega arith) x)

  reach-Same : (s u t : Lb) → some u ≡ some t → Same s u → Inv env n s → Inv env (n + 0) t
  reach-Same s u t e c x = reach_free u t e (Inv-Same env n s u c x)

  add_real-Inv :
      (real : NewReal) (vip : VipKey) (s : Lb) (r : Lb × Bool)
      → n + 1 < 2 ^ 32
      → add_real_for_vip env real vip s ≡ some r
      → Inv env n s
      → Inv env (n + 1) r.0
  unfolding add_real_for_vip size
  add_real-Inv real vip s r l e x = elim (Bool-cases env.config.disable_forwarding) [
    | inl d ↦
        let p : (s, false) ≡ r = grind (arith, d, e) in
        subst (λ (r : Lb × Bool). Inv env (n + 1) r.0) p (Inv-more env n (n + 1) s (omega arith) x)
    | inr d ↦ modify_add-Inv env n (real ∷ []) vip s r l (grind (arith, d, e)) x
  ]

  -- A single address is not named twice.
  del_real-Inv :
      (real : NewReal) (vip : VipKey) (s : Lb) (r : Lb × Bool)
      → n < 2 ^ 32
      → del_real_for_vip env real vip s ≡ some r
      → Inv env n s
      → Inv env n r.0
  unfolding del_real_for_vip distinct addresses
  del_real-Inv real vip s r l e x = elim (Bool-cases env.config.disable_forwarding) [
    | inl d ↦
        let p : (s, false) ≡ r = grind (arith, d, e) in subst (λ (r : Lb × Bool). Inv env n r.0) p x
    | inr d ↦ modify_del-Inv env n (real ∷ []) vip s r l refl (grind (arith, d, e)) x
  ]

  -- Each orderly call keeps the invariant.
  step-Inv :
      (c : Call) (s t : Lb)
      → n + cost c < 2 ^ 32
      → orderly env c ≡ true
      → step env c s ≡ some t
      → Inv env n s
      → Inv env (n + cost c) t
  unfolding step cost orderly
  step-Inv (adds_vip vip flags) s t l o e x = reach_free _ t e (add_vip-Inv env n vip flags s x)
  step-Inv (deletes_vip vip) s t l o e x =
      reach_free _ t e (del_vip-Inv env n vip s (omega arith) x)
  step-Inv (modifies_vip vip flag set) s t l o e x =
      reach_free _ t e (modify_vip-Inv env n vip flag set s x)
  step-Inv (adds_reals reals vip) s t l o e x =
      let (r, (f, p)) = some-inner (modify_reals_for_vip env add reals vip s) t e in
      subst (Inv env (n + size reals)) p (modify_add-Inv env n reals vip s r l f x)
  step-Inv (deletes_reals reals vip) s t l o e x =
      let (r, (f, p)) = some-inner (modify_reals_for_vip env del reals vip s) t e in
      subst (Inv env (n + 0)) p (
        Inv-more env n (n + 0) r.0 (omega arith)
          (modify_del-Inv env n reals vip s r (omega arith) o f x))
  step-Inv (adds_real real vip) s t l o e x =
      let (r, (f, p)) = some-inner (add_real_for_vip env real vip s) t e in
      subst (Inv env (n + 1)) p (add_real-Inv real vip s r l f x)
  step-Inv (deletes_real real vip) s t l o e x =
      let (r, (f, p)) = some-inner (del_real_for_vip env real vip s) t e in
      subst (Inv env (n + 0)) p
        (Inv-more env n (n + 0) r.0 (omega arith) (del_real-Inv real vip s r (omega arith) f x))
  step-Inv (gets_reals vip) s t l o e x =
      let (r, (f, p)) = some-inner (get_reals_for_vip env vip s) t e in
      subst (Inv env (n + 0)) (sym (get_reals_for_vip-same env n vip s r f x) ∙ p)
        (Inv-more env n (n + 0) s (omega arith) x)
  step-Inv (gets_index real) s t l o e x = reach-Same s _ t e (get_index_for_real-Same env real s) x
  step-Inv (adds_rules srcs dst) s t l o e x =
      reach _ t (n + size srcs) e (add_src_routing_rule-Inv env n srcs dst s l x)
  step-Inv (deletes_rules srcs) s t l o e x =
      reach_free _ t e (del_src_routing_rule-Inv env n srcs s (omega arith) x)
  step-Inv clears_rules s t l o e x =
      reach_free _ t e (clear_all_src_routing_rules-Inv env n s (omega arith) x)
  step-Inv (modifies_quic action reals) s t l o e x =
      reach _ t (n + size reals) e (modify_quic_reals_mapping-Inv env n action reals s l x)
  step-Inv (adds_decap dst) s t l o e x = reach-Same s _ t e (add_inline_decap_dst-Same env dst s) x
  step-Inv (deletes_decap dst) s t l o e x =
      reach-Same s _ t e (del_inline_decap_dst-Same env dst s) x
  step-Inv (adds_healthcheck k dst) s t l o e x =
      reach-Same s _ t e (add_healthchecker_dst-Same env k dst s) x
  step-Inv (deletes_healthcheck k) s t l o e x =
      reach-Same s _ t e (del_healthchecker_dst-Same env k s) x
  step-Inv (changes_mac mac) s t l o e x = reach-Same s _ t e (change_mac-Same env mac s) x

Reached-Inv : (env : Env) (n : ℕ) (s : Lb) → Reached env n s → n < 2 ^ 32 → Inv env n s
Reached-Inv env n s (start mac features) l = new_lb-Inv env mac features
Reached-Inv env n s (after_call {n = m} {s = u} c r o e) l =
    step-Inv env m c u s l o e (Reached-Inv env m u r (omega arith))

-- In a state that orderly calls reach, adding fewer than 2 ^ 32 references in all, a number that
-- a VIP or a source routing rule refers to is that of one real, whose reference count is no less
-- than the references of the VIPs, the rules and the QUIC mapping, and is not free.
pub referenced_in_use :
    (env : Env) (n : ℕ) (s : Lb) (k : ℕ)
    → Reached env n s
    → n < 2 ^ 32
    → 1 ≤ claims s k
    → (a : IpAddress) × ((m : RealMeta) × ((find number_key s.num_to_reals k ≡ some a)
          × ((find ip_key s.reals a ≡ some m)
              × ((m.num ≡ k)
                  × ((claims s k + quic_claims s a ≤ m.ref_count) × (count s.real_nums k ≡ 0))))))
referenced_in_use env n s k r l h =
    let x = Reached-Inv env n s r l in
    elim (Option-cases (find number_key s.num_to_reals k)) [
      | inl e ↦ let absurd : ⊥ = omega (arith, x.unheld k e) in elim absurd [ ]
      | inr (a, e) ↦
          let (m, (f, d)) = x.real k a e in
          (
            a,
            (
              m,
              (
                e,
                (
                  f,
                  (
                    d,
                    (
                      subst (λ j. claims s j + quic_claims s a ≤ m.ref_count) d (x.held a m f),
                      omega (arith, x.counted k, ap used e, one_if-le (ltb k env.config.max_reals)),
                    ),
                  ),
                ),
              ),
            ),
          )
    ]

-- In a state that orderly calls reach, adding fewer than 2 ^ 32 references in all, every number
-- below maxReals is either free, once, or that of a real, and no other number is either; and
-- `numToReals_` gives a number the address exactly if `reals_` gives the address the number.
pub numbers_complete :
    (env : Env) (n : ℕ) (s : Lb) (k : ℕ) (a : IpAddress)
    → Reached env n s
    → n < 2 ^ 32
    → (count s.real_nums k + used (find number_key s.num_to_reals k)
        ≡ one_if (ltb k env.config.max_reals))
      × (gives_address (find number_key s.num_to_reals k) a ≡ has_number (find ip_key s.reals a) k)
numbers_complete env n s k a r l =
    let x = Reached-Inv env n s r l in
    (x.counted k, both_ways s.reals s.num_to_reals k a x.inverse x.real)
