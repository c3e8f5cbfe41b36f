-- ===== src/Lb/Mirror/Safety.antt =====
-- The array of reals in the states that calls reach (katran/lib/KatranLb.cpp).
use katran.Base.{ℕ, ◌⊎◌, ◌≡◌, subst, true, false, arith}
use katran.Base.{some, List, number_key, find}
use katran.Vip.{add, del}
use katran.Lb.{Lb, Env, BpfCall, IpAddress, unspecified, parse_addr_to_be}
use katran.Lb.Vips.{modify_reals_for_vip, add_real_for_vip, del_real_for_vip, get_reals_for_vip}
use katran.Lb.Run.{
  new_lb, Call, adds_vip, deletes_vip, modifies_vip, adds_reals, deletes_reals, adds_real,
  deletes_real, gets_reals, gets_index, adds_rules, deletes_rules, clears_rules, modifies_quic,
  adds_decap, deletes_decap, adds_healthcheck, deletes_healthcheck, changes_mac, step, Reached,
  start, after_call,
}
use katran.Lb.Safety.{some-inner}
use katran.Lb.Mirror.{Mirrored, reals_array}
use katran.Lb.Mirror.Batches.{
  add_vip-Mirrored, del_vip-Mirrored, modify_vip-Mirrored, modify_reals_for_vip-Mirrored,
  add_real-Mirrored, del_real-Mirrored, get_reals_for_vip-Mirrored, get_index_for_real-Mirrored,
}
use katran.Lb.Mirror.Tables.{
  add_src_routing_rule-Mirrored, del_src_routing_rule-Mirrored, clear_all-Mirrored,
  modify_quic_reals_mapping-Mirrored,
}
use katran.Lb.Mirror.Destinations.{
  add_inline_decap_dst-Mirrored, del_inline_decap_dst-Mirrored, add_healthchecker_dst-Mirrored,
  del_healthchecker_dst-Mirrored, change_mac-Mirrored,
}

module _ (env : Env) where
  returned : (u t : Lb) → some u ≡ some t → Mirrored env u → Mirrored env t
  returned u t e x = let p : u ≡ t = grind (arith, e) in subst (Mirrored env) p x

  module _ (live : env.config.testing ≡ false)
      (succeeds : (calls : List BpfCall) (call : BpfCall) → env.succeeds calls call ≡ true) where
    step-Mirrored : (c : Call) (s t : Lb) → step env c s ≡ some t → Mirrored env s → Mirrored env t
    unfolding step
    step-Mirrored (adds_vip vip flags) s t e x = returned _ t e (add_vip-Mirrored env vip flags s x)
    step-Mirrored (deletes_vip vip) s t e x = returned _ t e (del_vip-Mirrored env vip s x)
    step-Mirrored (modifies_vip vip flag set) s t e x =
        returned _ t e (modify_vip-Mirrored env vip flag set s x)
    step-Mirrored (adds_reals reals vip) s t e x =
        let (r, (f, p)) = some-inner (modify_reals_for_vip env add reals vip s) t e in
        subst (Mirrored env) p
          (modify_reals_for_vip-Mirrored env live succeeds add reals vip s r f x)
    step-Mirrored (deletes_reals reals vip) s t e x =
        let (r, (f, p)) = some-inner (modify_reals_for_vip env del reals vip s) t e in
        subst (Mirrored env) p
          (modify_reals_for_vip-Mirrored env live succeeds del reals vip s r f x)
    step-Mirrored (adds_real real vip) s t e x =
        let (r, (f, p)) = some-inner (add_real_for_vip env real vip s) t e in
        subst (Mirrored env) p (add_real-Mirrored env live succeeds real vip s r f x)
    step-Mirrored (deletes_real real vip) s t e x =
        let (r, (f, p)) = some-inner (del_real_for_vip env real vip s) t e in
        subst (Mirrored env) p (del_real-Mirrored env live succeeds real vip s r f x)
    step-Mirrored (gets_reals vip) s t e x =
        let (r, (f, p)) = some-inner (get_reals_for_vip env vip s) t e in
        subst (Mirrored env) p (get_reals_for_vip-Mirrored env vip s r f x)
    step-Mirrored (gets_index real) s t e x =
        returned _ t e (get_index_for_real-Mirrored env real s x)
    step-Mirrored (adds_rules srcs dst) s t e x =
        returned _ t e (add_src_routing_rule-Mirrored env live succeeds srcs dst s x)
    step-Mirrored (deletes_rules srcs) s t e x =
        returned _ t e (del_src_routing_rule-Mirrored env srcs s x)
    step-Mirrored clears_rules s t e x = returned _ t e (clear_all-Mirrored env s x)
    step-Mirrored (modifies_quic action reals) s t e x =
        returned _ t e (modify_quic_reals_mapping-Mirrored env live succeeds action reals s x)
    step-Mirrored (adds_decap dst) s t e x =
        returned _ t e (add_inline_decap_dst-Mirrored env dst s x)
    step-Mirrored (deletes_decap dst) s t e x =
        returned _ t e (del_inline_decap_dst-Mirrored env dst s x)
    step-Mirrored (adds_healthcheck somark dst) s t e x =
        returned _ t e (add_healthchecker_dst-Mirrored env somark dst s x)
    step-Mirrored (deletes_healthcheck somark) s t e x =
        returned _ t e (del_healthchecker_dst-Mirrored env somark s x)
    step-Mirrored (changes_mac mac) s t e x = returned _ t e (change_mac-Mirrored env mac s x)

    Reached-Mirrored : (n : ℕ) (s : Lb) → Reached env n s → Mirrored env s
    unfolding new_lb find
    Reached-Mirrored n s (start mac features) = λ k a e. grind (arith, e)
    Reached-Mirrored n s (after_call {n = m} {s = u} c r o e) =
        step-Mirrored c u s e (Reached-Mirrored m u r)

    -- When the calls of the kernel succeed, outside of tests, then in a state that orderly calls reach the kernel's
    -- array of reals holds, at each number that `numToReals_` gives to an address, that address in
    -- network byte order; the address that a default constructor makes is left out.
    pub Reached-reals_array :
        (n : ℕ) (s : Lb) (k : ℕ) (a : IpAddress)
        → Reached env n s
        → find number_key s.num_to_reals k ≡ some a
        → (a ≡ unspecified) ⊎ (reals_array env s.calls k ≡ parse_addr_to_be a)
    Reached-reals_array n s k a r = Reached-Mirrored n s r k a
