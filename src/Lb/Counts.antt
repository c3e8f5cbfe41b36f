-- ===== src/Lb/Counts.antt =====
-- increaseRefCountForReal and decreaseRefCountForReal (katran/lib/KatranLb.cpp) keep the table of
-- the reals, for one claim more and one less.
pub mod Increase
use katran.Base.{
  ℕ, suc, ◌+◌, ◌-◌, ◌^◌, ◌≤◌, ◌<◌, ◌≡◌, refl, sym, ap, subst, ◌∙◌, Bool, true, false, Bool-cases,
  Option-cases, if◌then◌else◌, ◌==◌, ==→eq, ltb, u32, one_if, count, arith,
}
use katran.Base.{◌⊎◌, inl, inr, none, some, List, [], ◌∷◌, number_key, find}
use katran.Lb.{update_reals_array, parse_addr_to_be, Lb, Env, BpfCall, IpAddress, RealMeta, Text}
use katran.Lb.Keys.{ip_key}
use katran.Lb.Reals.{
  named, freed, recounted, one_less, bpf, take_num, validate_address, address_of,
  decrease_ref_count_for_real, increase_ref_count_for_real, update_reals_map,
}
use katran.Lb.Table.{Table, Elsewhere, used, unused_free, count-head}
use katran.Lb.Table.Moves.{Table-weaken, Table-count, Table-free, Table-new}

abbrev pub TableOf : ℕ → ℕ → (ℕ → ℕ) → (IpAddress → ℕ) → Lb → Type 0
TableOf max n c q s = Table max n c q s.reals s.num_to_reals s.real_nums

-- What refers to the reals is the same.
pub record Rest (s t : Lb) : Type 0 where
  pub vips : t.vips ≡ s.vips
  pub vip_nums : t.vip_nums ≡ s.vip_nums
  pub lpm : t.lpm_src_mapping ≡ s.lpm_src_mapping
  pub quic : t.quic_mapping ≡ s.quic_mapping

pub Rest-refl : (s : Lb) → Rest s s
Rest-refl s = record { vips = refl; vip_nums = refl; lpm = refl; quic = refl }

pub Rest-trans : (s t u : Lb) → Rest s t → Rest t u → Rest s u
Rest-trans s t u a b = record {
  vips = b.vips ∙ a.vips;
  vip_nums = b.vip_nums ∙ a.vip_nums;
  lpm = b.lpm ∙ a.lpm;
  quic = b.quic ∙ a.quic;
}

-- The table is the same, too.
pub record Same (s t : Lb) : Type 0 where
  pub rest : Rest s t
  pub reals : t.reals ≡ s.reals
  pub num_to_reals : t.num_to_reals ≡ s.num_to_reals
  pub real_nums : t.real_nums ≡ s.real_nums

pub Same-Table :
    (max n : ℕ) (c : ℕ → ℕ) (q : IpAddress → ℕ) (s t : Lb)
    → Same s t
    → TableOf max n c q s
    → TableOf max n c q t
Same-Table max n c q s t e x =
    subst (λ r. Table max n c q r t.num_to_reals t.real_nums) (sym e.reals)
      (subst (λ r. Table max n c q s.reals r t.real_nums) (sym e.num_to_reals)
        (subst (λ r. Table max n c q s.reals s.num_to_reals r) (sym e.real_nums) x))

pub bpf-Same : (env : Env) (call : BpfCall) (s : Lb) → Same s (bpf env call s).0
unfolding bpf
bpf-Same env call s = record {
  rest = record {
    vips = ground arith;
    vip_nums = ground arith;
    lpm = ground arith;
    quic = ground arith;
  };
  reals = ground arith;
  num_to_reals = ground arith;
  real_nums = ground arith;
}

pub validate-Same :
    (env : Env) (a : Text) (b : Bool) (s : Lb) → Same s (validate_address env a b s).0
unfolding validate_address
validate-Same env a b s = record {
  rest = record {
    vips = ground arith;
    vip_nums = ground arith;
    lpm = ground arith;
    quic = ground arith;
  };
  reals = ground arith;
  num_to_reals = ground arith;
  real_nums = ground arith;
}

pub decrease-Rest : (a : IpAddress) (s : Lb) → Rest s (decrease_ref_count_for_real a s)
unfolding decrease_ref_count_for_real
decrease-Rest a s = record {
  vips = ground arith;
  vip_nums = ground arith;
  lpm = ground arith;
  quic = ground arith;
}

decrease-freed :
    (a : IpAddress) (m : RealMeta) (s : Lb)
    → find ip_key s.reals a ≡ some m
    → (one_less m.ref_count == 0) ≡ true
    → decrease_ref_count_for_real a s ≡ freed a m.num s
unfolding decrease_ref_count_for_real
decrease-freed a m s e z = grind (arith, e, z)

decrease-recounted :
    (a : IpAddress) (m : RealMeta) (s : Lb)
    → find ip_key s.reals a ≡ some m
    → (one_less m.ref_count == 0) ≡ false
    → decrease_ref_count_for_real a s ≡ recounted a m (one_less m.ref_count) s
unfolding decrease_ref_count_for_real
decrease-recounted a m s e z = grind (arith, e, z)

one_less-eq : (x : ℕ) → 1 ≤ x → x < 2 ^ 32 → one_less x ≡ x - 1
one_less-eq x l h = omega arith

-- One claim less on the real at `a`.
pub decrease-Table :
    (max n : ℕ) (c c' : ℕ → ℕ) (q q' : IpAddress → ℕ) (a : IpAddress) (m : RealMeta) (s : Lb)
    → n < 2 ^ 32
    → find ip_key s.reals a ≡ some m
    → Elsewhere m.num a c q c' q'
    → suc (c' m.num + q' a) ≤ c m.num + q a
    → TableOf max n c q s
    → TableOf max n c' q' (decrease_ref_count_for_real a s)
decrease-Table max n c c' q q' a m s l e o h t =
    let held = t.held a m e in
    let bound = t.bounded a m e in
    let left = one_less-eq m.ref_count (omega arith) (omega arith) in
    elim (Bool-cases (one_less m.ref_count == 0)) [
      | inl z ↦ subst (TableOf max n c' q') (sym (decrease-freed a m s e z)) (
          Table-free max n c q s.reals s.num_to_reals s.real_nums a m c' q' e o
            (omega (arith, ==→eq (one_less m.ref_count) 0 z)) t)
      | inr z ↦ subst (TableOf max n c' q') (sym (decrease-recounted a m s e z)) (
          Table-count max n c q s.reals s.num_to_reals s.real_nums a m
            (record m { ref_count = one_less m.ref_count }) n c' q' e refl (omega arith)
            (omega arith) o (omega arith) t)
    ]
