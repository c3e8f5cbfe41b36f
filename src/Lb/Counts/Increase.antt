-- ===== src/Lb/Counts/Increase.antt =====
-- increaseRefCountForReal (katran/lib/KatranLb.cpp) keeps the table of the reals, for one claim
-- more.
use katran.Base.{
  ℕ, suc, ◌+◌, ◌^◌, ◌≤◌, ◌<◌, ◌≡◌, refl, sym, ap, subst, Bool, true, false, Option-cases,
  if◌then◌else◌, ◌==◌, ltb, u32, one_if, count, arith,
}
use katran.Base.{◌⊎◌, inl, inr, none, some, List, [], ◌∷◌, number_key, find}
use katran.Lb.{update_reals_array, parse_addr_to_be, Lb, Env, BpfCall, IpAddress, RealMeta}
use katran.Lb.Keys.{ip_key}
use katran.Lb.Reals.{
  named, recounted, bpf, take_num, address_of, increase_ref_count_for_real, update_reals_map,
}
use katran.Lb.Table.{Elsewhere, used, unused_free, count-head}
use katran.Lb.Table.Moves.{Table-weaken, Table-count, Table-new}
use katran.Lb.Counts.{TableOf, Rest, Rest-refl, Same, Same-Table, bpf-Same}

pub increase-Rest :
    (env : Env) (a : IpAddress) (s : Lb) → Rest s (increase_ref_count_for_real env a s).0
unfolding increase_ref_count_for_real take_num update_reals_map bpf
increase-Rest env a s = record {
  vips = ground arith;
  vip_nums = ground arith;
  lpm = ground arith;
  quic = ground arith;
}

-- What increaseRefCountForReal comes to: no number is left, or one claim more is allowed on the
-- number that it returns.
abbrev pub Increased : Env → ℕ → (ℕ → ℕ) → (IpAddress → ℕ) → IpAddress → Lb × ℕ → Type 0
Increased env n c q a r =
    ((r.1 ≡ env.config.max_reals) × (TableOf env.config.max_reals (suc n) c q r.0))
    ⊎ (((r.1 == env.config.max_reals) ≡ false)
        × ((c' : ℕ → ℕ) (q' : IpAddress → ℕ)
            → Elsewhere r.1 a c q c' q'
            → c' r.1 + q' a ≤ suc (c r.1 + q a)
            → TableOf env.config.max_reals (suc n) c' q' r.0))

increase-found :
    (env : Env) (a : IpAddress) (m : RealMeta) (s : Lb)
    → find ip_key s.reals a ≡ some m
    → increase_ref_count_for_real env a s ≡ (recounted a m (u32 (suc m.ref_count)) s, m.num)
unfolding increase_ref_count_for_real
increase-found env a m s e = grind (arith, e)

increase-missing :
    (env : Env) (a : IpAddress) (s : Lb)
    → find ip_key s.reals a ≡ none
    → increase_ref_count_for_real env a s ≡ take_num env a s.real_nums s
unfolding increase_ref_count_for_real
increase-missing env a s e = grind (arith, e)

used-below : (k max x y : ℕ) → x + y ≡ one_if (ltb k max) → 1 ≤ x + y → (k == max) ≡ false
used-below k max x y e h = ground (arith, e, h)

one_more-eq : (x : ℕ) → suc x < 2 ^ 32 → u32 (suc x) ≡ suc x
one_more-eq x l = omega arith

recounted-Table :
    (env : Env) (n : ℕ) (c : ℕ → ℕ) (q : IpAddress → ℕ) (a : IpAddress) (m : RealMeta) (s : Lb)
    (c' : ℕ → ℕ) (q' : IpAddress → ℕ)
    → suc n < 2 ^ 32
    → find ip_key s.reals a ≡ some m
    → TableOf env.config.max_reals n c q s
    → Elsewhere m.num a c q c' q'
    → c' m.num + q' a ≤ suc (c m.num + q a)
    → TableOf env.config.max_reals (suc n) c' q' (recounted a m (u32 (suc m.ref_count)) s)
recounted-Table env n c q a m s c' q' l e t o h =
    let bound = t.bounded a m e in
    let held = t.held a m e in
    let more = one_more-eq m.ref_count (omega arith) in
    Table-count env.config.max_reals n c q s.reals s.num_to_reals s.real_nums a m
      (record m { ref_count = u32 (suc m.ref_count) }) (suc n) c' q' e refl (omega arith)
      (omega arith) o (omega arith) t

found-Increased :
    (env : Env) (n : ℕ) (c : ℕ → ℕ) (q : IpAddress → ℕ) (a : IpAddress) (m : RealMeta) (s : Lb)
    → suc n < 2 ^ 32
    → find ip_key s.reals a ≡ some m
    → TableOf env.config.max_reals n c q s
    → Increased env n c q a (recounted a m (u32 (suc m.ref_count)) s, m.num)
found-Increased env n c q a m s l e t = inr (
  used-below m.num env.config.max_reals (count s.real_nums m.num)
      (used (find number_key s.num_to_reals m.num)) (t.counted m.num)
      (omega (arith, ap used (t.inverse a m e))),
  λ c' q' o h. recounted-Table env n c q a m s c' q' l e t o h,
)

-- A real that is there, with one claim more.
pub increase-found_Table :
    (env : Env) (n : ℕ) (c : ℕ → ℕ) (q : IpAddress → ℕ) (a : IpAddress) (m : RealMeta) (s : Lb)
    (c' : ℕ → ℕ) (q' : IpAddress → ℕ)
    → suc n < 2 ^ 32
    → find ip_key s.reals a ≡ some m
    → TableOf env.config.max_reals n c q s
    → Elsewhere m.num a c q c' q'
    → c' m.num + q' a ≤ suc (c m.num + q a)
    → TableOf env.config.max_reals (suc n) c' q' (increase_ref_count_for_real env a s).0
increase-found_Table env n c q a m s c' q' l e t o h =
    subst (λ r. TableOf env.config.max_reals (suc n) c' q' r.0) (sym (increase-found env a m s e))
      (recounted-Table env n c q a m s c' q' l e t o h)

pub unless-Same :
    (b : Bool) (env : Env) (call : BpfCall) (s : Lb) → Same s (if b then s else (bpf env call s).0)
unless-Same true env call s = record {
  rest = Rest-refl s;
  reals = refl;
  num_to_reals = refl;
  real_nums = refl;
}
unless-Same false env call s = bpf-Same env call s

taken-Increased :
    (env : Env) (n : ℕ) (c : ℕ → ℕ) (q : IpAddress → ℕ) (a : IpAddress) (free : List ℕ) (s : Lb)
    → find ip_key s.reals a ≡ none
    → s.real_nums ≡ free
    → TableOf env.config.max_reals n c q s
    → Increased env n c q a (take_num env a free s)
unfolding take_num update_reals_map
taken-Increased env n c q a [] s e p t = inl (
  refl,
  Table-weaken env.config.max_reals n c q s.reals s.num_to_reals s.real_nums (suc n) c q
      (omega arith) (λ k. omega arith) (λ b. omega arith) t,
)
taken-Increased env n c q a (k ∷ rest) s e p t =
    let unused = unused_free t k rest p in
    inr (
      used-below k env.config.max_reals (count s.real_nums k)
          (used (find number_key s.num_to_reals k)) (t.counted k)
          (omega (arith, ap (λ l. count l k) p, count-head k rest)),
      λ c' q' o h.
          Same-Table env.config.max_reals (suc n) c' q' (named a k rest s)
            (if env.config.testing
              then named a k rest s
              else (bpf env (update_reals_array k (parse_addr_to_be a)) (named a k rest s)).0)
            (unless-Same env.config.testing env (update_reals_array k (parse_addr_to_be a))
              (named a k rest s))
            (Table-new env.config.max_reals n c q s.reals s.num_to_reals s.real_nums a k rest
              (suc n) c' q' e p (omega arith) (omega arith) o
              (omega (arith, t.unheld k unused, t.unheld_address a e)) t),
    )

-- One claim more on the real at `a`.
pub increase-Increased :
    (env : Env) (n : ℕ) (c : ℕ → ℕ) (q : IpAddress → ℕ) (a : IpAddress) (s : Lb)
    → suc n < 2 ^ 32
    → TableOf env.config.max_reals n c q s
    → Increased env n c q a (increase_ref_count_for_real env a s)
increase-Increased env n c q a s l t = elim (Option-cases (find ip_key s.reals a)) [
  | inl e ↦
      subst (Increased env n c q a) (sym (increase-missing env a s e))
        (taken-Increased env n c q a s.real_nums s e refl t)
  | inr (m, e) ↦
      subst (Increased env n c q a) (sym (increase-found env a m s e))
        (found-Increased env n c q a m s l e t)
]

-- numToReals_[num] makes no entry where the number has a claim.
pub address_of-live :
    (max n : ℕ) (c : ℕ → ℕ) (q : IpAddress → ℕ) (k : ℕ) (s : Lb)
    → TableOf max n c q s
    → 1 ≤ c k
    → (a : IpAddress) × ((m : RealMeta) × ((address_of k s ≡ (s, a))
          × ((find ip_key s.reals a ≡ some m) × (m.num ≡ k))))
unfolding address_of
address_of-live max n c q k s t h = elim (Option-cases (find number_key s.num_to_reals k)) [
  | inl e ↦ let absurd : ⊥ = omega (arith, t.unheld k e) in elim absurd [ ]
  | inr (a, e) ↦ let (m, (f, d)) = t.real k a e in (a, (m, (grind (arith, e), (f, d))))
]
