-- ===== src/Lb/Deletes.antt =====
-- modifyRealsForVip with ModifyAction::DEL (katran/lib/KatranLb.cpp) keeps the invariant, for a
-- batch that names no address twice.
use katran.Base.{
  ℕ, ◌+◌, ◌^◌, ◌<◌, ◌≡◌, refl, sym, ap, ◌∙◌, Bool, true, false, not, ◌&&◌, ◌||◌, Bool-cases,
  Option-cases, if◌then◌else◌, if-elim, if-cases, ◌==◌, count, arith,
}
use katran.Base.{
  inl, inr, Option, none, some, List, [], ◌∷◌, ◌++◌, number_key, find, erase, find-erase_other,
  find-write_other,
}
use katran.Vip.{Vip, get_reals, RealMap, UpdateReal, del, update_by}
use katran.Lb.{Lb, Env, IpAddress, RealMeta, NewReal, same_address}
use katran.Lb.Keys.{ip_key, address-eq, address_refl, &&-both}
use katran.Lb.Reals.{decrease_ref_count_for_real, validate_address, one_less}
use katran.Lb.Vips.{Batch, delete_by, modify_one, modify_each, has_num, is_invalid, address_or}
use katran.Lb.Table.{distinct_nums}
use katran.Lb.Counts.{TableOf, Same-Table, decrease-Table, validate-Same}
use katran.Lb.Updates.{after, update_reals-last, count-erase_same, count-erase_other}
use katran.Lb.Adds.{has_num-count}

abbrev pub has_address : List IpAddress → IpAddress → Bool
has_address [] a = false
has_address (b ∷ bs) a = same_address b a || has_address bs a

unfoldable pub distinct : List IpAddress → Bool
distinct [] = true
distinct (a ∷ bs) = not (has_address bs a) && distinct bs

-- The addresses of a batch, those that are none taken as folly::IPAddress().
unfoldable pub addresses : Env → List NewReal → List IpAddress
addresses env [] = []
addresses env (r ∷ rs) = address_or (env.parse r.address) ∷ addresses env rs

abbrev fst_map : RealMap × Bool → RealMap
fst_map s = s.0

-- The update that deletes a number.
abbrev deletion : ℕ → UpdateReal
deletion num = record { action = del; updated_real = record { num = num; weight = 0; hash = 0 } }

-- Another real's entry stays.
decrease-other :
    (a b : IpAddress) (s : Lb)
    → same_address a b ≡ false
    → find ip_key (decrease_ref_count_for_real a s).reals b ≡ find ip_key s.reals b
unfolding decrease_ref_count_for_real
decrease-other a b s h = elim (Option-cases (find ip_key s.reals a)) [
  | inl e ↦ grind (arith, e)
  | inr (m, e) ↦ grind (
    arith,
    e,
    find-erase_other ip_key s.reals a b h,
    find-write_other ip_key s.reals a b (record m { ref_count = one_less m.ref_count }) h,
  )
]

has_address-later :
    (a b : IpAddress) (rest : List IpAddress)
    → has_address rest b ≡ true
    → has_address (a ∷ rest) b ≡ true
has_address-later a b rest h = grind (arith, h)

has_address-first : (a : IpAddress) (rest : List IpAddress) → has_address (a ∷ rest) a ≡ true
has_address-first a rest = grind (arith, address_refl a)

-- An address of the list is not one that is not in it.
has_address-not :
    (a b : IpAddress) (rest : List IpAddress)
    → has_address rest a ≡ false
    → has_address rest b ≡ true
    → same_address a b ≡ false
has_address-not a b rest h k = elim (Bool-cases (same_address a b)) [
  | inr e ↦ e
  | inl e ↦
      let absurd : false ≡ true = sym h ∙ ap (has_address rest) (address-eq a b e) ∙ k in
      grind (arith, absurd)
]

module _ (env : Env) (v : Vip) (base : ℕ → ℕ) (q : IpAddress → ℕ) where
  pub record DelOk (n : ℕ) (rest : List IpAddress) (b : Batch) : Type 0 where
    pub table :
        TableOf env.config.max_reals n
          (λ k. base k + count (get_reals (after v b.ureals)) k)
          q
          b.state
    -- The reals that are still to come have their claims.
    pub to_come :
        (a : IpAddress) (m : RealMeta)
        → has_address rest a ≡ true
        → find ip_key b.state.reals a ≡ some m
        → count (get_reals (after v b.ureals)) m.num ≡ count (get_reals v.reals) m.num
    pub current : b.cur_reals ≡ get_reals v.reals

  DelOk-later :
      (n : ℕ) (a : IpAddress) (rest : List IpAddress) (b : Batch)
      → DelOk n (a ∷ rest) b
      → DelOk n rest b
  DelOk-later n a rest b ok = record {
    table = ok.table;
    to_come = λ x m h e. ok.to_come x m (has_address-later a x rest h) e;
    current = ok.current;
  }

  -- The real is the VIP's: it is deleted.
  delete_own :
      (n : ℕ) (raddr : IpAddress) (rest : List IpAddress) (m : RealMeta) (b : Batch)
      → n < 2 ^ 32
      → find ip_key b.state.reals raddr ≡ some m
      → has_address rest raddr ≡ false
      → has_num b.cur_reals m.num ≡ true
      → DelOk n (raddr ∷ rest) b
      → DelOk n rest (record b {
        state = decrease_ref_count_for_real raddr b.state;
        ureals = b.ureals ++ (deletion m.num ∷ []);
      })
  unfolding update_by
  delete_own n raddr rest m b l e d h ok =
      let us = b.ureals ++ (deletion m.num ∷ []) in
      let erased : after v us ≡ erase number_key (after v b.ureals) m.num =
        ap fst_map (update_reals-last b.ureals (deletion m.num) (v.reals, false)) in
      let before = ok.to_come raddr m (has_address-first raddr rest) e in
      let there =
        has_num-count (get_reals v.reals) m.num
          (sym (ap (λ ns. has_num ns m.num) ok.current) ∙ h) in
      let other : (k : ℕ)
          → (m.num == k) ≡ false
          → count (get_reals (after v us)) k ≡ count (get_reals (after v b.ureals)) k =
        λ k f.
          ap (λ r. count (get_reals r) k) erased ∙ count-erase_other (after v b.ureals) m.num k f in
      let gone : count (get_reals (after v us)) m.num ≡ 0 =
        ap (λ r. count (get_reals r) m.num) erased ∙ count-erase_same (after v b.ureals) m.num in
      record {
        table =
            decrease-Table env.config.max_reals n
              (λ k. base k + count (get_reals (after v b.ureals)) k)
              (λ k. base k + count (get_reals (after v us)) k) q q raddr m b.state l e
              (record { numbers = λ k f. omega (arith, other k f); addresses = λ a f. omega arith })
              (omega (arith, gone, before, there)) ok.table;
        to_come = λ a w k f.
            let apart = has_address-not raddr a rest d k in
            let found = sym (decrease-other raddr a b.state apart) ∙ f in
            other w.num (distinct_nums ok.table raddr a m w e found apart)
            ∙ ok.to_come a w (has_address-later raddr a rest k) found;
        current = ok.current;
      }

  delete_by-Ok :
      (n : ℕ) (raddr : IpAddress) (rest : List IpAddress) (o : Option RealMeta) (b : Batch)
      → n < 2 ^ 32
      → find ip_key b.state.reals raddr ≡ o
      → has_address rest raddr ≡ false
      → DelOk n (raddr ∷ rest) b
      → DelOk n rest (delete_by raddr o b)
  unfolding delete_by
  delete_by-Ok n raddr rest none b l e d ok = DelOk-later n raddr rest b ok
  delete_by-Ok n raddr rest (some m) b l e d ok =
      if-cases (DelOk n rest) (has_num b.cur_reals m.num)
        (λ h. delete_own n raddr rest m b l e d h ok) (λ h. DelOk-later n raddr rest b ok)

  -- The loop.
  pub deletes-Ok :
      (n : ℕ) (reals : List NewReal) (b : Batch)
      → n < 2 ^ 32
      → distinct (addresses env reals) ≡ true
      → DelOk n (addresses env reals) b
      → DelOk n [] (modify_each env del reals b)
  unfolding modify_each modify_one addresses distinct
  deletes-Ok n [] b l d ok = ok
  deletes-Ok n (r ∷ rs) b l d ok =
      let t = validate_address env r.address false b.state in
      let same = validate-Same env r.address false b.state in
      let c : Batch = record b { state = t.0 } in
      let raddr = address_or (env.parse r.address) in
      let rest = addresses env rs in
      let (d1, d2) = &&-both (not (has_address rest raddr)) (distinct rest) d in
      let apart : has_address rest raddr ≡ false = grind (arith, d1) in
      let valid : DelOk n (raddr ∷ rest) c = record {
        table =
            Same-Table env.config.max_reals n (λ k. base k + count (get_reals (after v b.ureals)) k)
              q b.state t.0 same ok.table;
        to_come = λ a m h e. ok.to_come a m h (sym (ap (λ x. find ip_key x a) same.reals) ∙ e);
        current = ok.current;
      } in
      deletes-Ok n rs
        (if is_invalid t.1 then c else delete_by raddr (find ip_key t.0.reals raddr) c) l d2
        (if-elim (DelOk n rest) (is_invalid t.1) (DelOk-later n raddr rest c valid)
          (delete_by-Ok n raddr rest (find ip_key t.0.reals raddr) c l refl apart valid))
