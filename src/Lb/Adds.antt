-- ===== src/Lb/Adds.antt =====
-- modifyRealsForVip with ModifyAction::ADD (katran/lib/KatranLb.cpp) keeps the invariant.
use katran.Base.{
  ℕ, suc, ◌+◌, ◌^◌, ◌≤◌, ◌<◌, ◌≡◌, refl, sym, ap, subst, ◌∙◌, Bool, true, false, Bool-cases,
  if◌then◌else◌, if-elim, if-cases, ◌==◌, ◌||◌, ==→eq, ==-refl, one_if, count, arith,
}
use katran.Base.{inl, inr, Option, none, some, List, [], ◌∷◌, ◌++◌, find}
use katran.Vip.{Vip, get_reals, RealMap, UpdateReal, add, update_reals}
use katran.Lb.{Env, IpAddress, RealMeta, NewReal}
use katran.Lb.Keys.{ip_key}
use katran.Lb.Reals.{increase_ref_count_for_real, validate_address}
use katran.Lb.Vips.{
  Batch, add_by, modify_one, modify_each, update_to, has_num, is_invalid, address_or,
}
use katran.Lb.Sources.{size}
use katran.Lb.Table.{Elsewhere}
use katran.Lb.Table.Moves.{Table-weaken}
use katran.Lb.Counts.{TableOf, Same-Table, validate-Same}
use katran.Lb.Counts.Increase.{increase-Increased, increase-found_Table}
use katran.Lb.Updates.{after, Added, update_by-Added, update_reals-last}

pub has_num-count : (ns : List ℕ) (k : ℕ) → has_num ns k ≡ true → 1 ≤ count ns k
unfolding count
has_num-count [] k h = grind (arith, h)
has_num-count (n ∷ ns) k h = grind (arith, h, has_num-count ns k)

has_num-last : (ns : List ℕ) (n k : ℕ) → has_num (ns ++ (n ∷ [])) k ≡ (has_num ns k || (n == k))
has_num-last [] n k = grind (arith)
has_num-last (m ∷ ns) n k = grind (arith, has_num-last ns n k)

module _ (env : Env) (v : Vip) (base : ℕ → ℕ) (q : IpAddress → ℕ) where
  -- What is referred to once the VIP's reals are updated so far.
  abbrev pub so_far : Batch → ℕ → ℕ
  so_far b k = base k + count (get_reals (after v b.ureals)) k

  pub record AddOk (n : ℕ) (b : Batch) : Type 0 where
    pub table : TableOf env.config.max_reals n (so_far b) q b.state
    pub current :
        (k : ℕ) → has_num b.cur_reals k ≡ true → 1 ≤ count (get_reals (after v b.ureals)) k

  last-Added :
      (us : List UpdateReal) (raddr : IpAddress) (num weight : ℕ)
      → Added (after v us) (after v (us ++ (update_to env raddr num weight ∷ []))) num
  last-Added us raddr num weight =
      let u = update_to env raddr num weight in
      subst (λ (r : RealMap × Bool). Added (after v us) r.0 num)
        (sym (update_reals-last us u (v.reals, false)))
        (update_by-Added u.updated_real (update_reals us (v.reals, false)))

  -- One claim more on the real that is added, or none.
  Added-Elsewhere :
      (rs rs' : RealMap) (k : ℕ) (a : IpAddress)
      → Added rs rs' k
      → Elsewhere k a
          (λ j. base j + count (get_reals rs) j)
          q
          (λ j. base j + count (get_reals rs') j)
          q
  Added-Elsewhere rs rs' k a x = record {
    numbers = λ j h. omega (arith, x.at_most j, ap one_if h);
    addresses = λ b h. omega arith;
  }

  Added-more :
      (rs rs' : RealMap) (k y : ℕ)
      → Added rs rs' k
      → base k + count (get_reals rs') k + y ≤ suc (base k + count (get_reals rs) k + y)
  Added-more rs rs' k y x = omega (arith, x.at_most k, ap one_if (==-refl k))

  -- The real belongs to the VIP.
  add_known :
      (n : ℕ) (raddr : IpAddress) (num weight : ℕ) (b : Batch)
      → has_num b.cur_reals num ≡ true
      → AddOk n b
      → AddOk (suc n) (record b { ureals = b.ureals ++ (update_to env raddr num weight ∷ []) })
  add_known n raddr num weight b h ok =
      let x = last-Added b.ureals raddr num weight in
      record {
        table =
            Table-weaken env.config.max_reals n (so_far b) q b.state.reals b.state.num_to_reals
              b.state.real_nums (suc n)
              (so_far (record b { ureals = b.ureals ++ (update_to env raddr num weight ∷ []) })) q
              (omega arith) (λ k. omega (arith, x.there k (ok.current num h))) (λ a. omega arith)
              ok.table;
        current = λ k c. omega (arith, x.at_least k, ok.current k c);
      }

  -- The real is that of another VIP.
  add_other :
      (n : ℕ) (raddr : IpAddress) (m : RealMeta) (weight : ℕ) (b : Batch)
      → suc n < 2 ^ 32
      → find ip_key b.state.reals raddr ≡ some m
      → AddOk n b
      → AddOk (suc n) (record b {
        state = (increase_ref_count_for_real env raddr b.state).0;
        cur_reals = b.cur_reals ++ (m.num ∷ []);
        ureals = b.ureals ++ (update_to env raddr m.num weight ∷ []);
      })
  add_other n raddr m weight b l e ok =
      let us = b.ureals ++ (update_to env raddr m.num weight ∷ []) in
      let x = last-Added b.ureals raddr m.num weight in
      record {
        table =
            increase-found_Table env n (so_far b) q raddr m b.state
              (λ k. base k + count (get_reals (after v us)) k) q l e ok.table
              (Added-Elsewhere (after v b.ureals) (after v us) m.num raddr x)
              (Added-more (after v b.ureals) (after v us) m.num (q raddr) x);
        current = λ k c. elim (Bool-cases (has_num b.cur_reals k)) [
          | inl h ↦ omega (arith, x.at_least k, ok.current k h)
          | inr h ↦
              let same : m.num ≡ k =
                ==→eq m.num k (grind (arith, c, h, has_num-last b.cur_reals m.num k)) in
              subst (λ j. 1 ≤ count (get_reals (after v us)) j) same x.present
        ];
      }

  -- The real is new.
  add_new :
      (n : ℕ) (raddr : IpAddress) (weight : ℕ) (b : Batch)
      → suc n < 2 ^ 32
      → AddOk n b
      → let r = increase_ref_count_for_real env raddr b.state in
        AddOk (suc n) (
          if r.1 == env.config.max_reals
          then record b { state = r.0 }
          else record b { state = r.0; ureals = b.ureals ++ (update_to env raddr r.1 weight ∷ []) })
  add_new n raddr weight b l ok =
      let r = increase_ref_count_for_real env raddr b.state in
      let us = b.ureals ++ (update_to env raddr r.1 weight ∷ []) in
      let x = last-Added b.ureals raddr r.1 weight in
      let some_left : UpdateReal → Batch =
        λ u. record b { state = r.0; ureals = b.ureals ++ (u ∷ []) } in
      let P : Bool → Type 0 = λ t.
        AddOk (suc n)
          (if t then record b { state = r.0 } else some_left (update_to env raddr r.1 weight)) in
      elim (increase-Increased env n (so_far b) q raddr b.state l ok.table) [
        | inl (e, t) ↦
            subst P (sym (ap (λ y. y == env.config.max_reals) e ∙ ==-refl env.config.max_reals))
              (record { table = t; current = ok.current })
        | inr (e, f) ↦ subst P (sym e) (record {
          table =
              f (λ k. base k + count (get_reals (after v us)) k) q
                (Added-Elsewhere (after v b.ureals) (after v us) r.1 raddr x)
                (Added-more (after v b.ureals) (after v us) r.1 (q raddr) x);
          current = λ k c. omega (arith, x.at_least k, ok.current k c);
        })
      ]

  add_by-Ok :
      (n : ℕ) (raddr : IpAddress) (weight : ℕ) (o : Option RealMeta) (b : Batch)
      → suc n < 2 ^ 32
      → find ip_key b.state.reals raddr ≡ o
      → AddOk n b
      → AddOk (suc n) (add_by env raddr weight o b)
  unfolding add_by
  add_by-Ok n raddr weight none b l e ok = add_new n raddr weight b l ok
  add_by-Ok n raddr weight (some m) b l e ok =
      if-cases (AddOk (suc n)) (has_num b.cur_reals m.num)
        (λ h. add_known n raddr m.num weight b h ok) (λ h. add_other n raddr m weight b l e ok)

  AddOk-more : (n : ℕ) (b : Batch) → AddOk n b → AddOk (suc n) b
  AddOk-more n b ok = record {
    table =
        Table-weaken env.config.max_reals n (so_far b) q b.state.reals b.state.num_to_reals
          b.state.real_nums (suc n) (so_far b) q (omega arith) (λ k. omega arith) (λ a. omega arith)
          ok.table;
    current = ok.current;
  }

  -- The loop.
  pub adds-Ok :
      (n : ℕ) (reals : List NewReal) (b : Batch)
      → n + size reals < 2 ^ 32
      → AddOk n b
      → AddOk (n + size reals) (modify_each env add reals b)
  unfolding modify_each modify_one size
  adds-Ok n [] b l ok = subst (λ k. AddOk k b) (omega arith) ok
  adds-Ok n (r ∷ rs) b l ok =
      let t = validate_address env r.address false b.state in
      let c : Batch = record b { state = t.0 } in
      let raddr = address_or (env.parse r.address) in
      let valid : AddOk n c = record {
        table =
            Same-Table env.config.max_reals n (so_far b) q b.state t.0
              (validate-Same env r.address false b.state) ok.table;
        current = ok.current;
      } in
      let next : AddOk (suc n) (
          if is_invalid t.1 then c else add_by env raddr r.weight (find ip_key t.0.reals raddr) c) =
        if-elim (AddOk (suc n)) (is_invalid t.1) (AddOk-more n c valid)
          (add_by-Ok n raddr r.weight (find ip_key t.0.reals raddr) c (omega arith) refl valid) in
      subst (λ k. AddOk k (modify_each env add (r ∷ rs) b)) (omega arith)
        (adds-Ok (suc n) rs
          (if is_invalid t.1 then c else add_by env raddr r.weight (find ip_key t.0.reals raddr) c)
          (omega arith) next)
