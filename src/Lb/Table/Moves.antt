-- ===== src/Lb/Table/Moves.antt =====
-- What a count, a deletion and a new real do to the table of the reals (katran/lib/KatranLb.cpp).
use katran.Base.{ℕ, ◌+◌, ◌≤◌, ◌≡◌, sym, ap, ◌∙◌, count, count-last, arith}
use katran.Base.{inl, inr, none, some, List, [], ◌∷◌, ◌++◌, number_key, find, erase, write}
use katran.Base.{
  find-write-some, find-write-none, find-erase-some, find-erase-none, find-write_same,
  find-write_other, find-erase_other,
}
use katran.Lb.{IpAddress, RealMeta}
use katran.Lb.Keys.{ip_key}
use katran.Lb.Table.{
  count-cons, used-erase, used-write, Table, Elsewhere, num_of, count_of, distinct_nums,
  num_not_unused, unused_other, address_not_unused, other_address, rewritten, unused_free,
}

module _ (max n : ℕ) (c : ℕ → ℕ) (q : IpAddress → ℕ) (reals : List (IpAddress × RealMeta))
    (nums : List (ℕ × IpAddress)) (free : List ℕ) where
  -- Fewer claims, a higher bound.
  pub Table-weaken :
      (n' : ℕ) (c' : ℕ → ℕ) (q' : IpAddress → ℕ)
      → n ≤ n'
      → ((k : ℕ) → c' k ≤ c k)
      → ((a : IpAddress) → q' a ≤ q a)
      → Table max n c q reals nums free
      → Table max n' c' q' reals nums free
  Table-weaken n' c' q' l h g t = record {
    inverse = t.inverse;
    real = t.real;
    counted = t.counted;
    bounded = λ a m e. omega (arith, t.bounded a m e);
    held = λ a m e. omega (arith, t.held a m e, h m.num, g a);
    unheld = λ k e. omega (arith, t.unheld k e, h k);
    unheld_address = λ a e. omega (arith, t.unheld_address a e, g a);
  }

  -- A new count for a real that is there.
  pub Table-count :
      (a : IpAddress) (m w : RealMeta) (n' : ℕ) (c' : ℕ → ℕ) (q' : IpAddress → ℕ)
      → find ip_key reals a ≡ some m
      → w.num ≡ m.num
      → n ≤ n'
      → w.ref_count ≤ n'
      → Elsewhere m.num a c q c' q'
      → c' m.num + q' a ≤ w.ref_count
      → Table max n c q reals nums free
      → Table max n' c' q' (write ip_key reals a w) nums free
  Table-count a m w n' c' q' e p l u o h t = record {
    inverse = λ b v f. elim (find-write-some ip_key reals a b w v f) [
      | inl (s, r) ↦ ap (find number_key nums) (sym (ap num_of r) ∙ p) ∙ t.inverse a m e ∙ ap some s
      | inr (s, g) ↦ t.inverse b v g
    ];
    real = λ k b f. rewritten t a m w k b e p f;
    counted = t.counted;
    bounded = λ b v f. elim (find-write-some ip_key reals a b w v f) [
      | inl (s, r) ↦ omega (arith, ap count_of r, u)
      | inr (s, g) ↦ omega (arith, t.bounded b v g)
    ];
    held = λ b v f. elim (find-write-some ip_key reals a b w v f) [
      | inl (s, r) ↦ omega (arith, ap count_of r, ap c' (sym p ∙ ap num_of r), ap q' s, h)
      | inr (s, g) ↦
          omega
            (arith, t.held b v g, o.numbers v.num (distinct_nums t a b m v e g s), o.addresses b s)
    ];
    unheld = λ k f. omega (arith, t.unheld k f, o.numbers k (unused_other t a m k e f));
    unheld_address = λ b f.
        let (s, g) = find-write-none ip_key reals a b w f in
        omega (arith, t.unheld_address b g, o.addresses b s);
  }

  -- The last reference of a real is dropped.
  pub Table-free :
      (a : IpAddress) (m : RealMeta) (c' : ℕ → ℕ) (q' : IpAddress → ℕ)
      → find ip_key reals a ≡ some m
      → Elsewhere m.num a c q c' q'
      → c' m.num + q' a ≤ 0
      → Table max n c q reals nums free
      → Table max n c' q'
          (erase ip_key reals a)
          (erase number_key nums m.num)
          (free ++ (m.num ∷ []))
  Table-free a m c' q' e o h t = record {
    inverse = λ b v f.
        let (s, g) = find-erase-some ip_key reals a b v f in
        find-erase_other number_key nums m.num v.num (distinct_nums t a b m v e g s)
        ∙ t.inverse b v g;
    real = λ k b f.
        let (s, g) = find-erase-some number_key nums m.num k b f in
        let (v, (r, d)) = t.real k b g in
        (v, (find-erase_other ip_key reals a b (other_address t a b m v k e r d s) ∙ r, d));
    counted = λ k.
        omega (
          arith,
          t.counted k,
          count-last free m.num k,
          used-erase nums m.num k a (t.inverse a m e),
        );
    bounded = λ b v f. t.bounded b v (find-erase-some ip_key reals a b v f).1;
    held = λ b v f.
        let (s, g) = find-erase-some ip_key reals a b v f in
        omega
          (arith, t.held b v g, o.numbers v.num (distinct_nums t a b m v e g s), o.addresses b s);
    unheld = λ k f. elim (find-erase-none number_key nums m.num k f) [
      | inl s ↦ omega (arith, ap c' s, h)
      | inr (s, g) ↦ omega (arith, t.unheld k g, o.numbers k s)
    ];
    unheld_address = λ b f. elim (find-erase-none ip_key reals a b f) [
      | inl s ↦ omega (arith, ap q' s, h)
      | inr (s, g) ↦ omega (arith, t.unheld_address b g, o.addresses b s)
    ];
  }

  -- A real that is new takes a free number.
  pub Table-new :
      (a : IpAddress) (k : ℕ) (rest : List ℕ) (n' : ℕ) (c' : ℕ → ℕ) (q' : IpAddress → ℕ)
      → find ip_key reals a ≡ none
      → free ≡ k ∷ rest
      → n ≤ n'
      → 1 ≤ n'
      → Elsewhere k a c q c' q'
      → c' k + q' a ≤ 1
      → Table max n c q reals nums free
      → Table max n' c' q'
          (write ip_key reals a (record { num = k; ref_count = 1 }))
          (write number_key nums k a)
          rest
  Table-new a k rest n' c' q' e p l u o h t =
      let w : RealMeta = record { num = k; ref_count = 1 } in
      let none_at = unused_free t k rest p in
      record {
        inverse = λ b v f. elim (find-write-some ip_key reals a b w v f) [
          | inl (s, r) ↦
              ap (find number_key (write number_key nums k a)) (sym (ap num_of r))
              ∙ find-write_same number_key nums k a
              ∙ ap some s
          | inr (s, g) ↦
              find-write_other number_key nums k v.num a (num_not_unused t b v k g none_at)
              ∙ t.inverse b v g
        ];
        real = λ j b f. elim (find-write-some number_key nums k j a b f) [
          | inl (s, r) ↦ (
            w,
            (
              ap (find ip_key (write ip_key reals a w)) (sym r) ∙ find-write_same ip_key reals a w,
              s,
            ),
          )
          | inr (s, g) ↦
              let (v, (r, d)) = t.real j b g in
              (v, (find-write_other ip_key reals a b w (address_not_unused t a b v e r) ∙ r, d))
        ];
        counted = λ j. omega (
          arith,
          t.counted j,
          ap (λ l. count l j) p,
          count-cons k rest j,
          used-write nums k j a none_at,
        );
        bounded = λ b v f. elim (find-write-some ip_key reals a b w v f) [
          | inl (s, r) ↦ omega (arith, ap count_of r, u)
          | inr (s, g) ↦ omega (arith, t.bounded b v g)
        ];
        held = λ b v f. elim (find-write-some ip_key reals a b w v f) [
          | inl (s, r) ↦ omega (arith, ap count_of r, ap c' (ap num_of r), ap q' s, h)
          | inr (s, g) ↦ omega (
            arith,
            t.held b v g,
            o.numbers v.num (num_not_unused t b v k g none_at),
            o.addresses b s,
          )
        ];
        unheld = λ j f.
            let (s, g) = find-write-none number_key nums k j a f in
            omega (arith, t.unheld j g, o.numbers j s);
        unheld_address = λ b f.
            let (s, g) = find-write-none ip_key reals a b w f in
            omega (arith, t.unheld_address b g, o.addresses b s);
      }
