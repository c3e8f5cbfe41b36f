-- ===== src/Lb/Table.antt =====
-- What `reals_`, `numToReals_` and `realNums_` (katran/lib/KatranLb.h) keep to, together with the
-- claims on them: how often a number, and an address, is referred to.
pub mod Moves
pub mod Agree
use katran.Base.{
  ℕ, suc, ◌+◌, ◌≤◌, ◌≡◌, refl, sym, ap, ◌∙◌, Bool, true, false, Bool-cases, ◌==◌, ==→eq, ==-refl,
  ltb, one_if, count, count-last, arith,
}
use katran.Base.{inl, inr, Option, none, some, List, [], ◌∷◌, ◌++◌, number_key, find, erase, write}
use katran.Base.{
  find-write-some, find-write-none, find-erase-some, find-erase-none, find-write_same,
  find-write_other, find-erase_same, find-erase_other,
}
use katran.Lb.{IpAddress, RealMeta, same_address}
use katran.Lb.Keys.{ip_key, address_refl, address-eq}

abbrev pub used {ℓ} : {A : Type ℓ} → Option A → ℕ
used none = 0
used (some a) = 1

used-none : {A : Type 0} (o : Option A) → used o ≡ 0 → o ≡ none
used-none none h = refl
used-none (some a) h = grind (arith, h)

pub one_if-le : (b : Bool) → one_if b ≤ 1
one_if-le true = omega arith
one_if-le false = omega arith

pub count-head : (k : ℕ) (rest : List ℕ) → count (k ∷ rest) k ≡ suc (count rest k)
unfolding count
count-head k rest = omega (arith, ap one_if (==-refl k))

count-cons : (k : ℕ) (rest : List ℕ) (j : ℕ) → count (k ∷ rest) j ≡ one_if (k == j) + count rest j
unfolding count
count-cons k rest j = refl

used-erase :
    (nums : List (ℕ × IpAddress)) (k j : ℕ) (a : IpAddress)
    → find number_key nums k ≡ some a
    → used (find number_key (erase number_key nums k) j) + one_if (k == j)
      ≡ used (find number_key nums j)
used-erase nums k j a e = elim (Bool-cases (k == j)) [
  | inl s ↦
      let r = ==→eq k j s in
      omega (
        arith,
        ap one_if s,
        ap used (
            sym (ap (find number_key (erase number_key nums k)) r)
            ∙ find-erase_same number_key nums k),
        ap used (sym (ap (find number_key nums) r) ∙ e),
      )
  | inr s ↦ omega (arith, ap one_if s, ap used (find-erase_other number_key nums k j s))
]

used-write :
    (nums : List (ℕ × IpAddress)) (k j : ℕ) (a : IpAddress)
    → find number_key nums k ≡ none
    → used (find number_key (write number_key nums k a) j)
      ≡ used (find number_key nums j) + one_if (k == j)
used-write nums k j a e = elim (Bool-cases (k == j)) [
  | inl s ↦
      let r = ==→eq k j s in
      omega (
        arith,
        ap one_if s,
        ap used (
            sym (ap (find number_key (write number_key nums k a)) r)
            ∙ find-write_same number_key nums k a),
        ap used (sym (ap (find number_key nums) r) ∙ e),
      )
  | inr s ↦ omega (arith, ap one_if s, ap used (find-write_other number_key nums k j a s))
]

-- `c` claims a number, `q` an address; no count is above `n`.
pub record Table (max n : ℕ) (c : ℕ → ℕ) (q : IpAddress → ℕ) (reals : List (IpAddress × RealMeta))
    (nums : List (ℕ × IpAddress)) (free : List ℕ) : Type 0 where
  pub inverse :
      (a : IpAddress) (m : RealMeta)
      → find ip_key reals a ≡ some m
      → find number_key nums m.num ≡ some a
  pub real :
      (k : ℕ) (a : IpAddress)
      → find number_key nums k ≡ some a
      → (m : RealMeta) × ((find ip_key reals a ≡ some m) × (m.num ≡ k))
  pub counted : (k : ℕ) → count free k + used (find number_key nums k) ≡ one_if (ltb k max)
  pub bounded : (a : IpAddress) (m : RealMeta) → find ip_key reals a ≡ some m → m.ref_count ≤ n
  pub held :
      (a : IpAddress) (m : RealMeta) → find ip_key reals a ≡ some m → c m.num + q a ≤ m.ref_count
  pub unheld : (k : ℕ) → find number_key nums k ≡ none → c k ≡ 0
  pub unheld_address : (a : IpAddress) → find ip_key reals a ≡ none → q a ≡ 0

-- At most one claim more or less, on the real at address `a` with number `k`.
pub record Elsewhere (k : ℕ) (a : IpAddress) (c : ℕ → ℕ) (q : IpAddress → ℕ) (c' : ℕ → ℕ)
    (q' : IpAddress → ℕ) : Type 0 where
  pub numbers : (j : ℕ) → (k == j) ≡ false → c' j ≤ c j
  pub addresses : (b : IpAddress) → same_address a b ≡ false → q' b ≤ q b

abbrev num_of : RealMeta → ℕ
num_of m = m.num

abbrev count_of : RealMeta → ℕ
count_of m = m.ref_count

-- Two addresses have two numbers.
pub distinct_nums :
    {max n : ℕ} {c : ℕ → ℕ} {q : IpAddress → ℕ} {reals : List (IpAddress × RealMeta)}
    {nums : List (ℕ × IpAddress)} {free : List ℕ} (t : Table max n c q reals nums free)
    (a b : IpAddress) (m w : RealMeta)
    → find ip_key reals a ≡ some m
    → find ip_key reals b ≡ some w
    → same_address a b ≡ false
    → (m.num == w.num) ≡ false
distinct_nums {nums = nums} t a b m w e f s = elim (Bool-cases (m.num == w.num)) [
  | inr d ↦ d
  | inl d ↦
      let p : some a ≡ some b =
        sym (t.inverse a m e) ∙ ap (find number_key nums) (==→eq m.num w.num d) ∙ t.inverse b w f in
      grind (arith, address_refl a, s, p)
]

-- A number that is not used is not that of a real.
num_not_unused :
    {max n : ℕ} {c : ℕ → ℕ} {q : IpAddress → ℕ} {reals : List (IpAddress × RealMeta)}
    {nums : List (ℕ × IpAddress)} {free : List ℕ} (t : Table max n c q reals nums free)
    (b : IpAddress) (v : RealMeta) (k : ℕ)
    → find ip_key reals b ≡ some v
    → find number_key nums k ≡ none
    → (k == v.num) ≡ false
num_not_unused {nums = nums} t b v k e f = elim (Bool-cases (k == v.num)) [
  | inr d ↦ d
  | inl d ↦
      let absurd : none ≡ some b =
        sym f ∙ ap (find number_key nums) (==→eq k v.num d) ∙ t.inverse b v e in
      grind (arith, absurd)
]

unused_other :
    {max n : ℕ} {c : ℕ → ℕ} {q : IpAddress → ℕ} {reals : List (IpAddress × RealMeta)}
    {nums : List (ℕ × IpAddress)} {free : List ℕ} (t : Table max n c q reals nums free)
    (a : IpAddress) (m : RealMeta) (k : ℕ)
    → find ip_key reals a ≡ some m
    → find number_key nums k ≡ none
    → (m.num == k) ≡ false
unused_other t a m k e f = let d = num_not_unused t a m k e f in ground (arith, d)

address_not_unused :
    {max n : ℕ} {c : ℕ → ℕ} {q : IpAddress → ℕ} {reals : List (IpAddress × RealMeta)}
    {nums : List (ℕ × IpAddress)} {free : List ℕ} (t : Table max n c q reals nums free)
    (a b : IpAddress) (v : RealMeta)
    → find ip_key reals a ≡ none
    → find ip_key reals b ≡ some v
    → same_address a b ≡ false
address_not_unused {reals = reals} t a b v e f = elim (Bool-cases (same_address a b)) [
  | inr d ↦ d
  | inl d ↦
      let absurd : none ≡ some v = sym e ∙ ap (find ip_key reals) (address-eq a b d) ∙ f in
      grind (arith, absurd)
]

-- Two numbers have two addresses.
other_address :
    {max n : ℕ} {c : ℕ → ℕ} {q : IpAddress → ℕ} {reals : List (IpAddress × RealMeta)}
    {nums : List (ℕ × IpAddress)} {free : List ℕ} (t : Table max n c q reals nums free)
    (a b : IpAddress) (m v : RealMeta) (k : ℕ)
    → find ip_key reals a ≡ some m
    → find ip_key reals b ≡ some v
    → v.num ≡ k
    → (m.num == k) ≡ false
    → same_address a b ≡ false
other_address {reals = reals} t a b m v k e f p d = elim (Bool-cases (same_address a b)) [
  | inr s ↦ s
  | inl s ↦
      let same : some m ≡ some v = sym e ∙ ap (find ip_key reals) (address-eq a b s) ∙ f in
      grind (arith, d, p, ==-refl k, same)
]

rewritten :
    {max n : ℕ} {c : ℕ → ℕ} {q : IpAddress → ℕ} {reals : List (IpAddress × RealMeta)}
    {nums : List (ℕ × IpAddress)} {free : List ℕ} (t : Table max n c q reals nums free)
    (a : IpAddress) (m w : RealMeta) (k : ℕ) (b : IpAddress)
    → find ip_key reals a ≡ some m
    → w.num ≡ m.num
    → find number_key nums k ≡ some b
    → (v : RealMeta) × ((find ip_key (write ip_key reals a w) b ≡ some v) × (v.num ≡ k))
rewritten {reals = reals} t a m w k b e p f =
    let (v, (g, d)) = t.real k b f in
    elim (Bool-cases (same_address a b)) [
      | inl s ↦
          let r = address-eq a b s in
          let same : some m ≡ some v = sym e ∙ ap (find ip_key reals) r ∙ g in
          (
            w,
            (
              ap (find ip_key (write ip_key reals a w)) (sym r) ∙ find-write_same ip_key reals a w,
              grind (arith, p, d, same),
            ),
          )
      | inr s ↦ (v, (find-write_other ip_key reals a b w s ∙ g, d))
    ]

-- A number at the head of the free list is not used.
pub unused_free :
    {max n : ℕ} {c : ℕ → ℕ} {q : IpAddress → ℕ} {reals : List (IpAddress × RealMeta)}
    {nums : List (ℕ × IpAddress)} {free : List ℕ} (t : Table max n c q reals nums free) (k : ℕ)
    (rest : List ℕ)
    → free ≡ k ∷ rest
    → find number_key nums k ≡ none
unused_free {max = max} {nums = nums} t k rest p =
    used-none (find number_key nums k)
      (omega (arith, t.counted k, ap (λ l. count l k) p, count-head k rest, one_if-le (ltb k max)))
