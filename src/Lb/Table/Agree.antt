-- ===== src/Lb/Table/Agree.antt =====
-- The two maps of the reals, `reals_` and `numToReals_` (katran/lib/KatranLb.h), say the same.
use katran.Base.{
  ℕ, ◌≡◌, sym, ap, ◌∙◌, Bool, true, false, Bool-cases, Option-cases, ◌==◌, ==→eq, ==-refl, arith,
}
use katran.Base.{inl, inr, Option, none, some, List, number_key, find}
use katran.Lb.{IpAddress, RealMeta, same_address}
use katran.Lb.Keys.{ip_key, address_refl, address-eq}

-- Whether a number is that of the address; whether a real has the number.
abbrev pub gives_address : Option IpAddress → IpAddress → Bool
gives_address none a = false
gives_address (some b) a = same_address b a

abbrev pub has_number : Option RealMeta → ℕ → Bool
has_number none k = false
has_number (some m) k = m.num == k

pub both_ways :
    (reals : List (IpAddress × RealMeta)) (nums : List (ℕ × IpAddress)) (k : ℕ) (a : IpAddress)
    → ((a : IpAddress) (m : RealMeta)
        → find ip_key reals a ≡ some m
        → find number_key nums m.num ≡ some a)
    → ((k : ℕ) (a : IpAddress)
        → find number_key nums k ≡ some a
        → (m : RealMeta) × ((find ip_key reals a ≡ some m) × (m.num ≡ k)))
    → gives_address (find number_key nums k) a ≡ has_number (find ip_key reals a) k
both_ways reals nums k a inverse real = elim (Bool-cases (has_number (find ip_key reals a) k)) [
  | inl h ↦ elim (Option-cases (find ip_key reals a)) [
    | inl e ↦
        let absurd : false ≡ true = sym (ap (λ o. has_number o k) e) ∙ h in grind (arith, absurd)
    | inr (m, e) ↦
        let p : m.num ≡ k = ==→eq m.num k (sym (ap (λ o. has_number o k) e) ∙ h) in
        let q : find number_key nums k ≡ some a =
          ap (find number_key nums) (sym p) ∙ inverse a m e in
        ap (λ o. gives_address o a) q ∙ address_refl a ∙ sym h
  ]
  | inr h ↦ elim (Option-cases (find number_key nums k)) [
    | inl e ↦ ap (λ o. gives_address o a) e ∙ sym h
    | inr (b, e) ↦ elim (Bool-cases (same_address b a)) [
      | inr d ↦ ap (λ o. gives_address o a) e ∙ d ∙ sym h
      | inl d ↦
          let (m, (f, p)) = real k b e in
          let g : find ip_key reals a ≡ some m =
            ap (find ip_key reals) (sym (address-eq b a d)) ∙ f in
          let absurd : true ≡ false =
            sym (==-refl k) ∙ ap (λ j. j == k) (sym p) ∙ sym (ap (λ o. has_number o k) g) ∙ h in
          grind (arith, absurd)
    ]
  ]
]
