-- ===== src/Base/Assoc.antt =====
-- Association lists for the maps of the control plane, over keys with a Boolean equality.
use Prim.Native.Nat.{ℕ}
use mathlib.Core.Path.{◌≡◌, refl, sym, ap, ◌∙◌}
use mathlib.Core.Bool.{Bool, true, false}
use mathlib.Core.Logic.{◌⊎◌, inl, inr}
use mathlib.Core.Option.{Option, none, some}
use mathlib.Core.List.{List, [], ◌∷◌}
use katran.Base.Tests.{if◌then◌else◌, ◌==◌, ==→eq, Bool-cases}
use native.Mathlib.Omega.{arith}

pub record Key (K : Type 0) : Type 0 where
  pub same : K → K → Bool
  pub same→eq : (a b : K) → same a b ≡ true → a ≡ b
  pub same_refl : (a : K) → same a a ≡ true

pub ==-refl : (a : ℕ) → (a == a) ≡ true
==-refl a = ground arith

abbrev pub number_key : Key ℕ
number_key = record { same = ◌==◌; same→eq = ==→eq; same_refl = ==-refl }

some-injective : {V : Type 0} (v w : V) → some v ≡ some w → v ≡ w
some-injective v w e = grind (arith, e)

module _ {K V : Type 0} (key : Key K) where
  unfoldable pub find : List (K × V) → K → Option V
  find [] a = none
  find ((b, v) ∷ m) a = elim (key.same b a) [ true ↦ some v | false ↦ find m a ]

  unfoldable pub erase : List (K × V) → K → List (K × V)
  erase [] a = []
  erase ((b, v) ∷ m) a = let rest = erase m a in if key.same b a then rest else (b, v) ∷ rest

  -- In place where the key is there, at the end where it is not.
  unfoldable pub write : List (K × V) → K → V → List (K × V)
  write [] a u = (a, u) ∷ []
  write ((b, v) ∷ m) a u =
      let rest = write m a u in if key.same b a then (b, u) ∷ m else (b, v) ∷ rest

  pub find-write_same : (m : List (K × V)) (a : K) (v : V) → find (write m a v) a ≡ some v
  unfolding find write
  find-write_same [] a v = grind (arith, key.same_refl a)
  find-write_same ((b, u) ∷ m) a v = elim (Bool-cases (key.same b a)) [
    | inl e ↦ grind (arith, e)
    | inr e ↦ grind (arith, e, find-write_same m a v)
  ]

  pub find-write_other :
      (m : List (K × V)) (a b : K) (v : V) → key.same a b ≡ false → find (write m a v) b ≡ find m b
  unfolding find write
  find-write_other [] a b v h = grind (arith, h)
  find-write_other ((c, u) ∷ m) a b v h = elim (Bool-cases (key.same c a)) [
    | inl e ↦ grind (arith, e, ap (λ x. key.same x b) (key.same→eq c a e), h)
    | inr e ↦ grind (arith, e, find-write_other m a b v h)
  ]

  pub find-erase_same : (m : List (K × V)) (a : K) → find (erase m a) a ≡ none
  unfolding find erase
  find-erase_same [] a = refl
  find-erase_same ((b, u) ∷ m) a = elim (Bool-cases (key.same b a)) [
    | inl e ↦ grind (arith, e, find-erase_same m a)
    | inr e ↦ grind (arith, e, find-erase_same m a)
  ]

  pub find-erase_other :
      (m : List (K × V)) (a b : K) → key.same a b ≡ false → find (erase m a) b ≡ find m b
  unfolding find erase
  find-erase_other [] a b h = refl
  find-erase_other ((c, u) ∷ m) a b h = elim (Bool-cases (key.same c a)) [
    | inl e ↦
        grind (arith, e, ap (λ x. key.same x b) (key.same→eq c a e), h, find-erase_other m a b h)
    | inr e ↦ grind (arith, e, find-erase_other m a b h)
  ]

  pub find-write-some :
      (m : List (K × V)) (a b : K) (v w : V)
      → find (write m a v) b ≡ some w
      → ((a ≡ b) × (v ≡ w)) ⊎ ((key.same a b ≡ false) × (find m b ≡ some w))
  find-write-some m a b v w e = elim (Bool-cases (key.same a b)) [
    | inl s ↦
        let p = key.same→eq a b s in
        inl (p, some-injective v w (sym (find-write_same m a v) ∙ ap (find (write m a v)) p ∙ e))
    | inr s ↦ inr (s, sym (find-write_other m a b v s) ∙ e)
  ]

  pub find-write-none :
      (m : List (K × V)) (a b : K) (v : V)
      → find (write m a v) b ≡ none
      → (key.same a b ≡ false) × (find m b ≡ none)
  find-write-none m a b v e = elim (Bool-cases (key.same a b)) [
    | inl s ↦
        let absurd : some v ≡ none =
          sym (find-write_same m a v) ∙ ap (find (write m a v)) (key.same→eq a b s) ∙ e in
        grind (arith, absurd)
    | inr s ↦ (s, sym (find-write_other m a b v s) ∙ e)
  ]

  pub find-erase-some :
      (m : List (K × V)) (a b : K) (w : V)
      → find (erase m a) b ≡ some w
      → (key.same a b ≡ false) × (find m b ≡ some w)
  find-erase-some m a b w e = elim (Bool-cases (key.same a b)) [
    | inl s ↦
        let absurd : none ≡ some w =
          sym (find-erase_same m a) ∙ ap (find (erase m a)) (key.same→eq a b s) ∙ e in
        grind (arith, absurd)
    | inr s ↦ (s, sym (find-erase_other m a b s) ∙ e)
  ]

  pub find-erase-none :
      (m : List (K × V)) (a b : K)
      → find (erase m a) b ≡ none
      → (a ≡ b) ⊎ ((key.same a b ≡ false) × (find m b ≡ none))
  find-erase-none m a b e = elim (Bool-cases (key.same a b)) [
    | inl s ↦ inl (key.same→eq a b s)
    | inr s ↦ inr (s, sym (find-erase_other m a b s) ∙ e)
  ]
