-- ===== src/Base/Totals.antt =====
-- Sums over the values of an association list, and how often a number stands in a list.
use Prim.Native.Nat.{ℕ, ◌+◌, ◌≤◌}
use mathlib.Core.Path.{◌≡◌}
use mathlib.Core.Bool.{Bool, true, false}
use mathlib.Core.Logic.{inl, inr}
use mathlib.Core.Option.{none, some}
use mathlib.Core.List.{List, [], ◌∷◌, ◌++◌}
use katran.Base.Tests.{◌==◌, Bool-cases}
use katran.Base.Assoc.{Key, find, erase, write}
use native.Mathlib.Omega.{arith}

abbrev pub one_if : Bool → ℕ
one_if true = 1
one_if false = 0

unfoldable pub count : List ℕ → ℕ → ℕ
count [] k = 0
count (n ∷ ns) k = one_if (n == k) + count ns k

pub count-append : (ms ns : List ℕ) (k : ℕ) → count (ms ++ ns) k ≡ count ms k + count ns k
unfolding count
count-append [] ns k = omega arith
count-append (m ∷ ms) ns k = omega (arith, count-append ms ns k)

pub count-last : (ms : List ℕ) (n k : ℕ) → count (ms ++ (n ∷ [])) k ≡ count ms k + one_if (n == k)
unfolding count
count-last ms n k = omega (arith, count-append ms (n ∷ []) k)

unfoldable pub total : {K V : Type 0} → (V → ℕ) → List (K × V) → ℕ
total f [] = 0
total f ((b, v) ∷ m) = f v + total f m

module _ {K V : Type 0} (key : Key K) (f : V → ℕ) where
  pub total-write_found :
      (m : List (K × V)) (a : K) (v u : V)
      → find key m a ≡ some v
      → total f (write key m a u) + f v ≡ total f m + f u
  unfolding total find write
  total-write_found [] a v u e = grind (arith, e)
  total-write_found ((b, w) ∷ m) a v u e = elim (Bool-cases (key.same b a)) [
    | inl s ↦ grind (arith, e, s)
    | inr s ↦ grind (arith, e, s, total-write_found m a v u)
  ]

  pub total-write_missing :
      (m : List (K × V)) (a : K) (u : V)
      → find key m a ≡ none
      → total f (write key m a u) ≡ total f m + f u
  unfolding total find write
  total-write_missing [] a u e = omega arith
  total-write_missing ((b, w) ∷ m) a u e = elim (Bool-cases (key.same b a)) [
    | inl s ↦ grind (arith, e, s)
    | inr s ↦ grind (arith, e, s, total-write_missing m a u)
  ]

  pub total-erase_le : (m : List (K × V)) (a : K) → total f (erase key m a) ≤ total f m
  unfolding total erase
  total-erase_le [] a = omega arith
  total-erase_le ((b, w) ∷ m) a = elim (Bool-cases (key.same b a)) [
    | inl s ↦ grind (arith, s, total-erase_le m a)
    | inr s ↦ grind (arith, s, total-erase_le m a)
  ]

  pub total-erase :
      (m : List (K × V)) (a : K) (v : V)
      → find key m a ≡ some v
      → total f (erase key m a) + f v ≤ total f m
  unfolding total find erase
  total-erase [] a v e = grind (arith, e)
  total-erase ((b, w) ∷ m) a v e = elim (Bool-cases (key.same b a)) [
    | inl s ↦ grind (arith, e, s, total-erase_le m a)
    | inr s ↦ grind (arith, e, s, total-erase m a v)
  ]

  pub total-write_le :
      (m : List (K × V)) (a : K) (u : V) → total f (write key m a u) ≤ total f m + f u
  unfolding total write
  total-write_le [] a u = omega arith
  total-write_le ((b, w) ∷ m) a u = elim (Bool-cases (key.same b a)) [
    | inl s ↦ grind (arith, s)
    | inr s ↦ grind (arith, s, total-write_le m a u)
  ]

  pub total-find : (m : List (K × V)) (a : K) (v : V) → find key m a ≡ some v → f v ≤ total f m
  unfolding total find
  total-find [] a v e = grind (arith, e)
  total-find ((b, w) ∷ m) a v e = elim (Bool-cases (key.same b a)) [
    | inl s ↦ grind (arith, e, s)
    | inr s ↦ grind (arith, e, s, total-find m a v)
  ]
