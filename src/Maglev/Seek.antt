-- ===== src/Maglev/Seek.antt =====
-- The `while` loop of GenerateMaglevHash (katran/lib/CHHelpers.cpp) finds a free slot.
use katran.Base.{
  ℕ, zero, suc, ◌+◌, ◌*◌, ◌-◌, ◌%◌, ◌^◌, ◌≤◌, ◌<◌, ◌≡◌, ap, ◌∙◌, true, false, Bool-cases, arith,
}
use katran.Base.{◌⊎◌, inl, inr, some}
use native.Mathlib.Nat.{mod-lt, mod-eq_of_lt}
use katran.Maglev.{all_steps, Ring, taken, slot, seek, Walker}
use katran.Maglev.Inverse.{IsPrime, visits}
use katran.Maglev.Count.{taken_count, free_below}

-- An endpoint whose walk, for a ring of `suc c` slots, does not leave 32 bits.
pub record Walks (c : ℕ) (w : Walker) : Type 0 where
  pub offset_lt : w.offset < suc c
  pub skip_pos : 1 ≤ w.skip
  pub skip_lt : w.skip < suc c
  pub no_wrap : w.offset + c * w.skip < 2 ^ 32

-- The first `n` slots of the walk are taken.
abbrev pub CoveredTo : ℕ → Ring → Walker → ℕ → Type 0
CoveredTo ring_size ring w n = (m : ℕ) → m < n → taken (ring (slot ring_size w m)) ≡ true

mul-le : (n c s : ℕ) → n ≤ c → n * s ≤ c * s
mul-le n c s h =
    let d = c - n in let e : n + d ≡ c = omega arith in omega (arith, ap (λ x. x * s) e)

le-mul : (c s : ℕ) → 1 ≤ s → c ≤ c * s
le-mul c s h = let t = s - 1 in let e : 1 + t ≡ s = omega arith in omega (arith, ap (λ x. c * x) e)

slot-eq :
    (c : ℕ) (w : Walker) (n : ℕ)
    → Walks c w
    → n < suc c
    → slot (suc c) w n ≡ (w.offset + n * w.skip) % suc c
unfolding slot
slot-eq c w n g h =
    let le = mul-le n c w.skip (omega arith) in
    ap (λ x. x % suc c)
      (ap (λ x. (w.offset + x) % 2 ^ 32) (mod-eq_of_lt (omega (arith, g.no_wrap)))
        ∙ mod-eq_of_lt (omega (arith, g.no_wrap)))

pub slot-lt : (c : ℕ) (w : Walker) (n : ℕ) → slot (suc c) w n < suc c
unfolding slot
slot-lt c w n = mod-lt _ (omega arith)

-- What `seek` finds: the first free slot of the walk from `next` on.
pub record Finds (ring_size fuel : ℕ) (ring : Ring) (w : Walker) (n : ℕ) : Type 0 where
  pub result : seek fuel ring_size ring w ≡ some (record w { next = n })
  pub is_free : taken (ring (slot ring_size w n)) ≡ false
  pub covered : CoveredTo ring_size ring w n

lt-cases : (m n : ℕ) → (m < n) ⊎ (n ≤ m)
lt-cases m n = ground arith

lt_suc-cases : (m n : ℕ) → m < suc n → (m < n) ⊎ (m ≡ n)
lt_suc-cases m n h = ground arith

pub covered-suc :
    (r : ℕ) (ring : Ring) (w : Walker) (n : ℕ)
    → CoveredTo r ring w n
    → taken (ring (slot r w n)) ≡ true
    → CoveredTo r ring w (suc n)
covered-suc r ring w n h t m l = elim (lt_suc-cases m n l) [
  | inl a ↦ h m a
  | inr b ↦ ap (λ x. taken (ring (slot r w x))) b ∙ t
]

-- The slot wanted lies behind one that is taken.
later :
    (ring : Ring) (r m : ℕ) (w : Walker)
    → w.next ≤ m
    → taken (ring (slot r w w.next)) ≡ true
    → taken (ring (slot r w m)) ≡ false
    → suc w.next ≤ m
later ring r m w l t f = elim (lt_suc-cases w.next m (omega arith)) [
  | inl a ↦ omega arith
  | inr b ↦ grind (arith, ap (λ x. taken (ring (slot r w x))) b)
]

pub seek-Finds :
    (fuel r : ℕ) (ring : Ring) (w : Walker) (m : ℕ)
    → CoveredTo r ring w w.next
    → w.next ≤ m
    → taken (ring (slot r w m)) ≡ false
    → m < w.next + fuel
    → (n : ℕ) × Finds r fuel ring w n
unfolding seek slot
seek-Finds zero r ring w m cov l f h = let x : ⊥ = omega arith in elim x [ ]
seek-Finds (suc fuel) r ring w m cov l f h = elim (Bool-cases (taken (ring (slot r w w.next)))) [
  | inl t ↦
      let (n, found) =
        seek-Finds fuel r ring (record w { next = suc w.next }) m
          (covered-suc r ring w w.next cov t) (later ring r m w l t f) f (omega arith) in
      (
        n,
        record {
          result = grind (arith, t, found.result);
          is_free = found.is_free;
          covered = found.covered;
        },
      )
  | inr g ↦ (w.next, record { result = grind (arith, g); is_free = g; covered = cov })
]

-- The slots before `next` are not the free one.
beyond_next :
    (ring : Ring) (r m : ℕ) (w : Walker)
    → CoveredTo r ring w w.next
    → taken (ring (slot r w m)) ≡ false
    → w.next ≤ m
beyond_next ring r m w cov f = elim (lt-cases m w.next) [
  | inl a ↦ grind (arith, cov m a)
  | inr b ↦ b
]

-- A walker finds a free slot as long as there is one.
pub Finds-free :
    (c : ℕ) (ring : Ring) (w : Walker)
    → IsPrime (suc c)
    → Walks c w
    → CoveredTo (suc c) ring w w.next
    → taken_count ring (suc c) < suc c
    → (n : ℕ) × Finds (suc c) all_steps ring w n
Finds-free c ring w prime g cov h =
    let (k, (l, f)) = free_below ring (suc c) h in
    let (m, (u, e)) = visits c prime w.offset w.skip k g.offset_lt g.skip_pos g.skip_lt l in
    let is_free : taken (ring (slot (suc c) w m)) ≡ false =
      ap (λ x. taken (ring x)) (slot-eq c w m g u ∙ e) ∙ f in
    let few = le-mul c w.skip g.skip_pos in
    seek-Finds all_steps (suc c) ring w m cov (beyond_next ring (suc c) m w cov is_free) is_free
      (omega (arith, u, few, g.no_wrap))
