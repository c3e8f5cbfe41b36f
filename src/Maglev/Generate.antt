-- ===== src/Maglev/Generate.antt =====
-- GenerateMaglevHash (katran/lib/CHHelpers.cpp) as a whole.
use katran.Base.{
  ℕ, zero, suc, ◌+◌, ◌-◌, ◌*◌, ◌%◌, ◌^◌, ◌≤◌, ◌<◌, ◌≡◌, refl, ap, subst, u32, ◌∙◌, Bool, true,
  false, ◌==◌, ◌||◌, ◌&&◌, arith,
}
use katran.Base.{some, List, [], ◌∷◌}
use native.Mathlib.Nat.{mod-lt, mod-eq_of_lt}
use katran.Maglev.{
  Ring, Endpoint, free_slot, k_hash_seed0, k_hash_seed1, k_hash_seed2, k_hash_seed3,
  gen_maglev_permutation, gen_permutations, generate_maglev_hash,
}
use katran.Maglev.Inverse.{IsPrime}
use katran.Maglev.Seek.{Walks}
use katran.Maglev.Count.{taken_count-free}
use katran.Maglev.Complete.{AllReady, Filled, rounds-Filled}

abbrev pub is_num_of : List Endpoint → ℕ → Bool
is_num_of [] v = false
is_num_of (e ∷ es) v = (v == e.num) || is_num_of es v

-- Every slot below `n` holds the number of one of the endpoints.
unfoldable pub numbered : List Endpoint → Ring → ℕ → Bool
numbered es ring zero = true
numbered es ring (suc n) = is_num_of es (ring n) && numbered es ring n

all-numbered :
    (es : List Endpoint) (ring : Ring) (n : ℕ)
    → ((k : ℕ) → k < n → is_num_of es (ring k) ≡ true)
    → numbered es ring n ≡ true
unfolding numbered
all-numbered es ring zero h = refl
all-numbered es ring (suc n) h =
    ap (λ x. x && numbered es ring n) (h n (omega arith))
    ∙ all-numbered es ring n (λ k l. h k (omega arith))

offset-lt : (x r : ℕ) → 1 ≤ r → r < 2 ^ 32 → u32 (x % r) < r
offset-lt x r l h = let m = mod-lt x {m = r} l in omega (arith, mod-eq_of_lt)

skip-bounds :
    (x d c : ℕ) → d ≡ c → 1 ≤ c → suc c < 2 ^ 32 → (1 ≤ u32 (x % d + 1)) × (u32 (x % d + 1) < suc c)
skip-bounds x d c e l h = let m = mod-lt x {m = d} (omega arith) in (omega arith, omega arith)

pub numbered-agree :
    (es : List Endpoint) (a b : Ring) (n : ℕ)
    → ((k : ℕ) → k < n → a k ≡ b k)
    → numbered es a n ≡ numbered es b n
unfolding numbered
numbered-agree es a b zero h = refl
numbered-agree es a b (suc n) h =
    ap (λ x. is_num_of es x && numbered es a n) (h n (omega arith))
    ∙ ap (λ x. is_num_of es (b n) && x) (numbered-agree es a b n (λ k l. h k (omega arith)))

module _ (murmur : ℕ → ℕ → ℕ → ℕ) where
  -- A number that is not negative as an int, a weight, and a walk that does not leave 32 bits.
  pub record Proper (ring_size : ℕ) (e : Endpoint) : Type 0 where
    pub num_lt : e.num < 2 ^ 31
    pub heavy : 1 ≤ e.weight
    pub no_wrap :
        let w = gen_maglev_permutation murmur ring_size e in
        w.offset + (ring_size - 1) * w.skip < 2 ^ 32

  abbrev pub AllProper : ℕ → List Endpoint → Type 0
  AllProper ring_size [] = Unit
  AllProper ring_size (e ∷ es) = (Proper ring_size e) × (AllProper ring_size es)

  gen-Walks :
      (c : ℕ) (e : Endpoint)
      → 1 ≤ c
      → suc c < 2 ^ 32
      → Proper (suc c) e
      → Walks c (gen_maglev_permutation murmur (suc c) e)
  unfolding gen_maglev_permutation
  gen-Walks c e l h p = record {
    offset_lt = offset-lt (murmur e.hash k_hash_seed2 k_hash_seed0) (suc c) (omega arith) h;
    skip_pos =
        (skip-bounds (murmur e.hash k_hash_seed3 k_hash_seed1) (suc c - 1) c (omega arith) l h).0;
    skip_lt =
        (skip-bounds (murmur e.hash k_hash_seed3 k_hash_seed1) (suc c - 1) c (omega arith) l h).1;
    no_wrap =
        let w = gen_maglev_permutation murmur (suc c) e in
        let pred : suc c - 1 ≡ c = omega arith in
        subst (λ x. w.offset + x * w.skip < 2 ^ 32) pred p.no_wrap;
  }

  module _ (P : ℕ → Type 0) where
    Owned : List Endpoint → Type 0
    Owned [] = Unit
    Owned (e ∷ es) = (P e.num) × (Owned es)

    gen-AllReady :
        (c : ℕ) (es : List Endpoint)
        → 1 ≤ c
        → suc c < 2 ^ 32
        → AllProper (suc c) es
        → Owned es
        → AllReady P c (λ _. free_slot) (gen_permutations murmur (suc c) es)
    unfolding AllReady Owned gen_permutations gen_maglev_permutation
    gen-AllReady c [] l h p o = tt
    gen-AllReady c (e ∷ es) l h (p, ps) (o, os) = (
      record {
        walks = gen-Walks c e l h p;
        heavy = p.heavy;
        num_lt = p.num_lt;
        owner = o;
        covered = λ m h. let none_before : ⊥ = omega arith in elim none_before [ ];
      },
      gen-AllReady c es l h ps os,
    )

  num_of-Owned :
      (es ds : List Endpoint)
      → ((v : ℕ) → is_num_of ds v ≡ true → is_num_of es v ≡ true)
      → Owned (λ v. is_num_of es v ≡ true) ds
  unfolding Owned
  num_of-Owned es [] h = tt
  num_of-Owned es (d ∷ ds) h =
      (h d.num (grind arith), num_of-Owned es ds (λ v k. h v (grind (arith, k))))

  single :
      (r : ℕ) (e : Endpoint)
      → (ring : Ring) × ((generate_maglev_hash murmur r (e ∷ []) ≡ some ring)
          × (numbered (e ∷ []) ring r ≡ true))
  unfolding generate_maglev_hash
  single r e = (λ _. e.num, (refl, all-numbered (e ∷ []) (λ _. e.num) r (λ k l. grind arith)))

  several :
      (c : ℕ) (e d : Endpoint) (es : List Endpoint)
      → IsPrime (suc c)
      → suc c < 2 ^ 32
      → AllProper (suc c) (e ∷ d ∷ es)
      → (ring : Ring) × ((generate_maglev_hash murmur (suc c) (e ∷ d ∷ es) ≡ some ring)
          × (numbered (e ∷ d ∷ es) ring (suc c) ≡ true))
  unfolding generate_maglev_hash gen_permutations Filled
  several c e d es prime h p =
      let fs = e ∷ d ∷ es in
      let P : ℕ → Type 0 = λ v. is_num_of fs v ≡ true in
      let ready =
        gen-AllReady P c fs (omega (arith, prime.two_le)) h p (num_of-Owned fs fs (λ v k. k)) in
      let (ring, (r, f)) =
        rounds-Filled P c prime (suc (suc c)) (gen_permutations murmur (suc c) fs)
          (record { result = λ _. free_slot; runs = 0 }) ready refl
          (record { counts = taken_count-free (suc c); owned = λ k t. grind (arith, t) })
          (omega arith) (omega arith) in
      (ring, (r, all-numbered fs ring (suc c) (λ k l. (f k l).1)))

  -- For a prime ring size and endpoints whose walks do not leave 32 bits, GenerateMaglevHash
  -- returns, and every slot of the ring that it returns holds the number of an endpoint.
  pub generate_maglev_hash-numbered :
      (ring_size : ℕ) (e : Endpoint) (es : List Endpoint)
      → IsPrime ring_size
      → ring_size < 2 ^ 32
      → AllProper ring_size (e ∷ es)
      → (ring : Ring) × ((generate_maglev_hash murmur ring_size (e ∷ es) ≡ some ring)
          × (numbered (e ∷ es) ring ring_size ≡ true))
  generate_maglev_hash-numbered r e [] prime h p = single r e
  generate_maglev_hash-numbered zero e (d ∷ es) prime h p =
      let not_zero : ⊥ = omega (arith, prime.two_le) in elim not_zero [ ]
  generate_maglev_hash-numbered (suc c) e (d ∷ es) prime h p = several c e d es prime h p
