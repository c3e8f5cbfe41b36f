-- ===== src/Maglev.antt =====
-- katran/lib/CHHelpers.h, katran/lib/CHHelpers.cpp: the consistent hashing ring of a VIP.
-- `std::vector<int>` of the ring is a function from positions, its elements 32-bit patterns: a
-- slot is free (-1, negative) from 2 ^ 31 on. MurmurHash3_x64_64 (hash, seed, seed) is a
-- parameter. The elements of `permutation`, `next` and `endpoints` at one index are a `Walker`.
pub mod Inverse
pub mod Count
pub mod Seek
pub mod Turns
pub mod Complete
pub mod Generate
pub mod Period
pub mod Wraps
use katran.Base.{ℕ, zero, suc, ◌+◌, ◌-◌, ◌*◌, ◌%◌, ◌^◌, Bool, true, false, ltb, ◌==◌, if◌then◌else◌}
use katran.Base.{Option, none, some, ◌>>=◌, List, [], ◌∷◌, u32}

abbrev pub k_default_ch_ring_size : ℕ
k_default_ch_ring_size = 65537

abbrev pub k_hash_seed0 : ℕ
k_hash_seed0 = 0

abbrev pub k_hash_seed1 : ℕ
k_hash_seed1 = 2307

abbrev pub k_hash_seed2 : ℕ
k_hash_seed2 = 42

abbrev pub k_hash_seed3 : ℕ
k_hash_seed3 = 2718281828

pub record Endpoint : Type 0 where
  pub num : ℕ
  pub weight : ℕ
  pub hash : ℕ

pub record Walker : Type 0 where
  pub num : ℕ
  pub weight : ℕ
  pub offset : ℕ
  pub skip : ℕ
  pub next : ℕ

-- A vector<int> by position.
abbrev pub Ring : Type 0
Ring = ℕ → ℕ

-- -1
abbrev pub free_slot : ℕ
free_slot = 2 ^ 32 - 1

-- `result[cur] >= 0`
abbrev pub taken : ℕ → Bool
taken v = ltb v (2 ^ 31)

abbrev pub put : Ring → ℕ → ℕ → Ring
put ring i v k = if k == i then v else ring k

-- `(offset + next[i] * skip) % ring_size` on uint32_t.
unfoldable pub slot : ℕ → Walker → ℕ → ℕ
slot ring_size w n = u32 (w.offset + u32 (n * w.skip)) % ring_size

-- `result` and `runs`.
pub record Build : Type 0 where
  pub result : Ring
  pub runs : ℕ

-- The `while` loop.
unfoldable pub seek : ℕ → ℕ → Ring → Walker → Option Walker
seek zero ring_size ring w = none
seek (suc fuel) ring_size ring w = elim (taken (ring (slot ring_size w w.next))) [
  | true ↦ seek fuel ring_size ring (record w { next = suc w.next })
  | false ↦ some w
]

-- The walk has a period of 2 ^ 32 steps, so that a search without a result in as many has none.
abbrev pub all_steps : ℕ
all_steps = 2 ^ 32

-- The rest of the body of the loop on `j`.
unfoldable pub place : ℕ → Walker → Build → Walker × Build
place ring_size w b = (
  record w { next = suc w.next },
  record { result = put b.result (slot ring_size w w.next) w.num; runs = suc b.runs },
)

-- The loop on `j`, which returns from the function once the ring is full.
unfoldable pub turns : ℕ → ℕ → Walker → Build → Option (Walker × Build)
turns zero ring_size w b = some (w, b)
turns (suc j) ring_size w b = do
  v ← seek all_steps ring_size b.result w
  let placed = place ring_size v b
  elim (placed.1.runs == ring_size) [
    | true ↦ some placed
    | false ↦ turns j ring_size placed.0 placed.1
  ]

-- The loop on `i`.
unfoldable pub round : ℕ → List Walker → Build → Option (List Walker × Build)
round ring_size [] b = some ([], b)
round ring_size (w ∷ ws) b = do
  (v, c) ← turns w.weight ring_size w b
  elim (c.runs == ring_size) [
    | true ↦ some (v ∷ ws, c)
    | false ↦ do (vs, d) ← round ring_size ws c; some ((record v { weight = 1 }) ∷ vs, d)
  ]

-- `for (;;)`
unfoldable pub rounds : ℕ → ℕ → List Walker → Build → Option Ring
rounds zero ring_size ws b = none
rounds (suc fuel) ring_size ws b = do
  (vs, c) ← round ring_size ws b
  elim (c.runs == ring_size) [ true ↦ some c.result | false ↦ rounds fuel ring_size vs c ]

module _ (murmur_hash3_x64_64 : ℕ → ℕ → ℕ → ℕ) where
  -- The two elements at the position of the endpoint, next to the endpoint and its `next`.
  unfoldable pub gen_maglev_permutation : ℕ → Endpoint → Walker
  gen_maglev_permutation ring_size endpoint = record {
    num = endpoint.num;
    weight = endpoint.weight;
    offset = u32 (murmur_hash3_x64_64 endpoint.hash k_hash_seed2 k_hash_seed0 % ring_size);
    skip = u32 (murmur_hash3_x64_64 endpoint.hash k_hash_seed3 k_hash_seed1 % (ring_size - 1) + 1);
    next = 0;
  }

  unfoldable pub gen_permutations : ℕ → List Endpoint → List Walker
  gen_permutations ring_size [] = []
  gen_permutations ring_size (e ∷ es) =
      gen_maglev_permutation ring_size e ∷ gen_permutations ring_size es

  -- The fuel is more than the number of slots, and each round takes a slot or does not return.
  unfoldable pub generate_maglev_hash : ℕ → List Endpoint → Option Ring
  generate_maglev_hash ring_size [] = some (λ _. free_slot)
  generate_maglev_hash ring_size (e ∷ []) = some (λ _. e.num)
  generate_maglev_hash ring_size (e ∷ d ∷ es) =
      rounds (suc ring_size) ring_size (gen_permutations ring_size (e ∷ d ∷ es))
        (record { result = λ _. free_slot; runs = 0 })
