-- ===== src/Encap/Taken.antt =====
-- katran/lib/bpf/pckt_encap.h: what the decapsulation takes off, and what it leaves.
use katran.Base.{
  ◌⊎◌, refl, ℕ, ◌+◌, ◌%◌, ◌^◌, ◌≤◌, ◌<◌, ◌≡◌, ◌≢◌, arith, Bool, true, inl, inr, Option, none, some,
}
use katran.Xdp.{Xdp, u16_at}
use katran.Xdp.Bytes.{behind_laws, u16_at-put16_self}
use katran.Run.{State, Run, done, exit, fault, write_bytes, memcpy, read_bytes}
use katran.Run.Bounds.{Leaves, Leaves-bind}
use katran.Kernel.{Kernel, AdjustLaws, move}
use katran.Encap.{move_eth, decap_by}
use katran.Encap.Payload.{Carries}

-- `t` is `x` from byte 14 on, with the EtherType `proto`.
abbrev pub GivesBack : ℕ → Xdp → Xdp → Type 0
GivesBack proto x t =
    (t.len ≡ x.len) × (u16_at t 12 ≡ proto) × ((i : ℕ) → 14 ≤ i → i < x.len → t.byte i ≡ x.byte i)

pub option_cases : {A : Type 0} (o : Option A) → (o ≡ none) ⊎ ((a : A) × (o ≡ some a))
option_cases none = inl refl
option_cases (some a) = inr (a, refl)

-- After move_eth, for one byte behind the new Ethernet header.
abbrev MovedByte : ℕ → ℕ → ℕ → State → State → Type 0
MovedByte i header proto s t =
    (t.xdp.len ≡ s.xdp.len)
    × (u16_at t.xdp (header + 12) ≡ proto % 2 ^ 16)
    × (header + 14 ≤ i → t.xdp.byte i ≡ s.xdp.byte i)

-- After the decapsulation.
abbrev TakenByte : ℕ → ℕ → ℕ → State → State → Type 0
TakenByte i header proto s t =
    (t.xdp.len + header ≡ s.xdp.len)
    × (u16_at t.xdp 12 ≡ proto % 2 ^ 16)
    × (i < t.xdp.len → t.xdp.byte i ≡ s.xdp.byte (header + i))

move_eth_at :
    (i header proto : ℕ) (s : State)
    → header + 14 ≤ s.xdp.len
    → Leaves (λ _. MovedByte i header proto s) (move_eth header proto s)
unfolding move_eth write_bytes memcpy read_bytes
move_eth_at i header proto s long = grind (behind_laws, u16_at-put16_self)

module _ (k : Kernel) (laws : AdjustLaws k) where
  taken :
      (i header proto : ℕ) (s t : State) (y : Xdp)
      → header + 14 ≤ s.xdp.len
      → 14 ≤ i
      → MovedByte (header + i) header proto s t
      → k.adjust_head_in header t.xdp ≡ some y
      → TakenByte i header proto s (record t { xdp = y })
  unfolding u16_at
  taken i header proto s t y long from moved took =
      let len = laws.in_len header t.xdp y took in
      let at12 = laws.in_byte header t.xdp y 12 took in
      let at13 = laws.in_byte header t.xdp y 13 took in
      let at = laws.in_byte header t.xdp y i took in grind arith

  move_taken :
      (i header proto : ℕ) (s t : State)
      → header + 14 ≤ s.xdp.len
      → 14 ≤ i
      → ((z : Xdp) → z.len ≡ s.xdp.len → k.adjust_head_in header z ≢ none)
      → MovedByte (header + i) header proto s t
      → Leaves
          (λ ok t. (ok ≡ true) × TakenByte i header proto s t)
          (move (k.adjust_head_in header) t)
  move_taken i header proto s t long from moves moved =
      elim (option_cases (k.adjust_head_in header t.xdp)) [
        | inl e ↦ absurd (moves t.xdp moved.0 e)
        | inr (y, e) ↦ rw e (refl, taken i header proto s t y long from moved e)
      ]

  decap_by_at :
      (i header proto : ℕ) (s : State)
      → header + 14 ≤ s.xdp.len
      → 14 ≤ i
      → ((z : Xdp) → z.len ≡ s.xdp.len → k.adjust_head_in header z ≢ none)
      → Leaves (λ ok t. (ok ≡ true) × TakenByte i header proto s t) (decap_by k header proto s)
  unfolding decap_by
  decap_by_at i header proto s long from moves =
      Leaves-bind _ (λ ok t. (ok ≡ true) × TakenByte i header proto s t) _
        (λ _. move (k.adjust_head_in header)) (move_eth_at (header + i) header proto s long)
        λ _ t moved. move_taken i header proto s t long from moves moved

  pub decap_by-GivesBack :
      (header proto : ℕ) (x : Xdp) (s : State)
      → 14 ≤ x.len
      → proto < 2 ^ 16
      → Carries header x s.xdp
      → ((z : Xdp) → z.len ≡ x.len + header → k.adjust_head_in header z ≢ none)
      → Leaves (λ ok t. (ok ≡ true) × GivesBack proto x t.xdp) (decap_by k header proto s)
  decap_by-GivesBack header proto x s long small (len, same) moves =
      all_bytes _
        λ i from. decap_by_at i header proto s (omega arith) from (λ z e. moves z (omega arith))
    where
      all_bytes :
          (r : Run Bool)
          → ((i : ℕ) → 14 ≤ i → Leaves (λ ok t. (ok ≡ true) × TakenByte i header proto s t) r)
          → Leaves (λ ok t. (ok ≡ true) × GivesBack proto x t.xdp) r
      all_bytes (done ok t) h =
          let at14 = h 14 (omega arith) in
          (
            at14.0,
            (
              omega (arith, at14.1.0),
              omega (arith, at14.1.1),
              λ i from within. ground (arith, h i from, same i from within),
            ),
          )
      all_bytes (exit a t) h = h 14 (omega arith)
      all_bytes fault h = h 14 (omega arith)
