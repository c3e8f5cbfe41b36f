-- ===== src/Xdp.antt =====
-- The memory of a packet between `data` and `data_end` of its `struct xdp_md`, and the layout of
-- the protocol headers that the program casts it to.
pub mod Layout
pub mod Bytes
use katran.Base.{ℕ, ◌+◌, ◌*◌, ◌/◌, ◌%◌, ◌^◌, ◌-◌, ◌<◌, ◌≤◌, ◌≡◌, ◌==◌, if◌then◌else◌}

-- `byte i` is the byte at `data + i`; `len` is `data_end - data`; `room` is the space in front of
-- `data`, which only the kernel's helpers look at.
pub record Xdp : Type 0 where
  pub byte : ℕ → ℕ
  pub len : ℕ
  pub room : ℕ

-- Little-endian words.
unfoldable pub u16_at : Xdp → ℕ → ℕ
u16_at x i = x.byte i + x.byte (i + 1) * 2 ^ 8

unfoldable pub u32_at : Xdp → ℕ → ℕ
unfolding u16_at
u32_at x i = u16_at x i + u16_at x (i + 2) * 2 ^ 16

unfoldable pub put8 : Xdp → ℕ → ℕ → Xdp
put8 x i v = record x { byte = λ j. if j == i then v % 256 else x.byte j }

unfoldable pub put16 : Xdp → ℕ → ℕ → Xdp
unfolding put8
put16 x i v = put8 (put8 x i v) (i + 1) (v / 2 ^ 8)

unfoldable pub put32 : Xdp → ℕ → ℕ → Xdp
unfolding put16
put32 x i v = put16 (put16 x i v) (i + 2) (v / 2 ^ 16)

-- Every cell of the memory holds a byte.
abbrev pub IsBytes : Xdp → Type 0
IsBytes x = (i : ℕ) → x.byte i < 256

-- The bytes of `y` before `a` and from `b` on are those of `x`, and so is the length.
pub record SameOutside (a b : ℕ) (x y : Xdp) : Type 0 where
  pub same_len : y.len ≡ x.len
  pub same_before : (i : ℕ) → i < a → y.byte i ≡ x.byte i
  pub same_after : (i : ℕ) → b ≤ i → y.byte i ≡ x.byte i
