-- ===== src/Xdp/Bytes.antt =====
-- Reading what was written.
use katran.Base.{
  ℕ, ◌+◌, ◌*◌, ◌/◌, ◌%◌, ◌^◌, ◌≤◌, ◌<◌, ◌≡◌, ◌≢◌, ◌⊎◌, refl, arith, ◌==◌, if◌then◌else◌,
}
use katran.Xdp.{Xdp, u16_at, u32_at, put8, put16, put32, IsBytes}

pub put8-IsBytes : (x : Xdp) (i v : ℕ) → IsBytes x → IsBytes (put8 x i v)
unfolding put8
put8-IsBytes x i v h j = ground (arith, h j)

pub put16-IsBytes : (x : Xdp) (i v : ℕ) → IsBytes x → IsBytes (put16 x i v)
unfolding put16
put16-IsBytes x i v h j = ground (arith, h j)

pub put32-IsBytes : (x : Xdp) (i v : ℕ) → IsBytes x → IsBytes (put32 x i v)
unfolding put32
put32-IsBytes x i v h j = ground (arith, h j)

pub u16_at-lt : (x : Xdp) (i : ℕ) → IsBytes x → u16_at x i < 2 ^ 16
unfolding u16_at
u16_at-lt x i h = omega (arith, h i, h (i + 1))

pub u16_at-put16_self : (x : Xdp) (i v : ℕ) → u16_at (put16 x i v) i ≡ v % 2 ^ 16
unfolding u16_at put16
u16_at-put16_self x i v = ground arith

-- A word that the write does not overlap.
pub u16_at-put16_ne :
    (x : Xdp) (i v j : ℕ) → (j + 2 ≤ i) ⊎ (i + 2 ≤ j) → u16_at (put16 x i v) j ≡ u16_at x j
unfolding u16_at put16
u16_at-put16_ne x i v j h = ground arith

pub u16_at-put8_ne :
    (x : Xdp) (i v j : ℕ) → (j + 2 ≤ i) ⊎ (i + 1 ≤ j) → u16_at (put8 x i v) j ≡ u16_at x j
unfolding u16_at put8
u16_at-put8_ne x i v j h = ground arith

pub put8-len : (x : Xdp) (i v : ℕ) → (put8 x i v).len ≡ x.len
unfolding put8
put8-len x i v = refl

pub put16-len : (x : Xdp) (i v : ℕ) → (put16 x i v).len ≡ x.len
unfolding put16
put16-len x i v = refl

pub put32-len : (x : Xdp) (i v : ℕ) → (put32 x i v).len ≡ x.len
unfolding put32
put32-len x i v = refl

pub ruleset put_lens = (put8-len, put16-len, put32-len)

pub u32_at-put32_self : (x : Xdp) (i v : ℕ) → u32_at (put32 x i v) i ≡ v % 2 ^ 32
unfolding u32_at put32
u32_at-put32_self x i v = ground arith

-- The four bytes at `j` are those of `x` if the write of `n` bytes at `i` does not overlap them.
abbrev pub Apart : ℕ → ℕ → ℕ → Type 0
Apart i n j = (j + 4 ≤ i) ⊎ (i + n ≤ j)

pub u32_at-put32_ne : (x : Xdp) (i v j : ℕ) → Apart i 4 j → u32_at (put32 x i v) j ≡ u32_at x j
unfolding u32_at put32
u32_at-put32_ne x i v j h = ground arith

pub u32_at-put16_ne : (x : Xdp) (i v j : ℕ) → Apart i 2 j → u32_at (put16 x i v) j ≡ u32_at x j
unfolding u32_at put16
u32_at-put16_ne x i v j h = ground arith

pub u32_at-put8_ne : (x : Xdp) (i v j : ℕ) → Apart i 1 j → u32_at (put8 x i v) j ≡ u32_at x j
unfolding u32_at put8
u32_at-put8_ne x i v j h = ground arith

pub ruleset u32_laws = (arith, u32_at-put32_self, u32_at-put32_ne, u32_at-put16_ne, u32_at-put8_ne)

-- A byte behind the write.
pub byte-put8_behind : (x : Xdp) (i v j : ℕ) → i + 1 ≤ j → (put8 x i v).byte j ≡ x.byte j
unfolding put8
byte-put8_behind x i v j h = ground arith

pub byte-put16_behind : (x : Xdp) (i v j : ℕ) → i + 2 ≤ j → (put16 x i v).byte j ≡ x.byte j
unfolding put16
byte-put16_behind x i v j h = ground arith

pub byte-put32_behind : (x : Xdp) (i v j : ℕ) → i + 4 ≤ j → (put32 x i v).byte j ≡ x.byte j
unfolding put32
byte-put32_behind x i v j h = ground arith

pub ruleset behind_laws = (arith, put_lens, byte-put8_behind, byte-put16_behind, byte-put32_behind)

pub u32_at-lt : (x : Xdp) (i : ℕ) → IsBytes x → u32_at x i < 2 ^ 32
unfolding u32_at
u32_at-lt x i h = omega (arith, u16_at-lt x i h, u16_at-lt x (i + 2) h)

-- A byte in front of the write, and the byte written.
pub byte-put8_front : (x : Xdp) (i v j : ℕ) → j < i → (put8 x i v).byte j ≡ x.byte j
unfolding put8
byte-put8_front x i v j h = ground arith

pub byte-put16_front : (x : Xdp) (i v j : ℕ) → j < i → (put16 x i v).byte j ≡ x.byte j
unfolding put16
byte-put16_front x i v j h = ground arith

pub byte-put32_front : (x : Xdp) (i v j : ℕ) → j < i → (put32 x i v).byte j ≡ x.byte j
unfolding put32
byte-put32_front x i v j h = ground arith

pub byte-put8_self : (x : Xdp) (i v : ℕ) → (put8 x i v).byte i ≡ v % 256
unfolding put8
byte-put8_self x i v = ground arith

pub byte-put16_low : (x : Xdp) (i v : ℕ) → (put16 x i v).byte i ≡ v % 256
unfolding put16
byte-put16_low x i v = ground arith

pub byte-put16_high : (x : Xdp) (i v : ℕ) → (put16 x i v).byte (i + 1) ≡ v / 256 % 256
unfolding put16
byte-put16_high x i v = ground arith

pub ruleset front_laws =
    (behind_laws, byte-put8_front, byte-put16_front, byte-put32_front, byte-put8_self)
