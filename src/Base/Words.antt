-- ===== src/Base/Words.antt =====
-- Casts to the fixed widths, shifts, and the byte order conversions of bpf_endian.h on a
-- little-endian host.
use Prim.Native.Nat.{ℕ, ◌+◌, ◌*◌, ◌/◌, ◌%◌, ◌^◌, ◌<◌}
use mathlib.Core.Path.{◌≡◌}
use native.Mathlib.Omega.{arith}

abbrev pub u8 : ℕ → ℕ
u8 n = n % 2 ^ 8

abbrev pub u16 : ℕ → ℕ
u16 n = n % 2 ^ 16

abbrev pub u32 : ℕ → ℕ
u32 n = n % 2 ^ 32

abbrev pub u64 : ℕ → ℕ
u64 n = n % 2 ^ 64

infixl 75 ◌<<<◌ ◌>>>◌
abbrev pub ◌<<<◌ : ℕ → ℕ → ℕ
x <<< k = x * 2 ^ k

abbrev pub ◌>>>◌ : ℕ → ℕ → ℕ
x >>> k = x / 2 ^ k

-- The two bytes of a 16-bit word, swapped.
unfoldable pub bpf_htons : ℕ → ℕ
bpf_htons x = (x % 256) * 256 + x / 256 % 256

abbrev pub bpf_ntohs : ℕ → ℕ
bpf_ntohs = bpf_htons

pub htons-htons : (x : ℕ) → x < 2 ^ 16 → bpf_htons (bpf_htons x) ≡ x
unfolding bpf_htons
htons-htons x h = omega arith

pub htons-lt : (x : ℕ) → bpf_htons x < 2 ^ 16
unfolding bpf_htons
htons-lt x = omega arith
