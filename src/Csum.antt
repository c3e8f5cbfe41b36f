-- ===== src/Csum.antt =====
-- katran/lib/bpf/csum_helpers.h: the Internet checksum.
pub mod Fold
pub mod Words
pub mod Header
use katran.Base.{
  ℕ, zero, suc, ◌+◌, ◌-◌, ◌*◌, ◌%◌, ◌/◌, ◌^◌, ◌==◌, if◌then◌else◌, bit_and, ◌>>>◌, u16, u64,
}
use katran.Run.{Prog, pure, ◌>>=◌, ◌>>◌, load8, load16, read_bytes}
use katran.Kernel.{Kernel}

-- One round of the loop in `csum_fold_helper`.
fold_round : ℕ → ℕ
fold_round csum = if csum >>> 16 == 0 then csum else bit_and csum 0xffff + csum >>> 16

fold_rounds : ℕ → ℕ → ℕ
fold_rounds zero csum = csum
fold_rounds (suc i) csum = fold_rounds i (fold_round csum)

-- `return ~csum`, cut to the `__u16` of the result.
unfoldable pub csum_fold_helper : ℕ → ℕ
unfolding fold_rounds fold_round
csum_fold_helper csum = let folded = fold_rounds 4 csum in 0xffff - u16 folded

-- The loop of `ipv4_csum_inline`, over `i` words from `data + at` on.
unfoldable pub sum_words : ℕ → ℕ → ℕ → Prog ℕ
unfolding load16
sum_words zero at csum = pure csum
sum_words (suc i) at csum = do w ← load16 at; sum_words i (at + 2) (u64 (csum + w))

-- The sum over the ten words of the header at `data + iph`, added to `csum` and folded.
unfoldable pub ipv4_csum_inline : ℕ → ℕ → Prog ℕ
ipv4_csum_inline iph csum = do sum ← sum_words 10 iph csum; pure (csum_fold_helper sum)

-- The bytes of a 32-bit word in memory.
abbrev pub bytes_of : ℕ → ℕ → ℕ
bytes_of v i = v / 2 ^ (8 * i) % 2 ^ 8

-- `__builtin_bswap32`
unfoldable pub bswap32 : ℕ → ℕ
bswap32 v = bytes_of v 0 * 2 ^ 24 + bytes_of v 1 * 2 ^ 16 + bytes_of v 2 * 2 ^ 8 + bytes_of v 3

module _ (k : Kernel) where
  -- `bpf_csum_diff` of bytes of the packet.
  unfoldable pub csum_diff_at : ℕ → ℕ → ℕ → Prog ℕ
  unfolding read_bytes
  csum_diff_at start size csum = do f ← read_bytes start size; pure (k.csum_diff f size csum)

  unfoldable pub ipv4_csum : ℕ → ℕ → ℕ → Prog ℕ
  unfolding csum_diff_at
  ipv4_csum data_start data_size csum = do
    sum ← csum_diff_at data_start data_size csum
    pure (csum_fold_helper sum)

  -- `ipv4_l4_csum`, which the health checking programs call: `protocol`, `saddr` and `daddr` are
  -- at 9, 12 and 16 of the header.
  unfoldable pub ipv4_l4_csum : ℕ → ℕ → ℕ → ℕ → Prog ℕ
  unfolding csum_diff_at load8
  ipv4_l4_csum data_start data_size csum iph = do
    c1 ← csum_diff_at (iph + 12) 4 csum
    c2 ← csum_diff_at (iph + 16) 4 c1
    protocol ← load8 (iph + 9)
    let c3 = k.csum_diff (bytes_of (bswap32 protocol)) 4 c2
    let c4 = k.csum_diff (bytes_of (bswap32 data_size)) 4 c3
    c5 ← csum_diff_at data_start data_size c4
    pure (csum_fold_helper c5)

  -- `nexthdr`, `saddr` and `daddr` are at 6, 8 and 24 of the header.
  unfoldable pub ipv6_csum : ℕ → ℕ → ℕ → ℕ → Prog ℕ
  unfolding csum_diff_at load8
  ipv6_csum data_start data_size csum ip6h = do
    c1 ← csum_diff_at (ip6h + 8) 16 csum
    c2 ← csum_diff_at (ip6h + 24) 16 c1
    let c3 = k.csum_diff (bytes_of (bswap32 data_size)) 4 c2
    nexthdr ← load8 (ip6h + 6)
    let c4 = k.csum_diff (bytes_of (bswap32 nexthdr)) 4 c3
    c5 ← csum_diff_at data_start data_size c4
    pure (csum_fold_helper c5)
