-- ===== src/Csum/Words.antt =====
-- What the sums over words of the packet give: reading changes nothing.
use katran.Base.{ℕ, zero, suc, ◌+◌, ◌*◌, ◌^◌, ◌≤◌, ◌<◌, ◌≡◌, refl, arith, u64}
use katran.Xdp.{Xdp, u16_at}
use katran.Run.{State, done, load16, load8, read_bytes}
use katran.Run.Bounds.{KeepsLen}
use katran.Kernel.{Kernel}
use katran.Csum.{sum_words, csum_fold_helper, ipv4_csum_inline, ipv4_csum, ipv6_csum}

-- The sum of `i` words from `at` on.
unfoldable pub words_sum : ℕ → Xdp → ℕ → ℕ
words_sum zero x at = 0
words_sum (suc i) x at = u16_at x at + words_sum i x (at + 2)

pub sum_words_lem :
    (i at c : ℕ) (s : State)
    → at + 2 * i ≤ s.xdp.len
    → c + words_sum i s.xdp at < 2 ^ 64
    → sum_words i at c s ≡ done (c + words_sum i s.xdp at) s
unfolding sum_words load16 words_sum
sum_words_lem zero at c s h b = ground arith
sum_words_lem (suc i) at c s h b =
    ground (arith, sum_words_lem i (at + 2) (u64 (c + u16_at s.xdp at)) s)

sum_words-KeepsLen :
    (i at c : ℕ) (s : State) → at + 2 * i ≤ s.xdp.len → KeepsLen s.xdp.len (sum_words i at c s)
unfolding sum_words load16
sum_words-KeepsLen zero at c s h = refl
sum_words-KeepsLen (suc i) at c s h =
    ground (arith, sum_words-KeepsLen i (at + 2) (u64 (c + u16_at s.xdp at)) s)

pub ipv4_csum_inline-KeepsLen :
    (iph c : ℕ) (s : State) → iph + 20 ≤ s.xdp.len → KeepsLen s.xdp.len (ipv4_csum_inline iph c s)
unfolding ipv4_csum_inline
ipv4_csum_inline-KeepsLen iph c s h = ground (arith, sum_words-KeepsLen 10 iph c s)

pub ipv4_csum-KeepsLen :
    (k : Kernel) (start size c : ℕ) (s : State)
    → start + size ≤ s.xdp.len
    → KeepsLen s.xdp.len (ipv4_csum k start size c s)
unfolding ipv4_csum read_bytes
ipv4_csum-KeepsLen k start size c s h = ground arith

pub ipv6_csum-KeepsLen :
    (k : Kernel) (start size c ip6h : ℕ) (s : State)
    → start + size ≤ s.xdp.len
    → ip6h + 40 ≤ s.xdp.len
    → KeepsLen s.xdp.len (ipv6_csum k start size c ip6h s)
unfolding ipv6_csum read_bytes load8
ipv6_csum-KeepsLen k start size c ip6h s h h6 = ground arith

pub ipv4_csum_inline_lem :
    (iph : ℕ) (s : State)
    → iph + 20 ≤ s.xdp.len
    → words_sum 10 s.xdp iph < 2 ^ 64
    → ipv4_csum_inline iph 0 s ≡ done (csum_fold_helper (words_sum 10 s.xdp iph)) s
unfolding ipv4_csum_inline
ipv4_csum_inline_lem iph s h b = ground (arith, sum_words_lem 10 iph 0 s)

pub words_sum_same :
    (n : ℕ) (x y : Xdp) (at : ℕ)
    → ((i : ℕ) → at ≤ i → y.byte i ≡ x.byte i)
    → words_sum n y at ≡ words_sum n x at
unfolding words_sum u16_at
words_sum_same zero x y at h = refl
words_sum_same (suc n) x y at h = omega (
  arith,
  h at (omega arith),
  h (at + 1) (omega arith),
  words_sum_same n x y (at + 2) (λ i from. h i (omega arith)),
)
