-- ===== src/Kernel.antt =====
-- The kernel's helpers that the program calls: their code is not part of the repository. What is
-- relied on is what their documentation says.
use katran.Base.{ℕ, ◌+◌, ◌<◌, ◌≡◌, Bool, true, false, Option, none, some}
use katran.Structs.{Address, FlowKey, RealPosLru}
use katran.Xdp.{Xdp}
use katran.Run.{done, Prog, Lru}

pub record Kernel : Type 0 where
  -- The answer of the n-th call of `bpf_ktime_get_ns`.
  pub ktime_get_ns : ℕ → ℕ
  pub smp_processor_id : ℕ
  -- `bpf_xdp_adjust_head(xdp, -n)`, `bpf_xdp_adjust_head(xdp, n)` and
  -- `bpf_xdp_adjust_tail(xdp, -n)`: `none` is an error.
  pub adjust_head_out : ℕ → Xdp → Option Xdp
  pub adjust_head_in : ℕ → Xdp → Option Xdp
  pub adjust_tail_in : ℕ → Xdp → Option Xdp
  -- `bpf_csum_diff(0, 0, to, size, seed)`
  pub csum_diff : (ℕ → ℕ) → ℕ → ℕ → ℕ
  pub jhash : Address → ℕ → ℕ → ℕ
  pub jhash_2words : ℕ → ℕ → ℕ → ℕ
  -- `bpf_map_update_elem` with BPF_ANY on a map of type LRU_HASH.
  pub lru_update_elem : Lru → FlowKey → RealPosLru → Lru
  -- Whether `bpf_tail_call` finds a program at the index.
  pub has_subprogram : ℕ → Bool

-- What moving the ends of a packet does to its length and its bytes.
pub record AdjustLaws (k : Kernel) : Type 0 where
  pub out_len : (n : ℕ) (x y : Xdp) → k.adjust_head_out n x ≡ some y → y.len ≡ x.len + n
  pub out_byte :
      (n : ℕ) (x y : Xdp) (i : ℕ)
      → k.adjust_head_out n x ≡ some y
      → i < x.len
      → y.byte (n + i) ≡ x.byte i
  pub in_len : (n : ℕ) (x y : Xdp) → k.adjust_head_in n x ≡ some y → y.len + n ≡ x.len
  pub in_byte :
      (n : ℕ) (x y : Xdp) (i : ℕ)
      → k.adjust_head_in n x ≡ some y
      → i < y.len
      → y.byte i ≡ x.byte (n + i)
  pub tail_len : (n : ℕ) (x y : Xdp) → k.adjust_tail_in n x ≡ some y → y.len + n ≡ x.len
  pub tail_byte :
      (n : ℕ) (x y : Xdp) (i : ℕ) → k.adjust_tail_in n x ≡ some y → i < y.len → y.byte i ≡ x.byte i

abbrev replace_xdp : Option Xdp → Prog Bool
replace_xdp none s = done false s
replace_xdp (some x) s = done true (record s { xdp = x })

-- A helper's move of an end of the packet, `true` where it succeeds, with `data` and `data_end`
-- read again.
abbrev pub move : (Xdp → Option Xdp) → Prog Bool
move f s = replace_xdp (f s.xdp) s

-- `bpf_ktime_get_ns()`
abbrev pub ktime : Kernel → Prog ℕ
ktime k s = done (k.ktime_get_ns s.tick) (record s { tick = s.tick + 1 })
