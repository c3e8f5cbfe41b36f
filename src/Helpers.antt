-- ===== src/Helpers.antt =====
-- katran/lib/bpf/balancer_helpers.h: the TTL of an inner header, and the tail call to the
-- program itself.
pub mod Ttl
use katran.Base.{ℕ, ◌+◌, Bool, Option, none, some, if◌then◌else◌, ◌==◌, bit_and, ◌>>>◌, u8, u16}
use katran.Consts.{recirculation_index}
use katran.Xdp.Layout.{iphdr_size, ipv6hdr_size}
use katran.Run.{
  Action, drop, pass, tail_call, Prog, pure, gets, return, ◌>>=◌, ◌>>◌, beyond, load8, load16,
  store8, store16,
}
use katran.Kernel.{Kernel}

-- `bpf_tail_call` does not come back where it succeeds.
abbrev pub recirculate : Kernel → Prog Action
recirculate k =
    if k.has_subprogram recirculation_index
    then return (tail_call recirculation_index)
    else pure pass

-- `csum = iph->check + 0x0001; iph->check = (csum & 0xffff) + (csum >> 16);`
unfoldable pub adjusted_check : ℕ → ℕ
adjusted_check check = let csum = check + 1 in u16 (bit_and csum 0xffff + csum >>> 16)

-- `hop_limit` is at 7 of an IPv6 header, `ttl` at 8 and `check` at 10 of an IPv4 header; `none` is
-- FURTHER_PROCESSING.
unfoldable pub decrement_ttl_v6 : ℕ → Prog (Option Action)
unfolding load8 store8
decrement_ttl_v6 offset = do
  too_short ← gets (beyond (offset + ipv6hdr_size))
  if too_short then pure (some drop) else do
    hop_limit ← load8 (offset + 7)
    let left = u8 (hop_limit + 255)
    store8 (offset + 7) left
    if left == 0 then pure (some drop) else pure none

unfoldable pub decrement_ttl_v4 : ℕ → Prog (Option Action)
unfolding load8 store8 load16 store16 adjusted_check
decrement_ttl_v4 offset = do
  too_short ← gets (beyond (offset + iphdr_size))
  if too_short then pure (some drop) else do
    ttl ← load8 (offset + 8)
    let left = u8 (ttl + 255)
    store8 (offset + 8) left
    if left == 0 then pure (some drop) else do
      check ← load16 (offset + 10)
      store16 (offset + 10) (adjusted_check check)
      pure none

unfoldable pub decrement_ttl : ℕ → Bool → Prog (Option Action)
unfolding decrement_ttl_v6 decrement_ttl_v4
decrement_ttl offset is_ipv6 = if is_ipv6 then decrement_ttl_v6 offset else decrement_ttl_v4 offset
