-- ===== src/Icmp/NoPass.antt =====
-- The answers to ICMP and the ICMP errors are sent or dropped.
use katran.Base.{ℕ, zero, suc, ◌+◌, arith, Bool, Bool-cases, inl, inr}
use katran.Consts.{icmp_toobig_size, icmp6_toobig_size}
use katran.Xdp.{put8, put16, put32}
use katran.Xdp.Layout.{eth_hdr_size, iphdr_size, icmphdr_size, ipv6hdr_size, icmp6hdr_size}
use katran.Run.{
  State, beyond, load8, load16, load32, store8, store16, store32, store_high, store_low, memcpy,
  read_bytes, write_bytes,
}
use katran.Kernel.{Kernel}
use katran.Csum.{sum_words, ipv4_csum_inline, ipv4_csum, ipv6_csum, csum_diff_at}
use katran.Icmp.{swap_mac_and_send, send_icmp_reply, send_icmp6_reply}
use katran.Icmp.TooBig.{icmp4_too_big_message, icmp6_too_big_message}
use katran.Icmp.{swap_mac, send_icmp4_too_big, send_icmp6_too_big, send_icmp_too_big}
use katran.Run.NoPass.{
  NoPassExit, NoPass, NoPass-bind, NoPassExit-bind, guarded-NoPassExit, tx-NoPass,
}

pub sum_words-NoPassExit : (n i v : ℕ) (s : State) → NoPassExit (sum_words n i v s)
unfolding sum_words load16
sum_words-NoPassExit zero i v s = tt
sum_words-NoPassExit (suc n) i v s = grind (arith, sum_words-NoPassExit n)

pub ipv4_csum_inline-NoPassExit : (i v : ℕ) (s : State) → NoPassExit (ipv4_csum_inline i v s)
unfolding ipv4_csum_inline
ipv4_csum_inline-NoPassExit i v s = grind (arith, sum_words-NoPassExit)

pub ruleset reply_steps =
    (NoPass-bind, NoPassExit-bind, guarded-NoPassExit, ipv4_csum_inline-NoPassExit)

pub swap_mac_and_send-NoPass : (s : State) → NoPass (swap_mac_and_send s)
unfolding swap_mac_and_send
swap_mac_and_send-NoPass s = ground arith

pub send_icmp_reply-NoPass : (s : State) → NoPass (send_icmp_reply s)
unfolding send_icmp_reply load16 load32 store8 store16 store32
send_icmp_reply-NoPass s = elim (Bool-cases (beyond (eth_hdr_size + iphdr_size + icmphdr_size) s)) [
  | inl e ↦ rw e (ground arith)
  | inr e ↦ rw e (search (reply_steps, swap_mac_and_send-NoPass) depth 60 fits 3000)
]

pub send_icmp6_reply-NoPass : (s : State) → NoPass (send_icmp6_reply s)
unfolding send_icmp6_reply put8 put16 put32
send_icmp6_reply-NoPass s = grind (arith, swap_mac_and_send-NoPass)

pub swap_mac-NoPassExit : (orig : ℕ) (s : State) → NoPassExit (swap_mac orig s)
unfolding swap_mac memcpy read_bytes write_bytes load16 store16
swap_mac-NoPassExit orig s = ground arith

pub ipv4_csum-NoPassExit : (k : Kernel) (a b v : ℕ) (s : State) → NoPassExit (ipv4_csum k a b v s)
unfolding ipv4_csum csum_diff_at read_bytes
ipv4_csum-NoPassExit k a b v s = ground arith

pub ipv6_csum-NoPassExit :
    (k : Kernel) (a b v i : ℕ) (s : State) → NoPassExit (ipv6_csum k a b v i s)
unfolding ipv6_csum csum_diff_at read_bytes load8
ipv6_csum-NoPassExit k a b v i s = ground arith

pub ruleset too_big_steps =
    (tx-NoPass, swap_mac-NoPassExit, ipv4_csum-NoPassExit, ipv6_csum-NoPassExit)

pub icmp4_too_big_message-NoPass : (k : Kernel) (s : State) → NoPass (icmp4_too_big_message k s)
unfolding icmp4_too_big_message load8 load16 load32 store8 store16 store32 store_high store_low
icmp4_too_big_message-NoPass k s =
    elim (Bool-cases (beyond (icmp_toobig_size + (iphdr_size + icmphdr_size)) s)) [
      | inl e ↦ rw e (ground arith)
      | inr e ↦ rw e (search (reply_steps, too_big_steps) depth 90 fits 5000)
    ]

pub icmp6_too_big_message-NoPass : (k : Kernel) (s : State) → NoPass (icmp6_too_big_message k s)
unfolding icmp6_too_big_message load8 load16 store8 store16 store32 store_high store_low memcpy
    read_bytes write_bytes
icmp6_too_big_message-NoPass k s =
    elim (Bool-cases (beyond (icmp6_toobig_size + (ipv6hdr_size + icmp6hdr_size)) s)) [
      | inl e ↦ rw e (ground arith)
      | inr e ↦ rw e (search (reply_steps, too_big_steps) depth 90 fits 5000)
    ]

pub send_icmp_too_big-NoPass :
    (k : Kernel) (v6 : Bool) (size : ℕ) (s : State) → NoPass (send_icmp_too_big k v6 size s)
unfolding send_icmp_too_big send_icmp4_too_big send_icmp6_too_big
send_icmp_too_big-NoPass k v6 size s =
    grind (arith, icmp4_too_big_message-NoPass, icmp6_too_big_message-NoPass)
