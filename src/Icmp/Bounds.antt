-- ===== src/Icmp/Bounds.antt =====
-- The handling of ICMP stays inside the packet.
use katran.Base.{ℕ, ◌+◌, ◌≤◌, arith, Bool}
use katran.Run.{State}
use katran.Xdp.{put8, put16, put32}
use katran.Run.Bounds.{KeepsLen, NoFault, KeepsLen-NoFault}
use katran.Kernel.{Kernel}
use katran.Csum.Words.{ipv4_csum_inline-KeepsLen, ipv4_csum-KeepsLen, ipv6_csum-KeepsLen}
use katran.Icmp.{
  swap_mac_and_send, send_icmp_reply, send_icmp6_reply, swap_mac, parse_icmp, parse_icmpv6,
}
use katran.Icmp.TooBig.{icmp4_too_big_message, icmp6_too_big_message}
use katran.Icmp.{send_icmp4_too_big, send_icmp6_too_big, send_icmp_too_big}

swap_mac_and_send-KeepsLen : (s : State) → 14 ≤ s.xdp.len → KeepsLen s.xdp.len (swap_mac_and_send s)
unfolding swap_mac_and_send
swap_mac_and_send-KeepsLen s h = ground arith

pub send_icmp6_reply-KeepsLen : (s : State) → KeepsLen s.xdp.len (send_icmp6_reply s)
unfolding send_icmp6_reply put8 put16 put32
send_icmp6_reply-KeepsLen s = grind (arith, swap_mac_and_send-KeepsLen)

pub send_icmp_reply-KeepsLen : (s : State) → KeepsLen s.xdp.len (send_icmp_reply s)
unfolding send_icmp_reply put8 put16 put32
send_icmp_reply-KeepsLen s = grind (arith, ipv4_csum_inline-KeepsLen, swap_mac_and_send-KeepsLen)

pub parse_icmp-KeepsLen : (off : ℕ) (s : State) → KeepsLen s.xdp.len (parse_icmp off s)
unfolding parse_icmp
parse_icmp-KeepsLen off s = ground (arith, send_icmp_reply-KeepsLen s)

pub parse_icmpv6-KeepsLen : (off : ℕ) (s : State) → KeepsLen s.xdp.len (parse_icmpv6 off s)
unfolding parse_icmpv6
parse_icmpv6-KeepsLen off s = ground (arith, send_icmp6_reply-KeepsLen s)

swap_mac-KeepsLen :
    (orig : ℕ) (s : State) → orig + 14 ≤ s.xdp.len → KeepsLen s.xdp.len (swap_mac orig s)
unfolding swap_mac put16
swap_mac-KeepsLen orig s h = ground arith

icmp4_too_big_message-KeepsLen :
    (k : Kernel) (s : State) → KeepsLen s.xdp.len (icmp4_too_big_message k s)
unfolding icmp4_too_big_message put8 put16 put32
icmp4_too_big_message-KeepsLen k s = grind (arith, ipv4_csum-KeepsLen, swap_mac-KeepsLen)

icmp6_too_big_message-KeepsLen :
    (k : Kernel) (s : State) → KeepsLen s.xdp.len (icmp6_too_big_message k s)
unfolding icmp6_too_big_message put8 put16 put32
icmp6_too_big_message-KeepsLen k s = grind (arith, ipv6_csum-KeepsLen, swap_mac-KeepsLen)

pub send_icmp_too_big-NoFault :
    (k : Kernel) (v6 : Bool) (size : ℕ) (s : State) → NoFault (send_icmp_too_big k v6 size s)
unfolding send_icmp_too_big send_icmp4_too_big send_icmp6_too_big
send_icmp_too_big-NoFault k v6 size s =
    grind (arith, icmp4_too_big_message-KeepsLen, icmp6_too_big_message-KeepsLen, KeepsLen-NoFault)
