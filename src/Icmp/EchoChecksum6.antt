-- ===== src/Icmp/EchoChecksum6.antt =====
-- katran/lib/bpf/handle_icmp.h: the ICMP checksum of the answer to an ICMPv6 echo request.
use katran.Base.{ℕ, suc, ◌+◌, ◌-◌, ◌%◌, ◌^◌, ◌≤◌, ◌≡◌, ◌≢◌, arith}
use katran.Consts.{icmpv6_echo_request}
use katran.Xdp.{Xdp, IsBytes, u16_at}
use katran.Xdp.Bytes.{u16_at-lt}
use katran.Run.{tx, State}
use katran.Run.Bounds.{Leaves, Leaves-mono}
use katran.Csum.Fold.{ones_sum}
use katran.Csum.Words.{words_sum, words_sum_same}
use katran.Icmp.{send_icmp6_reply}
use katran.Icmp.Echo6.{IsEchoReply6, send_icmp6_reply-IsEchoReply6}

first_word6 : (x y : Xdp) → IsEchoReply6 x y → u16_at y 54 + x.byte 54 ≡ u16_at x 54 + 129
unfolding u16_at
first_word6 x y r = omega (arith, r.adjusted.0, r.adjusted.3)

-- The sums over the first 2 + n words of the ICMP messages.
icmp_sums6 :
    (n : ℕ) (x y : Xdp)
    → IsEchoReply6 x y
    → words_sum (suc (suc n)) y 54 + x.byte 54 + u16_at x 56
      ≡ words_sum (suc (suc n)) x 54 + 129 + (u16_at x 56 + (2 ^ 16 - 1)) % 2 ^ 16
unfolding words_sum
icmp_sums6 n x y r =
    omega (arith, words_sum_same n x y 58 r.same_data, first_word6 x y r, r.adjusted.2)

-- Where the checksum of the request is not zero, the sum over the words of the ICMP message, which its
-- receiver checks together with the pseudo-header, is the same for the reply as for the request.
pub send_icmp6_reply-words_sum :
    (n : ℕ) (s : State)
    → IsBytes s.xdp
    → 62 ≤ s.xdp.len
    → s.xdp.byte 54 ≡ icmpv6_echo_request
    → u16_at s.xdp 56 ≢ 0
    → Leaves
        (λ _ t. words_sum (suc (suc n)) t.xdp 54 ≡ words_sum (suc (suc n)) s.xdp 54)
        (send_icmp6_reply s)
send_icmp6_reply-words_sum n s h long echo positive =
    Leaves-mono (λ a t. (a ≡ tx) × IsEchoReply6 s.xdp t.xdp) _ _
      (send_icmp6_reply-IsEchoReply6 s h long)
      λ _ t r.
        let both = icmp_sums6 n s.xdp t.xdp r.1 in let small = u16_at-lt s.xdp 56 h in ground arith

-- An ICMPv6 echo request whose checksum is zero and valid, with `rest` for the sum over the
-- pseudo-header, is answered with an invalid message.
pub send_icmp6_reply_wraps :
    (n rest : ℕ) (s : State)
    → IsBytes s.xdp
    → 62 ≤ s.xdp.len
    → s.xdp.byte 54 ≡ icmpv6_echo_request
    → u16_at s.xdp 56 ≡ 0
    → ones_sum (rest + words_sum (suc (suc n)) s.xdp 54) ≡ 65535
    → Leaves
        (λ _ t. ones_sum (rest + words_sum (suc (suc n)) t.xdp 54) ≢ 65535)
        (send_icmp6_reply s)
send_icmp6_reply_wraps n rest s h long echo zeroed valid =
    Leaves-mono (λ a t. (a ≡ tx) × IsEchoReply6 s.xdp t.xdp) _ _
      (send_icmp6_reply-IsEchoReply6 s h long)
      λ _ t r. let both = icmp_sums6 n s.xdp t.xdp r.1 in ground arith
