-- ===== src/Icmp/EchoChecksum.antt =====
-- katran/lib/bpf/handle_icmp.h: the ICMP checksum of the answer to an echo request.
use katran.Base.{suc, ◌≢◌, ℕ, ◌+◌, ◌%◌, ◌^◌, ◌≤◌, ◌<◌, ◌≡◌, arith}
use katran.Xdp.{Xdp, u16_at, IsBytes}
use katran.Xdp.Bytes.{u16_at-lt}
use katran.Run.{State}
use katran.Run.Bounds.{Leaves}
use katran.Consts.{icmp_echo}
use katran.Csum.Fold.{ones_sum}
use katran.Csum.Words.{words_sum, words_sum_same}
use katran.Icmp.{send_icmp_reply}
use katran.Icmp.Echo.{IsEchoReply, reply, reply-IsEchoReply, send_icmp_reply_run}

first_word : (x y : Xdp) → IsEchoReply x y → u16_at x 34 ≡ u16_at y 34 + x.byte 34
unfolding u16_at
first_word x y r = omega (arith, r.is_reply, r.same_code)

-- The sums over the first 2 + n words of the ICMP messages.
icmp_sums :
    (n : ℕ) (x y : Xdp)
    → IsEchoReply x y
    → words_sum (suc (suc n)) x 34 + (u16_at x 36 + 8) % 2 ^ 16
      ≡ words_sum (suc (suc n)) y 34 + x.byte 34 + u16_at x 36
unfolding words_sum
icmp_sums n x y r = omega (arith, words_sum_same n x y 38 r.same_data, first_word x y r, r.adjusted)

-- Where the checksum of the request is below 65528, the sum over the words of the ICMP message, which
-- its receiver checks, is the same for the reply as for the request.
pub send_icmp_reply-words_sum :
    (n : ℕ) (s : State)
    → IsBytes s.xdp
    → 42 ≤ s.xdp.len
    → s.xdp.byte 14 % 16 ≡ 5
    → s.xdp.byte 34 ≡ icmp_echo
    → u16_at s.xdp 36 < 65528
    → Leaves
        (λ _ t. words_sum (suc (suc n)) t.xdp 34 ≡ words_sum (suc (suc n)) s.xdp 34)
        (send_icmp_reply s)
send_icmp_reply-words_sum n s h long ihl echo low =
    let sums = icmp_sums n s.xdp (reply s.xdp) (reply-IsEchoReply s.xdp h ihl) in
    rw (send_icmp_reply_run s h long) (omega (arith, sums))

-- An echo request whose ICMP checksum is valid and at least 65528 is answered with an invalid one: the
-- carry out of the 16 bits is lost.
pub send_icmp_reply_wraps :
    (n : ℕ) (s : State)
    → IsBytes s.xdp
    → 42 ≤ s.xdp.len
    → s.xdp.byte 14 % 16 ≡ 5
    → s.xdp.byte 34 ≡ icmp_echo
    → 65528 ≤ u16_at s.xdp 36
    → ones_sum (words_sum (suc (suc n)) s.xdp 34) ≡ 65535
    → Leaves (λ _ t. ones_sum (words_sum (suc (suc n)) t.xdp 34) ≢ 65535) (send_icmp_reply s)
send_icmp_reply_wraps n s h long ihl echo high valid =
    let sums = icmp_sums n s.xdp (reply s.xdp) (reply-IsEchoReply s.xdp h ihl) in
    let small = u16_at-lt s.xdp 36 h in rw (send_icmp_reply_run s h long) (ground (arith, sums))
