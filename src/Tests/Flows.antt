-- ===== src/Tests/Flows.antt =====
-- The theorems on ICMP at concrete inputs.
use katran.Base.{◌≡◌, refl, true, false, arith, inl}
use katran.Xdp.{Xdp, u16_at, u32_at}
use katran.Run.Bounds.{Leaves}
use katran.Kern.Flow.{
  IsPlainV4, IsErrorAbout, direct_flow, fresh, udp_flow, tcp_flow, udp_error_flow, tcp_error_flow,
  tcp_error_cut,
}
use katran.Kern.FlowV6.{IsErrorAboutV6, direct_flow_v6, udp_flow_v6, udp_error_flow_v6}
use katran.Base.{ℕ, List, ◌≢◌}
use katran.Run.{tx}
use katran.Csum.Fold.{ones_sum}
use katran.Csum.Words.{words_sum}
use katran.Icmp.{send_icmp_reply, send_icmp6_reply}
use katran.Icmp.Echo6.{IsEchoReply6, send_icmp6_reply-IsEchoReply6}
use katran.Icmp.EchoChecksum6.{send_icmp6_reply-words_sum, send_icmp6_reply_wraps}
use katran.Icmp.Echo.{IsEchoReply, send_icmp_reply-IsEchoReply}
use katran.Icmp.EchoChecksum.{send_icmp_reply-words_sum, send_icmp_reply_wraps}
use katran.Base.{◌+◌}
use katran.Tests.Fixtures.{
  echo_request_v6, echo_request, byte_of-lt, state, packet, syn_packet, quic_short_bytes, udp_error,
  tcp_error, udp_v6, udp_error_v6,
}

abbrev udp_packet : Xdp
udp_packet = packet quic_short_bytes

udp_packet-IsPlainV4 : IsPlainV4 udp_packet
unfolding u16_at
udp_packet-IsPlainV4 = record { no_options = refl; whole = refl }

syn_packet-IsPlainV4 : IsPlainV4 syn_packet
unfolding u16_at
syn_packet-IsPlainV4 = record { no_options = refl; whole = refl }

udp_error-IsErrorAbout : IsErrorAbout udp_packet (packet udp_error)
unfolding u16_at u32_at
udp_error-IsErrorAbout = record {
  outer = record { no_options = refl; whole = refl };
  is_icmp = refl;
  is_unreachable = refl;
  no_quoted_options = refl;
  same_proto = refl;
  from_receiver = refl;
  to_sender = refl;
  from_port = refl;
  to_port = refl;
}

tcp_error-IsErrorAbout : IsErrorAbout syn_packet (packet (tcp_error 16))
unfolding u16_at u32_at
tcp_error-IsErrorAbout = record {
  outer = record { no_options = refl; whole = refl };
  is_icmp = refl;
  is_unreachable = refl;
  no_quoted_options = refl;
  same_proto = refl;
  from_receiver = refl;
  to_sender = refl;
  from_port = refl;
  to_port = refl;
}

short_error-IsErrorAbout : IsErrorAbout syn_packet (packet (tcp_error 4))
unfolding u16_at u32_at
short_error-IsErrorAbout = record {
  outer = record { no_options = refl; whole = refl };
  is_icmp = refl;
  is_unreachable = refl;
  no_quoted_options = refl;
  same_proto = refl;
  from_receiver = refl;
  to_sender = refl;
  from_port = refl;
  to_port = refl;
}

udp_error_v6-IsErrorAboutV6 : IsErrorAboutV6 (packet udp_v6) (packet udp_error_v6)
unfolding u16_at u32_at
udp_error_v6-IsErrorAboutV6 = record {
  is_icmp = refl;
  is_error = inl refl;
  same_proto = refl;
  from_receiver = refl;
  to_sender = refl;
  from_port = refl;
  to_port = refl;
}

udp_error_flow_example :
    Leaves
      (λ ok t. (ok ≡ true) × (t.pckt.flow ≡ direct_flow udp_packet))
      (udp_flow (fresh (state syn_packet) udp_packet))
    × Leaves
        (λ ok t. (ok ≡ true) × (t.pckt.flow ≡ direct_flow udp_packet))
        (udp_flow (fresh (state syn_packet) (packet udp_error)))
udp_error_flow_example =
    udp_error_flow (state syn_packet) udp_packet (packet udp_error) (omega arith) (omega arith)
      udp_packet-IsPlainV4 refl udp_error-IsErrorAbout

tcp_error_flow_example :
    Leaves
      (λ ok t. (ok ≡ true) × (t.pckt.flow ≡ direct_flow syn_packet))
      (tcp_flow (fresh (state syn_packet) syn_packet))
    × Leaves
        (λ ok t. (ok ≡ true) × (t.pckt.flow ≡ direct_flow syn_packet))
        (tcp_flow (fresh (state syn_packet) (packet (tcp_error 16))))
tcp_error_flow_example =
    tcp_error_flow (state syn_packet) syn_packet (packet (tcp_error 16)) (omega arith) (omega arith)
      syn_packet-IsPlainV4 refl tcp_error-IsErrorAbout

tcp_error_cut_example :
    Leaves
      (λ ok t. (ok ≡ false) × (t.xdp ≡ packet (tcp_error 4)))
      (tcp_flow (fresh (state syn_packet) (packet (tcp_error 4))))
tcp_error_cut_example =
    tcp_error_cut (state syn_packet) syn_packet (packet (tcp_error 4)) (omega arith) (omega arith)
      refl short_error-IsErrorAbout

udp_error_flow_v6_example :
    Leaves
      (λ ok t. (ok ≡ true) × (t.pckt.flow ≡ direct_flow_v6 (packet udp_v6)))
      (udp_flow_v6 (fresh (state syn_packet) (packet udp_v6)))
    × Leaves
        (λ ok t. (ok ≡ true) × (t.pckt.flow ≡ direct_flow_v6 (packet udp_v6)))
        (udp_flow_v6 (fresh (state syn_packet) (packet udp_error_v6)))
udp_error_flow_v6_example =
    udp_error_flow_v6 (state syn_packet) (packet udp_v6) (packet udp_error_v6) (omega arith)
      (omega arith) refl udp_error_v6-IsErrorAboutV6

abbrev echo_bytes : List ℕ
echo_bytes = echo_request 0xf7 0xff 0 0

abbrev wrapping_bytes : List ℕ
wrapping_bytes = echo_request 0xfa 0xff 0xfc 0xff

send_icmp_reply-IsEchoReply_example :
    Leaves
      (λ a t. (a ≡ tx) × IsEchoReply (packet echo_bytes) t.xdp)
      (send_icmp_reply (state (packet echo_bytes)))
send_icmp_reply-IsEchoReply_example =
    send_icmp_reply-IsEchoReply (state (packet echo_bytes)) (byte_of-lt echo_bytes) (omega arith)
      refl

send_icmp_reply-words_sum_example :
    Leaves
      (λ _ t. words_sum 4 t.xdp 34 ≡ words_sum 4 (packet echo_bytes) 34)
      (send_icmp_reply (state (packet echo_bytes)))
unfolding u16_at
send_icmp_reply-words_sum_example =
    send_icmp_reply-words_sum 2 (state (packet echo_bytes)) (byte_of-lt echo_bytes) (omega arith)
      refl refl (omega arith)

send_icmp_reply_wraps_example :
    Leaves
      (λ _ t. ones_sum (words_sum 4 t.xdp 34) ≢ 65535)
      (send_icmp_reply (state (packet wrapping_bytes)))
unfolding u16_at words_sum
send_icmp_reply_wraps_example =
    send_icmp_reply_wraps 2 (state (packet wrapping_bytes)) (byte_of-lt wrapping_bytes)
      (omega arith) refl refl (omega arith) refl

abbrev echo_v6 : List ℕ
echo_v6 = echo_request_v6 0x12 0x34

abbrev zero_check_v6 : List ℕ
zero_check_v6 = echo_request_v6 0 0

send_icmp6_reply-IsEchoReply6_example :
    Leaves
      (λ a t. (a ≡ tx) × IsEchoReply6 (packet echo_v6) t.xdp)
      (send_icmp6_reply (state (packet echo_v6)))
send_icmp6_reply-IsEchoReply6_example =
    send_icmp6_reply-IsEchoReply6 (state (packet echo_v6)) (byte_of-lt echo_v6) (omega arith)

send_icmp6_reply-words_sum_example :
    Leaves
      (λ _ t. words_sum 4 t.xdp 54 ≡ words_sum 4 (packet echo_v6) 54)
      (send_icmp6_reply (state (packet echo_v6)))
unfolding u16_at
send_icmp6_reply-words_sum_example =
    send_icmp6_reply-words_sum 2 (state (packet echo_v6)) (byte_of-lt echo_v6) (omega arith) refl
      (omega arith)

send_icmp6_reply_wraps_example :
    Leaves
      (λ _ t. ones_sum (65407 + words_sum 4 t.xdp 54) ≢ 65535)
      (send_icmp6_reply (state (packet zero_check_v6)))
unfolding u16_at words_sum
send_icmp6_reply_wraps_example =
    send_icmp6_reply_wraps 2 65407 (state (packet zero_check_v6)) (byte_of-lt zero_check_v6)
      (omega arith) refl refl refl
