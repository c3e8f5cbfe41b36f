-- ===== src/Icmp/Echo.antt =====
-- katran/lib/bpf/handle_icmp.h: what the answer to an ICMP echo request is.
use katran.Base.{◌∙◌, ℕ, ◌+◌, ◌%◌, ◌^◌, ◌≤◌, ◌<◌, ◌≡◌, refl, arith, u16}
use katran.Xdp.{Xdp, u16_at, u32_at, put8, put16, put32, IsBytes}
use katran.Xdp.Bytes.{
  put8-IsBytes, put16-IsBytes, put32-IsBytes, put_lens, put16-len, u32_laws, behind_laws, u32_at-lt,
  u16_at-put16_self,
}
use katran.Run.{tx, State, done, put_bytes, read_bytes, write_bytes, memcpy}
use katran.Run.Bounds.{Leaves}
use katran.Csum.{csum_fold_helper}
use katran.Csum.Words.{words_sum, words_sum_same, ipv4_csum_inline_lem}
use katran.Csum.Header.{IsChecked, put_check-IsChecked, words_sum-lt, words_sum-pos}
use katran.Icmp.{send_icmp_reply, swap_mac_and_send}

-- `y` is the answer to the echo request `x`: sent back to where `x` came from, with a valid IPv4
-- header, and with the identifier, the sequence number and the data of `x`.
pub record IsEchoReply (x y : Xdp) : Type 0 where
  pub is_reply : y.byte 34 ≡ 0
  pub ttl : y.byte 22 ≡ 64
  pub from_receiver : u32_at y 26 ≡ u32_at x 30
  pub to_sender : u32_at y 30 ≡ u32_at x 26
  pub to_mac : (i : ℕ) → i < 6 → y.byte i ≡ x.byte (6 + i)
  pub from_mac : (i : ℕ) → i < 6 → y.byte (6 + i) ≡ x.byte i
  pub adjusted : u16_at y 36 ≡ (u16_at x 36 + 8) % 2 ^ 16
  pub checked : IsChecked y 14
  pub same_code : y.byte 35 ≡ x.byte 35
  pub same_data : (i : ℕ) → 38 ≤ i → y.byte i ≡ x.byte i
  pub same_len : y.len ≡ x.len

-- Up to the checksum of the IPv4 header.
unchecked : Xdp → Xdp
unchecked x =
    let a = put8 x 34 0 in
    let b = put8 (put16 a 36 (u16 (u16_at a 36 + 8))) 22 64 in
    put16 (put32 (put32 b 30 (u32_at b 26)) 26 (u32_at b 30)) 24 0

-- From the swap of the MAC addresses on.
swapped : Xdp → Xdp
swapped x = put_bytes (put_bytes x 6 6 (λ j. x.byte j)) 0 6 (λ j. x.byte (6 + j))

swap_mac_and_send_run :
    (s : State) → 14 ≤ s.xdp.len → swap_mac_and_send s ≡ done tx (record s { xdp = swapped s.xdp })
unfolding swap_mac_and_send swapped memcpy read_bytes write_bytes
swap_mac_and_send_run s h = ground arith

unchecked-IsBytes : (x : Xdp) → IsBytes x → IsBytes (unchecked x)
unfolding unchecked
unchecked-IsBytes x h = search (put8-IsBytes, put16-IsBytes, put32-IsBytes) depth 20

unchecked-len : (x : Xdp) → (unchecked x).len ≡ x.len
unfolding unchecked
unchecked-len x = simp put_lens

pub reply : Xdp → Xdp
reply x = let y = unchecked x in swapped (put16 y 24 (csum_fold_helper (words_sum 10 y 14)))

pub send_icmp_reply_run :
    (s : State)
    → IsBytes s.xdp
    → 42 ≤ s.xdp.len
    → send_icmp_reply s ≡ done tx (record s { xdp = reply s.xdp })
unfolding send_icmp_reply unchecked reply
send_icmp_reply_run s h b =
    let x = unchecked s.xdp in
    let small : words_sum 10 x 14 < 655360 = words_sum-lt x 14 (unchecked-IsBytes s.xdp h) in
    let len : x.len ≡ s.xdp.len = unchecked-len s.xdp in
    grind (arith, put_lens, ipv4_csum_inline_lem 14 (record s { xdp = x }), swap_mac_and_send_run)

swapped_behind : (x : Xdp) (i : ℕ) → 12 ≤ i → (swapped x).byte i ≡ x.byte i
unfolding swapped
swapped_behind x i from = ground arith

-- The fields that the reply sets, and those that it takes over.
fields :
    (x : Xdp) (check : ℕ)
    → let y = put16 (unchecked x) 24 check in
      (y.byte 34 ≡ 0)
      × (y.byte 22 ≡ 64)
      × (u16_at y 36 ≡ (u16_at x 36 + 8) % 2 ^ 16)
      × (y.byte 35 ≡ x.byte 35)
      × ((unchecked x).byte 14 ≡ x.byte 14)
unfolding unchecked put8 put16 put32 u16_at
fields x check = (ground arith, ground arith, ground arith, ground arith, ground arith)

addresses :
    (x : Xdp) (check : ℕ)
    → IsBytes x
    → let y = put16 (unchecked x) 24 check in
      (u32_at y 26 ≡ u32_at x 30) × (u32_at y 30 ≡ u32_at x 26)
unfolding unchecked
addresses x check h = (grind (u32_laws, u32_at-lt), grind (u32_laws, u32_at-lt))

data_kept : (x : Xdp) (check i : ℕ) → 38 ≤ i → (put16 (unchecked x) 24 check).byte i ≡ x.byte i
unfolding unchecked
data_kept x check i from = grind behind_laws

macs : (x : Xdp) (check i : ℕ) → i < 12 → (put16 (unchecked x) 24 check).byte i ≡ x.byte i
unfolding unchecked put8 put16 put32
macs x check i lt = ground arith

unchecked_check : (x : Xdp) → u16_at (unchecked x) 24 ≡ 0
unfolding unchecked
unchecked_check x = grind (arith, u16_at-put16_self)

u16_at-swapped : (x : Xdp) (i : ℕ) → 12 ≤ i → u16_at (swapped x) i ≡ u16_at x i
unfolding u16_at
u16_at-swapped x i from =
    omega (arith, swapped_behind x i from, swapped_behind x (i + 1) (omega arith))

u32_at-swapped : (x : Xdp) (i : ℕ) → 12 ≤ i → u32_at (swapped x) i ≡ u32_at x i
unfolding u32_at
u32_at-swapped x i from =
    omega (arith, u16_at-swapped x i from, u16_at-swapped x (i + 2) (omega arith))

swapped_macs :
    (x : Xdp) (i : ℕ)
    → i < 6
    → ((swapped x).byte i ≡ x.byte (6 + i)) × ((swapped x).byte (6 + i) ≡ x.byte i)
unfolding swapped
swapped_macs x i lt = (ground arith, ground arith)

swapped-len : (x : Xdp) → (swapped x).len ≡ x.len
unfolding swapped
swapped-len x = refl

swapped-IsChecked : (x : Xdp) → IsChecked x 14 → IsChecked (swapped x) 14
swapped-IsChecked x h =
    rw (words_sum_same 10 x (swapped x) 14 λ i from. swapped_behind x i (omega arith)) h

pub reply-IsEchoReply : (x : Xdp) → IsBytes x → x.byte 14 % 16 ≡ 5 → IsEchoReply x (reply x)
unfolding reply
reply-IsEchoReply x h ihl =
    let u = unchecked x in
    let check = csum_fold_helper (words_sum 10 u 14) in
    let z = put16 u 24 check in
    let (type, ttl, icmp, code, first) = fields x check in
    let (source, destination) = addresses x check h in
    record {
      is_reply = swapped_behind z 34 (omega arith) ∙ type;
      ttl = swapped_behind z 22 (omega arith) ∙ ttl;
      from_receiver = u32_at-swapped z 26 (omega arith) ∙ source;
      to_sender = u32_at-swapped z 30 (omega arith) ∙ destination;
      to_mac = λ i lt. (swapped_macs z i lt).0 ∙ macs x check (6 + i) (omega arith);
      from_mac = λ i lt. (swapped_macs z i lt).1 ∙ macs x check i (omega arith);
      adjusted = u16_at-swapped z 36 (omega arith) ∙ icmp;
      checked = swapped-IsChecked z (
          put_check-IsChecked u 14 (unchecked-IsBytes x h) (unchecked_check x)
            (words_sum-pos u 14 (omega (arith, first))));
      same_code = swapped_behind z 35 (omega arith) ∙ code;
      same_data = λ i from. swapped_behind z i (omega arith) ∙ data_kept x check i from;
      same_len = swapped-len z ∙ (put16-len u 24 check ∙ unchecked-len x);
    }

-- An echo request of IPv4 without options, long enough for its headers, is answered: the addresses of
-- both layers change places, the TTL is 64, the header's checksum is valid, and the ICMP checksum
-- is 8 more, as a 16-bit number.
pub send_icmp_reply-IsEchoReply :
    (s : State)
    → IsBytes s.xdp
    → 42 ≤ s.xdp.len
    → s.xdp.byte 14 % 16 ≡ 5
    → Leaves (λ a t. (a ≡ tx) × IsEchoReply s.xdp t.xdp) (send_icmp_reply s)
send_icmp_reply-IsEchoReply s h long ihl =
    rw (send_icmp_reply_run s h long) (refl, reply-IsEchoReply s.xdp h ihl)
