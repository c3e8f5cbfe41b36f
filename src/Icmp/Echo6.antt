-- ===== src/Icmp/Echo6.antt =====
-- katran/lib/bpf/handle_icmp.h: the answer to an ICMPv6 echo request.
use katran.Base.{ℕ, ◌+◌, ◌-◌, ◌%◌, ◌^◌, ◌≤◌, ◌<◌, ◌≡◌, arith}
use katran.Xdp.{Xdp, IsBytes, u16_at, u32_at, put8, put16, put32}
use katran.Xdp.Bytes.{front_laws, byte-put16_low, byte-put16_high}
use katran.Run.{
  Action, tx, State, Run, done, exit, fault, read_bytes, write_bytes, memcpy, store_address,
  load_address,
}
use katran.Run.Bounds.{Leaves}
use katran.Icmp.{send_icmp6_reply, swap_mac_and_send}

-- The fields of the reply's headers that are set or adjusted.
abbrev Adjusted : Xdp → Xdp → Type 0
Adjusted x y =
    (y.byte 54 ≡ 129)
    × (y.byte 21 ≡ 64)
    × (u16_at y 56 ≡ (u16_at x 56 + (2 ^ 16 - 1)) % 2 ^ 16)
    × (y.byte 55 ≡ x.byte 55)
    × (y.len ≡ x.len)

-- The source address of the request.
abbrev Destination : Xdp → Xdp → Type 0
Destination x y =
    (u32_at y 38 ≡ u32_at x 22)
    × (u32_at y 42 ≡ u32_at x 26)
    × (u32_at y 46 ≡ u32_at x 30)
    × (u32_at y 50 ≡ u32_at x 34)

-- `y` is the answer to the echo request `x`: sent back to where `x` came from, with the identifier,
-- the sequence number and the data of `x`.
pub record IsEchoReply6 (x y : Xdp) : Type 0 where
  pub adjusted : Adjusted x y
  pub to_sender : Destination x y
  pub from_receiver : (i : ℕ) → i < 16 → y.byte (22 + i) ≡ x.byte (38 + i)
  pub to_mac : (i : ℕ) → i < 6 → y.byte i ≡ x.byte (6 + i)
  pub from_mac : (i : ℕ) → i < 6 → y.byte (6 + i) ≡ x.byte i
  pub same_data : (i : ℕ) → 58 ≤ i → y.byte i ≡ x.byte i

adjusted6 :
    (s : State)
    → 62 ≤ s.xdp.len
    → Leaves (λ a t. (a ≡ tx) × Adjusted s.xdp t.xdp) (send_icmp6_reply s)
unfolding send_icmp6_reply swap_mac_and_send memcpy read_bytes write_bytes store_address
    load_address u16_at
adjusted6 s long = grind (front_laws, byte-put16_low, byte-put16_high)

destination6 :
    (s : State)
    → IsBytes s.xdp
    → 62 ≤ s.xdp.len
    → Leaves (λ _ t. Destination s.xdp t.xdp) (send_icmp6_reply s)
unfolding send_icmp6_reply swap_mac_and_send memcpy read_bytes write_bytes store_address
    load_address u32_at u16_at put32 put16 put8
destination6 s h long = grind arith

-- One byte of the source address, of the MAC addresses and of the data.
source6 :
    (s : State) (i : ℕ)
    → 62 ≤ s.xdp.len
    → i < 16
    → Leaves (λ _ t. t.xdp.byte (22 + i) ≡ s.xdp.byte (38 + i)) (send_icmp6_reply s)
unfolding send_icmp6_reply swap_mac_and_send memcpy read_bytes write_bytes store_address
    load_address
source6 s i long h = grind front_laws

to_mac6 :
    (s : State) (i : ℕ)
    → 62 ≤ s.xdp.len
    → i < 6
    → Leaves (λ _ t. t.xdp.byte i ≡ s.xdp.byte (6 + i)) (send_icmp6_reply s)
unfolding send_icmp6_reply swap_mac_and_send memcpy read_bytes write_bytes store_address
    load_address
to_mac6 s i long h = grind front_laws

from_mac6 :
    (s : State) (i : ℕ)
    → 62 ≤ s.xdp.len
    → i < 6
    → Leaves (λ _ t. t.xdp.byte (6 + i) ≡ s.xdp.byte i) (send_icmp6_reply s)
unfolding send_icmp6_reply swap_mac_and_send memcpy read_bytes write_bytes store_address
    load_address
from_mac6 s i long h = grind front_laws

data6 :
    (s : State) (i : ℕ)
    → 62 ≤ s.xdp.len
    → 58 ≤ i
    → Leaves (λ _ t. t.xdp.byte i ≡ s.xdp.byte i) (send_icmp6_reply s)
unfolding send_icmp6_reply swap_mac_and_send memcpy read_bytes write_bytes store_address
    load_address
data6 s i long h = grind front_laws

-- An ICMPv6 echo request that is long enough for its headers is answered: the addresses of both
-- layers change places, the hop limit is 64, and the ICMP checksum is 1 less, as a 16-bit number.
pub send_icmp6_reply-IsEchoReply6 :
    (s : State)
    → IsBytes s.xdp
    → 62 ≤ s.xdp.len
    → Leaves (λ a t. (a ≡ tx) × IsEchoReply6 s.xdp t.xdp) (send_icmp6_reply s)
send_icmp6_reply-IsEchoReply6 s h long =
    together (send_icmp6_reply s) (adjusted6 s long) (destination6 s h long)
      (λ i lt. source6 s i long lt) (λ i lt. to_mac6 s i long lt) (λ i lt. from_mac6 s i long lt)
      (λ i from. data6 s i long from)
  where
    together :
        (r : Run Action)
        → Leaves (λ a t. (a ≡ tx) × Adjusted s.xdp t.xdp) r
        → Leaves (λ _ t. Destination s.xdp t.xdp) r
        → ((i : ℕ) → i < 16 → Leaves (λ _ t. t.xdp.byte (22 + i) ≡ s.xdp.byte (38 + i)) r)
        → ((i : ℕ) → i < 6 → Leaves (λ _ t. t.xdp.byte i ≡ s.xdp.byte (6 + i)) r)
        → ((i : ℕ) → i < 6 → Leaves (λ _ t. t.xdp.byte (6 + i) ≡ s.xdp.byte i) r)
        → ((i : ℕ) → 58 ≤ i → Leaves (λ _ t. t.xdp.byte i ≡ s.xdp.byte i) r)
        → Leaves (λ a t. (a ≡ tx) × IsEchoReply6 s.xdp t.xdp) r
    together (done a t) fixed to from mac mac2 rest = (
      fixed.0,
      record {
        adjusted = fixed.1;
        to_sender = to;
        from_receiver = from;
        to_mac = mac;
        from_mac = mac2;
        same_data = rest;
      },
    )
    together (exit a t) fixed to from mac mac2 rest = fixed
    together fault fixed to from mac mac2 rest = fixed
