-- ===== src/Icmp.antt =====
-- katran/lib/bpf/handle_icmp.h: echo replies, "packet too big" messages, and the flow that an
-- ICMP error quotes.
pub mod Reply
pub mod TooBig
pub mod Parse
pub mod Bounds
pub mod NoPass
pub mod Echo
pub mod EchoChecksum
pub mod Echo6
pub mod EchoChecksum6
unfoldable pub use Reply.{swap_mac_and_send, send_icmp_reply, send_icmp6_reply}
unfoldable pub use TooBig.{swap_mac, send_icmp4_too_big, send_icmp6_too_big, send_icmp_too_big}
unfoldable pub use Parse.{parse_icmpv6, parse_icmp}
