-- ===== src/Kern.antt =====
-- katran/lib/bpf/balancer_kern.c: the XDP program.
pub mod L3
pub mod Stats
pub mod Connections
pub mod Decap
pub mod Process
pub mod Bounds
pub mod NoPass
pub mod Passed
pub mod Flow
pub mod FlowV6
pub mod TrafficClass
unfoldable pub use L3.{process_l3_headers}
unfoldable pub use Connections.{
  get_packet_hash, is_under_flood, get_packet_dst, connection_table_lookup,
}
unfoldable pub use Decap.{check_decap_dst, process_encaped_ipip_pckt, process_encaped_gue_pckt}
unfoldable pub use Process.{process_packet, balancer_ingress}
