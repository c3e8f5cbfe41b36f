-- ===== src/Lib.antt =====
-- The forwarding plane of katran: the XDP program that takes a packet for a virtual IP, picks a real
-- server for it and sends the packet there inside an outer packet; and the part of its control plane
-- that keeps the VIPs, the reals and the tables that the program reads.
--
-- The parts and their files (paths from the repository's root):
-- - katran/lib/bpf/balancer_consts.h: Consts.antt. The constants have their default values; the
--   features of a -D flag are the record Config, and the theorems hold for each of its values.
-- - katran/lib/bpf/balancer_structs.h, balancer_maps.h, control_data_maps.h: Structs.antt, and Maps in
--   Run.antt. A union of an IPv4 and an IPv6 address is its four words, the first of which is the
--   IPv4 address. A map is a function into Option, `none` for a lookup that gives NULL; the per-CPU
--   maps are seen as one CPU sees them. A pointer into a map is the key that it was looked up by, and
--   a write through it changes the entry at once (Kern/Stats.antt).
-- - katran/lib/bpf/pckt_parsing.h: Parsing.antt (parse_udp, parse_tcp, parse_quic, calc_offset).
-- - katran/lib/bpf/csum_helpers.h: Csum.antt (csum_fold_helper, ipv4_csum, ipv4_csum_inline,
--   ipv4_l4_csum, ipv6_csum).
-- - katran/lib/bpf/balancer_helpers.h: Helpers.antt (decrement_ttl, recirculate).
-- - katran/lib/bpf/handle_icmp.h: Icmp.antt with Icmp/Reply, Icmp/TooBig and Icmp/Parse.
-- - katran/lib/bpf/pckt_encap.h, encap_helpers.h: Encap.antt, Encap/Headers.antt.
-- - katran/lib/bpf/balancer_kern.c: Kern.antt with Kern/L3 (process_l3_headers), Kern/Connections
--   (get_packet_hash, is_under_flood, get_packet_dst, connection_table_lookup), Kern/Decap
--   (check_decap_dst, process_encaped_ipip_pckt, process_encaped_gue_pckt) and Kern/Process
--   (process_packet by its stages, balancer_ingress).
-- - katran/lib/CHHelpers.h, CHHelpers.cpp: Maglev.antt (gen_maglev_permutation, generate_maglev_hash).
-- - katran/lib/Vip.h, Vip.cpp: Vip.antt (batch_reals_update, get_reals and the other methods).
-- - katran/lib/KatranLb.h, KatranLb.cpp, KatranLbStructs.h, BalancerStructs.h, IpHelpers.cpp: Lb.antt
--   for the state, with Lb/Keys, Lb/Reals (validate_address, the numbers of the reals and their
--   reference counts), Lb/Vips (the VIPs and modify_reals_for_vip), Lb/Sources (the rules of source
--   routing), Lb/Quic, Lb/Dsts (the mac and the destinations of decapsulation and health checks),
--   Lb/Stats (the getters) and Lb/Run (a sequence of calls of the methods that change what is
--   kept, and of two getters that can). The other files below Lb hold proofs.
--
-- Delivery.antt joins the two: the control plane writes what the program reads. An entry of
-- ch_rings at vip_num * ring size + position names a position of the array of reals. The methods of
-- the control plane are functions from the state Lb to a state and a result; an exception is
-- `none`, and so is a loop that does not return. The calls of the kernel are recorded in the field
-- `calls`, the newest first, and whether one succeeds is a parameter (Env in Lb.antt), as are the
-- parsing, the printing and the hash of folly::IPAddress, MurmurHash3 and the lookups in the
-- per-CPU maps. A hash map is an association list (Base/Assoc.antt), by an equality of keys that is
-- an argument.
--
-- A function of the BPF source is a Prog (Run.antt): from the state of one packet (its memory, the packet
-- description, the maps, the number of clock readings) to a Run: `done` with the value that is
-- returned, `exit` with an XDP action where the source returns from process_packet at once, or `fault`
-- where it would touch memory outside the packet. FURTHER_PROCESSING is `none` where a function's
-- verdict is an optional action. A packet (Xdp.antt) is a function from offsets to bytes and a length:
-- a field of a header is read and written at its offset, and each access tests the bounds. Words are
-- read as a little-endian host reads them, as BE_ETH_P_IP takes for granted. Numbers are natural
-- numbers, with the wrap-around of the source's types written out.
--
-- Kernel.antt holds what the program calls and the repository does not contain or only has a copy of:
-- the clock, the CPU's number, bpf_xdp_adjust_head, bpf_xdp_adjust_tail, bpf_csum_diff, the update of
-- an LRU map, the tail call and the hash functions of jhash.h. They are parameters. What is relied on
-- of them is a hypothesis, and the kernel of Tests/Fixtures.antt meets all of these.
--
-- The loops of the BPF source have a fixed number of rounds and are recursions on it. Two loops of
-- generate_maglev_hash have fuel. The search for a free slot has 2 ^ 32 steps, after which its 32-bit
-- walk comes round, so that a search without a result has none. The rounds are one more than the slots
-- of the ring: each round takes a slot, or a search in it has no result. A search without a result is
-- the `while` loop that does not end; it gives `none`, and so does all that calls it.
--
-- Not modelled: KATRAN_INTROSPECTION, which only reports to a perf ring; the recency that a lookup in an
-- LRU map leaves behind; other CPUs that write to a map during the run; the standalone decapsulation
-- and the health checking programs; of the control plane, the loading and attaching of programs, the
-- set-up of their maps, the monitor, the statistics of the maps' sizes and the getters that make a
-- map of texts of what is kept; the loader and the tools.
pub mod Base
pub mod Consts
pub mod Structs
pub mod Xdp
pub mod Run
pub mod Kernel
pub mod Csum
pub mod Maglev
pub mod Vip
pub mod Lb
pub mod Helpers
pub mod Parsing
pub mod Icmp
pub mod Encap
pub mod Kern
pub mod Delivery
pub mod Tests
