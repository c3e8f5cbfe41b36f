-- ===== src/Lb.antt =====
-- katran/lib/KatranLb.h, katran/lib/KatranLb.cpp, katran/lib/KatranLbStructs.h,
-- katran/lib/BalancerStructs.h, katran/lib/IpHelpers.cpp: what the control plane keeps.
-- A text is the list of its characters. The hash maps are association lists, a deque is a list.
pub mod Keys
pub mod Reals
pub mod Vips
pub mod Sources
pub mod Quic
pub mod Dsts
pub mod Table
pub mod Counts
pub mod Claims
pub mod Updates
pub mod Release
pub mod Adds
pub mod Install
pub mod Deletes
pub mod Modify
pub mod Rules
pub mod RuleDeletes
pub mod QuicKept
pub mod Run
pub mod DstsKept
pub mod Safety
pub mod Rings
pub mod Mirror
pub mod Stats
use katran.Base.{
  ℕ, zero, suc, ◌+◌, ◌*◌, ◌/◌, ◌%◌, ◌^◌, Bool, true, false, if◌then◌else◌, ◌==◌, ◌&&◌, ◌||◌, not,
}
use katran.Base.{
  Option, none, some, List, [], ◌∷◌, ◌++◌, u32, u64, Key, number_key, find, bpf_htons,
}
use katran.Structs.{Address, zero_address, VipDefinition, VipMeta}
use katran.Vip.{Vip}

abbrev pub Text : Type 0
Text = List ℕ

-- folly::IPAddress: `unspecified` is what its default constructor makes. The words are those in
-- memory, in network byte order.
pub data IpAddress : Type 0 where
  unspecified : IpAddress
  ipv4 : ℕ → IpAddress
  ipv6 : Address → IpAddress

-- folly::CIDRNetwork
pub record Network : Type 0 where
  pub base : IpAddress
  pub prefix : ℕ

pub record RealMeta : Type 0 where
  pub num : ℕ
  pub ref_count : ℕ

pub record NewReal : Type 0 where
  pub address : Text
  pub weight : ℕ

pub record QuicReal : Type 0 where
  pub address : Text
  pub id : ℕ

pub data AddressType : Type 0 where
  invalid host network : AddressType

pub record VipKey : Type 0 where
  pub address : Text
  pub port : ℕ
  pub proto : ℕ

pub record KatranConfig : Type 0 where
  pub disable_forwarding : Bool
  pub testing : Bool
  pub enable_hc : Bool
  pub max_vips : ℕ
  pub max_reals : ℕ
  pub ch_ring_size : ℕ
  pub max_lpm_src_size : ℕ
  pub max_decap_dst : ℕ

pub record Features : Type 0 where
  pub src_routing : Bool
  pub inline_decap : Bool
  pub direct_healthchecking : Bool

pub record KatranLbStats : Type 0 where
  pub bpf_failed_calls : ℕ
  pub addr_validation_failed : ℕ

-- struct beaddr: the words and the flags.
pub record BeAddr : Type 0 where
  pub daddr : Address
  pub flags : ℕ

-- The calls of bpfUpdateMap and bpfMapDeleteElement, by the map, with key and value.
pub data BpfCall : Type 0 where
  update_vip_map : VipDefinition → VipMeta → BpfCall
  delete_vip_map : VipDefinition → BpfCall
  update_ch_rings : ℕ → ℕ → BpfCall
  update_reals_array : ℕ → BeAddr → BpfCall
  update_lpm_src : BeAddr → ℕ → ℕ → BpfCall
  delete_lpm_src : BeAddr → ℕ → BpfCall
  update_quic_mapping : ℕ → ℕ → BpfCall
  update_decap_dst : BeAddr → ℕ → BpfCall
  delete_decap_dst : BeAddr → BpfCall
  update_hc_reals_map : ℕ → BeAddr → BpfCall
  delete_hc_reals_map : ℕ → BpfCall
  update_ctl_array : ℕ → List ℕ → BpfCall
  update_hc_pckt_macs : ℕ → List ℕ → BpfCall

-- folly::IPAddress::validate and its constructor, tryCreateNetwork, hash; MurmurHash3_x64_64; and
-- whether a call of the kernel succeeds, by the calls before it.
pub record Env : Type 0 where
  pub config : KatranConfig
  pub parse : Text → Option IpAddress
  pub try_create_network : Text → Option Network
  pub ip_hash : IpAddress → ℕ
  pub murmur : ℕ → ℕ → ℕ → ℕ
  pub succeeds : List BpfCall → BpfCall → Bool

-- `calls` is what was called of the kernel, the latest first.
pub record Lb : Type 0 where
  pub vips : List (VipKey × Vip)
  pub vip_nums : List ℕ
  pub reals : List (IpAddress × RealMeta)
  pub num_to_reals : List (ℕ × IpAddress)
  pub real_nums : List ℕ
  pub quic_mapping : List (IpAddress × ℕ)
  pub lpm_src_mapping : List (Network × ℕ)
  pub decap_dsts : List (IpAddress × Unit {0})
  pub hc_reals : List (ℕ × IpAddress)
  pub mac : List ℕ
  pub features : Features
  pub lb_stats : KatranLbStats
  pub calls : List BpfCall

abbrev pub same_text : Text → Text → Bool
same_text [] [] = true
same_text [] (b ∷ bs) = false
same_text (a ∷ ts) [] = false
same_text (a ∷ ts) (b ∷ bs) = a == b && same_text ts bs

abbrev pub same_words : Address → Address → Bool
same_words a b = a.w0 == b.w0 && (a.w1 == b.w1 && (a.w2 == b.w2 && a.w3 == b.w3))

abbrev pub same_address : IpAddress → IpAddress → Bool
same_address unspecified unspecified = true
same_address (ipv4 a) (ipv4 b) = a == b
same_address (ipv6 a) (ipv6 b) = same_words a b
same_address _ _ = false

abbrev pub same_network : Network → Network → Bool
same_network a b = same_address a.base b.base && a.prefix == b.prefix

abbrev pub same_vip : VipKey → VipKey → Bool
same_vip a b = same_text a.address b.address && (a.port == b.port && a.proto == b.proto)

-- parseAddrToBe with `bigendian`; it is not called on an address without a family.
unfoldable pub parse_addr_to_be : IpAddress → BeAddr
parse_addr_to_be unspecified = record { daddr = zero_address; flags = 1 }
parse_addr_to_be (ipv4 a) = record { daddr = record { w0 = a; w1 = 0; w2 = 0; w3 = 0 }; flags = 0 }
parse_addr_to_be (ipv6 a) = record { daddr = a; flags = 1 }

-- folly::Endian::big of 32 bits.
abbrev pub swap32 : ℕ → ℕ
swap32 x = bpf_htons (x % 2 ^ 16) * 2 ^ 16 + bpf_htons (x / 2 ^ 16 % 2 ^ 16)

-- parseAddrToInt
unfoldable pub parse_addr_to_int : IpAddress → BeAddr
parse_addr_to_int unspecified = record { daddr = zero_address; flags = 1 }
parse_addr_to_int (ipv4 a) = record {
  daddr = record { w0 = swap32 a; w1 = 0; w2 = 0; w3 = 0 };
  flags = 0;
}
parse_addr_to_int (ipv6 a) = record {
  daddr = record { w0 = swap32 a.w0; w1 = swap32 a.w1; w2 = swap32 a.w2; w3 = swap32 a.w3 };
  flags = 1;
}
