-- ===== src/Structs.antt =====
-- katran/lib/bpf/balancer_structs.h: the values of the maps and the description of a packet.
-- A union of an IPv4 and an IPv6 address is its four words; the IPv4 member is the first.
use katran.Base.{ℕ, ◌+◌, ◌*◌, ◌^◌, Bool, ◌==◌, ◌&&◌}

-- `__be32 [4]`, in the order of the array.
pub record Address : Type 0 where
  pub w0 : ℕ
  pub w1 : ℕ
  pub w2 : ℕ
  pub w3 : ℕ

abbrev pub zero_address : Address
zero_address = record { w0 = 0; w1 = 0; w2 = 0; w3 = 0 }

abbrev pub address_eq : Address → Address → Bool
address_eq a b = a.w0 == b.w0 && (a.w1 == b.w1 && (a.w2 == b.w2 && a.w3 == b.w3))

-- `src.w0` is `src`, `src` is `srcv6`; the same for `dst`. `port0` and `port1` are `port16[0]`
-- and `port16[1]`.
pub record FlowKey : Type 0 where
  pub src : Address
  pub dst : Address
  pub port0 : ℕ
  pub port1 : ℕ
  pub proto : ℕ

-- The other member of the union of the ports.
abbrev pub ports : FlowKey → ℕ
ports f = f.port0 + f.port1 * 2 ^ 16

abbrev pub flow_eq : FlowKey → FlowKey → Bool
flow_eq a b =
    address_eq a.src b.src
    && (address_eq a.dst b.dst
        && (a.port0 == b.port0 && (a.port1 == b.port1 && a.proto == b.proto)))

pub record PacketDescription : Type 0 where
  pub flow : FlowKey
  pub real_index : ℕ
  pub flags : ℕ
  pub tos : ℕ

-- `= {}`
abbrev pub empty_flow : FlowKey
empty_flow = record { src = zero_address; dst = zero_address; port0 = 0; port1 = 0; proto = 0 }

abbrev pub empty_description : PacketDescription
empty_description = record { flow = empty_flow; real_index = 0; flags = 0; tos = 0 }

-- The six bytes of `mac` are the low bytes of `value`.
pub record CtlValue : Type 0 where
  pub value : ℕ

pub record VipDefinition : Type 0 where
  pub vip : Address
  pub port : ℕ
  pub proto : ℕ

pub record VipMeta : Type 0 where
  pub flags : ℕ
  pub vip_num : ℕ

pub record RealPosLru : Type 0 where
  pub pos : ℕ
  pub atime : ℕ

pub record RealDefinition : Type 0 where
  pub dst : Address
  pub flags : ℕ

pub record LbStats : Type 0 where
  pub v1 : ℕ
  pub v2 : ℕ

pub record V4LpmKey : Type 0 where
  pub prefixlen : ℕ
  pub addr : ℕ

pub record V6LpmKey : Type 0 where
  pub prefixlen : ℕ
  pub addr : Address
