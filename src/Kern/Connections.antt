-- ===== src/Kern/Connections.antt =====
-- katran/lib/bpf/balancer_kern.c: the real server for a packet, from the connection table or from
-- the VIP's ring.
pub mod Ring
pub mod Flood
pub mod Affinity
pub mod DportOnly
use katran.Base.{
  ℕ, ◌+◌, ◌-◌, ◌*◌, ◌%◌, ◌^◌, Bool, true, not, Option, none, some, if◌then◌else◌, ◌==◌, ltb, ◌&&◌,
  bit_and, u32, u64,
}
use katran.Consts.{
  Config, ring_size, one_sec, lru_udp_timeout, f_src_routing, f_hash_dport_only, f_lru_bypass,
  new_conn_rate_cntr, lpm_src_cntrs, max_conn_rate, init_jhash_seed, init_jhash_seed_v6,
  ipproto_udp,
}
use katran.Structs.{
  PacketDescription, VipMeta, RealPosLru, RealDefinition, LbStats, ports, flow_eq, zero_address,
}
use katran.Run.{State, Maps, Lru, Prog, pure, gets, modify, ◌>>=◌, ◌>>◌}
use katran.Kernel.{Kernel, ktime}
use katran.Kern.Stats.{add_counts, on_stats, with_maps, own}

-- A test of a flag.
abbrev pub has : ℕ → ℕ → Bool
has flags f = not (bit_and flags f == 0)

-- The map that `lru_map` points to.
pub data LruMap : Type 0 where
  per_cpu : ℕ → LruMap
  fallback : LruMap

abbrev lru_of : Option Lru → Lru
lru_of none f = none
lru_of (some l) f = l f

abbrev pub get_lru : LruMap → Maps → Lru
get_lru (per_cpu cpu) m = lru_of (m.lru_maps_mapping cpu)
get_lru fallback m = m.fallback_lru_cache

abbrev pub put_lru : LruMap → Lru → Maps → Maps
put_lru (per_cpu cpu) l m = record m {
  lru_maps_mapping = λ j. if j == cpu then some l else m.lru_maps_mapping j;
}
put_lru fallback l m = record m { fallback_lru_cache = l }

abbrev pub with_real_index : ℕ → State → State
with_real_index key s = record s { pckt = record s.pckt { real_index = key } }

-- `a - b` on `__u64`.
abbrev pub since : ℕ → ℕ → ℕ
since now before = u64 (now + 2 ^ 64 - before)

module _ (k : Kernel) where
  unfoldable pub get_packet_hash : PacketDescription → Bool → ℕ
  get_packet_hash pckt hash_16bytes =
      if hash_16bytes
      then k.jhash_2words (k.jhash pckt.flow.src 16 init_jhash_seed_v6) (ports pckt.flow)
          init_jhash_seed
      else k.jhash_2words pckt.flow.src.w0 (ports pckt.flow) init_jhash_seed

  -- The new counters at the time `cur_time`: `v1` new connections since `v2`.
  abbrev pub count_connection : ℕ → LbStats → LbStats
  count_connection cur_time d =
      if ltb one_sec (since cur_time d.v2)
      then record { v1 = 1; v2 = cur_time }
      else record d { v1 = u64 (d.v1 + 1) }

  -- The answer, and `*cur_time`.
  unfoldable pub is_under_flood : Prog (Bool × ℕ)
  is_under_flood = do
    conn_rate_stats ← gets (λ s. s.maps.stats (own new_conn_rate_cntr))
    elim conn_rate_stats [
      | none ↦ pure (true, 0)
      | some d ↦ do
        cur_time ← ktime k
        on_stats (own new_conn_rate_cntr) (count_connection cur_time)
        pure (
          not (ltb one_sec (since cur_time d.v2)) && ltb max_conn_rate (u64 (d.v1 + 1)),
          cur_time,
        )
    ]

  -- The source based routing of get_packet_dst, with its counters.
  unfoldable pub lpm_lookup : Bool → Prog (Option ℕ)
  lpm_lookup is_ipv6 = do
    lpm_val ← gets (λ s.
        if is_ipv6
        then s.maps.lpm_src_v6 (record { prefixlen = 128; addr = s.pckt.flow.src })
        else s.maps.lpm_src_v4 (record { prefixlen = 32; addr = s.pckt.flow.src.w0 }))
    on_stats (own lpm_src_cntrs) (elim lpm_val [ none ↦ add_counts 1 0 | some _ ↦ add_counts 0 1 ])
    pure lpm_val

  -- Hashing by the destination port alone overwrites the flow.
  abbrev pub dport_only : State → State
  dport_only s = record s {
    pckt = record s.pckt {
      flow = record s.pckt.flow { port0 = s.pckt.flow.port1; src = zero_address };
    };
  }

  -- The index of the packet's slot in `ch_rings`.
  unfoldable pub ring_key : PacketDescription → VipMeta → Bool → ℕ
  unfolding get_packet_hash
  ring_key pckt vip_info is_ipv6 =
      u32 (ring_size * vip_info.vip_num + get_packet_hash pckt is_ipv6 % ring_size)

  unfoldable pub ring_lookup : VipMeta → Bool → Prog (Option ℕ)
  unfolding ring_key
  ring_lookup vip_info is_ipv6 = do
    if has vip_info.flags f_hash_dport_only then modify dport_only else pure tt
    gets (λ s. s.maps.ch_rings (ring_key s.pckt vip_info is_ipv6))

  -- `new_dst_lru`, put into the connection table under the packet's flow.
  unfoldable pub remember : LruMap → ℕ → ℕ → Prog (Unit {0})
  remember lru_map key cur_time = modify (λ s.
      with_maps
        (λ m.
          put_lru lru_map
            (k.lru_update_elem (get_lru lru_map m) s.pckt.flow (record {
              pos = key;
              atime = if s.pckt.flow.proto == ipproto_udp then cur_time else 0;
            }))
            m)
        s)

  -- The end of get_packet_dst, from `pckt->real_index = key` on.
  unfoldable pub use_real : VipMeta → LruMap → Bool → ℕ → ℕ → Prog (Option RealDefinition)
  unfolding remember
  use_real vip_info lru_map under_flood cur_time key = do
    modify (with_real_index key)
    real ← gets (λ s. s.maps.reals key)
    elim real [
      | none ↦ pure none
      | some real ↦ do
        if not (has vip_info.flags f_lru_bypass) && not under_flood
            then remember lru_map key cur_time
            else pure tt
        pure (some real)
    ]

  -- The key that the source based routing finds, where it is on.
  unfoldable pub source_key : Config → VipMeta → Bool → Bool → Prog (Option ℕ)
  source_key c vip_info is_ipv6 under_flood =
      if c.lpm_src_lookup && (has vip_info.flags f_src_routing && not under_flood)
      then lpm_lookup is_ipv6
      else pure none

  -- The key that `ch_rings` holds, `none` where the lookup fails.
  unfoldable pub key_of : VipMeta → Bool → Option ℕ → Prog (Option ℕ)
  key_of vip_info is_ipv6 none = ring_lookup vip_info is_ipv6
  key_of vip_info is_ipv6 (some key) = pure (some key)

  -- The rest of get_packet_dst, where a lookup that fails is `return false`.
  unfoldable pub use_key : VipMeta → LruMap → Bool → ℕ → Option ℕ → Prog (Option RealDefinition)
  use_key vip_info lru_map under_flood cur_time none = pure none
  use_key vip_info lru_map under_flood cur_time (some key) =
      use_real vip_info lru_map under_flood cur_time key

  unfoldable pub choose_dst :
      Config → VipMeta → Bool → LruMap → Bool → ℕ → Prog (Option RealDefinition)
  choose_dst c vip_info is_ipv6 lru_map under_flood cur_time = do
    src_key ← source_key c vip_info is_ipv6 under_flood
    found ← key_of vip_info is_ipv6 src_key
    use_key vip_info lru_map under_flood cur_time found

  -- `none` is `return false`.
  unfoldable pub get_packet_dst : Config → VipMeta → Bool → LruMap → Prog (Option RealDefinition)
  get_packet_dst c vip_info is_ipv6 lru_map = do
    (under_flood, cur_time) ← is_under_flood
    choose_dst c vip_info is_ipv6 lru_map under_flood cur_time

  -- `dst_lru->atime = cur_time`, through the pointer into the table.
  abbrev pub touch : LruMap → RealPosLru → ℕ → State → State
  touch lru_map dst_lru cur_time s =
      with_maps
        (λ m.
          put_lru lru_map
            (λ f.
              if flow_eq f s.pckt.flow
              then some (record dst_lru { atime = cur_time })
              else get_lru lru_map m f)
            m)
        s

  unfoldable pub found_real : RealPosLru → Prog (Option RealDefinition)
  found_real dst_lru = do modify (with_real_index dst_lru.pos); gets (λ s. s.maps.reals dst_lru.pos)

  -- The new value of `*real`, which is NULL before the call.
  unfoldable pub connection_table_lookup : LruMap → Prog (Option RealDefinition)
  connection_table_lookup lru_map = do
    dst_lru ← gets (λ s. get_lru lru_map s.maps s.pckt.flow)
    proto ← gets (λ s. s.pckt.flow.proto)
    elim dst_lru [
      | none ↦ pure none
      | some dst_lru ↦ if not (proto == ipproto_udp) then found_real dst_lru else do
        cur_time ← ktime k
        if ltb lru_udp_timeout (since cur_time dst_lru.atime)
            then pure none
            else do modify (touch lru_map dst_lru cur_time); found_real dst_lru
    ]
