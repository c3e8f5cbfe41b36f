-- ===== src/Kern/Connections/Ring.antt =====
-- The slot of a packet in the consistent hashing rings.
use katran.Base.{◌/◌, ◌<◌, ◌≡◌, arith, Bool}
use katran.Consts.{ring_size, ch_rings_size, max_vips}
use katran.Structs.{PacketDescription, VipMeta}
use katran.Kernel.{Kernel}
use katran.Kern.Connections.{ring_key}

-- Whatever the hash function, the key of a packet for the VIP `n` lies in `ch_rings` and in the part
-- of it that belongs to `n`: no product or sum wraps.
pub ring_key-in_ring :
    (k : Kernel) (p : PacketDescription) (vip : VipMeta) (v6 : Bool)
    → vip.vip_num < max_vips
    → (ring_key k p vip v6 < ch_rings_size) × (ring_key k p vip v6 / ring_size ≡ vip.vip_num)
unfolding ring_key
ring_key-in_ring k p vip v6 h = omega arith
