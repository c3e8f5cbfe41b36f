-- ===== src/Kern/Stats.antt =====
-- The counters of katran/lib/bpf/balancer_maps.h: `p->v1 += a; p->v2 += b` through the pointer that
-- a lookup gave.
use katran.Base.{ℕ, ◌+◌, Option, none, some, if◌then◌else◌, ◌==◌, u64}
use katran.Consts.{max_vips}
use katran.Structs.{LbStats}
use katran.Run.{State, Maps, Prog, gets, modify, or_return, drop, ◌>>=◌}

abbrev pub add_counts : ℕ → ℕ → LbStats → LbStats
add_counts a b d = record { v1 = u64 (d.v1 + a); v2 = u64 (d.v2 + b) }

abbrev pub map_entry : (LbStats → LbStats) → Option LbStats → Option LbStats
map_entry f none = none
map_entry f (some d) = some (f d)

-- The table with `f` applied to the entry of `key`.
abbrev pub at_key : ℕ → (LbStats → LbStats) → (ℕ → Option LbStats) → ℕ → Option LbStats
at_key key f m j = if j == key then map_entry f (m j) else m j

abbrev pub with_maps : (Maps → Maps) → State → State
with_maps f s = record s { maps = f s.maps }

abbrev pub on_stats : ℕ → (LbStats → LbStats) → Prog (Unit {0})
on_stats key f = modify (with_maps (λ m. record m { stats = at_key key f m.stats }))

abbrev pub on_reals_stats : ℕ → (LbStats → LbStats) → Prog (Unit {0})
on_reals_stats key f =
    modify (with_maps (λ m. record m { reals_stats = at_key key f m.reals_stats }))

-- The lookup whose NULL makes the program drop the packet.
abbrev pub need_stats : ℕ → Prog LbStats
need_stats key = do found ← gets (λ s. s.maps.stats key); or_return found drop

-- The key of one of the program's own counters, behind those of the VIPs.
abbrev pub own : ℕ → ℕ
own cntr = max_vips + cntr
