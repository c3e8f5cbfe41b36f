-- ===== src/Kern/Connections/Affinity.antt =====
-- The connection table keeps a flow on its real server.
use katran.Base.{
  ℕ, ◌≤◌, ◌≡◌, refl, arith, Bool, false, some, none, Option, if◌then◌else◌, ◌==◌, ltb, Bool-cases,
  Option-cases, sym, ap, subst, ◌∙◌, inl, inr,
}
use katran.Consts.{Config, lru_udp_timeout, ipproto_udp, f_lru_bypass, f_hash_dport_only}
use katran.Structs.{FlowKey, RealPosLru, RealDefinition, VipMeta}
use katran.Run.{State, done, Lru, Maps}
use katran.Run.Bounds.{Leaves, Leaves-at, and_then-eq-done}
use katran.Kernel.{Kernel}
use katran.Kern.Stats.{with_maps}
use katran.Kern.Connections.{
  has, with_real_index, LruMap, per_cpu, fallback, get_lru, put_lru, since, is_under_flood,
  use_real, lpm_lookup, ring_lookup, source_key, key_of, use_key, choose_dst, get_packet_dst,
  connection_table_lookup, found_real,
}

pub get_lru-put_lru :
    (l : LruMap) (u : Lru) (m : Maps) (f : FlowKey) → get_lru l (put_lru l u m) f ≡ u f
get_lru-put_lru (per_cpu cpu) u m f = ground arith
get_lru-put_lru fallback u m f = refl

-- The documented effect of an update that succeeds.
abbrev pub Stores : Kernel → Type 0
Stores k = (l : Lru) (f : FlowKey) (v : RealPosLru) → k.lru_update_elem l f v f ≡ some v

-- The entry that `use_real` leaves for a flow.
abbrev pub entry : FlowKey → ℕ → ℕ → RealPosLru
entry f key now = record { pos = key; atime = if f.proto == ipproto_udp then now else 0 }

abbrev pub Holds : LruMap → Maps → ℕ → ℕ → FlowKey → Type 0
Holds l m key now f = get_lru l m f ≡ some (entry f key now)

put_lru-reals : (l : LruMap) (u : Lru) (m : Maps) → (put_lru l u m).reals ≡ m.reals
put_lru-reals (per_cpu cpu) u m = refl
put_lru-reals fallback u m = refl

-- The state in which `use_real` leaves a packet whose flow it puts into the table.
abbrev pub remembered : Kernel → LruMap → ℕ → ℕ → State → State
remembered k l now key s =
    with_maps
      (λ m. put_lru l (k.lru_update_elem (get_lru l m) s.pckt.flow (entry s.pckt.flow key now)) m)
      (with_real_index key s)

use_real_run :
    (k : Kernel) (vip : VipMeta) (l : LruMap) (now key : ℕ) (real : RealDefinition) (s : State)
    → has vip.flags f_lru_bypass ≡ false
    → s.maps.reals key ≡ some real
    → use_real k vip l false now key s ≡ done (some real) (remembered k l now key s)
unfolding use_real
use_real_run k vip l now key real s nb e = rw (e, nb) refl

use_real-none :
    (k : Kernel) (vip : VipMeta) (l : LruMap) (now key : ℕ) (s : State)
    → s.maps.reals key ≡ none
    → use_real k vip l false now key s ≡ done none (with_real_index key s)
unfolding use_real
use_real-none k vip l now key s e = rw e refl

done-injective : {A : Type 0} {a b : A} {s t : State} → done a s ≡ done b t → s ≡ t
done-injective h = cc

-- What the table holds of the flow.
remembered-holds :
    (k : Kernel) (l : LruMap) (now key : ℕ) (s : State)
    → Stores k
    → get_lru l (remembered k l now key s).maps s.pckt.flow ≡ some (entry s.pckt.flow key now)
remembered-holds k l now key s st =
    get_lru-put_lru l (k.lru_update_elem (get_lru l s.maps) s.pckt.flow (entry s.pckt.flow key now))
      s.maps s.pckt.flow
    ∙ st (get_lru l s.maps) s.pckt.flow (entry s.pckt.flow key now)

in_time :
    (k : Kernel) (now : ℕ) (t : State)
    → since (k.ktime_get_ns t.tick) now ≤ lru_udp_timeout
    → ltb lru_udp_timeout (since (k.ktime_get_ns t.tick) now) ≡ false
in_time k now t h = ground arith

-- A lookup that finds the flow's entry, in time if the flow is UDP.
lookup_found :
    (k : Kernel) (l : LruMap) (key now : ℕ) (real : RealDefinition) (t : State)
    → get_lru l t.maps t.pckt.flow ≡ some (entry t.pckt.flow key now)
    → t.maps.reals key ≡ some real
    → since (k.ktime_get_ns t.tick) now ≤ lru_udp_timeout
    → Leaves (λ r t'. (r ≡ some real) × (t'.pckt.real_index ≡ key)) (connection_table_lookup k l t)
unfolding connection_table_lookup found_real
lookup_found k l key now real t e er fresh = elim (Bool-cases (t.pckt.flow.proto == ipproto_udp)) [
  | inl udp ↦ rw (e, udp, in_time k now t fresh) (rw (put_lru-reals, er) (refl, refl))
  | inr other ↦ rw (e, other, er) (refl, refl)
]

use_real_holds :
    (k : Kernel) (vip : VipMeta) (l : LruMap) (now key : ℕ) (real : RealDefinition) (s s' : State)
    → Stores k
    → has vip.flags f_lru_bypass ≡ false
    → use_real k vip l false now key s ≡ done (some real) s'
    → get_lru l s'.maps s.pckt.flow ≡ some (entry s.pckt.flow s'.pckt.real_index now)
use_real_holds k vip l now key real s s' st nb e = elim (Option-cases (s.maps.reals key)) [
  | inl unknown ↦ cc (use_real-none k vip l now key s unknown)
  | inr (found, er) ↦
      let same : s' ≡ remembered k l now key s =
        done-injective (sym e ∙ use_real_run k vip l now key found s nb er) in
      rw same (remembered-holds k l now key s st)
]

source_key-Leaves :
    (k : Kernel) (c : Config) (vip : VipMeta) (v6 flood : Bool) (s : State)
    → Leaves (λ _ t. t.pckt ≡ s.pckt) (source_key k c vip v6 flood s)
unfolding source_key lpm_lookup
source_key-Leaves k c vip v6 flood s = ground arith

key_of-Leaves :
    (k : Kernel) (vip : VipMeta) (v6 : Bool) (o : Option ℕ) (s : State)
    → has vip.flags f_hash_dport_only ≡ false
    → Leaves (λ _ t. t.pckt ≡ s.pckt) (key_of k vip v6 o s)
unfolding key_of ring_lookup
key_of-Leaves k vip v6 none s nd = ground arith
key_of-Leaves k vip v6 (some key) s nd = refl

use_key_holds :
    (k : Kernel) (vip : VipMeta) (l : LruMap) (now : ℕ) (found : Option ℕ) (real : RealDefinition)
    (s s' : State)
    → Stores k
    → has vip.flags f_lru_bypass ≡ false
    → use_key k vip l false now found s ≡ done (some real) s'
    → get_lru l s'.maps s.pckt.flow ≡ some (entry s.pckt.flow s'.pckt.real_index now)
unfolding use_key
use_key_holds k vip l now none real s s' st nb e = cc
use_key_holds k vip l now (some key) real s s' st nb e =
    use_real_holds k vip l now key real s s' st nb e

module _ (k : Kernel) (c : Config) (vip : VipMeta) (v6 : Bool) (l : LruMap) (now : ℕ)
    (real : RealDefinition) (s s1 s' : State) (stores : Stores k)
    (no_bypass : has vip.flags f_lru_bypass ≡ false)
    (whole_flow : has vip.flags f_hash_dport_only ≡ false)
    (no_flood : is_under_flood k s ≡ done (false, now) s1)
    (got : get_packet_dst k c vip v6 l s ≡ done (some real) s') where
  -- Getting a new server puts the flow into the table, with the server's index.
  get_packet_dst_holds :
      get_lru l s'.maps s1.pckt.flow ≡ some (entry s1.pckt.flow s'.pckt.real_index now)
  unfolding get_packet_dst choose_dst
  get_packet_dst_holds =
      let e1 : choose_dst k c vip v6 l false now s1 ≡ done (some real) s' = rw no_flood at got in
      let (o, s2, eo, e2) = and_then-eq-done (source_key k c vip v6 false s1) _ e1 in
      let (found, s3, ef, e3) = and_then-eq-done (key_of k vip v6 o s2) _ e2 in
      let p2 : s2.pckt ≡ s1.pckt = Leaves-at _ _ o s2 (source_key-Leaves k c vip v6 false s1) eo in
      let p3 : s3.pckt ≡ s2.pckt =
        Leaves-at _ _ found s3 (key_of-Leaves k vip v6 o s2 whole_flow) ef in
      let holds = use_key_holds k vip l now found real s3 s' stores no_bypass e3 in
      subst (Holds l s'.maps s'.pckt.real_index now) (ap (λ p. p.flow) (p3 ∙ p2)) holds

is_under_flood-Leaves :
    (k : Kernel) (s : State) → Leaves (λ _ t. t.pckt ≡ s.pckt) (is_under_flood k s)
unfolding is_under_flood
is_under_flood-Leaves k s = ground arith

-- A flow stays on its server. When an update of the table stores its entry and `get_packet_dst` has chosen a server for a packet, outside a
-- flood, for a VIP that uses the connection table and hashes more than the destination port, then a
-- lookup for a later packet of the same flow finds this server, if the table still holds what it
-- held of the flow, the index still stands for the server, and no more time than the timeout for UDP
-- has passed. The rings do not matter.
pub get_packet_dst_affinity :
    (k : Kernel) (c : Config) (vip : VipMeta) (v6 : Bool) (l : LruMap) (now : ℕ)
    (real : RealDefinition) (s s1 s' t : State)
    → Stores k
    → has vip.flags f_lru_bypass ≡ false
    → has vip.flags f_hash_dport_only ≡ false
    → is_under_flood k s ≡ done (false, now) s1
    → get_packet_dst k c vip v6 l s ≡ done (some real) s'
    → t.pckt.flow ≡ s.pckt.flow
    → get_lru l t.maps s.pckt.flow ≡ get_lru l s'.maps s.pckt.flow
    → t.maps.reals s'.pckt.real_index ≡ some real
    → since (k.ktime_get_ns t.tick) now ≤ lru_udp_timeout
    → Leaves
        (λ r t'. (r ≡ some real) × (t'.pckt.real_index ≡ s'.pckt.real_index))
        (connection_table_lookup k l t)
get_packet_dst_affinity k c vip v6 l now real s s1 s' t st nb nd nf got ft same er fresh =
    let p1 : s1.pckt ≡ s.pckt = Leaves-at _ _ (false, now) s1 (is_under_flood-Leaves k s) nf in
    let holds = get_packet_dst_holds k c vip v6 l now real s s1 s' st nb nd nf got in
    let held : get_lru l t.maps t.pckt.flow ≡ some (entry t.pckt.flow s'.pckt.real_index now) =
      subst (Holds l t.maps s'.pckt.real_index now) (sym ft)
        (same ∙ subst (Holds l s'.maps s'.pckt.real_index now) (ap (λ u. u.flow) p1) holds) in
    lookup_found k l s'.pckt.real_index now real t held er fresh
