-- ===== src/Kern/Connections/DportOnly.antt =====
-- VIPs that hash the destination port alone.
use katran.Base.{
  ℕ, ◌≡◌, ◌≢◌, refl, arith, Bool, true, false, some, none, Option, inl, inr, Bool-cases, ap, ◌∙◌,
}
use katran.Consts.{Config, f_hash_dport_only, f_src_routing}
use katran.Structs.{FlowKey, RealPosLru, VipMeta, zero_address}
use katran.Run.{State, done, Lru}
use katran.Run.Bounds.{Leaves, Leaves-bind}
use katran.Kernel.{Kernel}
use katran.Kern.Connections.{
  has, LruMap, per_cpu, fallback, get_lru, is_under_flood, use_real, use_key, ring_lookup,
  source_key, key_of, choose_dst, get_packet_dst, remember, with_real_index,
}
use katran.Kern.Connections.Affinity.{get_lru-put_lru}

-- An update of one key leaves another key's entry, or evicts it.
abbrev pub OnlyEvicts : Kernel → Type 0
OnlyEvicts k =
    (l : Lru) (f g : FlowKey) (v : RealPosLru)
    → g ≢ f
    → l g ≡ none
    → k.lru_update_elem l f v g ≡ none

remember-unknown :
    (k : Kernel) (l : LruMap) (key now : ℕ) (f : FlowKey) (s : State)
    → OnlyEvicts k
    → f ≢ s.pckt.flow
    → get_lru l s.maps f ≡ none
    → Leaves (λ _ t. get_lru l t.maps f ≡ none) (remember k l key now s)
unfolding remember
remember-unknown k l key now f s ev ne un =
    get_lru-put_lru l _ s.maps f ∙ ev (get_lru l s.maps) s.pckt.flow f _ ne un

use_key-unknown :
    (k : Kernel) (vip : VipMeta) (l : LruMap) (flood : Bool) (now : ℕ) (found : Option ℕ)
    (f : FlowKey) (s : State)
    → OnlyEvicts k
    → f ≢ s.pckt.flow
    → get_lru l s.maps f ≡ none
    → Leaves (λ _ t. get_lru l t.maps f ≡ none) (use_key k vip l flood now found s)
unfolding use_key use_real
use_key-unknown k vip l flood now none f s ev ne un = un
use_key-unknown k vip l flood now (some key) f s ev ne un =
    ground (arith, remember-unknown k l key now f (with_real_index key s))

-- The ring lookup leaves the table alone, and a flow without a source.
ring_lookup-Leaves :
    (k : Kernel) (vip : VipMeta) (v6 : Bool) (s : State)
    → has vip.flags f_hash_dport_only ≡ true
    → Leaves (λ _ t. (t.maps ≡ s.maps) × (t.pckt.flow.src ≡ zero_address)) (ring_lookup k vip v6 s)
unfolding ring_lookup
ring_lookup-Leaves k vip v6 s h = rw h (refl, refl)

is_under_flood-Leaves :
    (k : Kernel) (l : LruMap) (f : FlowKey) (s : State)
    → get_lru l s.maps f ≡ none
    → Leaves (λ _ t. (t.pckt ≡ s.pckt) × (get_lru l t.maps f ≡ none)) (is_under_flood k s)
unfolding is_under_flood
is_under_flood-Leaves k (per_cpu cpu) f s un = ground arith
is_under_flood-Leaves k fallback f s un = ground arith

source_key-off :
    (k : Kernel) (c : Config) (vip : VipMeta) (v6 flood : Bool) (s : State)
    → has vip.flags f_src_routing ≡ false
    → source_key k c vip v6 flood s ≡ done none s
unfolding source_key
source_key-off k c vip v6 flood s r = elim (Bool-cases c.lpm_src_lookup) [
  | inl on ↦ rw (on, r) refl
  | inr off ↦ rw off refl
]

choose_dst-unknown :
    (k : Kernel) (c : Config) (vip : VipMeta) (v6 : Bool) (l : LruMap) (flood : Bool) (now : ℕ)
    (f : FlowKey) (s : State)
    → OnlyEvicts k
    → has vip.flags f_hash_dport_only ≡ true
    → has vip.flags f_src_routing ≡ false
    → f.src ≢ zero_address
    → get_lru l s.maps f ≡ none
    → Leaves (λ _ t. get_lru l t.maps f ≡ none) (choose_dst k c vip v6 l flood now s)
unfolding choose_dst key_of
choose_dst-unknown k c vip v6 l flood now f s ev d r nz un =
    rw (source_key-off k c vip v6 flood s r) (
      Leaves-bind _ _ (ring_lookup k vip v6 s) (use_key k vip l flood now)
        (ring_lookup-Leaves k vip v6 s d)
        (λ found t p.
          use_key-unknown k vip l flood now found f t ev (λ e. nz (ap (λ g. g.src) e ∙ p.1))
            (rw p.0 un)))

-- For a VIP that hashes the destination port alone and does not route by source, a flow with a source
-- that is not in the table is not in it after `get_packet_dst`, whatever server is chosen, if an
-- update of the table leaves other flows alone or evicts them: the source in the flow is overwritten
-- before the flow is stored.
pub get_packet_dst_dport_only :
    (k : Kernel) (c : Config) (vip : VipMeta) (v6 : Bool) (l : LruMap) (s : State)
    → OnlyEvicts k
    → has vip.flags f_hash_dport_only ≡ true
    → has vip.flags f_src_routing ≡ false
    → s.pckt.flow.src ≢ zero_address
    → get_lru l s.maps s.pckt.flow ≡ none
    → Leaves (λ _ t. get_lru l t.maps s.pckt.flow ≡ none) (get_packet_dst k c vip v6 l s)
unfolding get_packet_dst
get_packet_dst_dport_only k c vip v6 l s ev d r nz un =
    Leaves-bind _ _ (is_under_flood k s) _ (is_under_flood-Leaves k l s.pckt.flow s un)
      (λ a t p. choose_dst-unknown k c vip v6 l a.0 a.1 s.pckt.flow t ev d r nz p.1)
