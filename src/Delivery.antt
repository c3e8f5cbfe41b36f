-- ===== src/Delivery.antt =====
-- Where the control plane (katran/lib/KatranLb.cpp) and the program (get_packet_dst in
-- katran/lib/bpf/balancer_kern.c) meet: the numbers in the maps and the addresses behind them.
use katran.Base.{
  ℕ, ◌+◌, ◌*◌, ◌%◌, ◌^◌, ◌≤◌, ◌<◌, ◌≡◌, refl, sym, ap, subst, ◌∙◌, ◌⊎◌, Bool, Bool-cases, true,
  false, u32, arith,
}
use katran.Base.{inl, inr, Option, none, some, List, find}
use katran.Consts.{Config, ring_size, f_hash_dport_only}
use katran.Structs.{PacketDescription, VipMeta, RealDefinition, V4LpmKey, V6LpmKey}
use katran.Run.{State, Maps}
use katran.Run.Bounds.{Leaves, Leaves-bind, Leaves-mono}
use katran.Kernel.{Kernel}
use katran.Kern.Connections.{
  has, LruMap, is_under_flood, lpm_lookup, source_key, key_of, ring_key, ring_lookup, use_key,
  use_real, choose_dst, get_packet_dst, remember, get_packet_hash, dport_only,
}
use katran.Lb.{Lb, Env, BpfCall, BeAddr, IpAddress, unspecified, RealMeta, parse_addr_to_be}
use katran.Lb.Keys.{ip_key}
use katran.Lb.Run.{Reached}
use katran.Lb.Claims.{claims}
use katran.Lb.Safety.{referenced_in_use}
use katran.Lb.Mirror.{reals_array}
use katran.Lb.Mirror.Safety.{Reached-reals_array}

-- An element of the array of reals, as the program reads it.
abbrev pub real_definition : BeAddr → RealDefinition
real_definition b = record { dst = b.daddr; flags = b.flags }

module _ (env : Env) (s : Lb) where
  -- The maps hold what the control plane wrote: the VIP's part of ch_rings and the tables of source
  -- routing name numbers in use, at which the array of reals is the one that its calls left.
  pub record Served (vip_num : ℕ) (ch_rings : ℕ → Option ℕ) (reals : ℕ → Option RealDefinition)
      (v4 : V4LpmKey → Option ℕ) (v6 : V6LpmKey → Option ℕ) : Type 0 where
    pub slot :
        (pos : ℕ)
        → pos < ring_size
        → (num : ℕ) × ((ch_rings (u32 (ring_size * vip_num + pos)) ≡ some num) × (1 ≤ claims s num))
    pub array :
        (num : ℕ)
        → 1 ≤ claims s num
        → reals num ≡ some (real_definition (reals_array env s.calls num))
    pub rule_v4 : (key : V4LpmKey) (num : ℕ) → v4 key ≡ some num → 1 ≤ claims s num
    pub rule_v6 : (key : V6LpmKey) (num : ℕ) → v6 key ≡ some num → 1 ≤ claims s num

  abbrev pub ServedBy : ℕ → Maps → Type 0
  ServedBy vip_num m = Served vip_num m.ch_rings m.reals m.lpm_src_v4 m.lpm_src_v6

  -- The address is that of a real in use, but for the one that a default constructor makes.
  abbrev pub IsReal : Option RealDefinition → Type 0
  IsReal o =
      (a : IpAddress) × ((m : RealMeta) × ((find ip_key s.reals a ≡ some m)
          × ((1 ≤ m.ref_count)
              × ((a ≡ unspecified) ⊎ (o ≡ some (real_definition (parse_addr_to_be a)))))))

  module _ (k : Kernel) (vip_info : VipMeta) where
    abbrev Ok : State → Type 0
    Ok t = ServedBy vip_info.vip_num t.maps

    abbrev KeyOk : Option ℕ → Type 0
    KeyOk none = Unit {0}
    KeyOk (some num) = 1 ≤ claims s num

    is_under_flood-Ok : (t : State) → Ok t → Leaves (λ _ u. Ok u) (is_under_flood k t)
    unfolding is_under_flood
    is_under_flood-Ok t x = ground arith

    found_v4 :
        (t : State) (o : Option ℕ) (key : V4LpmKey) → Ok t → t.maps.lpm_src_v4 key ≡ o → KeyOk o
    found_v4 t none key x e = tt
    found_v4 t (some num) key x e = x.rule_v4 key num e

    found_v6 :
        (t : State) (o : Option ℕ) (key : V6LpmKey) → Ok t → t.maps.lpm_src_v6 key ≡ o → KeyOk o
    found_v6 t none key x e = tt
    found_v6 t (some num) key x e = x.rule_v6 key num e

    lpm_lookup-Ok :
        (v6 : Bool) (t : State) → Ok t → Leaves (λ o u. KeyOk o × Ok u) (lpm_lookup k v6 t)
    unfolding lpm_lookup
    lpm_lookup-Ok true t x = (found_v6 t _ _ x refl, x)
    lpm_lookup-Ok false t x = (found_v4 t _ _ x refl, x)

    source_key-Ok :
        (c : Config) (v6 flood : Bool) (t : State)
        → Ok t
        → Leaves (λ o u. KeyOk o × Ok u) (source_key k c vip_info v6 flood t)
    unfolding source_key
    source_key-Ok c v6 flood t x = ground (arith, lpm_lookup-Ok v6 t x)

    ring_key-slot :
        (p : PacketDescription) (v6 : Bool)
        → (pos : ℕ) × ((pos < ring_size)
            × (ring_key k p vip_info v6 ≡ u32 (ring_size * vip_info.vip_num + pos)))
    unfolding ring_key
    ring_key-slot p v6 = (get_packet_hash k p v6 % ring_size, (omega arith, refl))

    -- A number that is found, and is in use.
    abbrev Found : Option ℕ → Type 0
    Found o = (num : ℕ) × ((o ≡ some num) × (1 ≤ claims s num))

    slot-Found :
        (p : PacketDescription) (v6 : Bool) (m : Maps)
        → ServedBy vip_info.vip_num m
        → Found (m.ch_rings (ring_key k p vip_info v6))
    slot-Found p v6 m x =
        let (pos, (l, e)) = ring_key-slot p v6 in
        let (num, (f, u)) = x.slot pos l in (num, (ap m.ch_rings e ∙ f, u))

    ring_lookup-Found :
        (v6 : Bool) (t : State)
        → Ok t
        → Leaves (λ o u. Found o × Ok u) (ring_lookup k vip_info v6 t)
    unfolding ring_lookup
    ring_lookup-Found v6 t x = elim (Bool-cases (has vip_info.flags f_hash_dport_only)) [
      | inl e ↦ rw e (slot-Found (dport_only k t).pckt v6 t.maps x, x)
      | inr e ↦ rw e (slot-Found t.pckt v6 t.maps x, x)
    ]

    key_of-Found :
        (v6 : Bool) (o : Option ℕ) (t : State)
        → KeyOk o
        → Ok t
        → Leaves (λ o u. Found o × Ok u) (key_of k vip_info v6 o t)
    unfolding key_of
    key_of-Found v6 none t h x = ring_lookup-Found v6 t x
    key_of-Found v6 (some num) t h x = ((num, (refl, h)), x)

    -- What the control plane keeps of a number in use.
    number-IsReal :
        (n num : ℕ)
        → env.config.testing ≡ false
        → ((calls : List BpfCall) (call : BpfCall) → env.succeeds calls call ≡ true)
        → Reached env n s
        → n < 2 ^ 32
        → 1 ≤ claims s num
        → IsReal (some (real_definition (reals_array env s.calls num)))
    number-IsReal n num live succeeds r l h =
        let (a, (m, (e, (f, (d, (held, g)))))) = referenced_in_use env n s num r l h in
        (
          a,
          (
            m,
            (
              f,
              (
                omega arith,
                elim (Reached-reals_array env live succeeds n s num a r e) [
                  | inl u ↦ inl u
                  | inr p ↦ inr (ap (λ b. some (real_definition b)) p)
                ],
              ),
            ),
          ),
        )

    use_real-gives :
        (l : LruMap) (flood : Bool) (now num : ℕ) (d : RealDefinition) (t : State)
        → t.maps.reals num ≡ some d
        → Leaves (λ r _. r ≡ some d) (use_real k vip_info l flood now num t)
    unfolding use_real remember
    use_real-gives l flood now num d t e = ground (arith, e)

    module _ (n : ℕ) (live : env.config.testing ≡ false)
        (succeeds : (calls : List BpfCall) (call : BpfCall) → env.succeeds calls call ≡ true)
        (r : Reached env n s) (l : n < 2 ^ 32) where
      use_key-IsReal :
          (lru : LruMap) (flood : Bool) (now : ℕ) (o : Option ℕ) (t : State)
          → Found o
          → Ok t
          → Leaves (λ d _. IsReal d) (use_key k vip_info lru flood now o t)
      unfolding use_key
      use_key-IsReal lru flood now none t (num, (e, h)) x =
          let absurd : none ≡ some num = e in grind (arith, absurd)
      use_key-IsReal lru flood now (some key) t (num, (e, h)) x =
          let p : num ≡ key = grind (arith, e) in
          let in_use = subst (λ j. 1 ≤ claims s j) p h in
          let d = real_definition (reals_array env s.calls key) in
          Leaves-mono _ _ (use_real k vip_info lru flood now key t)
            (use_real-gives lru flood now key d t (x.array key in_use))
            (λ o u q. subst IsReal (sym q) (number-IsReal n key live succeeds r l in_use))

      choose_dst-IsReal :
          (c : Config) (v6 : Bool) (lru : LruMap) (flood : Bool) (now : ℕ) (t : State)
          → Ok t
          → Leaves (λ d _. IsReal d) (choose_dst k c vip_info v6 lru flood now t)
      unfolding choose_dst
      choose_dst-IsReal c v6 lru flood now t x =
          Leaves-bind _ _ (source_key k c vip_info v6 flood t) _ (source_key-Ok c v6 flood t x)
            (λ o u p.
              Leaves-bind _ _ (key_of k vip_info v6 o u) _ (key_of-Found v6 o u p.0 p.1)
                (λ found w q. use_key-IsReal lru flood now found w q.0 q.1))

  -- When the calls of the kernel succeed, outside of tests, in a state that orderly calls reach,
  -- adding fewer than 2 ^ 32 references in all, and the maps are those that the control plane
  -- left, with a number that a VIP or a rule refers to in every slot of the packet's VIP and
  -- every entry of source routing, get_packet_dst goes on with the address of a real that the
  -- control plane keeps, with a reference count of at least one; the address that a default
  -- constructor makes is left out.
  pub get_packet_dst-IsReal :
      (k : Kernel) (c : Config) (vip_info : VipMeta) (v6 : Bool) (lru : LruMap) (t : State) (n : ℕ)
      → env.config.testing ≡ false
      → ((calls : List BpfCall) (call : BpfCall) → env.succeeds calls call ≡ true)
      → Reached env n s
      → n < 2 ^ 32
      → ServedBy vip_info.vip_num t.maps
      → Leaves (λ d _. IsReal d) (get_packet_dst k c vip_info v6 lru t)
  unfolding get_packet_dst
  get_packet_dst-IsReal k c vip_info v6 lru t n live succeeds r l x =
      Leaves-bind _ _ (is_under_flood k t) _ (is_under_flood-Ok k vip_info t x)
        (λ a u p. choose_dst-IsReal k vip_info n live succeeds r l c v6 lru a.0 a.1 u p)
