-- ===== src/Lb/Mirror.antt =====
-- The kernel's array of reals next to `numToReals_` (katran/lib/KatranLb.cpp): the operations on
-- one real.
pub mod Batches
pub mod Tables
pub mod Destinations
pub mod Safety
use katran.Base.{
  ℕ, suc, u32, ◌≡◌, refl, sym, ap, subst, ◌∙◌, ◌⊎◌, Bool, true, false, if◌then◌else◌, if-elim,
  if-cases, ◌==◌, ==→eq, ==-refl, arith,
}
use katran.Base.{inl, inr, Option, none, some, List, [], ◌∷◌, number_key, find, erase, write}
use katran.Base.{find-write-some, find-erase-some}
use katran.Structs.{zero_address}
use katran.Lb.{
  Lb, Env, BpfCall, BeAddr, IpAddress, unspecified, RealMeta, Text, parse_addr_to_be,
  update_vip_map, delete_vip_map, update_ch_rings, update_reals_array, update_lpm_src,
  delete_lpm_src, update_quic_mapping, update_decap_dst, delete_decap_dst, update_hc_reals_map,
  delete_hc_reals_map, update_ctl_array, update_hc_pckt_macs,
}
use katran.Lb.Keys.{ip_key}
use katran.Lb.Reals.{
  bpf, validate_address, address_of, decrease_ref_count_for_real, increase_ref_count_for_real,
  take_num, update_reals_map, one_less, freed, recounted,
}

abbrev pub writes_real : BpfCall → Bool
writes_real (update_reals_array k v) = true
writes_real _ = false

module _ (env : Env) where
  -- The contents of the array after the calls, which is zeros at first.
  unfoldable pub reals_array : List BpfCall → ℕ → BeAddr
  reals_array [] = λ k. record { daddr = zero_address; flags = 0 }
  reals_array (update_reals_array num v ∷ calls) =
      let rest = reals_array calls in
      if env.succeeds calls (update_reals_array num v)
      then (λ k. if k == num then v else rest k)
      else rest
  reals_array (call ∷ calls) = reals_array calls

  -- What a lookup of a missing number leaves behind is set apart.
  abbrev pub Mirror : List (ℕ × IpAddress) → List BpfCall → Type 0
  Mirror nums calls =
      (k : ℕ) (a : IpAddress)
      → find number_key nums k ≡ some a
      → (a ≡ unspecified) ⊎ (reals_array calls k ≡ parse_addr_to_be a)

  abbrev pub Mirrored : Lb → Type 0
  Mirrored s = Mirror s.num_to_reals s.calls

  spared :
      (call : BpfCall) (calls : List BpfCall)
      → writes_real call ≡ false
      → reals_array (call ∷ calls) ≡ reals_array calls
  unfolding reals_array
  spared (update_vip_map a b) calls h = refl
  spared (delete_vip_map a) calls h = refl
  spared (update_ch_rings a b) calls h = refl
  spared (update_reals_array a b) calls h = grind (arith, h)
  spared (update_lpm_src a b c) calls h = refl
  spared (delete_lpm_src a b) calls h = refl
  spared (update_quic_mapping a b) calls h = refl
  spared (update_decap_dst a b) calls h = refl
  spared (delete_decap_dst a) calls h = refl
  spared (update_hc_reals_map a b) calls h = refl
  spared (delete_hc_reals_map a) calls h = refl
  spared (update_ctl_array a b) calls h = refl
  spared (update_hc_pckt_macs a b) calls h = refl

  pub bpf-Mirrored :
      (call : BpfCall) (s : Lb)
      → writes_real call ≡ false
      → Mirrored s
      → Mirrored (bpf env call s).0
  unfolding bpf
  bpf-Mirrored call s h x =
      let y : Mirror s.num_to_reals (call ∷ s.calls) = λ k a e.
        subst (λ (m : ℕ → BeAddr). (a ≡ unspecified) ⊎ (m k ≡ parse_addr_to_be a))
          (sym (spared call s.calls h)) (x k a e) in
      if-elim (λ (r : Lb × Bool). Mirrored r.0) (env.succeeds s.calls call) y y

  pub unless-Mirrored :
      (b : Bool) (call : BpfCall) (s : Lb)
      → writes_real call ≡ false
      → Mirrored s
      → Mirrored (if b then s else (bpf env call s).0)
  unless-Mirrored b call s h x = if-elim Mirrored b x (bpf-Mirrored call s h x)

  pub validate-Mirrored :
      (a : Text) (b : Bool) (s : Lb) → Mirrored s → Mirrored (validate_address env a b s).0
  unfolding validate_address
  validate-Mirrored a b s x =
      let t = (validate_address env a b s).0 in
      let p : t.num_to_reals ≡ s.num_to_reals = ground arith in
      let q : t.calls ≡ s.calls = ground arith in
      subst (λ n. Mirror n t.calls) (sym p) (subst (Mirror s.num_to_reals) (sym q) x)

  pub address_of-Mirrored : (k : ℕ) (s : Lb) → Mirrored s → Mirrored (address_of k s).0
  unfolding address_of
  address_of-Mirrored k s x =
      elim (find number_key s.num_to_reals k)
        as (λ o.
          let r : Lb × IpAddress = elim o [
            | some a ↦ (s, a)
            | none ↦ (
              record s { num_to_reals = write number_key s.num_to_reals k unspecified },
              unspecified,
            )
          ] in
          Mirrored r.0) [
            | some a ↦ x
            | none ↦ λ j b e. elim (find-write-some number_key s.num_to_reals k j unspecified b e) [
              | inl (p, q) ↦ inl (sym q)
              | inr (d, f) ↦ x j b f
            ]
          ]

  pub decrease-Mirrored :
      (a : IpAddress) (s : Lb) → Mirrored s → Mirrored (decrease_ref_count_for_real a s)
  unfolding decrease_ref_count_for_real
  decrease-Mirrored a s x =
      elim (find ip_key s.reals a)
        as (λ o. Mirrored (elim o [
          | none ↦ s
          | some m ↦
              if one_less m.ref_count == 0
              then freed a m.num s
              else recounted a m (one_less m.ref_count) s
        ])) [
          | none ↦ x
          | some m ↦
              if-elim Mirrored (one_less m.ref_count == 0)
                (λ j b e. x j b (find-erase-some number_key s.num_to_reals m.num j b e).1) x
        ]

  module _ (live : env.config.testing ≡ false)
      (succeeds : (calls : List BpfCall) (call : BpfCall) → env.succeeds calls call ≡ true) where
    array-write :
        (num j : ℕ) (v : BeAddr) (calls : List BpfCall)
        → reals_array (update_reals_array num v ∷ calls) j
          ≡ (if j == num then v else reals_array calls j)
    unfolding reals_array
    array-write num j v calls = grind (arith, succeeds calls (update_reals_array num v))

    Mirror-write :
        (num : ℕ) (a : IpAddress) (nums : List (ℕ × IpAddress)) (calls : List BpfCall)
        → Mirror nums calls
        → Mirror (write number_key nums num a) (update_reals_array num (parse_addr_to_be a) ∷ calls)
    Mirror-write num a nums calls x = λ j b e.
        let w = array-write num j (parse_addr_to_be a) calls in
        elim (find-write-some number_key nums num j a b e) [
          | inl (p, q) ↦ inr (
              w
              ∙ ap (λ i. if i == num then parse_addr_to_be a else reals_array calls j) (sym p)
              ∙ ap (λ c. if c then parse_addr_to_be a else reals_array calls j) (==-refl num)
              ∙ ap parse_addr_to_be q)
          | inr (d, f) ↦
              let other : (j == num) ≡ false = ground (arith, d) in
              subst (λ v. (b ≡ unspecified) ⊎ (v ≡ parse_addr_to_be b))
                (sym (w ∙ ap (λ c. if c then parse_addr_to_be a else reals_array calls j) other))
                (x j b f)
        ]

    take_num-Mirrored :
        (a : IpAddress) (free : List ℕ) (s : Lb) → Mirrored s → Mirrored (take_num env a free s).0
    unfolding take_num update_reals_map bpf
    take_num-Mirrored a [] s x = x
    take_num-Mirrored a (num ∷ rest) s x =
        let y = Mirror-write num a s.num_to_reals s.calls x in
        if-cases Mirrored env.config.testing
          (λ t. let absurd : true ≡ false = sym t ∙ live in grind (arith, absurd))
          (λ f.
            if-elim (λ (r : Lb × Bool). Mirrored r.0)
              (env.succeeds s.calls (update_reals_array num (parse_addr_to_be a))) y y)

    pub increase-Mirrored :
        (a : IpAddress) (s : Lb) → Mirrored s → Mirrored (increase_ref_count_for_real env a s).0
    unfolding increase_ref_count_for_real
    increase-Mirrored a s x =
        elim (find ip_key s.reals a)
          as (λ o.
            let r : Lb × ℕ = elim o [
              | some m ↦ (recounted a m (u32 (suc m.ref_count)) s, m.num)
              | none ↦ take_num env a s.real_nums s
            ] in
            Mirrored r.0) [ some m ↦ x | none ↦ take_num-Mirrored a s.real_nums s x ]
