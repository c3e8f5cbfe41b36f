-- ===== src/Lb/Rings.antt =====
-- The map ch_rings of the forwarding plane and the rings of the VIPs (katran/lib/KatranLb.cpp).
use katran.Base.{
  ℕ, ◌⊎◌, ==→eq, ◌+◌, ◌*◌, ◌^◌, ◌≤◌, ◌<◌, ◌≡◌, refl, sym, ap, subst, ◌∙◌, Bool, true, false,
  Bool-cases, if◌then◌else◌, if-elim, ◌==◌, ltb, ltb→lt, u32, arith,
}
use katran.Base.{inl, inr, some, List, [], ◌∷◌, find, write, find-write_same}
use katran.Maglev.{Ring, put, free_slot}
use katran.Vip.{Vip, RealPos, UpdateReal, ModifyAction, add, del, batch_reals_update}
use katran.Vip.Delta.{apply_delta, batch_reals_update-delta}
use katran.Vip.Delta.Positions.{positions_below, batch-positions}
use katran.Vip.Delta.Changed.{batch_reals_update-changed}
use katran.Lb.{Lb, Env, BpfCall, update_ch_rings, IpAddress, VipKey, NewReal, Text}
use katran.Lb.Keys.{vip_key, &&-both}
use katran.Lb.Updates.{batch-kept}
use katran.Lb.Install.{update_rings-Same}
use katran.Lb.Reals.{
  bpf, validate_address, increase_ref_count_for_real, decrease_ref_count_for_real, take_num,
  update_reals_map,
}
use katran.Lb.Vips.{
  Batch, add_by, delete_by, modify_one, modify_each, is_invalid, address_or, update_rings, install,
  modify_reals, modify_reals_for_vip,
}
use katran.Lb.Modify.{modify_reals-result, begin}

abbrev fst_state : Lb × Bool → Lb
fst_state r = r.0

installed :
    (env : Env) (vip : VipKey) (w : Vip) (ps : List RealPos) (s : Lb)
    → env.config.testing ≡ false
    → install env vip w ps s
      ≡ update_rings env w.vip_num ps (record s { vips = write vip_key s.vips vip w })
unfolding install
installed env vip w ps s live = grind (arith, live)

module _ (env : Env) where
  -- The contents of ch_rings after the calls, which is an array of zeros at first.
  unfoldable pub ring_map : List BpfCall → Ring
  ring_map [] = λ _. 0
  ring_map (update_ch_rings key real ∷ calls) =
      let rest = ring_map calls in
      if env.succeeds calls (update_ch_rings key real) then put rest key real else rest
  ring_map (call ∷ calls) = ring_map calls

  abbrev pub rings : Lb → Ring
  rings s = ring_map s.calls

  -- `vip_num * chRingSize + pos`
  abbrev pub ring_position : ℕ → ℕ → ℕ
  ring_position vip_num pos = u32 (u32 (vip_num * env.config.ch_ring_size) + pos)

  validate-rings : (a : Text) (b : Bool) (s : Lb) → rings (validate_address env a b s).0 ≡ rings s
  unfolding validate_address
  validate-rings a b s = ground arith

  decrease-rings : (a : IpAddress) (s : Lb) → rings (decrease_ref_count_for_real a s) ≡ rings s
  unfolding decrease_ref_count_for_real
  decrease-rings a s = ground arith

  increase-rings :
      (a : IpAddress) (s : Lb) → rings (increase_ref_count_for_real env a s).0 ≡ rings s
  unfolding increase_ref_count_for_real take_num update_reals_map bpf ring_map
  increase-rings a s = ground arith

  modify_one-rings :
      (action : ModifyAction) (a : IpAddress) (weight : ℕ) (b : Batch)
      → rings (modify_one env action a weight b).state ≡ rings b.state
  unfolding modify_one add_by delete_by
  modify_one-rings add a weight b = ground (arith, increase-rings a b.state)
  modify_one-rings del a weight b = ground (arith, decrease-rings a b.state)

  modify_each-rings :
      (action : ModifyAction) (reals : List NewReal) (b : Batch)
      → rings (modify_each env action reals b).state ≡ rings b.state
  unfolding modify_each
  modify_each-rings action [] b = refl
  modify_each-rings action (r ∷ rs) b =
      let t = validate_address env r.address false b.state in
      let c : Batch = record b { state = t.0 } in
      let a = address_or (env.parse r.address) in
      let d = modify_one env action a r.weight c in
      let e = validate-rings r.address false b.state in
      let g = if is_invalid t.1 then c else d in
      modify_each-rings action rs g
      ∙ if-elim (λ (x : Batch). rings x.state ≡ rings b.state) (is_invalid t.1) e
          (modify_one-rings action a r.weight c ∙ e)

  module _
      (succeeds : (calls : List BpfCall) (call : BpfCall) → env.succeeds calls call ≡ true) where
    bpf-rings :
        (key real : ℕ) (s : Lb)
        → rings (bpf env (update_ch_rings key real) s).0 ≡ put (rings s) key real
    unfolding bpf ring_map
    bpf-rings key real s = grind (arith, succeeds s.calls (update_ch_rings key real))

    positions_apart :
        (x size p pos : ℕ)
        → p < size
        → pos < size
        → x + size ≤ 2 ^ 32
        → (u32 (u32 x + p) == u32 (u32 x + pos)) ≡ (p == pos)
    positions_apart x size p pos h l b =
        let e : u32 (u32 x + p) ≡ x + p = omega arith in
        let f : u32 (u32 x + pos) ≡ x + pos = omega arith in
        ap (λ y. y == u32 (u32 x + pos)) e ∙ ap (λ y. x + p == y) f ∙ ground arith

    put-shifted :
        (kernel ring : Ring) (i j p pos real : ℕ)
        → (i == j) ≡ (p == pos)
        → (j == i) ≡ (i == j)
        → (pos == p) ≡ (p == pos)
        → kernel j ≡ ring pos
        → put kernel i real j ≡ put ring p real pos
    put-shifted kernel ring i j p pos real e f g h =
        ap (λ b. if b then real else kernel j) (f ∙ e ∙ sym g)
        ∙ ap (λ x. if pos == p then real else x) h

    ==-sym : (i j : ℕ) → (j == i) ≡ (i == j)
    ==-sym i j = ground arith

    -- The loop over the delta does to the VIP's part of the map what the delta does to its ring.
    update_rings-apply :
        (num : ℕ) (ps : List RealPos) (s : Lb) (ring : Ring) (pos : ℕ)
        → positions_below env.config.ch_ring_size ps ≡ true
        → pos < env.config.ch_ring_size
        → num * env.config.ch_ring_size + env.config.ch_ring_size ≤ 2 ^ 32
        → rings s (ring_position num pos) ≡ ring pos
        → rings (update_rings env num ps s) (ring_position num pos) ≡ apply_delta ring ps pos
    unfolding update_rings apply_delta positions_below
    update_rings-apply num [] s ring pos h l b e = e
    update_rings-apply num (p ∷ ps) s ring pos h l b e =
        let key = ring_position num p.pos in
        let (below, rest) =
          &&-both (ltb p.pos env.config.ch_ring_size) (positions_below env.config.ch_ring_size ps)
            h in
        update_rings-apply num ps (bpf env (update_ch_rings key p.real) s).0 (put ring p.pos p.real)
          pos rest l b
          (ap (λ m. m (ring_position num pos)) (bpf-rings key p.real s)
            ∙ put-shifted (rings s) ring key (ring_position num pos) p.pos pos p.real
                (positions_apart (num * env.config.ch_ring_size) env.config.ch_ring_size p.pos pos
                  (ltb→lt p.pos env.config.ch_ring_size below) l b)
                (==-sym key (ring_position num pos)) (==-sym p.pos pos) e)

    -- What modifyRealsForVip leaves: the VIP with the ring that some batch of updates makes, and in
    -- the VIP's part of the map what the delta of this batch makes of it.
    pub modify_reals_for_vip_written :
        (action : ModifyAction) (reals : List NewReal) (vip : VipKey) (v : Vip) (s : Lb)
        (r : Lb × Bool) (kernel : Ring) (pos : ℕ)
        → env.config.testing ≡ false
        → env.config.disable_forwarding ≡ false
        → find vip_key s.vips vip ≡ some v
        → v.ch_ring_size ≡ env.config.ch_ring_size
        → v.vip_num * env.config.ch_ring_size + env.config.ch_ring_size ≤ 2 ^ 32
        → pos < env.config.ch_ring_size
        → rings s (ring_position v.vip_num pos) ≡ kernel pos
        → modify_reals_for_vip env action reals vip s ≡ some r
        → (us : List UpdateReal) × ((w : Vip) × ((ps : List RealPos) × ((batch_reals_update
                    env.murmur us v
                  ≡ some (w, ps))
                × ((find vip_key r.0.vips vip ≡ some w)
                    × ((w.vip_num ≡ v.vip_num)
                        × (rings r.0 (ring_position v.vip_num pos) ≡ apply_delta kernel ps pos))))))
    unfolding modify_reals_for_vip
    modify_reals_for_vip_written action reals vip v s r kernel pos live fwd f sz b l e h =
        let result : modify_reals env action reals vip (some v) s ≡ some r =
          grind (arith, fwd, f, h) in
        let (w, (ps, (g, p))) = modify_reals-result env action reals vip v s r result in
        let c = modify_each env action reals (begin v s) in
        let t = record c.state { vips = write vip_key c.state.vips vip w } in
        let kept = batch-kept env.murmur c.ureals v w ps g in
        let u = update_rings env w.vip_num ps t in
        let same : rings t ≡ rings s = modify_each-rings action reals (begin v s) in
        let below =
          subst (λ n. positions_below n ps ≡ true) sz
            (batch-positions env.murmur c.ureals v w ps g) in
        let final : (r.0 ≡ u) = ap fst_state p ∙ installed env vip w ps c.state live in
        let stored =
          ap (λ x. find vip_key x.vips vip) final
          ∙ ap (λ m. find vip_key m vip) (update_rings-Same env w.vip_num ps t).rest.vips
          ∙ find-write_same vip_key c.state.vips vip w in
        let written =
          ap (λ x. rings x (ring_position v.vip_num pos)) final
          ∙ ap (λ n. rings u (ring_position n pos)) (sym kept.1)
          ∙ update_rings-apply w.vip_num ps t kernel pos below l
              (subst (λ n. n * env.config.ch_ring_size + env.config.ch_ring_size ≤ 2 ^ 32)
                (sym kept.1) b)
              (ap (λ m. m (ring_position w.vip_num pos)) same
                ∙ ap (λ n. rings s (ring_position n pos)) kept.1
                ∙ e) in
        (c.ureals, (w, (ps, (g, (stored, (kept.1, written))))))

    -- The map holds the VIP's ring at a position, if the VIP has a real there.
    abbrev pub Holds : Lb → Vip → ℕ → Type 0
    Holds s v pos =
        (v.ch_ring pos ≡ free_slot) ⊎ (rings s (ring_position v.vip_num pos) ≡ v.ch_ring pos)

    -- When the calls of the kernel succeed and the VIP has the configured ring size and its part of
    -- ch_rings below 2 ^ 32, a modifyRealsForVip that returns, on a forwarding instance outside of
    -- tests, keeps the VIP's number, and if the map
    -- ch_rings held what the VIP's ring held at a position, or the VIP's ring was free there, as the
    -- whole ring of a new VIP is, then the same is true of the map and the VIP's ring afterwards.
    pub modify_reals_for_vip-Holds :
        (action : ModifyAction) (reals : List NewReal) (vip : VipKey) (v : Vip) (s : Lb)
        (r : Lb × Bool) (pos : ℕ)
        → env.config.testing ≡ false
        → env.config.disable_forwarding ≡ false
        → find vip_key s.vips vip ≡ some v
        → v.ch_ring_size ≡ env.config.ch_ring_size
        → v.vip_num * env.config.ch_ring_size + env.config.ch_ring_size ≤ 2 ^ 32
        → pos < env.config.ch_ring_size
        → Holds s v pos
        → modify_reals_for_vip env action reals vip s ≡ some r
        → (w : Vip) × ((find vip_key r.0.vips vip ≡ some w)
            × ((w.vip_num ≡ v.vip_num) × Holds r.0 w pos))
    modify_reals_for_vip-Holds action reals vip v s r pos live fwd f sz b l old h =
        let kernel : Ring = λ p. rings s (ring_position v.vip_num p) in
        let (us, (w, (ps, (g, (stored, (num, written)))))) =
          modify_reals_for_vip_written action reals vip v s r kernel pos live fwd f sz b l refl h in
        let there = ap (λ n. rings r.0 (ring_position n pos)) num ∙ written in
        (
          w,
          (
            stored,
            (
              num,
              elim (Bool-cases (w.ch_ring pos == v.ch_ring pos)) [
                | inr d ↦ inr (
                    there
                    ∙ batch_reals_update-changed env.murmur us v w ps kernel pos g
                        (omega (arith, l, sz)) d)
                | inl e ↦ elim old [
                  | inl free ↦ inl (==→eq (w.ch_ring pos) (v.ch_ring pos) e ∙ free)
                  | inr same ↦
                      inr (there ∙ batch_reals_update-delta env.murmur us v w ps kernel pos g same)
                ]
              ],
            ),
          ),
        )
