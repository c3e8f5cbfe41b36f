-- ===== src/Lb/Quic.antt =====
-- katran/lib/KatranLb.cpp: the mapping of QUIC server ids to reals.
use katran.Base.{
  ℕ, false, if◌then◌else◌, ◌==◌, ltb, Option, none, some, List, [], ◌∷◌, number_key, find, erase,
  write,
}
use katran.Lb.{Lb, Env, update_quic_mapping, IpAddress, QuicReal}
use katran.Lb.Keys.{ip_key}
use katran.Lb.Reals.{
  bpf, validate_address, decrease_ref_count_for_real, increase_ref_count_for_real,
}
use katran.Lb.Vips.{is_invalid, address_or}
use katran.Vip.{ModifyAction, add, del}

abbrev pub k_max_quic_id : ℕ
k_max_quic_id = 65535

-- The state of the loop and `to_update`.
abbrev pub Updates : Type 0
Updates = Lb × List (ℕ × ℕ)

module _ (env : Env) where
  -- The two branches of the loop, by what is found.
  unfoldable pub delete_quic : IpAddress → Option ℕ → Updates → Updates
  delete_quic raddr none (s, to_update) = (s, to_update)
  delete_quic raddr (some id) (s, to_update) =
      let t = decrease_ref_count_for_real raddr s in
      (record t { quic_mapping = erase ip_key t.quic_mapping raddr }, to_update)

  unfoldable pub add_quic : IpAddress → ℕ → Option ℕ → Updates → Updates
  add_quic raddr id (some old) (s, to_update) = (s, to_update)
  add_quic raddr id none (s, to_update) =
      let (t, rnum) = increase_ref_count_for_real env raddr s in
      if rnum == env.config.max_reals then (t, to_update) else (
        record t { quic_mapping = write ip_key t.quic_mapping raddr id },
        write number_key to_update id rnum,
      )

  unfoldable pub modify_quic : ModifyAction → IpAddress → ℕ → Updates → Updates
  modify_quic add raddr id u = add_quic raddr id (find ip_key u.0.quic_mapping raddr) u
  modify_quic del raddr id u = delete_quic raddr (find ip_key u.0.quic_mapping raddr) u

  unfoldable pub modify_quics : ModifyAction → List QuicReal → Updates → Updates
  modify_quics action [] u = u
  modify_quics action (real ∷ reals) (s, to_update) =
      let (t, kind) = validate_address env real.address false s in
      let u = modify_quic action (address_or (env.parse real.address)) real.id (t, to_update) in
      modify_quics action reals (
        if is_invalid kind
        then (t, to_update)
        else if ltb k_max_quic_id real.id
        then (t, to_update)
        else u)

  unfoldable pub update_quics : List (ℕ × ℕ) → Lb → Lb
  update_quics [] s = s
  update_quics ((id, rnum) ∷ rest) s = update_quics rest (bpf env (update_quic_mapping id rnum) s).0

  unfoldable pub modify_quic_reals_mapping : ModifyAction → List QuicReal → Lb → Lb
  modify_quic_reals_mapping action reals s =
      if env.config.disable_forwarding
      then s
      else (let (t, to_update) = modify_quics action reals (s, []) in
          if env.config.testing then t else update_quics to_update t)
