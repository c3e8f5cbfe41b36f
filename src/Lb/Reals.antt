-- ===== src/Lb/Reals.antt =====
-- katran/lib/KatranLb.cpp: the calls of the kernel, the validation of addresses, and the numbers of
-- the reals with their reference counts.
use katran.Base.{ℕ, suc, ◌+◌, ◌-◌, ◌^◌, Bool, true, false, if◌then◌else◌, ◌==◌, ◌&&◌, ◌||◌}
use katran.Base.{none, some, List, [], ◌∷◌, ◌++◌, u32, u64, number_key, find, erase, write}
use katran.Lb.{
  Lb, Env, BpfCall, update_reals_array, IpAddress, unspecified, RealMeta, Text, AddressType,
  invalid, host, network, parse_addr_to_be,
}
use katran.Lb.Keys.{ip_key}

-- lbStats_.bpfFailedCalls++
abbrev pub count_failed : Lb → Lb
count_failed s = record s {
  lb_stats = record s.lb_stats { bpf_failed_calls = u64 (suc s.lb_stats.bpf_failed_calls) };
}

-- lbStats_.addrValidationFailed++
abbrev pub invalid_address : Lb → Lb
invalid_address s = record s {
  lb_stats = record s.lb_stats {
    addr_validation_failed = u64 (suc s.lb_stats.addr_validation_failed);
  };
}

-- numToReals_[num] read by operator[], which makes an entry where there is none.
unfoldable pub address_of : ℕ → Lb → Lb × IpAddress
address_of num s = elim (find number_key s.num_to_reals num) [
  | some a ↦ (s, a)
  | none ↦
      (record s { num_to_reals = write number_key s.num_to_reals num unspecified }, unspecified)
]

-- No more VIPs use the real: its number goes to the end of the free ones.
abbrev pub freed : IpAddress → ℕ → Lb → Lb
freed real num s = record s {
  real_nums = s.real_nums ++ (num ∷ []);
  reals = erase ip_key s.reals real;
  num_to_reals = erase number_key s.num_to_reals num;
}

abbrev pub recounted : IpAddress → RealMeta → ℕ → Lb → Lb
recounted real m ref_count s = record s {
  reals = write ip_key s.reals real (record m { ref_count = ref_count });
}

-- A new real with a number of the free ones.
abbrev pub named : IpAddress → ℕ → List ℕ → Lb → Lb
named real rnum rest s = record s {
  real_nums = rest;
  num_to_reals = write number_key s.num_to_reals rnum real;
  reals = write ip_key s.reals real (record { num = rnum; ref_count = 1 });
}

-- `refCount--` on uint32_t.
abbrev pub one_less : ℕ → ℕ
one_less ref_count = u32 (ref_count + (2 ^ 32 - 1))

unfoldable pub decrease_ref_count_for_real : IpAddress → Lb → Lb
decrease_ref_count_for_real real s = elim (find ip_key s.reals real) [
  | none ↦ s
  | some m ↦
      if one_less m.ref_count == 0
      then freed real m.num s
      else recounted real m (one_less m.ref_count) s
]

module _ (env : Env) where
  -- A call of the kernel that counts a failure, as all of them do.
  unfoldable pub bpf : BpfCall → Lb → Lb × Bool
  bpf call s =
      let t = record s { calls = call ∷ s.calls } in
      if env.succeeds s.calls call then (t, true) else (count_failed t, false)

  unfoldable pub validate_address : Text → Bool → Lb → Lb × AddressType
  validate_address addr allow_net_addr s = elim (env.parse addr) [
    | some a ↦ (s, host)
    | none ↦ elim (allow_net_addr && (s.features.src_routing || env.config.testing)) [
      | true ↦ elim (env.try_create_network addr) [
        | some n ↦ (s, network)
        | none ↦ (invalid_address s, invalid)
      ]
      | false ↦ (invalid_address s, invalid)
    ]
  ]

  unfoldable pub update_reals_map : IpAddress → ℕ → Lb → Lb × Bool
  update_reals_map real num = bpf (update_reals_array num (parse_addr_to_be real))

  -- `realNums_[0]` and `pop_front`.
  unfoldable pub take_num : IpAddress → List ℕ → Lb → Lb × ℕ
  take_num real [] s = (s, env.config.max_reals)
  take_num real (rnum ∷ rest) s =
      let t = named real rnum rest s in
      (if env.config.testing then t else (update_reals_map real rnum t).0, rnum)

  unfoldable pub increase_ref_count_for_real : IpAddress → Lb → Lb × ℕ
  increase_ref_count_for_real real s = elim (find ip_key s.reals real) [
    | some m ↦ (recounted real m (u32 (suc m.ref_count)) s, m.num)
    | none ↦ take_num real s.real_nums s
  ]
