-- ===== src/Tests/Vips.antt =====
-- One VIP of the control plane on small inputs (katran/lib/Vip.cpp), and the witnesses of its
-- theorems.
use katran.Base.{ℕ, ◌≤◌, ◌≡◌, refl, true, if◌then◌else◌, some, List, [], ◌∷◌, arith}
use katran.Base.{number_key, find}
use katran.Maglev.{free_slot, gen_maglev_permutation}
use katran.Maglev.Generate.{Proper}
use katran.Vip.{
  Vip, VipRealMeta, RealPos, UpdateReal, add, get_endpoints, batch_reals_update, del_real,
}
use katran.Vip.Delta.{del_real_last}
use katran.Vip.Order.{sorted}
use katran.Vip.Reals.{update_meta, update_metas, changes, Unique}
use katran.Vip.Endpoints.{entries, with_weight, get_endpoints_lem}
use katran.Vip.Serving.{batch_reals_update-serving}
use katran.Tests.Rings.{first, second, toy_murmur, five-IsPrime}

abbrev empty_vip : Vip
empty_vip = record {
  vip_num = 1;
  vip_flags = 0;
  ch_ring_size = 5;
  reals = [];
  ch_ring = λ _. free_slot;
}

abbrev two_updates : List UpdateReal
two_updates =
    record { action = add; updated_real = second }
    ∷ record { action = add; updated_real = first }
    ∷ []

two_updates-change : changes two_updates (find number_key empty_vip.reals) ≡ true
unfolding changes find
two_updates-change = refl

abbrev second_meta : VipRealMeta
second_meta = record { weight = 2; hash = 21 }

two_updates-second :
    update_metas two_updates 8 (find number_key empty_vip.reals 8) ≡ some second_meta
unfolding update_metas update_meta find
two_updates-second = refl

-- The two reals are the only ones that the updates leave.
two_updates-Proper :
    (num : ℕ) (w : VipRealMeta)
    → update_metas two_updates num (find number_key empty_vip.reals num) ≡ some w
    → 1 ≤ w.weight
    → Proper toy_murmur 5 (record { num = num; weight = w.weight; hash = w.hash })
unfolding update_metas update_meta find gen_maglev_permutation
two_updates-Proper num w e h = record {
  num_lt = grind (arith, e);
  heavy = h;
  no_wrap = omega arith;
}

batch_reals_update-serving_example :
    (v' : Vip) × ((delta : List RealPos) × ((w : VipRealMeta) × ((batch_reals_update toy_murmur
              two_updates empty_vip
            ≡ some (v', delta))
          × ((update_metas two_updates (v'.ch_ring 3) (find number_key [] (v'.ch_ring 3)) ≡ some w)
              × ((find number_key v'.reals (v'.ch_ring 3) ≡ some w) × (1 ≤ w.weight))))))
unfolding Unique
batch_reals_update-serving_example =
    batch_reals_update-serving toy_murmur two_updates empty_vip tt two_updates-change 8 3
      second_meta five-IsPrime (omega arith) two_updates-second (omega arith) two_updates-Proper
      (omega arith)

get_endpoints_lem_example :
    let r = get_endpoints two_updates [] in
    let meta = update_metas two_updates 8 (find number_key [] 8) in
    (Unique r.0)
    × ((find number_key r.0 8 ≡ meta)
        × ((sorted r.1 ≡ true)
            × (entries 8 r.1
                ≡ (if changes two_updates (find number_key []) then with_weight meta else []))))
unfolding Unique
get_endpoints_lem_example = get_endpoints_lem two_updates [] 8 tt

abbrev one_meta : VipRealMeta
one_meta = record { weight = 1; hash = 10 }

abbrev vip_of_one : Vip
vip_of_one = record {
  vip_num = 1;
  vip_flags = 0;
  ch_ring_size = 5;
  reals = (7, one_meta) ∷ [];
  ch_ring = λ _. 7;
}

del_real_last_example :
    del_real toy_murmur 7 vip_of_one ≡ some (record vip_of_one { reals = [] }, [])
del_real_last_example = del_real_last toy_murmur 7 one_meta vip_of_one refl
