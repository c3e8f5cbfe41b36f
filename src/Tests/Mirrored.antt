-- ===== src/Tests/Mirrored.antt =====
-- Witnesses for the array of reals and what get_packet_dst reads from it.
use katran.Base.{◌≡◌, refl, ◌⊎◌, false, none, some, arith}
use katran.Structs.{VipMeta}
use katran.Run.{State}
use katran.Run.Bounds.{Leaves}
use katran.Kern.Connections.{per_cpu, get_packet_dst}
use katran.Lb.{ipv4, unspecified, parse_addr_to_be}
use katran.Lb.Mirror.{reals_array}
use katran.Lb.Mirror.Safety.{Reached-reals_array}
use katran.Delivery.{Served, real_definition, IsReal, get_packet_dst-IsReal}
use katran.Tests.Fixtures.{kernel, config, flow_state}
use katran.Tests.Control.{
  toy_env, with_reals, with_reals-Reached, with_reals-claims, with_reals-number,
}

Reached-reals_array_example :
    (ipv4 50 ≡ unspecified) ⊎ (reals_array toy_env with_reals.calls 0 ≡ parse_addr_to_be (ipv4 50))
Reached-reals_array_example =
    Reached-reals_array toy_env refl (λ cs c. refl) 2 with_reals 0 (ipv4 50) with_reals-Reached
      with_reals-number

-- The maps as the control plane left them, with the first real in every slot.
abbrev mirrored : State
mirrored = record flow_state {
  maps = record flow_state.maps {
    ch_rings = λ i. some 0;
    reals = λ num. some (real_definition (reals_array toy_env with_reals.calls num));
    lpm_src_v4 = λ key. none;
    lpm_src_v6 = λ key. none;
  };
}

abbrev web_info : VipMeta
web_info = record { flags = 0; vip_num = 0 }

mirrored-Served :
    Served toy_env with_reals 0 mirrored.maps.ch_rings mirrored.maps.reals mirrored.maps.lpm_src_v4
      mirrored.maps.lpm_src_v6
mirrored-Served = record {
  slot = λ pos l. (0, (refl, with_reals-claims));
  array = λ num h. refl;
  rule_v4 = λ key num e. grind (arith, e);
  rule_v6 = λ key num e. grind (arith, e);
}

get_packet_dst-IsReal_example :
    Leaves
      (λ d _. IsReal toy_env with_reals d)
      (get_packet_dst kernel config web_info false (per_cpu 0) mirrored)
get_packet_dst-IsReal_example =
    get_packet_dst-IsReal toy_env with_reals kernel config web_info false (per_cpu 0) mirrored 2
      refl (λ cs c. refl) with_reals-Reached (omega arith) mirrored-Served
