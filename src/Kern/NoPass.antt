-- ===== src/Kern/NoPass.antt =====
-- From the test of the size on, a packet is sent or dropped.
use katran.Base.{
  if◌then◌else◌, inl, inr, Bool-cases, true, false, ℕ, arith, Bool, true, false, Bool-cases, inl,
  inr, if◌then◌else◌, Option, none, some,
}
use katran.Consts.{f_hash_no_src_port, f_ipv6, Config, f_ipv6}
use katran.Structs.{CtlValue, VipMeta, RealDefinition}
use katran.Run.{Prog, pure, modify, State, load8, load32}
use katran.Kernel.{Kernel}
use katran.Parsing.{parse_quic}
use katran.Kern.Connections.{
  has, LruMap, get_packet_dst, connection_table_lookup, is_under_flood, lpm_lookup, ring_lookup,
  use_real, source_key, key_of, use_key, choose_dst, found_real,
}
use katran.Kern.Process.{
  with_port0, route_quic, check_size, pick_lru, count_miss, known_real, new_real, route_flow, route,
  encap_for, send,
}
use katran.Run.NoPass.{NoPassExit-bind, NoPassExit, NoPass, NoPassExit-bind}
use katran.Icmp.NoPass.{send_icmp_too_big-NoPass}
use katran.Encap.NoPass.{pckt_encap_v4-NoPassExit, pckt_encap_v6-NoPassExit}

pub parse_quic-NoPassExit : (v6 : Bool) (s : State) → NoPassExit (parse_quic v6 s)
unfolding parse_quic load8 load32
parse_quic-NoPassExit v6 s = ground arith

module _ (c : Config) (k : Kernel) where
  pub check_size-NoPassExit : (v6 : Bool) (s : State) → NoPassExit (check_size c k v6 s)
  unfolding check_size
  check_size-NoPassExit v6 s = grind (arith, send_icmp_too_big-NoPass)

  pub route_quic-NoPassExit :
      (vip : VipMeta) (v6 : Bool) (s : State) → NoPassExit (route_quic vip v6 s)
  unfolding route_quic
  route_quic-NoPassExit vip v6 s = grind (arith, parse_quic-NoPassExit)

  pub known_real-NoPassExit :
      (vip : VipMeta) (l : LruMap) (s : State) → NoPassExit (known_real c k vip l s)
  unfolding known_real connection_table_lookup found_real
  known_real-NoPassExit vip l s = ground arith

  pub is_under_flood-NoPassExit : (s : State) → NoPassExit (is_under_flood k s)
  unfolding is_under_flood
  is_under_flood-NoPassExit s = ground arith

  pub source_key-NoPassExit :
      (vip : VipMeta) (v6 flood : Bool) (s : State) → NoPassExit (source_key k c vip v6 flood s)
  unfolding source_key lpm_lookup
  source_key-NoPassExit vip v6 flood s = ground arith

  pub key_of-NoPassExit :
      (vip : VipMeta) (v6 : Bool) (o : Option ℕ) (s : State) → NoPassExit (key_of k vip v6 o s)
  unfolding key_of ring_lookup
  key_of-NoPassExit vip v6 none s = ground arith
  key_of-NoPassExit vip v6 (some key) s = tt

  pub use_key-NoPassExit :
      (vip : VipMeta) (l : LruMap) (flood : Bool) (now : ℕ) (found : Option ℕ) (s : State)
      → NoPassExit (use_key k vip l flood now found s)
  unfolding use_key use_real
  use_key-NoPassExit vip l flood now none s = tt
  use_key-NoPassExit vip l flood now (some key) s = ground arith

  pub get_packet_dst-NoPassExit :
      (vip : VipMeta) (v6 : Bool) (l : LruMap) (s : State)
      → NoPassExit (get_packet_dst k c vip v6 l s)
  unfolding get_packet_dst choose_dst
  get_packet_dst-NoPassExit vip v6 l s = grind (
    arith, is_under_flood-NoPassExit, source_key-NoPassExit, key_of-NoPassExit, use_key-NoPassExit,
  )

  pub new_real-NoPassExit :
      (vip : VipMeta) (v6 : Bool) (l : LruMap) (s : State) → NoPassExit (new_real c k vip v6 l s)
  unfolding new_real count_miss
  new_real-NoPassExit vip v6 l s = grind (arith, get_packet_dst-NoPassExit)

  pub pick_lru-NoPassExit : (s : State) → NoPassExit (pick_lru c k s)
  unfolding pick_lru
  pick_lru-NoPassExit s = ground arith

  pub route_flow-NoPassExit :
      (vip : VipMeta) (v6 : Bool) (s : State) → NoPassExit (route_flow c k vip v6 s)
  unfolding route_flow
  route_flow-NoPassExit vip v6 s =
      NoPassExit-bind _ _ (pure_or_modify (has vip.flags f_hash_no_src_port) (with_port0 0) s)
        λ _ s1. NoPassExit-bind _ _ (pick_lru-NoPassExit s1) λ l s2.
          NoPassExit-bind _ _ (known_real-NoPassExit vip l s2) λ known s3. new_if_unknown known l s3
    where
      pure_or_modify :
          (b : Bool) (f : State → State) (s : State)
          → NoPassExit ((if b then modify f else pure tt) s)
      pure_or_modify true f s = tt
      pure_or_modify false f s = tt

      new_if_unknown :
          (known : Option RealDefinition) (l : LruMap) (s : State)
          → NoPassExit (
              (elim known as (λ _. Prog RealDefinition) [
                | some dst ↦ pure dst
                | none ↦ new_real c k vip v6 l
              ])
                s)
      new_if_unknown none l s = new_real-NoPassExit vip v6 l s
      new_if_unknown (some dst) l s = tt

  pub route-NoPassExit : (vip : VipMeta) (v6 : Bool) (s : State) → NoPassExit (route c k vip v6 s)
  unfolding route
  route-NoPassExit vip v6 s = grind (arith, route_quic-NoPassExit, route_flow-NoPassExit)

  pub encap_for-NoPassExit :
      (cval : CtlValue) (dst : RealDefinition) (v6 : Bool) (bytes : ℕ) (s : State)
      → NoPassExit (encap_for c k cval dst v6 bytes s)
  unfolding encap_for
  encap_for-NoPassExit cval dst v6 bytes s = elim (Bool-cases (has dst.flags f_ipv6)) [
    | inl e ↦ rw e (pckt_encap_v6-NoPassExit k cval dst bytes c v6 s)
    | inr e ↦ rw e (pckt_encap_v4-NoPassExit k cval dst bytes c s)
  ]

  pub send-NoPass :
      (vip : VipMeta) (dst : RealDefinition) (v6 : Bool) (bytes : ℕ) (s : State)
      → NoPass (send c k vip dst v6 bytes s)
  unfolding send
  send-NoPass vip dst v6 bytes s = grind (arith, encap_for-NoPassExit)
