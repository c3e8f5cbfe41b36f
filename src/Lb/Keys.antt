-- ===== src/Lb/Keys.antt =====
-- The equalities of the keys of the control plane's maps (katran/lib/KatranLbStructs.h and folly).
use katran.Base.{◌≡◌, refl, ap, Bool, true, false, ◌==◌, ==→eq, ==-refl, ◌&&◌, [], ◌∷◌, Key, arith}
use katran.Structs.{Address}
use katran.Lb.{
  Text, IpAddress, unspecified, ipv4, ipv6, Network, VipKey, same_text, same_words, same_address,
  same_network, same_vip,
}

pub &&-both : (a b : Bool) → (a && b) ≡ true → (a ≡ true) × (b ≡ true)
&&-both true b h = (refl, h)
&&-both false b h = grind (arith, h)

text-eq : (a b : Text) → same_text a b ≡ true → a ≡ b
text-eq [] [] h = refl
text-eq [] (b ∷ bs) h = grind (arith, h)
text-eq (a ∷ ts) [] h = grind (arith, h)
text-eq (a ∷ ts) (b ∷ bs) h =
    let (e, f) = &&-both (a == b) (same_text ts bs) h in grind (arith, ==→eq a b e, text-eq ts bs f)

pub text_refl : (a : Text) → same_text a a ≡ true
text_refl [] = refl
text_refl (a ∷ ts) = grind (arith, ==-refl a, text_refl ts)

words-eq : (a b : Address) → same_words a b ≡ true → a ≡ b
words-eq a b h =
    let (e, r) = &&-both (a.w0 == b.w0) (a.w1 == b.w1 && (a.w2 == b.w2 && a.w3 == b.w3)) h in
    let (f, s) = &&-both (a.w1 == b.w1) (a.w2 == b.w2 && a.w3 == b.w3) r in
    let (g, k) = &&-both (a.w2 == b.w2) (a.w3 == b.w3) s in
    λ i. record {
      w0 = ==→eq a.w0 b.w0 e i;
      w1 = ==→eq a.w1 b.w1 f i;
      w2 = ==→eq a.w2 b.w2 g i;
      w3 = ==→eq a.w3 b.w3 k i;
    }

pub words_refl : (a : Address) → same_words a a ≡ true
words_refl a = grind (arith, ==-refl a.w0, ==-refl a.w1, ==-refl a.w2, ==-refl a.w3)

pub address-eq : (a b : IpAddress) → same_address a b ≡ true → a ≡ b
address-eq unspecified unspecified h = refl
address-eq (ipv4 a) (ipv4 b) h = ap ipv4 (==→eq a b h)
address-eq (ipv6 a) (ipv6 b) h = ap ipv6 (words-eq a b h)
address-eq unspecified (ipv4 b) h = grind (arith, h)
address-eq unspecified (ipv6 b) h = grind (arith, h)
address-eq (ipv4 a) unspecified h = grind (arith, h)
address-eq (ipv4 a) (ipv6 b) h = grind (arith, h)
address-eq (ipv6 a) unspecified h = grind (arith, h)
address-eq (ipv6 a) (ipv4 b) h = grind (arith, h)

pub address_refl : (a : IpAddress) → same_address a a ≡ true
address_refl unspecified = refl
address_refl (ipv4 a) = ==-refl a
address_refl (ipv6 a) = words_refl a

pub network-eq : (a b : Network) → same_network a b ≡ true → a ≡ b
network-eq a b h =
    let (e, f) = &&-both (same_address a.base b.base) (a.prefix == b.prefix) h in
    λ i. record { base = address-eq a.base b.base e i; prefix = ==→eq a.prefix b.prefix f i }

pub vip-eq : (a b : VipKey) → same_vip a b ≡ true → a ≡ b
vip-eq a b h =
    let (e, r) =
      &&-both (same_text a.address b.address) (a.port == b.port && a.proto == b.proto) h in
    let (f, g) = &&-both (a.port == b.port) (a.proto == b.proto) r in
    λ i. record {
      address = text-eq a.address b.address e i;
      port = ==→eq a.port b.port f i;
      proto = ==→eq a.proto b.proto g i;
    }

pub network_refl : (a : Network) → same_network a a ≡ true
network_refl a = grind (arith, address_refl a.base, ==-refl a.prefix)

pub vip_refl : (a : VipKey) → same_vip a a ≡ true
vip_refl a = grind (arith, text_refl a.address, ==-refl a.port, ==-refl a.proto)

abbrev pub ip_key : Key IpAddress
ip_key = record { same = same_address; same→eq = address-eq; same_refl = address_refl }

abbrev pub network_key : Key Network
network_key = record { same = same_network; same→eq = network-eq; same_refl = network_refl }

abbrev pub vip_key : Key VipKey
vip_key = record { same = same_vip; same→eq = vip-eq; same_refl = vip_refl }
