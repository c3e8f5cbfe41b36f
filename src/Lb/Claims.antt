-- ===== src/Lb/Claims.antt =====
-- Which numbers the VIPs, the source routing rules and the QUIC mapping of a control plane refer to
-- (katran/lib/KatranLb.h), and the invariant of the operations that leave the references alone.
use katran.Base.{ℕ, ◌+◌, ◌≤◌, ◌≡◌, ap, ◌∙◌, ◌==◌, one_if, count, total, arith}
use katran.Base.{List, find}
use katran.Vip.{Vip, get_reals}
use katran.Lb.{Lb, Env, IpAddress, VipKey, Network}
use katran.Lb.Keys.{ip_key}
use katran.Lb.Table.{used}
use katran.Lb.Table.Moves.{Table-weaken}
use katran.Lb.Counts.{TableOf, Rest, Same, Same-Table}

-- How often a VIP refers to a number.
abbrev pub vip_claims : ℕ → Vip → ℕ
vip_claims k v = count (get_reals v.reals) k

abbrev pub rule_claims : ℕ → ℕ → ℕ
rule_claims k num = one_if (num == k)

abbrev pub claims_of : List (VipKey × Vip) → List (Network × ℕ) → ℕ → ℕ
claims_of vips rules k = total (vip_claims k) vips + total (rule_claims k) rules

abbrev pub claims : Lb → ℕ → ℕ
claims s = claims_of s.vips s.lpm_src_mapping

abbrev pub quic_claims_of : List (IpAddress × ℕ) → IpAddress → ℕ
quic_claims_of quic a = used (find ip_key quic a)

abbrev pub quic_claims : Lb → IpAddress → ℕ
quic_claims s = quic_claims_of s.quic_mapping

-- The table of the reals, with all that refers to them.
abbrev pub Inv : Env → ℕ → Lb → Type 0
Inv env n s = TableOf env.config.max_reals n (claims s) (quic_claims s) s

-- Where the table was kept for claims that are no fewer.
pub Inv-from :
    (env : Env) (n n' : ℕ) (c : ℕ → ℕ) (q : IpAddress → ℕ) (s : Lb)
    → n ≤ n'
    → ((k : ℕ) → claims s k ≤ c k)
    → ((a : IpAddress) → quic_claims s a ≤ q a)
    → TableOf env.config.max_reals n c q s
    → Inv env n' s
Inv-from env n n' c q s l h g t =
    Table-weaken env.config.max_reals n c q s.reals s.num_to_reals s.real_nums n' (claims s)
      (quic_claims s) l h g t

-- Where it is wanted for fewer claims.
pub Inv-to :
    (env : Env) (n : ℕ) (c : ℕ → ℕ) (s : Lb)
    → ((k : ℕ) → c k ≤ claims s k)
    → Inv env n s
    → TableOf env.config.max_reals n c (quic_claims s) s
Inv-to env n c s h x =
    Table-weaken env.config.max_reals n (claims s) (quic_claims s) s.reals s.num_to_reals
      s.real_nums n c (quic_claims s) (omega arith) h (λ a. omega arith) x

pub claims-Rest : (s t : Lb) → Rest s t → (k : ℕ) → claims t k ≡ claims s k
claims-Rest s t e k =
    ap (λ v. claims_of v t.lpm_src_mapping k) e.vips ∙ ap (λ r. claims_of s.vips r k) e.lpm

pub quic_claims-Rest : (s t : Lb) → Rest s t → (a : IpAddress) → quic_claims t a ≡ quic_claims s a
quic_claims-Rest s t e a = ap (λ q. quic_claims_of q a) e.quic

pub Inv-Same : (env : Env) (n : ℕ) (s t : Lb) → Same s t → Inv env n s → Inv env n t
Inv-Same env n s t e x =
    Inv-from env n n (claims s) (quic_claims s) t (omega arith)
      (λ k. omega (arith, claims-Rest s t e.rest k))
      (λ a. omega (arith, quic_claims-Rest s t e.rest a))
      (Same-Table env.config.max_reals n (claims s) (quic_claims s) s t e x)

pub Inv-more : (env : Env) (n n' : ℕ) (s : Lb) → n ≤ n' → Inv env n s → Inv env n' s
Inv-more env n n' s l x =
    Inv-from env n n' (claims s) (quic_claims s) s l (λ k. omega arith) (λ a. omega arith) x
