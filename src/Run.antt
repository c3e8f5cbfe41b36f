-- ===== src/Run.antt =====
-- What a piece of the program does to the state of one packet: it goes on with a value, it ends
-- the program's run with an action (an early `return`), or it touches memory outside the packet.
pub mod NoPass
pub mod Bounds
use katran.Base.{ℕ, ◌+◌, ◌-◌, ◌*◌, ◌/◌, ◌%◌, Bool, Option, none, some, if◌then◌else◌, leb, ltb}
use katran.Structs.{
  FlowKey, PacketDescription, CtlValue, VipDefinition, VipMeta, RealPosLru, RealDefinition, LbStats,
  V4LpmKey, V6LpmKey, Address,
}
use katran.Xdp.{Xdp, u16_at, u32_at, put8, put16, put32}

-- `enum xdp_action`, and the end of the run by a successful `bpf_tail_call`.
pub data Action : Type 0 where
  aborted drop pass tx redirect : Action
  tail_call : ℕ → Action

abbrev pub Lru : Type 0
Lru = FlowKey → Option RealPosLru

-- The contents of the maps, as one CPU sees them: `none` is a lookup that gives NULL.
pub record Maps : Type 0 where
  pub vip_map : VipDefinition → Option VipMeta
  pub lru_maps_mapping : ℕ → Option Lru
  pub fallback_lru_cache : Lru
  pub ch_rings : ℕ → Option ℕ
  pub reals : ℕ → Option RealDefinition
  pub reals_stats : ℕ → Option LbStats
  pub stats : ℕ → Option LbStats
  pub quic_mapping : ℕ → Option ℕ
  pub lpm_src_v4 : V4LpmKey → Option ℕ
  pub lpm_src_v6 : V6LpmKey → Option ℕ
  pub ctl_array : ℕ → Option CtlValue
  pub pckt_srcs : ℕ → Option RealDefinition
  pub decap_dst : Address → Option ℕ

-- `tick` counts the calls of `bpf_ktime_get_ns`.
pub record State : Type 0 where
  pub xdp : Xdp
  pub pckt : PacketDescription
  pub maps : Maps
  pub tick : ℕ

pub data Run (A : Type 0) : Type 0 where
  done : A → State → Run A
  exit : Action → State → Run A
  fault : Run A

abbrev pub Prog : Type 0 → Type 0
Prog A = State → Run A

module _ {A : Type 0} where
  abbrev pub pure : A → Prog A
  pure a s = done a s

  abbrev pub return : Action → Prog A
  return a s = exit a s

  abbrev pub gets : (State → A) → Prog A
  gets f s = done (f s) s

  -- A lookup whose NULL ends the run.
  abbrev pub or_return : Option A → Action → Prog A
  or_return none a = return a
  or_return (some v) _ = pure v

module _ {A B : Type 0} where
  abbrev pub and_then : Run A → (A → Prog B) → Run B
  and_then (done a s) f = f a s
  and_then (exit a s) f = exit a s
  and_then fault f = fault

  infixl 5 ◌>>=◌ ◌>>◌
  abbrev pub ◌>>=◌ : Prog A → (A → Prog B) → Prog B
  m >>= f = λ s. and_then (m s) f

  abbrev pub ◌>>◌ : Prog A → Prog B → Prog B
  m >> n = m >>= λ _. n

abbrev pub modify : (State → State) → Prog (Unit {0})
modify f s = done tt (f s)

abbrev pub return_if : Bool → Action → Prog (Unit {0})
return_if b a s = if b then exit a s else done tt s

-- `if (action >= 0) return action;` on a verdict: `none` is FURTHER_PROCESSING.
abbrev pub return_action : Option Action → Prog (Unit {0})
return_action none = pure tt
return_action (some a) = return a

-- `data + end > data_end`
abbrev pub beyond : ℕ → State → Bool
beyond end s = ltb s.xdp.len end

-- Reads and writes of `n` bytes at `data + i`.
unfoldable pub load8 : ℕ → Prog ℕ
load8 i s = if leb (i + 1) s.xdp.len then done (s.xdp.byte i) s else fault

unfoldable pub load16 : ℕ → Prog ℕ
load16 i s = if leb (i + 2) s.xdp.len then done (u16_at s.xdp i) s else fault

unfoldable pub load32 : ℕ → Prog ℕ
load32 i s = if leb (i + 4) s.xdp.len then done (u32_at s.xdp i) s else fault

unfoldable pub store8 : ℕ → ℕ → Prog (Unit {0})
store8 i v s = if leb (i + 1) s.xdp.len then done tt (record s { xdp = put8 s.xdp i v }) else fault

unfoldable pub store16 : ℕ → ℕ → Prog (Unit {0})
store16 i v s =
    if leb (i + 2) s.xdp.len then done tt (record s { xdp = put16 s.xdp i v }) else fault

unfoldable pub store32 : ℕ → ℕ → Prog (Unit {0})
store32 i v s =
    if leb (i + 4) s.xdp.len then done tt (record s { xdp = put32 s.xdp i v }) else fault

-- A read of the `n` bytes at `data + i`, and a write of `n` bytes there.
unfoldable pub read_bytes : ℕ → ℕ → Prog (ℕ → ℕ)
read_bytes i n s = if leb (i + n) s.xdp.len then done (λ j. s.xdp.byte (i + j)) s else fault

abbrev pub put_bytes : Xdp → ℕ → ℕ → (ℕ → ℕ) → Xdp
put_bytes x i n f = record x {
  byte = λ j. if leb i j then (if ltb j (i + n) then f (j - i) else x.byte j) else x.byte j;
}

unfoldable pub write_bytes : ℕ → ℕ → (ℕ → ℕ) → Prog (Unit {0})
write_bytes i n f s =
    if leb (i + n) s.xdp.len then done tt (record s { xdp = put_bytes s.xdp i n f }) else fault

unfoldable pub memcpy : ℕ → ℕ → ℕ → Prog (Unit {0})
unfolding read_bytes write_bytes
memcpy dst src n = do f ← read_bytes src n; write_bytes dst n f

-- A write to a bit field in the upper or the lower half of a byte.
unfoldable pub store_high : ℕ → ℕ → Prog (Unit {0})
unfolding load8 store8
store_high i v = do b ← load8 i; store8 i (v % 16 * 16 + b % 16)

unfoldable pub store_low : ℕ → ℕ → Prog (Unit {0})
unfolding load8 store8
store_low i v = do b ← load8 i; store8 i (b / 16 * 16 + v % 16)

-- `memcpy` of a 16-byte address out of the packet.
unfoldable pub load_address : ℕ → Prog Address
unfolding load32
load_address i = do
  a ← load32 i
  b ← load32 (i + 4)
  c ← load32 (i + 8)
  d ← load32 (i + 12)
  pure (record { w0 = a; w1 = b; w2 = c; w3 = d })

unfoldable pub store_address : ℕ → Address → Prog (Unit {0})
unfolding store32
store_address i a = do
  store32 i a.w0
  store32 (i + 4) a.w1
  store32 (i + 8) a.w2
  store32 (i + 12) a.w3
