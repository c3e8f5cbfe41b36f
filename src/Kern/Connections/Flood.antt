-- ===== src/Kern/Connections/Flood.antt =====
-- The limit on new connections.
use katran.Base.{ℕ, zero, suc, ◌+◌, Bool, if◌then◌else◌}
use katran.Consts.{new_conn_rate_cntr}
use katran.Run.{State, Run, done, exit, fault}
use katran.Kernel.{Kernel}
use katran.Kern.Stats.{own, with_maps, at_key}
use katran.Kern.Connections.{is_under_flood, count_connection}

-- The answers "not under flood" among `n` calls in a row.
accepted_after : Run (Bool × ℕ) → (State → ℕ) → ℕ
accepted_after (done (flood, now) s) rest = (if flood then 0 else 1) + rest s
accepted_after (exit a s) rest = 0
accepted_after fault rest = 0

pub accepted : Kernel → ℕ → State → ℕ
unfolding accepted_after
accepted k zero s = 0
accepted k (suc n) s = accepted_after (is_under_flood k s) (accepted k n)

-- The state after a call inside the quantum.
abbrev counted : Kernel → State → State
counted k s =
    with_maps
      (λ m. record m {
        stats =
            at_key (own new_conn_rate_cntr) (count_connection k (k.ktime_get_ns s.tick)) m.stats;
      })
      (record s { tick = s.tick + 1 })
