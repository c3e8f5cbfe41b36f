-- ===== src/Run/NoPass.antt =====
-- Runs that do not end with the action `pass`.
use katran.Base.{◌≢◌, arith, Bool, true, false, if◌then◌else◌}
use katran.Run.{Action, pass, tx, State, Run, done, exit, fault, and_then}

-- The run does not end with `pass`.
abbrev pub NoPassExit : {A : Type 0} → Run A → Type 0
NoPassExit (done a s) = Unit {0}
NoPassExit (exit a s) = a ≢ pass
NoPassExit fault = Unit {0}

-- The run does not give `pass`, and does not end with it.
abbrev pub NoPass : Run Action → Type 0
NoPass (done a s) = a ≢ pass
NoPass (exit a s) = a ≢ pass
NoPass fault = Unit {0}

pub NoPass-bind :
    {A : Type 0} (r : Run A) (f : A → State → Run Action)
    → NoPassExit r
    → ((a : A) (s : State) → NoPass (f a s))
    → NoPass (and_then r f)
NoPass-bind (done a s) f h rest = rest a s
NoPass-bind (exit a s) f h rest = h
NoPass-bind fault f h rest = tt

pub NoPassExit-bind :
    {A B : Type 0} (r : Run A) (f : A → State → Run B)
    → NoPassExit r
    → ((a : A) (s : State) → NoPassExit (f a s))
    → NoPassExit (and_then r f)
NoPassExit-bind (done a s) f h rest = rest a s
NoPassExit-bind (exit a s) f h rest = h
NoPassExit-bind fault f h rest = tt

pub tx-NoPass : (s : State) → NoPass (done tx s)
tx-NoPass s = ground arith

-- A test of the bounds does not end the run.
pub guarded-NoPassExit :
    {A : Type 0} (b : Bool) (a : A) (s : State) → NoPassExit (if b then done a s else fault)
guarded-NoPassExit true a s = tt
guarded-NoPassExit false a s = tt
