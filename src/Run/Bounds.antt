-- ===== src/Run/Bounds.antt =====
-- Runs that stay inside the packet and keep its length, computed from the outcome.
use katran.Base.{ℕ, ◌≡◌, ◌≢◌, refl, arith}
use katran.Run.{State, Run, done, exit, fault, Prog, and_then}

-- No fault, and where the run goes on the packet is `n` bytes long.
abbrev pub KeepsLen : {A : Type 0} → ℕ → Run A → Type 0
KeepsLen n (done a s) = s.xdp.len ≡ n
KeepsLen n (exit a s) = Unit {0}
KeepsLen n fault = ⊥

pub KeepsLen-bind :
    {A B : Type 0} (n : ℕ) (r : Run A) (f : A → Prog B)
    → KeepsLen n r
    → ((a : A) (s : State) → s.xdp.len ≡ n → KeepsLen n (f a s))
    → KeepsLen n (and_then r f)
KeepsLen-bind n (done a s) f h k = k a s h
KeepsLen-bind n (exit a s) f h k = tt
KeepsLen-bind n fault f h k = h

abbrev pub NoFault : {A : Type 0} → Run A → Type 0
NoFault (done a s) = Unit {0}
NoFault (exit a s) = Unit {0}
NoFault fault = ⊥

pub KeepsLen-NoFault : {A : Type 0} (n : ℕ) (r : Run A) → KeepsLen n r → NoFault r
KeepsLen-NoFault n (done a s) h = tt
KeepsLen-NoFault n (exit a s) h = tt
KeepsLen-NoFault n fault h = h

pub NoFault-ne-fault : {A : Type 0} (r : Run A) → NoFault r → r ≢ fault
NoFault-ne-fault (done a s) h e = ground arith
NoFault-ne-fault (exit a s) h e = ground arith
NoFault-ne-fault fault h e = h

-- No fault, and `P` holds of the value and the state with which the run goes on.
abbrev pub Leaves : {A : Type 0} → (A → State → Type 0) → Run A → Type 0
Leaves P (done a s) = P a s
Leaves P (exit a s) = ⊥
Leaves P fault = ⊥

-- A run that goes on is a first part that goes on and the rest after it.
pub and_then-eq-done :
    {A B : Type 0} (r : Run A) (f : A → Prog B) {b : B} {t : State}
    → and_then r f ≡ done b t
    → (a : A) × (s : State) × (r ≡ done a s) × (f a s ≡ done b t)
and_then-eq-done (done a s) f h = (a, s, refl, h)
and_then-eq-done (exit a s) f h = cc
and_then-eq-done fault f h = cc

pub Leaves-at :
    {A : Type 0} (P : A → State → Type 0) (r : Run A) (a : A) (s : State)
    → Leaves P r
    → r ≡ done a s
    → P a s
Leaves-at P r a s h e = rw e at h

pub Leaves-bind :
    {A B : Type 0} (P : A → State → Type 0) (Q : B → State → Type 0) (r : Run A) (f : A → Prog B)
    → Leaves P r
    → ((a : A) (s : State) → P a s → Leaves Q (f a s))
    → Leaves Q (and_then r f)
Leaves-bind P Q (done a s) f h k = k a s h
Leaves-bind P Q (exit a s) f h k = h
Leaves-bind P Q fault f h k = h

pub Leaves-mono :
    {A : Type 0} (P Q : A → State → Type 0) (r : Run A)
    → Leaves P r
    → ((a : A) (s : State) → P a s → Q a s)
    → Leaves Q r
Leaves-mono P Q (done a s) h weaker = weaker a s h
Leaves-mono P Q (exit a s) h weaker = h
Leaves-mono P Q fault h weaker = h
