-- ===== src/Vip/Order.antt =====
-- std::sort with compareEndpoints (katran/lib/Vip.cpp) sorts.
use katran.Base.{ℕ, ◌≤◌, ◌≡◌, refl, Bool, true, Bool-cases, ◌&&◌, leb, ltb, arith}
use katran.Base.{inl, inr, List, [], ◌∷◌}
use katran.Maglev.{Endpoint}
use katran.Vip.{insert_endpoint, sort_endpoints}

abbrev pub first_hash_from : ℕ → List Endpoint → Bool
first_hash_from h [] = true
first_hash_from h (e ∷ es) = leb h e.hash

unfoldable pub sorted : List Endpoint → Bool
sorted [] = true
sorted (e ∷ es) = first_hash_from e.hash es && sorted es

first_hash_from-insert :
    (h : ℕ) (e : Endpoint) (es : List Endpoint)
    → h ≤ e.hash
    → first_hash_from h es ≡ true
    → first_hash_from h (insert_endpoint e es) ≡ true
unfolding insert_endpoint
first_hash_from-insert h e [] l f = ground arith
first_hash_from-insert h e (d ∷ ds) l f = ground arith

sorted-insert :
    (e : Endpoint) (es : List Endpoint) → sorted es ≡ true → sorted (insert_endpoint e es) ≡ true
unfolding sorted insert_endpoint
sorted-insert e [] h = refl
sorted-insert e (d ∷ ds) h = elim (Bool-cases (ltb d.hash e.hash)) [
  | inl l ↦ grind (
    arith,
    l,
    h,
    first_hash_from-insert d.hash e ds (ground arith) (ground arith),
    sorted-insert e ds (ground arith),
  )
  | inr l ↦ ground (arith, l, h)
]

pub sorted-sort : (es : List Endpoint) → sorted (sort_endpoints es) ≡ true
unfolding sort_endpoints sorted
sorted-sort [] = refl
sorted-sort (e ∷ es) = sorted-insert e (sort_endpoints es) (sorted-sort es)
