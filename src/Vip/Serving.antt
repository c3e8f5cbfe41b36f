-- ===== src/Vip/Serving.antt =====
-- The ring that Vip::batchRealsUpdate (katran/lib/Vip.cpp) leaves serves reals that have a weight.
use katran.Base.{
  ℕ, zero, suc, ◌^◌, ◌≤◌, ◌<◌, ◌≡◌, refl, sym, ap, subst, ◌∙◌, ◌⊎◌, true, false, Bool-cases, ◌==◌,
  ==→eq, ==-refl, if◌then◌else◌, arith,
}
use katran.Base.{inl, inr, Option-cases, none, some, Option, List, [], ◌∷◌, find, number_key}
use katran.Maglev.{Ring, Endpoint, generate_maglev_hash}
use katran.Maglev.Inverse.{IsPrime}
use katran.Maglev.Generate.{is_num_of, numbered, Proper, AllProper}
use katran.Vip.{Vip, VipRealMeta, RealPos, UpdateReal, rebuild, batch_reals_update, get_endpoints}
use katran.Vip.Reals.{update_metas, changes, Unique}
use katran.Vip.Endpoints.{entries, with_weight, get_endpoints_lem}
use katran.Vip.Delta.{batch_reals_update-numbered}

abbrev In : VipRealMeta → List VipRealMeta → Type 0
In w [] = ⊥
In w (m ∷ ms) = (m ≡ w) ⊎ (In w ms)

abbrev entry_of : Endpoint → VipRealMeta
entry_of e = record { weight = e.weight; hash = e.hash }

-- What is among the elements of `with_weight`.
In-with_weight :
    (w : VipRealMeta) (o : Option VipRealMeta)
    → In w (with_weight o)
    → (o ≡ some w) × (1 ≤ w.weight)
In-with_weight w none i = elim i [ ]
In-with_weight w (some m) i = elim (Bool-cases (m.weight == 0)) [
  | inl e ↦
      let p : with_weight (some m) ≡ [] = ap (λ b. if b then [] else m ∷ []) e in
      let absurd : ⊥ = subst (In w) p i in elim absurd [ ]
  | inr e ↦
      let p : with_weight (some m) ≡ m ∷ [] = ap (λ b. if b then [] else m ∷ []) e in
      let one : In w (m ∷ []) = subst (In w) p i in
      elim one [
        | inl p ↦
            (ap (λ x. some x) p, subst (λ (x : VipRealMeta). 1 ≤ x.weight) p (ground (arith, e)))
        | inr n ↦ elim n [ ]
      ]
]

entry-here : (e : Endpoint) (es : List Endpoint) → In (entry_of e) (entries e.num (e ∷ es))
unfolding entries
entry-here e es = rw (==-refl e.num) (inl refl)

entry-there :
    (k : ℕ) (w : VipRealMeta) (e : Endpoint) (es : List Endpoint)
    → In w (entries k es)
    → In w (entries k (e ∷ es))
unfolding entries
entry-there k w e es i = elim (Bool-cases (e.num == k)) [ inl h ↦ rw h (inr i) | inr h ↦ rw h i ]

-- A number on the ring is that of an endpoint.
num_of-In :
    (es : List Endpoint) (v : ℕ) → is_num_of es v ≡ true → (w : VipRealMeta) × (In w (entries v es))
num_of-In [] v h = let absurd : false ≡ true = h in grind (arith, absurd)
num_of-In (e ∷ es) v h = elim (Bool-cases (v == e.num)) [
  | inl s ↦ (
    entry_of e,
    subst (λ k. In (entry_of e) (entries k (e ∷ es))) (sym (==→eq v e.num s)) (entry-here e es),
  )
  | inr s ↦ let (w, i) = num_of-In es v (grind (arith, s, h)) in (w, entry-there v w e es i)
]

numbered-at :
    (es : List Endpoint) (ring : Ring) (n k : ℕ)
    → numbered es ring n ≡ true
    → k < n
    → is_num_of es (ring k) ≡ true
unfolding numbered
numbered-at es ring zero k h l = let absurd : ⊥ = omega arith in elim absurd [ ]
numbered-at es ring (suc n) k h l = elim (Bool-cases (k == n)) [
  | inl s ↦ ap (λ j. is_num_of es (ring j)) (==→eq k n s) ∙ grind (arith, h)
  | inr s ↦ numbered-at es ring n k (grind (arith, h)) (ground (arith, s, l))
]

not_empty :
    (es : List Endpoint) (k : ℕ) (m : VipRealMeta)
    → entries k es ≡ m ∷ []
    → (x : Endpoint) × ((rest : List Endpoint) × (es ≡ x ∷ rest))
unfolding entries
not_empty [] k m e = let absurd : [] ≡ m ∷ [] = e in grind (arith, absurd)
not_empty (x ∷ rest) k m e = (x, (rest, refl))

module _ (murmur : ℕ → ℕ → ℕ → ℕ) where
  all-Proper :
      (ring_size : ℕ) (es : List Endpoint)
      → ((k : ℕ) (w : VipRealMeta)
          → In w (entries k es)
          → Proper murmur ring_size (record { num = k; weight = w.weight; hash = w.hash }))
      → AllProper murmur ring_size es
  all-Proper ring_size [] h = tt
  all-Proper ring_size (e ∷ es) h = (
    h e.num (entry_of e) (entry-here e es),
    all-Proper ring_size es (λ k w i. h k w (entry-there k w e es i)),
  )

  rebuild-reals :
      (es : List Endpoint) (v v' : Vip) (delta : List RealPos)
      → rebuild murmur es v ≡ some (v', delta)
      → v'.reals ≡ v.reals
  unfolding rebuild
  rebuild-reals [] v v' delta e = grind (arith, e)
  rebuild-reals (x ∷ es) v v' delta e =
      elim (Option-cases (generate_maglev_hash murmur v.ch_ring_size (x ∷ es))) [
        | inl n ↦ grind (arith, e, n)
        | inr (new, g) ↦ grind (arith, e, g)
      ]

  batch-reals :
      (us : List UpdateReal) (v v' : Vip) (delta : List RealPos)
      → batch_reals_update murmur us v ≡ some (v', delta)
      → v'.reals ≡ (get_endpoints us v.reals).0
  unfolding batch_reals_update
  batch-reals us v v' delta e =
      let p = get_endpoints us v.reals in rebuild-reals p.1 (record v { reals = p.0 }) v' delta e

  module _ (us : List UpdateReal) (v : Vip) (one_each : Unique v.reals)
      (changed : changes us (find number_key v.reals) ≡ true) where
    -- What the updates make of the entry of a number.
    abbrev updated_meta : ℕ → Option VipRealMeta
    updated_meta k = update_metas us k (find number_key v.reals k)

    endpoints-entries :
        (k : ℕ) → entries k (get_endpoints us v.reals).1 ≡ with_weight (updated_meta k)
    endpoints-entries k =
        let (one, (kept, (order, all))) = get_endpoints_lem us v.reals k one_each in
        all ∙ ap (λ b. if b then with_weight (updated_meta k) else []) changed

    entry-updated :
        (k : ℕ) (w : VipRealMeta)
        → In w (entries k (get_endpoints us v.reals).1)
        → (updated_meta k ≡ some w) × (1 ≤ w.weight)
    entry-updated k w i = In-with_weight w (updated_meta k) (subst (In w) (endpoints-entries k) i)

    -- If an update changes a real of a VIP that keeps one entry for a number, some real has a weight
    -- after the updates, and each that has one has a number that fits an int and a walk within 32
    -- bits, then for a prime ring size batchRealsUpdate returns, and a slot of the VIP's ring then
    -- holds the number of a real whose entry, as the updates leave it and as the VIP keeps it, has a
    -- weight.
    pub batch_reals_update-serving :
        (k pos : ℕ) (m : VipRealMeta)
        → IsPrime v.ch_ring_size
        → v.ch_ring_size < 2 ^ 32
        → updated_meta k ≡ some m
        → 1 ≤ m.weight
        → ((num : ℕ) (w : VipRealMeta)
            → updated_meta num ≡ some w
            → 1 ≤ w.weight
            → Proper murmur v.ch_ring_size (record { num = num; weight = w.weight; hash = w.hash }))
        → pos < v.ch_ring_size
        → (v' : Vip) × ((delta : List RealPos) × ((w : VipRealMeta) × ((batch_reals_update murmur us
                    v
                  ≡ some (v', delta))
                × ((updated_meta (v'.ch_ring pos) ≡ some w)
                    × ((find number_key v'.reals (v'.ch_ring pos) ≡ some w) × (1 ≤ w.weight))))))
    batch_reals_update-serving k pos m prime h e heavy proper l =
        let es = (get_endpoints us v.reals).1 in
        let single : with_weight (some m) ≡ m ∷ [] = ground (arith, heavy) in
        let (x, (rest, p)) = not_empty es k m (endpoints-entries k ∙ ap with_weight e ∙ single) in
        let all =
          all-Proper v.ch_ring_size es
            (λ num w i. let (a, b) = entry-updated num w i in proper num w a b) in
        let (v', (delta, (r, f))) =
          batch_reals_update-numbered murmur us v x rest p prime h
            (subst (AllProper murmur v.ch_ring_size) p all) in
        let (w, i) =
          num_of-In (x ∷ rest) (v'.ch_ring pos)
            (numbered-at (x ∷ rest) v'.ch_ring v.ch_ring_size pos f l) in
        let (a, b) =
          entry-updated (v'.ch_ring pos) w
            (subst (λ fs. In w (entries (v'.ch_ring pos) fs)) (sym p) i) in
        let (one, (kept, more)) = get_endpoints_lem us v.reals (v'.ch_ring pos) one_each in
        (
          v',
          (
            delta,
            (
              w,
              (
                r,
                (
                  a,
                  (
                    ap (λ rs. find number_key rs (v'.ch_ring pos)) (batch-reals us v v' delta r)
                        ∙ kept
                        ∙ a,
                    b,
                  ),
                ),
              ),
            ),
          ),
        )
