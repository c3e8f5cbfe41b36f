-- ===== src/Maglev/Turns.antt =====
-- The loops on `j` and on `i` of GenerateMaglevHash (katran/lib/CHHelpers.cpp): each turn takes one
-- more slot for its endpoint.
use katran.Base.{
  ℕ, zero, suc, ◌+◌, ◌-◌, ◌^◌, ◌≤◌, ◌<◌, ◌≡◌, refl, ap, subst, ◌∙◌, true, false, Bool-cases, lt→ltb,
  ◌==◌, arith,
}
use katran.Base.{inl, inr, some}
use katran.Maglev.{all_steps, Ring, taken, slot, seek, Walker, Build, place, turns, put}
use katran.Maglev.Inverse.{IsPrime}
use katran.Maglev.Count.{taken_count, taken_count-put}
use katran.Maglev.Seek.{Walks, CoveredTo, covered-suc, Finds, Finds-free, slot-lt}

-- What was taken stays taken.
abbrev pub Grows : Ring → Ring → Type 0
Grows ring ring' = (k : ℕ) → taken (ring k) ≡ true → taken (ring' k) ≡ true

place-runs : (r : ℕ) (w : Walker) (b : Build) → (place r w b).1.runs ≡ suc b.runs
unfolding place
place-runs r w b = refl

-- A turn that takes the last slot ends the loop; any other goes on.
turns-full :
    (j r : ℕ) (w v : Walker) (b : Build)
    → seek all_steps r b.result w ≡ some v
    → ((place r v b).1.runs == r) ≡ true
    → turns (suc j) r w b ≡ some (place r v b)
unfolding turns
turns-full j r w v b e f = grind (arith, e, f)

turns-room :
    (j r : ℕ) (w v : Walker) (b : Build)
    → seek all_steps r b.result w ≡ some v
    → ((place r v b).1.runs == r) ≡ false
    → turns (suc j) r w b ≡ turns j r (place r v b).0 (place r v b).1
unfolding turns
turns-room j r w v b e f = grind (arith, e, f)

module _ (P : ℕ → Type 0) (c : ℕ) where
  -- An endpoint at its place in the ring that is built; `P` says which numbers are endpoints'.
  pub record Ready (ring : Ring) (w : Walker) : Type 0 where
    pub walks : Walks c w
    pub heavy : 1 ≤ w.weight
    pub num_lt : w.num < 2 ^ 31
    pub owner : P w.num
    pub covered : CoveredTo (suc c) ring w w.next

  pub record Good (b : Build) : Type 0 where
    pub counts : taken_count b.result (suc c) ≡ b.runs
    pub owned : (k : ℕ) → taken (b.result k) ≡ true → P (b.result k)

  pub Ready-Grows :
      (ring ring' : Ring) (w : Walker) → Grows ring ring' → Ready ring w → Ready ring' w
  Ready-Grows ring ring' w g x = record {
    walks = x.walks;
    heavy = x.heavy;
    num_lt = x.num_lt;
    owner = x.owner;
    covered = λ m h. g (slot (suc c) w m) (x.covered m h);
  }

  pub record Step (b : Build) (w : Walker) (d : Build) (v : Walker) : Type 0 where
    pub ready : Ready d.result v
    pub good : Good d
    pub grows : Grows b.result d.result
    pub more : b.runs ≤ d.runs
    pub at_most : d.runs ≤ suc c

  module _ (prime : IsPrime (suc c)) where
    put-Grows : (ring : Ring) (i v : ℕ) → v < 2 ^ 31 → Grows ring (put ring i v)
    put-Grows ring i v h k t = ground (arith, lt→ltb v (2 ^ 31) h)

    put-same : (ring : Ring) (i v : ℕ) → put ring i v i ≡ v
    put-same ring i v = ground arith

    put-owned :
        (ring : Ring) (i v k : ℕ)
        → ((k : ℕ) → taken (ring k) ≡ true → P (ring k))
        → P v
        → taken (put ring i v k) ≡ true
        → P (put ring i v k)
    put-owned ring i v k h p t = elim (Bool-cases (k == i)) [
      | inl e ↦ (let here : v ≡ put ring i v k = grind (arith, e) in subst P here p)
      | inr e ↦
          (let there : ring k ≡ put ring i v k = grind (arith, e) in
            subst P there (h k (ap taken there ∙ t)))
    ]

    place-Ready :
        (b : Build) (w : Walker) (n : ℕ)
        → Ready b.result w
        → Finds (suc c) all_steps b.result w n
        → let p = place (suc c) (record w { next = n }) b in Ready p.1.result p.0
    unfolding place slot
    place-Ready b w n x f = record {
      walks = record {
        offset_lt = x.walks.offset_lt;
        skip_pos = x.walks.skip_pos;
        skip_lt = x.walks.skip_lt;
        no_wrap = x.walks.no_wrap;
      };
      heavy = x.heavy;
      num_lt = x.num_lt;
      owner = x.owner;
      covered =
          covered-suc (suc c) (put b.result (slot (suc c) w n) w.num) w n
            (λ m h.
              put-Grows b.result (slot (suc c) w n) w.num x.num_lt (slot (suc c) w m)
                (f.covered m h))
            (ap taken (put-same b.result (slot (suc c) w n) w.num)
              ∙ lt→ltb w.num (2 ^ 31) x.num_lt);
    }

    place-Good :
        (b : Build) (w : Walker) (n : ℕ)
        → Ready b.result w
        → Good b
        → Finds (suc c) all_steps b.result w n
        → Good (place (suc c) (record w { next = n }) b).1
    unfolding place slot
    place-Good b w n x g f = record {
      counts =
          taken_count-put b.result (slot (suc c) w n) w.num (suc c) (lt→ltb w.num (2 ^ 31) x.num_lt)
            f.is_free (slot-lt c w n)
          ∙ ap suc g.counts;
      owned = λ k. put-owned b.result (slot (suc c) w n) w.num k g.owned x.owner;
    }

    place-Step :
        (b : Build) (w : Walker) (n : ℕ)
        → Ready b.result w
        → Good b
        → b.runs < suc c
        → Finds (suc c) all_steps b.result w n
        → let p = place (suc c) (record w { next = n }) b in Step b w p.1 p.0
    unfolding place slot
    place-Step b w n x g h f = record {
      ready = place-Ready b w n x f;
      good = place-Good b w n x g f;
      grows = put-Grows b.result (slot (suc c) w n) w.num x.num_lt;
      more = omega arith;
      at_most = omega arith;
    }

    Step-trans : (b d e : Build) (w v u : Walker) → Step b w d v → Step d v e u → Step b w e u
    Step-trans b d e w v u s t = record {
      ready = t.ready;
      good = t.good;
      grows = λ k h. t.grows k (s.grows k h);
      more = omega (arith, s.more, t.more);
      at_most = t.at_most;
    }

    -- What a loop on `j` comes to.
    abbrev pub Turned : ℕ → Walker → Build → Type 0
    Turned j w b =
        (v : Walker) × ((d : Build) × ((turns j (suc c) w b ≡ some (v, d))
            × ((Step b w d v) × (b.runs + (1 - (1 - j)) ≤ d.runs))))

    pub turns-some :
        (j : ℕ) (w : Walker) (b : Build) → Ready b.result w → Good b → b.runs < suc c → Turned j w b
    unfolding turns place
    turns-some zero w b x g h = (
      w,
      (
        b,
        (
          refl,
          (
            record {
              ready = x;
              good = g;
              grows = λ k t. t;
              more = omega arith;
              at_most = omega arith;
            },
            omega arith,
          ),
        ),
      ),
    )
    turns-some (suc j) w b x g h =
        let (n, f) = Finds-free c b.result w prime x.walks x.covered (omega (arith, g.counts)) in
        let p = place (suc c) (record w { next = n }) b in
        let s = place-Step b w n x g h f in
        elim (Bool-cases (p.1.runs == suc c)) [
          | inl full ↦ (
            p.0,
            (
              p.1,
              (turns-full j (suc c) w (record w { next = n }) b f.result full, (s, omega arith)),
            ),
          )
          | inr room ↦
              let (v, (d, (e, (t, m)))) =
                turns-some j p.0 p.1 s.ready s.good (grind (arith, room)) in
              (
                v,
                (
                  d,
                  (
                    turns-room j (suc c) w (record w { next = n }) b f.result room ∙ e,
                    (Step-trans b p.1 d w p.0 v s t, omega (arith, m)),
                  ),
                ),
              )
        ]
