-- ===== src/Maglev/Complete.antt =====
-- GenerateMaglevHash (katran/lib/CHHelpers.cpp) ends with every slot of the ring taken.
use katran.Base.{
  ℕ, zero, suc, ◌+◌, ◌≤◌, ◌<◌, ◌≡◌, refl, ◌∙◌, true, false, Bool-cases, ◌==◌, ==→eq, arith,
}
use katran.Base.{◌⊎◌, inl, inr, some, List, [], ◌∷◌}
use katran.Maglev.{Ring, taken, slot, Walker, Build, round, rounds, turns}
use katran.Maglev.Inverse.{IsPrime}
use katran.Maglev.Count.{full_taken}
use katran.Maglev.Turns.{Grows, Ready, Ready-Grows, Good, turns-some}

abbrev pub some_of {ℓ} : {A : Type ℓ} → List A → ℕ
some_of [] = 0
some_of (x ∷ xs) = 1

round-full :
    (r : ℕ) (w v : Walker) (ws : List Walker) (b d : Build)
    → turns w.weight r w b ≡ some (v, d)
    → (d.runs == r) ≡ true
    → round r (w ∷ ws) b ≡ some (v ∷ ws, d)
unfolding round
round-full r w v ws b d e f = grind (arith, e, f)

round-room :
    (r : ℕ) (w v : Walker) (ws vs : List Walker) (b d c : Build)
    → turns w.weight r w b ≡ some (v, d)
    → (d.runs == r) ≡ false
    → round r ws d ≡ some (vs, c)
    → round r (w ∷ ws) b ≡ some ((record v { weight = 1 }) ∷ vs, c)
unfolding round
round-room r w v ws vs b d c e f g = grind (arith, e, f, g)

module _ (P : ℕ → Type 0) (c : ℕ) where
  unfoldable pub AllReady : Ring → List Walker → Type 0
  AllReady ring [] = Unit
  AllReady ring (w ∷ ws) = (Ready P c ring w) × (AllReady ring ws)

  AllReady-Grows :
      (ring ring' : Ring) (ws : List Walker)
      → Grows ring ring'
      → AllReady ring ws
      → AllReady ring' ws
  unfolding AllReady
  AllReady-Grows ring ring' [] g x = tt
  AllReady-Grows ring ring' (w ∷ ws) g (x, xs) =
      (Ready-Grows P c ring ring' w g x, AllReady-Grows ring ring' ws g xs)

  Ready-light :
      (ring : Ring) (w : Walker) → Ready P c ring w → Ready P c ring (record w { weight = 1 })
  unfolding slot
  Ready-light ring w x = record {
    walks = record {
      offset_lt = x.walks.offset_lt;
      skip_pos = x.walks.skip_pos;
      skip_lt = x.walks.skip_lt;
      no_wrap = x.walks.no_wrap;
    };
    heavy = omega arith;
    num_lt = x.num_lt;
    owner = x.owner;
    covered = x.covered;
  }

  -- What the loop on `i` comes to: a full ring, or the same invariant.
  record Rounded (ws : List Walker) (b : Build) : Type 0 where
    pub walkers : List Walker
    pub build : Build
    pub result : round (suc c) ws b ≡ some (walkers, build)
    pub good : Good P c build
    pub more : b.runs + some_of ws ≤ build.runs
    pub same : some_of walkers ≡ some_of ws
    pub at_most : build.runs ≤ suc c
    pub grows : Grows b.result build.result
    pub ready : (build.runs ≡ suc c) ⊎ (AllReady build.result walkers)

  module _ (prime : IsPrime (suc c)) where
    round-Rounded :
        (ws : List Walker) (b : Build)
        → AllReady b.result ws
        → Good P c b
        → b.runs < suc c
        → Rounded ws b
    unfolding AllReady round
    round-Rounded [] b x g h = record {
      walkers = [];
      build = b;
      result = refl;
      good = g;
      more = omega arith;
      same = refl;
      at_most = omega arith;
      grows = λ k t. t;
      ready = inr tt;
    }
    round-Rounded (w ∷ ws) b (x, xs) g h =
        let (v, (d, (e, (s, m)))) = turns-some P c prime w.weight w b x g h in
        elim (Bool-cases (d.runs == suc c)) [
          | inl full ↦ record {
            walkers = v ∷ ws;
            build = d;
            result = round-full (suc c) w v ws b d e full;
            good = s.good;
            more = omega (arith, m, x.heavy);
            same = refl;
            at_most = s.at_most;
            grows = s.grows;
            ready = inl (==→eq d.runs (suc c) full);
          }
          | inr room ↦
              let rest =
                round-Rounded ws d (AllReady-Grows b.result d.result ws s.grows xs) s.good
                  (grind (arith, s.at_most, room)) in
              record {
                walkers = (record v { weight = 1 }) ∷ rest.walkers;
                build = rest.build;
                result = round-room (suc c) w v ws rest.walkers b d rest.build e room rest.result;
                good = rest.good;
                more = omega (arith, rest.more, s.more, m, x.heavy);
                same = refl;
                at_most = rest.at_most;
                grows = λ k t. rest.grows k (s.grows k t);
                ready = elim rest.ready [
                  | inl done ↦ inl done
                  | inr ys ↦ inr (
                    Ready-light rest.build.result v
                        (Ready-Grows P c d.result rest.build.result v rest.grows s.ready),
                    ys,
                  )
                ];
              }
        ]

    -- A full ring in which every slot has an owner.
    unfoldable pub Filled : Ring → Type 0
    Filled ring = (k : ℕ) → k < suc c → (taken (ring k) ≡ true) × (P (ring k))

    Good-Filled : (b : Build) → Good P c b → b.runs ≡ suc c → Filled b.result
    unfolding Filled
    Good-Filled b g e k h =
        let t = full_taken b.result (suc c) k (g.counts ∙ e) h in (t, g.owned k t)

    rounds-full :
        (fuel : ℕ) (ws vs : List Walker) (b d : Build)
        → round (suc c) ws b ≡ some (vs, d)
        → d.runs ≡ suc c
        → rounds (suc fuel) (suc c) ws b ≡ some d.result
    unfolding rounds
    rounds-full fuel ws vs b d e f = grind (arith, e, f)

    rounds-room :
        (fuel : ℕ) (ws vs : List Walker) (b d : Build)
        → round (suc c) ws b ≡ some (vs, d)
        → (d.runs == suc c) ≡ false
        → rounds (suc fuel) (suc c) ws b ≡ rounds fuel (suc c) vs d
    unfolding rounds
    rounds-room fuel ws vs b d e f = grind (arith, e, f)

    -- The fuel: each round takes a slot.
    pub rounds-Filled :
        (fuel : ℕ) (ws : List Walker) (b : Build)
        → AllReady b.result ws
        → some_of ws ≡ 1
        → Good P c b
        → b.runs < suc c
        → suc c ≤ b.runs + fuel
        → (ring : Ring) × ((rounds fuel (suc c) ws b ≡ some ring) × (Filled ring))
    rounds-Filled zero ws b x one g h l = let no_room : ⊥ = omega arith in elim no_room [ ]
    rounds-Filled (suc fuel) ws b x one g h l =
        let a = round-Rounded ws b x g h in
        elim a.ready [
          | inl full ↦ (
            a.build.result,
            (
              rounds-full fuel ws a.walkers b a.build a.result full,
              Good-Filled a.build a.good full,
            ),
          )
          | inr ys ↦ elim (Bool-cases (a.build.runs == suc c)) [
            | inl full ↦
                let e = ==→eq a.build.runs (suc c) full in
                (
                  a.build.result,
                  (
                    rounds-full fuel ws a.walkers b a.build a.result e,
                    Good-Filled a.build a.good e,
                  ),
                )
            | inr room ↦
                let (ring, (e, f)) =
                  rounds-Filled fuel a.walkers a.build ys (a.same ∙ one) a.good
                    (grind (arith, a.at_most, room)) (omega (arith, a.more, one)) in
                (ring, (rounds-room fuel ws a.walkers b a.build a.result room ∙ e, f))
          ]
        ]
