-- ===== src/Vip/Endpoints.antt =====
-- What Vip::getEndpoints (katran/lib/Vip.cpp) gives: the reals that have a weight, by hash.
use katran.Base.{
  ℕ, ◌≡◌, refl, sym, ap, ◌∙◌, Bool, true, false, Bool-cases, ◌==◌, if◌then◌else◌, ==→eq, arith,
}
use katran.Base.{inl, inr, Option, none, some, List, [], ◌∷◌, find, number_key}
use katran.Maglev.{Endpoint}
use katran.Vip.{
  VipRealMeta, RealMap, UpdateReal, update_reals, weighted, insert_endpoint, sort_endpoints,
  get_endpoints,
}
use katran.Vip.Order.{sorted, sorted-sort}
use katran.Vip.Reals.{
  update_metas, find-update_reals, changes, changed-update_reals, Unique, update_reals-Unique,
}

-- The weights and hashes under which a number is among the endpoints.
unfoldable pub entries : ℕ → List Endpoint → List VipRealMeta
entries num [] = []
entries num (e ∷ es) =
    let rest = entries num es in
    if e.num == num then record { weight = e.weight; hash = e.hash } ∷ rest else rest

-- A real that has a weight is there once, one without is not.
abbrev pub with_weight : Option VipRealMeta → List VipRealMeta
with_weight none = []
with_weight (some m) = if m.weight == 0 then [] else m ∷ []

entries-insert_other :
    (num : ℕ) (e : Endpoint) (es : List Endpoint)
    → (e.num == num) ≡ false
    → entries num (insert_endpoint e es) ≡ entries num es
unfolding entries insert_endpoint
entries-insert_other num e [] h = grind (arith, h)
entries-insert_other num e (d ∷ ds) h = grind (arith, h, entries-insert_other num e ds h)

entries-insert_new :
    (num : ℕ) (e : Endpoint) (es : List Endpoint)
    → (e.num == num) ≡ true
    → entries num es ≡ []
    → entries num (insert_endpoint e es) ≡ record { weight = e.weight; hash = e.hash } ∷ []
unfolding entries insert_endpoint
entries-insert_new num e [] h a = grind (arith, h)
entries-insert_new num e (d ∷ ds) h a = elim (Bool-cases (d.num == num)) [
  | inl k ↦ grind (arith, k, a)
  | inr k ↦
      let rest : entries num ds ≡ [] = grind (arith, k, a) in
      grind (arith, h, k, a, entries-insert_new num e ds h rest)
]

entries-sort :
    (rs : RealMap) (num : ℕ)
    → Unique rs
    → entries num (sort_endpoints (weighted rs)) ≡ with_weight (find number_key rs num)
unfolding entries sort_endpoints weighted find Unique
entries-sort [] num u = refl
entries-sort ((n, m) ∷ rs) num (a, u) =
    let rest = sort_endpoints (weighted rs) in
    let e : Endpoint = record { num = n; weight = m.weight; hash = m.hash } in
    let step = entries-sort rs num u in
    elim (Bool-cases (n == num)) [
      | inl k ↦
          let gone : entries num rest ≡ [] =
            step
            ∙ ap (λ j. with_weight (find number_key rs j)) (sym (==→eq n num k))
            ∙ ap with_weight a in
          grind (arith, k, gone, entries-insert_new num e rest k gone)
      | inr k ↦ grind (arith, k, step, entries-insert_other num e rest k)
    ]

by_change :
    (changed : Bool) (rs : RealMap) (num : ℕ)
    → Unique rs
    → let r = if changed then sort_endpoints (weighted rs) else [] in
      (sorted r ≡ true)
      × (entries num r ≡ (if changed then with_weight (find number_key rs num) else []))
unfolding sorted entries
by_change true rs num u = (sorted-sort (weighted rs), entries-sort rs num u)
by_change false rs num u = (refl, refl)

-- On a map with one entry for a number, getEndpoints leaves such a map, which holds at every number
-- what the updates of that number make of its entry, one after another. If an update changes a
-- real, each number whose entry there has a weight is among the endpoints once, with that weight and
-- hash, no other number is, and the endpoints ascend by their hashes; if none does, there is none.
pub get_endpoints_lem :
    (us : List UpdateReal) (rs : RealMap) (num : ℕ)
    → Unique rs
    → let r = get_endpoints us rs in
      let meta = update_metas us num (find number_key rs num) in
      (Unique r.0)
      × ((find number_key r.0 num ≡ meta)
          × ((sorted r.1 ≡ true)
              × (entries num r.1
                  ≡ (if changes us (find number_key rs) then with_weight meta else []))))
unfolding get_endpoints
get_endpoints_lem us rs num u =
    let s = update_reals us (rs, false) in
    let one = update_reals-Unique us (rs, false) u in
    let kept = find-update_reals us (rs, false) num in
    let (order, all) = by_change s.1 s.0 num one in
    (
      one,
      (
        kept,
        (
          order,
          all
              ∙ ap (λ b. if b then with_weight (find number_key s.0 num) else [])
                  (changed-update_reals us (rs, false))
              ∙ ap (λ o. if changes us (find number_key rs) then with_weight o else []) kept,
        ),
      ),
    )
