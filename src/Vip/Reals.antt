-- ===== src/Vip/Reals.antt =====
-- The reals of a VIP, by their numbers, under the updates of Vip::getEndpoints
-- (katran/lib/Vip.cpp).
use katran.Base.{
  ℕ, ◌≡◌, refl, sym, ap, ◌∙◌, Bool, true, false, Bool-cases, ◌==◌, ◌||◌, not, if-elim,
  if◌then◌else◌, ==→eq, arith,
}
use katran.Base.{
  inl, inr, Option, none, some, List, [], ◌∷◌, find, erase, write, find-write_same,
  find-write_other, find-erase_same, find-erase_other, number_key,
}
use katran.Maglev.{Endpoint}
use katran.Vip.{
  VipRealMeta, RealMap, UpdateReal, ModifyAction, add, del, meta_of, update_by, update_reals,
}

-- What one update does to the entry of one key.
unfoldable pub update_meta : ModifyAction → Endpoint → Option VipRealMeta → Option VipRealMeta
update_meta del real o = none
update_meta add real o =
    if (meta_of o).weight == real.weight
    then some (meta_of o)
    else some (record { weight = real.weight; hash = real.hash })

-- The last word on a key: each update of the key acts on what the one before left.
unfoldable pub update_metas : List UpdateReal → ℕ → Option VipRealMeta → Option VipRealMeta
update_metas [] num o = o
update_metas (u ∷ us) num o =
    update_metas us num
      (if u.updated_real.num == num then update_meta u.action u.updated_real o else o)

find-update_same :
    (a : ModifyAction) (r : Endpoint) (s : RealMap × Bool)
    → find number_key (update_by a r s).0 r.num ≡ update_meta a r (find number_key s.0 r.num)
unfolding update_by update_meta
find-update_same del r (rs, c) = find-erase_same number_key rs r.num
find-update_same add r (rs, c) = grind (arith, find-write_same number_key rs r.num)

find-update_other :
    (a : ModifyAction) (r : Endpoint) (s : RealMap × Bool) (num : ℕ)
    → (r.num == num) ≡ false
    → find number_key (update_by a r s).0 num ≡ find number_key s.0 num
unfolding update_by
find-update_other del r (rs, c) num h = find-erase_other number_key rs r.num num h
find-update_other add r (rs, c) num h =
    let m = meta_of (find number_key rs r.num) in
    let n : VipRealMeta = record { weight = r.weight; hash = r.hash } in
    grind (
      arith,
      find-write_other number_key rs r.num num m h,
      find-write_other number_key rs r.num num n h,
    )

find-update_by :
    (a : ModifyAction) (r : Endpoint) (s : RealMap × Bool) (num : ℕ)
    → find number_key (update_by a r s).0 num ≡ (
        if r.num == num then update_meta a r (find number_key s.0 num) else find number_key s.0 num)
find-update_by a r s num = elim (Bool-cases (r.num == num)) [
  | inl e ↦ grind (
    arith,
    e,
    ap (λ n. find number_key (update_by a r s).0 n) (==→eq r.num num e),
    ap (λ n. find number_key s.0 n) (==→eq r.num num e),
    find-update_same a r s,
  )
  | inr e ↦ grind (arith, e, find-update_other a r s num e)
]

-- The map of the reals after the updates, read as a function of the key.
pub find-update_reals :
    (us : List UpdateReal) (s : RealMap × Bool) (num : ℕ)
    → find number_key (update_reals us s).0 num ≡ update_metas us num (find number_key s.0 num)
unfolding update_reals update_metas
find-update_reals [] s num = refl
find-update_reals (u ∷ us) s num =
    find-update_reals us (update_by u.action u.updated_real s) num
    ∙ ap (update_metas us num) (find-update_by u.action u.updated_real s num)

-- Whether an update changes a real: a deletion does, an addition if the real, which weighs nothing
-- where it is missing, has another weight.
abbrev pub reweighs : ModifyAction → Endpoint → Option VipRealMeta → Bool
reweighs del real o = true
reweighs add real o = not ((meta_of o).weight == real.weight)

-- The reals by their numbers, and what an update makes of them.
abbrev pub View : Type 0
View = ℕ → Option VipRealMeta

abbrev pub updated : UpdateReal → View → View
updated u view num =
    if u.updated_real.num == num then update_meta u.action u.updated_real (view num) else view num

-- Whether one of the updates changes a real.
unfoldable pub changes : List UpdateReal → View → Bool
changes [] view = false
changes (u ∷ us) view =
    reweighs u.action u.updated_real (view u.updated_real.num) || changes us (updated u view)

changed-update_by :
    (a : ModifyAction) (r : Endpoint) (s : RealMap × Bool)
    → (update_by a r s).1 ≡ (s.1 || reweighs a r (find number_key s.0 r.num))
unfolding update_by
changed-update_by del r (rs, c) = ground arith
changed-update_by add r (rs, c) = ground arith

or_assoc : (a b c : Bool) → ((a || b) || c) ≡ (a || (b || c))
or_assoc a b c = ground arith

pub changed-update_reals :
    (us : List UpdateReal) (s : RealMap × Bool)
    → (update_reals us s).1 ≡ (s.1 || changes us (find number_key s.0))
unfolding update_reals changes
changed-update_reals [] s = ground arith
changed-update_reals (u ∷ us) s =
    let t = update_by u.action u.updated_real s in
    let view : find number_key t.0 ≡ updated u (find number_key s.0) =
      λ i num. find-update_by u.action u.updated_real s num i in
    let c = reweighs u.action u.updated_real (find number_key s.0 u.updated_real.num) in
    changed-update_reals us t
    ∙ ap (λ v. t.1 || changes us v) view
    ∙ ap (λ b. b || changes us (updated u (find number_key s.0)))
        (changed-update_by u.action u.updated_real s)
    ∙ or_assoc s.1 c (changes us (updated u (find number_key s.0)))

-- One entry for a number, as in an unordered_map.
unfoldable pub Unique : RealMap → Type 0
Unique [] = Unit {0}
Unique ((n, m) ∷ rs) = (find number_key rs n ≡ none) × (Unique rs)

write-Unique :
    (rs : RealMap) (n : ℕ) (m : VipRealMeta) → Unique rs → Unique (write number_key rs n m)
unfolding Unique write find
write-Unique [] n m u = (refl, tt)
write-Unique ((k, w) ∷ rs) n m (a, u) = elim (Bool-cases (k == n)) [
  | inl e ↦ rw e (a, u)
  | inr e ↦
      let other : (n == k) ≡ false = ground (arith, e) in
      rw e (find-write_other number_key rs n k m other ∙ a, write-Unique rs n m u)
]

absent-erase :
    (rs : RealMap) (n k : ℕ)
    → find number_key rs k ≡ none
    → find number_key (erase number_key rs n) k ≡ none
absent-erase rs n k a = elim (Bool-cases (n == k)) [
  | inl e ↦
      ap (find number_key (erase number_key rs n)) (sym (==→eq n k e))
      ∙ find-erase_same number_key rs n
  | inr e ↦ find-erase_other number_key rs n k e ∙ a
]

erase-Unique : (rs : RealMap) (n : ℕ) → Unique rs → Unique (erase number_key rs n)
unfolding Unique erase
erase-Unique [] n u = tt
erase-Unique ((k, w) ∷ rs) n (a, u) = elim (Bool-cases (k == n)) [
  | inl e ↦ rw e (erase-Unique rs n u)
  | inr e ↦ rw e (absent-erase rs n k a, erase-Unique rs n u)
]

update_by-Unique :
    (a : ModifyAction) (r : Endpoint) (s : RealMap × Bool) → Unique s.0 → Unique (update_by a r s).0
unfolding update_by
update_by-Unique del r (rs, c) u = erase-Unique rs r.num u
update_by-Unique add r (rs, c) u =
    if-elim (λ (s : RealMap × Bool). Unique s.0)
      ((meta_of (find number_key rs r.num)).weight == r.weight)
      (write-Unique rs r.num (meta_of (find number_key rs r.num)) u)
      (write-Unique rs r.num (record { weight = r.weight; hash = r.hash }) u)

pub update_reals-Unique :
    (us : List UpdateReal) (s : RealMap × Bool) → Unique s.0 → Unique (update_reals us s).0
unfolding update_reals
update_reals-Unique [] s h = h
update_reals-Unique (u ∷ us) s h =
    update_reals-Unique us (update_by u.action u.updated_real s)
      (update_by-Unique u.action u.updated_real s h)
