-- ===== src/Resources/Scheduler/Groups.antt =====
-- What the dictionaries of the scheduler hold: IDs that are told apart by their group.
use libensemble.Base.{
  ℕ, suc, ◌+◌, ◌≤◌, ◌<◌, ◌≡◌, refl, ap, Bool, true, false, ◌&&◌, List, [], ◌∷◌, ◌++◌, map, none,
  some, arith, ◌==◌, get_elem?, filter, contains, IsDistinct, All, contains-append, Bool-cases,
  Option-cases, inl, inr, contains-filter, filter-IsDistinct, append-IsDistinct,
}
use libensemble.Resources.Assignment.{ManRSet}
use libensemble.Resources.Scheduler.Avail.{
  ByGroup, insert_unique, unique_groups, append_at, fill, free_by_group, keep_ids,
}
use libensemble.Resources.Scheduler.Matching.{keys}

-- The resource set of ID `i` is there, free, and of group `g`.

abbrev pub IsFreeIn : List ManRSet → ℕ → ℕ → Type 0
IsFreeIn rs g i = (r : ManRSet) × (get_elem? rs i ≡ some r) × (r.group ≡ g) × (r.assigned ≡ none)

-- `P g i` says what the dictionary promises of an ID `i` that it lists under `g`.
abbrev pub IsSound : (ℕ → ℕ → Type 0) → ℕ × List ℕ → Type 0
IsSound P item = IsDistinct item.1 × ((i : ℕ) → contains i item.1 ≡ true → P item.0 i)

abbrev pub IsGrouped : (ℕ → ℕ → Type 0) → ByGroup → Type 0
IsGrouped P d = All (IsSound P) d × IsDistinct (keys d)

-- The IDs of all groups.
abbrev pub all_ids : ByGroup → List ℕ
all_ids [] = []
all_ids (item ∷ d) = item.1 ++ all_ids d

module _ (P : ℕ → ℕ → Type 0) (f : ℕ × List ℕ → List ℕ)
    (fewer : (item : ℕ × List ℕ) (i : ℕ) → contains i (f item) ≡ true → contains i item.1 ≡ true)
    (distinct : (item : ℕ × List ℕ) → IsDistinct item.1 → IsDistinct (f item)) where
  shrink-All :
      (d : ByGroup) → All (IsSound P) d → All (IsSound P) (map (λ item. (item.0, f item)) d)
  shrink-All [] h = tt
  shrink-All (item ∷ d) h =
      ((distinct item h.0.0, λ i m. h.0.1 i (fewer item i m)), shrink-All d h.1)

  shrink-keys : (d : ByGroup) → keys (map (λ item. (item.0, f item)) d) ≡ keys d
  shrink-keys [] = refl
  shrink-keys (item ∷ d) = ap (◌∷◌ item.0) (shrink-keys d)

  -- Taking IDs out of the lists keeps a dictionary sound.
  pub shrink-IsGrouped :
      (d : ByGroup) → IsGrouped P d → IsGrouped P (map (λ item. (item.0, f item)) d)
  shrink-IsGrouped d h = (shrink-All d h.0, rw (shrink-keys d) h.1)

-- A weaker promise.
pub All-IsSound_mono :
    (P Q : ℕ → ℕ → Type 0) (d : ByGroup)
    → ((g i : ℕ) → contains i (all_ids d) ≡ true → P g i → Q g i)
    → All (IsSound P) d
    → All (IsSound Q) d
All-IsSound_mono P Q [] f h = tt
All-IsSound_mono P Q (item ∷ d) f h = (
  (h.0.0, λ i m. f item.0 i (ground (arith, contains-append i item.1 (all_ids d))) (h.0.1 i m)),
  All-IsSound_mono P Q d (λ g i m. f g i (ground (arith, contains-append i item.1 (all_ids d))))
      h.1,
)

pub all_ids-keep_ids :
    (p : ℕ → Bool) (d : ByGroup) (i : ℕ)
    → contains i (all_ids (keep_ids p d)) ≡ (contains i (all_ids d) && p i)
all_ids-keep_ids p [] i = refl
all_ids-keep_ids p (item ∷ d) i = ground (
  arith,
  contains-append i (filter p item.1) (all_ids (keep_ids p d)),
  contains-append i item.1 (all_ids d),
  contains-filter p i item.1,
  all_ids-keep_ids p d i,
)

pub keep_ids-IsGrouped :
    (P : ℕ → ℕ → Type 0) (p : ℕ → Bool) (d : ByGroup) → IsGrouped P d → IsGrouped P (keep_ids p d)
keep_ids-IsGrouped P p d h =
    shrink-IsGrouped P (λ item. filter p item.1)
      (λ item i m. ground (arith, contains-filter p i item.1)) (λ item. filter-IsDistinct p item.1)
      d h

contains-insert_unique :
    (a x : ℕ) (xs : List ℕ) → contains a (insert_unique x xs) ≡ contains a (x ∷ xs)
unfolding insert_unique
contains-insert_unique a x [] = refl
contains-insert_unique a x (y ∷ xs) = ground (arith, contains-insert_unique a x xs)

-- The list rises strictly from a bound on.
abbrev Above : ℕ → List ℕ → Type 0
Above b [] = Unit {0}
Above b (x ∷ xs) = (b ≤ x) × Above (x + 1) xs

insert_unique-Above : (b x : ℕ) (xs : List ℕ) → b ≤ x → Above b xs → Above b (insert_unique x xs)
unfolding insert_unique
insert_unique-Above b x [] h a = (h, tt)
insert_unique-Above b x (y ∷ xs) h a = ground (arith, insert_unique-Above (y + 1) x xs)

Above-absent : (b a : ℕ) (xs : List ℕ) → a < b → Above b xs → contains a xs ≡ false
Above-absent b a [] h k = refl
Above-absent b a (x ∷ xs) h k = ground (arith, Above-absent (x + 1) a xs)

Above-IsDistinct : (b : ℕ) (xs : List ℕ) → Above b xs → IsDistinct xs
Above-IsDistinct b [] h = tt
Above-IsDistinct b (x ∷ xs) h =
    (Above-absent (x + 1) x xs (omega arith) h.1, Above-IsDistinct (x + 1) xs h.1)

unique_groups-Above : (rs : List ManRSet) → Above 0 (unique_groups rs)
unfolding unique_groups
unique_groups-Above [] = tt
unique_groups-Above (r ∷ rs) =
    insert_unique-Above 0 r.group (unique_groups rs) (omega arith) (unique_groups-Above rs)

-- The dictionary before the index `ind` was reached.
abbrev IsPartial : List ManRSet → ℕ → ByGroup → Type 0
IsPartial rs ind d = IsGrouped (λ g i. IsFreeIn rs g i × (i < ind)) d

keys-append_at : (g ind : ℕ) (d : ByGroup) → keys (append_at g ind d) ≡ keys d
unfolding append_at
keys-append_at g ind [] = refl
keys-append_at g ind ((k, ids) ∷ d) = ground (arith, keys-append_at g ind d)

module _ (rs : List ManRSet) where
  abbrev Before : ℕ → ℕ → ℕ → Type 0
  Before ind g i = IsFreeIn rs g i × (i < ind)

  later :
      (ind : ℕ) (d : ByGroup) → All (IsSound (Before ind)) d → All (IsSound (Before (ind + 1))) d
  later ind d = All-IsSound_mono (Before ind) (Before (ind + 1)) d (λ g i _ h. (h.0, omega arith))

  append_at-IsSound :
      (g ind : ℕ) (ids : List ℕ)
      → IsFreeIn rs g ind
      → IsSound (Before ind) (g, ids)
      → IsSound (Before (ind + 1)) (g, ids ++ ind ∷ [])
  append_at-IsSound g ind ids here h = (
    append-IsDistinct ids (ind ∷ []) h.0 (refl, tt)
        (λ a m. let (_, below) = h.1 a m in ground arith),
    λ i m. elim (Bool-cases (contains i ids)) [
      | inl old ↦ let (free, below) = h.1 i old in (free, omega arith)
      | inr new ↦
          let same : i ≡ ind = ground (arith, contains-append i ids (ind ∷ [])) in
          rw same (here, omega arith)
    ],
  )

  append_at-All :
      (g ind : ℕ) (d : ByGroup)
      → IsFreeIn rs g ind
      → All (IsSound (Before ind)) d
      → All (IsSound (Before (ind + 1))) (append_at g ind d)
  unfolding append_at
  append_at-All g ind [] here h = tt
  append_at-All g ind ((k, ids) ∷ d) here h = elim (Bool-cases (k == g)) [
    | inl same ↦
        let e : k ≡ g = ground arith in
        rw (same, append_at) (append_at-IsSound k ind ids (rw e here) h.0, later ind d h.1)
    | inr other ↦
        rw (other, append_at)
          ((later ind ((k, ids) ∷ []) (h.0, tt)).0, append_at-All g ind d here h.1)
  ]

  fill-IsGrouped :
      (ind : ℕ) (rest : List ManRSet) (d : ByGroup)
      → ((j : ℕ) → get_elem? rs (ind + j) ≡ get_elem? rest j)
      → IsGrouped (Before ind) d
      → IsGrouped (IsFreeIn rs) (fill ind rest d)
  unfolding fill
  fill-IsGrouped ind [] d at h =
      (All-IsSound_mono (Before ind) (IsFreeIn rs) d (λ g i _ k. k.0) h.0, h.1)
  fill-IsGrouped ind (r ∷ rest) d at h =
      let at' : (j : ℕ) → get_elem? rs (ind + 1 + j) ≡ get_elem? rest j =
        λ j. let e : ind + 1 + j ≡ ind + suc j = omega arith in rw e (at (suc j)) in
      let start : ind + 0 ≡ ind = omega arith in
      let here : get_elem? rs ind ≡ some r = rw start at (at 0) in
      elim (Option-cases r.assigned) [
        | inl free ↦
            rw (free, fill)
              (fill-IsGrouped (ind + 1) rest (append_at r.group ind d) at' (
                append_at-All r.group ind d (r, here, refl, free) h.0,
                rw (keys-append_at r.group ind d) h.1,
              ))
        | inr (w, held) ↦
            rw (held, fill) (fill-IsGrouped (ind + 1) rest d at' (later ind d h.0, h.1))
      ]

  keys_empty : (gs : List ℕ) → keys (map (λ g. (g, [])) gs) ≡ gs
  keys_empty [] = refl
  keys_empty (g ∷ gs) = ap (◌∷◌ g) (keys_empty gs)

  empty-All : (gs : List ℕ) → All (IsSound (Before 0)) (map (λ g. (g, [])) gs)
  empty-All [] = tt
  empty-All (g ∷ gs) = ((tt, λ i m. absurd cc), empty-All gs)

  -- The dictionary that the first call builds lists free resource sets, each under its group.
  pub free_by_group-IsGrouped : IsGrouped (IsFreeIn rs) (free_by_group rs)
  unfolding free_by_group
  free_by_group-IsGrouped =
      fill-IsGrouped 0 rs (map (λ g. (g, [])) (unique_groups rs))
        (λ j. let e : 0 + j ≡ j = omega arith in rw e)
        (
          empty-All (unique_groups rs),
          rw (keys_empty (unique_groups rs)) (Above-IsDistinct 0 _ (unique_groups-Above rs)),
        )
