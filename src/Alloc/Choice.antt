-- ===== src/Alloc/Choice.antt =====
-- libensemble/tools/alloc_support.py: which point comes next, and how many resource sets a count of
-- processes or GPUs takes.
use native.Mathlib.Nat.{div-add-mod', mod-lt}
use libensemble.Base.{
  ℕ, zero, suc, ◌+◌, ◌-◌, ◌*◌, ◌/◌, ◌%◌, ◌≤◌, ◌<◌, ◌≡◌, refl, ◌∙◌, sym, subst, Bool, true, false,
  List, [], ◌∷◌, some, ok, ◌==◌, if◌then◌else◌, contains, drop, arith, inl, inr, Bool-cases, filter,
  contains-filter,
}
use libensemble.Alloc.{Columns}
use libensemble.Alloc.Workers.{
  skip_canceled_points, skip_loop, argmax, priority_of, points_by_priority, pick_points,
  nonzero_from,
}
use libensemble.Alloc.Support.{convert_to_rsets}
use libensemble.Alloc.Given.{is_open, nonzero_from-contains}

-- What the loop does from row `next` on, over the rest of the column.

skip_loop_lem :
    (cs : List Bool) (next : ℕ)
    → (next ≤ skip_loop cs next)
      × ((i : ℕ) → i < skip_loop cs next - next → is_open cs i ≡ true)
      × (is_open cs (skip_loop cs next - next) ≡ false)
unfolding skip_loop
skip_loop_lem [] next = (omega arith, λ i h. absurd (omega arith), refl)
skip_loop_lem (false ∷ cs) next = (omega arith, λ i h. absurd (omega arith), ground arith)
skip_loop_lem (true ∷ cs) next =
    let rest : (next + 1 ≤ skip_loop cs (next + 1))
        × ((i : ℕ) → i < skip_loop cs (next + 1) - (next + 1) → is_open cs i ≡ true)
        × (is_open cs (skip_loop cs (next + 1) - (next + 1)) ≡ false) =
      skip_loop_lem cs (next + 1) in
    let step : skip_loop cs (next + 1) - next ≡ suc (skip_loop cs (next + 1) - (next + 1)) =
      omega (arith, rest.0) in
    (omega (arith, rest.0), passed rest.1 rest.0, rw step rest.2)
  where
    passed :
        ((i : ℕ) → i < skip_loop cs (next + 1) - (next + 1) → is_open cs i ≡ true)
        → next + 1 ≤ skip_loop cs (next + 1)
        → (i : ℕ) → i < skip_loop cs (next + 1) - next
        → is_open (true ∷ cs) i ≡ true
    passed below low zero h = refl
    passed below low (suc i) h = below i (omega (arith, h, low))

drop-is_open : (n : ℕ) (xs : List Bool) (i : ℕ) → is_open (drop n xs) i ≡ is_open xs (n + i)
drop-is_open zero xs i = ground arith
drop-is_open (suc n) [] i = ground arith
drop-is_open (suc n) (x ∷ xs) i = ground (arith, drop-is_open n xs i)

-- skip_canceled_points ends at the first row from `next_to_give` on that is not cancelled, or at the
-- end of the column: it goes over cancelled rows only, and the row that it stops at is not one.
pub skip_canceled_points_lem :
    (cancel_requested : List Bool) (next_to_give : ℕ)
    → (next_to_give ≤ skip_canceled_points cancel_requested next_to_give)
      × ((i : ℕ)
          → next_to_give ≤ i
          → i < skip_canceled_points cancel_requested next_to_give
          → is_open cancel_requested i ≡ true)
      × (is_open cancel_requested (skip_canceled_points cancel_requested next_to_give) ≡ false)
unfolding skip_canceled_points
skip_canceled_points_lem cs next =
    let stop = skip_loop (drop next cs) next in
    let went : (next ≤ stop)
        × ((i : ℕ) → i < stop - next → is_open (drop next cs) i ≡ true)
        × (is_open (drop next cs) (stop - next) ≡ false) =
      skip_loop_lem (drop next cs) next in
    let back : next + (stop - next) ≡ stop = omega (arith, went.0) in
    (
      went.0,
      λ i low high.
          (let there : next + (i - next) ≡ i = omega (arith, low) in
            rw (← there) (
              sym (drop-is_open next cs (i - next))
              ∙ went.1 (i - next) (omega (arith, low, high)))),
      rw (← back) (sym (drop-is_open next cs (stop - next)) ∙ went.2),
    )

argmax-le :
    (column : List ℕ) (best : ℕ) (rest : List ℕ) (i : ℕ)
    → contains i (best ∷ rest) ≡ true
    → priority_of column i ≤ priority_of column (argmax column best rest)
unfolding argmax
argmax-le column best [] i h = let same : i ≡ best = ground arith in rw same (omega arith)
argmax-le column best (j ∷ rest) i h = ground (
  arith,
  argmax-le column j rest i,
  argmax-le column best rest i,
  argmax-le column j rest j,
  argmax-le column best rest best,
)

pick_points-best :
    (H : Columns) (column : List ℕ) (batch : Bool) (cands inds : List ℕ)
    → H.priority ≡ some column
    → pick_points H batch cands ≡ some inds
    → (i j : ℕ) → contains i inds ≡ true
    → contains j cands ≡ true
    → priority_of column j ≤ priority_of column i
unfolding pick_points
pick_points-best H column batch [] inds there e i j hi hj = absurd (ground arith)
pick_points-best H column batch (first ∷ rest) inds there e i j hi hj =
    let best = argmax column first rest in
    let top : priority_of column j ≤ priority_of column best = argmax-le column first rest j hj in
    let p : ℕ → Bool = λ k. priority_of column k == priority_of column best in
    elim (Bool-cases batch) [
      | inl all_best ↦
          let same : inds ≡ filter p (first ∷ rest) = ground arith in
          let kept : contains i (filter p (first ∷ rest)) ≡ true = rw (← same) hi in
          ground (arith, contains-filter p i (first ∷ rest))
      | inr one ↦
          let same : inds ≡ best ∷ [] = ground arith in
          let kept : contains i (best ∷ []) ≡ true = subst (λ xs. contains i xs ≡ true) same hi in
          let at : i ≡ best = ground arith in rw at top
    ]

-- Where H has priorities, a point that points_by_priority returns has the greatest priority of all
-- the points that are available, with batches or without.
pub points_by_priority-best :
    (H : Columns) (column : List ℕ) (points_avail : List Bool) (batch : Bool) (inds : List ℕ)
    → H.priority ≡ some column
    → points_by_priority H points_avail batch ≡ some inds
    → (i j : ℕ) → contains i inds ≡ true
    → is_open points_avail j ≡ true
    → priority_of column j ≤ priority_of column i
unfolding points_by_priority
points_by_priority-best H column points batch inds there e i j hi hj =
    pick_points-best H column batch (nonzero_from 0 points) inds there e i j hi
      (ground (arith, nonzero_from-contains 0 points j))

-- The resource sets for a count of processes or GPUs hold them, and have room for less than one
-- resource set more; none are taken only for a count of 0.
pub convert_to_rsets_lem :
    (units_per_rset num_units n : ℕ)
    → convert_to_rsets units_per_rset num_units ≡ ok n
    → (num_units ≤ n * units_per_rset)
      × (0 < n → n * units_per_rset < num_units + units_per_rset)
      × (n ≡ 0 → num_units ≡ 0)
unfolding convert_to_rsets
convert_to_rsets_lem units_per_rset num_units n e = elim (Bool-cases (num_units == 0)) [
  | inl nothing ↦
      let zero_n : n ≡ 0 = ground arith in
      rw zero_n (ground arith, (λ h. absurd (omega arith)), λ h. ground arith)
  | inr some_units ↦ elim (Bool-cases (units_per_rset == 0)) [
    | inl refused ↦ absurd (ground arith)
    | inr divides ↦
        let whole = div-add-mod' num_units units_per_rset in
        let small : num_units % units_per_rset < units_per_rset = mod-lt num_units (ground arith) in
        let at_n : n
            ≡ num_units / units_per_rset + (if num_units % units_per_rset == 0 then 0 else 1) =
          ground arith in
        rw at_n (
          ground (arith, whole, small),
          (λ h. ground (arith, whole, small)),
          λ h. ground (arith, whole, small),
        )
  ]
]
