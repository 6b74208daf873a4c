-- ===== src/Alloc/Given.antt =====
-- libensemble/alloc_funcs/give_sim_work_first.py: which rows are given out, and to whom.
use libensemble.Base.{
  ℕ, zero, suc, ◌+◌, ◌-◌, ◌≡◌, refl, sym, subst, Bool, true, false, ◌&&◌, not, List, [], ◌∷◌, ◌++◌,
  map, none, some, ok, ◌==◌, ltb, contains, any, get_elem?, IsDistinct, filter, contains-append,
  contains-filter, filter-IsDistinct, append-IsDistinct, absent_of_not, arith, inl, inr, Bool-cases,
  Option-cases, Outcome-cases,
}
use libensemble.Resources.Scheduler.Matching.{SetOrder}
use libensemble.Alloc.{Columns, WorkRecord}
use libensemble.Alloc.Workers.{points_by_priority, nonzero_from, argmax, priority_of, pick_points}
use libensemble.Alloc.Support.{AllocSupport, req_resources_sim}
use libensemble.Alloc.Work.{sim_work, update_rset_team}
use libensemble.Alloc.GiveSims.{Works, give_sims, clear_from, no_info, is_free_shortage}

abbrev pub is_open : List Bool → ℕ → Bool
is_open points i = elim (get_elem? points i) [ none ↦ false | some b ↦ b ]

pub nonzero_from-contains :
    (k : ℕ) (bs : List Bool) (i : ℕ)
    → contains i (nonzero_from k bs) ≡ (not (ltb i k) && is_open bs (i - k))
unfolding nonzero_from
nonzero_from-contains k [] i = ground arith
nonzero_from-contains k (b ∷ bs) i = elim (Bool-cases (ltb k i)) [
  | inl above ↦
      let step : i - k ≡ suc (i - (k + 1)) = ground arith in
      rw step (ground (arith, nonzero_from-contains (k + 1) bs i))
  | inr below ↦
      let none_left : i - k ≡ 0 = ground arith in
      rw none_left (ground (arith, nonzero_from-contains (k + 1) bs i))
]

nonzero_from-IsDistinct : (k : ℕ) (bs : List Bool) → IsDistinct (nonzero_from k bs)
unfolding nonzero_from
nonzero_from-IsDistinct k [] = tt
nonzero_from-IsDistinct k (b ∷ bs) =
    ground (arith, nonzero_from-IsDistinct (k + 1) bs, nonzero_from-contains (k + 1) bs k)

argmax-contains :
    (column : List ℕ) (best : ℕ) (rest : List ℕ)
    → contains (argmax column best rest) (best ∷ rest) ≡ true
unfolding argmax
argmax-contains column best [] = ground arith
argmax-contains column best (i ∷ rest) =
    ground (arith, argmax-contains column i rest, argmax-contains column best rest)

-- The rows that are chosen are distinct and open.
abbrev pub AreChosen : List Bool → List ℕ → Type 0
AreChosen points inds =
    IsDistinct inds × ((i : ℕ) → contains i inds ≡ true → is_open points i ≡ true)

abbrev pub IsPart : List ℕ → List ℕ → Type 0
IsPart cands inds = IsDistinct inds × ((i : ℕ) → contains i inds ≡ true → contains i cands ≡ true)

pick_points-IsPart :
    (H : Columns) (batch : Bool) (cands inds : List ℕ)
    → IsDistinct cands
    → pick_points H batch cands ≡ some inds
    → IsPart cands inds
unfolding pick_points
pick_points-IsPart H batch [] inds d e = absurd (ground arith)
pick_points-IsPart H batch (first ∷ rest) inds d e = elim (Option-cases H.priority) [
  | inl plain ↦
      let same : inds ≡ first ∷ [] = ground arith in rw same ((refl, tt), λ i h. ground arith)
  | inr (column, there) ↦
      let best = argmax column first rest in
      elim (Bool-cases batch) [
        | inl all_best ↦
            let p : ℕ → Bool = λ i. priority_of column i == priority_of column best in
            let same : inds ≡ filter p (first ∷ rest) = ground arith in
            rw same (
              filter-IsDistinct p (first ∷ rest) d,
              λ i h. ground (arith, contains-filter p i (first ∷ rest)),
            )
        | inr one ↦
            let same : inds ≡ best ∷ [] = ground arith in
            rw same (
              (refl, tt),
              λ i h.
                  (let at : i ≡ best = ground arith in
                    subst (λ x. contains x (first ∷ rest) ≡ true) (sym at)
                      (argmax-contains column first rest)),
            )
      ]
]

points_by_priority-AreChosen :
    (H : Columns) (points : List Bool) (batch : Bool) (inds : List ℕ)
    → points_by_priority H points batch ≡ some inds
    → AreChosen points inds
unfolding points_by_priority
points_by_priority-AreChosen H points batch inds e =
    let part : IsPart (nonzero_from 0 points) inds =
      pick_points-IsPart H batch (nonzero_from 0 points) inds (nonzero_from-IsDistinct 0 points)
        e in
    (part.0, λ i here. ground (arith, part.1 i here, nonzero_from-contains 0 points i))

clear_from-is_open :
    (k : ℕ) (inds : List ℕ) (bs : List Bool) (i : ℕ)
    → is_open (clear_from k inds bs) i ≡ (is_open bs i && not (contains (k + i) inds))
unfolding clear_from
clear_from-is_open k inds [] i = refl
clear_from-is_open k inds (b ∷ bs) zero = ground arith
clear_from-is_open k inds (b ∷ bs) (suc i) = ground (arith, clear_from-is_open (k + 1) inds bs i)

-- The rows that a dictionary of work gives out.
abbrev pub all_rows : Works → List ℕ
all_rows [] = []
all_rows ((wid, work) ∷ works) = work.libe_info.H_rows ++ all_rows works

abbrev pub worker_ids : Works → List ℕ
worker_ids works = map (λ entry. entry.0) works

-- What holds of the work that the loop gives out.
abbrev pub AreGiven : List Bool → List ℕ → Works → Type 0
AreGiven points wids works =
    AreChosen points (all_rows works)
    × IsDistinct (worker_ids works)
    × ((wid : ℕ) → contains wid (worker_ids works) ≡ true → contains wid wids ≡ true)

none_given :
    (points : List Bool) (wids : List ℕ) (works : Works) → works ≡ [] → AreGiven points wids works
none_given points wids works same =
    rw same ((tt, λ i h. absurd (ground arith)), tt, λ i h. absurd (ground arith))

one_given :
    (points : List Bool) (wid : ℕ) (wids inds : List ℕ) (work : WorkRecord) (works : Works)
    → contains wid wids ≡ false
    → work.libe_info.H_rows ≡ inds
    → AreChosen points inds
    → AreGiven (clear_from 0 inds points) wids works
    → AreGiven points (wid ∷ wids) ((wid, work) ∷ works)
one_given points wid wids inds work works fresh rows chosen (later, distinct, among) = rw rows (
  (
    append-IsDistinct inds (all_rows works) chosen.0 later.0 (λ i here.
        absent_of_not i (all_rows works)
          (λ there. ground (arith, later.1 i there, clear_from-is_open 0 inds points i))),
    λ i here. ground (
      arith,
      contains-append i inds (all_rows works),
      chosen.1 i,
      later.1 i,
      clear_from-is_open 0 inds points i,
    ),
  ),
  (absent_of_not wid (worker_ids works) (λ there. ground (arith, among wid there)), distinct),
  λ w here. ground (arith, among w),
)

module _ (sets : SetOrder) (procs_per_rset gpus_per_rset : ℕ) where
  pub sim_work-H_rows :
      (s : AllocSupport) (wid : ℕ) (H : Columns) (inds : List ℕ) (work : WorkRecord)
      → (sim_work sets procs_per_rset gpus_per_rset s wid H inds no_info).0 ≡ ok work
      → work.libe_info.H_rows ≡ inds
  unfolding sim_work
  sim_work-H_rows s wid H inds work e =
      elim (Outcome-cases
        (update_rset_team sets s no_info wid
          (req_resources_sim procs_per_rset gpus_per_rset H inds)).0) [
            | inl (info, made) ↦ ground arith
            | inr (x, failed) ↦ absurd (ground arith)
          ]

  -- The simulations that are given out in one call, to workers that are all different: no row is given
  -- twice, every row was still to be evaluated, and every worker is one of them and gets one piece of work.
  pub give_sims-AreGiven :
      (s : AllocSupport) (H : Columns) (batch : Bool) (points : List Bool) (wids : List ℕ)
      (works : Works)
      → IsDistinct wids
      → give_sims sets procs_per_rset gpus_per_rset s H batch points wids ≡ ok works
      → AreGiven points wids works
  unfolding give_sims
  give_sims-AreGiven s H batch points [] works d e =
      let same : works ≡ [] = ground arith in none_given points [] works same
  give_sims-AreGiven s H batch points (wid ∷ wids) works d e =
      elim (Option-cases (points_by_priority H points batch)) [
        | inl nowhere ↦ absurd (ground arith)
        | inr (inds, picked) ↦
            let given = sim_work sets procs_per_rset gpus_per_rset s wid H inds no_info in
            let chosen : AreChosen points inds =
              points_by_priority-AreChosen H points batch inds picked in
            let left = clear_from 0 inds points in
            elim (Outcome-cases given.0) [
              | inr (x, failed) ↦ elim (Bool-cases (is_free_shortage x)) [
                | inl short ↦
                    let same : works ≡ [] = ground arith in
                    none_given points (wid ∷ wids) works same
                | inr other ↦ absurd (ground arith)
              ]
              | inl (work, made) ↦
                  let rows : work.libe_info.H_rows ≡ inds =
                    sim_work-H_rows s wid H inds work made in
                  elim (Bool-cases (any (λ b. b) left)) [
                    | inr last ↦
                        let same : works ≡ (wid, work) ∷ [] = ground arith in
                        rw same (
                          one_given points wid wids inds work [] d.0 rows chosen
                            (none_given left wids [] refl))
                    | inl going ↦
                        elim (Outcome-cases
                          (give_sims sets procs_per_rset gpus_per_rset given.1 H batch left wids)) [
                            | inr (x, failed) ↦ absurd (ground arith)
                            | inl (more, got) ↦
                                let same : works ≡ (wid, work) ∷ more = ground arith in
                                rw same (
                                  one_given points wid wids inds work more d.0 rows chosen
                                    (give_sims-AreGiven given.1 H batch left wids more d.1 got))
                          ]
                  ]
            ]
      ]
