-- ===== src/Alloc/Sequence.antt =====
-- libensemble/alloc_funcs/fast_alloc.py: the rows that are given out, in order.
use libensemble.Base.{
  ℕ, ◌+◌, ◌≤◌, ◌<◌, ◌≡◌, true, false, List, [], ◌∷◌, ok, ltb, length, arith, Outcome-cases,
  Bool-cases, inl, inr,
}
use libensemble.Resources.Scheduler.Matching.{SetOrder}
use libensemble.Alloc.{Columns}
use libensemble.Alloc.Workers.{skip_canceled_points}
use libensemble.Alloc.Support.{AllocSupport}
use libensemble.Alloc.Work.{sim_work}
use libensemble.Alloc.GiveSims.{Works, no_info, is_free_shortage}
use libensemble.Alloc.Given.{is_open, sim_work-H_rows}
use libensemble.Alloc.Choice.{skip_canceled_points_lem}
use libensemble.Alloc.InOrder.{cancelled, fast_sims}

-- The rows from one on and before another are all cancelled.

abbrev pub AreCancelled : Columns → ℕ → ℕ → Type 0
AreCancelled H from to = (i : ℕ) → from ≤ i → i < to → is_open (cancelled H) i ≡ true

-- Entries with one row each, in order, of rows of H that are not cancelled; from a row on and up to
-- another, all rows that are left out are cancelled.
abbrev pub AreNext : Columns → ℕ → ℕ → Works → Type 0
AreNext H from to [] = (from ≤ to) × AreCancelled H from to
AreNext H from to ((wid, work) ∷ works) =
    (row : ℕ) × (work.libe_info.H_rows ≡ row ∷ [])
    × (from ≤ row)
    × (row < length H.points)
    × (is_open (cancelled H) row ≡ false)
    × AreCancelled H from row
    × AreNext H (row + 1) to works

AreCancelled-join :
    (H : Columns) (a b c : ℕ) → AreCancelled H a b → AreCancelled H b c → AreCancelled H a c
AreCancelled-join H a b c first second i low high = elim (Bool-cases (ltb i b)) [
  | inl below ↦ first i low (ground arith)
  | inr above ↦ second i (ground arith) high
]

AreNext-earlier :
    (H : Columns) (from at to : ℕ) (works : Works)
    → from ≤ at
    → AreCancelled H from at
    → AreNext H at to works
    → AreNext H from to works
AreNext-earlier H from at to [] low skipped h =
    (omega (arith, low, h.0), AreCancelled-join H from at to skipped h.1)
AreNext-earlier H from at to ((wid, work) ∷ works) low skipped
      (row, rows, above, inside, meant, between, rest) =
    (
      row,
      rows,
      omega (arith, low, above),
      inside,
      meant,
      AreCancelled-join H from at row skipped between,
      rest,
    )

module _ (sets : SetOrder) (procs_per_rset gpus_per_rset : ℕ) where
  -- The simulations that the first loop of fast_alloc gives out, from next_to_give on: one row each, in
  -- increasing order, rows of H that are not cancelled; rows that are left out before the new next_to_give
  -- are cancelled.
  pub fast_sims-AreNext :
      (s s' : AllocSupport) (H : Columns) (next to : ℕ) (wids : List ℕ) (works : Works)
      → fast_sims sets procs_per_rset gpus_per_rset s H next wids ≡ ok (works, to, s')
      → AreNext H next to works
  unfolding fast_sims
  fast_sims-AreNext s s' H next to [] works e =
      let none_given : works ≡ [] = ground arith in
      let same : to ≡ next = ground arith in
      rw (none_given, same) (omega arith, λ i low high. absurd (omega (arith, low, high)))
  fast_sims-AreNext s s' H next to (wid ∷ wids) works e =
      let at = skip_canceled_points (cancelled H) next in
      let skipped = skip_canceled_points_lem (cancelled H) next in
      elim (Bool-cases (ltb at (length H.points))) [
        | inr none_left ↦
            AreNext-earlier H next at to works skipped.0 skipped.1
              (fast_sims-AreNext s s' H at to wids works (ground arith))
        | inl inside ↦
            let given = sim_work sets procs_per_rset gpus_per_rset s wid H (at ∷ []) no_info in
            elim (Outcome-cases given.0) [
              | inr (x, failed) ↦ elim (Bool-cases (is_free_shortage x)) [
                | inr other ↦ absurd (ground arith)
                | inl shortage ↦
                    let none_given : works ≡ [] = ground arith in
                    let same : to ≡ at = ground arith in
                    rw (none_given, same) (skipped.0, skipped.1)
              ]
              | inl (work, made) ↦
                  elim (Outcome-cases
                    (fast_sims sets procs_per_rset gpus_per_rset given.1 H (at + 1) wids)) [
                      | inr (x, failed) ↦ absurd (ground arith)
                      | inl ((more, last, left), went) ↦
                          let all_given : works ≡ (wid, work) ∷ more = ground arith in
                          let same : to ≡ last = ground arith in
                          rw (all_given, same)
                            (
                              at,
                              sim_work-H_rows sets procs_per_rset gpus_per_rset s wid H (at ∷ [])
                                  work made,
                              skipped.0,
                              ground (arith, inside),
                              skipped.2,
                              skipped.1,
                              fast_sims-AreNext given.1 left H (at + 1) last wids more went,
                            )
                    ]
            ]
      ]
