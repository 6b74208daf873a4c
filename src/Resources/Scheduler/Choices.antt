-- ===== src/Resources/Scheduler/Choices.antt =====
-- The slots that are chosen for a team, as they are or by a split.
use libensemble.Base.{
  ℕ, zero, suc, ◌+◌, ◌*◌, ◌≡◌, inl, inr, ◌&&◌, List, some, ok, arith, ltb, Bool-cases, Option-cases,
  Outcome-cases,
}
use libensemble.Resources.Scheduler.Avail.{ByGroup, get_slots_of_len}
use libensemble.Resources.Scheduler.Fit.{calc_even_split_uneven_groups}
use libensemble.Resources.Scheduler.Matching.{Candidate, get_matching_slots}
use libensemble.Resources.Scheduler.Groups.{IsGrouped}
use libensemble.Resources.Scheduler.Combs.{IsMatch, get_matching_slots-IsMatch}
use libensemble.Resources.Scheduler.Bounds.{calc_even_split_uneven_groups-Splits}
use libensemble.Resources.Scheduler.{ResourceScheduler, split_loop, choose_slots}

-- A choice of slots is a match over groups that together give `req` resource sets.

abbrev pub IsChoice : (ℕ → ℕ → Type 0) → ℕ → Candidate × ℕ → Type 0
IsChoice Q req chosen =
    (d : ByGroup) × (n : ℕ) × IsMatch Q d n chosen.1 chosen.0 × (n * chosen.1 ≡ req)

module _ (Q : ℕ → ℕ → Type 0) (slots : ByGroup) (grouped : IsGrouped Q slots) where
  match-IsChoice :
      (n per req : ℕ) (cand : Candidate)
      → n * per ≡ req
      → get_matching_slots slots n per ≡ some cand
      → IsChoice Q req (cand, per)
  match-IsChoice n per req cand e found = (
    get_slots_of_len slots per,
    n,
    rw found at (get_matching_slots-IsMatch Q slots n per grouped),
    e,
  )

  split_loop-IsChoice :
      (left max_even : ℕ) (lens : List ℕ) (num_groups : ℕ) (params : List ℕ) (req ng : ℕ)
      (chosen : Candidate × ℕ)
      → split_loop left slots max_even lens num_groups params req ng ≡ ok chosen
      → IsChoice Q req chosen
  unfolding split_loop
  split_loop-IsChoice zero max_even lens num_groups params req ng chosen e = absurd cc
  split_loop-IsChoice (suc left) max_even lens num_groups params req ng chosen e =
      elim (Outcome-cases (calc_even_split_uneven_groups max_even ng req lens num_groups params)) [
        | inr (err, raised) ↦ absurd (ground arith)
        | inl (fit, split) ↦
            let (_, total, _, _) =
              calc_even_split_uneven_groups-Splits max_even ng req lens num_groups params split in
            elim (Option-cases (get_matching_slots slots fit.num_groups fit.per_group)) [
              | inl absent ↦
                  split_loop-IsChoice left max_even lens num_groups params req (fit.num_groups + 1)
                    chosen (ground arith)
              | inr (cand, found) ↦
                  let made : (cand, fit.per_group) ≡ chosen = ground arith in
                  rw (← made) (match-IsChoice fit.num_groups fit.per_group req cand total found)
            ]
      ]

  pub choose_slots-IsChoice :
      (s : ResourceScheduler) (lens params : List ℕ) (max_even req ng per : ℕ)
      (chosen : Candidate × ℕ)
      → ng * per ≡ req
      → choose_slots s slots lens params max_even req ng per ≡ ok chosen
      → IsChoice Q req chosen
  unfolding choose_slots
  choose_slots-IsChoice s lens params max_even req ng per chosen total e =
      elim (Option-cases (get_matching_slots slots ng per)) [
        | inr (cand, found) ↦
            let made : (cand, per) ≡ chosen = ground arith in
            rw (← made) (match-IsChoice ng per req cand total found)
        | inl absent ↦ elim (Bool-cases (s.split2fit && ltb max_even per)) [
          | inl splits ↦
              split_loop-IsChoice (req + 1) max_even lens s.resources.num_groups params req ng
                chosen (ground arith)
          | inr stays ↦ absurd (ground arith)
        ]
      ]
