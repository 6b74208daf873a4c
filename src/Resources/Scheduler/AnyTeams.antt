-- ===== src/Resources/Scheduler/AnyTeams.antt =====
-- The search without matching slots finds a team of the dictionary's resource sets.
use libensemble.Base.{
  ℕ, zero, suc, ◌+◌, ◌≡◌, sym, ◌∙◌, true, false, ◌&&◌, not, List, [], ◌∷◌, ◌++◌, Option, none, some,
  ok, arith, if◌then◌else◌, ◌==◌, ltb, length, filter, contains, IsDistinct, All, Bool-cases,
  Option-cases, inl, inr, contains-append, contains-filter, filter-IsDistinct, append-IsDistinct,
  absent_of_not,
}
use libensemble.Resources.Scheduler.Avail.{ByGroup, sorted}
use libensemble.Resources.Scheduler.AnySlots.{
  candidate_loop, find_candidate, remove_team, gather, find_rsets_any_slots,
}
use libensemble.Resources.Scheduler.Groups.{IsSound, IsGrouped, shrink-IsGrouped}
use libensemble.Resources.Scheduler.Teams.{IsTeam}
use libensemble.Resources.Scheduler.Order.{
  contains-sorted, sorted-IsDistinct, length-sorted, contains-take, take-IsDistinct,
}

module _ (P : ℕ → ℕ → Type 0) (apart : (g g' i : ℕ) → P g i → P g' i → g ≡ g') where
  -- A candidate is of a group that has not been used.
  abbrev IsFresh : List ℕ → Option (ℕ × List ℕ) → Type 0
  IsFresh used none = Unit {0}
  IsFresh used (some (g, team)) =
      (contains g used ≡ false) × IsDistinct team × ((i : ℕ) → contains i team ≡ true → P g i)

  candidate_loop-IsFresh :
      (used : List ℕ) (per upper : ℕ) (best : Option (ℕ × List ℕ)) (d : ByGroup)
      → IsFresh used best
      → All (IsSound P) d
      → IsFresh used (candidate_loop used per upper best d)
  unfolding candidate_loop
  candidate_loop-IsFresh used per upper best [] b h = b
  candidate_loop-IsFresh used per upper best ((g, ids) ∷ d) b h =
      elim (Bool-cases (not (contains g used) && length ids == per)) [
        | inl exact ↦ rw exact (ground arith, h.0.0, h.0.1)
        | inr other ↦
            rw other
              (elim (Bool-cases
                (not (contains g used) && (ltb per (length ids) && ltb (length ids) upper))) [
                  | inl better ↦ rw better (
                      candidate_loop-IsFresh used per (length ids) _ d
                        (
                          ground arith,
                          take-IsDistinct per ids h.0.0,
                          λ i m. h.0.1 i (contains-take per i ids m),
                        )
                        h.1)
                  | inr worse ↦ rw worse (candidate_loop-IsFresh used per upper best d b h.1)
                ])
      ]

  remove_team-IsGrouped :
      (grp : ℕ) (team : List ℕ) (d : ByGroup) → IsGrouped P d → IsGrouped P (remove_team grp team d)
  unfolding remove_team
  remove_team-IsGrouped grp team d h =
      shrink-IsGrouped P
        (λ item. if item.0 == grp then filter (λ i. not (contains i team)) item.1 else item.1)
        (λ item i m. elim (Bool-cases (item.0 == grp)) [
          | inl same ↦
              let both = contains-filter (λ i. not (contains i team)) i item.1 in ground arith
          | inr other ↦ ground arith
        ])
        (λ item d. elim (Bool-cases (item.0 == grp)) [
          | inl same ↦ rw same (filter-IsDistinct _ item.1 d)
          | inr other ↦ rw other d
        ])
        d h

  -- The team so far, from the groups that have been used.
  abbrev IsGathered : List ℕ → List ℕ → Type 0
  IsGathered used team =
      IsDistinct team
      × ((i : ℕ) → contains i team ≡ true → (g : ℕ) × (contains g used ≡ true) × P g i)

  add_candidate :
      (used accum : List ℕ) (g : ℕ) (team : List ℕ)
      → IsGathered used accum
      → IsFresh used (some (g, team))
      → IsGathered (used ++ g ∷ []) (accum ++ team)
  add_candidate used accum g team h (unused, once, members) = (
    append-IsDistinct accum team h.0 once (λ i m. absent_of_not i team (λ m'.
        let (g', listed, holds) = h.1 i m in ground (arith, apart g g' i (members i m') holds))),
    λ i m. elim (Bool-cases (contains i accum)) [
      | inl old ↦
          let (g', listed, holds) = h.1 i old in
          (g', ground (arith, contains-append g' used (g ∷ [])), holds)
      | inr new ↦ (
        g,
        ground (arith, contains-append g used (g ∷ [])),
        members i (ground (arith, contains-append i accum team)),
      )
    ],
  )

  gather-IsTeam :
      (left per upper : ℕ) (accum used : List ℕ) (d : ByGroup)
      → IsGathered used accum
      → IsGrouped P d
      → IsTeam P (gather left per upper accum used d)
  unfolding gather find_candidate
  gather-IsTeam zero per upper accum used d a h =
      (a.0, λ i m. let (g, _, holds) = a.1 i m in (g, holds))
  gather-IsTeam (suc left) per upper accum used d a h =
      let fresh = candidate_loop-IsFresh used per upper none d tt h.0 in
      elim (Option-cases (candidate_loop used per upper none d)) [
        | inl absent ↦ rw (absent, gather) (gather-IsTeam left per upper accum used d a h)
        | inr ((g, team), found) ↦
            rw (found, gather)
              (gather-IsTeam left per upper (accum ++ team) (used ++ g ∷ []) (remove_team g team d)
                (add_candidate used accum g team a (rw found at fresh))
                (remove_team-IsGrouped g team d h))
      ]

  pub find_rsets_any_slots-IsTeam :
      (d : ByGroup) (size req ng per : ℕ) {team : List ℕ}
      → IsGrouped P d
      → find_rsets_any_slots d size req ng per ≡ ok team
      → IsTeam P team × (length team ≡ req)
  unfolding find_rsets_any_slots
  find_rsets_any_slots-IsTeam d size req ng per {team} h e =
      let found = gather ng per (size + 1) [] [] d in
      let (once, members) = gather-IsTeam ng per (size + 1) [] [] d (tt, λ i m. absurd cc) h in
      let made : sorted found ≡ team = ground arith in
      rw (← made) (
        (sorted-IsDistinct found once, λ i m. members i (sym (contains-sorted i found) ∙ m)),
        ground (arith, length-sorted found),
      )
