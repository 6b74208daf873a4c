-- ===== src/Resources/Scheduler/AnySlots.antt =====
-- libensemble/resources/scheduler.py: teams whose slots need not match.
use libensemble.Base.{
  ℕ, zero, suc, ◌+◌, ◌&&◌, not, List, [], ◌∷◌, ◌++◌, map, Option, none, some, Outcome, ok, raise,
  ltb, ◌==◌, if◌then◌else◌, length, filter, take, contains,
}
use libensemble.Resources.Scheduler.Avail.{ByGroup, sorted}
use libensemble.Resources.Scheduler.Fit.{SchedulerError, insufficient_free_resources}

-- The loop of `find_candidate`: `best` is the candidate so far, with its group.

unfoldable pub candidate_loop : List ℕ → ℕ → ℕ → Option (ℕ × List ℕ) → ByGroup → Option (ℕ × List ℕ)
candidate_loop group_list per upper best [] = best
candidate_loop group_list per upper best ((g, ids) ∷ rest) =
    let better = not (contains g group_list) && (ltb per (length ids) && ltb (length ids) upper) in
    let later =
      candidate_loop group_list per (if better then length ids else upper)
        (if better then some (g, take per ids) else best) rest in
    if not (contains g group_list) && length ids == per then some (g, ids) else later

unfoldable pub find_candidate : ByGroup → List ℕ → ℕ → ℕ → Option (ℕ × List ℕ)
unfolding candidate_loop
find_candidate d group_list rsets_per_group max_upper_bound =
    candidate_loop group_list rsets_per_group max_upper_bound none d

-- `tmp_rsets_by_group[cand_group].remove(rset)` for the candidate team.
unfoldable pub remove_team : ℕ → List ℕ → ByGroup → ByGroup
remove_team grp team d =
    map
      (λ item.
        (item.0, if item.0 == grp then filter (λ i. not (contains i team)) item.1 else item.1))
      d

-- The rest of the loop of `find_rsets_any_slots`: the candidates are added to `accum_team`.
unfoldable pub gather : ℕ → ℕ → ℕ → List ℕ → List ℕ → ByGroup → List ℕ
gather zero per upper accum_team group_list d = accum_team
gather (suc left) per upper accum_team group_list d = elim (find_candidate d group_list per upper) [
  | none ↦ gather left per upper accum_team group_list d
  | some (grp, team) ↦
      gather left per upper (accum_team ++ team) (group_list ++ grp ∷ []) (remove_team grp team d)
]

unfoldable pub find_rsets_any_slots : ByGroup → ℕ → ℕ → ℕ → ℕ → Outcome SchedulerError (List ℕ)
find_rsets_any_slots d max_grpsize rsets_req ngroups rsets_per_group =
    let accum_team = gather ngroups rsets_per_group (max_grpsize + 1) [] [] d in
    if length accum_team == rsets_req
    then ok (sorted accum_team)
    else raise insufficient_free_resources
