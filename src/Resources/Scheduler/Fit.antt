-- ===== src/Resources/Scheduler/Fit.antt =====
-- libensemble/resources/scheduler.py: over how many groups a request is spread, and how many
-- resource sets it takes of each.
use libensemble.Base.{
  ℕ, zero, suc, ◌+◌, ◌-◌, ◌*◌, ◌/◌, ◌%◌, Bool, true, false, ◌&&◌, List, [], ◌∷◌, Option, none, some,
  Outcome, ok, raise, ltb, leb, ◌==◌, if◌then◌else◌, get_elem?,
}
use libensemble.Resources.RSets.{PythonError, zero_division, index_error, div_up}

-- `exhausted` is no outcome of the source: the model's bound on the rounds of a loop was too low.

pub data SchedulerError : Type 0 where
  insufficient_resources insufficient_free_resources exhausted : SchedulerError
  python : PythonError → SchedulerError

pub record Fit : Type 0 where
  pub rsets_req : ℕ
  pub num_groups : ℕ
  pub per_group : ℕ

-- The loop that looks for an even partition, over `tmp`, `tmp + 1`, …, as many as `left` says.
unfoldable pub even_partition : ℕ → ℕ → ℕ → Option ℕ
even_partition rsets_req tmp zero = none
even_partition rsets_req tmp (suc left) =
    let rest = even_partition rsets_req (tmp + 1) left in
    if rsets_req % tmp == 0 then some tmp else rest

abbrev pub extended : ℕ → ℕ → Bool → ℕ → Fit
extended rsets_req num_groups extend max_grpsize =
    let per = div_up rsets_req num_groups in
    if extend
    then record { rsets_req = num_groups * per; num_groups = num_groups; per_group = per }
    else record { rsets_req = rsets_req; num_groups = num_groups; per_group = max_grpsize }

unfoldable pub calc_rsets_even_grps : ℕ → ℕ → ℕ → Bool → Outcome SchedulerError Fit
calc_rsets_even_grps rsets_req max_grpsize max_groups extend =
    if rsets_req == 0
    then ok (record { rsets_req = 0; num_groups = 0; per_group = 0 })
    else if max_grpsize == 0
    then raise (python zero_division)
    else let groups = div_up rsets_req max_grpsize in
      if leb groups 1
      then ok (record { rsets_req = rsets_req; num_groups = groups; per_group = rsets_req })
      else elim (even_partition rsets_req groups (max_groups + 1 - groups)) [
        | some even ↦
            ok (record { rsets_req = rsets_req; num_groups = even; per_group = rsets_req / even })
        | none ↦ ok (extended rsets_req groups extend max_grpsize)
      ]

-- Uneven groups are only warned of: both branches call the function for even groups.
unfoldable pub calc_req_split : ℕ → ℕ → ℕ → Bool → Outcome SchedulerError Fit
unfolding calc_rsets_even_grps
calc_req_split rsets_req max_grpsize num_groups extend =
    calc_rsets_even_grps rsets_req max_grpsize num_groups extend

unfoldable pub check_params : List ℕ → ℕ → Bool
check_params [] ngroups = true
check_params (param ∷ params) ngroups =
    if param % ngroups == 0 then check_params params ngroups else false

-- The loop of `calc_even_split_uneven_groups`. `left` is how often `ngroups` may still be raised,
-- `max_grps - ngroups`.
unfoldable pub uneven_loop : ℕ → List ℕ → List ℕ → ℕ → ℕ → ℕ → Outcome SchedulerError Fit
unfolding check_params
uneven_loop req sorted_lens params zero zero ng =
    if 0 == req && check_params params ng
    then ok (record { rsets_req = req; num_groups = ng; per_group = 0 })
    else raise insufficient_free_resources
uneven_loop req sorted_lens params zero (suc per) ng =
    let smaller = uneven_loop req sorted_lens params zero per ng in
    if suc per * ng == req && check_params params ng
    then ok (record { rsets_req = req; num_groups = ng; per_group = suc per })
    else if ltb req (suc per * ng)
    then smaller
    else raise insufficient_free_resources
uneven_loop req sorted_lens params (suc left) zero ng =
    let wider : Outcome SchedulerError Fit = elim (get_elem? sorted_lens ng) [
      | none ↦ raise (python index_error)
      | some per' ↦ uneven_loop req sorted_lens params left per' (ng + 1)
    ] in
    if 0 == req && check_params params ng
    then ok (record { rsets_req = req; num_groups = ng; per_group = 0 })
    else wider
uneven_loop req sorted_lens params (suc left) (suc per) ng =
    let smaller = uneven_loop req sorted_lens params (suc left) per ng in
    let wider : Outcome SchedulerError Fit = elim (get_elem? sorted_lens ng) [
      | none ↦ raise (python index_error)
      | some per' ↦ uneven_loop req sorted_lens params left per' (ng + 1)
    ] in
    if suc per * ng == req && check_params params ng
    then ok (record { rsets_req = req; num_groups = ng; per_group = suc per })
    else if ltb req (suc per * ng)
    then smaller
    else wider

unfoldable pub calc_even_split_uneven_groups :
    ℕ → ℕ → ℕ → List ℕ → ℕ → List ℕ → Outcome SchedulerError Fit
unfolding uneven_loop
calc_even_split_uneven_groups rsets_per_grp ngroups rsets_req sorted_lens max_grps user_params =
    uneven_loop rsets_req sorted_lens user_params (max_grps - ngroups) rsets_per_grp ngroups
