-- ===== src/Resources/Scheduler/Rounds.antt =====
-- The bound on the rounds of the search for a split is never met.
use libensemble.Base.{
  ℕ, zero, suc, ◌+◌, ◌-◌, ◌*◌, ◌≤◌, ◌<◌, ◌≡◌, ◌≢◌, ◌⊎◌, Bool, true, List, [], ◌∷◌, Option, none,
  some, ok, raise, arith, inl, inr, Option-cases, Outcome-cases, ltb, ◌&&◌, get_elem?, Bool-cases,
  take,
}
use libensemble.Resources.RSets.{RSet, zero_division}
use libensemble.Resources.RSets.Groups.{first_index}
use libensemble.Resources.Scheduler.Avail.{
  ByGroup, get_sorted_lens, get_avail_slots_by_group, filter_for_rset_type,
}
use libensemble.Resources.Scheduler.Fit.{
  Fit, exhausted, python, calc_even_split_uneven_groups, calc_req_split, calc_rsets_even_grps,
}
use libensemble.Resources.Scheduler.Matching.{
  SetOrder, Candidate, get_matching_slots, assign_team_from_slots, slots_team, groups_team,
}
use libensemble.Resources.Scheduler.AnySlots.{find_rsets_any_slots}
use libensemble.Resources.Scheduler.Bounds.{
  Covers, calc_rsets_even_grps-Covers, calc_even_split_uneven_groups-Splits,
  calc_even_split-ne-exhausted,
}
use libensemble.Resources.Scheduler.{
  ResourceScheduler, check_total_rsets, split_loop, choose_slots, matching_team, any_team,
  find_team, assign_resources, by_kind, get_avail_rsets_by_group,
}

factor_pos : (a b : ℕ) → 0 < a * b → 0 < a
factor_pos zero b h = absurd (omega arith)
factor_pos (suc a) b h = omega arith

no_size : (req n : ℕ) → 0 < req → calc_rsets_even_grps req 0 n true ≡ raise (python zero_division)
unfolding calc_rsets_even_grps
no_size req n h = ground arith

-- A split over `num_groups` groups takes one resource set of each at least.
groups_le_req : (req num per : ℕ) → 0 < req → num * per ≡ req → num ≤ req
groups_le_req req num zero h e = absurd (omega arith)
groups_le_req req num (suc per) h e = omega arith

module _ (slots : ByGroup) (max_even : ℕ) (lens : List ℕ) (num_groups : ℕ) (params : List ℕ)
    (req : ℕ) (some_req : 0 < req) where
  split_loop-ne-exhausted :
      (left ng : ℕ)
      → ng ≤ req + 1
      → req + 1 < left + ng
      → split_loop left slots max_even lens num_groups params req ng ≢ raise exhausted
  unfolding split_loop
  split_loop-ne-exhausted zero ng h k = absurd (omega arith)
  split_loop-ne-exhausted (suc left) ng h k =
      elim (Outcome-cases (calc_even_split_uneven_groups max_even ng req lens num_groups params)) [
        | inr (e, raised) ↦
            ground (arith, calc_even_split-ne-exhausted max_even ng req lens num_groups params)
        | inl (fit, found) ↦
            let (_, split, _, wider) =
              calc_even_split_uneven_groups-Splits max_even ng req lens num_groups params found in
            let few : fit.num_groups ≤ req =
              groups_le_req req fit.num_groups fit.per_group some_req split in
            elim (Option-cases (get_matching_slots slots fit.num_groups fit.per_group)) [
              | inl absent ↦ ground (arith, split_loop-ne-exhausted left (fit.num_groups + 1))
              | inr (cand, there) ↦ ground arith
            ]
      ]

slots_team-ne-exhausted :
    (rs : List RSet) (grp : ℕ) (slots : List ℕ) → slots_team rs grp slots ≢ raise exhausted
unfolding slots_team
slots_team-ne-exhausted rs grp [] = ground arith
slots_team-ne-exhausted rs grp (slot ∷ slots) =
    ground (arith, slots_team-ne-exhausted rs grp slots, Option-cases (first_index grp slot rs))

groups_team-ne-exhausted :
    (rs : List RSet) (groups slots : List ℕ) → groups_team rs groups slots ≢ raise exhausted
unfolding groups_team
groups_team-ne-exhausted rs [] slots = ground arith
groups_team-ne-exhausted rs (grp ∷ groups) slots =
    ground (arith, slots_team-ne-exhausted rs grp slots, groups_team-ne-exhausted rs groups slots)

assign_team-ne-exhausted :
    (sets : SetOrder) (rs : List RSet) (cand : Candidate) (per : ℕ)
    → assign_team_from_slots sets rs cand per ≢ raise exhausted
unfolding assign_team_from_slots
assign_team-ne-exhausted sets rs cand per =
    ground
      (arith, groups_team-ne-exhausted rs cand.cand_groups (take per (sets.order cand.cand_slots)))

find_rsets_any_slots-ne-exhausted :
    (d : ByGroup) (size req ng per : ℕ) → find_rsets_any_slots d size req ng per ≢ raise exhausted
unfolding find_rsets_any_slots
find_rsets_any_slots-ne-exhausted d size req ng per = ground arith

module _ (s : ResourceScheduler) (params : List ℕ) where
  choose_slots-ne-exhausted :
      (slots : ByGroup) (lens : List ℕ) (max_even req ng per : ℕ)
      → 0 < req
      → 0 < ng
      → ng ≤ req
      → choose_slots s slots lens params max_even req ng per ≢ raise exhausted
  unfolding choose_slots
  choose_slots-ne-exhausted slots lens max_even req ng per h k l = ground (
    arith,
    split_loop-ne-exhausted slots max_even lens s.resources.num_groups params req h (req + 1) ng,
  )

  any_team-ne-exhausted :
      (valid : ByGroup) (size max_even req ng per : ℕ)
      → any_team s valid params size max_even req ng per ≢ raise exhausted
  unfolding any_team
  any_team-ne-exhausted valid size max_even req ng per =
      elim (Bool-cases (s.split2fit && ltb max_even per)) [
        | inr stays ↦ rw stays (find_rsets_any_slots-ne-exhausted valid size req ng per)
        | inl splits ↦
            rw splits
              (elim (Outcome-cases (
                calc_even_split_uneven_groups max_even ng req (get_sorted_lens valid)
                  s.resources.num_groups params)) [
                    | inl (fit, found) ↦ rw found (
                        find_rsets_any_slots-ne-exhausted valid size fit.rsets_req fit.num_groups
                          fit.per_group)
                    | inr (e, raised) ↦ ground (
                      arith,
                      calc_even_split-ne-exhausted max_even ng req (get_sorted_lens valid)
                          s.resources.num_groups params,
                    )
                  ])
      ]

-- The fits that a request is broken down into.
abbrev IsFit : Fit → Type 0
IsFit fit = (0 < fit.rsets_req) × (0 < fit.num_groups) × (fit.num_groups ≤ fit.rsets_req)

fit_of_Covers : (req size : ℕ) (fit : Fit) → 0 < req → Covers req size fit → IsFit fit
fit_of_Covers req size fit h (enough, _, split, some_per, _) = (
  omega arith,
  factor_pos fit.num_groups fit.per_group (omega arith),
  groups_le_req fit.rsets_req fit.num_groups fit.per_group (omega arith) split,
)

pub calc_req_split-cases :
    (req size n : ℕ)
    → 0 < req
    → ((fit : Fit) × (calc_req_split req size n true ≡ ok fit) × Covers req size fit)
      ⊎ (calc_req_split req size n true ≡ raise (python zero_division))
unfolding calc_req_split
calc_req_split-cases req zero n h = inr (no_size req n h)
calc_req_split-cases req (suc size) n h =
    let (fit, found, covers) = calc_rsets_even_grps-Covers req (suc size) n h (omega arith) in
    inl (fit, found, covers)

module _ (sets : SetOrder) where
  matching_team-ne-exhausted :
      (s : ResourceScheduler) (valid : ByGroup) (params : List ℕ) (max_even req ng per : ℕ)
      → 0 < req
      → 0 < ng
      → ng ≤ req
      → matching_team sets s valid params max_even req ng per ≢ raise exhausted
  unfolding matching_team
  matching_team-ne-exhausted s valid params max_even req ng per h k l =
      let slots = get_avail_slots_by_group s.resources.rsets valid in
      let lens = get_sorted_lens valid in
      elim (Outcome-cases (choose_slots s slots lens params max_even req ng per)) [
        | inl (chosen, found) ↦ rw found (assign_team-ne-exhausted sets _ chosen.0 chosen.1)
        | inr (e, raised) ↦
            ground (arith, choose_slots-ne-exhausted s params slots lens max_even req ng per)
      ]

  find_team-ne-exhausted :
      (s : ResourceScheduler) (avail : ByGroup) (req : ℕ) (use_gpus : Option Bool) (params : List ℕ)
      → 0 < req
      → find_team sets s avail req use_gpus params ≢ raise exhausted
  unfolding find_team
  find_team-ne-exhausted s avail req use_gpus params h =
      let m = s.resources in
      let size = by_kind use_gpus m.rsets_per_node m.gpu_rsets_per_node m.nongpu_rsets_per_node in
      let valid = filter_for_rset_type m.rsets avail use_gpus in
      elim (calc_req_split-cases req size m.num_groups h) [
        | inr raised ↦ ground arith
        | inl (fit, found, covers) ↦
            let is_fit = fit_of_Covers req size fit h covers in
            elim (Option-cases (get_elem? (get_sorted_lens valid) (fit.num_groups - 1))) [
              | inl absent ↦ ground arith
              | inr (max_even, there) ↦ ground (
                arith,
                matching_team-ne-exhausted s valid params max_even fit.rsets_req fit.num_groups
                    fit.per_group,
                any_team-ne-exhausted s params valid size max_even fit.rsets_req fit.num_groups
                    fit.per_group,
              )
            ]
      ]

check_total_rsets-ne-exhausted :
    (s : ResourceScheduler) (req : ℕ) (use_gpus : Option Bool)
    → check_total_rsets s req use_gpus ≢ raise exhausted
unfolding check_total_rsets
check_total_rsets-ne-exhausted s req none = ground arith
check_total_rsets-ne-exhausted s req (some gpus) = ground arith

-- The search for resource sets ends: the bound on its rounds, one more than the resource sets that
-- are to be split, is never met, for any state of the scheduler and any request.
pub assign_resources-ne-exhausted :
    (sets : SetOrder) (s : ResourceScheduler) (req : ℕ) (use_gpus : Option Bool) (params : List ℕ)
    → (assign_resources sets s req use_gpus params).0 ≢ raise exhausted
unfolding assign_resources
assign_resources-ne-exhausted sets s req use_gpus params = ground (
  arith,
  check_total_rsets-ne-exhausted s req use_gpus,
  find_team-ne-exhausted sets s (get_avail_rsets_by_group s) req use_gpus params,
)
