-- ===== src/Resources/Scheduler/Grants.antt =====
-- What `assign_resources` hands out.
use libensemble.Base.{
  ℕ, ◌-◌, ◌*◌, ◌≤◌, ◌<◌, ◌≡◌, refl, ◌∙◌, inl, inr, Bool, true, ◌&&◌, not, List, [], ◌∷◌, map,
  Option, none, some, ok, arith, ◌==◌, ltb, length, get_elem?, contains, IsDistinct, All,
  Bool-cases, Option-cases, Outcome-cases, mem_head, mem_tail, All-mono, subst, AreDisjoint,
  absent_of_not,
}
use libensemble.Resources.RSets.Groups.{AreKeys}
use libensemble.Resources.Assignment.{ManRSet, ResourceManager}
use libensemble.Resources.Scheduler.Avail.{
  ByGroup, filter_for_rset_type, filter_out_rset_team, fltr_gpus, keep_ids, get_sorted_lens,
  get_avail_slots_by_group,
}
use libensemble.Resources.Scheduler.Fit.{calc_even_split_uneven_groups}
use libensemble.Resources.Scheduler.Matching.{SetOrder}
use libensemble.Resources.Scheduler.Groups.{
  IsFreeIn, IsGrouped, all_ids, All-IsSound_mono, all_ids-keep_ids, keep_ids-IsGrouped,
  free_by_group-IsGrouped,
}
use libensemble.Resources.Scheduler.Teams.{IsTeam, HasSlot}
use libensemble.Resources.Scheduler.Matched.{slots_IsGrouped, assign_team_from_slots-IsTeam, apart}
use libensemble.Resources.Scheduler.AnyTeams.{find_rsets_any_slots-IsTeam}
use libensemble.Resources.Scheduler.Bounds.{calc_even_split_uneven_groups-Splits}
use libensemble.Resources.Scheduler.Rounds.{calc_req_split-cases}
use libensemble.Resources.Scheduler.Choices.{choose_slots-IsChoice}
use libensemble.Resources.Scheduler.{
  ResourceScheduler, check_total_rsets, get_avail_rsets_by_group, choose_slots, matching_team,
  any_team, find_team, commit, init_scheduler, assign_resources, by_kind,
}

-- The resource set of ID `i` has GPUs as asked for.

abbrev pub IsOfType : List ManRSet → Option Bool → ℕ → Type 0
IsOfType rsets none i = Unit {0}
IsOfType rsets (some use_gpus) i = (r : ManRSet) → get_elem? rsets i ≡ some r → r.gpus ≡ use_gpus

-- The IDs that the scheduler counts as available are free resource sets, under their groups.
abbrev pub IsAvail : ResourceScheduler → Type 0
IsAvail s = IsGrouped (IsFreeIn s.resources.rsets) (get_avail_rsets_by_group s)

abbrev pub IsCandidate : List ManRSet → ByGroup → Option Bool → ℕ → ℕ → Type 0
IsCandidate rsets avail use_gpus g i =
    IsFreeIn rsets g i × (contains i (all_ids avail) ≡ true) × IsOfType rsets use_gpus i

module _ (sets : SetOrder) (s : ResourceScheduler)
    (keyed : AreKeys (map (λ r. r.rset) s.resources.rsets)) (P : ℕ → ℕ → Type 0)
    (free_in : (g i : ℕ) → P g i → IsFreeIn s.resources.rsets g i) (valid : ByGroup)
    (grouped : IsGrouped P valid) (params : List ℕ) where
  abbrev Serves : ℕ → List ℕ → Type 0
  Serves req team = IsTeam P team × (length team ≡ req)

  matching_team-Serves :
      (max_even req ng per : ℕ) (team : List ℕ)
      → ng * per ≡ req
      → matching_team sets s valid params max_even req ng per ≡ ok team
      → Serves req team
  unfolding matching_team
  matching_team-Serves max_even req ng per team total e =
      let rsets = s.resources.rsets in
      let Q = HasSlot (map (λ r. r.rset) rsets) P (apart rsets P free_in keyed) in
      let slots = get_avail_slots_by_group rsets valid in
      let lens = get_sorted_lens valid in
      elim (Outcome-cases (choose_slots s slots lens params max_even req ng per)) [
        | inr (err, raised) ↦ absurd (ground arith)
        | inl (chosen, found) ↦
            let (d, n, is_match, sum) =
              choose_slots-IsChoice Q slots (slots_IsGrouped rsets P free_in keyed valid grouped) s
                lens params max_even req ng per chosen total found in
            let (team', assigned, size, is_team) =
              assign_team_from_slots-IsTeam rsets P free_in keyed sets d n chosen.1 chosen.0
                is_match in
            let made : team' ≡ team = ground arith in rw (← made) (is_team, size ∙ sum)
      ]

  any_team-Serves :
      (size max_even req ng per : ℕ) (team : List ℕ)
      → any_team s valid params size max_even req ng per ≡ ok team
      → Serves req team
  unfolding any_team
  any_team-Serves size max_even req ng per team e =
      let disjoint = apart s.resources.rsets P free_in keyed in
      let lens = get_sorted_lens valid in
      let n = s.resources.num_groups in
      elim (Bool-cases (s.split2fit && ltb max_even per)) [
        | inr stays ↦
            find_rsets_any_slots-IsTeam P disjoint valid size req ng per grouped (ground arith)
        | inl splits ↦
            elim (Outcome-cases (calc_even_split_uneven_groups max_even ng req lens n params)) [
              | inr (err, raised) ↦ absurd (ground arith)
              | inl (fit, found) ↦
                  let (same, _, _, _) =
                    calc_even_split_uneven_groups-Splits max_even ng req lens n params found in
                  let (is_team, total) =
                    find_rsets_any_slots-IsTeam P disjoint valid size fit.rsets_req fit.num_groups
                      fit.per_group {team = team} grouped (ground arith) in
                  (is_team, total ∙ same)
            ]
      ]

valid_IsGrouped :
    (rsets : List ManRSet) (avail : ByGroup) (use_gpus : Option Bool)
    → IsGrouped (IsFreeIn rsets) avail
    → IsGrouped (IsCandidate rsets avail use_gpus) (filter_for_rset_type rsets avail use_gpus)
unfolding filter_for_rset_type fltr_gpus
valid_IsGrouped rsets avail none h = (
  All-IsSound_mono (IsFreeIn rsets) (IsCandidate rsets avail none) avail
      (λ g i m free. (free, m, tt)) h.0,
  h.1,
)
valid_IsGrouped rsets avail (some use_gpus) h =
    let p = λ (i : ℕ). not (fltr_gpus rsets use_gpus i) in
    let kept = keep_ids-IsGrouped (IsFreeIn rsets) p avail h in
    (
      All-IsSound_mono (IsFreeIn rsets) (IsCandidate rsets avail (some use_gpus)) (keep_ids p avail)
          (λ g i m free. (
            free,
            ground (arith, all_ids-keep_ids p avail i),
            λ r at. ground (arith, all_ids-keep_ids p avail i),
          ))
          kept.0,
      kept.1,
    )

find_team_lem :
    (sets : SetOrder) (s : ResourceScheduler) (avail : ByGroup) (req : ℕ) (use_gpus : Option Bool)
    (params team : List ℕ)
    → 0 < req
    → AreKeys (map (λ r. r.rset) s.resources.rsets)
    → IsGrouped (IsFreeIn s.resources.rsets) avail
    → find_team sets s avail req use_gpus params ≡ ok team
    → IsTeam (IsCandidate s.resources.rsets avail use_gpus) team × (req ≤ length team)
unfolding find_team
find_team_lem sets s avail req use_gpus params team h keyed grouped e =
    let m = s.resources in
    let size = by_kind use_gpus m.rsets_per_node m.gpu_rsets_per_node m.nongpu_rsets_per_node in
    let valid = filter_for_rset_type m.rsets avail use_gpus in
    let P = IsCandidate m.rsets avail use_gpus in
    let sound = valid_IsGrouped m.rsets avail use_gpus grouped in
    elim (calc_req_split-cases req size m.num_groups h) [
      | inr raised ↦ absurd (ground arith)
      | inl (fit, found, covers) ↦
          elim (Option-cases (get_elem? (get_sorted_lens valid) (fit.num_groups - 1))) [
            | inl missing ↦ absurd (ground arith)
            | inr (max_even, there) ↦ elim (Bool-cases s.match_slots) [
              | inl matching ↦
                  let (is_team, total) =
                    matching_team-Serves sets s keyed P (λ g i c. c.0) valid sound params max_even
                      fit.rsets_req fit.num_groups fit.per_group team covers.2 (ground arith) in
                  (is_team, omega (arith, covers.0))
              | inr free ↦
                  let (is_team, total) =
                    any_team-Serves sets s keyed P (λ g i c. c.0) valid sound params size max_even
                      fit.rsets_req fit.num_groups fit.per_group team (ground arith) in
                  (is_team, omega (arith, covers.0))
            ]
          ]
    ]

-- What the caller is told, and how the scheduler changes, when a team is granted: the team has as
-- many resource sets as asked for at least, none twice; each was available, is free and of the type
-- asked for; and they alone are no longer available.
pub record IsGrant (s : ResourceScheduler) (req : ℕ) (use_gpus : Option Bool) (team : List ℕ)
    (s' : ResourceScheduler) : Type 0 where
  pub enough : req ≤ length team
  pub distinct : IsDistinct team
  pub members :
      All
        (λ i. (g : ℕ) × IsCandidate s.resources.rsets (get_avail_rsets_by_group s) use_gpus g i)
        team
  pub removed :
      (i : ℕ)
      → contains i (all_ids (get_avail_rsets_by_group s'))
        ≡ (contains i (all_ids (get_avail_rsets_by_group s)) && not (contains i team))
  pub resources : s'.resources ≡ s.resources

commit_avail :
    (s : ResourceScheduler) (avail : ByGroup) (use_gpus : Option Bool) (team : List ℕ)
    → get_avail_rsets_by_group (commit s avail use_gpus team) ≡ filter_out_rset_team avail team
unfolding get_avail_rsets_by_group commit
commit_avail s avail use_gpus team = refl

commit_resources :
    (s : ResourceScheduler) (avail : ByGroup) (use_gpus : Option Bool) (team : List ℕ)
    → (commit s avail use_gpus team).resources ≡ s.resources
unfolding commit
commit_resources s avail use_gpus team = refl

All-of_members : (P : ℕ → Type 0) (xs : List ℕ) → ((i : ℕ) → contains i xs ≡ true → P i) → All P xs
All-of_members P [] h = tt
All-of_members P (x ∷ xs) h =
    (h x (mem_head x xs), All-of_members P xs (λ i m. h i (mem_tail i x xs m)))

commit-IsGrant :
    (s : ResourceScheduler) (req : ℕ) (use_gpus : Option Bool) (team : List ℕ)
    → let avail = get_avail_rsets_by_group s in
      IsTeam (IsCandidate s.resources.rsets avail use_gpus) team
      → req ≤ length team
      → IsGrant s req use_gpus team (commit s avail use_gpus team)
unfolding filter_out_rset_team
commit-IsGrant s req use_gpus team is_team enough =
    let avail = get_avail_rsets_by_group s in
    record {
      enough = enough;
      distinct = is_team.0;
      members = All-of_members _ team is_team.1;
      removed = λ i.
          rw (commit_avail s avail use_gpus team)
            (all_ids-keep_ids (λ rid. not (contains rid team)) avail i);
      resources = commit_resources s avail use_gpus team;
    }

-- When `assign_resources` returns a team, it is a grant: enough distinct resource sets that were
-- available, free and of the type asked for, which are taken out of the available ones. Needed for
-- that: group and slot tell the resource sets apart, and the available ones are free to begin with.
pub assign_resources-IsGrant :
    (sets : SetOrder) (s : ResourceScheduler) (req : ℕ) (use_gpus : Option Bool) (params : List ℕ)
    {team : List ℕ} {s' : ResourceScheduler}
    → AreKeys (map (λ r. r.rset) s.resources.rsets)
    → IsAvail s
    → assign_resources sets s req use_gpus params ≡ (ok team, s')
    → IsGrant s req use_gpus team s'
unfolding assign_resources
assign_resources-IsGrant sets s req use_gpus params {team} {s'} keyed avail e =
    elim (Bool-cases (req == 0)) [
      | inl nothing ↦
          let same_team : [] ≡ team = ground arith in
          let same : s ≡ s' = ground arith in
          rw (← same_team, ← same)
            (record {
              enough = ground arith;
              distinct = tt;
              members = tt;
              removed = λ i. ground arith;
              resources = refl;
            })
      | inr some_req ↦ elim (Outcome-cases (check_total_rsets s req use_gpus)) [
        | inr (err, raised) ↦ absurd (ground arith)
        | inl (_, passed) ↦
            let d = get_avail_rsets_by_group s in
            elim (Outcome-cases (find_team sets s d req use_gpus params)) [
              | inr (err, raised) ↦ absurd (ground arith)
              | inl (team', found) ↦
                  let same_team : team' ≡ team = ground arith in
                  let same : commit s d use_gpus team' ≡ s' = ground arith in
                  let (is_team, enough) =
                    find_team_lem sets s d req use_gpus params team' (ground arith) keyed avail
                      found in
                  rw (← same, ← same_team) (commit-IsGrant s req use_gpus team' is_team enough)
            ]
      ]
    ]

commit-IsAvail :
    (s : ResourceScheduler) (use_gpus : Option Bool) (team : List ℕ)
    → IsAvail s
    → IsAvail (commit s (get_avail_rsets_by_group s) use_gpus team)
unfolding commit get_avail_rsets_by_group filter_out_rset_team
commit-IsAvail s use_gpus team avail =
    keep_ids-IsGrouped (IsFreeIn s.resources.rsets) (λ rid. not (contains rid team))
      (get_avail_rsets_by_group s) avail

cached-IsAvail :
    (s : ResourceScheduler)
    → IsAvail s
    → IsAvail (record s { avail_rsets_by_group = some (get_avail_rsets_by_group s) })
unfolding get_avail_rsets_by_group
cached-IsAvail s avail = avail

-- A call keeps the available resource sets free ones under their groups, also when it raises.
pub assign_resources-IsAvail :
    (sets : SetOrder) (s : ResourceScheduler) (req : ℕ) (use_gpus : Option Bool) (params : List ℕ)
    → IsAvail s
    → IsAvail (assign_resources sets s req use_gpus params).1
unfolding assign_resources
assign_resources-IsAvail sets s req use_gpus params avail = elim (Bool-cases (req == 0)) [
  | inl nothing ↦ rw (nothing, assign_resources) avail
  | inr some_req ↦ elim (Outcome-cases (check_total_rsets s req use_gpus)) [
    | inr (err, raised) ↦ rw (some_req, raised, assign_resources) avail
    | inl (_, passed) ↦
        let d = get_avail_rsets_by_group s in
        elim (Outcome-cases (find_team sets s d req use_gpus params)) [
          | inr (err, raised) ↦
              rw (some_req, passed, raised, assign_resources) (cached-IsAvail s avail)
          | inl (team, found) ↦
              rw (some_req, passed, found, assign_resources) (commit-IsAvail s use_gpus team avail)
        ]
  ]
]

-- A scheduler that has not been asked yet counts free resource sets as available.
pub init_scheduler-IsAvail :
    (m : ResourceManager) (split2fit match_slots : Option Bool)
    → IsAvail (init_scheduler m split2fit match_slots)
unfolding init_scheduler get_avail_rsets_by_group
init_scheduler-IsAvail m split2fit match_slots = free_by_group-IsGrouped m.rsets

All-contains :
    (xs ys : List ℕ)
    → All (λ i. contains i ys ≡ true) xs
    → (a : ℕ) → contains a xs ≡ true
    → contains a ys ≡ true
All-contains [] ys h a m = absurd cc
All-contains (x ∷ xs) ys h a m = elim (Bool-cases (a == x)) [
  | inl same ↦ let e : a ≡ x = ground arith in rw e h.0
  | inr other ↦ All-contains xs ys h.1 a (ground arith)
]

grant_available :
    (s : ResourceScheduler) (req : ℕ) (use_gpus : Option Bool) (team : List ℕ)
    (s' : ResourceScheduler)
    → IsGrant s req use_gpus team s'
    → (a : ℕ) → contains a team ≡ true
    → contains a (all_ids (get_avail_rsets_by_group s)) ≡ true
grant_available s req use_gpus team s' grant =
    All-contains team _ (All-mono _ _ team (λ i c. c.1.1) grant.members)

-- Two teams that a scheduler grants one after the other, as an allocation function does for two
-- workers, have no resource set in common.
pub assign_resources_twice :
    (sets : SetOrder) (s : ResourceScheduler) (req req' : ℕ) (use_gpus use_gpus' : Option Bool)
    (params params' : List ℕ) {team team' : List ℕ} {s' s'' : ResourceScheduler}
    → AreKeys (map (λ r. r.rset) s.resources.rsets)
    → IsAvail s
    → assign_resources sets s req use_gpus params ≡ (ok team, s')
    → assign_resources sets s' req' use_gpus' params' ≡ (ok team', s'')
    → AreDisjoint team team'
assign_resources_twice sets s req req' use_gpus use_gpus' params params' {team} {team'} {s'} {s''}
      keyed avail e e' a m =
    let grant = assign_resources-IsGrant sets s req use_gpus params keyed avail e in
    let avail' : IsAvail s' =
      subst (λ r. IsAvail r.1) e (assign_resources-IsAvail sets s req use_gpus params avail) in
    let grant' =
      assign_resources-IsGrant sets s' req' use_gpus' params' (rw grant.resources keyed) avail'
        e' in
    absent_of_not a team' (λ m'.
      ground (arith, grant.removed a, grant_available s' req' use_gpus' team' s'' grant' a m'))
