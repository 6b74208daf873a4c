-- ===== src/Resources/Scheduler.antt =====
-- libensemble/resources/scheduler.py, class ResourceScheduler. Logging is left out.
pub mod Avail
pub mod Fit
pub mod Matching
pub mod AnySlots
pub mod Bounds
pub mod Rounds
pub mod Order
pub mod Groups
pub mod Combs
pub mod Teams
pub mod Matched
pub mod AnyTeams
pub mod Choices
pub mod Grants
use libensemble.Base.{
  ℕ, zero, suc, ◌+◌, ◌-◌, Bool, true, false, ◌&&◌, ◌||◌, not, List, [], ◌∷◌, map, Option, none,
  some, Outcome, ok, raise, ◌>>=◌, ◌>>◌, or_raise, require, ltb, leb, ◌==◌, if◌then◌else◌, length,
  get_elem?, ℤ, pos, ◌-ℤ◌, ltb_ℤ,
}
use libensemble.Resources.RSets.{index_error}
use libensemble.Resources.Assignment.{ResourceManager}
use Avail.{
  ByGroup, free_by_group, filter_for_rset_type, filter_out_rset_team, get_sorted_lens,
  get_avail_slots_by_group,
}
use Fit.{
  SchedulerError, insufficient_resources, insufficient_free_resources, exhausted, python,
  calc_req_split, calc_even_split_uneven_groups,
}
use Matching.{SetOrder, Candidate, get_matching_slots, assign_team_from_slots}
use AnySlots.{find_rsets_any_slots}

pub record ResourceScheduler : Type 0 where
  pub resources : ResourceManager
  pub split2fit : Bool
  pub match_slots : Bool
  pub rsets_free : ℤ
  pub gpu_rsets_free : ℤ
  pub nongpu_rsets_free : ℤ
  pub avail_rsets_by_group : Option ByGroup

-- `ResourceScheduler.__init__`, with the two options that `sched_opts` may hold.
unfoldable pub init_scheduler : ResourceManager → Option Bool → Option Bool → ResourceScheduler
init_scheduler m split2fit match_slots = record {
  resources = m;
  split2fit = elim split2fit [ none ↦ true | some b ↦ b ];
  match_slots = elim match_slots [ none ↦ true | some b ↦ b ];
  rsets_free = m.rsets_free;
  gpu_rsets_free = m.gpu_rsets_free;
  nongpu_rsets_free = m.nongpu_rsets_free;
  avail_rsets_by_group = none;
}

-- `total` or `free`, by the kind of resource set that is asked for.
abbrev pub by_kind {ℓ} : {A : Type ℓ} → Option Bool → A → A → A → A
by_kind none any gpu nongpu = any
by_kind (some true) any gpu nongpu = gpu
by_kind (some false) any gpu nongpu = nongpu

unfoldable pub check_total_rsets :
    ResourceScheduler → ℕ → Option Bool → Outcome SchedulerError (Unit {0})
check_total_rsets s rsets_req use_gpus = do
  let m = s.resources
  let nrsets = by_kind use_gpus m.total_num_rsets m.total_num_gpu_rsets m.total_num_nongpu_rsets
  let free = by_kind use_gpus s.rsets_free s.gpu_rsets_free s.nongpu_rsets_free
  require (leb rsets_req nrsets) insufficient_resources
  require (not (ltb_ℤ free (pos rsets_req))) insufficient_free_resources

-- The dictionary that the first call caches on the object.
unfoldable pub get_avail_rsets_by_group : ResourceScheduler → ByGroup
get_avail_rsets_by_group s = elim s.avail_rsets_by_group [
  | none ↦ free_by_group s.resources.rsets
  | some d ↦ d
]

-- `while not found_split`, for `match_slots`: `left` bounds the rounds.
unfoldable pub split_loop :
    ℕ → ByGroup → ℕ → List ℕ → ℕ → List ℕ → ℕ → ℕ → Outcome SchedulerError (Candidate × ℕ)
split_loop zero slots max_even sorted_lens num_groups params req ng = raise exhausted
split_loop (suc left) slots max_even sorted_lens num_groups params req ng =
    elim (calc_even_split_uneven_groups max_even ng req sorted_lens num_groups params) [
      | raise e ↦ raise e
      | ok fit ↦ elim (get_matching_slots slots fit.num_groups fit.per_group) [
        | some cand ↦ ok (cand, fit.per_group)
        | none ↦
            split_loop left slots max_even sorted_lens num_groups params req (fit.num_groups + 1)
      ]
    ]

-- The choice of groups and slots for `match_slots`: as they are, or else by a split over more groups.
unfoldable pub choose_slots :
    ResourceScheduler
    → ByGroup
    → List ℕ
    → List ℕ
    → ℕ
    → ℕ
    → ℕ
    → ℕ
    → Outcome SchedulerError (Candidate × ℕ)
choose_slots s slots sorted_lens params max_even req ng per =
    elim (get_matching_slots slots ng per) [
      | some cand ↦ ok (cand, per)
      | none ↦
          if s.split2fit && ltb max_even per
          then split_loop (req + 1) slots max_even sorted_lens s.resources.num_groups params req ng
          else raise insufficient_free_resources
    ]

-- The search without matching slots.
unfoldable pub any_team :
    ResourceScheduler → ByGroup → List ℕ → ℕ → ℕ → ℕ → ℕ → ℕ → Outcome SchedulerError (List ℕ)
any_team s valid params max_grpsize max_even req ng per =
    if s.split2fit && ltb max_even per
    then (do
      fit ←
          calc_even_split_uneven_groups max_even ng req (get_sorted_lens valid)
            s.resources.num_groups params
      find_rsets_any_slots valid max_grpsize fit.rsets_req fit.num_groups fit.per_group)
    else find_rsets_any_slots valid max_grpsize req ng per

-- The updates of the persistent attributes.
unfoldable pub commit : ResourceScheduler → ByGroup → Option Bool → List ℕ → ResourceScheduler
commit s avail use_gpus team =
    let n = pos (length team) in
    record s {
      avail_rsets_by_group = some (filter_out_rset_team avail team);
      rsets_free = s.rsets_free -ℤ n;
      gpu_rsets_free = by_kind use_gpus s.gpu_rsets_free (s.gpu_rsets_free -ℤ n) s.gpu_rsets_free;
      nongpu_rsets_free =
          by_kind use_gpus s.nongpu_rsets_free s.nongpu_rsets_free (s.nongpu_rsets_free -ℤ n);
    }

module _ (sets : SetOrder) where
  -- The search of `assign_resources` for a team with matching slots, in the given dictionary of
  -- resource sets of the right type.
  unfoldable pub matching_team :
      ResourceScheduler → ByGroup → List ℕ → ℕ → ℕ → ℕ → ℕ → Outcome SchedulerError (List ℕ)
  matching_team s valid params max_even req ng per = do
    let rsets = s.resources.rsets
    let slots = get_avail_slots_by_group rsets valid
    chosen ← choose_slots s slots (get_sorted_lens valid) params max_even req ng per
    assign_team_from_slots sets (map (λ r. r.rset) rsets) chosen.0 chosen.1

  -- What `assign_resources` computes between its checks and its updates.
  unfoldable pub find_team :
      ResourceScheduler → ByGroup → ℕ → Option Bool → List ℕ → Outcome SchedulerError (List ℕ)
  find_team s avail rsets_req use_gpus params = do
    let m = s.resources
    let max_grpsize = by_kind use_gpus m.rsets_per_node m.gpu_rsets_per_node m.nongpu_rsets_per_node
    let valid = filter_for_rset_type m.rsets avail use_gpus
    fit ← calc_req_split rsets_req max_grpsize m.num_groups true
    max_even ←
        or_raise (get_elem? (get_sorted_lens valid) (fit.num_groups - 1)) (python index_error)
    require (not (ltb max_even fit.per_group && (not s.split2fit || max_even == 0)))
        insufficient_free_resources
    if s.match_slots
        then matching_team s valid params max_even fit.rsets_req fit.num_groups fit.per_group
        else any_team s valid params max_grpsize max_even fit.rsets_req fit.num_groups fit.per_group

  -- The scheduler is returned on the raising paths too: the cache is filled after the checks.
  unfoldable pub assign_resources :
      ResourceScheduler
      → ℕ
      → Option Bool
      → List ℕ
      → Outcome SchedulerError (List ℕ) × ResourceScheduler
  assign_resources s rsets_req use_gpus params =
      if rsets_req == 0 then (ok [], s) else elim (check_total_rsets s rsets_req use_gpus) [
        | raise e ↦ (raise e, s)
        | ok _ ↦
            let avail = get_avail_rsets_by_group s in
            elim (find_team s avail rsets_req use_gpus params) [
              | raise e ↦ (raise e, record s { avail_rsets_by_group = some avail })
              | ok team ↦ (ok team, commit s avail use_gpus team)
            ]
      ]
