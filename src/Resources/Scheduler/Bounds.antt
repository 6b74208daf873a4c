-- ===== src/Resources/Scheduler/Bounds.antt =====
-- How many groups and resource sets a request is turned into.
use native.Mathlib.Nat.{div-add-mod', mod-lt}
use libensemble.Base.{
  ℕ, zero, suc, ◌+◌, ◌-◌, ◌*◌, ◌/◌, ◌%◌, ◌≤◌, ◌<◌, ◌≡◌, refl, ◌≢◌, true, List, [], ◌∷◌, All, some,
  ok, raise, arith, Outcome, leb, Bool-cases, Option-cases, inl, inr, get_elem?,
}
use libensemble.Resources.RSets.{div_up}
use libensemble.Resources.Scheduler.Fit.{
  Fit, SchedulerError, exhausted, even_partition, calc_rsets_even_grps, check_params, uneven_loop,
  extended, calc_even_split_uneven_groups,
}

-- Division with roundup.
pub div_up_bounds : (n d : ℕ) → 0 < d → (n ≤ div_up n d * d) × (div_up n d * d < n + d)
unfolding div_up
div_up_bounds n d h =
    let whole = div-add-mod' n d in let small = mod-lt n h in ground (arith, whole, small)

even_partition_sound :
    (req tmp left even : ℕ)
    → even_partition req tmp left ≡ some even
    → (tmp ≤ even) × (req % even ≡ 0)
unfolding even_partition
even_partition_sound req tmp zero even e = ground arith
even_partition_sound req tmp (suc left) even e =
    ground (arith, even_partition_sound req (tmp + 1) left even)

-- What the breakdown of a request over even groups promises.
abbrev pub Covers : ℕ → ℕ → Fit → Type 0
Covers req max_grpsize fit =
    (req ≤ fit.rsets_req)
    × (fit.rsets_req < req + fit.num_groups)
    × (fit.num_groups * fit.per_group ≡ fit.rsets_req)
    × (1 ≤ fit.per_group)
    × (fit.per_group ≤ max_grpsize)

quotient_bounds : (q e m : ℕ) → 0 < e → q * e ≤ e * m → 0 < q * e → (1 ≤ q) × (q ≤ m)
quotient_bounds zero e m h k p = absurd (omega arith)
quotient_bounds (suc q) e m h k p = (omega arith, grind arith)

-- From `q * e < n + e` and `n ≤ e * m`.
slack_le : (q e m : ℕ) → q * e < e * m + e → q ≤ m
slack_le q e m h = grind arith

module _ (req max_grpsize : ℕ) (some_req : 0 < req) (some_size : 0 < max_grpsize) where
  even-Covers :
      (even : ℕ)
      → div_up req max_grpsize ≤ even
      → req % even ≡ 0
      → Covers req max_grpsize
          (record { rsets_req = req; num_groups = even; per_group = req / even })
  even-Covers even h divides =
      let (enough, _) = div_up_bounds req max_grpsize some_size in
      let some_group : 0 < even = grind arith in
      let whole : req / even * even ≡ req = omega (arith, div-add-mod' req even) in
      let (low, high) =
        quotient_bounds (req / even) even max_grpsize some_group (grind arith) (omega arith) in
      (omega arith, omega arith, omega arith, low, high)

  extended-Covers :
      1 < div_up req max_grpsize
      → Covers req max_grpsize (extended req (div_up req max_grpsize) true max_grpsize)
  extended-Covers h =
      let groups : ℕ = div_up req max_grpsize in
      let (enough, _) = div_up_bounds req max_grpsize some_size in
      let (cover, slack) = div_up_bounds req groups (omega arith) in
      let per_pos : 1 ≤ div_up req groups = grind arith in
      let per_le : div_up req groups ≤ max_grpsize =
        slack_le (div_up req groups) groups max_grpsize (omega arith) in
      (omega arith, omega arith, refl, per_pos, per_le)

  single_group :
      (groups : ℕ)
      → groups ≡ 1
      → req ≤ groups * max_grpsize
      → Covers req max_grpsize (record { rsets_req = req; num_groups = groups; per_group = req })
  single_group groups e h = rw e (omega arith, omega arith, omega arith, omega arith, grind arith)

-- A positive request over groups of a positive size is always broken down: into the same number of
-- resource sets, one at least, from each of the groups, together as many as asked for, and less
-- than one more per group; and never more of a group than its size.
pub calc_rsets_even_grps-Covers :
    (req max_grpsize max_groups : ℕ)
    → 0 < req
    → 0 < max_grpsize
    → (fit : Fit) × (calc_rsets_even_grps req max_grpsize max_groups true ≡ ok fit)
      × Covers req max_grpsize fit
unfolding calc_rsets_even_grps
calc_rsets_even_grps-Covers req max_grpsize max_groups h k =
    let groups : ℕ = div_up req max_grpsize in
    let (enough, _) = div_up_bounds req max_grpsize k in
    elim (Bool-cases (leb groups 1)) [
      | inl one ↦ (
        record { rsets_req = req; num_groups = groups; per_group = req },
        ground arith,
        single_group req max_grpsize h k groups (grind arith) enough,
      )
      | inr more ↦ elim (Option-cases (even_partition req groups (max_groups + 1 - groups))) [
        | inl odd ↦ (
          extended req groups true max_grpsize,
          ground arith,
          extended-Covers req max_grpsize h k (ground arith),
        )
        | inr (even, found) ↦
            let (above, divides) =
              even_partition_sound req groups (max_groups + 1 - groups) even found in
            (
              record { rsets_req = req; num_groups = even; per_group = req / even },
              ground arith,
              even-Covers req max_grpsize h k even above divides,
            )
      ]
    ]

-- The widths that `uneven_loop` returns.
abbrev pub Splits : ℕ → List ℕ → ℕ → Fit → Type 0
Splits req params ng fit =
    (fit.rsets_req ≡ req)
    × (fit.num_groups * fit.per_group ≡ req)
    × All (λ param. param % fit.num_groups ≡ 0) params
    × (ng ≤ fit.num_groups)

check_params-All :
    (params : List ℕ) (ng : ℕ)
    → check_params params ng ≡ true
    → All (λ param. param % ng ≡ 0) params
unfolding check_params
check_params-All [] ng e = tt
check_params-All (param ∷ params) ng e = (ground arith, check_params-All params ng (ground arith))

found_Splits :
    (req : ℕ) (params : List ℕ) (per ng : ℕ) (fit : Fit)
    → per * ng ≡ req
    → check_params params ng ≡ true
    → Path
        (Outcome SchedulerError Fit)
        (ok (record { rsets_req = req; num_groups = ng; per_group = per }))
        (ok fit)
    → Splits req params ng fit
found_Splits req params per ng fit h p e =
    let made : record { rsets_req = req; num_groups = ng; per_group = per } ≡ fit = cc in
    rw (← made) (refl, omega arith, check_params-All params ng p, omega arith)

uneven_loop-Splits :
    (req : ℕ) (lens params : List ℕ) (left per ng : ℕ) (fit : Fit)
    → uneven_loop req lens params left per ng ≡ ok fit
    → Splits req params ng fit
unfolding uneven_loop
uneven_loop-Splits req lens params zero zero ng fit e =
    ground (arith, found_Splits req params 0 ng fit)
uneven_loop-Splits req lens params zero (suc per) ng fit e = ground (
  arith,
  found_Splits req params (suc per) ng fit,
  uneven_loop-Splits req lens params zero per ng fit,
)
uneven_loop-Splits req lens params (suc left) zero ng fit e =
    elim (Option-cases (get_elem? lens ng)) [
      | inl absent ↦ ground (arith, found_Splits req params 0 ng fit)
      | inr (per', at) ↦ ground (
        arith,
        found_Splits req params 0 ng fit,
        uneven_loop-Splits req lens params left per' (ng + 1) fit,
      )
    ]
uneven_loop-Splits req lens params (suc left) (suc per) ng fit e =
    elim (Option-cases (get_elem? lens ng)) [
      | inl absent ↦ ground (
        arith,
        found_Splits req params (suc per) ng fit,
        uneven_loop-Splits req lens params (suc left) per ng fit,
      )
      | inr (per', at) ↦ ground (
        arith,
        found_Splits req params (suc per) ng fit,
        uneven_loop-Splits req lens params (suc left) per ng fit,
        uneven_loop-Splits req lens params left per' (ng + 1) fit,
      )
    ]

-- When the search for a split over uneven groups returns, the request is unchanged and divided
-- without remainder over at least the given number of groups, and so is every user parameter.
pub calc_even_split_uneven_groups-Splits :
    (per ng req : ℕ) (lens : List ℕ) (max_grps : ℕ) (params : List ℕ) {fit : Fit}
    → calc_even_split_uneven_groups per ng req lens max_grps params ≡ ok fit
    → Splits req params ng fit
unfolding calc_even_split_uneven_groups
calc_even_split_uneven_groups-Splits per ng req lens max_grps params {fit} e =
    uneven_loop-Splits req lens params (max_grps - ng) per ng fit e

uneven_loop-ne-exhausted :
    (req : ℕ) (lens params : List ℕ) (left per ng : ℕ)
    → uneven_loop req lens params left per ng ≢ raise exhausted
unfolding uneven_loop
uneven_loop-ne-exhausted req lens params zero zero ng = ground arith
uneven_loop-ne-exhausted req lens params zero (suc per) ng =
    ground (arith, uneven_loop-ne-exhausted req lens params zero per ng)
uneven_loop-ne-exhausted req lens params (suc left) zero ng =
    elim (Option-cases (get_elem? lens ng)) [
      | inl absent ↦ ground arith
      | inr (per', at) ↦ ground (arith, uneven_loop-ne-exhausted req lens params left per' (ng + 1))
    ]
uneven_loop-ne-exhausted req lens params (suc left) (suc per) ng =
    elim (Option-cases (get_elem? lens ng)) [
      | inl absent ↦ ground (arith, uneven_loop-ne-exhausted req lens params (suc left) per ng)
      | inr (per', at) ↦ ground (
        arith,
        uneven_loop-ne-exhausted req lens params (suc left) per ng,
        uneven_loop-ne-exhausted req lens params left per' (ng + 1),
      )
    ]

pub calc_even_split-ne-exhausted :
    (per ng req : ℕ) (lens : List ℕ) (max_grps : ℕ) (params : List ℕ)
    → calc_even_split_uneven_groups per ng req lens max_grps params ≢ raise exhausted
unfolding calc_even_split_uneven_groups
calc_even_split-ne-exhausted per ng req lens max_grps params =
    uneven_loop-ne-exhausted req lens params (max_grps - ng) per ng
