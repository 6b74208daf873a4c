-- ===== src/Resources/Scheduler/Matching.antt =====
-- libensemble/resources/scheduler.py: teams with the same slots in every group.
-- `itertools.combinations` goes over the items of the dictionary, keys and values together.
use libensemble.Base.{
  ℕ, zero, suc, ◌+◌, ◌≡◌, ◌&&◌, List, [], ◌∷◌, ◌++◌, map, Option, none, some, Outcome, ok, ◌>>=◌,
  or_raise, ltb, ◌==◌, if◌then◌else◌, length, filter, take, contains, max, IsDistinct,
}
use libensemble.Resources.RSets.{RSet, index_error}
use libensemble.Resources.RSets.Groups.{first_index}
use libensemble.Resources.Scheduler.Avail.{ByGroup, get_slots_of_len, lens, sorted}
use libensemble.Resources.Scheduler.Fit.{SchedulerError, python}

-- Python iterates over a set in an order of its own: a parameter, which lists the members.

pub record SetOrder : Type 0 where
  pub order : List ℕ → List ℕ
  pub same_members : (xs : List ℕ) (a : ℕ) → contains a (order xs) ≡ contains a xs
  pub same_length : (xs : List ℕ) → length (order xs) ≡ length xs
  pub still_distinct : (xs : List ℕ) → IsDistinct xs → IsDistinct (order xs)

-- itertools.combinations(xs, n), in its order.
unfoldable pub combinations {ℓ} : {A : Type ℓ} → List A → ℕ → List (List A)
combinations xs zero = [] ∷ []
combinations [] (suc n) = []
combinations (x ∷ xs) (suc n) = map (◌∷◌ x) (combinations xs n) ++ combinations xs (suc n)

abbrev pub intersect : List ℕ → List ℕ → List ℕ
intersect xs ys = filter (λ a. contains a ys) xs

-- set.intersection(*tmplist); with no set at all Python raises, and the callers never do that.
unfoldable pub common : ByGroup → List ℕ
common [] = []
common ((g, slots) ∷ []) = slots
common ((g, slots) ∷ h ∷ rest) = intersect slots (common (h ∷ rest))

pub record Candidate : Type 0 where
  pub cand_groups : List ℕ
  pub cand_slots : List ℕ

abbrev pub keys : ByGroup → List ℕ
keys = map (λ item. item.0)

-- The loop over the combinations, with `upper_bound` and the best candidate so far.
unfoldable pub best_match : ℕ → ℕ → Option Candidate → List ByGroup → Option Candidate
best_match per upper best [] = best
best_match per upper best (comb ∷ combs) =
    let shared = common comb in
    let found : Candidate = record { cand_groups = keys comb; cand_slots = shared } in
    let better = ltb per (length shared) && ltb (length shared) upper in
    let later =
      best_match per (if better then length shared else upper) (if better then some found else best)
        combs in
    if length shared == per then some found else later

unfoldable pub largest : List ℕ → ℕ
largest [] = 0
largest (x ∷ xs) = max x (largest xs)

unfoldable pub get_matching_slots : ByGroup → ℕ → ℕ → Option Candidate
get_matching_slots slots_avail_by_group num_groups_req rsets_per_group =
    let viable = get_slots_of_len slots_avail_by_group rsets_per_group in
    if ltb (length viable) num_groups_req
    then none
    else best_match rsets_per_group (largest (lens viable) + 1) none
        (combinations viable num_groups_req)

-- The inner loop of `assign_team_from_slots`, over the slots that are used.
unfoldable pub slots_team : List RSet → ℕ → List ℕ → Outcome SchedulerError (List ℕ)
slots_team rs grp [] = ok []
slots_team rs grp (slot ∷ slots) = do
  rset ← or_raise (first_index grp slot rs) (python index_error)
  team ← slots_team rs grp slots
  ok (rset ∷ team)

unfoldable pub groups_team : List RSet → List ℕ → List ℕ → Outcome SchedulerError (List ℕ)
groups_team rs [] slots = ok []
groups_team rs (grp ∷ groups) slots = do
  team ← slots_team rs grp slots
  rest ← groups_team rs groups slots
  ok (team ++ rest)

unfoldable pub assign_team_from_slots :
    SetOrder → List RSet → Candidate → ℕ → Outcome SchedulerError (List ℕ)
assign_team_from_slots sets rs cand rsets_per_group = do
  team ← groups_team rs cand.cand_groups (take rsets_per_group (sets.order cand.cand_slots))
  ok (sorted team)
