-- ===== src/Alloc/Workers.antt =====
-- libensemble/tools/alloc_support.py, class AllocSupport: the workers that may be given work, and the
-- points of the history that may be given out.
use libensemble.Base.{
  ℕ, ◌+◌, ◌-◌, Bool, true, false, ◌&&◌, ◌||◌, not, List, [], ◌∷◌, map, Option, none, some, Outcome,
  ok, raise, ◌==◌, ltb, if◌then◌else◌, filter, count, any, get_elem?, drop,
}
use libensemble.Alloc.{Worker, WorkerIndexer, Columns, Point}

abbrev pub eval_sim_tag : ℕ
eval_sim_tag = 1

abbrev pub eval_gen_tag : ℕ
eval_gen_tag = 2

-- `AllocException`
pub data AllocError : Type 0 where
  alloc_exception : AllocError

-- `_WorkerIndexer.__getitem__`
unfoldable pub get_worker : WorkerIndexer → ℕ → Option Worker
get_worker W wid = get_elem? W.iterable (if W.additional_worker then wid else wid - 1)

abbrev pub same_flag : Bool → Bool → Bool
same_flag true b = b
same_flag false b = not b

-- A filter that is not asked for, or that no worker of the table answers to, lets all pass.
abbrev pub fltr_flag : Bool → Option Bool → Bool → Bool
fltr_flag nobody none flag = true
fltr_flag nobody (some wanted) flag = if nobody then true else same_flag flag wanted

abbrev pub fltr_persis : Option ℕ → Worker → Bool
fltr_persis none wrk = true
fltr_persis (some persistent) wrk = wrk.persis_state == persistent

abbrev pub fltr_recving : Bool → Worker → Bool
fltr_recving active_recv wrk = if active_recv then wrk.active_recv else wrk.active == 0

-- `not persistent`, where 0 counts as not given.
abbrev pub is_falsy : Option ℕ → Bool
is_falsy none = true
is_falsy (some n) = n == 0

unfoldable pub avail_worker_ids :
    List Worker → Option ℕ → Bool → Option Bool → Option Bool → Outcome AllocError (List ℕ)
avail_worker_ids W persistent active_recv zero_resource_workers gen_workers =
    if active_recv && is_falsy persistent
    then raise alloc_exception
    else (let no_zrw = not (any (λ w. w.zero_resource_worker) W) in
        let no_gen_workers = not (any (λ w. w.gen_worker) W) in
        ok (
          map (λ w. w.worker_id)
            (filter
              (λ w.
                fltr_recving active_recv w
                && fltr_persis persistent w
                && fltr_flag no_zrw zero_resource_workers w.zero_resource_worker
                && fltr_flag no_gen_workers gen_workers w.gen_worker)
              W)))

unfoldable pub count_gens : List Worker → ℕ
count_gens W = count (λ w. w.active == eval_gen_tag) W

unfoldable pub test_any_gen : List Worker → Bool
test_any_gen W = any (λ w. w.active == eval_gen_tag) W

unfoldable pub count_persis_gens : List Worker → ℕ
count_persis_gens W = count (λ w. w.persis_state == eval_gen_tag) W

-- `skip_canceled_points`, from `next_to_give` on.
unfoldable pub skip_loop : List Bool → ℕ → ℕ
skip_loop [] next = next
skip_loop (cancelled ∷ rest) next =
    let further = skip_loop rest (next + 1) in if cancelled then further else next

unfoldable pub skip_canceled_points : List Bool → ℕ → ℕ
skip_canceled_points cancel_requested next_to_give =
    skip_loop (drop next_to_give cancel_requested) next_to_give

-- The indices of the points that are available: np.nonzero(points_avail)[0].
unfoldable pub nonzero_from : ℕ → List Bool → List ℕ
nonzero_from i [] = []
nonzero_from i (b ∷ bs) = let rest = nonzero_from (i + 1) bs in if b then i ∷ rest else rest

abbrev pub priority_of : List ℕ → ℕ → ℕ
priority_of column i = elim (get_elem? column i) [ none ↦ 0 | some p ↦ p ]

-- The first index with the greatest priority, `np.argmax`, from a first candidate on.
unfoldable pub argmax : List ℕ → ℕ → List ℕ → ℕ
argmax column best [] = best
argmax column best (i ∷ rest) =
    let other = argmax column i rest in
    let same = argmax column best rest in
    if ltb (priority_of column best) (priority_of column i) then other else same

-- The choice among the available points.
unfoldable pub pick_points : Columns → Bool → List ℕ → Option (List ℕ)
unfolding argmax
pick_points H batch [] = none
pick_points H batch (first ∷ rest) = elim H.priority [
  | none ↦ some (first ∷ [])
  | some column ↦
      let best = argmax column first rest in
      if batch
      then some (filter (λ i. priority_of column i == priority_of column best) (first ∷ rest))
      else some (best ∷ [])
]

-- `points_by_priority`; with no point available numpy raises, which is `none`.
unfoldable pub points_by_priority : Columns → List Bool → Bool → Option (List ℕ)
unfolding nonzero_from pick_points
points_by_priority H points_avail batch = pick_points H batch (nonzero_from 0 points_avail)

-- `_filter_points`: the rows from the lower bound on.
abbrev pub from_bound {ℓ} : {A : Type ℓ} → Option ℕ → List A → List A
from_bound none xs = xs
from_bound (some low_bound) xs = drop low_bound xs

-- np.all(done[pfilter & ~excluded]), for a filter that is as long as H, or none.
unfoldable pub all_done : (Point → Bool) → (Point → Bool) → List Point → List Bool → Bool
all_done done excluded [] pfilter = true
all_done done excluded (p ∷ ps) [] = (excluded p || done p) && all_done done excluded ps []
all_done done excluded (p ∷ ps) (f ∷ fs) =
    (not f || excluded p || done p) && all_done done excluded ps fs

unfoldable pub all_points :
    (Point → Bool) → (Point → Bool) → List Point → Option (List Bool) → Option ℕ → Bool
unfolding all_done
all_points done excluded H none low_bound = all_done done excluded (from_bound low_bound H) []
all_points done excluded H (some pt_filter) low_bound =
    all_done done excluded (from_bound low_bound H) (from_bound low_bound pt_filter)

unfoldable pub all_sim_started : List Point → Option (List Bool) → Option ℕ → Bool
all_sim_started = all_points (λ p. p.sim_started) (λ p. p.cancel_requested)

unfoldable pub all_sim_ended : List Point → Option (List Bool) → Option ℕ → Bool
all_sim_ended = all_points (λ p. p.sim_ended) (λ p. p.cancel_requested && not p.sim_started)

unfoldable pub all_gen_informed : List Point → Option (List Bool) → Option ℕ → Bool
all_gen_informed = all_points (λ p. p.gen_informed) (λ p. p.cancel_requested && not p.sim_started)
