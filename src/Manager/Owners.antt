-- ===== src/Manager/Owners.antt =====
-- libensemble/manager.py, class Manager: a worker that holds resource sets is at work.
use libensemble.Base.{
  ℕ, zero, suc, ◌-◌, ◌≡◌, Bool, true, false, ◌&&◌, ◌||◌, not, List, [], ◌∷◌, map, Option, none,
  some, ok, Option-cases, inl, inr, ◌==◌, ltb, if◌then◌else◌, any, modify_at, get_elem?,
  get_elem?-modify_at, arith,
}
use libensemble.Resources.Assignment.{
  ResourceManager, ManRSet, holds, mark, release, take_rset, assign_loop, assign_rsets, free_rsets,
  snapshot,
}
use libensemble.Alloc.{Worker, WorkerIndexer}
use libensemble.Alloc.Workers.{get_worker}
use libensemble.Manager.{Manager, set_worker, freeup_resources}

abbrev pub holds_any : ℕ → List ManRSet → Bool
holds_any w rs = any (holds w) rs

-- Whether a worker holds a resource set.
abbrev pub is_holder : Manager → ℕ → Bool
is_holder m w = elim m.resources [ none ↦ false | some rm ↦ holds_any w rm.rsets ]

-- A worker of the table that is active or in persistent state.
abbrev pub is_busy : WorkerIndexer → ℕ → Bool
is_busy W w = elim (get_elem? W.iterable (if W.additional_worker then w else w - 1)) [
  | none ↦ false
  | some wrk ↦ not (wrk.active == 0) || not (wrk.persis_state == 0)
]

-- Worker 0 is there only with an additional worker.
abbrev pub is_id : WorkerIndexer → ℕ → Bool
is_id W w = W.additional_worker || ltb 0 w

-- No resource set stays with a worker that does nothing.
unfoldable pub IsOwned : Manager → Type 0
IsOwned m = (w : ℕ) → is_holder m w ≡ true → (is_id m.W w && is_busy m.W w) ≡ true

any-modify_at :
    (v w i : ℕ) (rs : List ManRSet)
    → holds_any v (modify_at i (mark w) rs) ≡ true
    → (holds_any v rs || w == v) ≡ true
any-modify_at v w i [] h = ground arith
any-modify_at v w zero (r ∷ rs) h = ground arith
any-modify_at v w (suc i) (r ∷ rs) h = ground (arith, any-modify_at v w i rs)

assign_loop-holders :
    (w : ℕ) (team : List (ℕ × Option ℕ)) (rm : ResourceManager) (v : ℕ)
    → holds_any v (assign_loop w team rm).rsets ≡ true
    → (holds_any v rm.rsets || w == v) ≡ true
unfolding assign_loop take_rset
assign_loop-holders w [] rm v h = ground arith
assign_loop-holders w ((i, none) ∷ team) rm v h =
    ground (arith, assign_loop-holders w team (take_rset rm i w) v, any-modify_at v w i rm.rsets)
assign_loop-holders w ((i, some holder) ∷ team) rm v h = assign_loop-holders w team rm v h

-- After `assign_rsets` the holders are those of before, and the worker.
pub assign_rsets-holders :
    (rm g : ResourceManager) (team : List ℕ) (w v : ℕ)
    → assign_rsets rm team w ≡ ok g
    → holds_any v g.rsets ≡ true
    → (holds_any v rm.rsets || w == v) ≡ true
unfolding assign_rsets
assign_rsets-holders rm g team w v e h = elim (Option-cases (snapshot rm.rsets team)) [
  | inl gone ↦ absurd (ground arith)
  | inr (pairs, there) ↦
      let same : g ≡ assign_loop w pairs rm = ground arith in
      assign_loop-holders w pairs rm v (rw (← same) h)
]

release-holders :
    (w v : ℕ) (rs : List ManRSet)
    → holds_any v (map (release w) rs) ≡ true
    → (holds_any v rs && not (v == w)) ≡ true
release-holders w v [] h = ground arith
release-holders w v (r ∷ rs) h = ground (arith, release-holders w v rs)

-- After `free_rsets(w)` the holders are those of before, without the worker.
pub freeup-holders :
    (m : Manager) (w v : ℕ)
    → is_holder (freeup_resources m w) v ≡ true
    → (is_holder m v && not (v == w)) ≡ true
unfolding freeup_resources free_rsets
freeup-holders m w v h = elim (Option-cases m.resources) [
  | inl nothing ↦ absurd (ground arith)
  | inr (rm, there) ↦ ground (arith, release-holders w v rm.rsets)
]

-- A change of one row of the table: the others are as busy as before.
pub set_worker-is_busy :
    (w v : ℕ) (f : Worker → Worker) (m : Manager)
    → is_id m.W w ≡ true
    → is_id m.W v ≡ true
    → (v == w) ≡ false
    → is_busy (set_worker w f m).W v ≡ is_busy m.W v
unfolding set_worker
set_worker-is_busy w v f m hw hv other =
    let at = λ (u : ℕ). if m.W.additional_worker then u else u - 1 in
    let apart : (at v == at w) ≡ false = ground arith in
    ground (arith, get_elem?-modify_at m.W.iterable (at v) (at w) f)

-- The row itself, if the change leaves it busy.
pub set_worker-is_busy_self :
    (w : ℕ) (f : Worker → Worker) (m : Manager) (wrk : Worker)
    → get_worker m.W w ≡ some wrk
    → (not ((f wrk).active == 0) || not ((f wrk).persis_state == 0)) ≡ true
    → is_busy (set_worker w f m).W w ≡ true
unfolding set_worker get_worker
set_worker-is_busy_self w f m wrk there busy =
    let at = if m.W.additional_worker then w else w - 1 in
    ground (arith, get_elem?-modify_at m.W.iterable at at f)
