-- ===== src/Manager/Exit.antt =====
-- libensemble/manager.py, class Manager: the exit criteria.
-- Values that stop_val is compared with are natural numbers, and a value that is no number is `none`.
use libensemble.Base.{
  ℕ, ◌+◌, ◌≤◌, ◌≡◌, ◌≢◌, ◌⊎◌, Bool, true, false, ◌&&◌, List, Option, none, some, leb, if◌then◌else◌,
  any, get_elem?,
}
use libensemble.History.{History, Row}

pub record ExitCriteria : Type 0 where
  pub wallclock_max : Option ℕ
  pub sim_max : Option ℕ
  pub gen_max : Option ℕ
  pub stop_val : Option ((Row → Option ℕ) × ℕ)

abbrev pub term_test_wallclock : ℕ → ℕ → Bool
term_test_wallclock elapsed max_elapsed = leb max_elapsed elapsed

abbrev pub term_test_sim_max : History → ℕ → Bool
term_test_sim_max h sim_max = leb (sim_max + h.sim_ended_offset) h.sim_ended_count

abbrev pub term_test_gen_max : History → ℕ → Bool
term_test_gen_max h gen_max = leb (gen_max + h.gen_informed_offset) h.index

abbrev pub term_test_stop_val : History → (Row → Option ℕ) × ℕ → Bool
term_test_stop_val h (key, val) =
    any (λ r. r.sim_ended && (elim (key r) [ none ↦ false | some v ↦ leb v val ])) h.H

abbrev pub trips {ℓ} : {A : Type ℓ} → Option A → (A → Bool) → Bool
trips none test = false
trips (some criterion) test = test criterion

-- `term_test`: the tests in their order, and the value of the first that trips.
unfoldable pub term_test : ExitCriteria → ℕ → History → ℕ
term_test exit elapsed h =
    if trips exit.wallclock_max (term_test_wallclock elapsed)
    then 2
    else if trips exit.sim_max (term_test_sim_max h)
    then 1
    else if trips exit.gen_max (term_test_gen_max h)
    then 1
    else if trips exit.stop_val (term_test_stop_val h)
    then 1
    else 0

-- `_sim_max_given`
unfoldable pub sim_max_given : ExitCriteria → History → Bool
sim_max_given exit h = elim exit.sim_max [
  | none ↦ false
  | some n ↦ leb (n + h.sim_started_offset) h.sim_started_count
]

abbrev pub Reached : Option ℕ → ℕ → ℕ → Type 0
Reached none offset count = ⊥
Reached (some limit) offset count = limit + offset ≤ count

-- A simulation has ended, and its row has a value of the key that is no greater than the limit.
abbrev pub HasValue : Option ((Row → Option ℕ) × ℕ) → List Row → Type 0
HasValue none H = ⊥
HasValue (some (key, val)) H =
    (i : ℕ) × (r : Row) × (v : ℕ) × (get_elem? H i ≡ some r)
    × (r.sim_ended ≡ true)
    × (key r ≡ some v)
    × (v ≤ val)

-- A criterion other than the time limit.
abbrev pub IsOver : ExitCriteria → History → Type 0
IsOver exit h =
    Reached exit.sim_max h.sim_ended_offset h.sim_ended_count
    ⊎ Reached exit.gen_max h.gen_informed_offset h.index
    ⊎ HasValue exit.stop_val h.H

module _ (key : Row → Option ℕ) (val : ℕ) where
  abbrev stops_at : Row → Bool
  stops_at r = r.sim_ended && (elim (key r) [ none ↦ false | some v ↦ leb v val ])

-- What the value of term_test says of the exit criteria.
abbrev pub IsVerdict : ExitCriteria → ℕ → History → ℕ → Type 0
IsVerdict exit elapsed h verdict =
    (Reached exit.wallclock_max 0 elapsed → verdict ≡ 2)
    × (verdict ≡ 2 → Reached exit.wallclock_max 0 elapsed)
    × (IsOver exit h → verdict ≢ 0)
    × (verdict ≡ 1 → IsOver exit h)
    × (verdict ≤ 2)
