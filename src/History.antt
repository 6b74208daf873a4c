-- ===== src/History.antt =====
-- libensemble/history.py, class History: the array H and the counters.
-- A row has the fields of libensemble/tools/fields_keys.py and, under `user`, the fields that the
-- user's functions add, whose names are numbers here; 0 is `resource_sets`. A sim_id of -1 is `none`, and so is an infinite
-- time. `next_started` and `next_ended` are the source's `last_started` and `last_ended`, plus one.
-- The time that the code reads off the clock is an argument. The code only copies the users' values.
pub mod Entries
pub mod Updates
pub mod Ids
pub mod Rows
pub mod Numbering
pub mod Updated
pub mod Ended
pub mod Append
pub mod Runs
pub mod Start
mod Tests
use libensemble.Base.{
  ℕ, zero, suc, ◌+◌, ◌-◌, ◌*◌, max, Bool, true, false, ◌&&◌, not, List, [], ◌∷◌, ◌++◌, map, Option,
  none, some, Outcome, ok, raise, ◌>>=◌, ◌>>◌, require, ltb, leb, ◌==◌, if◌then◌else◌, length,
  get_elem?, filter, count, any, all, modify_at, replicate, take, contains,
}

pub data Value : Type 0 where
  scalar : ℕ → Value
  array : List ℕ → Value

-- The user's fields of a row: names and values.
abbrev pub Fields : Type 0
Fields = List (ℕ × Value)

pub record Row : Type 0 where
  pub sim_id : Option ℕ
  pub gen_worker : ℕ
  pub gen_started_time : ℕ
  pub gen_ended_time : ℕ
  pub sim_worker : ℕ
  pub sim_started : Bool
  pub sim_started_time : Option ℕ
  pub sim_ended : Bool
  pub sim_ended_time : ℕ
  pub gen_informed : Bool
  pub gen_informed_time : Option ℕ
  pub cancel_requested : Bool
  pub kill_sent : Bool
  pub user : Fields

-- An assignment to a field of protected_libE_fields.
pub data Protected : Type 0 where
  gen_worker : ℕ → Protected
  gen_started_time : ℕ → Protected
  gen_ended_time : ℕ → Protected
  sim_worker : ℕ → Protected
  sim_started : Bool → Protected
  sim_started_time : Option ℕ → Protected
  sim_ended : Bool → Protected
  sim_ended_time : ℕ → Protected
  gen_informed : Bool → Protected
  gen_informed_time : Option ℕ → Protected
  kill_sent : Bool → Protected

-- A field of a row that a user's function returns, but for sim_id.
pub data Entry : Type 0 where
  cancel_requested : Bool → Entry
  field : ℕ → Value → Entry
  protected : Protected → Entry

-- A field of a row that a simulation returns. sim_id is not among protected_libE_fields.
pub data SimEntry : Type 0 where
  sim_id : Option ℕ → SimEntry
  entry : Entry → SimEntry

-- What gen_f returns: the column sim_id, if it is there, and the other fields of every row.
pub record GenOut : Type 0 where
  pub sim_ids : Option (List ℕ)
  pub rows : List (List Entry)

pub data HistoryError : Type 0 where
  index_error : HistoryError
  value_error : HistoryError
  assertion_error : HistoryError
  type_error : HistoryError

-- `blank` holds the user's fields of an empty row, that is, the part of H.dtype that is not libE's.
pub record History : Type 0 where
  pub H : List Row
  pub blank : Fields
  pub using_H0 : Bool
  pub index : ℕ
  pub grow_count : ℕ
  pub safe_mode : Bool
  pub sim_started_count : ℕ
  pub sim_ended_count : ℕ
  pub gen_informed_count : ℕ
  pub given_back_warned : Bool
  pub sim_started_offset : ℕ
  pub sim_ended_offset : ℕ
  pub gen_informed_offset : ℕ
  pub next_started : ℕ
  pub next_ended : ℕ

-- A row of `np.zeros`, with the values for an empty row written to it.
abbrev pub blank_row : Fields → Row
blank_row fields = record {
  sim_id = none;
  gen_worker = 0;
  gen_started_time = 0;
  gen_ended_time = 0;
  sim_worker = 0;
  sim_started = false;
  sim_started_time = none;
  sim_ended = false;
  sim_ended_time = 0;
  gen_informed = false;
  gen_informed_time = none;
  cancel_requested = false;
  kill_sent = false;
  user = fields;
}

-- The rows of H0 and which of the fields it has; a field that it has not is zero in its rows.
pub record Initial : Type 0 where
  pub rows : List Row
  pub has_sim_started : Bool
  pub has_sim_ended : Bool
  pub has_sim_id : Bool

abbrev pub mark_H0 : Initial → Row → Row
mark_H0 H0 r =
    if not H0.has_sim_started
    then record r { sim_started = true; sim_ended = true }
    else if not H0.has_sim_ended
    then record r { sim_ended = r.sim_started }
    else r

-- `H["sim_id"][: len(H0)] = np.arange(0, len(H0))`
unfoldable pub number_from : ℕ → List Row → List Row
number_from i [] = []
number_from i (r ∷ rs) = record r { sim_id = some i } ∷ number_from (i + 1) rs

abbrev pub ones_like : Value → Value
ones_like (scalar _) = scalar 1
ones_like (array vs) = array (map (λ _. 1) vs)

-- The user's field `resource_sets` has the name 0.
abbrev pub set_resource_sets : Fields → Fields
set_resource_sets [] = []
set_resource_sets ((n, v) ∷ fields) =
    if n == 0 then (n, ones_like v) ∷ fields else (n, v) ∷ set_resource_sets fields

abbrev pub reset_row : Row → Row
reset_row r = record r {
  sim_id = none;
  sim_started_time = none;
  gen_informed_time = none;
  user = set_resource_sets r.user;
}

-- The rows of H0 in H. For L = 0 the slice `[-L:]` is the whole array.
unfoldable pub prepend_H0 : ℕ → Initial → List Row
unfolding number_from
prepend_H0 L H0 =
    let marked = map (mark_H0 H0) H0.rows in
    let numbered = if H0.has_sim_id then marked else number_from 0 marked in
    if L == 0 then map reset_row numbered else numbered

-- exit_criteria.get("sim_max", 100)
abbrev pub rows_of : Option ℕ → ℕ
rows_of none = 100
rows_of (some sim_max) = sim_max

-- `History.__init__`.
unfoldable pub init_history : Option ℕ → Fields → Initial → History
unfolding prepend_H0
init_history sim_max fields H0 =
    let L = rows_of sim_max in
    let rows = prepend_H0 L H0 ++ replicate L (blank_row fields) in
    record {
      H = rows;
      blank = fields;
      using_H0 = ltb 0 (length H0.rows);
      index = length H0.rows;
      grow_count = 0;
      safe_mode = false;
      sim_started_count = count (λ r. r.sim_started) rows;
      sim_ended_count = count (λ r. r.sim_ended) rows;
      gen_informed_count = count (λ r. r.gen_informed) rows;
      given_back_warned = false;
      sim_started_offset = count (λ r. r.sim_started) rows;
      sim_ended_offset = count (λ r. r.sim_ended) rows;
      gen_informed_offset = count (λ r. r.gen_informed) rows;
      next_started = 0;
      next_ended = 0;
    }
