-- ===== src/History/Entries.antt =====
-- libensemble/history.py, class History: the fields of a row that a user's function sets.
use libensemble.Base.{
  ℕ, ◌+◌, Bool, true, false, List, [], ◌∷◌, ◌++◌, map, Option, none, some, Outcome, ok, raise,
  ◌>>=◌, ◌>>◌, require, ltb, leb, ◌==◌, if◌then◌else◌, length, any, replicate, drop,
}
use libensemble.History.{
  Value, scalar, array, Fields, Row, Protected, gen_worker, gen_started_time, gen_ended_time,
  sim_worker, sim_started, sim_started_time, sim_ended, sim_ended_time, gen_informed,
  gen_informed_time, kill_sent, Entry, cancel_requested, field, protected, SimEntry, sim_id, entry,
  HistoryError, value_error, assertion_error, type_error,
}

abbrev pub has_field : ℕ → Fields → Bool
has_field name fields = any (λ f. f.0 == name) fields

unfoldable pub set_field : ℕ → Value → Fields → Fields
set_field name v [] = []
set_field name v ((n, w) ∷ fields) =
    if n == name then (n, v) ∷ fields else (n, w) ∷ set_field name v fields

unfoldable pub get_field : ℕ → Fields → Option Value
get_field name [] = none
get_field name ((n, w) ∷ fields) = if n == name then some w else get_field name fields

-- The value of a new field in `np.zeros`.
unfoldable pub zeros_like : Value → Value
zeros_like (scalar _) = scalar 0
zeros_like (array vs) = array (replicate (length vs) 0)

-- The user's fields that occur in a row of output.
unfoldable pub user_fields : List Entry → Fields
user_fields [] = []
user_fields (field name v ∷ es) = (name, v) ∷ user_fields es
user_fields (cancel_requested _ ∷ es) = user_fields es
user_fields (protected _ ∷ es) = user_fields es

unfoldable pub add_fields : Fields → Fields → Fields
unfolding zeros_like
add_fields [] fields = fields
add_fields ((name, v) ∷ new) fields =
    let rest = add_fields new (fields ++ (name, zeros_like v) ∷ []) in
    let same = add_fields new fields in if has_field name fields then same else rest

abbrev pub add_to_row : Fields → Row → Row
add_to_row new r = record r { user = add_fields new r.user }

-- H[field][ind] = value, for a protected field.
unfoldable pub set_protected : Protected → Row → Row
set_protected (gen_worker w) r = record r { gen_worker = w }
set_protected (gen_started_time t) r = record r { gen_started_time = t }
set_protected (gen_ended_time t) r = record r { gen_ended_time = t }
set_protected (sim_worker w) r = record r { sim_worker = w }
set_protected (sim_started b) r = record r { sim_started = b }
set_protected (sim_started_time t) r = record r { sim_started_time = t }
set_protected (sim_ended b) r = record r { sim_ended = b }
set_protected (sim_ended_time t) r = record r { sim_ended_time = t }
set_protected (gen_informed b) r = record r { gen_informed = b }
set_protected (gen_informed_time t) r = record r { gen_informed_time = t }
set_protected (kill_sent b) r = record r { kill_sent = b }

-- An array of the output for an array of H of the given size: one value is written to all of it, and else the
-- sizes must agree.
unfoldable pub fit_array : List ℕ → List ℕ → Outcome HistoryError Value
fit_array [] ws = if length ws == 0 then ok (array []) else raise value_error
fit_array (v ∷ []) ws = ok (array (map (λ _. v) ws))
fit_array (v ∷ u ∷ vs) ws =
    if length ws == length vs + 2 then ok (array (v ∷ u ∷ vs)) else raise value_error

-- H[field][inds] = D[field], for a row. numpy takes some columns of another kind too, where there is one row or
-- as many rows as values; here a scalar and an array always differ in shape.
unfoldable pub fit_value : Value → Value → Outcome HistoryError Value
unfolding fit_array
fit_value (scalar v) (scalar w) = ok (scalar v)
fit_value (scalar v) (array ws) = raise value_error
fit_value (array vs) (scalar w) = raise value_error
fit_value (array vs) (array ws) = fit_array vs ws

-- One assignment of `update_history_x_in`; `safe` is safe_mode.
unfoldable pub assign_entry : Bool → Entry → Row → Outcome HistoryError Row
unfolding set_protected set_field get_field fit_value
assign_entry safe (cancel_requested b) r = ok (record r { cancel_requested = b })
assign_entry safe (field name v) r = elim (get_field name r.user) [
  | none ↦ raise value_error
  | some w ↦ do fitting ← fit_value v w; ok (record r { user = set_field name fitting r.user })
]
assign_entry true (protected e) r = raise assertion_error
assign_entry false (protected e) r = ok (set_protected e r)

unfoldable pub assign_entries : Bool → List Entry → Row → Outcome HistoryError Row
assign_entries safe [] r = ok r
assign_entries safe (e ∷ es) r = do s ← assign_entry safe e r; assign_entries safe es s

-- An array is written over the start of the array in H, and must fit it and have a value; `len` refuses a
-- scalar there. A scalar is written to all of an array.
unfoldable pub merge_value : Value → Value → Outcome HistoryError Value
merge_value (array vs) (array ws) = do
  require (leb (length vs) (length ws)) assertion_error
  require (ltb 0 (length vs)) assertion_error
  ok (array (vs ++ drop (length vs) ws))
merge_value (array vs) (scalar w) = raise type_error
merge_value (scalar v) (scalar w) = ok (scalar v)
merge_value (scalar v) (array ws) = ok (array (map (λ _. v) ws))

-- The same for `update_history_f`.
unfoldable pub merge_entry : Bool → Entry → Row → Outcome HistoryError Row
unfolding get_field set_field
merge_entry safe (cancel_requested b) r = assign_entry safe (cancel_requested b) r
merge_entry safe (protected e) r = assign_entry safe (protected e) r
merge_entry safe (field name v) r = elim (get_field name r.user) [
  | none ↦ raise value_error
  | some w ↦ do merged ← merge_value v w; ok (record r { user = set_field name merged r.user })
]

unfoldable pub merge_sim_entry : Bool → SimEntry → Row → Outcome HistoryError Row
merge_sim_entry safe (sim_id i) r = ok (record r { sim_id = i })
merge_sim_entry safe (entry e) r = merge_entry safe e r

unfoldable pub merge_entries : Bool → List SimEntry → Row → Outcome HistoryError Row
unfolding merge_sim_entry
merge_entries safe [] r = ok r
merge_entries safe (e ∷ es) r = do s ← merge_sim_entry safe e r; merge_entries safe es s

-- The fields but for sim_id, which H always has.
abbrev pub plain_entries : List SimEntry → List Entry
plain_entries [] = []
plain_entries (sim_id _ ∷ es) = plain_entries es
plain_entries (entry e ∷ es) = e ∷ plain_entries es
