-- ===== src/History/Updates.antt =====
-- libensemble/history.py, class History: the methods that change the array.
-- Indices that numpy counts from the end are left out: a row index is a natural number. A user's
-- function gives every row the same fields, and a field keeps its kind and size.
use libensemble.Base.{
  ℕ, zero, suc, ◌+◌, ◌-◌, ◌*◌, max, Bool, true, false, ◌||◌, not, List, [], ◌∷◌, ◌++◌, map, Option,
  none, some, Outcome, ok, raise, ◌>>=◌, ◌>>◌, require, or_raise, ltb, ◌==◌, if◌then◌else◌, length,
  get_elem?, filter, any, all, modify_at, replicate, take, contains,
}
use libensemble.History.{
  Row, Entry, SimEntry, GenOut, HistoryError, index_error, value_error, assertion_error, History,
  blank_row,
}
use libensemble.History.Entries.{
  add_fields, add_to_row, assign_entries, has_field, merge_entries, plain_entries, user_fields,
}

-- `_append_new_fields`, where a field of the output is missing. The first row shows the fields.

unfoldable pub append_new_fields : List (List Entry) → History → History
unfolding add_fields user_fields
append_new_fields [] h = h
append_new_fields (row ∷ _) h =
    let new = user_fields row in
    if any (λ f. not (has_field f.0 h.blank)) new
    then record h { H = map (add_to_row new) h.H; blank = add_fields new h.blank }
    else h

-- H[...][inds] = ..., a change of every row of `inds`; one out of range raises before the change.
unfoldable pub modify_all : List ℕ → (Row → Row) → List Row → List Row
modify_all [] f H = H
modify_all (i ∷ inds) f H = modify_all inds f (modify_at i f H)

unfoldable pub scatter : List ℕ → (Row → Row) → List Row → Outcome HistoryError (List Row)
scatter inds f H = do
  require (all (λ i. ltb i (length H)) inds) index_error
  ok (modify_all inds f H)

-- Every row of output is written to its row of H.
unfoldable pub write_row :
    {A : Type 0}
    → (A → Row → Outcome HistoryError Row)
    → ℕ
    → A
    → List Row
    → Outcome HistoryError (List Row)
write_row step i es H = do
  r ← or_raise (get_elem? H i) index_error
  s ← step es r
  ok (modify_at i (λ _. s) H)

unfoldable pub write_rows :
    (List Entry → Row → Outcome HistoryError Row)
    → List ℕ
    → List (List Entry)
    → List Row
    → Outcome HistoryError (List Row)
write_rows step [] rows H = ok H
write_rows step (i ∷ inds) [] H = raise index_error
write_rows step (i ∷ inds) (es ∷ rows) H = do G ← write_row step i es H; write_rows step inds rows G

-- `grow_H`
unfoldable pub grow_H : ℕ → History → History
grow_H k h = record h { H = h.H ++ replicate k (blank_row h.blank) }

unfoldable pub make_room : ℕ → History → History
make_room num_new h =
    let rows_remaining = length h.H - h.index in
    if ltb rows_remaining num_new
    then (let k = max (num_new - rows_remaining) (2 * h.grow_count) in
        grow_H k (record h { grow_count = k }))
    else h

-- range(i, i + n)
unfoldable pub range_from : ℕ → ℕ → List ℕ
range_from i zero = []
range_from i (suc n) = i ∷ range_from (i + 1) n

abbrev pub maximum : List ℕ → ℕ
maximum [] = 0
maximum (a ∷ rest) = max a (maximum rest)

-- The numbers of the list that are not the sim_id of a row, each once.
unfoldable pub new_ids : List ℕ → List Row → List ℕ
new_ids [] H = []
new_ids (a ∷ ids) H =
    if contains a ids
    then new_ids ids H
    else if any (λ r. elim r.sim_id [ none ↦ false | some i ↦ i == a ]) H
    then new_ids ids H
    else a ∷ new_ids ids H

-- update_inds, num_new and the history with room for them.
unfoldable pub place : GenOut → History → Outcome HistoryError (List ℕ × ℕ × History)
unfolding range_from new_ids
place D h = elim D.sim_ids [
  | none ↦ let n = length D.rows in ok (range_from h.index n, n, make_room n h)
  | some ids ↦ do
    require (all (λ i. contains i ids) (range_from h.index (maximum ids + 1 - h.index)))
        assertion_error
    let n = length (new_ids ids h.H)
    ok (ids, n, make_room n h)
]

-- H["sim_id"][inds] = inds
unfoldable pub set_ids : List ℕ → List Row → List Row
set_ids [] H = H
set_ids (i ∷ inds) H = set_ids inds (modify_at i (λ r. record r { sim_id = some i }) H)

abbrev pub ended_never : List Row → ℕ → Bool
ended_never H i = elim (get_elem? H i) [ none ↦ false | some r ↦ r.gen_ended_time == 0 ]

abbrev pub stamp : ℕ → ℕ → ℕ → Row → Row
stamp worker started t r = record r {
  gen_started_time = started;
  gen_ended_time = t;
  gen_worker = worker;
}

-- The end of `update_history_x_in`: the rows `inds` of `g`, which has room for them, are written.
unfoldable pub write_points :
    ℕ → List (List Entry) → ℕ → ℕ → List ℕ → ℕ → History → Outcome HistoryError History
write_points worker rows started t inds num_new g = do
  require (all (λ i. ltb i (length g.H)) inds) index_error
  H ← write_rows (assign_entries g.safe_mode) inds rows (set_ids inds g.H)
  let first_gen_inds = filter (ended_never H) inds
  ok (record g {
    H = modify_all first_gen_inds (stamp worker started t) H;
    index = g.index + num_new;
  })

-- `update_history_x_in`
unfoldable pub update_history_x_in : ℕ → GenOut → ℕ → ℕ → History → Outcome HistoryError History
update_history_x_in worker D started t h = if length D.rows == 0 then ok h else (do
  placed ← place D (append_new_fields D.rows h)
  write_points worker D.rows started t placed.0 placed.1 placed.2)

-- `update_history_x_out`
unfoldable pub update_history_x_out : List ℕ → ℕ → Bool → ℕ → History → Outcome HistoryError History
update_history_x_out q_inds worker kill_canceled_sims t h = do
  H ←
      scatter q_inds
        (λ r. record r { sim_started = true; sim_started_time = some t; sim_worker = worker }) h.H
  require (not kill_canceled_sims || ltb 0 (length q_inds)) value_error
  ok (record h {
    H = H;
    sim_started_count = h.sim_started_count + length q_inds;
    next_started = if kill_canceled_sims then maximum q_inds + 1 else h.next_started;
  })

-- The last lines of the loop of `update_history_f`.
abbrev pub end_sim : ℕ → Row → Row
end_sim t r = record r { sim_ended = true; sim_ended_time = t }

unfoldable pub return_rows :
    Bool → ℕ → List ℕ → List (List SimEntry) → List Row → Outcome HistoryError (List Row)
return_rows safe t [] rows H = ok H
return_rows safe t (i ∷ inds) [] H = raise index_error
return_rows safe t (i ∷ inds) (es ∷ rows) H = do
  G ← write_row (merge_entries safe) i es H
  return_rows safe t inds rows (modify_at i (end_sim t) G)

-- The rows from `j` on, `n` at most, up to the first that has not ended.
unfoldable pub ended_loop : ℕ → List Row → ℕ → ℕ
ended_loop zero H j = j
ended_loop (suc n) H j = elim (get_elem? H j) [
  | none ↦ j
  | some r ↦ if r.sim_ended then ended_loop n H (j + 1) else j
]

abbrev pub output_rows : List ℕ → Option (List (List SimEntry)) → List (List SimEntry)
output_rows new_inds none = map (λ _. []) new_inds
output_rows new_inds (some returned) = returned

-- `update_history_f`; a simulation that returned no array, `none`, has no fields.
unfoldable pub update_history_f :
    List ℕ → Option (List (List SimEntry)) → Bool → ℕ → History → Outcome HistoryError History
update_history_f new_inds calc_out kill_canceled_sims t h = do
  let rows = output_rows new_inds calc_out
  let g = append_new_fields (map plain_entries rows) h
  H ← return_rows h.safe_mode t new_inds rows g.H
  require (not kill_canceled_sims || ltb 0 (length new_inds)) value_error
  ok (record g {
    H = H;
    sim_ended_count = h.sim_ended_count + length new_inds;
    next_ended =
        if kill_canceled_sims
        then ended_loop (maximum new_inds + 1 - h.next_ended) H h.next_ended
        else h.next_ended;
  })

abbrev pub ended_at : List Row → ℕ → Bool
ended_at H i = elim (get_elem? H i) [ none ↦ false | some r ↦ r.sim_ended ]

-- `update_history_to_gen`: the two branches that mark rows mark those that have ended.
unfoldable pub update_history_to_gen : List ℕ → ℕ → History → Outcome HistoryError History
update_history_to_gen [] t h = ok h
update_history_to_gen (i ∷ inds) t h = do
  let q_inds = i ∷ inds
  require (all (λ j. ltb j (length h.H)) q_inds) index_error
  let ended = if all (ended_at h.H) q_inds then q_inds else filter (ended_at h.H) q_inds
  let marked = modify_all ended (λ r. record r { gen_informed = true }) h.H
  ok (record h {
    H = modify_all q_inds (λ r. record r { gen_informed_time = some t }) marked;
    given_back_warned = h.using_H0 || h.given_back_warned;
    gen_informed_count = h.gen_informed_count + length q_inds;
  })

-- `trim_H`
unfoldable pub trim_H : History → List Row
trim_H h = take h.index h.H
