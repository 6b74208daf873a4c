-- ===== src/History/Tests.antt =====
-- A history of two rows that takes in three points, gives two out and gets one result back.
use libensemble.Base.{
  ℕ, ◌≡◌, refl, true, false, List, [], ◌∷◌, Option, none, some, Outcome, ok, raise, arith, map,
  contains,
}
use libensemble.History.{
  scalar, array, SimEntry, sim_id, entry, cancel_requested, field, GenOut, History, Initial,
  init_history, prepend_H0, number_from, blank_row,
}
use libensemble.History.Updates.{
  update_history_x_in, update_history_x_out, update_history_f, update_history_to_gen, write_points,
  place, make_room, grow_H, set_ids, range_from, new_ids, append_new_fields, write_row, write_rows,
  modify_all, scatter, return_rows, ended_loop, trim_H, ended_at,
}
use libensemble.History.Entries.{
  add_fields, user_fields, zeros_like, assign_entries, assign_entry, set_protected, fit_value,
  fit_array, merge_entries, merge_sim_entry, merge_entry, merge_value, set_field, get_field,
}
use libensemble.History.Ids.{IsHistory}
use libensemble.History.Updated.{update_history_x_in-IsHistory}
use libensemble.History.Append.{HaveRoom, update_history_x_in-HaveRoom}
use libensemble.History.Ended.{IsEndedBelow, StayEnded, update_history_f-ended}
use libensemble.History.Start.{init_history-IsHistory}
use libensemble.History.Runs.{points_in, points_out, results, done, next, Runs-IsHistory}

abbrev nothing : Initial
nothing = record { rows = []; has_sim_started = false; has_sim_ended = false; has_sim_id = false }

abbrev start : History
start = init_history (some 2) ((1, array (0 ∷ 0 ∷ [])) ∷ []) nothing

-- Three points with the field 1 and a new field 2.
abbrev points : GenOut
points = record {
  sim_ids = none;
  rows =
      (field 1 (array (5 ∷ 6 ∷ [])) ∷ field 2 (scalar 7) ∷ [])
      ∷ (field 1 (array (8 ∷ 9 ∷ [])) ∷ field 2 (scalar 4) ∷ [])
      ∷ (field 1 (array (1 ∷ 2 ∷ [])) ∷ field 2 (scalar 3) ∷ [])
      ∷ [];
}

-- The generator cancels point 1 and adds points 3 and 4.
abbrev numbered_points : GenOut
numbered_points = record {
  sim_ids = some (1 ∷ 3 ∷ 4 ∷ []);
  rows =
      (cancel_requested true ∷ [])
      ∷ (cancel_requested false ∷ [])
      ∷ (cancel_requested false ∷ [])
      ∷ [];
}

abbrev after {ℓ} : {E : Type ℓ} → History → Outcome E History → History
after h (raise e) = h
after h (ok g) = g

abbrev filled : History
filled = after start (update_history_x_in 1 points 10 11 start)

abbrev given : History
given = after filled (update_history_x_out (0 ∷ 1 ∷ []) 2 true 12 filled)

abbrev partial_result : Option (List (List SimEntry))
partial_result = some ((entry (field 1 (array (3 ∷ []))) ∷ []) ∷ [])

abbrev returned : History
returned = after given (update_history_f (0 ∷ []) partial_result true 13 given)

abbrev safe_given : History
safe_given = record given { safe_mode = true }

program : Unit {0}
unfolding init_history prepend_H0 number_from update_history_x_in update_history_x_out
    update_history_f update_history_to_gen write_points place make_room grow_H set_ids range_from
    new_ids append_new_fields add_fields user_fields zeros_like assign_entries assign_entry
    set_protected fit_value fit_array merge_entries merge_sim_entry merge_entry merge_value
    write_row write_rows modify_all scatter return_rows ended_loop set_field get_field trim_H
    IsHistory IsEndedBelow
program = tt

filled_ids : map (λ r. r.sim_id) (trim_H filled) ≡ some 0 ∷ some 1 ∷ some 2 ∷ []
unfolding program
filled_ids = refl

cancelled :
    map
      (λ r. r.cancel_requested)
      (trim_H (after filled (update_history_x_in 1 numbered_points 14 15 filled)))
    ≡ false ∷ true ∷ false ∷ false ∷ false ∷ []
unfolding program
cancelled = refl

-- A short array is written over the start of the old one.
merged :
    map (λ r. get_field 1 r.user) (trim_H returned)
    ≡ some (array (3 ∷ 6 ∷ [])) ∷ some (array (8 ∷ 9 ∷ [])) ∷ some (array (1 ∷ 2 ∷ [])) ∷ []
unfolding program
merged = refl

-- A simulation that returns a sim_id gives its row another number, also in safe mode.
renumbered :
    map
      (λ r. r.sim_id)
      (trim_H (
        after safe_given
          (update_history_f (0 ∷ []) (some ((sim_id (some 2) ∷ []) ∷ [])) true 13 safe_given)))
    ≡ some 2 ∷ some 1 ∷ some 2 ∷ []
unfolding program
renumbered = refl

last_ended : returned.next_ended ≡ 1
unfolding program
last_ended = refl

-- With sim_max 0 the slice `[-L:]` is the whole array, and the sim_ids of H0 are lost.
lost_ids :
    map
      (λ r. r.sim_id)
      (init_history (some 0) [] (record nothing { rows = blank_row [] ∷ blank_row [] ∷ [] })).H
    ≡ none ∷ none ∷ []
unfolding program
lost_ids = refl

start-IsHistory : IsHistory start
start-IsHistory =
    init_history-IsHistory (some 2) ((1, array (0 ∷ 0 ∷ [])) ∷ []) nothing (omega arith)
      (λ e. absurd (ground arith))

update_history_x_in-IsHistory_example : IsHistory filled
unfolding program
update_history_x_in-IsHistory_example =
    update_history_x_in-IsHistory 1 points 10 11 start filled start-IsHistory refl

update_history_x_in-HaveRoom_example : HaveRoom start 3 (update_history_x_in 1 points 10 11 start)
update_history_x_in-HaveRoom_example =
    update_history_x_in-HaveRoom 1 points 10 11 start start-IsHistory refl

update_history_f-ended_example :
    IsEndedBelow (record returned { safe_mode = true })
    × StayEnded safe_given.H returned.H
    × ((i : ℕ) → contains i (0 ∷ []) ≡ true → ended_at returned.H i ≡ true)
unfolding program
update_history_f-ended_example =
    update_history_f-ended (0 ∷ []) partial_result true 13 safe_given
      (record returned { safe_mode = true }) refl (λ i h. absurd (omega arith)) refl

Runs-IsHistory_example : IsHistory returned
unfolding program
Runs-IsHistory_example =
    Runs-IsHistory (some 2) ((1, array (0 ∷ 0 ∷ [])) ∷ []) nothing returned (omega arith)
      (λ e. absurd (ground arith))
      (next (points_in 1 points 10 11 refl) (
        next (points_out (0 ∷ 1 ∷ []) 2 true 12 refl)
          (next (results (0 ∷ []) partial_result true 13 (refl, tt) refl) done)))
