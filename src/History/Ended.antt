-- ===== src/History/Ended.antt =====
-- libensemble/history.py, class History: the rows that have ended, and last_ended.
use libensemble.Base.{
  ℕ, zero, suc, ◌+◌, ◌-◌, ◌≤◌, ◌<◌, ◌≡◌, refl, ◌∙◌, Bool, true, false, not, List, [], ◌∷◌, map,
  Option, ok, Outcome-cases, Option-cases, Bool-cases, inl, inr, ltb, ◌==◌, if◌then◌else◌,
  get_elem?, modify_at, contains, any, arith, get_elem?-modify_at, get_elem?-map,
}
use libensemble.History.{
  Row, History, SimEntry, sim_id, entry, Entry, cancel_requested, field, protected,
}
use libensemble.History.Updates.{
  update_history_f, return_rows, write_row, append_new_fields, end_sim, output_rows, ended_at,
  ended_loop, maximum,
}
use libensemble.History.Entries.{
  merge_entries, merge_sim_entry, merge_entry, assign_entry, plain_entries, has_field, user_fields,
  add_to_row,
}

-- The rows that have ended in `H` have ended in `G`.
abbrev pub StayEnded : List Row → List Row → Type 0
StayEnded H G = (i : ℕ) → ended_at H i ≡ true → ended_at G i ≡ true

merge_entry-ended :
    (e : Entry) (r s : Row) → merge_entry true e r ≡ ok s → s.sim_ended ≡ r.sim_ended
unfolding merge_entry assign_entry
merge_entry-ended (cancel_requested b) r s h = ground arith
merge_entry-ended (protected e) r s h = absurd (ground arith)
merge_entry-ended (field name v) r s h = ground arith

merge_entries-ended :
    (es : List SimEntry) (r s : Row) → merge_entries true es r ≡ ok s → s.sim_ended ≡ r.sim_ended
unfolding merge_entries merge_sim_entry
merge_entries-ended [] r s h = ground arith
merge_entries-ended (sim_id i ∷ es) r s h =
    let same : s.sim_ended ≡ (record r { sim_id = i }).sim_ended =
      merge_entries-ended es (record r { sim_id = i }) s (ground arith) in
    same
merge_entries-ended (entry e ∷ es) r s h = elim (Outcome-cases (merge_entry true e r)) [
  | inl (q, made) ↦
      let same : q.sim_ended ≡ r.sim_ended = merge_entry-ended e r q made in
      merge_entries-ended es q s (ground arith) ∙ same
  | inr (x, failed) ↦ absurd (ground arith)
]

-- One result: its row has ended, and no other row is touched.
return_row-ended :
    (t i : ℕ) (es : List SimEntry) (H G : List Row)
    → write_row (merge_entries true) i es H ≡ ok G
    → StayEnded H (modify_at i (end_sim t) G) × (ended_at (modify_at i (end_sim t) G) i ≡ true)
unfolding write_row
return_row-ended t i es H G h = elim (Option-cases (get_elem? H i)) [
  | inl gone ↦ absurd (ground arith)
  | inr (r, there) ↦ elim (Outcome-cases (merge_entries true es r)) [
    | inr (x, failed) ↦ absurd (ground arith)
    | inl (s, made) ↦
        let same : G ≡ modify_at i (λ _. s) H = ground arith in
        rw same (
          (λ j ended. ground (
            arith,
            get_elem?-modify_at (modify_at i (λ _. s) H) j i (end_sim t),
            get_elem?-modify_at H j i (λ _. s),
            merge_entries-ended es r s made,
          )),
          ground (
            arith,
            get_elem?-modify_at (modify_at i (λ _. s) H) i i (end_sim t),
            get_elem?-modify_at H i i (λ _. s),
          ),
        )
  ]
]

return_rows-ended :
    (t : ℕ) (inds : List ℕ) (rows : List (List SimEntry)) (H G : List Row)
    → return_rows true t inds rows H ≡ ok G
    → StayEnded H G × ((i : ℕ) → contains i inds ≡ true → ended_at G i ≡ true)
unfolding return_rows
return_rows-ended t [] rows H G h =
    let same : G ≡ H = ground arith in rw same ((λ i e. e), λ i none. absurd (ground arith))
return_rows-ended t (i ∷ inds) [] H G h = absurd (ground arith)
return_rows-ended t (i ∷ inds) (es ∷ rows) H G h =
    elim (Outcome-cases (write_row (merge_entries true) i es H)) [
      | inr (x, failed) ↦ absurd (ground arith)
      | inl (K, made) ↦
          let E = modify_at i (end_sim t) K in
          let one : StayEnded H E × (ended_at E i ≡ true) = return_row-ended t i es H K made in
          let rest : StayEnded E G × ((j : ℕ) → contains j inds ≡ true → ended_at G j ≡ true) =
            return_rows-ended t inds rows E G (ground arith) in
          (
            (λ j e. rest.0 j (one.0 j e)),
            λ j there. elim (Bool-cases (j == i)) [
              | inl same ↦ let e : j ≡ i = ground arith in rw e (rest.0 i one.1)
              | inr other ↦ rest.1 j (ground arith)
            ],
          )
    ]

-- The loop stops at a row that has not ended, or at its bound.
ended_loop_sound :
    (n : ℕ) (H : List Row) (j i : ℕ) → j ≤ i → i < ended_loop n H j → ended_at H i ≡ true
unfolding ended_loop
ended_loop_sound zero H j i low high = absurd (omega arith)
ended_loop_sound (suc n) H j i low high = elim (Bool-cases (ended_at H j)) [
  | inl ended ↦ elim (Bool-cases (i == j)) [
    | inl same ↦ let e : i ≡ j = ground arith in rw e ended
    | inr other ↦ ended_loop_sound n H (j + 1) i (ground arith) (ground arith)
  ]
  | inr running ↦ absurd (ground arith)
]

ended_loop_complete :
    (n : ℕ) (H : List Row) (j : ℕ)
    → (j ≤ ended_loop n H j) × (ended_loop n H j < j + n → ended_at H (ended_loop n H j) ≡ false)
unfolding ended_loop
ended_loop_complete zero H j = (omega arith, λ h. absurd (omega arith))
ended_loop_complete (suc n) H j = ground (arith, ended_loop_complete n H (j + 1))

append_new_fields-ended :
    (rows : List (List Entry)) (h : History) (i : ℕ)
    → ended_at (append_new_fields rows h).H i ≡ ended_at h.H i
unfolding append_new_fields
append_new_fields-ended [] h i = refl
append_new_fields-ended (row ∷ rows) h i =
    elim (Bool-cases (any (λ f. not (has_field f.0 h.blank)) (user_fields row))) [
      | inl missing ↦
          rw missing (ground (arith, get_elem?-map (add_to_row (user_fields row)) h.H i))
      | inr full ↦ rw full refl
    ]

-- Every row up to `last_ended` has ended.
unfoldable pub IsEndedBelow : History → Type 0
IsEndedBelow h = (i : ℕ) → i < h.next_ended → ended_at h.H i ≡ true

-- In safe mode the rows that had ended stay so, the returned ones have ended, and all rows up to
-- `last_ended` have ended if they had before.
pub update_history_f-ended :
    (inds : List ℕ) (out : Option (List (List SimEntry))) (kill : Bool) (t : ℕ) (h g : History)
    → h.safe_mode ≡ true
    → IsEndedBelow h
    → update_history_f inds out kill t h ≡ ok g
    → IsEndedBelow g
      × StayEnded h.H g.H
      × ((i : ℕ) → contains i inds ≡ true → ended_at g.H i ≡ true)
unfolding update_history_f IsEndedBelow
update_history_f-ended inds out kill t h g safe below e =
    let rows = output_rows inds out in
    let wide = append_new_fields (map plain_entries rows) h in
    elim (Outcome-cases (return_rows h.safe_mode t inds rows wide.H)) [
      | inr (x, failed) ↦ absurd (ground arith)
      | inl (H, made) ↦
          let at_H : g.H ≡ H = ground arith in
          let ends : StayEnded wide.H H × ((i : ℕ) → contains i inds ≡ true → ended_at H i ≡ true) =
            return_rows-ended t inds rows wide.H H (rw (← safe) made) in
          let stay : StayEnded h.H H =
            (λ i was. ends.0 i (append_new_fields-ended (map plain_entries rows) h i ∙ was)) in
          let n : ℕ = maximum inds + 1 - h.next_ended in
          let next : g.next_ended ≡ (if kill then ended_loop n H h.next_ended else h.next_ended) =
            ground arith in
          rw at_H (
            (λ i low. elim (Bool-cases (ltb i h.next_ended)) [
              | inl old ↦ stay i (below i (ground arith))
              | inr new ↦ ended_loop_sound n H h.next_ended i (ground arith) (ground (arith, next))
            ]),
            stay,
            ends.1,
          )
    ]
