-- ===== src/History/Append.antt =====
-- libensemble/history.py, class History: there is a row for every point without sim_id.
use libensemble.Base.{
  ◌-◌, ◌*◌, ◌<◌, max, ◌++◌, not, any, replicate, contains, map_option, contains-filter,
  get_elem?-modify_at, get_elem?-map, ℕ, zero, suc, ◌+◌, ◌≤◌, ◌≡◌, ◌≢◌, refl, sym, ap, ◌∙◌, Bool,
  true, false, List, [], ◌∷◌, none, some, Outcome, ok, raise, Outcome-cases, Option-cases,
  Bool-cases, lt-get_elem?, length-modify_at, inl, inr, ltb, ◌==◌, length, get_elem?, modify_at,
  all, filter, arith,
}
use libensemble.History.{
  blank_row, Value, scalar, array, Row, History, Entry, cancel_requested, field, protected, GenOut,
  HistoryError, index_error,
}
use libensemble.History.Updates.{
  update_history_x_in, write_points, write_rows, write_row, place, make_room, set_ids, range_from,
  append_new_fields, ended_never, stamp, modify_all, grow_H,
}
use libensemble.History.Entries.{
  has_field, user_fields, add_to_row, assign_entries, assign_entry, get_field, fit_value, fit_array,
}
use libensemble.History.Ids.{IsHistory, SameIds}
use libensemble.History.Rows.{make_room-length, append_new_fields-ids}
use libensemble.History.Numbering.{set_ids-length, range_from-contains}
use libensemble.History.Updated.{SameIds-IsHistory}

fit_array-ne-index_error : (vs ws : List ℕ) → fit_array vs ws ≢ raise index_error
unfolding fit_array
fit_array-ne-index_error [] ws h = ground arith
fit_array-ne-index_error (v ∷ []) ws h = ground arith
fit_array-ne-index_error (v ∷ u ∷ vs) ws h = ground arith

fit_value-ne-index_error : (v w : Value) → fit_value v w ≢ raise index_error
unfolding fit_value
fit_value-ne-index_error (scalar v) (scalar w) h = ground arith
fit_value-ne-index_error (scalar v) (array ws) h = ground arith
fit_value-ne-index_error (array vs) (scalar w) h = ground arith
fit_value-ne-index_error (array vs) (array ws) h = fit_array-ne-index_error vs ws h

assign_entry-ne-index_error :
    (safe : Bool) (e : Entry) (r : Row) → assign_entry safe e r ≢ raise index_error
unfolding assign_entry
assign_entry-ne-index_error safe (cancel_requested b) r h = ground arith
assign_entry-ne-index_error true (protected e) r h = ground arith
assign_entry-ne-index_error false (protected e) r h = ground arith
assign_entry-ne-index_error safe (field name v) r h = elim (Option-cases (get_field name r.user)) [
  | inl gone ↦ ground arith
  | inr (w, there) ↦ elim (Outcome-cases (fit_value v w)) [
    | inl (u, fits) ↦ ground arith
    | inr (x, failed) ↦ fit_value-ne-index_error v w (ground arith)
  ]
]

assign_entries-ne-index_error :
    (safe : Bool) (es : List Entry) (r : Row) → assign_entries safe es r ≢ raise index_error
unfolding assign_entries
assign_entries-ne-index_error safe [] r h = ground arith
assign_entries-ne-index_error safe (e ∷ es) r h = elim (Outcome-cases (assign_entry safe e r)) [
  | inl (q, made) ↦ assign_entries-ne-index_error safe es q (ground arith)
  | inr (x, failed) ↦ assign_entry-ne-index_error safe e r (ground arith)
]

-- Rows of H for as many rows of output are there to be written.
write_rows-ne-index_error :
    (safe : Bool) (k : ℕ) (rows : List (List Entry)) (H : List Row)
    → k + length rows ≤ length H
    → write_rows (assign_entries safe) (range_from k (length rows)) rows H ≢ raise index_error
unfolding write_rows range_from write_row
write_rows-ne-index_error safe k [] H inside h = ground arith
write_rows-ne-index_error safe k (es ∷ rows) H inside h =
    let at : (r : Row) × (get_elem? H k ≡ some r) = lt-get_elem? H k (omega arith) in
    elim (Outcome-cases (assign_entries safe es at.0)) [
      | inr (x, failed) ↦ assign_entries-ne-index_error safe es at.0 (ground (arith, at.1))
      | inl (s, made) ↦
          write_rows-ne-index_error safe (k + 1) rows (modify_at k (λ _. s) H)
            (omega (arith, inside, length-modify_at k (λ _. s) H)) (ground (arith, at.1))
    ]

range_from-inside : (k n m : ℕ) → k + n ≤ m → all (λ i. ltb i m) (range_from k n) ≡ true
unfolding range_from
range_from-inside k zero m h = refl
range_from-inside k (suc n) m h = ground (arith, range_from-inside (k + 1) n m)

make_room-index : (n : ℕ) (h : History) → (make_room n h).index ≡ h.index
unfolding make_room grow_H
make_room-index n h = ground arith

set_ids-below :
    (k m : ℕ) (H : List Row) (i : ℕ)
    → i < k
    → get_elem? (set_ids (range_from k m) H) i ≡ get_elem? H i
unfolding set_ids range_from
set_ids-below k zero H i low = refl
set_ids-below k (suc m) H i low =
    let G = modify_at k (λ r. record r { sim_id = some k }) H in
    set_ids-below (k + 1) m G i (omega (arith, low))
    ∙ ground (arith, get_elem?-modify_at H i k (λ r. record r { sim_id = some k }))

write_rows-below :
    (safe : Bool) (k : ℕ) (rows : List (List Entry)) (H G : List Row) (i : ℕ)
    → i < k
    → write_rows (assign_entries safe) (range_from k (length rows)) rows H ≡ ok G
    → get_elem? G i ≡ get_elem? H i
unfolding write_rows range_from write_row
write_rows-below safe k [] H G i low e = ground arith
write_rows-below safe k (es ∷ rows) H G i low e = elim (Option-cases (get_elem? H k)) [
  | inl gone ↦ absurd (ground arith)
  | inr (r, at) ↦ elim (Outcome-cases (assign_entries safe es r)) [
    | inr (x, failed) ↦ absurd (ground arith)
    | inl (s, made) ↦
        write_rows-below safe (k + 1) rows (modify_at k (λ _. s) H) G i (omega (arith, low))
          (ground arith)
        ∙ ground (arith, get_elem?-modify_at H i k (λ _. s))
  ]
]

modify_all-other :
    (inds : List ℕ) (f : Row → Row) (H : List Row) (i : ℕ)
    → contains i inds ≡ false
    → get_elem? (modify_all inds f H) i ≡ get_elem? H i
unfolding modify_all
modify_all-other [] f H i out = refl
modify_all-other (j ∷ inds) f H i out =
    modify_all-other inds f (modify_at j f H) i (ground arith)
    ∙ ground (arith, get_elem?-modify_at H i j f)

get_elem?-append : (H G : List Row) (i : ℕ) → i < length H → get_elem? (H ++ G) i ≡ get_elem? H i
get_elem?-append [] G i low = absurd (omega (arith, low))
get_elem?-append (r ∷ H) G zero low = refl
get_elem?-append (r ∷ H) G (suc i) low = get_elem?-append H G i (omega (arith, low))

make_room-below :
    (n : ℕ) (h : History) (i : ℕ) → i < length h.H → get_elem? (make_room n h).H i ≡ get_elem? h.H i
unfolding make_room grow_H
make_room-below n h i low =
    let k = max (n - (length h.H - h.index)) (2 * h.grow_count) in
    ground (arith, get_elem?-append h.H (replicate k (blank_row h.blank)) i low)

-- A row but for the user's fields.
abbrev pub libe_fields : Row → Row
libe_fields r = record r { user = [] }

-- What a call that takes in `n` points returns: a history with the index moved by `n` and the rows before as
-- they were, save for the user's fields, or an error other than that of an index out of range.
abbrev pub HaveRoom : History → ℕ → Outcome HistoryError History → Type 0
HaveRoom h n (ok g) =
    (g.index ≡ h.index + n)
    × ((i : ℕ)
        → i < h.index
        → map_option libe_fields (get_elem? g.H i) ≡ map_option libe_fields (get_elem? h.H i))
HaveRoom h n (raise e) = e ≢ index_error

write_points-HaveRoom :
    (worker : ℕ) (rows : List (List Entry)) (started t : ℕ) (h : History)
    → IsHistory h
    → (r : Outcome HistoryError History)
    → write_points worker rows started t
        (range_from h.index (length rows))
        (length rows)
        (make_room (length rows) h)
      ≡ r
    → HaveRoom h (length rows) r
unfolding write_points IsHistory
write_points-HaveRoom worker rows started t h ok_h r e =
    let n = length rows in
    let room = make_room n h in
    let inds = range_from h.index n in
    let inside : (h.index + n ≤ length room.H) × (length h.H ≤ length room.H) =
      make_room-length n h ok_h.0 in
    let there : all (λ i. ltb i (length room.H)) inds ≡ true =
      range_from-inside h.index n (length room.H) inside.0 in
    elim (Outcome-cases
      (write_rows (assign_entries room.safe_mode) inds rows (set_ids inds room.H))) [
        | inl (G, made) ↦
            let done : r
                ≡ ok (record room {
                  H = modify_all (filter (ended_never G) inds) (stamp worker started t) G;
                  index = room.index + n;
                }) =
              sym e ∙ ground (arith, there, made) in
            rw done (
              omega (arith, make_room-index n h),
              λ i low.
                  let out : contains i (filter (ended_never G) inds) ≡ false = ground (
                    arith,
                    contains-filter (ended_never G) i inds,
                    range_from-contains h.index n i,
                  ) in
                  ap (map_option libe_fields) (
                    modify_all-other (filter (ended_never G) inds) (stamp worker started t) G i out
                    ∙ write_rows-below room.safe_mode h.index rows (set_ids inds room.H) G i low
                        made
                    ∙ set_ids-below h.index n room.H i low
                    ∙ make_room-below n h i (omega (arith, low, ok_h.0))),
            )
        | inr (x, failed) ↦
            let raised : r ≡ raise x = sym e ∙ ground (arith, there, failed) in
            let other : x ≢ index_error = λ same.
              write_rows-ne-index_error room.safe_mode h.index rows (set_ids inds room.H)
                (omega (arith, inside.0, set_ids-length inds room.H)) (failed ∙ ap raise same) in
            rw raised other
      ]

append_new_fields-below :
    (rows : List (List Entry)) (h : History) (i : ℕ)
    → map_option libe_fields (get_elem? (append_new_fields rows h).H i)
      ≡ map_option libe_fields (get_elem? h.H i)
unfolding append_new_fields
append_new_fields-below [] h i = refl
append_new_fields-below (row ∷ rows) h i =
    elim (Bool-cases (any (λ f. not (has_field f.0 h.blank)) (user_fields row))) [
      | inl missing ↦
          rw (missing, get_elem?-map (add_to_row (user_fields row)) h.H i)
            (elim (Option-cases (get_elem? h.H i)) [
              | inl gone ↦ rw gone refl
              | inr (r, there) ↦ rw there refl
            ])
      | inr full ↦ rw full refl
    ]

-- New fields of the user make no difference.
moved :
    (rows : List (List Entry)) (h : History) (n : ℕ) (r : Outcome HistoryError History)
    → HaveRoom (append_new_fields rows h) n r
    → HaveRoom h n r
moved rows h n (ok g) room =
    let added = append_new_fields-ids rows h in
    (
      omega (arith, added.1, room.0),
      λ i low. room.1 i (omega (arith, added.1, low)) ∙ append_new_fields-below rows h i,
    )
moved rows h n (raise x) room = room

-- Points without sim_ids, however many there are, for a history whose rows below the index are numbered and
-- the others not: if they are taken in, the index moves by their number and the rows before it keep all but
-- the user's fields; and if the call fails, that is not for want of a row, since the array grows.
pub update_history_x_in-HaveRoom :
    (worker : ℕ) (D : GenOut) (started t : ℕ) (h : History)
    → IsHistory h
    → D.sim_ids ≡ none
    → HaveRoom h (length D.rows) (update_history_x_in worker D started t h)
unfolding update_history_x_in place
update_history_x_in-HaveRoom worker D started t h ok_h plain =
    let wide = append_new_fields D.rows h in
    let added : SameIds h.H wide.H × (wide.index ≡ h.index) = append_new_fields-ids D.rows h in
    let ok_wide : IsHistory wide = SameIds-IsHistory h wide ok_h added.0 added.1 in
    elim (Bool-cases (length D.rows == 0)) [
      | inl empty ↦ rw empty (ground arith, λ i low. refl)
      | inr rows ↦
          let r =
            write_points worker D.rows started t (range_from wide.index (length D.rows))
              (length D.rows) (make_room (length D.rows) wide) in
          rw (rows, plain)
            (moved D.rows h (length D.rows) r
              (write_points-HaveRoom worker D.rows started t wide ok_wide r refl))
    ]
