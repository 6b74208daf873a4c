-- ===== src/History/Updated.antt =====
-- libensemble/history.py, class History: every method keeps H numbered.
use libensemble.Base.{
  ℕ, ◌+◌, ◌≡◌, refl, Bool, true, false, List, [], ◌∷◌, map, All, Option, none, some, ok,
  Outcome-cases, Bool-cases, inl, inr, ltb, ◌==◌, if◌then◌else◌, length, all, filter, arith,
}
use libensemble.History.{Row, History, Entry, SimEntry, GenOut}
use libensemble.History.Updates.{
  update_history_x_in, update_history_x_out, update_history_f, update_history_to_gen, scatter,
  return_rows, place, make_room, set_ids, write_rows, append_new_fields, ended_never, stamp,
  write_points, grow_H, modify_all, output_rows, ended_at,
}
use libensemble.History.Entries.{assign_entries, plain_entries}
use libensemble.History.Ids.{
  IsHistory, HaveNoIds, has_id, SameIds, SameIds-trans, modify_all-SameIds,
  assign_entries-StepKeepsId,
}
use libensemble.History.Rows.{
  scatter-SameIds, return_rows-SameIds, write_rows-SameIds, append_new_fields-ids, make_room-length,
}
use libensemble.History.Numbering.{IsPlaced, place-IsPlaced, set_ids-placed, set_ids-length}

pub SameIds-IsHistory :
    (h g : History) → IsHistory h → SameIds h.H g.H → g.index ≡ h.index → IsHistory g
unfolding IsHistory
SameIds-IsHistory h g ok_h same e =
    (omega (arith, ok_h.0, same.0, e), λ i. ground (arith, same.1 i, ok_h.1 i, e))

make_room-index : (n : ℕ) (h : History) → (make_room n h).index ≡ h.index
unfolding make_room grow_H
make_room-index n h = ground arith

-- Once the rows have their places, they are numbered, and no write changes a number.
write_points-IsHistory :
    (worker : ℕ) (rows : List (List Entry)) (started t : ℕ) (inds : List ℕ) (n : ℕ) (h h' : History)
    → IsHistory h
    → IsPlaced h.index inds n
    → write_points worker rows started t inds n (make_room n h) ≡ ok h'
    → IsHistory h'
unfolding write_points IsHistory
write_points-IsHistory worker rows started t inds n h h' ok_h placed e =
    let g = make_room n h in
    elim (Bool-cases (all (λ i. ltb i (length g.H)) inds)) [
      | inr outside ↦ absurd (ground arith)
      | inl inside ↦
          elim (Outcome-cases
            (write_rows (assign_entries g.safe_mode) inds rows (set_ids inds g.H))) [
              | inr (x, failed) ↦ absurd (ground arith)
              | inl (H, made) ↦
                  let G : List Row =
                    modify_all (filter (ended_never H) inds) (stamp worker started t) H in
                  let wrote : SameIds (set_ids inds g.H) H =
                    write_rows-SameIds (assign_entries g.safe_mode)
                      (assign_entries-StepKeepsId g.safe_mode) inds rows (set_ids inds g.H) H
                      made in
                  let stamped : SameIds H G =
                    modify_all-SameIds (stamp worker started t) (λ r. refl)
                      (filter (ended_never H) inds) H in
                  let same : SameIds (set_ids inds g.H) G =
                    SameIds-trans (set_ids inds g.H) H G wrote stamped in
                  let at_H : h'.H ≡ G = ground arith in
                  let at_index : h'.index ≡ h.index + n = ground (arith, make_room-index n h) in
                  rw (at_H, at_index)
                    (
                      omega (arith, same.0, set_ids-length inds g.H, make_room-length n h ok_h.0),
                      λ i. ground (arith, same.1 i, set_ids-placed h ok_h inds n placed i),
                    )
            ]
    ]

-- Rows that a generator returns, with sim_ids or without, leave the rows below the index numbered
-- by their positions and those from there on with no sim_id, whatever other fields they set.
pub update_history_x_in-IsHistory :
    (worker : ℕ) (D : GenOut) (started t : ℕ) (h g : History)
    → IsHistory h
    → update_history_x_in worker D started t h ≡ ok g
    → IsHistory g
unfolding update_history_x_in
update_history_x_in-IsHistory worker D started t h g ok_h e =
    let wide = append_new_fields D.rows h in
    let added : SameIds h.H wide.H × (wide.index ≡ h.index) = append_new_fields-ids D.rows h in
    let ok_wide : IsHistory wide = SameIds-IsHistory h wide ok_h added.0 added.1 in
    elim (Bool-cases (length D.rows == 0)) [
      | inl empty ↦ let same : g ≡ h = ground arith in rw same ok_h
      | inr rows ↦ elim (Outcome-cases (place D wide)) [
        | inr (x, failed) ↦ absurd (ground arith)
        | inl ((inds, n, room), made) ↦
            let placed : IsPlaced wide.index inds n × (room ≡ make_room n wide) =
              place-IsPlaced D wide ok_wide inds n room made in
            write_points-IsHistory worker D.rows started t inds n wide g ok_wide placed.0
              (rw (← placed.1) (ground arith))
      ]
    ]

-- Handing out rows keeps their numbers.
pub update_history_x_out-IsHistory :
    (q_inds : List ℕ) (worker : ℕ) (kill : Bool) (t : ℕ) (h g : History)
    → IsHistory h
    → update_history_x_out q_inds worker kill t h ≡ ok g
    → IsHistory g
unfolding update_history_x_out
update_history_x_out-IsHistory q_inds worker kill t h g ok_h e =
    elim (Outcome-cases (
      scatter q_inds
        (λ r. record r { sim_started = true; sim_started_time = some t; sim_worker = worker })
        h.H)) [
          | inr (x, failed) ↦ absurd (ground arith)
          | inl (H, made) ↦
              let same : SameIds h.H H =
                scatter-SameIds q_inds
                  (λ r. record r {
                    sim_started = true;
                    sim_started_time = some t;
                    sim_worker = worker;
                  })
                  (λ r. refl) h.H H made in
              let at_H : g.H ≡ H = ground arith in
              let at_index : g.index ≡ h.index = ground arith in
              SameIds-IsHistory h g ok_h (rw at_H same) at_index
        ]

output_rows-no_ids :
    (inds : List ℕ) (out : Option (List (List SimEntry)))
    → HaveNoIds out
    → All (λ es. has_id es ≡ false) (output_rows inds out)
output_rows-no_ids inds (some rows) plain = plain
output_rows-no_ids [] none plain = tt
output_rows-no_ids (i ∷ inds) none plain = (refl, output_rows-no_ids inds none plain)

-- Results of simulations that have no sim_id keep the numbers.
pub update_history_f-IsHistory :
    (inds : List ℕ) (out : Option (List (List SimEntry))) (kill : Bool) (t : ℕ) (h g : History)
    → IsHistory h
    → HaveNoIds out
    → update_history_f inds out kill t h ≡ ok g
    → IsHistory g
unfolding update_history_f
update_history_f-IsHistory inds out kill t h g ok_h plain e =
    let rows = output_rows inds out in
    let fields = map plain_entries rows in
    let added : SameIds h.H (append_new_fields fields h).H
        × ((append_new_fields fields h).index ≡ h.index) =
      append_new_fields-ids fields h in
    elim (Outcome-cases (return_rows h.safe_mode t inds rows (append_new_fields fields h).H)) [
      | inr (x, failed) ↦ absurd (ground arith)
      | inl (H, made) ↦
          let same : SameIds (append_new_fields fields h).H H =
            return_rows-SameIds h.safe_mode t inds rows (append_new_fields fields h).H H
              (output_rows-no_ids inds out plain) made in
          let at_H : g.H ≡ H = ground arith in
          let at_index : g.index ≡ h.index = ground (arith, added.1) in
          SameIds-IsHistory h g ok_h
            (rw at_H (SameIds-trans h.H (append_new_fields fields h).H H added.0 same)) at_index
    ]

to_gen-SameIds :
    (inds ended : List ℕ) (t : ℕ) (H : List Row)
    → SameIds H (
        modify_all inds
          (λ r. record r { gen_informed_time = some t })
          (modify_all ended (λ r. record r { gen_informed = true }) H))
to_gen-SameIds inds ended t H =
    let marked = modify_all ended (λ r. record r { gen_informed = true }) H in
    SameIds-trans H marked (modify_all inds (λ r. record r { gen_informed_time = some t }) marked)
      (modify_all-SameIds (λ r. record r { gen_informed = true }) (λ r. refl) ended H)
      (modify_all-SameIds (λ r. record r { gen_informed_time = some t }) (λ r. refl) inds marked)

-- Rows that go back to the generator keep the numbers.
pub update_history_to_gen-IsHistory :
    (inds : List ℕ) (t : ℕ) (h g : History)
    → IsHistory h
    → update_history_to_gen inds t h ≡ ok g
    → IsHistory g
unfolding update_history_to_gen
update_history_to_gen-IsHistory [] t h g ok_h e = let same : g ≡ h = ground arith in rw same ok_h
update_history_to_gen-IsHistory (i ∷ inds) t h g ok_h e =
    let q_inds = i ∷ inds in
    let ended = if all (ended_at h.H) q_inds then q_inds else filter (ended_at h.H) q_inds in
    elim (Bool-cases (all (λ j. ltb j (length h.H)) q_inds)) [
      | inr outside ↦ absurd (ground arith)
      | inl inside ↦
          let at_H : g.H
              ≡ modify_all q_inds (λ r. record r { gen_informed_time = some t })
                  (modify_all ended (λ r. record r { gen_informed = true }) h.H) =
            ground arith in
          let at_index : g.index ≡ h.index = ground arith in
          SameIds-IsHistory h g ok_h (rw at_H (to_gen-SameIds q_inds ended t h.H)) at_index
    ]
