-- ===== src/History/Rows.antt =====
-- libensemble/history.py, class History: what the steps of its methods leave of the sim_ids.
use libensemble.Base.{
  ℕ, zero, suc, ◌+◌, ◌-◌, ◌*◌, ◌≤◌, max, ◌≡◌, refl, Bool, not, List, [], ◌∷◌, ◌++◌, map, some,
  Outcome, ok, Outcome-cases, Option-cases, Bool-cases, inl, inr, ltb, length, get_elem?, modify_at,
  replicate, All, false, any, all, arith, length-modify_at, length-append, length-replicate,
  length-map,
}
use libensemble.History.{Row, History, Entry, SimEntry, Fields, blank_row, HistoryError}
use libensemble.History.Updates.{
  modify_all, scatter, write_row, write_rows, return_rows, append_new_fields, grow_H, make_room,
  end_sim,
}
use libensemble.History.Entries.{merge_entries, user_fields, has_field, add_to_row}
use libensemble.History.Ids.{
  sim_id_at, SameIds, SameIds-trans, KeepsId, StepKeepsId, modify_at-SameIds, modify_all-SameIds,
  has_id, merge_entries-id,
}

replace-ids :
    (H : List Row) (i : ℕ) (r s : Row)
    → get_elem? H i ≡ some r
    → s.sim_id ≡ r.sim_id
    → (j : ℕ) → sim_id_at (modify_at i (λ _. s) H) j ≡ sim_id_at H j
replace-ids [] i r s there same j = refl
replace-ids (x ∷ H) zero r s there same zero = ground arith
replace-ids (x ∷ H) zero r s there same (suc j) = refl
replace-ids (x ∷ H) (suc i) r s there same zero = refl
replace-ids (x ∷ H) (suc i) r s there same (suc j) = replace-ids H i r s there same j

pub write_row-SameIds :
    {A : Type 0} (step : A → Row → Outcome HistoryError Row) (i : ℕ) (es : A)
    → ((r s : Row) → step es r ≡ ok s → s.sim_id ≡ r.sim_id)
    → (H G : List Row) → write_row step i es H ≡ ok G
    → SameIds H G
unfolding write_row
write_row-SameIds step i es keeps H G h = elim (Option-cases (get_elem? H i)) [
  | inl gone ↦ absurd (ground arith)
  | inr (r, there) ↦ elim (Outcome-cases (step es r)) [
    | inr (x, failed) ↦ absurd (ground arith)
    | inl (s, made) ↦
        let same : G ≡ modify_at i (λ _. s) H = ground arith in
        rw same (length-modify_at i (λ _. s) H, replace-ids H i r s there (keeps r s made))
  ]
]

pub write_rows-SameIds :
    (step : List Entry → Row → Outcome HistoryError Row)
    → StepKeepsId step
    → (inds : List ℕ) (rows : List (List Entry)) (H G : List Row)
    → write_rows step inds rows H ≡ ok G
    → SameIds H G
unfolding write_rows
write_rows-SameIds step keeps [] rows H G h =
    let same : G ≡ H = ground arith in rw same (refl, λ i. refl)
write_rows-SameIds step keeps (i ∷ inds) [] H G h = absurd (ground arith)
write_rows-SameIds step keeps (i ∷ inds) (es ∷ rows) H G h =
    elim (Outcome-cases (write_row step i es H)) [
      | inr (x, failed) ↦ absurd (ground arith)
      | inl (K, made) ↦
          SameIds-trans H K G (write_row-SameIds step i es (keeps es) H K made)
            (write_rows-SameIds step keeps inds rows K G (ground arith))
    ]

pub return_rows-SameIds :
    (safe : Bool) (t : ℕ) (inds : List ℕ) (rows : List (List SimEntry)) (H G : List Row)
    → All (λ es. has_id es ≡ false) rows
    → return_rows safe t inds rows H ≡ ok G
    → SameIds H G
unfolding return_rows
return_rows-SameIds safe t [] rows H G plain h =
    let same : G ≡ H = ground arith in rw same (refl, λ i. refl)
return_rows-SameIds safe t (i ∷ inds) [] H G plain h = absurd (ground arith)
return_rows-SameIds safe t (i ∷ inds) (es ∷ rows) H G plain h =
    elim (Outcome-cases (write_row (merge_entries safe) i es H)) [
      | inr (x, failed) ↦ absurd (ground arith)
      | inl (K, made) ↦
          let wrote : SameIds H K =
            write_row-SameIds (merge_entries safe) i es
              (λ r s. merge_entries-id safe es r s plain.0) H K made in
          let ended : SameIds K (modify_at i (end_sim t) K) =
            modify_at-SameIds (end_sim t) (λ r. refl) i K in
          SameIds-trans H K G wrote (
            SameIds-trans K (modify_at i (end_sim t) K) G ended (
              return_rows-SameIds safe t inds rows (modify_at i (end_sim t) K) G plain.1
                (ground arith)))
    ]

pub scatter-SameIds :
    (inds : List ℕ) (f : Row → Row)
    → KeepsId f
    → (H G : List Row) → scatter inds f H ≡ ok G
    → SameIds H G
unfolding scatter
scatter-SameIds inds f keeps H G h = elim (Bool-cases (all (λ i. ltb i (length H)) inds)) [
  | inl inside ↦
      let same : G ≡ modify_all inds f H = ground arith in
      rw same (modify_all-SameIds f keeps inds H)
  | inr outside ↦ absurd (ground arith)
]

map-ids :
    (f : Row → Row) → KeepsId f → (H : List Row) (i : ℕ) → sim_id_at (map f H) i ≡ sim_id_at H i
map-ids f k [] i = refl
map-ids f k (r ∷ H) zero = k r
map-ids f k (r ∷ H) (suc i) = map-ids f k H i

pub append_new_fields-ids :
    (rows : List (List Entry)) (h : History)
    → SameIds h.H (append_new_fields rows h).H × ((append_new_fields rows h).index ≡ h.index)
unfolding append_new_fields
append_new_fields-ids [] h = ((refl, λ i. refl), refl)
append_new_fields-ids (row ∷ rows) h =
    elim (Bool-cases (any (λ f. not (has_field f.0 h.blank)) (user_fields row))) [
      | inl missing ↦ rw missing (
        (
          length-map (add_to_row (user_fields row)) h.H,
          map-ids (add_to_row (user_fields row)) (λ r. refl) h.H,
        ),
        refl,
      )
      | inr full ↦ rw full ((refl, λ i. refl), refl)
    ]

blanks-ids :
    (H : List Row) (k : ℕ) (fields : Fields) (i : ℕ)
    → sim_id_at (H ++ replicate k (blank_row fields)) i ≡ sim_id_at H i
blanks-ids [] zero fields i = refl
blanks-ids [] (suc k) fields zero = refl
blanks-ids [] (suc k) fields (suc i) = blanks-ids [] k fields i
blanks-ids (r ∷ H) k fields zero = refl
blanks-ids (r ∷ H) k fields (suc i) = blanks-ids H k fields i

pub make_room-ids : (n : ℕ) (h : History) (i : ℕ) → sim_id_at (make_room n h).H i ≡ sim_id_at h.H i
unfolding make_room grow_H
make_room-ids n h i =
    ground (arith, blanks-ids h.H (max (n - (length h.H - h.index)) (2 * h.grow_count)) h.blank i)

-- There is room for the new rows, and none of the old is lost.
pub make_room-length :
    (n : ℕ) (h : History)
    → h.index ≤ length h.H
    → (h.index + n ≤ length (make_room n h).H) × (length h.H ≤ length (make_room n h).H)
unfolding make_room grow_H
make_room-length n h inside =
    let k = max (n - (length h.H - h.index)) (2 * h.grow_count) in
    let grown : length (h.H ++ replicate k (blank_row h.blank)) ≡ length h.H + k = omega (
      arith,
      length-append h.H (replicate k (blank_row h.blank)),
      length-replicate k (blank_row h.blank),
    ) in
    ground (arith, grown)
