-- ===== src/History/Start.antt =====
-- libensemble/history.py, class History: the history as it is built.
use libensemble.Base.{
  ℕ, zero, suc, ◌+◌, ◌<◌, ◌≡◌, refl, ◌∙◌, true, List, [], ◌∷◌, ◌++◌, map, Option, none, some,
  Bool-cases, inl, inr, ltb, if◌then◌else◌, length, replicate, arith, length-append, length-map,
}
use libensemble.History.{
  Row, Fields, Initial, init_history, prepend_H0, number_from, mark_H0, rows_of, blank_row,
}
use libensemble.History.Ids.{sim_id_at, IsHistory}

number_from-ids :
    (k : ℕ) (H : List Row) (i : ℕ)
    → sim_id_at (number_from k H) i ≡ (if ltb i (length H) then some (k + i) else none)
unfolding number_from
number_from-ids k [] i = ground arith
number_from-ids k (r ∷ H) zero = ground arith
number_from-ids k (r ∷ H) (suc i) = ground (arith, number_from-ids (k + 1) H i)

number_from-length : (k : ℕ) (H : List Row) → length (number_from k H) ≡ length H
unfolding number_from
number_from-length k [] = refl
number_from-length k (r ∷ H) = omega (arith, number_from-length (k + 1) H)

mark_H0-id : (H0 : Initial) (r : Row) → (mark_H0 H0 r).sim_id ≡ r.sim_id
mark_H0-id H0 r = ground arith

mark_H0-ids :
    (H0 : Initial) (H : List Row) (i : ℕ) → sim_id_at (map (mark_H0 H0) H) i ≡ sim_id_at H i
mark_H0-ids H0 [] i = refl
mark_H0-ids H0 (r ∷ H) zero = mark_H0-id H0 r
mark_H0-ids H0 (r ∷ H) (suc i) = mark_H0-ids H0 H i

append-blanks :
    (H : List Row) (k : ℕ) (fields : Fields) (i : ℕ)
    → sim_id_at (H ++ replicate k (blank_row fields)) i ≡ sim_id_at H i
append-blanks [] zero fields i = refl
append-blanks [] (suc k) fields zero = refl
append-blanks [] (suc k) fields (suc i) = append-blanks [] k fields i
append-blanks (r ∷ H) k fields zero = refl
append-blanks (r ∷ H) k fields (suc i) = append-blanks H k fields i

-- The rows given to the run are numbered by their positions, or have no sim_id field.
abbrev pub IsNumbered : Initial → Type 0
IsNumbered H0 =
    H0.has_sim_id ≡ true
    → (i : ℕ) → sim_id_at H0.rows i ≡ (if ltb i (length H0.rows) then some i else none)

prepend_H0-ids :
    (L : ℕ) (H0 : Initial)
    → 0 < L
    → IsNumbered H0
    → (length (prepend_H0 L H0) ≡ length H0.rows)
      × ((i : ℕ)
          → sim_id_at (prepend_H0 L H0) i ≡ (if ltb i (length H0.rows) then some i else none))
unfolding prepend_H0
prepend_H0-ids L H0 positive numbered =
    let marked = map (mark_H0 H0) H0.rows in
    (
      ground (arith, length-map (mark_H0 H0) H0.rows, number_from-length 0 marked),
      λ i. elim (Bool-cases H0.has_sim_id) [
        | inl given ↦ ground (arith, mark_H0-ids H0 H0.rows i, numbered given i)
        | inr absent ↦ ground (arith, length-map (mark_H0 H0) H0.rows, number_from-ids 0 marked i)
      ],
    )

-- A history as built is numbered, for a sim_max that is not 0 and rows H0 that are numbered by
-- their positions or not at all.
pub init_history-IsHistory :
    (sim_max : Option ℕ) (fields : Fields) (H0 : Initial)
    → 0 < rows_of sim_max
    → IsNumbered H0
    → IsHistory (init_history sim_max fields H0)
unfolding init_history IsHistory
init_history-IsHistory sim_max fields H0 positive numbered =
    let L = rows_of sim_max in
    let built : (length (prepend_H0 L H0) ≡ length H0.rows)
        × ((i : ℕ)
            → sim_id_at (prepend_H0 L H0) i ≡ (if ltb i (length H0.rows) then some i else none)) =
      prepend_H0-ids L H0 positive numbered in
    (
      omega (arith, built.0, length-append (prepend_H0 L H0) (replicate L (blank_row fields))),
      λ i. append-blanks (prepend_H0 L H0) L fields i ∙ built.1 i,
    )
