-- ===== src/History/Numbering.antt =====
-- libensemble/history.py, class History: update_history_x_in numbers the rows without a gap.
use libensemble.Base.{
  ℕ, zero, suc, ◌+◌, ◌-◌, ◌≤◌, ◌<◌, ◌≡◌, refl, ◌∙◌, ap, Bool, true, false, ◌&&◌, not, List, [], ◌∷◌,
  none, some, ok, Option-cases, Bool-cases, inl, inr, ltb, ◌==◌, if◌then◌else◌, length, modify_at,
  contains, any, all, arith, length-modify_at, IsDistinct, subset_length,
}
use libensemble.History.{Row, History, GenOut}
use libensemble.History.Updates.{range_from, new_ids, place, set_ids, maximum, make_room}
use libensemble.History.Ids.{sim_id_at, IsHistory}
use libensemble.History.Rows.{make_room-ids, make_room-length}

set_id-ids :
    (H : List Row) (j v i : ℕ)
    → sim_id_at (modify_at j (λ r. record r { sim_id = some v }) H) i
      ≡ (if i == j && ltb i (length H) then some v else sim_id_at H i)
set_id-ids [] j v i = ground arith
set_id-ids (r ∷ H) zero v zero = ground arith
set_id-ids (r ∷ H) zero v (suc i) = ground arith
set_id-ids (r ∷ H) (suc j) v zero = ground arith
set_id-ids (r ∷ H) (suc j) v (suc i) = ground (arith, set_id-ids H j v i)

pub set_ids-length : (inds : List ℕ) (H : List Row) → length (set_ids inds H) ≡ length H
unfolding set_ids
set_ids-length [] H = refl
set_ids-length (i ∷ inds) H =
    set_ids-length inds (modify_at i (λ r. record r { sim_id = some i }) H)
    ∙ length-modify_at i (λ r. record r { sim_id = some i }) H

pub set_ids-ids :
    (inds : List ℕ) (H : List Row) (i : ℕ)
    → sim_id_at (set_ids inds H) i
      ≡ (if contains i inds && ltb i (length H) then some i else sim_id_at H i)
unfolding set_ids
set_ids-ids [] H i = refl
set_ids-ids (j ∷ inds) H i = ground (
  arith,
  set_ids-ids inds (modify_at j (λ r. record r { sim_id = some j }) H) i,
  set_id-ids H j j i,
  length-modify_at j (λ r. record r { sim_id = some j }) H,
)

pub range_from-contains :
    (k n i : ℕ) → contains i (range_from k n) ≡ (not (ltb i k) && ltb i (k + n))
unfolding range_from
range_from-contains k zero i = ground arith
range_from-contains k (suc n) i = ground (arith, range_from-contains (k + 1) n i)

pub range_from-length : (k n : ℕ) → length (range_from k n) ≡ n
unfolding range_from
range_from-length k zero = refl
range_from-length k (suc n) = ap suc (range_from-length (k + 1) n)

range_from-IsDistinct : (k n : ℕ) → IsDistinct (range_from k n)
unfolding range_from
range_from-IsDistinct k zero = tt
range_from-IsDistinct k (suc n) =
    (ground (arith, range_from-contains (k + 1) n k), range_from-IsDistinct (k + 1) n)

maximum-ge : (ids : List ℕ) (i : ℕ) → contains i ids ≡ true → i ≤ maximum ids
maximum-ge [] i h = ground arith
maximum-ge (a ∷ ids) i h = ground (arith, maximum-ge ids i)

all-contains :
    (p : ℕ → Bool) (xs : List ℕ) (i : ℕ) → all p xs ≡ true → contains i xs ≡ true → p i ≡ true
all-contains p [] i h k = ground arith
all-contains p (x ∷ xs) i h k = elim (Bool-cases (i == x)) [
  | inl same ↦ let e : i ≡ x = ground arith in rw e (ground arith)
  | inr other ↦ ground (arith, all-contains p xs i)
]

-- The test of `new_ids` for a sim_id that H has.
abbrev is_known : List Row → ℕ → Bool
is_known H a = any (λ r. elim r.sim_id [ none ↦ false | some i ↦ i == a ]) H

is_known_sound : (H : List Row) (a : ℕ) → is_known H a ≡ true → (i : ℕ) × (sim_id_at H i ≡ some a)
is_known_sound [] a h = absurd (ground arith)
is_known_sound (r ∷ H) a h = elim (Option-cases r.sim_id) [
  | inl gone ↦
      let tail : (i : ℕ) × (sim_id_at H i ≡ some a) = is_known_sound H a (ground arith) in
      (suc tail.0, tail.1)
  | inr (v, there) ↦ elim (Bool-cases (v == a)) [
    | inl same ↦ (zero, ground arith)
    | inr other ↦
        let tail : (i : ℕ) × (sim_id_at H i ≡ some a) = is_known_sound H a (ground arith) in
        (suc tail.0, tail.1)
  ]
]

is_known_complete : (H : List Row) (a i : ℕ) → sim_id_at H i ≡ some a → is_known H a ≡ true
is_known_complete [] a i h = ground arith
is_known_complete (r ∷ H) a zero h = ground arith
is_known_complete (r ∷ H) a (suc i) h = ground (arith, is_known_complete H a i)

new_ids-contains :
    (ids : List ℕ) (H : List Row) (a : ℕ)
    → contains a (new_ids ids H) ≡ (contains a ids && not (is_known H a))
unfolding new_ids
new_ids-contains [] H a = refl
new_ids-contains (x ∷ ids) H a = elim (Bool-cases (a == x)) [
  | inl same ↦ let e : a ≡ x = ground arith in rw e (ground (arith, new_ids-contains ids H x))
  | inr other ↦ ground (arith, new_ids-contains ids H a)
]

new_ids-IsDistinct : (ids : List ℕ) (H : List Row) → IsDistinct (new_ids ids H)
unfolding new_ids
new_ids-IsDistinct [] H = tt
new_ids-IsDistinct (x ∷ ids) H = ground (arith, new_ids-IsDistinct ids H, new_ids-contains ids H x)

is_known-lt : (h : History) → IsHistory h → (a : ℕ) → is_known h.H a ≡ ltb a h.index
unfolding IsHistory
is_known-lt h ok_h a = elim (Bool-cases (is_known h.H a)) [
  | inl known ↦
      let at : (i : ℕ) × (sim_id_at h.H i ≡ some a) = is_known_sound h.H a known in
      ground (arith, at.1, ok_h.1 at.0)
  | inr unknown ↦ ground (arith, ok_h.1 a, is_known_complete h.H a a)
]

-- The rows that are written are below the new index, and every row from the old one to it is.
abbrev pub IsPlaced : ℕ → List ℕ → ℕ → Type 0
IsPlaced index inds n =
    (i : ℕ)
    → (contains i inds ≡ true → i < index + n)
      × (index ≤ i → i < index + n → contains i inds ≡ true)

-- A column of sim_ids with no gap brings as many new ones as it passes the index.
new_ids-length :
    (ids : List ℕ) (h : History)
    → IsHistory h
    → all (λ i. contains i ids) (range_from h.index (maximum ids + 1 - h.index)) ≡ true
    → length (new_ids ids h.H) ≡ maximum ids + 1 - h.index
new_ids-length ids h ok_h gapless =
    let n : ℕ = maximum ids + 1 - h.index in
    let upper : length (new_ids ids h.H) ≤ length (range_from h.index n) =
      subset_length (new_ids ids h.H) (range_from h.index n) (new_ids-IsDistinct ids h.H) (λ a k.
        ground (
          arith,
          new_ids-contains ids h.H a,
          is_known-lt h ok_h a,
          range_from-contains h.index n a,
          maximum-ge ids a,
        )) in
    let lower : length (range_from h.index n) ≤ length (new_ids ids h.H) =
      subset_length (range_from h.index n) (new_ids ids h.H) (range_from-IsDistinct h.index n)
        (λ a k. ground (
          arith,
          new_ids-contains ids h.H a,
          is_known-lt h ok_h a,
          range_from-contains h.index n a,
          all-contains (λ i. contains i ids) (range_from h.index n) a gapless k,
        )) in
    omega (arith, upper, lower, range_from-length h.index n)

-- What `place` returns: where the rows go, and the history with room for them.
pub place-IsPlaced :
    (D : GenOut) (h : History)
    → IsHistory h
    → (inds : List ℕ) (n : ℕ) (g : History) → place D h ≡ ok (inds, n, g)
    → IsPlaced h.index inds n × (g ≡ make_room n h)
unfolding place
place-IsPlaced D h ok_h inds n g e = elim (Option-cases D.sim_ids) [
  | inl absent ↦
      let k : ℕ = length D.rows in
      let at_inds : inds ≡ range_from h.index k = ground arith in
      let at_n : n ≡ k = ground arith in
      rw (at_inds, at_n)
        (
          (λ i. (
            ground (arith, range_from-contains h.index k i),
            λ low high. ground (arith, range_from-contains h.index k i),
          )),
          ground arith,
        )
  | inr (ids, there) ↦
      elim (Bool-cases
        (all (λ i. contains i ids) (range_from h.index (maximum ids + 1 - h.index)))) [
          | inr gap ↦ absurd (ground arith)
          | inl gapless ↦
              let at_inds : inds ≡ ids = ground arith in
              let at_n : n ≡ length (new_ids ids h.H) = ground arith in
              let many : n ≡ maximum ids + 1 - h.index = at_n ∙ new_ids-length ids h ok_h gapless in
              rw at_inds (
                (λ i. (
                  λ k. ground (arith, many, maximum-ge ids i k),
                  λ low high.
                      all-contains (λ j. contains j ids)
                        (range_from h.index (maximum ids + 1 - h.index)) i gapless
                        (ground
                          (arith, many, range_from-contains h.index (maximum ids + 1 - h.index) i)),
                )),
                ground arith,
              )
        ]
]

-- The sim_ids once the placed rows are numbered.
pub set_ids-placed :
    (h : History)
    → IsHistory h
    → (inds : List ℕ) (n : ℕ) → IsPlaced h.index inds n
    → (i : ℕ)
    → sim_id_at (set_ids inds (make_room n h).H) i ≡ (if ltb i (h.index + n) then some i else none)
unfolding IsHistory
set_ids-placed h ok_h inds n placed i = ground (
  arith,
  set_ids-ids inds (make_room n h).H i,
  make_room-ids n h i,
  make_room-length n h ok_h.0,
  ok_h.1 i,
  (placed i).0,
  (placed i).1,
)
