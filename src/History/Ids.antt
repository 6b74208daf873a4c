-- ===== src/History/Ids.antt =====
-- libensemble/history.py, class History: the sim_ids of the rows of H.
use libensemble.Base.{
  ℕ, zero, suc, ◌≤◌, ◌≡◌, refl, ◌∙◌, Bool, true, false, List, [], ◌∷◌, Option, none, some, Outcome,
  ok, All, Option-cases, Outcome-cases, inl, inr, ltb, if◌then◌else◌, length, modify_at, arith,
  length-modify_at,
}
use libensemble.History.{
  Row, History, SimEntry, sim_id, entry, Entry, cancel_requested, field, protected, HistoryError,
  Protected, gen_worker, gen_started_time, gen_ended_time, sim_worker, sim_started,
  sim_started_time, sim_ended, sim_ended_time, gen_informed, gen_informed_time, kill_sent,
}
use libensemble.History.Updates.{modify_all}
use libensemble.History.Entries.{
  assign_entries, assign_entry, set_protected, merge_entries, merge_entry, merge_sim_entry,
  fit_value, get_field,
}

-- The sim_id of a row; a row that is not there has none.

abbrev pub sim_id_at : List Row → ℕ → Option ℕ
sim_id_at [] i = none
sim_id_at (r ∷ H) zero = r.sim_id
sim_id_at (r ∷ H) (suc i) = sim_id_at H i

-- The rows below `index` are numbered by position, and those from there on have no sim_id.
unfoldable pub IsHistory : History → Type 0
IsHistory h =
    (h.index ≤ length h.H) × ((i : ℕ) → sim_id_at h.H i ≡ (if ltb i h.index then some i else none))

-- The same number of rows, with the same sim_ids.
abbrev pub SameIds : List Row → List Row → Type 0
SameIds H G = (length G ≡ length H) × ((i : ℕ) → sim_id_at G i ≡ sim_id_at H i)

abbrev pub KeepsId : (Row → Row) → Type 0
KeepsId f = (r : Row) → (f r).sim_id ≡ r.sim_id

pub SameIds-trans : (H G K : List Row) → SameIds H G → SameIds G K → SameIds H K
SameIds-trans H G K a b = (b.0 ∙ a.0, λ i. b.1 i ∙ a.1 i)

modify_at-ids :
    (f : Row → Row)
    → KeepsId f
    → (j : ℕ) (H : List Row) (i : ℕ) → sim_id_at (modify_at j f H) i ≡ sim_id_at H i
modify_at-ids f k j [] i = refl
modify_at-ids f k zero (r ∷ H) zero = k r
modify_at-ids f k zero (r ∷ H) (suc i) = refl
modify_at-ids f k (suc j) (r ∷ H) zero = refl
modify_at-ids f k (suc j) (r ∷ H) (suc i) = modify_at-ids f k j H i

pub modify_at-SameIds :
    (f : Row → Row) → KeepsId f → (j : ℕ) (H : List Row) → SameIds H (modify_at j f H)
modify_at-SameIds f k j H = (length-modify_at j f H, modify_at-ids f k j H)

pub modify_all-SameIds :
    (f : Row → Row) → KeepsId f → (inds : List ℕ) (H : List Row) → SameIds H (modify_all inds f H)
unfolding modify_all
modify_all-SameIds f k [] H = (refl, λ i. refl)
modify_all-SameIds f k (j ∷ inds) H =
    SameIds-trans H (modify_at j f H) (modify_all inds f (modify_at j f H))
      (modify_at-SameIds f k j H) (modify_all-SameIds f k inds (modify_at j f H))

-- A change of one row that keeps its sim_id if it succeeds.
abbrev pub StepKeepsId : (List Entry → Row → Outcome HistoryError Row) → Type 0
StepKeepsId step = (es : List Entry) (r s : Row) → step es r ≡ ok s → s.sim_id ≡ r.sim_id

set_protected-KeepsId : (e : Protected) → KeepsId (set_protected e)
unfolding set_protected
set_protected-KeepsId (gen_worker _) r = refl
set_protected-KeepsId (gen_started_time _) r = refl
set_protected-KeepsId (gen_ended_time _) r = refl
set_protected-KeepsId (sim_worker _) r = refl
set_protected-KeepsId (sim_started _) r = refl
set_protected-KeepsId (sim_started_time _) r = refl
set_protected-KeepsId (sim_ended _) r = refl
set_protected-KeepsId (sim_ended_time _) r = refl
set_protected-KeepsId (gen_informed _) r = refl
set_protected-KeepsId (gen_informed_time _) r = refl
set_protected-KeepsId (kill_sent _) r = refl

assign_entry-id :
    (safe : Bool) (e : Entry) (r s : Row) → assign_entry safe e r ≡ ok s → s.sim_id ≡ r.sim_id
unfolding assign_entry
assign_entry-id safe (cancel_requested b) r s h = ground arith
assign_entry-id safe (field name v) r s h = elim (Option-cases (get_field name r.user)) [
  | inl gone ↦ absurd (ground arith)
  | inr (w, there) ↦ elim (Outcome-cases (fit_value v w)) [
    | inl (u, fits) ↦ ground arith
    | inr (x, failed) ↦ absurd (ground arith)
  ]
]
assign_entry-id true (protected e) r s h = ground arith
assign_entry-id false (protected e) r s h = ground (arith, set_protected-KeepsId e r)

pub assign_entries-StepKeepsId : (safe : Bool) → StepKeepsId (assign_entries safe)
unfolding assign_entries
assign_entries-StepKeepsId safe [] r s h = ground arith
assign_entries-StepKeepsId safe (e ∷ es) r s h = elim (Outcome-cases (assign_entry safe e r)) [
  | inl (q, made) ↦
      let same : q.sim_id ≡ r.sim_id = assign_entry-id safe e r q made in
      assign_entries-StepKeepsId safe es q s (ground arith) ∙ same
  | inr (x, failed) ↦ absurd (ground arith)
]

merge_entry-id :
    (safe : Bool) (e : Entry) (r s : Row) → merge_entry safe e r ≡ ok s → s.sim_id ≡ r.sim_id
unfolding merge_entry
merge_entry-id safe (cancel_requested b) r s h = assign_entry-id safe (cancel_requested b) r s h
merge_entry-id safe (protected e) r s h = assign_entry-id safe (protected e) r s h
merge_entry-id safe (field name v) r s h = ground arith

-- The row of a simulation's output has a sim_id.
abbrev pub has_id : List SimEntry → Bool
has_id [] = false
has_id (sim_id _ ∷ es) = true
has_id (entry _ ∷ es) = has_id es

-- No row of a simulation's output has a sim_id.
abbrev pub HaveNoIds : Option (List (List SimEntry)) → Type 0
HaveNoIds none = Unit {0}
HaveNoIds (some rows) = All (λ es. has_id es ≡ false) rows

pub merge_entries-id :
    (safe : Bool) (es : List SimEntry) (r s : Row)
    → has_id es ≡ false
    → merge_entries safe es r ≡ ok s
    → s.sim_id ≡ r.sim_id
unfolding merge_entries merge_sim_entry
merge_entries-id safe [] r s plain h = ground arith
merge_entries-id safe (sim_id i ∷ es) r s plain h = absurd (ground arith)
merge_entries-id safe (entry e ∷ es) r s plain h = elim (Outcome-cases (merge_entry safe e r)) [
  | inl (q, made) ↦
      let same : q.sim_id ≡ r.sim_id = merge_entry-id safe e r q made in
      merge_entries-id safe es q s plain (ground arith) ∙ same
  | inr (x, failed) ↦ absurd (ground arith)
]
