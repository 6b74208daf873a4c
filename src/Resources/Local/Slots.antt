-- ===== src/Resources/Local/Slots.antt =====
-- libensemble/resources/worker_resources.py, class WorkerResources: what the attributes of the slots say.
use Prim.Native.String.{String}
use libensemble.Base.{
  ℕ, ◌≡◌, refl, Bool, true, ◌&&◌, List, [], ◌∷◌, map, none, some, ◌==◌, if◌then◌else◌, length, all,
  arith, Bool-cases, inl, inr,
}
use libensemble.Resources.Local.{Slots, WorkerResources, same_slots, compare_slots, set_slot_count}

same_slots-length : (xs ys : List ℕ) → same_slots xs ys ≡ true → length xs ≡ length ys
same_slots-length [] [] h = refl
same_slots-length [] (y ∷ ys) h = absurd (ground arith)
same_slots-length (x ∷ xs) [] h = absurd (ground arith)
same_slots-length (x ∷ xs) (y ∷ ys) h = ground (arith, same_slots-length xs ys)

compare_slots_lem :
    (first : List ℕ) (lists : List (List ℕ)) (all_match : Bool)
    → ((compare_slots first lists all_match).0 ≡ (all_match && all (λ l. same_slots l first) lists))
      × ((compare_slots first lists all_match).1 ≡ all (λ l. length l == length first) lists)
unfolding compare_slots
compare_slots_lem first [] all_match = (ground arith, refl)
compare_slots_lem first (l ∷ lists) all_match = elim (Bool-cases (length l == length first)) [
  | inl as_long ↦
      let rest = compare_slots_lem first lists (all_match && same_slots l first) in
      (ground (arith, rest.0), ground (arith, rest.1))
  | inr other ↦ (ground (arith, same_slots-length l first), ground arith)
]

-- What the attributes say of slots that are there: `even_slots` that all lists are as long as the first,
-- `matching_slots` that all are equal to it, and the other two are the length and the list, or None.
pub record AreSummed (w g : WorkerResources) (first : List ℕ) : Type 0 where
  pub same_slots_kept : g.slots ≡ w.slots
  pub matches : g.matching_slots ≡ all (λ l. same_slots l.1 first) w.slots
  pub evens : g.even_slots ≡ all (λ l. length l.1 == length first) w.slots
  pub on_node : g.slots_on_node ≡ (if g.matching_slots then some first else none)
  pub counted : g.slot_count ≡ (if g.even_slots then some (length first) else none)
  pub follows : g.matching_slots ≡ true → g.even_slots ≡ true

all-map :
    (p : List ℕ → Bool) (slots : Slots)
    → all p (map (λ entry. entry.1) slots) ≡ all (λ entry. p entry.1) slots
all-map p [] = refl
all-map p (entry ∷ slots) = ground (arith, all-map p slots)

all_follow :
    (first : List ℕ) (slots : Slots)
    → all (λ l. same_slots l.1 first) slots ≡ true
    → all (λ l. length l.1 == length first) slots ≡ true
all_follow first [] h = refl
all_follow first (entry ∷ slots) h =
    let rest : all (λ l. length l.1 == length first) slots ≡ true =
      all_follow first slots (ground arith) in
    let as_long : length entry.1 ≡ length first = same_slots-length entry.1 first (ground arith) in
    ground (arith, rest, as_long)

-- For slots that are there, set_slot_count leaves them and sums them up: `even_slots` says that all lists
-- are as long as the first, `matching_slots` that all are equal to it, which implies the former, and
-- `slot_count` and `slots_on_node` are the length and the list where these hold, or else None.
pub set_slot_count-AreSummed :
    (w : WorkerResources) (node : String) (first : List ℕ) (rest : Slots)
    → w.slots ≡ (node, first) ∷ rest
    → AreSummed w (set_slot_count w) first
unfolding set_slot_count
set_slot_count-AreSummed w node first rest there =
    let lists = map (λ entry. entry.1) w.slots in
    let got = compare_slots_lem first lists true in
    let matches : (set_slot_count w).matching_slots ≡ all (λ l. same_slots l.1 first) w.slots =
      ground (arith, got.0, all-map (λ l. same_slots l first) w.slots) in
    let evens : (set_slot_count w).even_slots ≡ all (λ l. length l.1 == length first) w.slots =
      ground (arith, got.1, all-map (λ l. length l == length first) w.slots) in
    record {
      same_slots_kept = ground arith;
      matches = matches;
      evens = evens;
      on_node = ground arith;
      counted = ground arith;
      follows = λ h. ground (arith, matches, evens, all_follow first w.slots);
    }
